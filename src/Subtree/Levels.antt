-- ===== src/Subtree/Levels.antt =====
-- The levels of the tree: what a node is, and that the loops of BuildMerkleStore write the nodes.
use stumpt.Base.{
  ℕ, zero, suc, ◌+◌, ◌-◌, ◌*◌, ◌/◌, ◌≤◌, ◌<◌, ◌≡◌, refl, ap, arith, List, Option, some, true, ◌&&◌,
  ltb, leb, if◌then◌else◌, length, get_elem?, get_or, set, elem, elem-range_from, get_elem?-get_or,
}
use stumpt.Subtree.{
  Hash, zero_hash, pad_leaf, hash_pair, split_jobs, leaf_pair_step, level_pair_step, pair_order,
  hash_leaf_pairs, hash_level,
}
use stumpt.Subtree.Schedule.{Interleaving, elem-schedule}
use stumpt.Subtree.Fill.{place, AgreeBelow, length-place, get_elem?-place, for_each-place}

-- The leaf at a place of the padded bottom level: past the end it is the last leaf.
abbrev pub leaf_at : List Hash → ℕ → Hash
leaf_at leaves j = get_or leaves (if leb (length leaves) j then length leaves - 1 else j) zero_hash

-- The hash of the node at place `j` of level `k`, with no store in between.
unfoldable pub node : (List ℕ → List ℕ) → List Hash → ℕ → ℕ → Hash
node sha256 leaves zero j = leaf_at leaves j
node sha256 leaves (suc k) j =
    hash_pair sha256 (node sha256 leaves k (j * 2)) (node sha256 leaves k (j * 2 + 1))

pub pad_leaf-leaf_at :
    (leaves : List Hash) (j : ℕ)
    → 0 < length leaves
    → pad_leaf leaves j (length leaves) ≡ some (leaf_at leaves j)
unfolding pad_leaf
pad_leaf-leaf_at leaves j h = ground (
  arith,
  get_elem?-get_or leaves (length leaves - 1) zero_hash,
  get_elem?-get_or leaves j zero_hash,
)

-- What a phase leaves behind: the cells below `base` are kept, and `count` cells from there hold `v`.
abbrev pub Filled : ℕ → ℕ → (ℕ → Hash) → List Hash → Option (List Hash) → Type 0
Filled base count v store run =
    (t : List Hash) × (run ≡ some t)
    × (length t ≡ length store)
    × AgreeBelow base t store
    × ((j : ℕ) → j < count → get_elem? t (base + j) ≡ some (v j))

module _ (sha256 : List ℕ → List ℕ) (num_cpu : ℕ) (schedule : List (List ℕ) → List ℕ)
    (fair : (jobs : List (List ℕ)) → Interleaving jobs (schedule jobs)) where
  abbrev pairs : ℕ → List ℕ
  pairs = pair_order sha256 num_cpu schedule

  elem-pair_order : (x n : ℕ) → elem x (pairs n) ≡ ltb x n
  unfolding pair_order
  elem-pair_order x n =
      let shared = λ (h : 0 < num_cpu). elem-schedule x n num_cpu h (fair (split_jobs n num_cpu)) in
      ground (arith, elem-range_from x n 0, shared)

  Filled-place :
      (base count : ℕ) (v : ℕ → Hash) (store : List Hash)
      → base + count ≤ length store
      → Filled base count v store (some (place base v (pairs count) store))
  Filled-place base count v store room =
      let order = pairs count in
      let inside : (x : ℕ) → elem x order ≡ true → base + x < length store =
        λ x m. ground (arith, elem-pair_order x count) in
      let at : (i : ℕ)
          → get_elem? (place base v order store) i ≡ (
              if leb base i && elem (i - base) order
              then some (v (i - base))
              else get_elem? store i) =
        λ i. get_elem?-place base v order store i inside in
      (
        place base v order store,
        refl,
        length-place base v order store,
        λ i l. ground (arith, at i),
        λ j l. ground (
          arith,
          at (base + j),
          elem-pair_order j count,
          ap v {x = base + j - base} {y = j},
          ap (λ (t : ℕ). elem t order) {x = base + j - base} {y = j},
        ),
      )

  -- One level of the tree, from the level below it.
  pub hash_level_fills :
      (offset half : ℕ) (u : ℕ → Hash) (store : List Hash)
      → offset + 2 * half + half ≤ length store
      → ((j : ℕ) → j < 2 * half → get_elem? store (offset + j) ≡ some (u j))
      → Filled
          (offset + 2 * half)
          half
          (λ j. hash_pair sha256 (u (j * 2)) (u (j * 2 + 1)))
          store
          (hash_level sha256 num_cpu schedule offset (2 * half) store)
  unfolding hash_level
  hash_level_fills offset half u store room reads =
      let v : ℕ → Hash = λ j. hash_pair sha256 (u (j * 2)) (u (j * 2 + 1)) in
      let halved : 2 * half / 2 ≡ half = omega arith in
      rw
        (
          halved,
          for_each-place (offset + 2 * half) v half (level_pair_step sha256 offset (2 * half)) store
              (λ j s l e a. level_step_writes j s l e a) room (pairs half) store
              (λ x m. ground (arith, elem-pair_order x half)) refl (λ i l. refl),
        )
        (Filled-place (offset + 2 * half) half v store room)
    where
      level_step_writes :
          (j : ℕ) (s : List Hash)
          → j < half
          → length s ≡ length store
          → AgreeBelow (offset + 2 * half) s store
          → level_pair_step sha256 offset (2 * half) j s
            ≡ some (set s (offset + 2 * half + j) (hash_pair sha256 (u (j * 2)) (u (j * 2 + 1))))
      level_step_writes j s l e a =
          unfold level_pair_step in
          ground
            (arith, a (offset + j * 2), a (offset + (j * 2 + 1)), reads (j * 2), reads (j * 2 + 1))

  leaf_step_writes :
      (leaves store s : List Hash) (half j : ℕ)
      → 0 < length leaves
      → half ≤ length store
      → j < half
      → length s ≡ length store
      → leaf_pair_step sha256 leaves (length leaves) j s
        ≡ some (set s (0 + j) (node sha256 leaves 1 j))
  unfolding leaf_pair_step node
  leaf_step_writes leaves store s half j h room l e =
      let start : 0 + j ≡ j = omega arith in
      rw start
        (ground (arith, pad_leaf-leaf_at leaves (j * 2) h, pad_leaf-leaf_at leaves (j * 2 + 1) h))

  -- The first level, from the leaves.
  pub hash_leaf_pairs_fills :
      (leaves store : List Hash) (half : ℕ)
      → 0 < length leaves
      → half ≤ length store
      → Filled 0 half
          (node sha256 leaves 1)
          store
          (hash_leaf_pairs sha256 num_cpu schedule leaves (length leaves) (2 * half) store)
  unfolding hash_leaf_pairs
  hash_leaf_pairs_fills leaves store half h room =
      let halved : 2 * half / 2 ≡ half = omega arith in
      rw
        (
          halved,
          for_each-place 0 (node sha256 leaves 1) half
              (leaf_pair_step sha256 leaves (length leaves)) store
              (λ j s l e a. leaf_step_writes leaves store s half j h room l e) (omega arith)
              (pairs half) store (λ x m. ground (arith, elem-pair_order x half)) refl (λ i l. refl),
        )
        (Filled-place 0 half (node sha256 leaves 1) store (omega arith))
