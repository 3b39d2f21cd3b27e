-- ===== src/Subtree/Store.antt =====
-- BuildMerkleStore and MerkleRoot: every level of the store holds the nodes of that level.
use native.Mathlib.Decide.{ℕ_discrete}
use mathlib.Core.Path.{subst}
use stumpt.Base.{
  ℕ, zero, suc, ◌+◌, ◌-◌, ◌*◌, ◌/◌, ◌^◌, ◌≤◌, ◌<◌, ◌≡◌, refl, sym, ap, ◌∙◌, arith, List, [], ◌∷◌,
  Option, some, length, get_elem?, replicate, length-replicate, ltb, true,
}
use stumpt.Base.Loop.{◌>>=◌}
use stumpt.Subtree.{
  Hash, zero_hash, hash_level, hash_leaf_pairs, level_loop, build_merkle_store, next_power_of_two,
  log2_ceil,
}
use stumpt.Subtree.Sizes.{pow_double, pow_pos, lt_pow, next_power-log2, log2_ceil_enough}
use stumpt.Subtree.Schedule.{Interleaving}
use stumpt.Subtree.Fill.{AgreeBelow}
use stumpt.Subtree.Levels.{node, hash_level_fills, hash_leaf_pairs_fills}

-- `store` holds the nodes of the levels 1 to `height` over `leaves`, level after level, root last:
-- the level with `2 ^ r` nodes ends `2 ^ r` cells before the end of the padded bottom level's size.
pub record IsMerkleStore (sha256 : List ℕ → List ℕ) (leaves : List Hash) (height : ℕ)
    (store : List Hash) : Type 0 where
  pub size : suc (length store) ≡ 2 ^ height
  pub nodes :
      (k r j : ℕ)
      → k + r ≡ height
      → 1 ≤ k
      → j < 2 ^ r
      → get_elem? store (2 ^ height - 2 * 2 ^ r + j) ≡ some (node sha256 leaves k j)

pub two_leaves :
    (leaves : List Hash) → 1 < length leaves → (h : ℕ) × (log2_ceil (length leaves) ≡ suc h)
two_leaves leaves many = at_least_one (log2_ceil (length leaves)) (log2_ceil_enough (length leaves))
  where
    at_least_one : (h : ℕ) → length leaves ≤ 2 ^ h → (m : ℕ) × (h ≡ suc m)
    at_least_one zero p = absurd (omega arith)
    at_least_one (suc h) p = (h, refl)

module _ (sha256 : List ℕ → List ℕ) (num_cpu : ℕ) (schedule : List (List ℕ) → List ℕ) where
  abbrev phases : List Hash → ℕ → Option (List Hash)
  phases leaves pad =
      hash_leaf_pairs sha256 num_cpu schedule leaves (length leaves) pad
        (replicate (pad - 1) zero_hash)
      >>= λ s. level_loop sha256 num_cpu schedule (pad / 2) 0 (pad / 2) s

  phases_run :
      (leaves : List Hash) (half : ℕ) {s t : List Hash}
      → hash_leaf_pairs sha256 num_cpu schedule leaves
          (length leaves)
          (2 * half)
          (replicate (2 * half - 1) zero_hash)
        ≡ some s
      → level_loop sha256 num_cpu schedule half 0 half s ≡ some t
      → phases leaves (2 * half) ≡ some t
  phases_run leaves half ran rest =
      let halved : 2 * half / 2 ≡ half = omega arith in rw (ran, halved) rest

module _ (sha256 : List ℕ → List ℕ) (num_cpu : ℕ) (schedule : List (List ℕ) → List ℕ)
    (fair : (jobs : List (List ℕ)) → Interleaving jobs (schedule jobs)) (leaves : List Hash) where
  -- The nodes from level `k`, which has `2 ^ r` of them, up to the root.
  abbrev HasLevels : ℕ → ℕ → ℕ → List Hash → Type 0
  HasLevels total k r t =
      (k' r' j : ℕ)
      → k' + r' ≡ k + r
      → r' ≤ r
      → j < 2 ^ r'
      → get_elem? t (total - 2 * 2 ^ r' + j) ≡ some (node sha256 leaves k' j)

  abbrev LevelsDone : ℕ → ℕ → ℕ → List Hash → Option (List Hash) → Type 0
  LevelsDone k r offset store run =
      (t : List Hash) × (run ≡ some t)
      × (length t ≡ length store)
      × AgreeBelow (offset + 2 ^ r) t store
      × HasLevels (suc (length store)) k r t

  loop_over :
      (fuel offset : ℕ) (store : List Hash)
      → level_loop sha256 num_cpu schedule fuel offset 1 store ≡ some store
  unfolding level_loop
  loop_over zero offset store = refl
  loop_over (suc fuel) offset store = refl

  loop_round :
      (fuel offset half size : ℕ) (store s t : List Hash)
      → size ≡ 2 * half
      → 1 ≤ half
      → hash_level sha256 num_cpu schedule offset (2 * half) store ≡ some s
      → level_loop sha256 num_cpu schedule fuel (offset + 2 * half) half s ≡ some t
      → level_loop sha256 num_cpu schedule (suc fuel) offset size store ≡ some t
  unfolding level_loop
  loop_round fuel offset half size store s t e pos ran rest =
      let halved : 2 * half / 2 ≡ half = omega arith in
      let more : ltb 1 (2 * half) ≡ true = ground arith in rw (e, more, ran, halved) rest

  same_level :
      (k r k' r' j offset total : ℕ) (t : List Hash)
      → offset + 2 * 2 ^ r ≡ total
      → get_elem? t (offset + j) ≡ some (node sha256 leaves k j)
      → k' + r' ≡ k + r
      → r' ≡ r
      → get_elem? t (total - 2 * 2 ^ r' + j) ≡ some (node sha256 leaves k' j)
  same_level k r k' r' j offset total t e at sum same =
      let level : k' ≡ k = omega arith in
      let place : total - 2 * 2 ^ r + j ≡ offset + j = omega arith in rw (same, level, place) at

  level_loop_fills :
      (r fuel k offset : ℕ) (store : List Hash)
      → r ≤ fuel
      → offset + 2 * 2 ^ r ≡ suc (length store)
      → ((j : ℕ) → j < 2 ^ r → get_elem? store (offset + j) ≡ some (node sha256 leaves k j))
      → LevelsDone k r offset store (level_loop sha256 num_cpu schedule fuel offset (2 ^ r) store)
  unfolding level_loop
  level_loop_fills zero fuel k offset store f e reads = (
    store,
    loop_over fuel offset store,
    refl,
    λ i l. refl,
    λ k' r' j sum l m.
        let last : r' ≡ 0 = omega arith in
        same_level k 0 k' r' j offset _ store e (reads j (subst (λ x. j < 2 ^ x) last m)) sum last,
  )
  level_loop_fills (suc r) zero k offset store f e reads = absurd (omega arith)
  level_loop_fills (suc r) (suc fuel) k offset store f e reads =
      let double = pow_double r in
      let pos = pow_pos r in
      let (s, ran, size, kept, filled) =
        hash_level_fills sha256 num_cpu schedule fair offset (2 ^ r) (node sha256 leaves k) store
          (omega arith) (λ j l. reads j (omega arith)) in
      let (t, ran', size', kept', levels) =
        level_loop_fills r fuel (suc k) (offset + 2 * 2 ^ r) s (omega arith) (omega arith)
          (λ j l. unfold node in filled j l) in
      (
        t,
        loop_round fuel offset (2 ^ r) _ store s t double pos ran ran',
        size' ∙ size,
        λ i l. kept' i (omega arith) ∙ kept i (omega arith),
        λ k' r' j sum l m. elim (ℕ_discrete r' (suc r)) [
          | yes same ↦
              let below : j < 2 ^ suc r = subst (λ x. j < 2 ^ x) same m in
              same_level k (suc r) k' r' j offset _ t e
                (kept' (offset + j) (omega arith) ∙ kept (offset + j) (omega arith) ∙ reads j below)
                sum same
          | no other ↦
              subst (λ n. get_elem? t (suc n - 2 * 2 ^ r' + j) ≡ some (node sha256 leaves k' j))
                size (levels k' r' j (omega arith) (omega arith) m)
        ],
      )

  -- The phases of BuildMerkleStore on a padded size of `2 ^ suc h`.
  phases_fill :
      (h : ℕ)
      → 0 < length leaves
      → (t : List Hash) × (phases sha256 num_cpu schedule leaves (2 * 2 ^ h) ≡ some t)
        × IsMerkleStore sha256 leaves (suc h) t
  phases_fill h some_leaf =
      let pos = pow_pos h in
      let long : length (replicate (2 * 2 ^ h - 1) zero_hash) ≡ 2 * 2 ^ h - 1 =
        length-replicate (2 * 2 ^ h - 1) zero_hash in
      let (s, ran, size, kept, filled) =
        hash_leaf_pairs_fills sha256 num_cpu schedule fair leaves
          (replicate (2 * 2 ^ h - 1) zero_hash) (2 ^ h) some_leaf (omega arith) in
      let (t, ran', size', kept', levels) =
        level_loop_fills h (2 ^ h) 1 0 s (omega (arith, lt_pow h)) (omega arith) filled in
      let total : suc (length s) ≡ 2 ^ suc h = omega (arith, pow_double h) in
      (
        t,
        phases_run sha256 num_cpu schedule leaves (2 ^ h) ran ran',
        record {
          size = omega (arith, pow_double h);
          nodes = λ k r j sum one below.
              subst (λ n. get_elem? t (n - 2 * 2 ^ r + j) ≡ some (node sha256 leaves k j)) total
                (levels k r j (omega arith) (omega arith) below);
        },
      )

module _ (sha256 : List ℕ → List ℕ) (num_cpu : ℕ) (schedule : List (List ℕ) → List ℕ) where
  build-phases :
      (leaves : List Hash)
      → 1 < length leaves
      → build_merkle_store sha256 num_cpu schedule leaves
        ≡ phases sha256 num_cpu schedule leaves (next_power_of_two (length leaves))
  unfolding build_merkle_store
  build-phases [] many = absurd (omega arith)
  build-phases (x ∷ []) many = absurd (omega arith)
  build-phases (x ∷ y ∷ more) many = refl

  module _ (fair : (jobs : List (List ℕ)) → Interleaving jobs (schedule jobs))
      (leaves : List Hash) where
    -- BuildMerkleStore on two leaves or more does not panic, and its store holds every node of the
    -- padded tree, whatever the number of processors and the interleaving of the goroutines.
    pub build_merkle_store-IsMerkleStore :
        1 < length leaves
        → (t : List Hash) × (build_merkle_store sha256 num_cpu schedule leaves ≡ some t)
          × IsMerkleStore sha256 leaves (log2_ceil (length leaves)) t
    build_merkle_store-IsMerkleStore many =
        let (h, high) = two_leaves leaves many in
        let (t, ran, holds) = phases_fill sha256 num_cpu schedule fair leaves h (omega arith) in
        let pad : next_power_of_two (length leaves) ≡ 2 * 2 ^ h =
          next_power-log2 (length leaves) ∙ ap (λ (n : ℕ). 2 ^ n) high ∙ pow_double h in
        (
          t,
          build-phases leaves many ∙ ap (phases sha256 num_cpu schedule leaves) pad ∙ ran,
          subst (λ n. IsMerkleStore sha256 leaves n t) (sym high) holds,
        )
