-- ===== src/Merkleservice/Assembly/Resolve.antt =====
-- internal/merkleservice/bump.go: what the reader of a pruned BUMP computes. A node that is not
-- listed is the hash of its two children.
use Prim.Native.Nat.{bit_xor}
use stumpt.Base.{
  ℕ, zero, suc, ◌+◌, ◌-◌, ◌*◌, ◌/◌, ◌%◌, ◌^◌, ◌≤◌, ◌<◌, ◌≡◌, refl, ap, sym, ◌∙◌, arith, Bool, true,
  false, ◌&&◌, List, [], ◌∷◌, ◌==◌, if◌then◌else◌, length, get_or, get_elem?-get_or, elem, All,
  Option, none, some, Bool-cases, inl, inr,
}
use native.Mathlib.Nat.{pow-le-pow_right, div-div-eq-div-mul}
use stumpt.Subtree.Sizes.{pow_double}
use stumpt.Base.Loop.{◌>>=◌}
use stumpt.Base.Bits.{bit_xor-one}
use stumpt.Subtree.{Hash, hash_pair}
use stumpt.Merkleservice.BumpEntry.{BumpEntry, Level}
use stumpt.Merkleservice.Assembly.{offsets, prune}
use stumpt.Merkleservice.Assembly.Prune.{kept_level, prune-kept}

abbrev pub find : ℕ → Level → Option Hash
find o [] = none
find o (e ∷ es) = let rest = find o es in if e.offset == o then some e.hash else rest

abbrev pub or_else : Option Hash → Option Hash → Option Hash
or_else (some x) y = some x
or_else none y = y

module _ (sha256 : List ℕ → List ℕ) where
  abbrev pub join : Option Hash → Option Hash → Option Hash
  join (some l) (some r) = some (hash_pair sha256 l r)
  join (some l) none = none
  join none r = none

  unfoldable pub resolve : List Level → ℕ → ℕ → Option Hash
  resolve levels zero o = find o (get_or levels 0 [])
  resolve levels (suc h) o =
      or_else (find o (get_or levels (suc h) []))
        (join (resolve levels h (o * 2)) (resolve levels h (o * 2 + 1)))

  -- From the hash at `g` on level `h`, through `rounds` levels.
  unfoldable pub climb_levels : List Level → ℕ → ℕ → ℕ → Hash → Option Hash
  climb_levels levels zero h g cur = some cur
  climb_levels levels (suc rounds) h g cur = resolve levels h (bit_xor g 1) >>= λ sib.
      climb_levels levels rounds (suc h) (g / 2)
        (if g % 2 == 0 then hash_pair sha256 cur sib else hash_pair sha256 sib cur)

abbrev pub IsTrue : (ℕ → Hash) → BumpEntry → Type 0
IsTrue node e = e.hash ≡ node e.offset

-- Every entry of every level has the hash of its node.
abbrev pub IsSound : (ℕ → ℕ → Hash) → List Level → Type 0
IsSound node levels = (h : ℕ) → All (IsTrue (node h)) (get_or levels h [])

find-true :
    (node : ℕ → Hash) (o : ℕ) (lev : Level)
    → All (IsTrue node) lev
    → elem o (offsets lev) ≡ true
    → find o lev ≡ some (node o)
find-true node o [] all listed = cc
find-true node o (e ∷ es) (h, all) listed =
    ground (arith, find-true node o es all, ap (λ x. node x))

abbrev children : Level → ℕ → Bool
children below o =
    elem (o * 2 % 2 ^ 64) (offsets below) && elem ((o * 2 % 2 ^ 64 + 1) % 2 ^ 64) (offsets below)

-- A node at `o` on level `h` of a tree of height 64.
abbrev pub IsInTree : ℕ → ℕ → Type 0
IsInTree h o = (h ≤ 64) × (o < 2 ^ (64 - h))

width_halved : (h : ℕ) → suc h ≤ 64 → 2 ^ (64 - h) ≡ 2 * 2 ^ (64 - suc h)
width_halved h low =
    ap (λ (k : ℕ). 2 ^ k) {x = 64 - h} {y = suc (64 - suc h)} (omega (arith, low))
    ∙ pow_double (64 - suc h)

left-IsInTree : (h o : ℕ) → IsInTree (suc h) o → IsInTree h (o * 2)
left-IsInTree h o (low, inside) = (omega (arith, low), omega (arith, inside, width_halved h low))

right-IsInTree : (h o : ℕ) → IsInTree (suc h) o → IsInTree h (o * 2 + 1)
right-IsInTree h o (low, inside) = (omega (arith, low), omega (arith, inside, width_halved h low))

small_offset : (h o : ℕ) → IsInTree (suc h) o → o < 2 ^ 63
small_offset h o (low, inside) =
    let most : 2 ^ (64 - suc h) ≤ 2 ^ 63 =
      pow-le-pow_right {n = 2} (omega arith) {i = 64 - suc h} {j = 63} (omega (arith, low)) in
    omega (arith, inside, most)

parent-IsInTree : (h g : ℕ) → suc h ≤ 64 → IsInTree h g → IsInTree (suc h) (g / 2)
parent-IsInTree h g low (le, inside) = (low, omega (arith, inside, width_halved h low))

sibling-IsInTree : (h g : ℕ) → suc h ≤ 64 → IsInTree h g → IsInTree h (bit_xor g 1)
sibling-IsInTree h g low (le, inside) =
    (le, ground (arith, inside, width_halved h low, bit_xor-one g))

-- Offsets of a tree do not wrap around.
children_listed :
    (h o : ℕ) (below : Level)
    → IsInTree (suc h) o
    → children below o ≡ (elem (o * 2) (offsets below) && elem (o * 2 + 1) (offsets below))
children_listed h o below inside =
    let small = small_offset h o inside in
    let left : o * 2 % 2 ^ 64 ≡ o * 2 = omega (arith, small) in
    let right : (o * 2 % 2 ^ 64 + 1) % 2 ^ 64 ≡ o * 2 + 1 = omega (arith, small) in
    rw (right, left) refl

find-dropped :
    (o : ℕ) (below lev : Level) → children below o ≡ true → find o (kept_level below lev) ≡ none
find-dropped o below [] both = refl
find-dropped o below (e ∷ es) both =
    ground (arith, find-dropped o below es both, ap (children below) {x = e.offset} {y = o})

find-kept :
    (o : ℕ) (below lev : Level)
    → children below o ≡ false
    → find o (kept_level below lev) ≡ find o lev
find-kept o below [] both = refl
find-kept o below (e ∷ es) both =
    ground (arith, find-kept o below es both, ap (children below) {x = e.offset} {y = o})

half_pow : (g k : ℕ) → g / 2 / 2 ^ k ≡ g / 2 ^ suc k
half_pow g k = div-div-eq-div-mul g 2 (2 ^ k) ∙ ap (λ (t : ℕ). g / t) (omega (arith, pow_double k))

module _ (sha256 : List ℕ → List ℕ) (node : ℕ → ℕ → Hash) (levels : List Level) where
  pruned_first : 0 < length levels → get_or (prune levels) 0 [] ≡ get_or levels 0 []
  pruned_first bound =
      let (len, at) = prune-kept levels 0 bound in
      let same = sym (get_elem?-get_or (prune levels) 0 [] (omega (arith, len))) ∙ at in cc same

  pruned_level :
      (h : ℕ)
      → suc h < length levels
      → get_or (prune levels) (suc h) []
        ≡ kept_level (get_or levels h []) (get_or levels (suc h) [])
  pruned_level h bound =
      let (len, at) = prune-kept levels (suc h) bound in
      let same = sym (get_elem?-get_or (prune levels) (suc h) [] (omega (arith, len))) ∙ at in
      cc same

  -- Pruning loses nothing: when every entry has the hash of its node and a node is the hash of its
  -- two children, each node that was listed, in a tree of height 64, so that its offset on level `h`
  -- is below 2 ^ (64 - h), is still read, with its hash, from the pruned levels.
  pub resolve-prune :
      (h o : ℕ)
      → ((k p : ℕ) → node (suc k) p ≡ hash_pair sha256 (node k (p * 2)) (node k (p * 2 + 1)))
      → IsSound node levels
      → h < length levels
      → IsInTree h o
      → elem o (offsets (get_or levels h [])) ≡ true
      → resolve sha256 (prune levels) h o ≡ some (node h o)
  unfolding resolve
  resolve-prune zero o split sound bound inside listed =
      ap (find o) (pruned_first bound) ∙ find-true (node 0) o (get_or levels 0 []) (sound 0) listed
  resolve-prune (suc h) o split sound bound inside listed =
      let below = get_or levels h [] in
      let lev = get_or levels (suc h) [] in
      let both =
        join sha256 (resolve sha256 (prune levels) h (o * 2))
          (resolve sha256 (prune levels) h (o * 2 + 1)) in
      ap (λ l. or_else (find o l) both) (pruned_level h bound)
      ∙ elim (Bool-cases (children below o)) [
        | inl dropped ↦
            let listed_below = sym (children_listed h o below inside) ∙ dropped in
            ap (λ x. or_else x both) (find-dropped o below lev dropped)
            ∙ ap (λ x. join sha256 x (resolve sha256 (prune levels) h (o * 2 + 1)))
                (resolve-prune h (o * 2) split sound (omega arith) (left-IsInTree h o inside)
                  (ground (arith, listed_below)))
            ∙ ap (λ x. join sha256 (some (node h (o * 2))) x)
                (resolve-prune h (o * 2 + 1) split sound (omega arith) (right-IsInTree h o inside)
                  (ground (arith, listed_below)))
            ∙ ap some (sym (split h o))
        | inr kept ↦
            ap (λ x. or_else x both)
              (find-kept o below lev kept ∙ find-true (node (suc h)) o lev (sound (suc h)) listed)
      ]

  same_node : {h k g p : ℕ} → h ≡ k → g ≡ p → node h g ≡ node k p
  same_node a b = cc

  joined :
      (h g : ℕ)
      → ((k p : ℕ) → node (suc k) p ≡ hash_pair sha256 (node k (p * 2)) (node k (p * 2 + 1)))
      → (if g % 2 == 0
          then hash_pair sha256 (node h g) (node h (bit_xor g 1))
          else hash_pair sha256 (node h (bit_xor g 1)) (node h g))
        ≡ node (suc h) (g / 2)
  joined h g split = ground (
    arith,
    split h (g / 2),
    bit_xor-one g,
    ap (node h) {x = g} {y = g / 2 * 2},
    ap (node h) {x = g} {y = g / 2 * 2 + 1},
    ap (node h) {x = bit_xor g 1} {y = g / 2 * 2},
    ap (node h) {x = bit_xor g 1} {y = g / 2 * 2 + 1},
  )

  -- From a transaction's hash, a reader of the pruned levels who hashes with the sibling of each
  -- level reaches the node `rounds` levels up, when every entry has the hash of its node, a node is the
  -- hash of its two children, the siblings on the way were listed before pruning, and the tree has
  -- at most 64 levels, so that a uint64 numbers its leaves.
  pub climb_levels-prune :
      (rounds h g : ℕ)
      → ((k p : ℕ) → node (suc k) p ≡ hash_pair sha256 (node k (p * 2)) (node k (p * 2 + 1)))
      → IsSound node levels
      → h + rounds ≤ length levels
      → h + rounds ≤ 64
      → g < 2 ^ (64 - h)
      → ((k : ℕ)
          → k < rounds
          → elem (bit_xor (g / 2 ^ k) 1) (offsets (get_or levels (h + k) [])) ≡ true)
      → climb_levels sha256 (prune levels) rounds h g (node h g)
        ≡ some (node (h + rounds) (g / 2 ^ rounds))
  unfolding climb_levels
  climb_levels-prune zero h g split sound bound low inside listed =
      ap some (same_node (omega arith) (omega arith))
  climb_levels-prune (suc rounds) h g split sound bound low inside listed =
      let sib = bit_xor g 1 in
      let read : resolve sha256 (prune levels) h sib ≡ some (node h sib) =
        resolve-prune h sib split sound (omega arith)
          (sibling-IsInTree h g (omega (arith, low)) (omega (arith, low), inside))
          (ap (λ x. elem x (offsets (get_or levels h []))) (ap (λ x. bit_xor x 1) (omega arith))
            ∙ ap (λ x. elem (bit_xor (g / 2 ^ 0) 1) (offsets (get_or levels x []))) (omega arith)
            ∙ listed 0 (omega arith)) in
      ap
        (λ r. r >>= λ x.
          climb_levels sha256 (prune levels) rounds (suc h) (g / 2)
            (if g % 2 == 0 then hash_pair sha256 (node h g) x else hash_pair sha256 x (node h g)))
        read
      ∙ ap (climb_levels sha256 (prune levels) rounds (suc h) (g / 2)) (joined h g split)
      ∙ climb_levels-prune rounds (suc h) (g / 2) split sound (omega arith) (omega (arith, low))
          (parent-IsInTree h g (omega (arith, low)) (omega (arith, low), inside)).1
          (λ k lt.
            ap (λ x. elem (bit_xor x 1) (offsets (get_or levels (suc h + k) []))) (half_pow g k)
            ∙ ap (λ x. elem (bit_xor (g / 2 ^ suc k) 1) (offsets (get_or levels x [])))
                (omega arith)
            ∙ listed (suc k) (omega arith))
      ∙ ap some (same_node (omega arith) (half_pow g rounds))
