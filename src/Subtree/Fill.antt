-- ===== src/Subtree/Fill.antt =====
-- A phase of BuildMerkleStore: steps that each write one cell of a level, in any order.
use stumpt.Base.{
  ℕ, ◌+◌, ◌-◌, ◌≤◌, ◌<◌, ◌≡◌, refl, ap, ◌∙◌, arith, List, [], ◌∷◌, Option, some, true, ◌&&◌, leb,
  if◌then◌else◌, length, get_elem?, set, elem, length-set, get_elem?-set,
}
use stumpt.Base.Loop.{for_each}
use stumpt.Subtree.{Hash}

-- The store after the cells `base + j` have been given the values `v j`.
unfoldable pub place : ℕ → (ℕ → Hash) → List ℕ → List Hash → List Hash
place base v [] store = store
place base v (j ∷ js) store = place base v js (set store (base + j) (v j))

abbrev pub AgreeBelow : ℕ → List Hash → List Hash → Type 0
AgreeBelow base s t = (i : ℕ) → i < base → get_elem? s i ≡ get_elem? t i

module _ (base : ℕ) (v : ℕ → Hash) where
  pub length-place :
      (js : List ℕ) (store : List Hash) → length (place base v js store) ≡ length store
  unfolding place
  length-place [] store = refl
  length-place (j ∷ js) store =
      length-place js (set store (base + j) (v j)) ∙ length-set store (base + j) (v j)

  pub get_elem?-place :
      (js : List ℕ) (store : List Hash) (i : ℕ)
      → ((x : ℕ) → elem x js ≡ true → base + x < length store)
      → get_elem? (place base v js store) i
        ≡ (if leb base i && elem (i - base) js then some (v (i - base)) else get_elem? store i)
  unfolding place
  get_elem?-place [] store i h = ground arith
  get_elem?-place (j ∷ js) store i h =
      let next = set store (base + j) (v j) in
      let size = length-set store (base + j) (v j) in
      ground (
        arith,
        h j (ground arith),
        get_elem?-place js next i (λ x e. ground (arith, size, h x)),
        get_elem?-set store (base + j) i (v j),
        ap v {x = j} {y = i - base},
      )

  module _ (count : ℕ) (step : ℕ → List Hash → Option (List Hash)) (first : List Hash)
      (writes : (j : ℕ) (s : List Hash)
        → j < count
        → length s ≡ length first
        → AgreeBelow base s first
        → step j s ≡ some (set s (base + j) (v j)))
      (room : base + count ≤ length first) where
    pub for_each-place :
        (js : List ℕ) (s : List Hash)
        → ((x : ℕ) → elem x js ≡ true → x < count)
        → length s ≡ length first
        → AgreeBelow base s first
        → for_each step js s ≡ some (place base v js s)
    unfolding place
    for_each-place [] s h e a = refl
    for_each-place (j ∷ js) s h e a =
        let j_in : j < count = h j (ground arith) in
        let next = set s (base + j) (v j) in
        rw (writes j s j_in e a) (
          for_each-place js next (λ x m. h x (ground arith)) (length-set s (base + j) (v j) ∙ e)
            (λ i l. ground (arith, get_elem?-set s (base + j) i (v j), a i)))
