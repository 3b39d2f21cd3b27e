-- ===== src/Merkleservice/Extraction/Siblings.antt =====
-- internal/merkleservice/bump.go: the sibling entries of one level inside a subtree.
use Prim.Native.Nat.{bit_xor}
use stumpt.Base.{
  if_true, if_false, ℕ, ◌+◌, ◌-◌, ◌*◌, ◌/◌, ◌^◌, ◌≤◌, ◌<◌, ◌≡◌, refl, ap, sym, ◌∙◌, arith, Bool,
  true, ◌||◌, List, [], ◌∷◌, if◌then◌else◌, leb, length, elem, All, get_elem?, Option, some,
  Bool-cases, inl, inr,
}
use stumpt.Base.Bytes.{Hash}
use stumpt.Base.Loop.{◌>>=◌}
use stumpt.Merkleservice.BumpEntry.{Level}
use stumpt.Merkleservice.Assembly.{offsets, plain}
use stumpt.Merkleservice.Assembly.Resolve.{IsTrue}
use stumpt.Merkleservice.Extraction.{level_siblings, bitset_check}
use stumpt.Merkleservice.Extraction.Bitset.{is_set, bitset_check-is_set}

-- The place of the sibling of leaf `li` among the nodes of level `k`.
abbrev pub local_sibling : ℕ → ℕ → ℕ
local_sibling k li = bit_xor (li / 2 ^ k) 1

abbrev pub locals : List (ℕ × ℕ) → List ℕ
locals [] = []
locals ((li, g) ∷ more) = li ∷ locals more

-- A position whose sibling is one of the `size` nodes of the level, the one at `start` plus its place
-- in the block, with its hash in the store.
pub record IsPlaced (store : List Hash) (node : ℕ → Hash) (off size k start : ℕ) (p : ℕ × ℕ)
    : Type 0 where
  pub inside : local_sibling k p.0 < size
  pub global : bit_xor (p.1 / 2 ^ k) 1 ≡ start + local_sibling k p.0
  pub stored :
      get_elem? store (off + local_sibling k p.0) ≡ some (node (start + local_sibling k p.0))

module _ (store : List Hash) (node : ℕ → Hash) (off size k start : ℕ) where
  -- On placed positions and a bitset that covers the level, the loop does not panic; its entries have
  -- the hashes of their nodes, and each position's sibling is among them or was in the bitset before.
  pub level_siblings-IsPlaced :
      (ps : List (ℕ × ℕ)) (bs : List ℕ)
      → All (IsPlaced store node off size k start) ps
      → size ≤ length bs * 64
      → (es : Level) × (level_siblings store off size k ps bs ≡ some es)
        × All (IsTrue node) es
        × ((li : ℕ)
            → elem li (locals ps) ≡ true
            → (is_set bs (local_sibling k li) || elem (start + local_sibling k li) (offsets es))
              ≡ true)
  unfolding level_siblings
  level_siblings-IsPlaced [] bs placed covers = ([], refl, tt, λ li h. cc)
  level_siblings-IsPlaced ((li, g) ∷ more) bs (here, placed) covers =
      let sib = local_sibling k li in
      let (after, checked, len, sets) =
        (bitset_check-is_set sib 0 [] bs (omega (arith, here.inside))).2 in
      let offset = bit_xor (g / 2 ^ k) 1 in
      let emit : List ℕ → Hash → Option Level =
        λ bits h. level_siblings store off size k more bits >>= λ fs. some (plain offset h ∷ fs) in
      let checked_at : ℕ → Bool × List ℕ → Option Level = λ p r.
        if r.0
        then level_siblings store off size k more bs
        else get_elem? store (off + p) >>= emit r.1 in
      let pos : (if leb size sib then size - 1 else sib) ≡ sib = ground (arith, here.inside) in
      let run : level_siblings store off size k ((li, g) ∷ more) bs
          ≡ checked_at sib (is_set bs sib, after) =
        ap (λ p. bitset_check p bs >>= checked_at p) pos ∙ ap (λ m. m >>= checked_at sib) checked in
      elim (Bool-cases (is_set bs sib)) [
        | inl old ↦
            let (es, e, true_, listed) = level_siblings-IsPlaced more bs placed covers in
            (
              es,
              run ∙ if_true _ old ∙ e,
              true_,
              λ j h.
                  ground (
                    arith,
                    old,
                    listed j,
                    ap (λ x. is_set bs (local_sibling k x)) {x = li} {y = j},
                  ),
            )
        | inr new ↦
            let (es, e, true_, listed) =
              level_siblings-IsPlaced more after placed (omega (arith, len)) in
            (
              plain (bit_xor (g / 2 ^ k) 1) (node (start + sib)) ∷ es,
              run
                  ∙ if_false _ new
                  ∙ ap (λ m. m >>= emit after) here.stored
                  ∙ ap
                      (λ (m : Option Level).
                        m >>= λ fs. some (plain offset (node (start + sib)) ∷ fs))
                      e,
              (ap node (sym here.global), true_),
              λ j h. ground (
                arith,
                here.global,
                listed j,
                sets (local_sibling k j),
                ap (local_sibling k) {x = li} {y = j},
                ap (λ x. elem (start + x) (offsets es)) {x = sib} {y = local_sibling k j},
              ),
            )
      ]
