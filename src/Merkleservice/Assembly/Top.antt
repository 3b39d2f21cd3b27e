-- ===== src/Merkleservice/Assembly/Top.antt =====
-- internal/merkleservice/bump.go: the entries of one top-tree level.
use Prim.Native.Nat.{bit_xor}
use stumpt.Base.{
  if_true, if_false, ℕ, ◌/◌, ◌^◌, ◌≡◌, refl, ap, ◌∙◌, arith, true, false, ◌||◌, List, [], ◌∷◌, elem,
  All, Option, some, Bool-cases, inl, inr,
}
use stumpt.Base.Bytes.{Hash}
use stumpt.Merkleservice.BumpEntry.{Level}
use stumpt.Merkleservice.Assembly.{offsets, plain, top_entries}
use stumpt.Merkleservice.Assembly.Resolve.{IsTrue}
use stumpt.Base.Loop.{◌>>=◌}

abbrev pub IsDistinct : List ℕ → Type 0
IsDistinct [] = Unit
IsDistinct (x ∷ xs) = (elem x xs ≡ false) × IsDistinct xs

abbrev pub sibling_above : ℕ → ℕ → ℕ
sibling_above block_level g = bit_xor (g / 2 ^ block_level) 1

abbrev pub indices : List (ℕ × Option Hash) → List ℕ
indices [] = []
indices ((g, proof) ∷ more) = g ∷ indices more

-- When each transaction's top proof has the hash of its sibling on the block level, the loop does
-- not panic; its entries have the hashes of their nodes, no offset twice and none that was seen
-- before, and each transaction's sibling is among them or was seen before.
pub top_entries-siblings :
    (node : ℕ → Hash) (block_level : ℕ) (txids : List (ℕ × Option Hash)) (seen : List ℕ)
    → All (λ t. t.1 ≡ some (node (sibling_above block_level t.0))) txids
    → (es : Level) × (top_entries block_level txids seen ≡ some es)
      × All (IsTrue node) es
      × IsDistinct (offsets es)
      × ((o : ℕ) → elem o seen ≡ true → elem o (offsets es) ≡ false)
      × ((g : ℕ)
          → elem g (indices txids) ≡ true
          → (elem (sibling_above block_level g) seen
              || elem (sibling_above block_level g) (offsets es))
            ≡ true)
unfolding top_entries
top_entries-siblings node bl [] seen all = ([], refl, tt, tt, λ o h. refl, λ g h. cc)
top_entries-siblings node bl ((g, proof) ∷ more) seen (here, all) =
    let sib = sibling_above bl g in
    elim (Bool-cases (elem sib seen)) [
      | inl old ↦
          let (es, e, true_, distinct, fresh, listed) =
            top_entries-siblings node bl more seen all in
          (
            es,
            if_true _ old ∙ e,
            true_,
            distinct,
            fresh,
            λ j h.
                ground
                  (arith, old, listed j, ap (λ x. elem (sibling_above bl x) seen) {x = g} {y = j}),
          )
      | inr new ↦
          let (es, e, true_, distinct, fresh, listed) =
            top_entries-siblings node bl more (sib ∷ seen) all in
          (
            plain sib (node sib) ∷ es,
            if_false _ new
                ∙ ap
                    (λ (m : Option Hash).
                      m >>= λ h. top_entries bl more (sib ∷ seen) >>= λ fs. some (plain sib h ∷ fs))
                    here
                ∙ ap (λ (m : Option Level). m >>= λ fs. some (plain sib (node sib) ∷ fs)) e,
            (refl, true_),
            (fresh sib (ground arith), distinct),
            λ o h. ground (arith, new, fresh o, ap (λ x. elem x seen) {x = sib} {y = o}),
            λ j h. ground (arith, listed j, ap (sibling_above bl) {x = g} {y = j}),
          )
    ]
