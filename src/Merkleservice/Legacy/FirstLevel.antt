-- ===== src/Merkleservice/Legacy/FirstLevel.antt =====
-- internal/merkleservice/bump.go: assembleTokenBUMP, level 0 where both transactions of a pair belong
-- to the token.
use Prim.Native.Nat.{bit_xor}
use stumpt.Base.{
  if_true, if_false, ℕ, ◌+◌, ◌/◌, ◌*◌, ◌≡◌, refl, sym, ap, ◌∙◌, arith, true, false, Option, none,
  some, List, ◌∷◌, leb, if◌then◌else◌, length, get_elem?,
}
use stumpt.Base.Bits.{bit_xor-one}
use stumpt.Base.Loop.{◌>>=◌ as and_then}
use stumpt.Base.Maps.{nat_eq, lookup}
use stumpt.Base.Bytes.{Hash}
use stumpt.Merkleservice.BumpEntry.{Level}
use stumpt.Merkleservice.Assembly.{plain}
use stumpt.Merkleservice.Cache.{CachedSubtree}
use stumpt.Merkleservice.Extraction.{LeafPos, txid_entry}
use stumpt.Merkleservice.Legacy.{is_last, build_first_level}

bind_inversion :
    {A B : Type 0} (o : Option A) (f : A → Option B) (b : B)
    → and_then o f ≡ some b
    → (a : A) × (o ≡ some a) × (f a ≡ some b)
bind_inversion none f b e = cc e
bind_inversion (some a) f b e = (a, refl, e)

same_pair :
    (subtrees : List (ℕ × CachedSubtree)) (last : Option ℕ) (pos : LeafPos) (more : List LeafPos)
    (es : Level)
    → is_last last (pos.global_idx / 2) ≡ true
    → build_first_level subtrees last (pos ∷ more) ≡ some es
    → (own : Hash) × (rest : Level) × (es ≡ txid_entry pos.global_idx own ∷ rest)
unfolding build_first_level
same_pair subtrees last pos more es e ran =
    let (sc, _, r1) = bind_inversion (lookup pos.subtree_idx subtrees) _ es ran in
    let (own, _, r2) = bind_inversion (get_elem? sc.leaves pos.local_idx) _ es r1 in
    let (rest, _, r3) =
      bind_inversion (build_first_level subtrees (some (pos.global_idx / 2)) more) _ es
        (sym (if_true _ e) ∙ r2) in
    (own, rest, cc r3)

new_pair :
    (subtrees : List (ℕ × CachedSubtree)) (last : Option ℕ) (pos : LeafPos) (more : List LeafPos)
    (es : Level)
    → is_last last (pos.global_idx / 2) ≡ false
    → build_first_level subtrees last (pos ∷ more) ≡ some es
    → (own : Hash) × (sib : Hash) × (rest : Level) × (build_first_level subtrees
          (some (pos.global_idx / 2))
          more
        ≡ some rest)
      × (es ≡ txid_entry pos.global_idx own ∷ plain (bit_xor pos.global_idx 1) sib ∷ rest)
unfolding build_first_level
new_pair subtrees last pos more es e ran =
    let (sc, _, r1) = bind_inversion (lookup pos.subtree_idx subtrees) _ es ran in
    let (own, _, r2) = bind_inversion (get_elem? sc.leaves pos.local_idx) _ es r1 in
    let (sib, _, r3) =
      bind_inversion
        (get_elem? sc.leaves (
          if leb (length sc.leaves) (bit_xor pos.local_idx 1)
          then pos.local_idx
          else bit_xor pos.local_idx 1))
        _ es (sym (if_false _ e) ∙ r2) in
    let (rest, built, r4) =
      bind_inversion (build_first_level subtrees (some (pos.global_idx / 2)) more) _ es r3 in
    (own, sib, rest, built, cc r4)

-- In the sorted positions, where a new pair begins with an even index and the next position is the
-- other index of the pair, the first three entries of level 0 are the first transaction, the second
-- as a plain sibling, and the second as a transaction: one offset stands twice.
pub build_first_level-pair :
    (subtrees : List (ℕ × CachedSubtree)) (last : Option ℕ) (p q : LeafPos) (more : List LeafPos)
    (es : Level) (g : ℕ)
    → p.global_idx ≡ 2 * g
    → q.global_idx ≡ 2 * g + 1
    → is_last last g ≡ false
    → build_first_level subtrees last (p ∷ q ∷ more) ≡ some es
    → (first : Hash) × (sib : Hash) × (second : Hash) × (rest : Level) × (es
        ≡ txid_entry (2 * g) first ∷ plain (2 * g + 1) sib ∷ txid_entry (2 * g + 1) second ∷ rest)
build_first_level-pair subtrees last p q more es g even odd fresh ran =
    let half : p.global_idx / 2 ≡ g = omega (arith, even) in
    let half_q : q.global_idx / 2 ≡ p.global_idx / 2 = omega (arith, even, odd) in
    let (first, sib, rest, built, shape) =
      new_pair subtrees last p (q ∷ more) es (ap (is_last last) half ∙ fresh) ran in
    let (second, rest2, shape2) =
      same_pair subtrees (some (p.global_idx / 2)) q more rest (ground (arith, half_q)) built in
    let other : bit_xor p.global_idx 1 ≡ 2 * g + 1 = ground (arith, bit_xor-one p.global_idx) in
    (
      first,
      sib,
      second,
      rest2,
      shape
          ∙ ap (λ x. txid_entry p.global_idx first ∷ plain (bit_xor p.global_idx 1) sib ∷ x) shape2
          ∙ ap
              (λ x.
                txid_entry x first
                ∷ plain (bit_xor p.global_idx 1) sib
                ∷ txid_entry q.global_idx second
                ∷ rest2)
              even
          ∙ ap
              (λ x. txid_entry (2 * g) first ∷ plain x sib ∷ txid_entry q.global_idx second ∷ rest2)
              other
          ∙ ap (λ x. txid_entry (2 * g) first ∷ plain (2 * g + 1) sib ∷ txid_entry x second ∷ rest2)
              odd,
    )
