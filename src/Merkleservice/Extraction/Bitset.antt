-- ===== src/Merkleservice/Extraction/Bitset.antt =====
-- internal/merkleservice/bump.go: bitsetCheck as a set of positions.
use stumpt.Base.{
  ℕ, zero, suc, ◌/◌, ◌%◌, ◌^◌, ◌<◌, ◌≡◌, refl, ap, ◌∙◌, [], ◌∷◌, take, ltb, length-replicate, arith,
  Bool, false, ◌||◌, List, ◌==◌, length, length-set, get_or, get_or-set, Bool-cases,
  get_elem?-get_or, set, replicate, some, inl, inr,
}
use stumpt.Base.BitSets.{bit_at, bit_and-pow, bit_at-bit_or}
use Prim.Native.Nat.{bit_or}
use stumpt.Merkleservice.Extraction.{clear, ensure_bitset, bitset_check}

-- Is the position in the set?
abbrev pub is_set : List ℕ → ℕ → Bool
is_set bs pos = bit_at (get_or bs (pos / 64) 0) (pos % 64) == 1

cleared : (words i : ℕ) → get_or {A = ℕ} (replicate words 0) i 0 ≡ 0
cleared zero i = refl
cleared (suc words) zero = refl
cleared (suc words) (suc i) = cleared words i

zero-bit_at : (b : ℕ) → bit_at 0 b ≡ 0
zero-bit_at b = omega arith

clear-replicate :
    (buffer : List ℕ) (words : ℕ)
    → ltb (length buffer) words ≡ false
    → clear (take words buffer) ≡ replicate words 0
clear-replicate buffer zero enough = refl
clear-replicate [] (suc words) enough = absurd (ground (arith, enough))
clear-replicate (w ∷ buffer) (suc words) enough =
    ap (◌∷◌ 0) (clear-replicate buffer words (ground (arith, enough)))

ensure_bitset-replicate :
    (buffer : List ℕ) (words : ℕ) → ensure_bitset buffer words ≡ replicate words 0
unfolding ensure_bitset
ensure_bitset-replicate buffer words = ground (arith, clear-replicate buffer words)

-- A check of a position inside the bitset tells whether it was in the set, does not panic, and adds
-- just that position; the bitset that the worker's buffer is made into, whatever it held, has the
-- words asked for and no position.
pub bitset_check-is_set :
    (pos words : ℕ) (buffer bs : List ℕ)
    → pos / 64 < length bs
    → (length (ensure_bitset buffer words) ≡ words)
      × ((q : ℕ) → is_set (ensure_bitset buffer words) q ≡ false)
      × ((after : List ℕ) × (bitset_check pos bs ≡ some (is_set bs pos, after))
          × (length after ≡ length bs)
          × ((q : ℕ) → is_set after q ≡ (pos == q || is_set bs q)))
unfolding bitset_check
bitset_check-is_set pos words buffer bs bound =
    let i = pos / 64 in
    let b = pos % 64 in
    let word = get_or bs i 0 in
    let found = get_elem?-get_or bs i 0 bound in
    (
      ap length (ensure_bitset-replicate buffer words) ∙ length-replicate words 0,
      λ q.
          ap (λ ws. is_set ws q) (ensure_bitset-replicate buffer words)
          ∙ ground (
            arith,
            zero-bit_at (q % 64),
            ap (λ (t : ℕ). bit_at t (q % 64)) {x = get_or (replicate words 0) (q / 64) 0} {y = 0}
                (cleared words (q / 64)),
          ),
      elim (Bool-cases (bit_at word b == 1)) [
        | inl on ↦ (
          bs,
          ground (arith, found, on, (bit_and-pow word b).1),
          refl,
          λ q. ground (arith, on, ap (is_set bs) {x = pos} {y = q}),
        )
        | inr off ↦ (
          set bs i (bit_or word (2 ^ b)),
          ground (arith, found, off, (bit_and-pow word b).0),
          length-set bs i (bit_or word (2 ^ b)),
          λ q.
              let v = bit_or word (2 ^ b) in
              let now = get_or (set bs i v) (q / 64) 0 in
              ground (
                arith,
                get_or-set bs i (q / 64) v 0 bound,
                bit_at-bit_or word b (q % 64),
                ap (λ (t : ℕ). bit_at t (q % 64)) {x = now} {y = v},
                ap (λ (t : ℕ). bit_at t (q % 64)) {x = now} {y = get_or bs (q / 64) 0},
                ap (λ (j : ℕ). bit_at (get_or bs j 0) (q % 64)) {x = i} {y = q / 64},
              ),
        )
      ],
    )
