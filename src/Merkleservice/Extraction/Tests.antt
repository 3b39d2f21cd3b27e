-- ===== src/Merkleservice/Extraction/Tests.antt =====
-- Extraction from a small subtree, and the theorems there.
use stumpt.Base.{
  ℕ, ◌+◌, ◌≡◌, refl, arith, true, false, ◌||◌, List, [], ◌∷◌, some, length, replicate, elem, All,
  ◌==◌, if◌then◌else◌,
}
use stumpt.Base.Bytes.{Hash}
use stumpt.Merkleservice.BumpEntry.{Level}
use stumpt.Merkleservice.Assembly.{offsets, plain}
use stumpt.Merkleservice.Assembly.Resolve.{IsTrue}
use stumpt.Merkleservice.Extraction.{
  bitset_check, ensure_bitset, level_siblings, level_zero, upper_levels, subtree_levels,
  extract_subtree_fragment, txid_entry,
}
use stumpt.Merkleservice.Extraction.Bitset.{is_set, bitset_check-is_set}
use stumpt.Merkleservice.Extraction.Siblings.{local_sibling, locals, level_siblings-IsPlaced}
use stumpt.Subtree.{next_power_of_two}

abbrev hash_of : ℕ → Hash
hash_of b = replicate 32 b

abbrev leaves : List Hash
leaves = hash_of 1 ∷ hash_of 2 ∷ hash_of 3 ∷ hash_of 4 ∷ []

abbrev store : List Hash
store = hash_of 12 ∷ hash_of 34 ∷ hash_of 14 ∷ []

-- Both leaves of a pair: the sibling entry is written once.
extraction_run :
    extract_subtree_fragment (λ xs. xs) (λ es. es) leaves store (0 ∷ 1 ∷ []) 1 4 2
    ≡ some (
        (txid_entry 4 (hash_of 1) ∷ plain 5 (hash_of 2) ∷ txid_entry 5 (hash_of 2) ∷ [])
        ∷ (plain 3 (hash_of 34) ∷ [])
        ∷ [])
unfolding extract_subtree_fragment subtree_levels level_zero upper_levels level_siblings
    bitset_check ensure_bitset next_power_of_two
extraction_run = refl

bitset_check-is_set_example :
    (length (ensure_bitset (9 ∷ 9 ∷ 9 ∷ []) 2) ≡ 2)
    × ((q : ℕ) → is_set (ensure_bitset (9 ∷ 9 ∷ 9 ∷ []) 2) q ≡ false)
    × ((after : List ℕ) × (bitset_check 70 (0 ∷ 0 ∷ []) ≡ some (is_set (0 ∷ 0 ∷ []) 70, after))
        × (length after ≡ 2)
        × ((q : ℕ) → is_set after q ≡ (70 == q || is_set (0 ∷ 0 ∷ []) q)))
bitset_check-is_set_example = bitset_check-is_set 70 2 (9 ∷ 9 ∷ 9 ∷ []) (0 ∷ 0 ∷ []) (omega arith)

abbrev level_one : ℕ → Hash
level_one p = if p == 2 then hash_of 12 else hash_of 34

abbrev both : List (ℕ × ℕ)
both = (0, 4) ∷ (1, 5) ∷ []

level_siblings-IsPlaced_example :
    (es : Level) × (level_siblings store 0 2 1 both (0 ∷ []) ≡ some es)
    × All (IsTrue level_one) es
    × ((li : ℕ)
        → elem li (locals both) ≡ true
        → (is_set (0 ∷ []) (local_sibling 1 li) || elem (2 + local_sibling 1 li) (offsets es))
          ≡ true)
level_siblings-IsPlaced_example =
    level_siblings-IsPlaced store level_one 0 2 1 2 both (0 ∷ [])
      (
        record { inside = omega arith; global = refl; stored = refl },
        (record { inside = omega arith; global = refl; stored = refl }, tt),
      )
      (omega arith)
