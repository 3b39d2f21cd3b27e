-- ===== src/Merkleservice/Assembly/Tests.antt =====
-- Pruning and reading a small block, and the theorems there.
use mathlib.Core.List.{foldl}
use Prim.Native.Nat.{bit_xor}
use stumpt.Base.{
  ℕ, zero, suc, ◌+◌, ◌*◌, ◌/◌, ◌%◌, ◌^◌, ◌<◌, ◌≡◌, refl, arith, true, false, ◌||◌, List, [], ◌∷◌,
  some, Option, length, get_elem?, get_or, replicate, elem, All,
}
use stumpt.Subtree.{Hash, hash_pair}
use stumpt.Merkleservice.BumpEntry.{BumpEntry, Level}
use stumpt.Merkleservice.Assembly.{prune, prune_loop, prune_level, plain, offsets, top_entries}
use stumpt.Merkleservice.Assembly.Prune.{prune-filter}
use stumpt.Merkleservice.Assembly.Resolve.{
  IsSound, IsTrue, resolve, climb_levels, resolve-prune, climb_levels-prune,
}
use stumpt.Merkleservice.Assembly.Top.{IsDistinct, indices, sibling_above, top_entries-siblings}

-- A stand-in for SHA-256 that depends on the order of the bytes.
abbrev digest : List ℕ → List ℕ
digest bytes = replicate 32 (foldl (λ acc b. (acc * 31 + b) % 256) 7 bytes)

abbrev tree_node : ℕ → ℕ → Hash
tree_node zero p = replicate 32 p
tree_node (suc h) p = hash_pair digest (tree_node h (p * 2)) (tree_node h (p * 2 + 1))

abbrev entry : ℕ → ℕ → BumpEntry
entry h p = plain p (tree_node h p)

-- Four leaves: the pair of the transaction at 0 makes node 0 of level 1 superfluous.
abbrev four : List Level
four = (entry 0 0 ∷ entry 0 1 ∷ []) ∷ (entry 1 0 ∷ entry 1 1 ∷ []) ∷ []

four-IsSound : IsSound tree_node four
four-IsSound zero = (refl, (refl, tt))
four-IsSound (suc zero) = (refl, (refl, tt))
four-IsSound (suc (suc h)) = tt

prune_run : prune four ≡ (entry 0 0 ∷ entry 0 1 ∷ []) ∷ (entry 1 1 ∷ []) ∷ []
unfolding prune prune_loop prune_level
prune_run = refl

-- The children of an offset of 2 ^ 63 wrap around to 0 and 1.
prune_wraps :
    prune ((entry 0 0 ∷ entry 0 1 ∷ []) ∷ (plain 0x8000_0000_0000_0000 (tree_node 1 0) ∷ []) ∷ [])
    ≡ (entry 0 0 ∷ entry 0 1 ∷ []) ∷ [] ∷ []
unfolding prune prune_loop prune_level
prune_wraps = refl

prune-filter_example :
    (length (prune four) ≡ 2) × (get_elem? (prune four) 1 ≡ some (entry 1 1 ∷ []))
prune-filter_example = prune-filter four 1 (omega arith) (omega arith, (omega arith, tt))

resolve-prune_example : resolve digest (prune four) 1 0 ≡ some (tree_node 1 0)
resolve-prune_example =
    resolve-prune digest tree_node four 1 0 (λ k p. refl) four-IsSound (omega arith)
      (omega arith, omega arith) refl

four-siblings :
    (k : ℕ) → k < 2 → elem (bit_xor (0 / 2 ^ k) 1) (offsets (get_or four (0 + k) [])) ≡ true
four-siblings zero h = refl
four-siblings (suc zero) h = refl
four-siblings (suc (suc k)) h = absurd (omega arith)

climb_levels-prune_example :
    climb_levels digest (prune four) 2 0 0 (tree_node 0 0) ≡ some (tree_node 2 0)
climb_levels-prune_example =
    climb_levels-prune digest tree_node four 2 0 0 (λ k p. refl) four-IsSound (omega arith)
      (omega arith) (omega arith) four-siblings

abbrev two_txids : List (ℕ × Option Hash)
two_txids = (0, some (tree_node 1 1)) ∷ (1, some (tree_node 1 1)) ∷ []

top_entries-siblings_example :
    (es : Level) × (top_entries 1 two_txids [] ≡ some es)
    × All (IsTrue (tree_node 1)) es
    × IsDistinct (offsets es)
    × ((o : ℕ) → elem o [] ≡ true → elem o (offsets es) ≡ false)
    × ((g : ℕ)
        → elem g (indices two_txids) ≡ true
        → (elem (sibling_above 1 g) [] || elem (sibling_above 1 g) (offsets es)) ≡ true)
top_entries-siblings_example = top_entries-siblings (tree_node 1) 1 two_txids [] (refl, (refl, tt))
