-- ===== src/Merkleservice/Sealing/Tests.antt =====
-- The token index of a miner whose order is not the canonical one.
use stumpt.Base.{ℕ, ◌≡◌, refl, arith, List, [], ◌∷◌, ◌++◌, some, replicate, map}
use stumpt.Base.Bytes.{Hash, from_little_endian}
use stumpt.Merkleservice.Runtime.Sample.{sample}
use stumpt.Merkleservice.TokenIndex.{get, new_token_subtree_index}
use stumpt.Merkleservice.Jitter.{IsReordering}
use stumpt.Merkleservice.Sealing.{group_by_token, local_indices, index_groups, token_of}
use stumpt.Merkleservice.Sealing.Index.{get-sealed, leaf_at, of_token}
use stumpt.Base.Maps.{lookup, insert}

abbrev leaf : ℕ → Hash
leaf b = b ∷ replicate 31 0

abbrev canonical : List Hash
canonical = leaf 1 ∷ leaf 2 ∷ leaf 3 ∷ []

abbrev jittered : List Hash
jittered = leaf 2 ∷ leaf 1 ∷ leaf 3 ∷ []

groups_run :
    group_by_token 2 (local_indices 0 jittered []) canonical []
    ≡ some ((1, 1 ∷ 2 ∷ []) ∷ (0, 0 ∷ []) ∷ [])
unfolding group_by_token token_of lookup insert from_little_endian
groups_run = refl

jittered-IsReordering : IsReordering canonical jittered
jittered-IsReordering = record { same_length = refl; same_counts = λ h. ground arith }

get-sealed_example :
    (groups : List (ℕ × List ℕ)) × (group_by_token 2 (local_indices 0 jittered []) canonical []
      ≡ some groups)
    × (ps : List ℕ) × (get (1 ∷ []) 5 (index_groups sample 5 groups new_token_subtree_index)
        ≡ get (1 ∷ []) 5 new_token_subtree_index ++ ps)
    × (map (leaf_at jittered) ps ≡ map some (of_token 2 1 canonical))
get-sealed_example =
    get-sealed sample 2 5 1 canonical jittered new_token_subtree_index (λ a b e. cc e) (omega arith)
      (omega arith) jittered-IsReordering
