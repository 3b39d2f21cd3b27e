-- ===== src/Merkleservice/Tests.antt =====
-- Concrete runs of the token index and of the cache.
use stumpt.Base.{
  ℕ, ◌*◌, ◌/◌, ◌%◌, ◌==◌, ◌++◌, ◌<◌, ◌≡◌, refl, arith, true, List, [], ◌∷◌, replicate, some,
}
use stumpt.Base.Maps.{IsUnique, lookup, nat_eq, keys, member, bytes_eq}
use stumpt.Base.Bytes.{Hash}
use stumpt.Merkleservice.Jitter.{
  jitter_txids, swaps, swap_at, IsReordering, jitter_txids-IsReordering,
}
use stumpt.Merkleservice.TokenIndex.{
  TokenSubtreeIndex, add, add_batch, new_token_subtree_index, get-add_batch,
}
use stumpt.Merkleservice.TokenIndex.{get as positions}
use stumpt.Merkleservice.Cache.{
  CachedSubtree, SubtreeCache, new_subtree_cache, put, get, IsValid, put-IsValid,
}

abbrev shop : List ℕ
shop = 115 ∷ []

abbrev one_add : TokenSubtreeIndex
one_add = add shop 2 7 new_token_subtree_index

get-add_batch_example :
    (positions shop 2 (add_batch shop 2 (8 ∷ 9 ∷ []) one_add) ≡ 7 ∷ 8 ∷ 9 ∷ [])
    × (add shop 2 5 one_add ≡ add_batch shop 2 (5 ∷ []) one_add)
unfolding add add_batch positions new_token_subtree_index lookup stumpt.Base.Maps.insert
get-add_batch_example = get-add_batch shop shop 2 2 5 (8 ∷ 9 ∷ []) one_add

abbrev no_leaves : CachedSubtree
no_leaves = record { leaves = []; store = [] }

abbrev full_cache : SubtreeCache
full_cache = record { entries = (4, no_leaves) ∷ []; order = 4 ∷ []; max_size = 1; hits = 0 }

put-IsValid_example :
    IsValid (new_subtree_cache 1)
    × ((after : SubtreeCache) × (put 6 no_leaves full_cache ≡ some after)
        × IsValid after
        × ((get 6 after).0 ≡ some no_leaves))
unfolding lookup
put-IsValid_example =
    put-IsValid 6 1 no_leaves full_cache
      (record { in_order = refl; unique = (refl, tt); bounded = λ positive. omega arith })

abbrev three_txids : List Hash
three_txids = replicate 32 1 ∷ replicate 32 2 ∷ replicate 32 3 ∷ []

jitter_run :
    jitter_txids
      (λ f. f == 0)
      (λ n f. n * f / 100)
      (λ seed i n. seed % n)
      three_txids
      1
      0
      (0 ∷ 34 ∷ [])
    ≡ some (replicate 32 2 ∷ replicate 32 1 ∷ replicate 32 3 ∷ [])
unfolding jitter_txids swaps swap_at
jitter_run = refl

remainder-lt : (seed k n : ℕ) → 0 < n → seed % n < n
remainder-lt seed k n positive = omega arith

jitter_txids-IsReordering_example :
    (ys : List Hash) × (jitter_txids
        (λ f. f == 0)
        (λ n f. n * f / 100)
        (λ seed i n. seed % n)
        three_txids
        1
        0
        (0 ∷ 34 ∷ [])
      ≡ some ys)
    × IsReordering three_txids ys
jitter_txids-IsReordering_example =
    jitter_txids-IsReordering (λ f. f == 0) (λ n f. n * f / 100) (λ seed i n. seed % n) three_txids
      1 0 (0 ∷ 34 ∷ []) remainder-lt
