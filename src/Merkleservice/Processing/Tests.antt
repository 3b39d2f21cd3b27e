-- ===== src/Merkleservice/Processing/Tests.antt =====
-- ProcessBUMPs on a database in memory, and the theorem there.
use stumpt.Base.{
  ℕ, ◌≡◌, refl, false, List, [], ◌∷◌, replicate, range_from, some, none, ok, err, panic,
}
use stumpt.Base.Bytes.{Hash}
use stumpt.Subtree.{get_all_proofs}
use stumpt.Diskstore.Keys.Ordering.{Pair}
use stumpt.Diskstore.Database.Memory.{memory}
use stumpt.Diskstore.Fragments.{save_miner_subtree}
use stumpt.Merkleservice.Runtime.Sample.{sample}
use stumpt.Merkleservice.TokenIndex.{add_batch, new_token_subtree_index}
use stumpt.Merkleservice.Finalize.{BlockFinalizedEvent}
use stumpt.Merkleservice.HashSlices.{hash_slice_to_bytes}
use stumpt.Merkleservice.Processing.{Heights, process_bumps}
use stumpt.Merkleservice.Processing.Direct.{bumps_of, direct_tokens, process_bumps-direct}

abbrev leaf : ℕ → Hash
leaf b = replicate 32 b

abbrev two_roots : BlockFinalizedEvent
two_roots = record {
  winner_miner = 0;
  subtree_roots = leaf 7 ∷ leaf 8 ∷ [];
  token_subtree_idx = add_batch (0 ∷ []) 0 (1 ∷ []) new_token_subtree_index;
  has_fragments = false;
  hashes_per_subtree = 2;
  num_businesses = 1;
}

abbrev stored : List Pair
stored =
    (save_miner_subtree memory 0 0 (hash_slice_to_bytes (leaf 1 ∷ leaf 2 ∷ []))
      (hash_slice_to_bytes (leaf 7 ∷ [])) (record { db = [] })).0.db

abbrev heights : Heights
heights = record {
  block_height = 800000;
  subtree_height = 1;
  top_tree_height = 1;
  total_height = 2;
}

process_bumps-direct_example :
    bumps_of (process_bumps sample memory (λ ps. ps) stored heights two_roots (λ idxs. idxs) 1)
    ≡ elim (get_all_proofs sample.sha256 8 sample.schedule (leaf 7 ∷ leaf 8 ∷ [])) [
      | ok top_proofs ↦
          direct_tokens sample memory
            (λ ps. ps)
            stored
            heights
            two_roots
            top_proofs
            (range_from 1 0)
            []
      | err e ↦ some []
      | panic ↦ none
    ]
process_bumps-direct_example =
    process_bumps-direct sample memory (λ ps. ps) stored heights two_roots (λ idxs. idxs) 1 refl
