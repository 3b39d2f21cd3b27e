-- ===== src/Merkleservice/Finalize/Tests.antt =====
-- FinalizeBlock on a database in memory, and the theorem there.
use stumpt.Base.{ℕ, ◌≡◌, refl, arith, false, List, [], ◌∷◌, some, none, ok, replicate, get_elem?}
use stumpt.Base.Bytes.{Hash, big_endian}
use stumpt.Base.Maps.{lookup, insert}
use stumpt.Config.{Config}
use stumpt.Subtree.{merkle_root}
use stumpt.Subtree.Schedule.{one_by_one-Interleaving}
use stumpt.Diskstore.Keys.{miner_subtree_key}
use stumpt.Diskstore.Keys.Ordering.{Pair}
use stumpt.Diskstore.Database.{Bytes}
use stumpt.Diskstore.Database.Memory.{memory}
use stumpt.Diskstore.Fragments.{save_miner_subtree, load_miner_subtree}
use stumpt.Merkleservice.Runtime.Sample.{sample}
use stumpt.Merkleservice.TokenIndex.{new_token_subtree_index}
use stumpt.Merkleservice.HashSlices.{hash_slice_to_bytes, bytes_to_hash_slice}
use stumpt.Merkleservice.Sealing.{Sealed}
use stumpt.Merkleservice.Finalize.{
  BlockFinalizedEvent, replace_coinbase, finalize_block, select_winner,
}
use stumpt.Merkleservice.Finalize.Coinbase.{IsReplaced, finalize_block-resealed}

abbrev leaf : ℕ → Hash
leaf b = replicate 32 b

abbrev cfg : Config
cfg = record {
  hashes_per_block = 4;
  hashes_per_subtree = 2;
  num_miners = 1;
  num_businesses = 1;
  block_height = 1;
  max_memory_bytes = 0;
}

abbrev two : List Hash
two = leaf 1 ∷ leaf 2 ∷ []

abbrev sealed : Sealed (List Pair)
sealed = record {
  db = (save_miner_subtree memory 0 0 (hash_slice_to_bytes two) (leaf 3) (record { db = [] })).0.db;
  roots = (leaf 3 ∷ leaf 4 ∷ []) ∷ [];
  miner_token_idx = new_token_subtree_index ∷ [];
}

replaced : replace_coinbase (leaf 1) (leaf 9) two ≡ leaf 9 ∷ leaf 2 ∷ []
unfolding replace_coinbase
replaced = refl

finalize_block-resealed_example :
    (after : Sealed (List Pair)) × (e : BlockFinalizedEvent) × (r : Hash) × (leaves : List Hash)
    × (leaves_bytes : Bytes) × (store_bytes : Bytes) × (finalize_block sample memory cfg sealed
          (leaf 1)
          false
          none
          (leaf 9)
        ≡ some (after, some e))
    × (load_miner_subtree memory 0 0 (record { db = after.db }) ≡ some (leaves_bytes, store_bytes))
    × (bytes_to_hash_slice leaves_bytes ≡ some leaves)
    × IsReplaced (leaf 1) (leaf 9) two leaves
    × (merkle_root sample.sha256 8 sample.schedule leaves ≡ ok (some r))
    × (get_elem? e.subtree_roots 0 ≡ some r)
unfolding select_winner load_miner_subtree save_miner_subtree lookup insert miner_subtree_key
    big_endian
finalize_block-resealed_example =
    finalize_block-resealed sample memory one_by_one-Interleaving cfg sealed (leaf 1) (leaf 9) none
      two (leaf 3) (omega arith) (omega arith) (omega arith) (omega arith) refl (omega arith)
      (refl, (refl, tt)) refl (λ leaves store. refl)
