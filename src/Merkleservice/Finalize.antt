-- ===== src/Merkleservice/Finalize.antt =====
-- internal/merkleservice/registry.go: FinalizeBlock. The two draws of crypto/rand are parameters; an
-- error of a write is logged and passed over; a panic is `none`, and a nil event `some none`.
pub mod Coinbase
mod Tests
use stumpt.Base.{
  ℕ, zero, suc, ◌+◌, ◌-◌, ◌%◌, Bool, true, false, Option, none, some, List, [], ◌∷◌, ltb,
  if◌then◌else◌, length, get_elem?, get_or,
}
use stumpt.Base.Loop.{◌>>=◌}
use stumpt.Base.Bytes.{Hash, from_little_endian}
use stumpt.Base.Maps.{◌==◌, bytes_eq, nat_eq, insert}
use stumpt.Config.{Config, subtree_height}
use stumpt.Stump.{Token}
use stumpt.Subtree.{build_merkle_store}
use stumpt.Diskstore.Database.{Bytes, Database}
use stumpt.Diskstore.Fragments.{save_batch, save_miner_subtree, load_miner_subtree}
use stumpt.Merkleservice.Runtime.{Runtime}
use stumpt.Merkleservice.Fragment.{marshal_fragment}
use stumpt.Merkleservice.TokenIndex.{TokenSubtreeIndex, tokens, get}
use stumpt.Merkleservice.HashSlices.{hash_slice_to_bytes, bytes_to_hash_slice}
use stumpt.Merkleservice.Extraction.{extract_subtree_fragment}
use stumpt.Merkleservice.Sealing.{Sealed, set_root}

-- The event, without its two stores, which share the database.
pub record BlockFinalizedEvent : Type 0 where
  pub winner_miner : ℕ
  pub subtree_roots : List Hash
  pub token_subtree_idx : TokenSubtreeIndex
  pub has_fragments : Bool
  pub hashes_per_subtree : ℕ
  pub num_businesses : ℕ

-- Eight random bytes, or `none` when the draw fails.
unfoldable pub select_winner : ℕ → Option (List ℕ) → ℕ
select_winner num_miners none = 0
select_winner num_miners (some rb) =
    if ltb 1 num_miners then from_little_endian rb % num_miners else 0

-- The first leaf that is the old coinbase.
unfoldable pub replace_coinbase : Hash → Hash → List Hash → List Hash
replace_coinbase old new [] = []
replace_coinbase old new (h ∷ hs) = if h == old then new ∷ hs else h ∷ replace_coinbase old new hs

module _ {F D : Type 0} (rt : Runtime F) (disk : Database D) where
  -- The loop over the winner's tokens, from the map of fragments so far.
  unfoldable pub extract_tokens :
      Config
      → TokenSubtreeIndex
      → List Hash
      → List Hash
      → List Token
      → List (ℕ × Bytes)
      → Option (List (ℕ × Bytes))
  extract_tokens cfg idx leaves store [] fragments = some fragments
  extract_tokens cfg idx leaves store (token ∷ more) fragments = elim (get token 0 idx) [
    | [] ↦ extract_tokens cfg idx leaves store more fragments
    | li ∷ lis ↦
        extract_subtree_fragment rt.sort_ints rt.sort_slice leaves store (li ∷ lis) 0
          cfg.hashes_per_subtree (subtree_height cfg)
        >>= λ levels.
            extract_tokens cfg idx leaves store more
              (insert (rt.token_number token) (marshal_fragment levels) fragments)
  ]

  -- What stands behind the save of the resealed subtree.
  unfoldable pub reextract :
      Config → Bool → ℕ → List Hash → List Hash → Sealed D → Option (Sealed D)
  reextract cfg use_fragments winner leaves store s =
      if use_fragments
      then (get_elem? s.miner_token_idx winner >>= λ idx.
          extract_tokens cfg idx leaves store (tokens idx) [] >>= λ fragments.
          let (saved, good) = save_batch disk winner 0 fragments (record { db = s.db }) in
          some (record s { db = saved.db }))
      else some s

  -- Rebuilding, with the leaves that were loaded and changed.
  unfoldable pub reseal : ℕ → List Hash → Sealed D → Option (Sealed D × List Hash)
  reseal winner leaves s = build_merkle_store rt.sha256 rt.num_cpu rt.schedule leaves >>= λ store.
      get_elem? store (length store - 1) >>= λ root.
      let (saved, good) =
        save_miner_subtree disk winner 0 (hash_slice_to_bytes leaves) (hash_slice_to_bytes store)
          (record { db = s.db }) in
      set_root winner 0 root s.roots >>= λ roots.
      some (record s { db = saved.db; roots = roots }, store)

  unfoldable pub event : Config → Bool → ℕ → Sealed D → Option BlockFinalizedEvent
  event cfg use_fragments winner s = get_elem? s.roots winner >>= λ roots.
      get_elem? s.miner_token_idx winner >>= λ idx. some (record {
        winner_miner = winner;
        subtree_roots = roots;
        token_subtree_idx = idx;
        has_fragments = use_fragments;
        hashes_per_subtree = cfg.hashes_per_subtree;
        num_businesses = cfg.num_businesses;
      })

  -- From the leaves with the new coinbase on.
  abbrev pub finalize_leaves :
      Config → Bool → ℕ → Sealed D → List Hash → Option (Sealed D × Option BlockFinalizedEvent)
  finalize_leaves cfg use_fragments winner s leaves =
      reseal winner leaves s >>= λ (resealed, store).
      reextract cfg use_fragments winner leaves store resealed >>= λ after.
      event cfg use_fragments winner after >>= λ e. some (after, some e)

  -- From the load of the winner's subtree on.
  abbrev pub finalize_loaded :
      Config
      → Bool
      → ℕ
      → Sealed D
      → Hash
      → Hash
      → Option (Bytes × Bytes)
      → Option (Sealed D × Option BlockFinalizedEvent)
  finalize_loaded cfg use_fragments winner s first_txid coinbase none = some (s, none)
  finalize_loaded cfg use_fragments winner s first_txid coinbase
        (some (leaves_bytes, store_bytes)) =
      bytes_to_hash_slice leaves_bytes >>= λ leaves.
      finalize_leaves cfg use_fragments winner s (replace_coinbase first_txid coinbase leaves)

  unfoldable pub finalize_block :
      Config
      → Sealed D
      → Hash
      → Bool
      → Option (List ℕ)
      → Hash
      → Option (Sealed D × Option BlockFinalizedEvent)
  finalize_block cfg s first_txid use_fragments drawn coinbase =
      let winner = select_winner cfg.num_miners drawn in
      finalize_loaded cfg use_fragments winner s first_txid coinbase
        (load_miner_subtree disk winner 0 (record { db = s.db }))
