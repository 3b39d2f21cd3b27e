-- ===== src/Merkleservice/Sealing.antt =====
-- internal/merkleservice/registry.go: SealSubtreesToDisk. The goroutines that build the subtrees of
-- the miners share nothing and are run one after the other; an error of a write is logged and passed
-- over; a panic is `none`. A Go map is an association list, looped over in its order.
pub mod Index
mod Tests
use stumpt.Base.{
  ℕ, zero, suc, ◌+◌, ◌-◌, ◌*◌, ◌%◌, ◌^◌, Bool, true, false, Option, none, some, List, [], ◌∷◌, ◌++◌,
  ltb, ◌==◌, if◌then◌else◌, length, get_elem?, get_or, set, take, drop, replicate, Run, ok, err,
  panic,
}
use stumpt.Base.Loop.{◌>>=◌}
use stumpt.Base.Bytes.{Hash, zero_hash, from_little_endian}
use stumpt.Base.Maps.{bytes_eq, nat_eq, lookup, insert}
use stumpt.Config.{Config, num_subtrees, subtree_height}
use stumpt.Stump.{or_nil}
use stumpt.Subtree.{build_merkle_store}
use stumpt.Diskstore.Database.{Bytes, Database}
use stumpt.Diskstore.Fragments.{save_batch, save_miner_subtree}
use stumpt.Merkleservice.Runtime.{Runtime}
use stumpt.Merkleservice.Fragment.{marshal_fragment}
use stumpt.Merkleservice.TokenIndex.{TokenSubtreeIndex, add_batch}
use stumpt.Merkleservice.HashSlices.{hash_slice_to_bytes}
use stumpt.Merkleservice.Jitter.{jitter_txids}
use stumpt.Merkleservice.Extraction.{extract_subtree_fragment}

pub record MinerSubtree : Type 0 where
  pub index : ℕ
  pub leaves : List Hash
  pub root : Hash
  pub store : List Hash

-- The database, which both stores share, the roots and the miners' token indices.
pub record Sealed (D : Type 0) : Type 0 where
  pub db : D
  pub roots : List (List Hash)
  pub miner_token_idx : List TokenSubtreeIndex

-- The token number of a txid; `% 0` panics.
unfoldable pub token_of : ℕ → Hash → Option ℕ
token_of num_businesses txid =
    if num_businesses == 0 then none else some (from_little_endian (take 8 txid) % num_businesses)

-- `localIdx[h] = i` for the leaves from index `i` on.
abbrev pub local_indices : ℕ → List Hash → List (Hash × ℕ) → List (Hash × ℕ)
local_indices i [] m = m
local_indices i (h ∷ hs) m = local_indices (i + 1) hs (insert h i m)

-- The loop over the txids that fills `tokenLocalIdxs`.
unfoldable pub group_by_token :
    ℕ → List (Hash × ℕ) → List Hash → List (ℕ × List ℕ) → Option (List (ℕ × List ℕ))
group_by_token num_businesses locals [] groups = some groups
group_by_token num_businesses locals (txid ∷ txids) groups = token_of num_businesses txid >>= λ ti.
    group_by_token num_businesses locals txids (elim (lookup txid locals) [
      | none ↦ groups
      | some li ↦ insert ti (or_nil (lookup ti groups) ++ (li % 2 ^ 32 ∷ [])) groups
    ])

-- `roots[m][si] = root`
abbrev pub set_root : ℕ → ℕ → Hash → List (List Hash) → Option (List (List Hash))
set_root m si root roots = get_elem? roots m >>= λ row.
    if ltb si (length row) then some (set roots m (set row si root)) else none

module _ {F : Type 0} (rt : Runtime F) where
  unfoldable pub index_groups : ℕ → List (ℕ × List ℕ) → TokenSubtreeIndex → TokenSubtreeIndex
  index_groups si [] idx = idx
  index_groups si ((ti, local_idxs) ∷ groups) idx =
      index_groups si groups (add_batch (rt.token_name ti) si local_idxs idx)

module _ {F D : Type 0} (rt : Runtime F) (disk : Database D) where
  unfoldable pub extract_groups :
      MinerSubtree → ℕ → ℕ → List (ℕ × List ℕ) → Option (List (ℕ × Bytes))
  extract_groups ms hashes_per_subtree height [] = some []
  extract_groups ms hashes_per_subtree height ((ti, local_idxs) ∷ groups) =
      extract_subtree_fragment rt.sort_ints rt.sort_slice ms.leaves ms.store local_idxs ms.index
        hashes_per_subtree height
      >>= λ levels. extract_groups ms hashes_per_subtree height groups >>= λ fragments.
          some ((ti, marshal_fragment levels) ∷ fragments)

  -- The subtree of a miner.
  unfoldable pub build_subtree : List F → List Hash → ℕ → ℕ → Option MinerSubtree
  build_subtree jitter base si m =
      jitter_txids rt.is_zero rt.num_swaps rt.source base m si jitter >>= λ leaves.
      build_merkle_store rt.sha256 rt.num_cpu rt.schedule leaves >>= λ store.
      get_elem? store (length store - 1) >>= λ root.
      some (record { index = si; leaves = leaves; root = root; store = store })

  -- The subtrees of the miners `m`, …, `m + left - 1`.
  unfoldable pub build_subtrees : List F → List Hash → ℕ → ℕ → ℕ → Option (List MinerSubtree)
  build_subtrees jitter base si zero m = some []
  build_subtrees jitter base si (suc left) m = build_subtree jitter base si m >>= λ ms.
      build_subtrees jitter base si left (m + 1) >>= λ subs. some (ms ∷ subs)

  unfoldable pub save_subtrees : ℕ → List MinerSubtree → Sealed D → Option (Sealed D)
  save_subtrees m [] s = some s
  save_subtrees m (ms ∷ subs) s =
      let (saved, good) =
        save_miner_subtree disk m ms.index (hash_slice_to_bytes ms.leaves)
          (hash_slice_to_bytes ms.store) (record { db = s.db }) in
      set_root m ms.index ms.root s.roots >>= λ roots.
      save_subtrees (m + 1) subs (record s { db = saved.db; roots = roots })

  -- Indexing, and extraction where there is a fragment store, for one miner.
  unfoldable pub index_subtree :
      Config → Bool → List Hash → ℕ → MinerSubtree → Sealed D → Option (Sealed D)
  index_subtree cfg use_fragments base m ms s =
      group_by_token cfg.num_businesses (local_indices 0 ms.leaves []) base [] >>= λ groups.
      get_elem? s.miner_token_idx m >>= λ idx.
      let indexed = record s {
        miner_token_idx = set s.miner_token_idx m (index_groups rt ms.index groups idx);
      } in
      if use_fragments
      then (extract_groups ms cfg.hashes_per_subtree (subtree_height cfg) groups >>= λ fragments.
          let (saved, good) = save_batch disk m ms.index fragments (record { db = s.db }) in
          some (record indexed { db = saved.db }))
      else some indexed

  unfoldable pub index_subtrees :
      Config → Bool → List Hash → ℕ → List MinerSubtree → Sealed D → Option (Sealed D)
  index_subtrees cfg use_fragments base m [] s = some s
  index_subtrees cfg use_fragments base m (ms ∷ subs) s =
      index_subtree cfg use_fragments base m ms s
      >>= index_subtrees cfg use_fragments base (m + 1) subs

  -- One subtree for all miners: `txids[start:end]` panics past the end.
  unfoldable pub seal_subtree :
      Config → List F → Bool → List Hash → ℕ → Sealed D → Option (Sealed D)
  seal_subtree cfg jitter use_fragments txids si s =
      let start = si * cfg.hashes_per_subtree in
      let base = take cfg.hashes_per_subtree (drop start txids) in
      if ltb (length txids) (start + cfg.hashes_per_subtree)
      then none
      else build_subtrees jitter base si cfg.num_miners 0 >>= λ subs.
          save_subtrees 0 subs s >>= index_subtrees cfg use_fragments base 0 subs

  -- The subtrees `si`, …, `si + left - 1`.
  unfoldable pub seal_from :
      Config → List F → Bool → List Hash → ℕ → ℕ → Sealed D → Option (Sealed D)
  seal_from cfg jitter use_fragments txids zero si s = some s
  seal_from cfg jitter use_fragments txids (suc left) si s =
      seal_subtree cfg jitter use_fragments txids si s
      >>= seal_from cfg jitter use_fragments txids left (si + 1)

  unfoldable pub seal_subtrees_to_disk :
      List Hash → Config → List F → D → List TokenSubtreeIndex → Bool → Option (Sealed D)
  seal_subtrees_to_disk txids cfg jitter db idx use_fragments = elim (num_subtrees cfg) [
    | ok n ↦ seal_from cfg jitter use_fragments txids n 0 (record {
      db = db;
      roots = replicate cfg.num_miners (replicate n zero_hash);
      miner_token_idx = idx;
    })
    | err x ↦ none
    | panic ↦ none
  ]
