-- ===== src/Merkleservice/Processing.antt =====
-- internal/merkleservice/bump.go: ProcessBUMPs. The workers take the tokens off a channel in some
-- order, the parameter `order`, and the work on one token is one step, as is the work of
-- `loadSubtree`; timings and logs are left out. A panic is `none`.
pub mod Cached
pub mod Collect
pub mod Direct
mod Tests
use stumpt.Base.{
  ℕ, zero, suc, ◌+◌, ◌-◌, ◌*◌, ◌%◌, ◌^◌, Bool, true, false, Option, none, some, List, [], ◌∷◌, ◌++◌,
  map, if◌then◌else◌, length, range_from, Run, ok, err, panic,
}
use stumpt.Base.Loop.{◌>>=◌}
use stumpt.Base.Bytes.{Hash}
use stumpt.Base.Maps.{nat_eq, insert}
use stumpt.Subtree.{get_all_proofs}
use stumpt.Diskstore.Database.{Bytes, Database}
use stumpt.Diskstore.Fragments.{load, load_miner_subtree}
use stumpt.Merkleservice.Runtime.{Runtime}
use stumpt.Merkleservice.TokenIndex.{int_from_int32, subtree_indices, get}
use stumpt.Merkleservice.HashSlices.{bytes_to_hash_slice}
use stumpt.Merkleservice.Cache.{
  CachedSubtree, SubtreeCache, new_subtree_cache, get as cache_get, put,
}
use stumpt.Merkleservice.Extraction.{LeafPos, assemble_token_bump_fast}
use stumpt.Merkleservice.Assembly.{assemble_token_bump_from_fragments}
use stumpt.Merkleservice.Finalize.{BlockFinalizedEvent}

-- The heights and the number of the block.
pub record Heights : Type 0 where
  pub block_height : ℕ
  pub subtree_height : ℕ
  pub top_tree_height : ℕ
  pub total_height : ℕ

-- What the collector counts, the BUMPs recorded with their tokens, in the order of the recording,
-- and the cache. The file of the dump gets the first BUMP.
pub record Progress : Type 0 where
  pub cache_hits : ℕ
  pub cache_misses : ℕ
  pub bumps : List (ℕ × Bytes)
  pub cache : SubtreeCache

abbrev pub record_bump : ℕ → Bytes → Progress → Progress
record_bump idx bytes p = record p { bumps = p.bumps ++ ((idx, bytes) ∷ []) }

-- `RecordBUMP`, or the log of an error.
abbrev pub record_outcome : {E : Type 0} → ℕ → Run E Bytes → Progress → Option Progress
record_outcome idx (ok bytes) p = some (record_bump idx bytes p)
record_outcome idx (err e) p = some p
record_outcome idx panic p = none

module _ {F D : Type 0} (rt : Runtime F) (disk : Database D)
    (sort_positions : List LeafPos → List LeafPos) (db : D) (heights : Heights)
    (evt : BlockFinalizedEvent) where
  -- The fragments of a token that are there, and the counts.
  unfoldable pub load_token_fragments : ℕ → List ℕ → Progress → Progress × List Bytes
  load_token_fragments idx [] p = (p, [])
  load_token_fragments idx (si ∷ sis) p =
      elim (load disk evt.winner_miner idx si (record { db = db })) [
        | none ↦ load_token_fragments idx sis (record p { cache_misses = p.cache_misses + 1 })
        | some fragment ↦
            let (q, rest) =
              load_token_fragments idx sis (record p { cache_hits = p.cache_hits + 1 }) in
            (q, fragment ∷ rest)
      ]

  unfoldable pub fragments_token : List (List Hash) → ℕ → Progress → Option Progress
  fragments_token top_proofs idx p =
      let (q, loaded) =
        load_token_fragments idx (subtree_indices (rt.token_name idx) evt.token_subtree_idx) p in
      elim loaded [
        | [] ↦ some q
        | f ∷ fs ↦
            record_outcome idx
              (assemble_token_bump_from_fragments rt.sort_slice heights.block_height (f ∷ fs)
                top_proofs heights.subtree_height heights.top_tree_height heights.total_height
                evt.hashes_per_subtree)
              q
      ]

  -- The read of a subtree from disk; the inner `none` is a failed load.
  unfoldable pub read_subtree : ℕ → Option (Option CachedSubtree)
  read_subtree si = elim (load_miner_subtree disk evt.winner_miner si (record { db = db })) [
    | none ↦ some none
    | some (leaves_bytes, store_bytes) ↦ bytes_to_hash_slice leaves_bytes >>= λ leaves.
        bytes_to_hash_slice store_bytes >>= λ store.
        some (some (record { leaves = leaves; store = store }))
  ]

  -- The part of `loadSubtree` behind the lookup in the cache.
  abbrev pub after_get :
      ℕ → Progress → Option CachedSubtree × SubtreeCache → Option (Progress × Option CachedSubtree)
  after_get si p (some cs, touched) = some (record p { cache = touched }, some cs)
  after_get si p (none, touched) = read_subtree si >>= λ fresh. elim fresh [
    | none ↦ some (record p { cache = touched; cache_misses = p.cache_misses + 1 }, none)
    | some cs ↦ put si cs touched >>= λ grown.
        some (record p { cache = grown; cache_misses = p.cache_misses + 1 }, some cs)
  ]

  unfoldable pub load_subtree : ℕ → Progress → Option (Progress × Option CachedSubtree)
  load_subtree si p = after_get si p (cache_get si p.cache)

  abbrev pub positions_in : ℕ → List ℕ → List LeafPos
  positions_in si local_idxs =
      map
        (λ li. record {
          subtree_idx = si;
          local_idx = int_from_int32 li;
          global_idx = (si * evt.hashes_per_subtree + int_from_int32 li) % 2 ^ 64;
        })
        local_idxs

  -- The loop over a token's subtrees, with the positions and the subtrees so far.
  unfoldable pub collect_positions :
      ℕ
      → List ℕ
      → Progress
      → List LeafPos
      → List (ℕ × CachedSubtree)
      → Option (Progress × List LeafPos × List (ℕ × CachedSubtree))
  collect_positions idx [] p positions subtrees = some (p, positions, subtrees)
  collect_positions idx (si ∷ sis) p positions subtrees =
      elim (get (rt.token_name idx) si evt.token_subtree_idx) [
        | [] ↦ collect_positions idx sis p positions subtrees
        | li ∷ lis ↦ load_subtree si p >>= λ (q, loaded). elim loaded [
          | none ↦ collect_positions idx sis q positions subtrees
          | some sc ↦
              collect_positions idx sis q (positions ++ positions_in si (li ∷ lis))
                (insert si sc subtrees)
        ]
      ]

  unfoldable pub jit_token : List (List Hash) → ℕ → Progress → Option Progress
  jit_token top_proofs idx p =
      collect_positions idx (subtree_indices (rt.token_name idx) evt.token_subtree_idx) p [] []
      >>= λ (q, positions, subtrees). elim positions [
        | [] ↦ some q
        | x ∷ xs ↦
            record_outcome idx
              (assemble_token_bump_fast sort_positions rt.sort_slice heights.block_height (x ∷ xs)
                subtrees top_proofs heights.subtree_height heights.top_tree_height
                heights.total_height)
              q
      ]

  unfoldable pub process_tokens : List (List Hash) → List ℕ → Progress → Option Progress
  process_tokens top_proofs [] p = some p
  process_tokens top_proofs (idx ∷ idxs) p =
      (if evt.has_fragments then fragments_token top_proofs idx p else jit_token top_proofs idx p)
      >>= process_tokens top_proofs idxs

  abbrev pub no_progress : ℕ → Progress
  no_progress max_cache_entries = record {
    cache_hits = 0;
    cache_misses = 0;
    bumps = [];
    cache = new_subtree_cache max_cache_entries;
  }

  unfoldable pub process_bumps : (List ℕ → List ℕ) → ℕ → Option Progress
  process_bumps order max_cache_entries =
      elim (get_all_proofs rt.sha256 rt.num_cpu rt.schedule evt.subtree_roots) [
        | ok top_proofs ↦
            process_tokens top_proofs (order (range_from evt.num_businesses 0))
              (no_progress max_cache_entries)
        | err e ↦ some (no_progress max_cache_entries)
        | panic ↦ none
      ]
