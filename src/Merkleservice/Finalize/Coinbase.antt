-- ===== src/Merkleservice/Finalize/Coinbase.antt =====
-- internal/merkleservice/registry.go: FinalizeBlock, the resealed subtree of the winner.
use mathlib.Core.List.{append-nil}
use stumpt.Base.{
  if_true, or_panic, ℕ, ◌-◌, ◌<◌, ◌≡◌, refl, sym, ap, ◌∙◌, ◌++◌, ◌⊎◌, inl, inr, ltb, arith, Bool,
  true, false, ◌&&◌, Option, none, some, List, [], ◌∷◌, ◌==◌ as num_eq, if◌then◌else◌, length,
  get_elem?, get_elem?-get_or, get_elem?-set, get_or, set, All, ok,
}
use stumpt.Base.Loop.{◌>>=◌}
use stumpt.Base.Bytes.{Hash}
use stumpt.Base.Maps.{◌==◌, bytes_eq, bytes_beq_iff}
use stumpt.Config.{Config}
use stumpt.Subtree.{Error, build_merkle_store, merkle_root, log2_ceil}
use stumpt.Subtree.Schedule.{Interleaving}
use stumpt.Subtree.Levels.{node}
use stumpt.Subtree.Root.{merkle_root-node}
use stumpt.Diskstore.Encoding.HashesCodec.{Is32}
use stumpt.Diskstore.Database.{Bytes, Database}
use stumpt.Diskstore.Fragments.{save_miner_subtree, load_miner_subtree, load-save_miner_subtree}
use stumpt.Merkleservice.Runtime.{Runtime}
use stumpt.Merkleservice.HashSlices.{
  hash_slice_to_bytes, bytes_to_hash_slice, bytes_to_hash_slice-hash_slice_to_bytes,
}
use stumpt.Merkleservice.TokenIndex.{TokenSubtreeIndex, new_token_subtree_index}
use stumpt.Merkleservice.Sealing.{Sealed}
use stumpt.Merkleservice.Jitter.{count}
use stumpt.Merkleservice.Finalize.{
  BlockFinalizedEvent, select_winner, replace_coinbase, reextract, reseal, event, finalize_leaves,
  finalize_loaded, finalize_block,
}

replace_coinbase-Is32 :
    (old new : Hash) (hs : List Hash)
    → Is32 new
    → All Is32 hs
    → All Is32 (replace_coinbase old new hs)
unfolding replace_coinbase
replace_coinbase-Is32 old new [] size a = tt
replace_coinbase-Is32 old new (h ∷ hs) size (first, a) =
    step (h == old) (replace_coinbase-Is32 old new hs size a)
  where
    step :
        (b : Bool)
        → All Is32 (replace_coinbase old new hs)
        → All Is32 (if b then new ∷ hs else h ∷ replace_coinbase old new hs)
    step true ih = (size, a)
    step false ih = (first, ih)

length-replace_coinbase :
    (old new : Hash) (hs : List Hash) → length (replace_coinbase old new hs) ≡ length hs
unfolding replace_coinbase
length-replace_coinbase old new [] = refl
length-replace_coinbase old new (h ∷ hs) = ground (arith, length-replace_coinbase old new hs)

-- The first occurrence of a hash replaced, or nothing where there is none.
abbrev pub IsReplaced : Hash → Hash → List Hash → List Hash → Type 0
IsReplaced old new hs leaves =
    ((before : List Hash) × (after : List Hash) × (hs ≡ before ++ (old ∷ after))
      × (count old before ≡ 0)
      × (leaves ≡ before ++ (new ∷ after)))
    ⊎ ((count old hs ≡ 0) × (leaves ≡ hs))

replace_coinbase-IsReplaced :
    (old new : Hash) (hs : List Hash) → IsReplaced old new hs (replace_coinbase old new hs)
unfolding replace_coinbase
replace_coinbase-IsReplaced old new [] = inr (refl, refl)
replace_coinbase-IsReplaced old new (h ∷ hs) =
    step (h == old) refl (replace_coinbase-IsReplaced old new hs)
  where
    step :
        (b : Bool)
        → (h == old) ≡ b
        → IsReplaced old new hs (replace_coinbase old new hs)
        → IsReplaced old new (h ∷ hs) (if b then new ∷ hs else h ∷ replace_coinbase old new hs)
    step true e ih = inl ([], hs, ap (λ x. x ∷ hs) ((bytes_beq_iff h old).0 e), refl, refl)
    step false e (inl (before, after, split, fresh, result)) =
        inl (h ∷ before, after, ap (◌∷◌ h) split, rw e fresh, ap (◌∷◌ h) result)
    step false e (inr (fresh, result)) = inr (rw e fresh, ap (◌∷◌ h) result)

read_back : (hs : List Hash) → All Is32 hs → bytes_to_hash_slice (hash_slice_to_bytes hs) ≡ some hs
read_back hs sizes =
    ap bytes_to_hash_slice (sym (append-nil (hash_slice_to_bytes hs)))
    ∙ bytes_to_hash_slice-hash_slice_to_bytes hs [] sizes (omega arith)

-- A root comes from the end of a store.
root_inversion :
    (sha256 : List ℕ → List ℕ) (num_cpu : ℕ) (schedule : List (List ℕ) → List ℕ)
    (leaves : List Hash) (r : Hash)
    → merkle_root sha256 num_cpu schedule leaves ≡ ok (some r)
    → (store : List Hash) × (build_merkle_store sha256 num_cpu schedule leaves ≡ some store)
      × (get_elem? store (length store - 1) ≡ some r)
unfolding merkle_root
root_inversion sha256 num_cpu schedule [] r e = cc
root_inversion sha256 num_cpu schedule (x ∷ xs) r e =
    outer (build_merkle_store sha256 num_cpu schedule (x ∷ xs)) refl e
  where
    Goal : Type 0
    Goal =
        (store : List Hash) × (build_merkle_store sha256 num_cpu schedule (x ∷ xs) ≡ some store)
        × (get_elem? store (length store - 1) ≡ some r)

    inner :
        (store : List Hash)
        → build_merkle_store sha256 num_cpu schedule (x ∷ xs) ≡ some store
        → (top : Option Hash) → get_elem? store (length store - 1) ≡ top
        → or_panic {E = Error} (top >>= λ root. some (some root)) ≡ ok (some r)
        → Goal
    inner store built none found e = cc e
    inner store built (some root) found e =
        let same : root ≡ r = cc e in (store, built, found ∙ ap some same)

    outer :
        (o : Option (List Hash))
        → build_merkle_store sha256 num_cpu schedule (x ∷ xs) ≡ o
        → or_panic {E = Error}
            (o >>= λ store. get_elem? store (length store - 1) >>= λ root. some (some root))
          ≡ ok (some r)
        → Goal
    outer none built e = cc e
    outer (some store) built e = inner store built (get_elem? store (length store - 1)) refl e

module _ {F D : Type 0} (rt : Runtime F) (disk : Database D)
    (fair : (jobs : List (List ℕ)) → Interleaving jobs (rt.schedule jobs)) where
  abbrev root_of : List Hash → Hash
  root_of leaves = node rt.sha256 leaves (log2_ceil (length leaves)) 0

  abbrev rooted : ℕ → Hash → List (List Hash) → List (List Hash)
  rooted winner root roots = set roots winner (set (get_or roots winner []) 0 root)

  if_place : (row : List Hash) → 0 < length row → ltb 0 (length row) ≡ true
  if_place row place = ground arith

  reseal-stored :
      (winner : ℕ) (leaves : List Hash) (s : Sealed D)
      → 0 < length leaves
      → winner < 4_294_967_296
      → winner < length s.roots
      → 0 < length (get_or s.roots winner [])
      → ((store : List Hash)
          → (save_miner_subtree disk winner 0
              (hash_slice_to_bytes leaves)
              (hash_slice_to_bytes store)
              (record { db = s.db })).1
            ≡ true)
      → (db : D) × (store : List Hash) × (reseal rt disk winner leaves s
          ≡ some (record s { db = db; roots = rooted winner (root_of leaves) s.roots }, store))
        × (load_miner_subtree disk winner 0 (record { db = db })
            ≡ some (hash_slice_to_bytes leaves, hash_slice_to_bytes store))
  unfolding reseal
  reseal-stored winner leaves s some_leaves small has_roots has_place good =
      let root = merkle_root-node rt.sha256 rt.num_cpu rt.schedule fair leaves some_leaves in
      let (store, built, top) =
        root_inversion rt.sha256 rt.num_cpu rt.schedule leaves (root_of leaves) root in
      (
        (save_miner_subtree disk winner 0 (hash_slice_to_bytes leaves) (hash_slice_to_bytes store)
            (record { db = s.db })).0.db,
        store,
        rw (
          built,
          top,
          get_elem?-get_or s.roots winner [] has_roots,
          if_place (get_or s.roots winner []) has_place,
        ),
        load-save_miner_subtree disk winner 0 winner 0 (hash_slice_to_bytes leaves)
              (hash_slice_to_bytes store) (record { db = s.db }) small (omega arith) small
              (omega arith) (good store)
            ∙ if_true {b = num_eq winner winner && num_eq 0 0}
                (load_miner_subtree disk winner 0 (record { db = s.db })) (ground arith),
      )

  finalize_steps :
      (cfg : Config) (s after : Sealed D) (old new : Hash) (drawn : Option (List ℕ))
      (hs store : List Hash) (leaves_bytes stored : Bytes) (e : BlockFinalizedEvent)
      → load_miner_subtree disk (select_winner cfg.num_miners drawn) 0 (record { db = s.db })
        ≡ some (leaves_bytes, stored)
      → bytes_to_hash_slice leaves_bytes ≡ some hs
      → reseal rt disk (select_winner cfg.num_miners drawn) (replace_coinbase old new hs) s
        ≡ some (after, store)
      → event rt disk cfg false (select_winner cfg.num_miners drawn) after ≡ some e
      → finalize_block rt disk cfg s old false drawn new ≡ some (after, some e)
  unfolding finalize_block reextract
  finalize_steps cfg s after old new drawn hs store leaves_bytes stored e found back resealed
        finished =
      ap (finalize_loaded rt disk cfg false winner s old new) found
      ∙ ap
          (λ o. o >>= λ leaves.
            finalize_leaves rt disk cfg false winner s (replace_coinbase old new leaves))
          back
      ∙ ap
          (λ (o : Option (Sealed D × List Hash)). o >>= λ (r, st).
            reextract rt disk cfg false winner (replace_coinbase old new hs) st r >>= λ a.
            event rt disk cfg false winner a >>= λ e. some (a, some e))
          resealed
      ∙ ap (λ (o : Option BlockFinalizedEvent). o >>= λ e. some (after, some e)) finished
    where
      winner : ℕ
      winner = select_winner cfg.num_miners drawn

  event_of :
      (cfg : Config) (winner : ℕ) (s : Sealed D) (own : List Hash) (idx : TokenSubtreeIndex)
      → get_elem? s.roots winner ≡ some own
      → get_elem? s.miner_token_idx winner ≡ some idx
      → event rt disk cfg false winner s
        ≡ some (record {
          winner_miner = winner;
          subtree_roots = own;
          token_subtree_idx = idx;
          has_fragments = false;
          hashes_per_subtree = cfg.hashes_per_subtree;
          num_businesses = cfg.num_businesses;
        })
  unfolding event
  event_of cfg winner s own idx a b = rw (a, b)

  -- Where the winner's subtree 0 is on disk with leaves of 32 bytes, at least one, the winner has a
  -- token index and a place for the root, writes of that subtree succeed, and there is no fragment
  -- store: FinalizeBlock returns an event, and the leaves that the disk then has for that subtree are
  -- the old ones with the first old coinbase, if there is one, replaced by the new one and no other
  -- leaf changed, and the event's first root is the MerkleRoot of those leaves.
  pub finalize_block-resealed :
      (cfg : Config) (s : Sealed D) (old new : Hash) (drawn : Option (List ℕ)) (hs : List Hash)
      (stored : Bytes)
      → (select_winner cfg.num_miners drawn) < 4_294_967_296
      → (select_winner cfg.num_miners drawn) < length s.roots
      → 0 < length (get_or s.roots (select_winner cfg.num_miners drawn) [])
      → (select_winner cfg.num_miners drawn) < length s.miner_token_idx
      → Is32 new
      → 0 < length hs
      → All Is32 hs
      → load_miner_subtree disk (select_winner cfg.num_miners drawn) 0 (record { db = s.db })
        ≡ some (hash_slice_to_bytes hs, stored)
      → ((leaves store : List Hash)
          → (save_miner_subtree disk
              (select_winner cfg.num_miners drawn)
              0
              (hash_slice_to_bytes leaves)
              (hash_slice_to_bytes store)
              (record { db = s.db })).1
            ≡ true)
      → (after : Sealed D) × (e : BlockFinalizedEvent) × (r : Hash) × (leaves : List Hash)
        × (leaves_bytes : Bytes) × (store_bytes : Bytes) × (finalize_block rt disk cfg s old false
              drawn new
            ≡ some (after, some e))
        × (load_miner_subtree disk (select_winner cfg.num_miners drawn) 0 (record { db = after.db })
            ≡ some (leaves_bytes, store_bytes))
        × (bytes_to_hash_slice leaves_bytes ≡ some leaves)
        × IsReplaced old new hs leaves
        × (merkle_root rt.sha256 rt.num_cpu rt.schedule leaves ≡ ok (some r))
        × (get_elem? e.subtree_roots 0 ≡ some r)
  finalize_block-resealed cfg s old new drawn hs stored small has_roots has_place has_idx size
        some_hs sizes found good =
      let winner = select_winner cfg.num_miners drawn in
      let leaves = replace_coinbase old new hs in
      let some_leaves : 0 < length leaves =
        omega (arith, some_hs, length-replace_coinbase old new hs) in
      let (db, store, resealed, loaded) =
        reseal-stored winner leaves s some_leaves small has_roots has_place (good leaves) in
      let own = set (get_or s.roots winner []) 0 (root_of leaves) in
      let idx = get_or s.miner_token_idx winner new_token_subtree_index in
      let roots_eq : get_elem? (rooted winner (root_of leaves) s.roots) winner ≡ some own =
        ground (arith, get_elem?-set s.roots winner winner own has_roots) in
      let idx_eq : get_elem? s.miner_token_idx winner ≡ some idx =
        get_elem?-get_or s.miner_token_idx winner new_token_subtree_index has_idx in
      (
        record s { db = db; roots = rooted winner (root_of leaves) s.roots },
        record {
          winner_miner = winner;
          subtree_roots = own;
          token_subtree_idx = idx;
          has_fragments = false;
          hashes_per_subtree = cfg.hashes_per_subtree;
          num_businesses = cfg.num_businesses;
        },
        root_of leaves,
        leaves,
        hash_slice_to_bytes leaves,
        hash_slice_to_bytes store,
        finalize_steps cfg s (record s { db = db; roots = rooted winner (root_of leaves) s.roots })
            old new drawn hs store (hash_slice_to_bytes hs) stored _ found (read_back hs sizes)
            resealed
            (event_of cfg winner
              (record s { db = db; roots = rooted winner (root_of leaves) s.roots }) own idx
              roots_eq idx_eq),
        loaded,
        read_back leaves (replace_coinbase-Is32 old new hs size sizes),
        replace_coinbase-IsReplaced old new hs,
        merkle_root-node rt.sha256 rt.num_cpu rt.schedule fair leaves some_leaves,
        ground (arith, get_elem?-set (get_or s.roots winner []) 0 0 (root_of leaves) has_place),
      )
