-- ===== src/Merkleservice/Processing/Cached.antt =====
-- internal/merkleservice/bump.go: ProcessBUMPs without fragments, its cache against reads from disk.
use stumpt.Base.{
  ==_iff, ℕ, ◌+◌, ◌/◌, ◌≡◌, refl, sym, ap, ◌∙◌, arith, Bool, true, false, ◌&&◌, ◌⊎◌, Option, none,
  some, List, [], ◌∷◌, if◌then◌else◌, leb, ltb, length, Bool-cases, inl, inr,
}
use stumpt.Base.Loop.{◌>>=◌}
use stumpt.Base.Bytes.{Hash}
use stumpt.Base.Maps.{nat_eq, ◌==◌, lookup, insert, erase, lookup-insert, lookup-erase}
use stumpt.Diskstore.Encoding.HashesCodec.{read_hashes_enough}
use stumpt.Diskstore.Database.{Bytes, Database}
use stumpt.Diskstore.Fragments.{load_miner_subtree}
use stumpt.Merkleservice.Runtime.{Runtime}
use stumpt.Merkleservice.HashSlices.{bytes_to_hash_slice}
use stumpt.Merkleservice.Cache.{
  CachedSubtree, SubtreeCache, get as cache_get, put, evict, then_append, append_entry, IsValid,
  put-IsValid,
}
use stumpt.Merkleservice.Extraction.{LeafPos}
use stumpt.Merkleservice.Finalize.{BlockFinalizedEvent}
use stumpt.Merkleservice.Processing.{Heights, Progress, read_subtree, after_get, load_subtree}

-- What a cache holds after a put was there before or is the subtree put.
lookup-put :
    (si k : ℕ) (cs v : CachedSubtree) (sc after : SubtreeCache)
    → put si cs sc ≡ some after
    → lookup k after.entries ≡ some v
    → (lookup k sc.entries ≡ some v) ⊎ ((k ≡ si) × (v ≡ cs))
unfolding put lookup
lookup-put si k cs v sc after e here = present (lookup si sc.entries) e
  where
    appended :
        (mid : SubtreeCache)
        → ((w : CachedSubtree) → lookup k mid.entries ≡ some w → lookup k sc.entries ≡ some w)
        → append_entry si cs mid ≡ after
        → (lookup k sc.entries ≡ some v) ⊎ ((k ≡ si) × (v ≡ cs))
    appended mid less same = elim (Bool-cases (si == k)) [
      | inl new ↦ inr (ground (arith, ==_iff si k, has, lookup-insert si k cs mid.entries))
      | inr old ↦ inl (less v (ground (arith, old, has, lookup-insert si k cs mid.entries)))
    ]
      where
        has : lookup k (insert si cs mid.entries) ≡ some v
        has = ap (λ (x : SubtreeCache). lookup k x.entries) same ∙ here

    evicting :
        (os : List ℕ)
        → then_append si cs (evict os sc) ≡ some after
        → (lookup k sc.entries ≡ some v) ⊎ ((k ≡ si) × (v ≡ cs))
    evicting [] e = cc
    evicting (o ∷ os) e =
        appended (record sc { entries = erase o sc.entries; order = os })
          (λ w h. ground (arith, h, lookup-erase o k sc.entries)) (cc e)

    room :
        (full : Bool)
        → (if full then then_append si cs (evict sc.order sc) else some (append_entry si cs sc))
          ≡ some after
        → (lookup k sc.entries ≡ some v) ⊎ ((k ≡ si) × (v ≡ cs))
    room true e = evicting sc.order e
    room false e = appended sc (λ w h. h) (cc e)

    present :
        (o : Option CachedSubtree)
        → elim o [
          | some c ↦ some sc
          | none ↦
              if leb sc.max_size (length sc.entries) && ltb 0 sc.max_size
              then then_append si cs (evict sc.order sc)
              else some (append_entry si cs sc)
        ]
          ≡ some after
        → (lookup k sc.entries ≡ some v) ⊎ ((k ≡ si) × (v ≡ cs))
    present (some c) e =
        let same : sc ≡ after = cc e in
        inl (ap (λ (x : SubtreeCache). lookup k x.entries) same ∙ here)
    present none e = room (leb sc.max_size (length sc.entries) && ltb 0 sc.max_size) e

bytes_to_hash_slice_total :
    (bytes : List ℕ) → (hs : List Hash) × (bytes_to_hash_slice bytes ≡ some hs)
unfolding bytes_to_hash_slice
bytes_to_hash_slice_total bytes =
    let (hs, ran, size) = read_hashes_enough (length bytes / 32) bytes (omega arith) in (hs, ran)

module _ {F D : Type 0} (rt : Runtime F) (disk : Database D)
    (sort_positions : List LeafPos → List LeafPos) (db : D) (heights : Heights)
    (evt : BlockFinalizedEvent) where
  abbrev pub read : ℕ → Option (Option CachedSubtree)
  read si = read_subtree rt disk sort_positions db heights evt si

  -- The read of a subtree does not panic.
  pub read_total : (si : ℕ) → (r : Option CachedSubtree) × (read si ≡ some r)
  unfolding read_subtree
  read_total si = step (load_miner_subtree disk evt.winner_miner si (record { db = db }))
    where
      step :
          (o : Option (Bytes × Bytes))
          → (r : Option CachedSubtree) × ((elim o [
            | none ↦ some none
            | some (leaves_bytes, store_bytes) ↦ bytes_to_hash_slice leaves_bytes >>= λ leaves.
                bytes_to_hash_slice store_bytes >>= λ store.
                some (some (record { leaves = leaves; store = store }))
          ])
              ≡ some r)
      step none = (none, refl)
      step (some (l, s)) =
          let (ls, el) = bytes_to_hash_slice_total l in
          let (ss, es) = bytes_to_hash_slice_total s in
          (some (record { leaves = ls; store = ss }), rw (el, es))

  -- A valid cache of subtrees as they are on disk.
  pub record Coherent (sc : SubtreeCache) : Type 0 where
    pub valid : IsValid sc
    pub on_disk :
        (si : ℕ) (cs : CachedSubtree) → lookup si sc.entries ≡ some cs → read si ≡ some (some cs)

  pub load_subtree-read :
      (si : ℕ) (p : Progress) (r : Option CachedSubtree)
      → Coherent p.cache
      → read si ≡ some r
      → (q : Progress) × (load_subtree rt disk sort_positions db heights evt si p ≡ some (q, r))
        × Coherent q.cache
        × (q.bumps ≡ p.bumps)
  unfolding load_subtree cache_get
  load_subtree-read si p r co found = step (lookup si p.cache.entries) refl
    where
      step :
          (o : Option CachedSubtree)
          → lookup si p.cache.entries ≡ o
          → (q : Progress) × (after_get rt disk sort_positions db heights evt si p (elim o [
            | none ↦ (none, p.cache)
            | some e ↦ (some e, record p.cache { hits = p.cache.hits + 1 })
          ])
              ≡ some (q, r))
            × Coherent q.cache
            × (q.bumps ≡ p.bumps)
      step (some c) e =
          let same : ◌≡◌ {A = Option (Option CachedSubtree)} (some r) (some (some c)) =
            sym found ∙ co.on_disk si c e in
          (
            record p { cache = record p.cache { hits = p.cache.hits + 1 } },
            cc same,
            record {
              valid = record {
                in_order = co.valid.in_order;
                unique = co.valid.unique;
                bounded = co.valid.bounded;
              };
              on_disk = co.on_disk;
            },
            refl,
          )
      step none e = fresh r found
        where
          fresh :
              (r : Option CachedSubtree)
              → read si ≡ some r
              → (q : Progress) × (after_get rt disk sort_positions db heights evt si p
                    (none, p.cache)
                  ≡ some (q, r))
                × Coherent q.cache
                × (q.bumps ≡ p.bumps)
          fresh none found = (record p { cache_misses = p.cache_misses + 1 }, rw found, co, refl)
          fresh (some cs) found =
              let (after, ran, valid, _) = (put-IsValid si 0 cs p.cache co.valid).1 in
              (
                record p { cache = after; cache_misses = p.cache_misses + 1 },
                rw (found, ran),
                record {
                  valid = valid;
                  on_disk = λ k v h. elim (lookup-put si k cs v p.cache after ran h) [
                    | inl old ↦ co.on_disk k v old
                    | inr (ek, ev) ↦
                        ap (λ x. read x) ek
                        ∙ found
                        ∙ ap (λ (x : CachedSubtree). some (some x)) (sym ev)
                  ];
                },
                refl,
              )
