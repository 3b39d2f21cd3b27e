-- ===== src/Merkleservice/Processing/Direct.antt =====
-- internal/merkleservice/bump.go: ProcessBUMPs without fragments, against a run that has no cache.
use stumpt.Base.{
  ℕ, ◌≡◌, refl, sym, ap, ◌∙◌, arith, false, Option, none, some, List, [], ◌∷◌, ◌++◌, range_from,
  Run, ok, err, panic, if_false,
}
use stumpt.Base.Loop.{◌>>=◌}
use stumpt.Base.Bytes.{Hash}
use stumpt.Base.Maps.{nat_eq, lookup}
use stumpt.Subtree.{get_all_proofs}
use stumpt.Diskstore.Database.{Bytes, Database}
use stumpt.Merkleservice.Runtime.{Runtime}
use stumpt.Merkleservice.TokenIndex.{subtree_indices}
use stumpt.Merkleservice.Assembly.{Error}
use stumpt.Merkleservice.Cache.{CachedSubtree, SubtreeCache, new_subtree_cache}
use stumpt.Merkleservice.Extraction.{LeafPos, assemble_token_bump_fast}
use stumpt.Merkleservice.Finalize.{BlockFinalizedEvent}
use stumpt.Merkleservice.Processing.{
  Heights, Progress, record_outcome, fragments_token, jit_token, process_tokens, no_progress,
  process_bumps,
}
use stumpt.Merkleservice.Processing.Cached.{Coherent}
use stumpt.Merkleservice.Processing.Collect.{collect_direct, collect_positions-direct}

-- The BUMPs recorded so far and one for the token, or the log of an error.
abbrev pub record_direct : ℕ → Run Error Bytes → List (ℕ × Bytes) → Option (List (ℕ × Bytes))
record_direct idx (ok bytes) bumps = some (bumps ++ ((idx, bytes) ∷ []))
record_direct idx (err e) bumps = some bumps
record_direct idx panic bumps = none

-- The BUMPs of a run, or its panic.
abbrev pub bumps_of : Option Progress → Option (List (ℕ × Bytes))
bumps_of none = none
bumps_of (some p) = some p.bumps

module _ {F D : Type 0} (rt : Runtime F) (disk : Database D)
    (sort_positions : List LeafPos → List LeafPos) (db : D) (heights : Heights)
    (evt : BlockFinalizedEvent) where
  abbrev assemble : List (List Hash) → List LeafPos → List (ℕ × CachedSubtree) → Run Error Bytes
  assemble top_proofs positions subtrees =
      assemble_token_bump_fast sort_positions rt.sort_slice heights.block_height positions subtrees
        top_proofs heights.subtree_height heights.top_tree_height heights.total_height

  -- The tokens, one after the other, each subtree read from disk when it is needed.
  abbrev direct_token : List (List Hash) → ℕ → List (ℕ × Bytes) → Option (List (ℕ × Bytes))
  direct_token top_proofs idx bumps =
      collect_direct rt disk sort_positions db heights evt idx
        (subtree_indices (rt.token_name idx) evt.token_subtree_idx) [] []
      >>= λ (positions, subtrees). elim positions [
        | [] ↦ some bumps
        | x ∷ xs ↦ record_direct idx (assemble top_proofs (x ∷ xs) subtrees) bumps
      ]

  abbrev pub direct_tokens :
      List (List Hash) → List ℕ → List (ℕ × Bytes) → Option (List (ℕ × Bytes))
  direct_tokens top_proofs [] bumps = some bumps
  direct_tokens top_proofs (idx ∷ idxs) bumps =
      direct_token top_proofs idx bumps >>= direct_tokens top_proofs idxs

  abbrev IsCoherent : SubtreeCache → Type 0
  IsCoherent sc = Coherent rt disk sort_positions db heights evt sc

  -- A token with the cache and without it: both panic, or both record the same.
  data SameStep (cached : Option Progress) (direct : Option (List (ℕ × Bytes))) : Type 0 where
    panics : cached ≡ none → direct ≡ none → SameStep cached direct
    records :
        (q : Progress)
        → cached ≡ some q
        → direct ≡ some q.bumps
        → IsCoherent q.cache
        → SameStep cached direct

  jit_token-direct :
      (top_proofs : List (List Hash)) (idx : ℕ) (p : Progress)
      → IsCoherent p.cache
      → SameStep
          (jit_token rt disk sort_positions db heights evt top_proofs idx p)
          (direct_token top_proofs idx p.bumps)
  unfolding jit_token
  jit_token-direct top_proofs idx p co =
      let (q, (positions, subtrees), a, b, co_after, e) =
        collect_positions-direct rt disk sort_positions db heights evt idx
          (subtree_indices (rt.token_name idx) evt.token_subtree_idx) p [] [] co in
      rw a (rw b (finish q positions subtrees co_after e))
    where
      recorded :
          (q : Progress) (r : Run Error Bytes)
          → IsCoherent q.cache
          → q.bumps ≡ p.bumps
          → SameStep (record_outcome idx r q) (record_direct idx r p.bumps)
      recorded q (ok bytes) co e =
          records (record q { bumps = q.bumps ++ ((idx, bytes) ∷ []) }) refl
            (ap (λ bs. some (bs ++ ((idx, bytes) ∷ []))) (sym e)) co
      recorded q (err x) co e = records q refl (ap some (sym e)) co
      recorded q panic co e = panics refl refl

      finish :
          (q : Progress) (positions : List LeafPos) (subtrees : List (ℕ × CachedSubtree))
          → IsCoherent q.cache
          → q.bumps ≡ p.bumps
          → SameStep
              (elim positions [
                | [] ↦ some q
                | x ∷ xs ↦ record_outcome idx (assemble top_proofs (x ∷ xs) subtrees) q
              ])
              (elim positions [
                | [] ↦ some p.bumps
                | x ∷ xs ↦ record_direct idx (assemble top_proofs (x ∷ xs) subtrees) p.bumps
              ])
      finish q [] subtrees co e = records q refl (ap some (sym e)) co
      finish q (x ∷ xs) subtrees co e = recorded q (assemble top_proofs (x ∷ xs) subtrees) co e

  process_tokens-direct :
      (top_proofs : List (List Hash)) (idxs : List ℕ) (p : Progress)
      → evt.has_fragments ≡ false
      → IsCoherent p.cache
      → bumps_of (process_tokens rt disk sort_positions db heights evt top_proofs idxs p)
        ≡ direct_tokens top_proofs idxs p.bumps
  unfolding process_tokens
  process_tokens-direct top_proofs [] p jit co = refl
  process_tokens-direct top_proofs (idx ∷ idxs) p jit co =
      ap
        (λ o. bumps_of (o >>= process_tokens rt disk sort_positions db heights evt top_proofs idxs))
        (if_false (fragments_token rt disk sort_positions db heights evt top_proofs idx p) jit)
      ∙ go (jit_token-direct top_proofs idx p co) (λ q. process_tokens-direct top_proofs idxs q jit)
    where
      go :
          SameStep
            (jit_token rt disk sort_positions db heights evt top_proofs idx p)
            (direct_token top_proofs idx p.bumps)
          → ((q : Progress)
              → IsCoherent q.cache
              → bumps_of (process_tokens rt disk sort_positions db heights evt top_proofs idxs q)
                ≡ direct_tokens top_proofs idxs q.bumps)
          → bumps_of (
              jit_token rt disk sort_positions db heights evt top_proofs idx p
              >>= process_tokens rt disk sort_positions db heights evt top_proofs idxs)
            ≡ (direct_token top_proofs idx p.bumps >>= direct_tokens top_proofs idxs)
      go (panics a b) ih = rw (a, b)
      go (records q a b co) ih = rw a (rw b (ih q co))

  new-Coherent : (max : ℕ) → IsCoherent (new_subtree_cache max)
  unfolding new_subtree_cache lookup
  new-Coherent max = record {
    valid = record { in_order = refl; unique = tt; bounded = λ p. omega arith };
    on_disk = λ si cs h. cc h;
  }

  -- ProcessBUMPs on an event without a fragment store records, whatever the bound of its cache, the
  -- BUMPs of a run that reads each subtree from disk whenever a token needs it, in the same order, and
  -- it panics when that run does.
  pub process_bumps-direct :
      (order : List ℕ → List ℕ) (max_cache_entries : ℕ)
      → evt.has_fragments ≡ false
      → bumps_of (process_bumps rt disk sort_positions db heights evt order max_cache_entries)
        ≡ elim (get_all_proofs rt.sha256 rt.num_cpu rt.schedule evt.subtree_roots) [
          | ok top_proofs ↦ direct_tokens top_proofs (order (range_from evt.num_businesses 0)) []
          | err e ↦ some []
          | panic ↦ none
        ]
  unfolding process_bumps
  process_bumps-direct order max_cache_entries jit =
      step (get_all_proofs rt.sha256 rt.num_cpu rt.schedule evt.subtree_roots)
    where
      tokens : List ℕ
      tokens = order (range_from evt.num_businesses 0)

      start : Progress
      start = no_progress rt disk sort_positions db heights evt max_cache_entries

      step :
          {E : Type 0} (r : Run E (List (List Hash)))
          → bumps_of (elim r [
            | ok top_proofs ↦
                process_tokens rt disk sort_positions db heights evt top_proofs tokens start
            | err e ↦ some start
            | panic ↦ none
          ])
            ≡ elim r [
              | ok top_proofs ↦ direct_tokens top_proofs tokens []
              | err e ↦ some []
              | panic ↦ none
            ]
      step (ok top_proofs) =
          process_tokens-direct top_proofs tokens start jit (new-Coherent max_cache_entries)
      step (err e) = refl
      step panic = refl
