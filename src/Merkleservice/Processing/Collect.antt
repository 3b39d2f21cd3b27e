-- ===== src/Merkleservice/Processing/Collect.antt =====
-- internal/merkleservice/bump.go: ProcessBUMPs without fragments, the positions of a token.
use stumpt.Base.{ℕ, ◌≡◌, refl, ◌∙◌, Option, none, some, List, [], ◌∷◌, ◌++◌}
use stumpt.Base.Loop.{◌>>=◌}
use stumpt.Base.Maps.{nat_eq, insert}
use stumpt.Diskstore.Database.{Database}
use stumpt.Merkleservice.Runtime.{Runtime}
use stumpt.Merkleservice.TokenIndex.{get}
use stumpt.Merkleservice.Cache.{CachedSubtree, SubtreeCache}
use stumpt.Merkleservice.Extraction.{LeafPos}
use stumpt.Merkleservice.Finalize.{BlockFinalizedEvent}
use stumpt.Merkleservice.Processing.{
  Heights, Progress, load_subtree, positions_in, collect_positions,
}
use stumpt.Merkleservice.Processing.Cached.{Coherent, read, read_total, load_subtree-read}

module _ {F D : Type 0} (rt : Runtime F) (disk : Database D)
    (sort_positions : List LeafPos → List LeafPos) (db : D) (heights : Heights)
    (evt : BlockFinalizedEvent) where
  abbrev pub read_here : ℕ → Option (Option CachedSubtree)
  read_here si = read rt disk sort_positions db heights evt si

  abbrev pub IsCoherent : SubtreeCache → Type 0
  IsCoherent sc = Coherent rt disk sort_positions db heights evt sc

  -- The loop over a token's subtrees with a read for each.
  abbrev pub collect_direct :
      ℕ
      → List ℕ
      → List LeafPos
      → List (ℕ × CachedSubtree)
      → Option (List LeafPos × List (ℕ × CachedSubtree))
  collect_direct idx [] positions subtrees = some (positions, subtrees)
  collect_direct idx (si ∷ sis) positions subtrees =
      elim (get (rt.token_name idx) si evt.token_subtree_idx) [
        | [] ↦ collect_direct idx sis positions subtrees
        | li ∷ lis ↦ read_here si >>= λ loaded. elim loaded [
          | none ↦ collect_direct idx sis positions subtrees
          | some sc ↦
              collect_direct idx sis
                (positions ++ positions_in rt disk sort_positions db heights evt si (li ∷ lis))
                (insert si sc subtrees)
        ]
      ]

  pub collect_positions-direct :
      (idx : ℕ) (sis : List ℕ) (p : Progress) (ps : List LeafPos) (subs : List (ℕ × CachedSubtree))
      → IsCoherent p.cache
      → (q : Progress) × (collected : List LeafPos × List (ℕ × CachedSubtree)) × (collect_positions
            rt disk sort_positions db heights evt idx sis p ps subs
          ≡ some (q, collected.0, collected.1))
        × (collect_direct idx sis ps subs ≡ some collected)
        × IsCoherent q.cache
        × (q.bumps ≡ p.bumps)
  unfolding collect_positions
  collect_positions-direct idx [] p ps subs co = (p, (ps, subs), refl, refl, co, refl)
  collect_positions-direct idx (si ∷ sis) p ps subs co =
      step (get (rt.token_name idx) si evt.token_subtree_idx)
        (λ q. collect_positions-direct idx sis q)
    where
      Goal :
          Progress
          → Option (Progress × List LeafPos × List (ℕ × CachedSubtree))
          → Option (List LeafPos × List (ℕ × CachedSubtree))
          → Type 0
      Goal p cached direct =
          (q : Progress) × (collected : List LeafPos × List (ℕ × CachedSubtree)) × (cached
            ≡ some (q, collected.0, collected.1))
          × (direct ≡ some collected)
          × IsCoherent q.cache
          × (q.bumps ≡ p.bumps)

      later :
          (q : Progress) (cached : Option (Progress × List LeafPos × List (ℕ × CachedSubtree)))
          (direct : Option (List LeafPos × List (ℕ × CachedSubtree)))
          → q.bumps ≡ p.bumps
          → Goal q cached direct
          → Goal p cached direct
      later q cached direct e (q2, collected, a, b, co2, f) = (q2, collected, a, b, co2, f ∙ e)

      step :
          (lis : List ℕ)
          → ((q : Progress) (ps : List LeafPos) (subs : List (ℕ × CachedSubtree))
              → IsCoherent q.cache
              → Goal q
                  (collect_positions rt disk sort_positions db heights evt idx sis q ps subs)
                  (collect_direct idx sis ps subs))
          → Goal p
              (elim lis [
                | [] ↦ collect_positions rt disk sort_positions db heights evt idx sis p ps subs
                | li ∷ lis ↦
                    load_subtree rt disk sort_positions db heights evt si p >>= λ (q, loaded).
                    elim loaded [
                      | none ↦
                          collect_positions rt disk sort_positions db heights evt idx sis q ps subs
                      | some sc ↦
                          collect_positions rt disk sort_positions db heights evt idx sis q
                            (ps ++ positions_in rt disk sort_positions db heights evt si (li ∷ lis))
                            (insert si sc subs)
                    ]
              ])
              (elim lis [
                | [] ↦ collect_direct idx sis ps subs
                | li ∷ lis ↦ read_here si >>= λ loaded. elim loaded [
                  | none ↦ collect_direct idx sis ps subs
                  | some sc ↦
                      collect_direct idx sis
                        (ps ++ positions_in rt disk sort_positions db heights evt si (li ∷ lis))
                        (insert si sc subs)
                ]
              ])
      step [] ih = ih p ps subs co
      step (li ∷ lis) ih =
          let (r, er) = read_total rt disk sort_positions db heights evt si in
          let (q, el, co_after, eb) =
            load_subtree-read rt disk sort_positions db heights evt si p r co er in
          go r q el er co_after eb
        where
          go :
              (r : Option CachedSubtree) (q : Progress)
              → load_subtree rt disk sort_positions db heights evt si p ≡ some (q, r)
              → read_here si ≡ some r
              → IsCoherent q.cache
              → q.bumps ≡ p.bumps
              → Goal p
                  (load_subtree rt disk sort_positions db heights evt si p >>= λ (q, loaded).
                    elim loaded [
                      | none ↦
                          collect_positions rt disk sort_positions db heights evt idx sis q ps subs
                      | some sc ↦
                          collect_positions rt disk sort_positions db heights evt idx sis q
                            (ps ++ positions_in rt disk sort_positions db heights evt si (li ∷ lis))
                            (insert si sc subs)
                    ])
                  (read_here si >>= λ loaded. elim loaded [
                    | none ↦ collect_direct idx sis ps subs
                    | some sc ↦
                        collect_direct idx sis
                          (ps ++ positions_in rt disk sort_positions db heights evt si (li ∷ lis))
                          (insert si sc subs)
                  ])
          go none q el er co_after eb =
              let (q2, collected, a, b, co2, f) = ih q ps subs co_after in
              (q2, collected, rw el a, rw er b, co2, f ∙ eb)
          go (some sc) q el er co_after eb =
              let (q2, collected, a, b, co2, f) =
                ih q (ps ++ positions_in rt disk sort_positions db heights evt si (li ∷ lis))
                  (insert si sc subs) co_after in
              (q2, collected, rw el a, rw er b, co2, f ∙ eb)
