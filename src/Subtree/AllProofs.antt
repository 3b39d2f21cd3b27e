-- ===== src/Subtree/AllProofs.antt =====
-- GetAllProofs: the proofs of all leaves, from one store.
use stumpt.Base.{
  ℕ, zero, suc, ◌+◌, ◌<◌, ◌≡◌, refl, ap, ◌∙◌, arith, List, [], ◌∷◌, some, length, get_elem?, ok,
  panic,
}
use stumpt.Subtree.{
  Hash, at, build_merkle_store, log2_ceil, proof_from_store, get_merkle_proof, proofs_from,
  get_all_proofs,
}
use stumpt.Subtree.Schedule.{Interleaving}
use stumpt.Subtree.Store.{build_merkle_store-IsMerkleStore}
use stumpt.Subtree.Proof.{siblings}
use stumpt.Subtree.Paths.{reads_siblings, proof_found}

module _ (leaves store : List Hash) (proof : ℕ → List Hash) where
  abbrev Collected : ℕ → ℕ → Type 0
  Collected left i =
      (ps : List (List Hash)) × (proofs_from leaves store left i ≡ some ps)
      × (length ps ≡ left)
      × ((j : ℕ) → j < left → get_elem? ps j ≡ some (proof (i + j)))

  -- The loop collects the proof of each index in turn.
  collect :
      (left i : ℕ)
      → i + left ≡ length leaves
      → ((k : ℕ)
          → k < length leaves
          → proof_from_store leaves store k (log2_ceil (length leaves)) (length leaves)
            ≡ some (proof k))
      → Collected left i
  unfolding proofs_from
  collect zero i e reads = ([], refl, refl, λ j l. absurd (omega arith))
  collect (suc left) i e reads =
      let (ps, ran, size, entries) = collect left (i + 1) (omega arith) reads in
      (
        proof i ∷ ps,
        collect_one i ps ran (reads i (omega arith)),
        ap suc size,
        collected_at i left ps entries,
      )
    where
      collect_one :
          (i : ℕ) (ps : List (List Hash))
          → proofs_from leaves store left (i + 1) ≡ some ps
          → proof_from_store leaves store i (log2_ceil (length leaves)) (length leaves)
            ≡ some (proof i)
          → proofs_from leaves store (suc left) i ≡ some (proof i ∷ ps)
      collect_one i ps ran one = rw (one, ran)

      collected_at :
          (i left : ℕ) (ps : List (List Hash))
          → ((j : ℕ) → j < left → get_elem? ps j ≡ some (proof (i + 1 + j)))
          → (j : ℕ) → j < suc left
          → get_elem? (proof i ∷ ps) j ≡ some (proof (i + j))
      collected_at i left ps h zero l = ap (λ x. some (proof x)) {y = i + 0} (omega arith)
      collected_at i left ps h (suc j) l =
          h j (omega arith) ∙ ap (λ x. some (proof x)) {y = i + suc j} (omega arith)

module _ (sha256 : List ℕ → List ℕ) (num_cpu : ℕ) (schedule : List (List ℕ) → List ℕ) where
  all_from_store :
      (leaves : List Hash) {t : List Hash} {ps : List (List Hash)}
      → 1 < length leaves
      → build_merkle_store sha256 num_cpu schedule leaves ≡ some t
      → proofs_from leaves t (length leaves) 0 ≡ some ps
      → get_all_proofs sha256 num_cpu schedule leaves ≡ ok ps
  unfolding get_all_proofs
  all_from_store [] many built read = absurd (omega arith)
  all_from_store (x ∷ xs) many built read = rw (built, read)

  -- GetAllProofs panics on a list of one leaf, whatever the leaf: its proof has no first entry to
  -- write, and unlike GetMerkleProof it does not treat that length apart.
  pub get_all_proofs-one_leaf :
      (leaf : Hash)
      → (get_all_proofs sha256 num_cpu schedule (leaf ∷ []) ≡ panic)
        × (get_merkle_proof sha256 num_cpu schedule (leaf ∷ []) (at 0) ≡ ok [])
  unfolding get_all_proofs build_merkle_store proofs_from proof_from_store log2_ceil
      get_merkle_proof
  get_all_proofs-one_leaf leaf = (refl, refl)

  module _ (fair : (jobs : List (List ℕ)) → Interleaving jobs (schedule jobs))
      (leaves : List Hash) where
    -- GetAllProofs on two leaves or more does not panic, and returns for each index of the list the
    -- proof that GetMerkleProof returns for it.
    pub get_all_proofs-get_merkle_proof :
        1 < length leaves
        → (ps : List (List Hash)) × (get_all_proofs sha256 num_cpu schedule leaves ≡ ok ps)
          × (length ps ≡ length leaves)
          × ((i : ℕ)
              → i < length leaves
              → (p : List Hash) × (get_elem? ps i ≡ some p)
                × (get_merkle_proof sha256 num_cpu schedule leaves (at i) ≡ ok p))
    get_all_proofs-get_merkle_proof many =
        let (t, built, holds) =
          build_merkle_store-IsMerkleStore sha256 num_cpu schedule fair leaves many in
        let proof : ℕ → List Hash = siblings sha256 leaves 0 (log2_ceil (length leaves)) in
        let (ps, ran, size, entries) =
          collect leaves t proof (length leaves) 0 (omega arith)
            (λ k l. reads_siblings sha256 num_cpu schedule fair leaves t k many l holds) in
        (
          ps,
          all_from_store leaves many built ran,
          size,
          λ i l. (
            proof i,
            entries i l ∙ ap (λ x. some (proof x)) {y = i} (omega arith),
            proof_found sha256 num_cpu schedule fair leaves i many l,
          ),
        )
