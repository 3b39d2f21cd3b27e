-- ===== src/Subtree/Paths.antt =====
-- GetMerkleProof, GetProofFromStore and GetAllProofs: a proof leads from its leaf to the root.
use mathlib.Core.Path.{subst}
use native.Mathlib.Decide.{ℕ_discrete}
use stumpt.Base.{
  ℕ, ◌<◌, ◌≡◌, refl, sym, ap, ◌∙◌, arith, List, [], some, length, get_or, ok, leb, true, false,
}
use stumpt.Subtree.{
  Hash, zero_hash, Index, at, minus, build_merkle_store, merkle_root, log2_ceil, proof_from_store,
  get_proof_from_store, get_merkle_proof,
}
use stumpt.Subtree.Sizes.{log2_ceil_enough}
use stumpt.Subtree.Schedule.{Interleaving}
use stumpt.Subtree.Levels.{node}
use stumpt.Subtree.Store.{IsMerkleStore, two_leaves, build_merkle_store-IsMerkleStore}
use stumpt.Subtree.Root.{merkle_root-node}
use stumpt.Subtree.Proof.{
  climb, siblings, length-siblings, climb-siblings, proof_from_store-siblings,
}

-- `proof` has a sibling for each level of the tree, and leads from leaf `index` to the merkle root.
abbrev pub Proves :
    (List ℕ → List ℕ) → ℕ → (List (List ℕ) → List ℕ) → List Hash → ℕ → List Hash → Type 0
Proves sha256 num_cpu schedule leaves index proof =
    (length proof ≡ log2_ceil (length leaves))
    × (merkle_root sha256 num_cpu schedule leaves
        ≡ ok (some (climb sha256 (get_or leaves index zero_hash) index proof)))

module _ (sha256 : List ℕ → List ℕ) (num_cpu : ℕ) (schedule : List (List ℕ) → List ℕ) where
  store_proof :
      (leaves : List Hash) (index : ℕ) {t p : List Hash}
      → 1 < length leaves
      → index < length leaves
      → build_merkle_store sha256 num_cpu schedule leaves ≡ some t
      → proof_from_store leaves t index (log2_ceil (length leaves)) (length leaves) ≡ some p
      → get_merkle_proof sha256 num_cpu schedule leaves (at index) ≡ ok p
  unfolding get_merkle_proof
  store_proof leaves index many inside built read =
      let a : leb (length leaves) index ≡ false = ground arith in
      let b : leb (length leaves) 1 ≡ false = ground arith in rw (a, b, built, read)

  lone_proof :
      (leaves : List Hash) (index : ℕ)
      → length leaves ≡ 1
      → index < length leaves
      → get_merkle_proof sha256 num_cpu schedule leaves (at index) ≡ ok []
  unfolding get_merkle_proof
  lone_proof leaves index one inside =
      let a : leb (length leaves) index ≡ false = ground arith in
      let b : leb (length leaves) 1 ≡ true = ground arith in rw (a, b)

  same_answer :
      (leaves t : List Hash) (index : Index)
      → 1 < length leaves
      → build_merkle_store sha256 num_cpu schedule leaves ≡ some t
      → get_proof_from_store leaves t index ≡ get_merkle_proof sha256 num_cpu schedule leaves index
  unfolding get_merkle_proof get_proof_from_store
  same_answer leaves t (minus k) many built = refl
  same_answer leaves t (at index) many built =
      let b : leb (length leaves) 1 ≡ false = ground arith in rw (b, built)

  module _ (fair : (jobs : List (List ℕ)) → Interleaving jobs (schedule jobs))
      (leaves : List Hash) where
    abbrev height : ℕ
    height = log2_ceil (length leaves)

    pub reads_siblings :
        (t : List Hash) (index : ℕ)
        → 1 < length leaves
        → index < length leaves
        → IsMerkleStore sha256 leaves height t
        → proof_from_store leaves t index height (length leaves)
          ≡ some (siblings sha256 leaves 0 height index)
    reads_siblings t index many inside holds =
        let (h, tall) = two_leaves leaves many in
        rw tall (
          proof_from_store-siblings sha256 leaves h t index
            (subst (λ n. IsMerkleStore sha256 leaves n t) tall holds) tall inside)

    pub proof_found :
        (index : ℕ)
        → 1 < length leaves
        → index < length leaves
        → get_merkle_proof sha256 num_cpu schedule leaves (at index)
          ≡ ok (siblings sha256 leaves 0 height index)
    proof_found index many inside =
        let (t, built, holds) =
          build_merkle_store-IsMerkleStore sha256 num_cpu schedule fair leaves many in
        store_proof leaves index many inside built (reads_siblings t index many inside holds)

    leaf_climbs :
        (index : ℕ)
        → index < length leaves
        → climb sha256 (get_or leaves index zero_hash) index (siblings sha256 leaves 0 height index)
          ≡ node sha256 leaves height 0
    leaf_climbs index inside =
        let kept : leb (length leaves) index ≡ false = ground arith in
        let leaf : get_or leaves index zero_hash ≡ node sha256 leaves 0 index =
          unfold node in rw kept in
        rw leaf (
          climb-siblings sha256 leaves height 0 index
            (omega (arith, (log2_ceil_enough (length leaves))))
          ∙ ap (λ (k : ℕ). node sha256 leaves k 0) {y = height} (omega arith))

    siblings-Proves :
        (index : ℕ)
        → index < length leaves
        → Proves sha256 num_cpu schedule leaves index (siblings sha256 leaves 0 height index)
    siblings-Proves index inside = (
      length-siblings sha256 leaves 0 height index,
      merkle_root-node sha256 num_cpu schedule fair leaves (omega arith)
          ∙ ap (λ x. ok (some x)) (sym (leaf_climbs index inside)),
    )

    -- GetMerkleProof finds, for every index of the list, a proof with Log2Ceil(n) siblings that leads
    -- from the leaf at that index to MerkleRoot of the leaves.
    pub get_merkle_proof-root :
        (index : ℕ)
        → index < length leaves
        → (proof : List Hash) × (get_merkle_proof sha256 num_cpu schedule leaves (at index)
            ≡ ok proof)
          × Proves sha256 num_cpu schedule leaves index proof
    get_merkle_proof-root index inside = elim (ℕ_discrete (length leaves) 1) [
      | yes one ↦
          let flat : height ≡ 0 = rw one (unfold log2_ceil in refl) in
          ([], lone_proof leaves index one inside, lone_climb flat)
      | no other ↦ (
        siblings sha256 leaves 0 height index,
        proof_found index (omega arith) inside,
        siblings-Proves index inside,
      )
    ]
      where
        lone_climb : height ≡ 0 → Proves sha256 num_cpu schedule leaves index []
        lone_climb flat =
            let none_left : siblings sha256 leaves 0 height index ≡ [] =
              rw flat (unfold siblings in refl) in
            subst (Proves sha256 num_cpu schedule leaves index) none_left
              (siblings-Proves index inside)

    -- GetProofFromStore on the store of two leaves or more answers every index, in range or not,
    -- as GetMerkleProof does.
    pub get_proof_from_store-get_merkle_proof :
        (index : Index)
        → 1 < length leaves
        → (store : List Hash) × (build_merkle_store sha256 num_cpu schedule leaves ≡ some store)
          × (get_proof_from_store leaves store index
              ≡ get_merkle_proof sha256 num_cpu schedule leaves index)
    get_proof_from_store-get_merkle_proof index many =
        let (t, built, holds) =
          build_merkle_store-IsMerkleStore sha256 num_cpu schedule fair leaves many in
        (t, built, same_answer leaves t index many built)
