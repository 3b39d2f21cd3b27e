-- ===== src/Subtree/Tests.antt =====
-- Runs of the merkle functions on small lists, and the theorems at such inputs.
use mathlib.Core.List.{foldl}
use stumpt.Base.{
  ℕ, ◌+◌, ◌*◌, ◌%◌, ◌<◌, ◌≤◌, ◌^◌, ◌≡◌, refl, arith, List, [], ◌∷◌, some, length, get_elem?,
  replicate, ok, panic, none, ◌⊎◌,
}
use stumpt.Subtree.{
  Hash, at, split_jobs, worker_jobs, build_merkle_store, log2_ceil, log2_loop, next_power_of_two,
  get_proof_from_store, get_merkle_proof, get_all_proofs, hash_pair, hash_level, level_loop,
  hash_leaf_pairs, pair_order, leaf_pair_step, level_pair_step, pad_leaf, proof_levels,
  proof_from_store,
}
use stumpt.Subtree.Schedule.{one_by_one, one_by_one-Interleaving}
use stumpt.Subtree.Store.{IsMerkleStore, build_merkle_store-IsMerkleStore}
use stumpt.Subtree.Paths.{Proves, get_merkle_proof-root, get_proof_from_store-get_merkle_proof}
use stumpt.Subtree.AllProofs.{get_all_proofs-get_merkle_proof, get_all_proofs-one_leaf}
use stumpt.Subtree.Sizes.{log2_ceil_correct}

-- A stand-in for SHA-256 that depends on the order of the bytes.
abbrev digest : List ℕ → List ℕ
digest bytes = replicate 32 (foldl (λ acc b. (acc * 31 + b) % 256) 7 bytes)

abbrev leaf : ℕ → Hash
leaf b = replicate 32 b

abbrev three : List Hash
three = leaf 1 ∷ leaf 2 ∷ leaf 3 ∷ []

sizes : (next_power_of_two 5 ≡ 8) × (log2_ceil 5 ≡ 3) × (log2_ceil 1048576 ≡ 20)
unfolding next_power_of_two log2_ceil
sizes = (refl, refl, refl)

three_run :
    (build_merkle_store digest 8 one_by_one three
      ≡ some (
          hash_pair digest (leaf 1) (leaf 2)
          ∷ hash_pair digest (leaf 3) (leaf 3)
          ∷ hash_pair digest
              (hash_pair digest (leaf 1) (leaf 2))
              (hash_pair digest (leaf 3) (leaf 3))
          ∷ []))
    × (get_merkle_proof digest 8 one_by_one three (at 2)
        ≡ ok (leaf 3 ∷ hash_pair digest (leaf 1) (leaf 2) ∷ []))
unfolding build_merkle_store hash_leaf_pairs level_loop hash_level pair_order leaf_pair_step
    level_pair_step pad_leaf next_power_of_two log2_ceil hash_pair get_merkle_proof proof_levels
    proof_from_store
three_run = (refl, refl)

-- A level of 4096 pairs is shared out among the processors.
five_workers : split_jobs 7 5 ≡ (0 ∷ 1 ∷ []) ∷ (2 ∷ 3 ∷ []) ∷ (4 ∷ 5 ∷ []) ∷ (6 ∷ []) ∷ []
unfolding worker_jobs
five_workers = refl

log2_ceil_correct_example :
    ((5 ≤ 2 ^ 62)
      × ((h : ℕ) × (log2_loop 64 5 0 ≡ some h)
          × (log2_ceil 5 ≡ h)
          × (5 ≤ 2 ^ h)
          × ((k : ℕ) → 5 ≤ 2 ^ k → h ≤ k)))
    ⊎ ((2 ^ 62 < 5) × ((rounds : ℕ) → log2_loop rounds 5 0 ≡ none))
log2_ceil_correct_example = log2_ceil_correct 5

build_merkle_store-IsMerkleStore_example :
    (t : List Hash) × (build_merkle_store digest 8 one_by_one three ≡ some t)
    × IsMerkleStore digest three (log2_ceil 3) t
build_merkle_store-IsMerkleStore_example =
    build_merkle_store-IsMerkleStore digest 8 one_by_one one_by_one-Interleaving three (omega arith)

get_merkle_proof-root_example :
    (proof : List Hash) × (get_merkle_proof digest 8 one_by_one three (at 2) ≡ ok proof)
    × Proves digest 8 one_by_one three 2 proof
get_merkle_proof-root_example =
    get_merkle_proof-root digest 8 one_by_one one_by_one-Interleaving three 2 (omega arith)

get_proof_from_store-get_merkle_proof_example :
    (store : List Hash) × (build_merkle_store digest 8 one_by_one three ≡ some store)
    × (get_proof_from_store three store (at 1) ≡ get_merkle_proof digest 8 one_by_one three (at 1))
get_proof_from_store-get_merkle_proof_example =
    get_proof_from_store-get_merkle_proof digest 8 one_by_one one_by_one-Interleaving three (at 1)
      (omega arith)

get_all_proofs-one_leaf_example :
    (get_all_proofs digest 8 one_by_one (leaf 9 ∷ []) ≡ panic)
    × (get_merkle_proof digest 8 one_by_one (leaf 9 ∷ []) (at 0) ≡ ok [])
get_all_proofs-one_leaf_example = get_all_proofs-one_leaf digest 8 one_by_one (leaf 9)

get_all_proofs-get_merkle_proof_example :
    (ps : List (List Hash)) × (get_all_proofs digest 8 one_by_one three ≡ ok ps)
    × (length ps ≡ 3)
    × ((i : ℕ)
        → i < 3
        → (p : List Hash) × (get_elem? ps i ≡ some p)
          × (get_merkle_proof digest 8 one_by_one three (at i) ≡ ok p))
get_all_proofs-get_merkle_proof_example =
    get_all_proofs-get_merkle_proof digest 8 one_by_one one_by_one-Interleaving three (omega arith)
