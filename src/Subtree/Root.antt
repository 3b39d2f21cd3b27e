-- ===== src/Subtree/Root.antt =====
-- MerkleRoot: the top node of the padded tree.
use mathlib.Core.Path.{subst}
use stumpt.Base.{ℕ, ◌-◌, ◌≤◌, ◌<◌, ◌≡◌, refl, arith, List, [], ◌∷◌, some, length, get_elem?, ok}
use stumpt.Subtree.{Hash, build_merkle_store, merkle_root, log2_ceil}
use stumpt.Subtree.Schedule.{Interleaving}
use stumpt.Subtree.Levels.{node}
use stumpt.Subtree.Store.{IsMerkleStore, two_leaves, build_merkle_store-IsMerkleStore}

pub root_at_end :
    (sha256 : List ℕ → List ℕ) (leaves t : List Hash) (h : ℕ)
    → 1 ≤ h
    → IsMerkleStore sha256 leaves h t
    → get_elem? t (length t - 1) ≡ some (node sha256 leaves h 0)
root_at_end sha256 leaves t h tall holds =
    subst (λ i. get_elem? t i ≡ some (node sha256 leaves h 0)) (omega (arith, holds.size))
      (holds.nodes h 0 0 (omega arith) tall (omega arith))

module _ (sha256 : List ℕ → List ℕ) (num_cpu : ℕ) (schedule : List (List ℕ) → List ℕ) where
  root_from_store :
      (leaves : List Hash) {t : List Hash} {r : Hash}
      → 0 < length leaves
      → build_merkle_store sha256 num_cpu schedule leaves ≡ some t
      → get_elem? t (length t - 1) ≡ some r
      → merkle_root sha256 num_cpu schedule leaves ≡ ok (some r)
  unfolding merkle_root
  root_from_store [] h built top = absurd (omega arith)
  root_from_store (x ∷ xs) h built top = rw (built, top)

  module _ (fair : (jobs : List (List ℕ)) → Interleaving jobs (schedule jobs)) where
    -- MerkleRoot of a non-empty list is the top node of the padded tree, whatever the number of
    -- processors and the interleaving of the goroutines.
    pub merkle_root-node :
        (leaves : List Hash)
        → 0 < length leaves
        → merkle_root sha256 num_cpu schedule leaves
          ≡ ok (some (node sha256 leaves (log2_ceil (length leaves)) 0))
    merkle_root-node [] h = absurd (omega arith)
    merkle_root-node (x ∷ []) h = unfold merkle_root build_merkle_store log2_ceil node in refl
    merkle_root-node (x ∷ y ∷ more) h =
        let leaves = x ∷ y ∷ more in
        let (t, built, holds) =
          build_merkle_store-IsMerkleStore sha256 num_cpu schedule fair leaves (omega arith) in
        let (k, tall) = two_leaves leaves (omega arith) in
        root_from_store leaves h built
          (root_at_end sha256 leaves t (log2_ceil (length leaves)) (omega arith) holds)
