-- ===== src/Subtree/Proof.antt =====
-- proofFromStore: the siblings that it reads off the store, and where they lead.
use mathlib.Core.Path.{subst}
use native.Mathlib.Numerals.{add-one}
use native.Mathlib.Nat.{div-div-eq-div-mul}
use Prim.Native.Nat.{bit_xor}
use stumpt.Base.{
  ℕ, zero, suc, ◌+◌, ◌-◌, ◌*◌, ◌/◌, ◌%◌, ◌^◌, ◌≤◌, ◌<◌, ◌≡◌, refl, sym, ap, ◌∙◌, arith, List, [],
  ◌∷◌, some, length, get_elem?, get_or, get_elem?-get_or, leb, false, ◌==◌, if◌then◌else◌,
}
use stumpt.Base.Bits.{bit_xor-one}
use stumpt.Subtree.{
  Hash, zero_hash, hash_pair, log2_ceil, next_power_of_two, proof_levels, proof_from_store,
}
use stumpt.Subtree.Sizes.{pow_double, pow_pos, next_power-log2, log2_ceil_enough}
use stumpt.Subtree.Levels.{node, leaf_at}
use stumpt.Subtree.Store.{IsMerkleStore}

-- The root that a proof leads to from the hash `h` at place `q` of its level.
unfoldable pub climb : (List ℕ → List ℕ) → Hash → ℕ → List Hash → Hash
climb sha256 h q [] = h
climb sha256 h q (s ∷ p) =
    climb sha256 (if q % 2 == 0 then hash_pair sha256 h s else hash_pair sha256 s h) (q / 2) p

halve_place : (index k : ℕ) → index / 2 ^ suc k ≡ index / 2 ^ k / 2
halve_place index k =
    ap (λ (t : ℕ). index / t) {y = 2 ^ k * 2} (omega (arith, pow_double k))
    ∙ sym (div-div-eq-div-mul index (2 ^ k) 2)

module _ (sha256 : List ℕ → List ℕ) (leaves : List Hash) where
  -- The siblings on the way up from place `q` of level `k`.
  unfoldable pub siblings : ℕ → ℕ → ℕ → List Hash
  siblings k zero q = []
  siblings k (suc r) q = node sha256 leaves k (bit_xor q 1) ∷ siblings (suc k) r (q / 2)

  pub length-siblings : (k r q : ℕ) → length (siblings k r q) ≡ r
  unfolding siblings
  length-siblings k zero q = refl
  length-siblings k (suc r) q = ap suc (length-siblings (suc k) r (q / 2))

  parent_node :
      (k q : ℕ)
      → (if q % 2 == 0
          then hash_pair sha256 (node sha256 leaves k q) (node sha256 leaves k (bit_xor q 1))
          else hash_pair sha256 (node sha256 leaves k (bit_xor q 1)) (node sha256 leaves k q))
        ≡ node sha256 leaves (suc k) (q / 2)
  unfolding node
  parent_node k q = ground (
    arith,
    bit_xor-one q,
    ap (node sha256 leaves k) {x = q} {y = q / 2 * 2},
    ap (node sha256 leaves k) {x = q} {y = q / 2 * 2 + 1},
    ap (node sha256 leaves k) {x = bit_xor q 1} {y = q / 2 * 2},
    ap (node sha256 leaves k) {x = bit_xor q 1} {y = q / 2 * 2 + 1},
  )

  pub climb-siblings :
      (r k q : ℕ)
      → q < 2 ^ r
      → climb sha256 (node sha256 leaves k q) q (siblings k r q) ≡ node sha256 leaves (k + r) 0
  unfolding climb siblings
  climb-siblings zero k q h = ground (
    arith,
    ap (node sha256 leaves k) {x = q} {y = 0},
    ap (λ (t : ℕ). node sha256 leaves t 0) {x = k} {y = k + 0},
  )
  climb-siblings (suc r) k q h =
      rw (parent_node k q, climb)
        (climb-siblings r (suc k) (q / 2) (omega (arith, pow_double r))
          ∙ ap (λ (t : ℕ). node sha256 leaves t 0) (omega arith))

  -- The loop over the levels reads the siblings off the store.
  proof_levels-siblings :
      (h : ℕ) (t : List Hash) (index r k offset : ℕ)
      → IsMerkleStore sha256 leaves h t
      → k + r ≡ h
      → 1 ≤ k
      → offset + 2 * 2 ^ r ≡ 2 ^ h
      → index / 2 ^ k < 2 ^ r
      → proof_levels t index r k offset (2 ^ r) ≡ some (siblings k r (index / 2 ^ k))
  unfolding proof_levels siblings
  proof_levels-siblings h t index zero k offset holds sum one place inside = refl
  proof_levels-siblings h t index (suc r) k offset holds sum one place inside =
      let double = pow_double r in
      let pos = pow_pos r in
      let q = index / 2 ^ k in
      let sib : bit_xor q 1 < 2 ^ suc r = ground (arith, bit_xor-one q) in
      let in_range : leb (2 ^ suc r) (bit_xor q 1) ≡ false = ground arith in
      let here : get_elem? t (offset + bit_xor q 1) ≡ some (node sha256 leaves k (bit_xor q 1)) =
        subst (λ i. get_elem? t (i + bit_xor q 1) ≡ some (node sha256 leaves k (bit_xor q 1)))
          (omega arith) (holds.nodes k (suc r) (bit_xor q 1) sum one sib) in
      let halved : 2 ^ suc r / 2 ≡ 2 ^ r = omega arith in
      let rest : proof_levels t index r (k + 1) (offset + 2 ^ suc r) (2 ^ suc r / 2)
          ≡ some (siblings (suc k) r (q / 2)) =
        rw (add-one k, halved, ← halve_place index k)
          (proof_levels-siblings h t index r (suc k) (offset + 2 ^ suc r) holds (omega arith)
            (omega arith) (omega arith) (omega (arith, halve_place index k))) in
      rw (in_range, here, rest)

  -- A proof of a leaf below the length, read from a store that holds the tree.
  pub proof_from_store-siblings :
      (h : ℕ) (t : List Hash) (index : ℕ)
      → IsMerkleStore sha256 leaves (suc h) t
      → log2_ceil (length leaves) ≡ suc h
      → index < length leaves
      → proof_from_store leaves t index (suc h) (length leaves) ≡ some (siblings 0 (suc h) index)
  unfolding proof_from_store siblings node
  proof_from_store-siblings h t index holds tall inside =
      let n = length leaves in
      let size : next_power_of_two n / 2 ≡ 2 ^ h =
        omega (arith, next_power-log2 n, ap (λ (x : ℕ). 2 ^ x) tall, pow_double h) in
      let fits : n ≤ 2 * 2 ^ h =
        omega (arith, (log2_ceil_enough n), ap (λ (x : ℕ). 2 ^ x) tall, pow_double h) in
      let first : get_elem? leaves (if leb n (bit_xor index 1) then index else bit_xor index 1)
          ≡ some (leaf_at leaves (bit_xor index 1)) =
        ground (
          arith,
          bit_xor-one index,
          get_elem?-get_or leaves (bit_xor index 1) zero_hash,
          get_elem?-get_or leaves index zero_hash,
          ap (λ (x : ℕ). get_or leaves x zero_hash) {x = index} {y = n - 1},
        ) in
      let rest : proof_levels t index h 1 0 (2 ^ h) ≡ some (siblings 1 h (index / 2)) =
        proof_levels-siblings (suc h) t index h 1 0 holds (omega arith) (omega arith)
          (omega (arith, pow_double h)) (omega arith) in
      rw (size, first, rest)
