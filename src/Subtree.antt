-- ===== src/Subtree.antt =====
-- internal/subtree/subtree.go: the merkle tree over a list of leaves and the proofs read from it.
-- A hash is the list of its bytes. SHA-256 is a parameter, and so are the number of processors and
-- the order in which the steps of concurrent goroutines happen.
pub mod Sizes
pub mod Schedule
pub mod Fill
pub mod Levels
pub mod Store
pub mod Root
pub mod Proof
pub mod Paths
pub mod AllProofs
mod Tests
use stumpt.Base.{
  ℕ, zero, suc, ◌+◌, ◌-◌, ◌*◌, ◌/◌, ◌%◌, ◌^◌, Bool, true, false, ◌&&◌, Option, none, some, List, [],
  ◌∷◌, ◌++◌, ltb, leb, if◌then◌else◌, length, get_elem?, get_or, set, replicate, range_from, Run,
  ok, err, panic, or_panic,
}
pub use stumpt.Base.Bytes.{Hash, zero_hash}
use stumpt.Base.Loop.{◌>>=◌, for_each}
use Prim.Native.Nat.{bit_xor, min}

-- The smallest level size from which goroutines are used.
abbrev pub parallel_threshold : ℕ
parallel_threshold = 4096

-- `p < n` for an int `p`, given by its bit pattern, and one that is not negative.
abbrev pub is_below : ℕ → ℕ → Bool
is_below p n = if ltb p 0x8000_0000_0000_0000 then ltb p n else true

-- `1 << h`
abbrev pub one_shifted : ℕ → ℕ
one_shifted h = if ltb h 64 then 2 ^ h else 0

-- `for p < n { p <<= 1 }`, so many rounds of it; `none` when it has not ended by then.
next_power_loop : ℕ → ℕ → ℕ → Option ℕ
next_power_loop zero n p = none
next_power_loop (suc fuel) n p =
    let rest = next_power_loop fuel n (p * 2 % 2 ^ 64) in if is_below p n then rest else some p

-- Above 2 ^ 62, which no slice of hashes reaches, the loop of the source does not end, and what
-- stands here has no meaning; so in `log2_ceil`.
unfoldable pub next_power_of_two : ℕ → ℕ
unfolding next_power_loop
next_power_of_two n = elim (next_power_loop 64 n 1) [ some p ↦ p | none ↦ 2 ^ n ]

-- `for (1 << h) < n { h++ }`, so many rounds of it.
unfoldable pub log2_loop : ℕ → ℕ → ℕ → Option ℕ
log2_loop zero n h = none
log2_loop (suc fuel) n h =
    let rest = log2_loop fuel n (h + 1) in if is_below (one_shifted h) n then rest else some h

unfoldable pub log2_ceil : ℕ → ℕ
unfolding log2_loop
log2_ceil n = elim (log2_loop 64 n 0) [ some h ↦ h | none ↦ n ]

-- Reads and writes out of range panic, which is `none`.
unfoldable pub pad_leaf : List Hash → ℕ → ℕ → Option Hash
pad_leaf leaves i n = if leb n i then get_elem? leaves (n - 1) else get_elem? leaves i

abbrev pub store_at : List Hash → ℕ → Hash → Option (List Hash)
store_at store i v = if ltb i (length store) then some (set store i v) else none

-- The pair indices of each goroutine that is started, from worker `w` on.
unfoldable pub worker_jobs : ℕ → ℕ → ℕ → ℕ → List (List ℕ)
worker_jobs zero w chunk num_pairs = []
worker_jobs (suc left) w chunk num_pairs =
    let lo = w * chunk in
    let hi = min (lo + chunk) num_pairs in
    let rest = worker_jobs left (w + 1) chunk num_pairs in
    if leb hi lo then [] else range_from (hi - lo) lo ∷ rest

abbrev pub split_jobs : ℕ → ℕ → List (List ℕ)
split_jobs num_pairs num_workers =
    worker_jobs num_workers 0 ((num_pairs + num_workers - 1) / num_workers) num_pairs

pub data Error : Type 0 where
  index_out_of_range : Error

module _ (sha256 : List ℕ → List ℕ) where
  unfoldable pub hash_pair : Hash → Hash → Hash
  hash_pair l r = sha256 (sha256 (l ++ r))

  -- The body of the first loop for the pair at leaves `2 * j` and `2 * j + 1`.
  unfoldable pub leaf_pair_step : List Hash → ℕ → ℕ → List Hash → Option (List Hash)
  leaf_pair_step leaves n j store = do
    l ← pad_leaf leaves (j * 2) n
    r ← pad_leaf leaves (j * 2 + 1) n
    store_at store j (hash_pair l r)

  -- The body of the inner loop of a level for its pair `j`.
  unfoldable pub level_pair_step : ℕ → ℕ → ℕ → List Hash → Option (List Hash)
  level_pair_step offset size j store = do
    l ← get_elem? store (offset + j * 2)
    r ← get_elem? store (offset + (j * 2 + 1))
    store_at store (offset + size + j) (hash_pair l r)

  module _ (num_cpu : ℕ) (schedule : List (List ℕ) → List ℕ) where
    -- The order in which the pairs of a level are hashed: one loop, or goroutines over chunks.
    unfoldable pub pair_order : ℕ → List ℕ
    pair_order num_pairs =
        if leb parallel_threshold num_pairs && ltb 1 num_cpu
        then schedule (split_jobs num_pairs num_cpu)
        else range_from num_pairs 0

    unfoldable pub hash_leaf_pairs : List Hash → ℕ → ℕ → List Hash → Option (List Hash)
    hash_leaf_pairs leaves n pad store =
        for_each (leaf_pair_step leaves n) (pair_order (pad / 2)) store

    unfoldable pub hash_level : ℕ → ℕ → List Hash → Option (List Hash)
    hash_level offset size store =
        for_each (level_pair_step offset size) (pair_order (size / 2)) store

    -- `for size > 1`, which halves the size each round: `size` rounds are enough.
    unfoldable pub level_loop : ℕ → ℕ → ℕ → List Hash → Option (List Hash)
    level_loop zero offset size store = some store
    level_loop (suc fuel) offset size store =
        let rest : Option (List Hash) =
          hash_level offset size store >>= λ s. level_loop fuel (offset + size) (size / 2) s in
        if ltb 1 size then rest else some store

    unfoldable pub build_merkle_store : List Hash → Option (List Hash)
    build_merkle_store [] = some []
    build_merkle_store (x ∷ []) = some (x ∷ [])
    build_merkle_store (x ∷ y ∷ more) =
        let leaves = x ∷ y ∷ more in
        let n = length leaves in
        let pad = next_power_of_two n in
        hash_leaf_pairs leaves n pad (replicate (pad - 1) zero_hash) >>= λ store.
        level_loop (pad / 2) 0 (pad / 2) store

    -- `ok none` is the nil result.
    unfoldable pub merkle_root : List Hash → Run Error (Option Hash)
    merkle_root [] = ok none
    merkle_root (x ∷ xs) = or_panic (
        build_merkle_store (x ∷ xs) >>= λ store.
        get_elem? store (length store - 1) >>= λ root. some (some root))

-- The siblings on levels `level`, …, `level + rounds - 1`, read from the store.
unfoldable pub proof_levels : List Hash → ℕ → ℕ → ℕ → ℕ → ℕ → Option (List Hash)
proof_levels store index zero level offset size = some []
proof_levels store index (suc rounds) level offset size =
    let sib_pos = bit_xor (index / 2 ^ level) 1 in
    let clamped = if leb size sib_pos then size - 1 else sib_pos in
    let rest = proof_levels store index rounds (level + 1) (offset + size) (size / 2) in
    get_elem? store (offset + clamped) >>= λ h. rest >>= λ hs. some (h ∷ hs)

-- `proof[0] = &h` panics when the proof has no levels.
unfoldable pub proof_from_store : List Hash → List Hash → ℕ → ℕ → ℕ → Option (List Hash)
proof_from_store leaves store index zero n = none
proof_from_store leaves store index (suc levels) n =
    let sib = bit_xor index 1 in
    let sib_idx = if leb n sib then index else sib in
    let size = next_power_of_two n / 2 in
    get_elem? leaves sib_idx >>= λ h.
    proof_levels store index levels 1 0 size >>= λ hs. some (h ∷ hs)

-- A Go int index: `minus k` is -(k + 1).
pub data Index : Type 0 where
  at : ℕ → Index
  minus : ℕ → Index

unfoldable pub get_proof_from_store : List Hash → List Hash → Index → Run Error (List Hash)
get_proof_from_store leaves store (minus k) = err index_out_of_range
get_proof_from_store leaves store (at index) =
    if leb (length leaves) index
    then err index_out_of_range
    else or_panic (proof_from_store leaves store index (log2_ceil (length leaves)) (length leaves))

-- The proofs for the leaves `i`, …, one after the other.
unfoldable pub proofs_from : List Hash → List Hash → ℕ → ℕ → Option (List (List Hash))
proofs_from leaves store zero i = some []
proofs_from leaves store (suc left) i =
    let rest = proofs_from leaves store left (i + 1) in
    proof_from_store leaves store i (log2_ceil (length leaves)) (length leaves) >>= λ p.
    rest >>= λ ps. some (p ∷ ps)

module _ (sha256 : List ℕ → List ℕ) (num_cpu : ℕ) (schedule : List (List ℕ) → List ℕ) where
  abbrev build : List Hash → Option (List Hash)
  build = build_merkle_store sha256 num_cpu schedule

  unfoldable pub get_merkle_proof : List Hash → Index → Run Error (List Hash)
  get_merkle_proof leaves (minus k) = err index_out_of_range
  get_merkle_proof leaves (at index) =
      let n = length leaves in
      if leb n index
      then err index_out_of_range
      else if leb n 1
      then ok []
      else or_panic (build leaves >>= λ store. proof_from_store leaves store index (log2_ceil n) n)

  unfoldable pub get_all_proofs : List Hash → Run Error (List (List Hash))
  get_all_proofs [] = ok []
  get_all_proofs (x ∷ xs) =
      let leaves = x ∷ xs in
      or_panic (build leaves >>= λ store. proofs_from leaves store (length leaves) 0)
