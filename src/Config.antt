-- ===== src/Config.antt =====
-- internal/config/config.go: the sizes of a run, the plan for a memory budget, and the check of it.
-- An int or int64 is its bit pattern below 2 ^ 64. The bytes that 0.55 of the machine's memory
-- makes, a float computation, are the parameter `auto`. The fields that only the harness reads
-- (durations, jitter fractions, file names) are left out.
mod Tests
use stumpt.Base.{
  ℕ, zero, suc, ◌+◌, ◌-◌, ◌*◌, ◌/◌, ◌%◌, ◌^◌, ◌≤◌, ◌<◌, ◌≡◌, ◌↔◌, refl, arith, Bool, true, false,
  if◌then◌else◌, ltb, ◌==◌, Run, ok, err, panic, ◌>>=◌,
}
use stumpt.Subtree.{log2_ceil}

abbrev pub bytes_per_txid_base : ℕ
bytes_per_txid_base = 50

abbrev pub bytes_per_txid_per_miner : ℕ
bytes_per_txid_per_miner = 10

-- `3 << 30`
abbrev pub overhead_bytes : ℕ
overhead_bytes = 3_221_225_472

-- `2 << 30`
abbrev pub least_budget : ℕ
least_budget = 2_147_483_648

pub record Config : Type 0 where
  pub hashes_per_block : ℕ
  pub hashes_per_subtree : ℕ
  pub num_miners : ℕ
  pub num_businesses : ℕ
  pub block_height : ℕ
  pub max_memory_bytes : ℕ

abbrev pub wrap : ℕ → ℕ
wrap n = n % 18_446_744_073_709_551_616

-- `a < b` on the two's complement numbers of the bit patterns.
abbrev pub signed_ltb : ℕ → ℕ → Bool
signed_ltb a b = ltb (wrap (a + 9_223_372_036_854_775_808)) (wrap (b + 9_223_372_036_854_775_808))

unfoldable pub bytes_per_txid : Config → ℕ
bytes_per_txid c = wrap (bytes_per_txid_base + c.num_miners * bytes_per_txid_per_miner)

-- How many subtrees of `hashes_per_subtree` leaves a budget pays for, rounded; a budget is a
-- non-negative int64 here, so the subtraction is exact where its result is used.
unfoldable pub plan_subtrees : ℕ → ℕ → ℕ → ℕ
plan_subtrees max_mem bpt hashes_per_subtree =
    let available =
      if ltb max_mem overhead_bytes then hashes_per_subtree * bpt else max_mem - overhead_bytes in
    let num = available / bpt / hashes_per_subtree in
    let at_least = if ltb num 2 then 2 else num in
    if ltb 128 at_least
    then at_least / 16 * 16
    else if ltb 16 at_least
    then at_least / 4 * 4
    else at_least

abbrev pub raise_budget : ℕ → ℕ
raise_budget max_mem = if ltb max_mem least_budget then least_budget else max_mem

unfoldable pub default : ℕ → Config
default auto =
    let max_mem = raise_budget auto in
    let num_subtrees =
      plan_subtrees max_mem (bytes_per_txid_base + 3 * bytes_per_txid_per_miner) 1_048_576 in
    record {
      hashes_per_block = num_subtrees * 1_048_576;
      hashes_per_subtree = 1_048_576;
      num_miners = 3;
      num_businesses = 1000;
      block_height = 800_000;
      max_memory_bytes = max_mem;
    }

-- The budget recorded is the one given, not the one raised.
unfoldable pub with_memory_budget : ℕ → ℕ → Config
with_memory_budget auto max_mem =
    let cfg = default auto in
    let num_subtrees =
      plan_subtrees (raise_budget max_mem) (bytes_per_txid cfg) cfg.hashes_per_subtree in
    record cfg {
      hashes_per_block = num_subtrees * cfg.hashes_per_subtree;
      max_memory_bytes = max_mem;
    }

pub data Error : Type 0 where
  over_budget : ℕ → ℕ → Error

-- A division by zero panics; the quotient is of non-negative numbers.
unfoldable pub num_subtrees : Config → Run Error ℕ
num_subtrees c =
    if c.hashes_per_subtree == 0 then panic else ok (c.hashes_per_block / c.hashes_per_subtree)

unfoldable pub subtree_height : Config → ℕ
subtree_height c = log2_ceil c.hashes_per_subtree

unfoldable pub top_tree_height : Config → Run Error ℕ
top_tree_height c = num_subtrees c >>= λ n. ok (log2_ceil n)

unfoldable pub block_merkle_height : Config → Run Error ℕ
block_merkle_height c = top_tree_height c >>= λ top. ok (subtree_height c + top)

unfoldable pub estimated_memory_bytes : Config → ℕ
estimated_memory_bytes c = wrap (c.hashes_per_block * bytes_per_txid c + overhead_bytes)

unfoldable pub check_memory : ℕ → Config → Run Error Unit
check_memory auto c =
    let est = estimated_memory_bytes c in
    let limit = if signed_ltb 0 c.max_memory_bytes then c.max_memory_bytes else auto in
    if signed_ltb limit est then err (over_budget est limit) else ok tt

plan-bounds :
    (m : ℕ)
    → m < 9_223_372_036_854_775_808
    → (2 ≤ plan_subtrees (raise_budget m) 80 1_048_576)
      × (overhead_bytes + 2 * 1_048_576 * 80 ≤ m
          → plan_subtrees (raise_budget m) 80 1_048_576 * 83_886_080 + overhead_bytes ≤ m)
      × (plan_subtrees (raise_budget m) 80 1_048_576 * 83_886_080 + overhead_bytes
          < 9_223_372_036_854_775_808)
unfolding plan_subtrees
plan-bounds m small = (ground arith, ground arith, ground arith)

plan-checks :
    (auto m : ℕ)
    → 0 < m
    → m < 9_223_372_036_854_775_808
    → check_memory auto (with_memory_budget auto m) ≡ (
        let est = plan_subtrees (raise_budget m) 80 1_048_576 * 83_886_080 + overhead_bytes in
        if ltb m est then err (over_budget est m) else ok tt)
unfolding check_memory estimated_memory_bytes with_memory_budget default bytes_per_txid
plan-checks auto m positive small = ground (arith, plan-bounds m small)

-- For a budget that is a positive int64: the planned block is a whole number of subtrees, at least
-- two; and CheckMemory accepts the plan exactly when the budget pays for the overhead and two
-- subtrees. The plan for a smaller budget does not fit it.
pub check_memory-with_memory_budget :
    (auto max_mem : ℕ)
    → 0 < max_mem
    → max_mem < 9_223_372_036_854_775_808
    → ((n : ℕ) × (num_subtrees (with_memory_budget auto max_mem) ≡ ok n)
        × (2 ≤ n)
        × ((with_memory_budget auto max_mem).hashes_per_block ≡ n * 1_048_576))
      × ((check_memory auto (with_memory_budget auto max_mem) ≡ ok tt)
          ↔ (overhead_bytes + 2 * 1_048_576 * 80 ≤ max_mem))
unfolding num_subtrees with_memory_budget default bytes_per_txid
check_memory-with_memory_budget auto max_mem positive small =
    let bounds = plan-bounds max_mem small in
    (
      (plan_subtrees (raise_budget max_mem) 80 1_048_576, ground arith, bounds.0, refl),
      ground (arith, plan-checks auto max_mem positive small, bounds),
    )
