-- ===== src/Config/Tests.antt =====
-- Concrete plans.
use stumpt.Base.{ℕ, ◌≡◌, ◌≤◌, ◌*◌, ◌+◌, ◌↔◌, arith, ok}
use stumpt.Config.{
  with_memory_budget, check_memory, num_subtrees, overhead_bytes, check_memory-with_memory_budget,
}

check_memory-with_memory_budget_example :
    ((n : ℕ) × (num_subtrees (with_memory_budget 0 17_179_869_184) ≡ ok n)
      × (2 ≤ n)
      × ((with_memory_budget 0 17_179_869_184).hashes_per_block ≡ n * 1_048_576))
    × ((check_memory 0 (with_memory_budget 0 17_179_869_184) ≡ ok tt)
        ↔ (overhead_bytes + 2 * 1_048_576 * 80 ≤ 17_179_869_184))
check_memory-with_memory_budget_example =
    check_memory-with_memory_budget 0 17_179_869_184 (omega arith) (omega arith)
