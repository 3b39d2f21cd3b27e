-- ===== src/Merkleservice/Runtime/Sample.antt =====
-- A runtime at which the phases can be run: a stand-in for SHA-256, goroutines one after the other, no
-- jitter, and one-byte token names.
use stumpt.Base.{ℕ, ◌%◌, ◌*◌, ◌+◌, [], ◌∷◌, ◌==◌, replicate, get_or}
use mathlib.Core.List.{foldl}
use stumpt.Subtree.Schedule.{one_by_one}
use stumpt.Merkleservice.Runtime.{Runtime}

abbrev pub sample : Runtime ℕ
sample = record {
  sha256 = λ bytes. replicate 32 (foldl (λ acc b. (acc * 31 + b) % 256) 7 bytes);
  num_cpu = 8;
  schedule = one_by_one;
  sort_ints = λ xs. xs;
  sort_slice = λ level. level;
  token_name = λ i. i ∷ [];
  token_number = λ name. get_or name 0 0;
  is_zero = λ f. f == 0;
  num_swaps = λ n f. f;
  source = λ seed i n. seed % n;
}
