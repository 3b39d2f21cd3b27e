-- ===== src/Merkleservice/Runtime.antt =====
-- What the phases of internal/merkleservice take from Go's libraries and from the machine.
pub mod Sample
use stumpt.Base.{ℕ, Bool, List, Option}
use stumpt.Stump.{Token}
use stumpt.Merkleservice.BumpEntry.{Level}

-- `F` is float64.
pub record Runtime (F : Type 0) : Type 0 where
  pub sha256 : List ℕ → List ℕ
  pub num_cpu : ℕ
  -- The interleaving of the goroutines of a merkle level.
  pub schedule : List (List ℕ) → List ℕ
  pub sort_ints : List ℕ → List ℕ
  pub sort_slice : Level → Level
  -- `fmt.Sprintf("token-%d", i)`, and what `fmt.Sscanf` reads from it, 0 from another string.
  pub token_name : ℕ → Token
  pub token_number : Token → ℕ
  -- The arithmetic and the random source of jitterTxids.
  pub is_zero : F → Bool
  pub num_swaps : ℕ → F → ℕ
  pub source : ℕ → ℕ → ℕ → ℕ
