-- ===== src/Merkleservice/BumpEntry.antt =====
-- internal/merkleservice/bump.go: bumpEntry, one node of a BUMP. The pointer to a hash is the hash.
use stumpt.Base.{ℕ, ◌<◌, ◌^◌, ◌≡◌, Bool, List, length, All}
use stumpt.Base.Bytes.{Hash}

pub record BumpEntry : Type 0 where
  pub offset : ℕ
  pub hash : Hash
  pub txid : Bool

abbrev pub Level : Type 0
Level = List BumpEntry

-- The offset is a uint64, and the hash has 32 bytes.
pub record IsWellSized (e : BumpEntry) : Type 0 where
  pub offset_small : e.offset < 2 ^ 64
  pub hash_size : length e.hash ≡ 32

abbrev pub AreWellSized : Level → Type 0
AreWellSized level = All IsWellSized level
