-- ===== src/Merkleservice/Serialize.antt =====
-- internal/merkleservice/bump.go: writeVarInt and serializeBUMP.
pub mod Reader
mod Tests
use stumpt.Base.{
  ℕ, zero, suc, ◌+◌, ◌*◌, ◌%◌, ◌^◌, ◌<◌, ◌≡◌, Bool, true, false, List, [], ◌∷◌, ◌++◌, ltb,
  if◌then◌else◌, length,
}
use stumpt.Base.Bytes.{little_endian}
use stumpt.Merkleservice.BumpEntry.{BumpEntry, Level}

-- A Bitcoin VarInt: one byte below 0xfd, else a prefix and two, four or eight bytes. `uint16(v)` and
-- `uint32(v)` keep the low bits.
unfoldable pub write_var_int : ℕ → List ℕ
write_var_int v =
    if ltb v 0xfd
    then (v % 256) ∷ []
    else if ltb v 0x10000
    then 0xfd ∷ little_endian 2 (v % 2 ^ 16)
    else if ltb v 0x1_0000_0000
    then 0xfe ∷ little_endian 4 (v % 2 ^ 32)
    else 0xff ∷ little_endian 8 v

abbrev pub flags : BumpEntry → ℕ
flags e = if e.txid then 2 else 0

abbrev pub entry_bytes : BumpEntry → List ℕ
entry_bytes e = write_var_int e.offset ++ (flags e ∷ e.hash)

abbrev pub entries_bytes : Level → List ℕ
entries_bytes [] = []
entries_bytes (e ∷ es) = entry_bytes e ++ entries_bytes es

abbrev pub levels_bytes : List Level → List ℕ
levels_bytes [] = []
levels_bytes (level ∷ levels) =
    write_var_int (length level) ++ (entries_bytes level ++ levels_bytes levels)

-- The contents of the buffer after the writes; the tree height is one byte.
unfoldable pub serialize_bump : ℕ → List Level → List ℕ
serialize_bump block_height levels =
    write_var_int block_height ++ ((length levels % 256) ∷ levels_bytes levels)
