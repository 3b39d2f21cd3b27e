-- ===== src/Merkleservice/Fragment.antt =====
-- internal/merkleservice/bump.go: MarshalFragment and UnmarshalFragment.
pub mod RoundTrip
pub mod Total
mod Tests
use Prim.Native.Nat.{bit_and}
use stumpt.Base.{
  ℕ, zero, suc, ◌+◌, ◌*◌, ◌%◌, ◌^◌, ◌<◌, ◌≡◌, Bool, true, false, not, Option, none, some, List, [],
  ◌∷◌, ◌++◌, ltb, ◌==◌, if◌then◌else◌, length, Run, ok, err, panic, ◌>>=◌, or_panic,
}
use stumpt.Base.Loop.{◌>>=◌ as and_then}
use stumpt.Base.Bytes.{Hash, little_endian, read_bytes, read_number}
use stumpt.Merkleservice.BumpEntry.{BumpEntry, Level}

pub data Error : Type 0 where
  fragment_too_short : Error
  truncated_header : ℕ → Error
  truncated_entries : ℕ → Error

abbrev pub flag_byte : BumpEntry → ℕ
flag_byte e = if e.txid then 2 else 0

abbrev pub entry_bytes : BumpEntry → List ℕ
entry_bytes e = little_endian 8 e.offset ++ (flag_byte e ∷ e.hash)

abbrev pub level_entries : Level → List ℕ
level_entries [] = []
level_entries (e ∷ es) = entry_bytes e ++ level_entries es

abbrev pub level_bytes : List Level → List ℕ
level_bytes [] = []
level_bytes (lev ∷ levs) =
    little_endian 4 (length lev % 2 ^ 32) ++ (level_entries lev ++ level_bytes levs)

-- `byte(len(levels))` keeps the low eight bits.
unfoldable pub marshal_fragment : List Level → List ℕ
marshal_fragment levels = (length levels % 256) ∷ level_bytes levels

unfoldable pub read_entry : List ℕ → Option (BumpEntry × List ℕ)
read_entry rest = and_then (read_number 8 rest) λ (offset, r1).
    and_then (read_number 1 r1) λ (flags, r2). and_then (read_bytes 32 r2) λ (hash, r3).
      some (record { offset = offset; hash = hash; txid = not (bit_and flags 2 == 0) }, r3)

unfoldable pub read_level : ℕ → List ℕ → Option (Level × List ℕ)
read_level zero rest = some ([], rest)
read_level (suc n) rest =
    and_then (read_entry rest) λ (e, r1). and_then (read_level n r1) λ (es, r2). some (e ∷ es, r2)

-- The levels `k`, …, `k + left - 1` of a fragment.
unfoldable pub read_levels : ℕ → ℕ → List ℕ → Run Error (List Level)
read_levels zero k rest = ok []
read_levels (suc left) k rest =
    let body : Run Error (List Level) = do
      (n, r1) ← or_panic (read_number 4 rest)
      let entries : Run Error (List Level) = do
        (level, r2) ← or_panic (read_level n r1)
        levels ← read_levels left (k + 1) r2
        ok (level ∷ levels)
      if ltb (length r1) (n * 41) then err (truncated_entries k) else entries
    in if ltb (length rest) 4 then err (truncated_header k) else body

unfoldable pub unmarshal_fragment : List ℕ → Run Error (List Level)
unmarshal_fragment [] = err fragment_too_short
unmarshal_fragment (num_levels ∷ rest) = read_levels num_levels 0 rest
