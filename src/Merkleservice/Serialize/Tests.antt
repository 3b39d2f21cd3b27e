-- ===== src/Merkleservice/Serialize/Tests.antt =====
-- Runs of the BUMP format, and the theorems at concrete inputs.
use stumpt.Base.{◌≡◌, refl, arith, true, false, List, [], ◌∷◌, ◌++◌, some, replicate}
use stumpt.Base.Bytes.{little_endian}
use stumpt.Merkleservice.BumpEntry.{Level}
use stumpt.Merkleservice.Serialize.{write_var_int, serialize_bump}
use stumpt.Merkleservice.Serialize.Reader.{read_bump, read_bump-serialize_bump}

var_ints :
    (write_var_int 252 ≡ 252 ∷ [])
    × (write_var_int 253 ≡ 253 ∷ 253 ∷ 0 ∷ [])
    × (write_var_int 800000 ≡ 0xfe ∷ 0 ∷ 0x35 ∷ 0x0c ∷ 0 ∷ [])
unfolding write_var_int little_endian
var_ints = (refl, refl, refl)

abbrev two_levels : List Level
two_levels =
    (record { offset = 600; hash = replicate 32 1; txid = true }
      ∷ record { offset = 601; hash = replicate 32 2; txid = false }
      ∷ [])
    ∷ (record { offset = 301; hash = replicate 32 3; txid = false } ∷ [])
    ∷ []

read_bump-serialize_bump_example :
    read_bump (serialize_bump 800000 two_levels ++ (5 ∷ [])) ≡ some (800000, two_levels, 5 ∷ [])
read_bump-serialize_bump_example =
    read_bump-serialize_bump 800000 two_levels (5 ∷ []) (omega arith) (omega arith) (omega arith)
