-- ===== src/Merkleservice/Fragment/Tests.antt =====
-- Runs of the fragment format, and the theorems at concrete inputs.
use stumpt.Base.{◌≡◌, ◌≢◌, refl, arith, true, false, List, [], ◌∷◌, ◌++◌, replicate, ok, err, panic}
use stumpt.Base.Bytes.{read_number, from_little_endian}
use stumpt.Merkleservice.BumpEntry.{Level}
use stumpt.Merkleservice.Fragment.{
  truncated_entries, marshal_fragment, unmarshal_fragment, read_levels,
}
use stumpt.Merkleservice.Fragment.RoundTrip.{unmarshal_fragment-marshal_fragment}
use stumpt.Merkleservice.Fragment.Total.{unmarshal_fragment-ne-panic}

abbrev two_levels : List Level
two_levels =
    (record { offset = 6; hash = replicate 32 1; txid = true }
      ∷ record { offset = 7; hash = replicate 32 2; txid = false }
      ∷ [])
    ∷ (record { offset = 2; hash = replicate 32 3; txid = false } ∷ [])
    ∷ []

cut_level : unmarshal_fragment (1 ∷ 1 ∷ 0 ∷ 0 ∷ 0 ∷ 5 ∷ []) ≡ err (truncated_entries 0)
unfolding unmarshal_fragment read_levels read_number from_little_endian
cut_level = refl

unmarshal_fragment-marshal_fragment_example :
    unmarshal_fragment (marshal_fragment two_levels ++ (9 ∷ [])) ≡ ok two_levels
unmarshal_fragment-marshal_fragment_example =
    unmarshal_fragment-marshal_fragment two_levels (9 ∷ []) (omega arith) (omega arith)

unmarshal_fragment-ne-panic_example : unmarshal_fragment (1 ∷ 2 ∷ []) ≢ panic
unmarshal_fragment-ne-panic_example = unmarshal_fragment-ne-panic (1 ∷ 2 ∷ [])
