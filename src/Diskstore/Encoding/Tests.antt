-- ===== src/Diskstore/Encoding/Tests.antt =====
-- Runs of the encodings, and the theorems at concrete inputs.
use stumpt.Base.{ℕ, ◌≡◌, ◌≢◌, refl, arith, [], ◌∷◌, ◌++◌, replicate, ok, err, panic}
use stumpt.Base.Bytes.{Hash, little_endian, read_bytes, read_number, from_little_endian}
use stumpt.Stump.{Entry}
use stumpt.Diskstore.Encoding.{
  entry_too_short, need_siblings, bad_entry, marshal_entry, unmarshal_entry, marshal_entries,
  unmarshal_entries, read_path, read_entries,
}
use stumpt.Diskstore.Encoding.EntryCodec.{IsEncodable}
use stumpt.Diskstore.Encoding.EntriesCodec.{
  unmarshal_entries-marshal_entries, unmarshal_entries-ne-panic,
}

abbrev hash : ℕ → Hash
hash b = replicate 32 b

abbrev sample : Entry
sample = record {
  tx_id = hash 7;
  subtree_idx = 3;
  local_idx = 70000;
  global_idx = 4000000;
  sibling_path = hash 1 ∷ hash 2 ∷ [];
}

-- A header that announces two siblings with no bytes behind it.
short_entry :
    unmarshal_entry (hash 7 ++ (replicate 12 0 ++ (2 ∷ 0 ∷ 0 ∷ 0 ∷ [])))
    ≡ err (need_siblings 112 2 48)
unfolding unmarshal_entry read_path read_bytes read_number from_little_endian
short_entry = refl

bad_list :
    unmarshal_entries (1 ∷ 0 ∷ 0 ∷ 0 ∷ 2 ∷ 0 ∷ 0 ∷ 0 ∷ 9 ∷ 9 ∷ [])
    ≡ err (bad_entry 0 entry_too_short)
unfolding unmarshal_entries read_entries unmarshal_entry read_number from_little_endian
bad_list = refl

sample-IsEncodable : IsEncodable sample
sample-IsEncodable = omega arith

unmarshal_entries-marshal_entries_example :
    unmarshal_entries (marshal_entries (sample ∷ sample ∷ []) ++ (9 ∷ []))
    ≡ ok (sample ∷ sample ∷ [])
unfolding marshal_entry little_endian
unmarshal_entries-marshal_entries_example =
    unmarshal_entries-marshal_entries (sample ∷ sample ∷ []) (9 ∷ []) (omega arith) (omega arith)

unmarshal_entries-ne-panic_example : unmarshal_entries (1 ∷ 2 ∷ []) ≢ panic
unmarshal_entries-ne-panic_example = unmarshal_entries-ne-panic (1 ∷ 2 ∷ [])
