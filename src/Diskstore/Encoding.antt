-- ===== src/Diskstore/Encoding.antt =====
-- internal/diskstore/encoding.go: entries and hashes as bytes. `buf[off:]` is the list of the bytes
-- that are left, a number of type int is a natural number, and PutUint32 keeps its 32 low bits.
pub mod EntryCodec
pub mod EntriesCodec
pub mod HashesCodec
mod Tests
use stumpt.Base.{
  ℕ, zero, suc, ◌+◌, ◌-◌, ◌*◌, ◌%◌, ◌^◌, ◌<◌, ◌≡◌, Option, none, some, List, [], ◌∷◌, ◌++◌, ltb,
  if◌then◌else◌, length, take, drop, All, Run, ok, err, panic, ◌>>=◌, or_panic,
}
use stumpt.Base.Bytes.{Hash, little_endian, read_bytes, read_number}
use stumpt.Base.Loop.{◌>>=◌ as and_then}
use stumpt.Stump.{Entry}

abbrev pub hash_size : ℕ
hash_size = 32

abbrev pub put_uint32 : ℕ → List ℕ
put_uint32 v = little_endian 4 (v % 2 ^ 32)

-- The error strings, with the values that they print.
pub data Error : Type 0 where
  entry_too_short entries_too_short hashes_too_short : Error
  need_siblings : ℕ → ℕ → ℕ → Error
  need_hashes : ℕ → ℕ → ℕ → Error
  truncated_length : ℕ → Error
  truncated_entry : ℕ → Error
  bad_entry : ℕ → Error → Error

abbrev pub concat_hashes : List Hash → List ℕ
concat_hashes [] = []
concat_hashes (h ∷ hs) = h ++ concat_hashes hs

unfoldable pub marshal_entry : Entry → List ℕ
marshal_entry e =
    e.tx_id
    ++ (put_uint32 e.subtree_idx
        ++ (put_uint32 e.local_idx
            ++ (put_uint32 e.global_idx
                ++ (put_uint32 (length e.sibling_path) ++ concat_hashes e.sibling_path))))

-- `n` hashes off the front; a slice past the end panics.
unfoldable pub read_hashes : ℕ → List ℕ → Option (List Hash)
read_hashes zero rest = some []
read_hashes (suc n) rest =
    and_then (read_bytes hash_size rest)
      (λ (h, rest'). and_then (read_hashes n rest') (λ hs. some (h ∷ hs)))

-- The part of UnmarshalEntry from the number of siblings on.
unfoldable pub read_path : List ℕ → ℕ → List ℕ → Run Error (List Hash)
read_path bytes num_siblings rest =
    let need = 48 + num_siblings * hash_size in
    if ltb (length bytes) need
    then err (need_siblings need num_siblings (length bytes))
    else or_panic (read_hashes num_siblings rest)

unfoldable pub unmarshal_entry : List ℕ → Run Error Entry
unmarshal_entry bytes =
    let fields : Run Error Entry = do
      (tx_id, r1) ← or_panic (read_bytes hash_size bytes)
      (subtree_idx, r2) ← or_panic (read_number 4 r1)
      (local_idx, r3) ← or_panic (read_number 4 r2)
      (global_idx, r4) ← or_panic (read_number 4 r3)
      (num_siblings, r5) ← or_panic (read_number 4 r4)
      sibling_path ← read_path bytes num_siblings r5
      ok (record {
        tx_id = tx_id;
        subtree_idx = subtree_idx;
        local_idx = local_idx;
        global_idx = global_idx;
        sibling_path = sibling_path;
      })
    in if ltb (length bytes) (hash_size + 4 + 4 + 4 + 4) then err entry_too_short else fields

abbrev pub concat_entries : List Entry → List ℕ
concat_entries [] = []
concat_entries (e ∷ es) =
    put_uint32 (length (marshal_entry e)) ++ (marshal_entry e ++ concat_entries es)

unfoldable pub marshal_entries : List Entry → List ℕ
marshal_entries es = put_uint32 (length es) ++ concat_entries es

-- The error of an entry, wrapped with its index.
abbrev pub at_entry : ℕ → Run Error Entry → Run Error Entry
at_entry i (ok e) = ok e
at_entry i (err x) = err (bad_entry i x)
at_entry i panic = panic

-- The loop for the entries `i`, …, `i + left - 1`, with the bytes from `off` on.
unfoldable pub read_entries : ℕ → ℕ → List ℕ → Run Error (List Entry)
read_entries zero i rest = ok []
read_entries (suc left) i rest =
    let body : Run Error (List Entry) = do
      (e_len, r1) ← or_panic (read_number 4 rest)
      let more : Run Error (List Entry) = do
        e ← at_entry i (unmarshal_entry (take e_len r1))
        es ← read_entries left (i + 1) (drop e_len r1)
        ok (e ∷ es)
      if ltb (length r1) e_len then err (truncated_entry i) else more
    in if ltb (length rest) 4 then err (truncated_length i) else body

unfoldable pub unmarshal_entries : List ℕ → Run Error (List Entry)
unmarshal_entries bytes =
    let body : Run Error (List Entry) = do
      (count, rest) ← or_panic (read_number 4 bytes)
      read_entries count 0 rest
    in if ltb (length bytes) 4 then err entries_too_short else body

unfoldable pub marshal_hashes : List Hash → List ℕ
marshal_hashes hashes = put_uint32 (length hashes) ++ concat_hashes hashes

unfoldable pub unmarshal_hashes : List ℕ → Run Error (List Hash)
unmarshal_hashes bytes =
    let body : Run Error (List Hash) = do
      (count, rest) ← or_panic (read_number 4 bytes)
      let need = 4 + count * hash_size
      if ltb (length bytes) need
          then err (need_hashes need count (length bytes))
          else or_panic (read_hashes count rest)
    in if ltb (length bytes) 4 then err hashes_too_short else body
