-- ===== src/Diskstore/Encoding/EntriesCodec.antt =====
-- internal/diskstore/encoding.go: MarshalEntries and UnmarshalEntries.
use mathlib.Core.List.{append-nil, append_assoc}
use stumpt.Base.{
  ℕ, zero, suc, ◌+◌, ◌^◌, ◌<◌, ◌≡◌, ◌≢◌, refl, arith, List, [], ◌∷◌, ◌++◌, ltb, false,
  if◌then◌else◌, length, length-append, drop, take, take-append, drop-append, All, Run, ok, err,
  panic, ◌>>=◌, Bool-cases, inl, inr,
}
use stumpt.Base.Bytes.{read_number_enough, from_little_endian}
use stumpt.Stump.{Entry}
use stumpt.Diskstore.Encoding.{
  put_uint32, Error, truncated_entry, at_entry, marshal_entry, unmarshal_entry, concat_entries,
  read_entries, marshal_entries, unmarshal_entries,
}
use stumpt.Diskstore.Encoding.HashesCodec.{read-put_uint32, length-put_uint32}
use stumpt.Diskstore.Encoding.EntryCodec.{
  IsEncodable, unmarshal_entry-marshal_entry, unmarshal_entry-ne-panic,
}

-- The entry's own length goes into 32 bits too.
abbrev pub FitsInList : Entry → Type 0
FitsInList e = IsEncodable e × (length (marshal_entry e) < 2 ^ 32)

read_entries-concat_entries :
    (es : List Entry) (i : ℕ) (rest : List ℕ)
    → All FitsInList es
    → read_entries (length es) i (concat_entries es ++ rest) ≡ ok es
unfolding read_entries
read_entries-concat_entries [] i rest a = refl
read_entries-concat_entries (e ∷ es) i rest ((v, small), a) =
    let m = marshal_entry e in
    let n = put_uint32 (length m) in
    let tail = concat_entries es ++ rest in
    let whole : concat_entries (e ∷ es) ++ rest ≡ n ++ (m ++ tail) = simp append_assoc in
    let long : ltb (length (n ++ (m ++ tail))) 4 ≡ false =
      ground (arith, length-append n (m ++ tail), length-put_uint32 (length m)) in
    let fits : ltb (length (m ++ tail)) (length m) ≡ false = ground (arith, length-append m tail) in
    let one : unmarshal_entry m ≡ ok e = rw append-nil at (unmarshal_entry-marshal_entry e [] v) in
    rw (
      whole,
      long,
      read-put_uint32 (length m) (m ++ tail) small,
      fits,
      take-append m tail refl,
      drop-append m tail refl,
      one,
      read_entries-concat_entries es (i + 1) rest a,
    )

-- UnmarshalEntries reads back the entries that MarshalEntries wrote, whatever bytes follow, when they
-- are fewer than 2 ^ 32 and each has hashes of 32 bytes, its three indices and the length of its path
-- below 2 ^ 32, and an encoding of fewer than 2 ^ 32 bytes.
pub unmarshal_entries-marshal_entries :
    (es : List Entry) (rest : List ℕ)
    → All FitsInList es
    → length es < 2 ^ 32
    → unmarshal_entries (marshal_entries es ++ rest) ≡ ok es
unfolding unmarshal_entries marshal_entries
unmarshal_entries-marshal_entries es rest a small =
    let n = put_uint32 (length es) in
    let tail = concat_entries es ++ rest in
    let long : ltb (length (n ++ tail)) 4 ≡ false =
      ground (arith, length-append n tail, length-put_uint32 (length es)) in
    rw (
      append_assoc n (concat_entries es) rest,
      long,
      read-put_uint32 (length es) tail small,
      read_entries-concat_entries es 0 rest a,
    )

read_entries-ne-panic : (left i : ℕ) (rest : List ℕ) → read_entries left i rest ≢ panic
unfolding read_entries
read_entries-ne-panic zero i rest = λ p. cc
read_entries-ne-panic (suc left) i rest = elim (Bool-cases (ltb (length rest) 4)) [
  | inl short ↦ rw short (λ p. cc)
  | inr long ↦
      let n = from_little_endian (take 4 rest) in
      let r1 = drop 4 rest in
      rw (long, read_number_enough 4 rest (ground arith))
        (after_length n r1 (unmarshal_entry (take n r1)) (read_entries left (i + 1) (drop n r1))
          (unmarshal_entry-ne-panic (take n r1)) (read_entries-ne-panic left (i + 1) (drop n r1)))
]
  where
    after_length :
        (n : ℕ) (r1 : List ℕ) (r : Run Error Entry) (more : Run Error (List Entry))
        → r ≢ panic
        → more ≢ panic
        → (if ltb (length r1) n
            then err (truncated_entry i)
            else (at_entry i r >>= λ e. more >>= λ es. ok (e ∷ es)))
          ≢ panic
    after_length n r1 (ok e) (ok es) h k = ground arith
    after_length n r1 (ok e) (err x) h k = ground arith
    after_length n r1 (ok e) panic h k = absurd (k refl)
    after_length n r1 (err x) more h k = ground arith
    after_length n r1 panic more h k = absurd (h refl)

-- UnmarshalEntries answers every byte string with entries or with an error: it does not panic.
pub unmarshal_entries-ne-panic : (bytes : List ℕ) → unmarshal_entries bytes ≢ panic
unfolding unmarshal_entries
unmarshal_entries-ne-panic bytes = elim (Bool-cases (ltb (length bytes) 4)) [
  | inl short ↦ rw short (λ p. cc)
  | inr long ↦
      rw (long, read_number_enough 4 bytes (ground arith))
        (read_entries-ne-panic (from_little_endian (take 4 bytes)) 0 (drop 4 bytes))
]
