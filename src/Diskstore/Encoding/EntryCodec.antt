-- ===== src/Diskstore/Encoding/EntryCodec.antt =====
-- internal/diskstore/encoding.go: MarshalEntry and UnmarshalEntry.
use mathlib.Core.List.{append_assoc}
use stumpt.Base.{
  ℕ, ◌+◌, ◌*◌, ◌^◌, ◌≤◌, ◌<◌, ◌≡◌, ◌≢◌, refl, ap, arith, List, ◌++◌, ltb, false, length,
  length-append, length-drop, drop, take, All, Run, ok, err, panic, ◌>>=◌, Bool-cases, inl, inr,
}
use stumpt.Base.Bytes.{
  Hash, read_bytes-append, read_bytes_enough, read_number_enough, from_little_endian,
}
use stumpt.Stump.{Entry}
use stumpt.Diskstore.Encoding.{
  put_uint32, Error, concat_hashes, read_path, marshal_entry, unmarshal_entry,
}
use stumpt.Diskstore.Encoding.HashesCodec.{
  Is32, read-put_uint32, length-put_uint32, read-concat_hashes, length-concat_hashes,
  read_hashes_enough,
}

-- The entries that the format can hold: 32-byte hashes, and numbers that fit in 32 bits.
pub record IsEncodable (e : Entry) : Type 0 where
  pub id_size : length e.tx_id ≡ 32
  pub subtree_small : e.subtree_idx < 2 ^ 32
  pub local_small : e.local_idx < 2 ^ 32
  pub global_small : e.global_idx < 2 ^ 32
  pub path_small : length e.sibling_path < 2 ^ 32
  pub path_sizes : All Is32 e.sibling_path

pub length-marshal_entry :
    (e : Entry) → IsEncodable e → length (marshal_entry e) ≡ 48 + 32 * length e.sibling_path
unfolding marshal_entry
length-marshal_entry e v =
    let p = concat_hashes e.sibling_path in
    let n = put_uint32 (length e.sibling_path) in
    let g = put_uint32 e.global_idx in
    let l = put_uint32 e.local_idx in
    let s = put_uint32 e.subtree_idx in
    omega (
      arith,
      length-append e.tx_id (s ++ (l ++ (g ++ (n ++ p)))),
      length-append s (l ++ (g ++ (n ++ p))),
      length-append l (g ++ (n ++ p)),
      length-append g (n ++ p),
      length-append n p,
      length-put_uint32 e.subtree_idx,
      length-put_uint32 e.local_idx,
      length-put_uint32 e.global_idx,
      length-put_uint32 (length e.sibling_path),
      length-concat_hashes e.sibling_path v.path_sizes,
      v.id_size,
    )

regroup :
    (a b c d e f g : List ℕ)
    → (a ++ (b ++ (c ++ (d ++ (e ++ f))))) ++ g ≡ a ++ (b ++ (c ++ (d ++ (e ++ (f ++ g)))))
regroup a b c d e f g = simp append_assoc

read_path-concat_hashes :
    (bytes : List ℕ) (hs : List Hash) (rest : List ℕ)
    → All Is32 hs
    → 48 + length hs * 32 ≤ length bytes
    → read_path bytes (length hs) (concat_hashes hs ++ rest) ≡ ok hs
unfolding read_path
read_path-concat_hashes bytes hs rest a h =
    let long : ltb (length bytes) (48 + length hs * 32) ≡ false = ground arith in
    rw (long, read-concat_hashes hs rest a)

-- UnmarshalEntry reads back an encodable entry (indices and path length below 2 ^ 32, hashes of 32
-- bytes) that MarshalEntry wrote, whatever bytes follow.
pub unmarshal_entry-marshal_entry :
    (e : Entry) (rest : List ℕ) → IsEncodable e → unmarshal_entry (marshal_entry e ++ rest) ≡ ok e
unmarshal_entry-marshal_entry e rest v =
    let p = concat_hashes e.sibling_path ++ rest in
    let n = put_uint32 (length e.sibling_path) ++ p in
    let g = put_uint32 e.global_idx ++ n in
    let l = put_uint32 e.local_idx ++ g in
    let s = put_uint32 e.subtree_idx ++ l in
    let bytes = e.tx_id ++ s in
    let whole : marshal_entry e ++ rest ≡ bytes =
      unfold marshal_entry in
      regroup e.tx_id (put_uint32 e.subtree_idx) (put_uint32 e.local_idx) (put_uint32 e.global_idx)
        (put_uint32 (length e.sibling_path)) (concat_hashes e.sibling_path) rest in
    let size : length bytes ≡ 48 + 32 * length e.sibling_path + length rest =
      omega
        (arith, ap length whole, length-append (marshal_entry e) rest, length-marshal_entry e v) in
    let long : ltb (length bytes) 48 ≡ false = ground (arith, size) in
    let r1 = read_bytes-append 32 e.tx_id s v.id_size in
    let r2 = read-put_uint32 e.subtree_idx l v.subtree_small in
    let r3 = read-put_uint32 e.local_idx g v.local_small in
    let r4 = read-put_uint32 e.global_idx n v.global_small in
    let r5 = read-put_uint32 (length e.sibling_path) p v.path_small in
    let path =
      read_path-concat_hashes bytes e.sibling_path rest v.path_sizes (omega (arith, size)) in
    unfold unmarshal_entry in rw (whole, long, r1, r2, r3, r4, r5, path)

read_path-ne-panic :
    (bytes : List ℕ) (n : ℕ) (rest : List ℕ)
    → length bytes ≤ 48 + length rest
    → read_path bytes n rest ≢ panic
unfolding read_path
read_path-ne-panic bytes n rest e = elim (Bool-cases (ltb (length bytes) (48 + n * 32))) [
  | inl short ↦ rw short (λ p. cc)
  | inr long ↦
      let (hs, ran, size) = read_hashes_enough n rest (ground arith) in rw (long, ran) (λ p. cc)
]

-- UnmarshalEntry answers every byte string with an entry or with an error: it does not panic.
pub unmarshal_entry-ne-panic : (bytes : List ℕ) → unmarshal_entry bytes ≢ panic
unmarshal_entry-ne-panic bytes = elim (Bool-cases (ltb (length bytes) 48)) [
  | inl short ↦ unfold unmarshal_entry in rw short (λ p. cc)
  | inr long ↦
      let many : 48 ≤ length bytes = ground arith in
      let r1 = drop 32 bytes in
      let r2 = drop 4 r1 in
      let r3 = drop 4 r2 in
      let r4 = drop 4 r3 in
      let r5 = drop 4 r4 in
      let l1 = length-drop 32 bytes in
      let l2 = length-drop 4 r1 in
      let l3 = length-drop 4 r2 in
      let l4 = length-drop 4 r3 in
      let l5 = length-drop 4 r4 in
      let rest : read_path bytes (from_little_endian (take 4 r4)) r5 ≢ panic =
        read_path-ne-panic bytes (from_little_endian (take 4 r4)) r5
          (omega (arith, l1, l2, l3, l4, l5)) in
      unfold unmarshal_entry in
      rw
        (
          long,
          read_bytes_enough 32 bytes (omega arith),
          read_number_enough 4 r1 (omega (arith, l1)),
          read_number_enough 4 r2 (omega (arith, l1, l2)),
          read_number_enough 4 r3 (omega (arith, l1, l2, l3)),
          read_number_enough 4 r4 (omega (arith, l1, l2, l3, l4)),
        )
        (after_path (read_path bytes (from_little_endian (take 4 r4)) r5) _ rest)
]
  where
    after_path :
        (r : Run Error (List Hash)) (f : List Hash → Entry)
        → r ≢ panic
        → (r >>= λ hs. ok (f hs)) ≢ panic
    after_path (ok hs) f h = λ p. cc
    after_path (err x) f h = λ p. cc
    after_path panic f h = λ p. h refl
