-- ===== src/Diskstore/Encoding/HashesCodec.antt =====
-- internal/diskstore/encoding.go: MarshalHashes and UnmarshalHashes.
use mathlib.Core.List.{append_assoc}
use stumpt.Base.{
  ℕ, zero, suc, ◌+◌, ◌*◌, ◌%◌, ◌^◌, ◌≤◌, ◌<◌, ◌≡◌, ◌≢◌, refl, ap, arith, some, List, [], ◌∷◌, ◌++◌,
  ltb, false, if◌then◌else◌, length, length-append, length-drop, drop, take, All, ok, err, panic,
  or_panic, Bool-cases, inl, inr,
}
use stumpt.Base.Loop.{◌>>=◌ as and_then}
use stumpt.Base.Bytes.{
  Hash, length-little_endian, read_number, read_bytes-append, read_number-append, read_bytes_enough,
  read_number_enough,
}
use stumpt.Diskstore.Encoding.{
  put_uint32, hash_size, need_hashes, concat_hashes, read_hashes, marshal_hashes, unmarshal_hashes,
}

abbrev pub Is32 : Hash → Type 0
Is32 h = length h ≡ 32

pub read-put_uint32 :
    (v : ℕ) (rest : List ℕ) → v < 2 ^ 32 → read_number 4 (put_uint32 v ++ rest) ≡ some (v, rest)
read-put_uint32 v rest h =
    let low : v % 2 ^ 32 ≡ v = omega arith in rw low (read_number-append 4 v rest (omega arith))

pub length-put_uint32 : (v : ℕ) → length (put_uint32 v) ≡ 4
length-put_uint32 v = length-little_endian 4 (v % 2 ^ 32)

pub read-concat_hashes :
    (hs : List Hash) (rest : List ℕ)
    → All Is32 hs
    → read_hashes (length hs) (concat_hashes hs ++ rest) ≡ some hs
unfolding read_hashes
read-concat_hashes [] rest a = refl
read-concat_hashes (h ∷ hs) rest (size, a) = rw (
  append_assoc h (concat_hashes hs) rest,
  read_bytes-append 32 h (concat_hashes hs ++ rest) size,
  read-concat_hashes hs rest a,
)

pub length-concat_hashes :
    (hs : List Hash) → All Is32 hs → length (concat_hashes hs) ≡ 32 * length hs
length-concat_hashes [] a = refl
length-concat_hashes (h ∷ hs) (size, a) =
    omega (arith, length-append h (concat_hashes hs), length-concat_hashes hs a)

-- Enough bytes, and the reads do not panic.
pub read_hashes_enough :
    (n : ℕ) (rest : List ℕ)
    → n * 32 ≤ length rest
    → (hs : List Hash) × (read_hashes n rest ≡ some hs) × (length hs ≡ n)
unfolding read_hashes
read_hashes_enough zero rest h = ([], refl, refl)
read_hashes_enough (suc n) rest h =
    let (hs, ran, size) =
      read_hashes_enough n (drop 32 rest) (omega (arith, length-drop 32 rest)) in
    (
      take 32 rest ∷ hs,
      rw (read_bytes_enough 32 rest (omega arith))
          (ap (λ r. and_then r (λ hs. some (take 32 rest ∷ hs))) ran),
      ap suc size,
    )

-- UnmarshalHashes reads back fewer than 2 ^ 32 hashes of 32 bytes that MarshalHashes wrote, whatever
-- bytes follow.
pub unmarshal_hashes-marshal_hashes :
    (hs : List Hash) (rest : List ℕ)
    → All Is32 hs
    → length hs < 2 ^ 32
    → unmarshal_hashes (marshal_hashes hs ++ rest) ≡ ok hs
unfolding unmarshal_hashes marshal_hashes
unmarshal_hashes-marshal_hashes hs rest a small =
    let body = concat_hashes hs ++ rest in
    let whole : length (put_uint32 (length hs) ++ body) ≡ 4 + (32 * length hs + length rest) =
      omega (
        arith,
        length-append (put_uint32 (length hs)) body,
        length-append (concat_hashes hs) rest,
        length-put_uint32 (length hs),
        length-concat_hashes hs a,
      ) in
    let e1 : ltb (length (put_uint32 (length hs) ++ body)) 4 ≡ false = ground (arith, whole) in
    let e2 : ltb (length (put_uint32 (length hs) ++ body)) (4 + length hs * 32) ≡ false =
      ground (arith, whole) in
    rw (
      append_assoc (put_uint32 (length hs)) (concat_hashes hs) rest,
      e1,
      read-put_uint32 (length hs) body small,
      e2,
      read-concat_hashes hs rest a,
    )

hashes_body-ne-panic :
    (bytes : List ℕ) (count : ℕ) (rest : List ℕ)
    → length bytes ≡ 4 + length rest
    → (if ltb (length bytes) (4 + count * hash_size)
        then err (need_hashes (4 + count * hash_size) count (length bytes))
        else or_panic (read_hashes count rest))
      ≢ panic
hashes_body-ne-panic bytes count rest e = elim (Bool-cases (ltb (length bytes) (4 + count * 32))) [
  | inl short ↦ rw short (λ p. cc)
  | inr long ↦
      let (hs, ran, size) = read_hashes_enough count rest (ground arith) in rw (long, ran) (λ p. cc)
]

-- UnmarshalHashes answers every byte string with hashes or with an error: it does not panic.
pub unmarshal_hashes-ne-panic : (bytes : List ℕ) → unmarshal_hashes bytes ≢ panic
unfolding unmarshal_hashes
unmarshal_hashes-ne-panic bytes = elim (Bool-cases (ltb (length bytes) 4)) [
  | inl short ↦ rw short (λ p. cc)
  | inr long ↦
      rw (long, read_number_enough 4 bytes (ground arith))
        (hashes_body-ne-panic bytes _ (drop 4 bytes) (ground (arith, length-drop 4 bytes)))
]
