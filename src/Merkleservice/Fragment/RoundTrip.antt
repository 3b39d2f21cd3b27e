-- ===== src/Merkleservice/Fragment/RoundTrip.antt =====
-- A fragment is read back as it was written.
use mathlib.Core.List.{append_assoc}
use Prim.Native.Nat.{bit_and}
use stumpt.Base.{
  ℕ, ◌+◌, ◌*◌, ◌%◌, ◌^◌, ◌<◌, ◌≡◌, refl, ap, arith, Bool, true, false, not, List, [], ◌∷◌, ◌++◌,
  some, ltb, ◌==◌, if◌then◌else◌, length, length-append, All, ok,
}
use stumpt.Base.Bytes.{
  little_endian, length-little_endian, read_number, read_number-append, read_bytes-append,
}
use stumpt.Merkleservice.BumpEntry.{BumpEntry, Level, IsWellSized, AreWellSized}
use stumpt.Merkleservice.Fragment.{
  flag_byte, entry_bytes, level_entries, level_bytes, marshal_fragment, read_entry, read_level,
  read_levels, unmarshal_fragment,
}

one_byte : (b : ℕ) → b < 256 → little_endian 1 b ≡ b ∷ []
unfolding little_endian
one_byte b h = ap (λ (x : ℕ). x ∷ []) (omega arith)

pub read-flag :
    (e : BumpEntry) (rest : List ℕ) → read_number 1 (flag_byte e ∷ rest) ≡ some (flag_byte e, rest)
read-flag e rest =
    let small : flag_byte e < 256 = ground arith in
    rw (one_byte (flag_byte e) small) at (read_number-append 1 (flag_byte e) rest (omega arith))

pub flag-txid : (e : BumpEntry) → not (bit_and (flag_byte e) 2 == 0) ≡ e.txid
flag-txid e = at_flag e.txid
  where
    at_flag : (t : Bool) → not (bit_and (if t then 2 else 0) 2 == 0) ≡ t
    at_flag true = refl
    at_flag false = refl

read-entry_bytes :
    (e : BumpEntry) (rest : List ℕ)
    → IsWellSized e
    → read_entry (entry_bytes e ++ rest) ≡ some (e, rest)
unfolding read_entry
read-entry_bytes e rest v = rw (
  append_assoc (little_endian 8 e.offset) (flag_byte e ∷ e.hash) rest,
  read_number-append 8 e.offset (flag_byte e ∷ (e.hash ++ rest)) v.offset_small,
  read-flag e (e.hash ++ rest),
  read_bytes-append 32 e.hash rest v.hash_size,
  flag-txid e,
)

length-entry_bytes : (e : BumpEntry) → IsWellSized e → length (entry_bytes e) ≡ 41
length-entry_bytes e v = omega (
  arith,
  length-append (little_endian 8 e.offset) (flag_byte e ∷ e.hash),
  length-little_endian 8 e.offset,
  v.hash_size,
)

length-level_entries :
    (lev : Level) → AreWellSized lev → length (level_entries lev) ≡ length lev * 41
length-level_entries [] a = refl
length-level_entries (e ∷ lev) (v, a) = omega (
  arith,
  length-append (entry_bytes e) (level_entries lev),
  length-entry_bytes e v,
  length-level_entries lev a,
)

read-level_entries :
    (lev : Level) (rest : List ℕ)
    → AreWellSized lev
    → read_level (length lev) (level_entries lev ++ rest) ≡ some (lev, rest)
unfolding read_level
read-level_entries [] rest a = refl
read-level_entries (e ∷ lev) rest (v, a) = rw (
  append_assoc (entry_bytes e) (level_entries lev) rest,
  read-entry_bytes e (level_entries lev ++ rest) v,
  read-level_entries lev rest a,
)

-- A level that the format can hold.
abbrev pub FitsInFragment : Level → Type 0
FitsInFragment lev = AreWellSized lev × (length lev < 2 ^ 32)

read-level_bytes :
    (levs : List Level) (k : ℕ) (rest : List ℕ)
    → All FitsInFragment levs
    → read_levels (length levs) k (level_bytes levs ++ rest) ≡ ok levs
unfolding read_levels
read-level_bytes [] k rest a = refl
read-level_bytes (lev ∷ levs) k rest ((v, small), a) =
    let n = little_endian 4 (length lev % 2 ^ 32) in
    let tail = level_bytes levs ++ rest in
    let body = level_entries lev ++ tail in
    let whole : level_bytes (lev ∷ levs) ++ rest ≡ n ++ body = simp append_assoc in
    let low : length lev % 2 ^ 32 ≡ length lev = omega arith in
    let long : ltb (length (n ++ body)) 4 ≡ false =
      ground (arith, length-append n body, length-little_endian 4 (length lev % 2 ^ 32)) in
    let count : read_number 4 (n ++ body) ≡ some (length lev, body) =
      rw low (read_number-append 4 (length lev) body small) in
    let fits : ltb (length body) (length lev * 41) ≡ false =
      ground (arith, length-append (level_entries lev) tail, length-level_entries lev v) in
    rw (
      whole,
      long,
      count,
      fits,
      read-level_entries lev tail v,
      read-level_bytes levs (k + 1) rest a,
    )

-- UnmarshalFragment reads back the levels that MarshalFragment wrote, whatever bytes follow, for
-- fewer than 256 levels of fewer than 2 ^ 32 entries.
pub unmarshal_fragment-marshal_fragment :
    (levels : List Level) (rest : List ℕ)
    → All FitsInFragment levels
    → length levels < 256
    → unmarshal_fragment (marshal_fragment levels ++ rest) ≡ ok levels
unfolding unmarshal_fragment marshal_fragment
unmarshal_fragment-marshal_fragment levels rest a few =
    let low : length levels % 256 ≡ length levels = omega arith in
    rw low (read-level_bytes levels 0 rest a)
