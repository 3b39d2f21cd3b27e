-- ===== src/Merkleservice/Serialize/Reader.antt =====
-- A reader of the BRC-74 binary format, written from the format and not from the code, and the
-- round trip of serializeBUMP through it.
use mathlib.Core.List.{append_assoc}
use stumpt.Base.{
  ℕ, zero, suc, ◌%◌, ◌^◌, ◌<◌, ◌≡◌, refl, ap, arith, Bool, true, false, Option, none, some, List,
  [], ◌∷◌, ◌++◌, ltb, ◌==◌, if◌then◌else◌, length, All, Bool-cases, inl, inr,
}
use stumpt.Base.Loop.{◌>>=◌}
use stumpt.Base.Bytes.{
  little_endian, read_number, read_bytes, read_number-append, read_bytes-append,
}
use stumpt.Merkleservice.BumpEntry.{BumpEntry, Level, IsWellSized, AreWellSized}
use stumpt.Merkleservice.Serialize.{
  write_var_int, flags, entry_bytes, entries_bytes, levels_bytes, serialize_bump,
}

-- The first byte says how long the number is.
unfoldable pub read_var_int : List ℕ → Option (ℕ × List ℕ)
read_var_int [] = none
read_var_int (b ∷ rest) =
    if b == 0xff
    then read_number 8 rest
    else if b == 0xfe
    then read_number 4 rest
    else if b == 0xfd
    then read_number 2 rest
    else some (b, rest)

-- Flag 2 marks a txid of the token, flag 0 another hash; flag 1, a duplicate, is not written.
read_flags : List ℕ → Option (Bool × List ℕ)
read_flags [] = none
read_flags (b ∷ rest) =
    if b == 2 then some (true, rest) else if b == 0 then some (false, rest) else none

read_entry : List ℕ → Option (BumpEntry × List ℕ)
read_entry rest = do
  (offset, r1) ← read_var_int rest
  (txid, r2) ← read_flags r1
  (hash, r3) ← read_bytes 32 r2
  some (record { offset = offset; hash = hash; txid = txid }, r3)

read_entries : ℕ → List ℕ → Option (Level × List ℕ)
read_entries zero rest = some ([], rest)
read_entries (suc n) rest = do
  (e, r1) ← read_entry rest
  (es, r2) ← read_entries n r1
  some (e ∷ es, r2)

read_levels : ℕ → List ℕ → Option (List Level × List ℕ)
read_levels zero rest = some ([], rest)
read_levels (suc n) rest = do
  (count, r1) ← read_var_int rest
  (level, r2) ← read_entries count r1
  (levels, r3) ← read_levels n r2
  some (level ∷ levels, r3)

-- The block height, the levels, and what follows them.
unfoldable pub read_bump : List ℕ → Option (ℕ × List Level × List ℕ)
unfolding read_levels read_entries read_entry read_flags
read_bump rest = do
  (height, r1) ← read_var_int rest
  (num_levels, r2) ← read_number 1 r1
  (levels, r3) ← read_levels num_levels r2
  some (height, levels, r3)

-- A number below 2 ^ 64 is read back from its VarInt, whatever bytes follow.
pub read_var_int-write_var_int :
    (v : ℕ) (rest : List ℕ) → v < 2 ^ 64 → read_var_int (write_var_int v ++ rest) ≡ some (v, rest)
unfolding read_var_int write_var_int
read_var_int-write_var_int v rest h = elim (Bool-cases (ltb v 0xfd)) [
  | inl one ↦ rw one (ground arith)
  | inr more ↦ elim (Bool-cases (ltb v 0x10000)) [
    | inl two ↦
        let low : v % 2 ^ 16 ≡ v = ground arith in
        rw (more, two, low) (read_number-append 2 v rest (ground arith))
    | inr more' ↦ elim (Bool-cases (ltb v 0x1_0000_0000)) [
      | inl four ↦
          let low : v % 2 ^ 32 ≡ v = ground arith in
          rw (more, more', four, low) (read_number-append 4 v rest (ground arith))
      | inr eight ↦ rw (more, more', eight) (read_number-append 8 v rest h)
    ]
  ]
]

read-flags : (e : BumpEntry) (rest : List ℕ) → read_flags (flags e ∷ rest) ≡ some (e.txid, rest)
unfolding read_flags
read-flags e rest = at_flag e.txid
  where
    at_flag : (t : Bool) → read_flags ((if t then 2 else 0) ∷ rest) ≡ some (t, rest)
    at_flag true = refl
    at_flag false = refl

read-entry_bytes :
    (e : BumpEntry) (rest : List ℕ)
    → IsWellSized e
    → read_entry (entry_bytes e ++ rest) ≡ some (e, rest)
unfolding read_entry
read-entry_bytes e rest v = rw (
  append_assoc (write_var_int e.offset) (flags e ∷ e.hash) rest,
  read_var_int-write_var_int e.offset (flags e ∷ (e.hash ++ rest)) v.offset_small,
  read-flags e (e.hash ++ rest),
  read_bytes-append 32 e.hash rest v.hash_size,
)

read-entries_bytes :
    (level : Level) (rest : List ℕ)
    → AreWellSized level
    → read_entries (length level) (entries_bytes level ++ rest) ≡ some (level, rest)
unfolding read_entries
read-entries_bytes [] rest a = refl
read-entries_bytes (e ∷ level) rest (v, a) = rw (
  append_assoc (entry_bytes e) (entries_bytes level) rest,
  read-entry_bytes e (entries_bytes level ++ rest) v,
  read-entries_bytes level rest a,
)

-- A level that a BUMP can hold.
abbrev pub FitsInBump : Level → Type 0
FitsInBump level = AreWellSized level × (length level < 2 ^ 64)

read-levels_bytes :
    (levels : List Level) (rest : List ℕ)
    → All FitsInBump levels
    → read_levels (length levels) (levels_bytes levels ++ rest) ≡ some (levels, rest)
unfolding read_levels
read-levels_bytes [] rest a = refl
read-levels_bytes (level ∷ levels) rest ((v, small), a) =
    let n = write_var_int (length level) in
    let tail = levels_bytes levels ++ rest in
    let whole : levels_bytes (level ∷ levels) ++ rest ≡ n ++ (entries_bytes level ++ tail) =
      simp append_assoc in
    rw (
      whole,
      read_var_int-write_var_int (length level) (entries_bytes level ++ tail) small,
      read-entries_bytes level tail v,
      read-levels_bytes levels rest a,
    )

one_byte : (b : ℕ) (rest : List ℕ) → b < 256 → read_number 1 (b ∷ rest) ≡ some (b, rest)
one_byte b rest h = rw (byte b h) at (read_number-append 1 b rest (omega arith))
  where
    byte : (b : ℕ) → b < 256 → little_endian 1 b ≡ b ∷ []
    byte b h = unfold little_endian in ap (λ (x : ℕ). x ∷ []) (omega arith)

-- A reader of BRC-74 gets back the block height and the levels that serializeBUMP wrote, whatever
-- bytes follow, for a 32-bit height and fewer than 256 levels.
pub read_bump-serialize_bump :
    (height : ℕ) (levels : List Level) (rest : List ℕ)
    → height < 2 ^ 32
    → length levels < 256
    → All FitsInBump levels
    → read_bump (serialize_bump height levels ++ rest) ≡ some (height, levels, rest)
unfolding read_bump serialize_bump
read_bump-serialize_bump height levels rest small few a =
    let body = levels_bytes levels ++ rest in
    let low : length levels % 256 ≡ length levels = omega arith in
    rw (
      append_assoc (write_var_int height) ((length levels % 256) ∷ levels_bytes levels) rest,
      read_var_int-write_var_int height ((length levels % 256) ∷ body) (omega arith),
      low,
      one_byte (length levels) body few,
      read-levels_bytes levels rest a,
    )
