-- ===== src/Merkleservice/Fragment/Total.antt =====
-- UnmarshalFragment on any bytes.
use stumpt.Base.{
  ℕ, zero, suc, ◌+◌, ◌*◌, ◌≤◌, ◌≡◌, ◌≢◌, refl, arith, not, List, [], ◌∷◌, some, ltb, ◌==◌,
  if◌then◌else◌, length, length-drop, take, drop, Run, ok, err, panic, ◌>>=◌, or_panic, Bool-cases,
  inl, inr,
}
use Prim.Native.Nat.{bit_and}
use stumpt.Base.Bytes.{read_number_enough, read_bytes_enough, from_little_endian}
use stumpt.Merkleservice.BumpEntry.{BumpEntry, Level}
use stumpt.Merkleservice.Fragment.{
  Error, truncated_entries, read_entry, read_level, read_levels, unmarshal_fragment,
}

read_entry_enough :
    (rest : List ℕ)
    → 41 ≤ length rest
    → (e : BumpEntry) × (r : List ℕ) × (read_entry rest ≡ some (e, r))
      × (length rest ≡ 41 + length r)
unfolding read_entry
read_entry_enough rest h =
    let r1 = drop 8 rest in
    let r2 = drop 1 r1 in
    let r3 = drop 32 r2 in
    let l1 = length-drop 8 rest in
    let l2 = length-drop 1 r1 in
    let l3 = length-drop 32 r2 in
    (
      record {
        offset = from_little_endian (take 8 rest);
        hash = take 32 r2;
        txid = not (bit_and (from_little_endian (take 1 r1)) 2 == 0);
      },
      r3,
      rw (
        read_number_enough 8 rest (omega arith),
        read_number_enough 1 r1 (omega (arith, l1)),
        read_bytes_enough 32 r2 (omega (arith, l1, l2)),
      ),
      omega (arith, l1, l2, l3),
    )

one_more :
    (n : ℕ) (rest r1 r2 : List ℕ) (e : BumpEntry) (es : Level)
    → read_entry rest ≡ some (e, r1)
    → read_level n r1 ≡ some (es, r2)
    → read_level (suc n) rest ≡ some (e ∷ es, r2)
unfolding read_level
one_more n rest r1 r2 e es p q = rw (p, q)

-- The guard of a level leaves enough bytes for its entries.
read_level_enough :
    (n : ℕ) (rest : List ℕ)
    → n * 41 ≤ length rest
    → (level : Level) × (r : List ℕ) × (read_level n rest ≡ some (level, r))
read_level_enough zero rest h = ([], rest, unfold read_level in refl)
read_level_enough (suc n) rest h =
    let (e, r1, p, size) = read_entry_enough rest (omega arith) in
    let (es, r2, q) = read_level_enough n r1 (omega arith) in
    (e ∷ es, r2, one_more n rest r1 r2 e es p q)

read_levels-ne-panic : (left k : ℕ) (rest : List ℕ) → read_levels left k rest ≢ panic
unfolding read_levels
read_levels-ne-panic zero k rest = λ p. cc
read_levels-ne-panic (suc left) k rest = elim (Bool-cases (ltb (length rest) 4)) [
  | inl short ↦ rw short (λ p. cc)
  | inr long ↦
      let n = from_little_endian (take 4 rest) in
      rw (long, read_number_enough 4 rest (ground arith))
        (after_count n (drop 4 rest) (λ r. read_levels-ne-panic left (k + 1) r))
]
  where
    after_levels :
        (level : Level) (more : Run Error (List Level))
        → more ≢ panic
        → (more >>= λ levels. ok (level ∷ levels)) ≢ panic
    after_levels level (ok levels) h = λ p. cc
    after_levels level (err x) h = λ p. cc
    after_levels level panic h = λ p. h refl

    after_count :
        (n : ℕ) (r1 : List ℕ)
        → ((r : List ℕ) → read_levels left (k + 1) r ≢ panic)
        → (if ltb (length r1) (n * 41)
            then err (truncated_entries k)
            else (or_panic (read_level n r1) >>= λ (level, r2).
                read_levels left (k + 1) r2 >>= λ levels. ok (level ∷ levels)))
          ≢ panic
    after_count n r1 h = elim (Bool-cases (ltb (length r1) (n * 41))) [
      | inl short ↦ rw short (λ p. cc)
      | inr long ↦
          let (level, r2, ran) = read_level_enough n r1 (ground arith) in
          rw (long, ran) (after_levels level (read_levels left (k + 1) r2) (h r2))
    ]

-- UnmarshalFragment answers every byte string with levels or with an error: it does not panic.
pub unmarshal_fragment-ne-panic : (bytes : List ℕ) → unmarshal_fragment bytes ≢ panic
unfolding unmarshal_fragment
unmarshal_fragment-ne-panic [] = λ p. cc
unmarshal_fragment-ne-panic (b ∷ rest) = read_levels-ne-panic b 0 rest
