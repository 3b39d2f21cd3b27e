-- ===== src/Diskstore/TxidList/Listing.antt =====
-- internal/diskstore/txid_list.go: the keys and values that a flush puts.
use stumpt.Base.{
  ℕ, zero, suc, ◌+◌, ◌-◌, ◌^◌, ◌≤◌, ◌<◌, ◌≡◌, refl, sym, ap, ◌∙◌, arith, true, ◌&&◌, Option, none,
  some, List, [], ◌∷◌, ltb, leb, ◌==◌ as num_eq, if◌then◌else◌, length, get_elem?, Bool-cases, inl,
  inr,
}
use stumpt.Base.Maps.{◌==◌, bytes_eq, bytes_beq_iff, lookup, keys, member}
use stumpt.Base.Bytes.{Hash}
use stumpt.Diskstore.Keys.{make_key, big_endian-injective, compare_keys-order_of}
use stumpt.Diskstore.Keys.Ordering.{Pair, IsAbove, IsAscending}
use stumpt.Diskstore.Database.{Bytes, has_prefix, written}
use stumpt.Diskstore.TxidList.{listing, list_prefix}

pub make_key-injective : (i j : ℕ) → i < 2 ^ 64 → j < 2 ^ 64 → make_key i ≡ make_key j → i ≡ j
unfolding make_key
make_key-injective i j p q e = big_endian-injective 8 i j p q (cc e)

pub make_key-eq : (i j : ℕ) → i < 2 ^ 64 → j < 2 ^ 64 → (make_key i == make_key j) ≡ num_eq i j
make_key-eq i j p q = ground (
  arith,
  bytes_beq_iff (make_key i) (make_key j),
  make_key-injective i j p q,
  ap make_key {x = i} {y = j},
)

pub make_key-prefix : (i : ℕ) → has_prefix list_prefix (make_key i) ≡ true
unfolding make_key
make_key-prefix i = refl

get_cons :
    (h : Hash) (hs : List Hash) (n : ℕ)
    → get_elem? (h ∷ hs) n ≡ (if num_eq n 0 then some h else get_elem? hs (n - 1))
get_cons h hs zero = refl
get_cons h hs (suc n) = ground (arith, ap (get_elem? hs) {x = suc n - 1} {y = n} (omega arith))

pub lookup-listing :
    (hs : List Hash) (i j : ℕ)
    → i + length hs ≤ 2 ^ 64
    → j < 2 ^ 64
    → lookup (make_key j) (listing i hs) ≡ (if leb i j then get_elem? hs (j - i) else none)
unfolding lookup listing
lookup-listing [] i j p q = ground arith
lookup-listing (h ∷ hs) i j p q = ground (
  arith,
  lookup-listing hs (i + 1) j (omega arith) q,
  make_key-eq i j (omega arith) q,
  get_cons h hs (j - i),
  ap (get_elem? hs) {x = j - i - 1} {y = j - (i + 1)} (omega arith),
)

pub written-listing :
    (hs : List Hash) (i j : ℕ) (old : Option Bytes)
    → i + length hs ≤ 2 ^ 64
    → j < 2 ^ 64
    → written (make_key j) (listing i hs) old
      ≡ (if leb i j && ltb j (i + length hs) then get_elem? hs (j - i) else old)
unfolding listing
written-listing [] i j old p q = ground arith
written-listing (h ∷ hs) i j old p q =
    written-listing hs (i + 1) j (if make_key i == make_key j then some h else old) (omega arith) q
    ∙ ground (
      arith,
      make_key-eq i j (omega arith) q,
      get_cons h hs (j - i),
      ap (get_elem? hs) {x = j - i - 1} {y = j - (i + 1)} (omega arith),
    )

-- A key of a listing is that of an index in its range.
pub member-listing :
    (k : Bytes) (hs : List Hash) (i : ℕ)
    → member k (keys (listing i hs)) ≡ true
    → (j : ℕ) × (i ≤ j) × (j < i + length hs) × (k ≡ make_key j)
unfolding listing
member-listing k [] i h = cc
member-listing k (x ∷ hs) i h = elim (Bool-cases (make_key i == k)) [
  | inl here ↦ (i, omega arith, omega arith, sym ((bytes_beq_iff (make_key i) k).0 here))
  | inr there ↦
      let (j, p, q, e) = member-listing k hs (i + 1) (ground (arith, there)) in
      (j, omega arith, omega arith, e)
]

pub lookup-member :
    (k : Bytes) (m : List Pair) {v : Bytes} → lookup k m ≡ some v → member k (keys m) ≡ true
unfolding lookup
lookup-member k [] h = cc
lookup-member k ((j, w) ∷ m) {v} h = ground (arith, lookup-member k m {v = v})

pub listing-IsAscending :
    (hs : List Hash) (i : ℕ) → i + length hs ≤ 2 ^ 64 → IsAscending (listing i hs)
unfolding listing
listing-IsAscending [] i p = tt
listing-IsAscending (h ∷ hs) i p =
    (above hs i (i + 1) (omega arith) (omega arith), listing-IsAscending hs (i + 1) (omega arith))
  where
    above :
        (hs : List Hash) (i j : ℕ)
        → i < j
        → j + length hs ≤ 2 ^ 64
        → IsAbove (make_key i) (listing j hs)
    above [] i j lt p = tt
    above (x ∷ hs) i j lt p = (
      ground (arith, compare_keys-order_of [] i j),
      above hs i (j + 1) (omega arith) (omega arith),
    )
