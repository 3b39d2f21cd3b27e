-- ===== src/Diskstore/TxidList/Scan.antt =====
-- internal/diskstore/txid_list.go: Slice, a scan of the keys between two indices.
use mathlib.Core.Path.{subst}
use stumpt.Base.{
  if_true, if_false, ℕ, zero, suc, ◌+◌, ◌-◌, ◌^◌, ◌≤◌, ◌<◌, ◌≡◌, refl, sym, ap, ◌∙◌, arith, Bool,
  true, false, none, some, List, [], ◌∷◌, ltb, leb, if◌then◌else◌, length, get_elem?, take, drop,
  length-take, length-drop, Bool-cases, Option-cases, inl, inr, All,
}
use stumpt.Base.Maps.{bytes_eq, bytes_beq_iff, lookup}
use stumpt.Base.Bytes.{Hash}
use stumpt.Subtree.{Index, at, minus}
use stumpt.Diskstore.Keys.{make_key, compare_keys, Order, less, same, more, compare_keys-order_of}
use stumpt.Diskstore.Keys.Ordering.{
  Pair, IsAbove, IsAscending, IsAbove-trans, lookup-IsAbove, compare_keys_trans, compare_keys-same,
  compare_keys_flip, ascending_ext,
}
use stumpt.Diskstore.Database.{Bytes, Database, has_prefix}
use stumpt.Diskstore.TxidList.{
  TxidList, listing, list_prefix, is_less, seek, until, hashes_of, clamp_start, clamp_end, slice,
}
use stumpt.Diskstore.TxidList.Listing.{
  make_key-prefix, lookup-listing, member-listing, lookup-member, listing-IsAscending,
}
use stumpt.Diskstore.TxidList.Contents.{Holds, Is32, as_hash-eq}

-- A key below a bound is absent from a list that begins at or past it.
absent_below :
    (bound k j v : Bytes) (m : List Pair)
    → IsAbove j m
    → is_less (compare_keys j bound) ≡ false
    → is_less (compare_keys k bound) ≡ true
    → lookup k ((j, v) ∷ m) ≡ none
absent_below bound k j v m above past below =
    lookup-IsAbove k ((j, v) ∷ m) (first, IsAbove-trans k j m first above)
  where
    k_below : compare_keys k bound ≡ less
    k_below = ground (arith, below)

    first : compare_keys k j ≡ less
    first = step (compare_keys j bound) refl past
      where
        step : (o : Order) → compare_keys j bound ≡ o → is_less o ≡ false → compare_keys k j ≡ less
        step less e p = cc
        step same e p =
            subst (λ x. compare_keys k x ≡ less) (sym (compare_keys-same j bound e)) k_below
        step more e p = compare_keys_trans k bound j k_below (compare_keys_flip j bound e)

-- A seek to the start leaves what lies at or past it.
lookup-seek :
    (start k : Bytes) (m : List Pair)
    → IsAscending m
    → lookup k (seek start m) ≡ (if is_less (compare_keys k start) then none else lookup k m)
unfolding seek lookup
lookup-seek start k [] asc = ground arith
lookup-seek start k ((j, v) ∷ m) (above, asc) =
    step (is_less (compare_keys j start)) refl (lookup-seek start k m asc)
  where
    step :
        (b : Bool)
        → is_less (compare_keys j start) ≡ b
        → lookup k (seek start m) ≡ (if is_less (compare_keys k start) then none else lookup k m)
        → lookup k (if b then seek start m else (j, v) ∷ m)
          ≡ (if is_less (compare_keys k start) then none else lookup k ((j, v) ∷ m))
    step true e ih =
        ground
          (arith, ih, bytes_beq_iff j k, ap (λ x. is_less (compare_keys x start)) {x = j} {y = k})
    step false e ih = ground (arith, absent_below start k j v m above e)

seek-IsAscending : (start : Bytes) (m : List Pair) → IsAscending m → IsAscending (seek start m)
unfolding seek
seek-IsAscending start [] asc = tt
seek-IsAscending start ((j, v) ∷ m) (above, asc) = ground (arith, seek-IsAscending start m asc)

until-IsAbove : (end_key k : Bytes) (m : List Pair) → IsAbove k m → IsAbove k (until end_key m)
unfolding until
until-IsAbove end_key k [] above = tt
until-IsAbove end_key k ((j, v) ∷ m) (first, above) =
    ground (arith, until-IsAbove end_key k m above)

until-IsAscending :
    (end_key : Bytes) (m : List Pair) → IsAscending m → IsAscending (until end_key m)
unfolding until
until-IsAscending end_key [] asc = tt
until-IsAscending end_key ((j, v) ∷ m) (above, asc) =
    ground (arith, until-IsAscending end_key m asc, until-IsAbove end_key j m above)

lookup-until :
    (end_key k : Bytes) (m : List Pair)
    → IsAscending m
    → lookup k (until end_key m) ≡ (if is_less (compare_keys k end_key) then lookup k m else none)
unfolding until lookup
lookup-until end_key k [] asc = ground arith
lookup-until end_key k ((j, v) ∷ m) (above, asc) =
    step (is_less (compare_keys j end_key)) refl (lookup-until end_key k m asc)
  where
    step :
        (b : Bool)
        → is_less (compare_keys j end_key) ≡ b
        → lookup k (until end_key m)
          ≡ (if is_less (compare_keys k end_key) then lookup k m else none)
        → lookup k (if b then (j, v) ∷ until end_key m else [])
          ≡ (if is_less (compare_keys k end_key) then lookup k ((j, v) ∷ m) else none)
    step true e ih =
        ground
          (arith, ih, bytes_beq_iff j k, ap (λ x. is_less (compare_keys x end_key)) {x = j} {y = k})
    step false e ih = ground (arith, absent_below end_key k j v m above e)

get_elem?-drop : (xs : List Hash) (n i : ℕ) → get_elem? (drop n xs) i ≡ get_elem? xs (n + i)
get_elem?-drop xs zero i = ap (get_elem? xs) (omega arith)
get_elem?-drop [] (suc n) i = refl
get_elem?-drop (x ∷ xs) (suc n) i =
    get_elem?-drop xs n i ∙ ap (get_elem? (x ∷ xs)) {x = suc (n + i)} {y = suc n + i} (omega arith)

get_elem?-take :
    (xs : List Hash) (n i : ℕ)
    → get_elem? (take n xs) i ≡ (if ltb i n then get_elem? xs i else none)
get_elem?-take xs zero i = ground arith
get_elem?-take [] (suc n) i = ground arith
get_elem?-take (x ∷ xs) (suc n) zero = ground arith
get_elem?-take (x ∷ xs) (suc n) (suc i) = ground (arith, get_elem?-take xs n i)

All-take : (n : ℕ) (xs : List Hash) → All Is32 xs → All Is32 (take n xs)
All-take zero xs a = tt
All-take (suc n) [] a = tt
All-take (suc n) (x ∷ xs) (size, a) = (size, All-take n xs a)

All-drop : (n : ℕ) (xs : List Hash) → All Is32 xs → All Is32 (drop n xs)
All-drop zero xs a = a
All-drop (suc n) [] a = tt
All-drop (suc n) (x ∷ xs) (size, a) = All-drop n xs a

hashes_of-listing : (base : ℕ) (hs : List Hash) → All Is32 hs → hashes_of (listing base hs) ≡ hs
unfolding listing
hashes_of-listing base [] a = refl
hashes_of-listing base (h ∷ hs) (size, a) =
    cc (as_hash-eq h size, hashes_of-listing (base + 1) hs a)

-- What lies between the keys of two indices.
abbrev window : ℕ → ℕ → List Pair → List Pair
window from to m = until (make_key to) (seek (make_key from) m)

module _ {D : Type 0} (store : Database D) (tl : TxidList D) (hs : List Hash)
    (held : Holds store tl hs) (from to : ℕ) (lt : from < to) (in_range : to ≤ length hs) where
  abbrev scanned : List Pair
  scanned = store.scan list_prefix tl.db

  abbrev part : List Hash
  part = take (to - from) (drop from hs)

  length-part : length part ≡ to - from
  length-part = omega (arith, length-take (to - from) (drop from hs), length-drop from hs)

  lookup-window :
      (k : Bytes)
      → lookup k (window from to scanned) ≡ (
          if is_less (compare_keys k (make_key to))
          then if is_less (compare_keys k (make_key from)) then none else lookup k scanned
          else none)
  lookup-window k =
      lookup-until (make_key to) k (seek (make_key from) scanned)
        (seek-IsAscending (make_key from) scanned (store.scan-IsAscending list_prefix tl.db))
      ∙ ap (λ o. if is_less (compare_keys k (make_key to)) then o else none)
          (lookup-seek (make_key from) k scanned (store.scan-IsAscending list_prefix tl.db))

  at_index :
      (j : ℕ)
      → j < 2 ^ 64
      → lookup (make_key j) (window from to scanned) ≡ lookup (make_key j) (listing from part)
  at_index j small = ground (
    arith,
    lookup-window (make_key j),
    (compare_keys-order_of [] j to small (omega (arith, in_range, held.small))).0,
    (compare_keys-order_of [] j from small (omega (arith, lt, in_range, held.small))).0,
    store.lookup-scan list_prefix (make_key j) tl.db,
    make_key-prefix j,
    held.stored j,
    lookup-listing part from j (omega (arith, length-part, held.small)) small,
    length-part,
    get_elem?-take (drop from hs) (to - from) (j - from),
    get_elem?-drop hs from (j - from),
    ap (get_elem? hs) {x = from + (j - from)} {y = j},
  )

  no_other : (k : Bytes) → lookup k scanned ≡ none → lookup k (window from to scanned) ≡ none
  no_other k gone = ground (arith, lookup-window k, gone)

  prefixed : (k : Bytes) {v : Bytes} → lookup k scanned ≡ some v → has_prefix list_prefix k ≡ true
  prefixed k {v} here = ground (arith, store.lookup-scan list_prefix k tl.db, here)

  unstored : (k : Bytes) → store.get k tl.db ≡ none → lookup k scanned ≡ none
  unstored k gone = ground (arith, store.lookup-scan list_prefix k tl.db, gone)

  same_entries : (k : Bytes) → lookup k (window from to scanned) ≡ lookup k (listing from part)
  same_entries k = elim (Option-cases (lookup k (listing from part))) [
    | inr (v, here) ↦
        let (j, p, q, e) =
          member-listing k part from (lookup-member k (listing from part) {v = v} here) in
        subst (λ x. lookup x (window from to scanned) ≡ lookup x (listing from part)) (sym e)
          (at_index j (omega (arith, length-part, held.small)))
    | inl absent ↦ elim (Option-cases (lookup k scanned)) [
      | inl gone ↦ no_other k gone ∙ sym absent
      | inr (v, here) ↦ elim (held.shaped k (prefixed k {v = v} here)) [
        | inl gone ↦ cc (no_other k (unstored k gone), absent)
        | inr (j, small, e) ↦
            subst (λ x. lookup x (window from to scanned) ≡ lookup x (listing from part)) (sym e)
              (at_index j small)
      ]
    ]
  ]

  window-listing : window from to scanned ≡ listing from part
  window-listing =
      ascending_ext (window from to scanned) (listing from part)
        (until-IsAscending (make_key to) (seek (make_key from) scanned)
          (seek-IsAscending (make_key from) scanned (store.scan-IsAscending list_prefix tl.db)))
        (listing-IsAscending part from (omega (arith, length-part, held.small))) same_entries

-- A slice is what a list of the hashes has from `start` on, up to `end`, both clamped.
pub slice-Holds :
    {D : Type 0} (store : Database D) (tl : TxidList D) (hs : List Hash) (start end_ : Index)
    → Holds store tl hs
    → slice store start end_ tl
      ≡ take (clamp_end end_ (length hs) - clamp_start start) (drop (clamp_start start) hs)
unfolding slice
slice-Holds store tl hs start end_ held =
    finish (clamp_end end_ tl.len) (ap (clamp_end end_) held.counted)
  where
    from : ℕ
    from = clamp_start start

    in_range : (to : ℕ) → to ≡ clamp_end end_ (length hs) → to ≤ length hs
    in_range to e = e_bounded end_ to e
      where
        e_bounded : (end_ : Index) (to : ℕ) → to ≡ clamp_end end_ (length hs) → to ≤ length hs
        e_bounded (at i) to e = ground arith
        e_bounded (minus k) to e = omega arith

    finish :
        (to : ℕ)
        → to ≡ clamp_end end_ (length hs)
        → (if leb to from then [] else hashes_of (window from to (store.scan list_prefix tl.db)))
          ≡ take (clamp_end end_ (length hs) - from) (drop from hs)
    finish to e = elim (Bool-cases (leb to from)) [
      | inl empty ↦
          if_true (hashes_of (window from to (store.scan list_prefix tl.db))) empty
          ∙ ap (λ n. take n (drop from hs)) {x = 0} (ground arith)
      | inr full ↦
          if_false {A = List Hash} [] full
          ∙ ap hashes_of (window-listing store tl hs held from to (ground arith) (in_range to e))
          ∙ hashes_of-listing from (take (to - from) (drop from hs))
              (All-take (to - from) (drop from hs) (All-drop from hs held.sizes))
          ∙ ap (λ n. take (n - from) (drop from hs)) e
    ]
