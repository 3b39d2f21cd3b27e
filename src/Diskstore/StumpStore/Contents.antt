-- ===== src/Diskstore/StumpStore/Contents.antt =====
-- internal/diskstore/stump_store.go: what DiskStumpStore holds under a key.
use mathlib.Core.Path.{subst}
use mathlib.Core.List.{append-nil}
use stumpt.Base.{
  ℕ, suc, ◌+◌, ◌^◌, ◌≤◌, ◌<◌, ◌≡◌, refl, sym, ap, ◌∙◌, arith, Bool, true, false, List, [], ◌∷◌,
  ◌++◌, if◌then◌else◌, length, map, All, ok,
}
use stumpt.Base.Maps.{◌==◌, bytes_eq, bytes_beq_iff, keys, member}
use stumpt.Stump.{Key, Entry}
use stumpt.Diskstore.Encoding.{marshal_entry, unmarshal_entry}
use stumpt.Diskstore.Encoding.EntryCodec.{IsEncodable, unmarshal_entry-marshal_entry}
use stumpt.Diskstore.Keys.{make_db_key, make_prefix_key, compare_keys, less}
use stumpt.Diskstore.Keys.Ordering.{Pair, IsAbove, IsAscending}
use stumpt.Diskstore.Database.{Bytes, Database, has_prefix, written}
use stumpt.Diskstore.StumpStore.{DiskStumpStore, add_seq, numbered, under_key, entries_of, get}
use stumpt.Diskstore.StumpStore.Scans.{under, scan-written}
use stumpt.Diskstore.StumpStore.Numbering.{
  IsNumbered, IsNumbered-less, added, make_db_key-prefix, numbered-IsNumbered, numbered-IsAscending,
  values-numbered, All-map,
}

abbrev pub value : Pair → Bytes
value p = p.1

-- Every key in the list is before the key of `j` with the number.
abbrev pub IsBelow : Key → ℕ → List Pair → Type 0
IsBelow j i ps = All (λ p. compare_keys p.0 (make_db_key j i) ≡ less) ps

-- The store holds the entries under the key, in that order, and no number above its counter is used
-- under the key.
pub record Holds {D : Type 0} (store : Database D) (s : DiskStumpStore D) (j : Key)
    (es : List Entry) : Type 0 where
  pub small : s.seq < 2 ^ 64
  pub values : map value (store.scan (make_prefix_key j) s.db) ≡ map marshal_entry es
  pub encodable : All IsEncodable es
  pub below : (i : ℕ) → s.seq < i → i < 2 ^ 64 → IsBelow j i (store.scan (make_prefix_key j) s.db)

read_marshal_entry : (e : Entry) → IsEncodable e → unmarshal_entry (marshal_entry e) ≡ ok e
read_marshal_entry e v =
    ap unmarshal_entry (sym (append-nil (marshal_entry e))) ∙ unmarshal_entry-marshal_entry e [] v

entries_of-values :
    (ps : List Pair) (es : List Entry)
    → map value ps ≡ map marshal_entry es
    → All IsEncodable es
    → entries_of ps ≡ ok es
unfolding entries_of
entries_of-values [] [] h v = refl
entries_of-values [] (e ∷ es) h v = cc
entries_of-values (p ∷ ps) [] h v = cc
entries_of-values (p ∷ ps) (e ∷ es) h (v, vs) = ground (
  arith,
  entries_of-values ps es (cc h) vs,
  read_marshal_entry e v,
  ap unmarshal_entry {x = p.1} {y = marshal_entry e} (cc h),
)

IsBelow-append :
    (j : Key) (i : ℕ) (xs ys : List Pair) → IsBelow j i xs → IsBelow j i ys → IsBelow j i (xs ++ ys)
IsBelow-append j i [] ys a b = b
IsBelow-append j i (x ∷ xs) ys (first, a) b = (first, IsBelow-append j i xs ys a b)

IsAbove-append :
    (k : Bytes) (xs ys : List Pair) → IsAbove k xs → IsAbove k ys → IsAbove k (xs ++ ys)
IsAbove-append k [] ys a b = b
IsAbove-append k (x ∷ xs) ys (first, a) b = (first, IsAbove-append k xs ys a b)

-- Puts with numbers past those in the list come after it.
numbered_after :
    (j : Key) (n m : ℕ) (xs ys : List Pair)
    → m < 2 ^ 64
    → IsAscending xs
    → IsAscending ys
    → ((i : ℕ) → n < i → i < 2 ^ 64 → IsBelow j i xs)
    → All (IsNumbered j n m) ys
    → IsAscending (xs ++ ys)
numbered_after j n m [] ys small ax ay below num = ay
numbered_after j n m (x ∷ xs) ys small (above, ax) ay below num = (
  IsAbove-append x.0 xs ys above (
      All-map {P = IsNumbered j n m} {Q = λ p. compare_keys x.0 p.0 ≡ less} ys
        (λ p (i, lo, hi, e). ap (compare_keys x.0) e ∙ (below i lo (omega arith)).0) num),
  numbered_after j n m xs ys small ax ay (λ i lo hi. (below i lo hi).1) num,
)

map-append : {A : Type 0} (f : A → Bytes) (xs ys : List A) → map f (xs ++ ys) ≡ map f xs ++ map f ys
map-append f [] ys = refl
map-append f (x ∷ xs) ys = ap (◌∷◌ (f x)) (map-append f xs ys)

All-append :
    (xs ys : List Entry) → All IsEncodable xs → All IsEncodable ys → All IsEncodable (xs ++ ys)
All-append [] ys a b = b
All-append (x ∷ xs) ys (v, a) b = (v, All-append xs ys a b)

-- What a batch holds: 32-byte keys, and entries that the format can hold.
abbrev pub IsSound : List (Key × Entry) → Type 0
IsSound kes = All (λ ke. length ke.0 ≡ 32) kes × All (λ ke. IsEncodable ke.1) kes

added-IsEncodable :
    (j : Key) (kes : List (Key × Entry))
    → All (λ ke. IsEncodable ke.1) kes
    → All IsEncodable (added j kes)
added-IsEncodable j [] a = tt
added-IsEncodable j ((k, e) ∷ kes) (v, a) = step (k == j) (added-IsEncodable j kes a)
  where
    step :
        (b : Bool)
        → All IsEncodable (added j kes)
        → All IsEncodable (if b then e ∷ added j kes else added j kes)
    step true ih = (v, ih)
    step false ih = ih

pub length-numbered : (seq : ℕ) (kes : List (Key × Entry)) → length (numbered seq kes) ≡ length kes
unfolding numbered
length-numbered seq [] = refl
length-numbered seq ((k, e) ∷ kes) = ap suc (length-numbered (add_seq seq 1) kes)

pub length-under_key : (k : Key) (es : List Entry) → length (under_key k es) ≡ length es
length-under_key k [] = refl
length-under_key k (e ∷ es) = ap suc (length-under_key k es)

pub under_key-IsSound :
    (k : Key) (es : List Entry) → length k ≡ 32 → All IsEncodable es → IsSound (under_key k es)
under_key-IsSound k [] size a = (tt, tt)
under_key-IsSound k (e ∷ es) size (v, a) =
    let (sizes, sound) = under_key-IsSound k es size a in ((size, sizes), (v, sound))

pub added-under_key :
    (j k : Key) (es : List Entry) → added j (under_key k es) ≡ (if k == j then es else [])
added-under_key j k [] = ground arith
added-under_key j k (e ∷ es) = ground (arith, added-under_key j k es)

-- A key under the prefix of `j` is not one of another key's batch.
pub not_under_key :
    (j k : Key) (seq : ℕ) (es : List Entry) (x : Bytes)
    → length j ≡ length k
    → (k == j) ≡ false
    → has_prefix (make_prefix_key j) x ≡ true
    → member x (keys (numbered seq (under_key k es))) ≡ false
unfolding numbered
not_under_key j k seq [] x size other inside = refl
not_under_key j k seq (e ∷ es) x size other inside = ground (
  arith,
  not_under_key j k (add_seq seq 1) es x size other inside,
  make_db_key-prefix j k (add_seq seq 1) size,
  other,
  inside,
  bytes_beq_iff (make_db_key k (add_seq seq 1)) x,
  ap (has_prefix (make_prefix_key j)) {x = make_db_key k (add_seq seq 1)} {y = x},
)

module _ {D : Type 0} (store : Database D) where
  pub get-Holds :
      (s : DiskStumpStore D) (j : Key) (es : List Entry)
      → Holds store s j es
      → get store j s ≡ ok es
  unfolding get
  get-Holds s j es held =
      entries_of-values (store.scan (make_prefix_key j) s.db) es held.values held.encodable

  -- Puts of numbered entries that all took effect.
  pub puts-Holds :
      (s : DiskStumpStore D) (j : Key) (es : List Entry) (kes : List (Key × Entry)) (after : D)
      (seq : ℕ)
      → length j ≡ 32
      → Holds store s j es
      → IsSound kes
      → s.seq + length kes < 2 ^ 64
      → seq ≡ s.seq + length kes
      → ((k : Bytes) → store.get k after ≡ written k (numbered s.seq kes) (store.get k s.db))
      → Holds store (record { db = after; seq = seq }) j (es ++ added j kes)
  puts-Holds s j es kes after seq size held (sizes, sound) room counted law = record {
    small = omega (arith, counted);
    values =
        ap (map value) scanned
        ∙ map-append value old new
        ∙ ap (λ vs. vs ++ map value new) held.values
        ∙ ap (◌++◌ (map marshal_entry es)) (values-numbered j size s.seq kes sizes)
        ∙ sym (map-append marshal_entry es (added j kes));
    encodable = All-append es (added j kes) held.encodable (added-IsEncodable j kes sound);
    below = λ i lo hi. subst (IsBelow j i) (sym scanned) (
        IsBelow-append j i old new (held.below i (omega (arith, lo, counted)) hi) (
          All-map {P = IsNumbered j s.seq (s.seq + length kes)}
            {Q = λ p. compare_keys p.0 (make_db_key j i) ≡ less} new
            (λ p num.
              IsNumbered-less j s.seq (s.seq + length kes) i p num (omega (arith, lo, counted)) hi)
            in_range));
  }
    where
      old : List Pair
      old = store.scan (make_prefix_key j) s.db

      new : List Pair
      new = under (make_prefix_key j) (numbered s.seq kes)

      in_range : All (IsNumbered j s.seq (s.seq + length kes)) new
      in_range = numbered-IsNumbered j size s.seq kes sizes room

      scanned : store.scan (make_prefix_key j) after ≡ old ++ new
      scanned =
          scan-written store (make_prefix_key j) (numbered s.seq kes) s.db after (λ k h. law k)
            (numbered_after j s.seq (s.seq + length kes) old new room
              (store.scan-IsAscending (make_prefix_key j) s.db)
              (numbered-IsAscending j size s.seq kes sizes room) held.below in_range)

  -- Other puts.
  pub unchanged-Holds :
      (s : DiskStumpStore D) (j : Key) (es : List Entry) (after : D) (seq : ℕ)
      → Holds store s j es
      → s.seq ≤ seq
      → seq < 2 ^ 64
      → ((k : Bytes)
          → has_prefix (make_prefix_key j) k ≡ true
          → store.get k after ≡ store.get k s.db)
      → Holds store (record { db = after; seq = seq }) j es
  unchanged-Holds s j es after seq held le small law = record {
    small = small;
    values = ap (map value) scanned ∙ held.values;
    encodable = held.encodable;
    below = λ i lo hi. subst (IsBelow j i) (sym scanned) (held.below i (omega arith) hi);
  }
    where
      old : List Pair
      old = store.scan (make_prefix_key j) s.db

      scanned : store.scan (make_prefix_key j) after ≡ old
      scanned =
          scan-written store (make_prefix_key j) [] s.db after law (
            subst IsAscending (sym (append-nil old))
              (store.scan-IsAscending (make_prefix_key j) s.db))
          ∙ append-nil old
