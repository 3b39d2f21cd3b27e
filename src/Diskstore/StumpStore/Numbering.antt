-- ===== src/Diskstore/StumpStore/Numbering.antt =====
-- internal/diskstore/stump_store.go: the keys of numbered puts, and those of them under one XOR key.
use mathlib.Core.Path.{subst}
use stumpt.Base.{
  ℕ, suc, ◌+◌, ◌^◌, ◌≤◌, ◌<◌, ◌≡◌, refl, sym, ap, ◌∙◌, arith, Bool, true, false, List, [], ◌∷◌,
  ◌++◌, if◌then◌else◌, length, map, All,
}
use stumpt.Base.Maps.{◌==◌, bytes_eq, bytes_beq_iff}
use stumpt.Base.Bytes.{big_endian}
use stumpt.Stump.{Key, Entry}
use stumpt.Diskstore.Encoding.{marshal_entry}
use stumpt.Diskstore.Keys.{make_db_key, make_prefix_key, compare_keys, less, compare_keys-order_of}
use stumpt.Diskstore.Keys.Ordering.{Pair, IsAbove, IsAscending}
use stumpt.Diskstore.Database.{Bytes, has_prefix}
use stumpt.Diskstore.StumpStore.{add_seq, numbered}
use stumpt.Diskstore.StumpStore.Scans.{under}

has_prefix-append : (p k rest : Bytes) → length p ≡ length k → has_prefix p (k ++ rest) ≡ (k == p)
has_prefix-append [] [] rest e = refl
has_prefix-append [] (x ∷ k) rest e = absurd (omega arith)
has_prefix-append (y ∷ p) [] rest e = absurd (omega arith)
has_prefix-append (y ∷ p) (x ∷ k) rest e = ground (arith, has_prefix-append p k rest (omega arith))

pub make_db_key-prefix :
    (j k : Key) (n : ℕ)
    → length j ≡ length k
    → has_prefix (make_prefix_key j) (make_db_key k n) ≡ (k == j)
unfolding make_db_key make_prefix_key
make_db_key-prefix j k n e = ground (arith, has_prefix-append j k (big_endian 8 n) e)

-- The pair has a key of `j` with a number above `n`, and at most `m`.
abbrev pub IsNumbered : Key → ℕ → ℕ → Pair → Type 0
IsNumbered j n m p = (i : ℕ) × (n < i) × (i ≤ m) × (p.0 ≡ make_db_key j i)

pub IsNumbered-less :
    (j : Key) (n m i : ℕ) (p : Pair)
    → IsNumbered j n m p
    → m < i
    → i < 2 ^ 64
    → compare_keys p.0 (make_db_key j i) ≡ less
IsNumbered-less j n m i p (h, lo, hi, e) lt small =
    ap (λ k. compare_keys k (make_db_key j i)) e
    ∙ (compare_keys-order_of j h i (omega arith) (omega arith)).1
    ∙ ground arith

pub All-map :
    {P Q : Pair → Type 0} (ps : List Pair) → ((p : Pair) → P p → Q p) → All P ps → All Q ps
All-map [] f a = tt
All-map {P} {Q} (p ∷ ps) f (first, a) = (f p first, All-map {P = P} {Q = Q} ps f a)

-- The entries of a batch under one key.
abbrev pub added : Key → List (Key × Entry) → List Entry
added j [] = []
added j ((k, e) ∷ kes) = if k == j then e ∷ added j kes else added j kes

next_seq : (seq n : ℕ) → seq + suc n < 2 ^ 64 → add_seq seq 1 ≡ seq + 1
next_seq seq n room = omega arith

weaken :
    (j : Key) (n m n' m' : ℕ) (ps : List Pair)
    → n' ≤ n
    → m ≤ m'
    → All (IsNumbered j n m) ps
    → All (IsNumbered j n' m') ps
weaken j n m n' m' ps lo hi a =
    All-map {P = IsNumbered j n m} {Q = IsNumbered j n' m'} ps
      (λ p (i, l, h, e). (i, omega arith, omega arith, e)) a

IsNumbered-IsAbove :
    (j : Key) (i n m : ℕ) (ps : List Pair)
    → i ≤ n
    → m < 2 ^ 64
    → All (IsNumbered j n m) ps
    → IsAbove (make_db_key j i) ps
IsNumbered-IsAbove j i n m ps le small a =
    All-map {P = IsNumbered j n m} {Q = λ p. compare_keys (make_db_key j i) p.0 ≡ less} ps
      (λ p (h, lo, hi, e).
        ap (compare_keys (make_db_key j i)) e
        ∙ (compare_keys-order_of j i h (omega arith) (omega arith)).1
        ∙ ground arith)
      a

module _ (j : Key) (size : length j ≡ 32) where
  pub numbered-IsNumbered :
      (seq : ℕ) (kes : List (Key × Entry))
      → All (λ ke. length ke.0 ≡ 32) kes
      → seq + length kes < 2 ^ 64
      → All (IsNumbered j seq (seq + length kes)) (under (make_prefix_key j) (numbered seq kes))
  unfolding numbered
  numbered-IsNumbered seq [] sizes room = tt
  numbered-IsNumbered seq ((k, e) ∷ kes) (size_k, sizes) room =
      step (has_prefix (make_prefix_key j) (make_db_key k next))
        (make_db_key-prefix j k next (size ∙ sym size_k))
        (weaken j next (next + length kes) seq (seq + suc (length kes)) rest (omega arith)
          (omega arith) (numbered-IsNumbered next kes sizes (omega (arith, room))))
    where
      next : ℕ
      next = add_seq seq 1

      rest : List Pair
      rest = under (make_prefix_key j) (numbered next kes)

      step :
          (b : Bool)
          → b ≡ (k == j)
          → All (IsNumbered j seq (seq + suc (length kes))) rest
          → All
              (IsNumbered j seq (seq + suc (length kes)))
              (if b then (make_db_key k next, marshal_entry e) ∷ rest else rest)
      step true is_j ih = (
        (
          next,
          omega (arith, room),
          omega (arith, room),
          ap (λ x. make_db_key x next) ((bytes_beq_iff k j).0 (sym is_j)),
        ),
        ih,
      )
      step false not_j ih = ih

  pub numbered-IsAscending :
      (seq : ℕ) (kes : List (Key × Entry))
      → All (λ ke. length ke.0 ≡ 32) kes
      → seq + length kes < 2 ^ 64
      → IsAscending (under (make_prefix_key j) (numbered seq kes))
  unfolding numbered
  numbered-IsAscending seq [] sizes room = tt
  numbered-IsAscending seq ((k, e) ∷ kes) (size_k, sizes) room =
      step (has_prefix (make_prefix_key j) (make_db_key k next))
        (make_db_key-prefix j k next (size ∙ sym size_k))
        (numbered-IsAscending next kes sizes (omega (arith, room)))
    where
      next : ℕ
      next = add_seq seq 1

      rest : List Pair
      rest = under (make_prefix_key j) (numbered next kes)

      above : IsAbove (make_db_key j next) rest
      above =
          IsNumbered-IsAbove j next next (next + length kes) rest (omega arith)
            (omega (arith, room)) (numbered-IsNumbered next kes sizes (omega (arith, room)))

      step :
          (b : Bool)
          → b ≡ (k == j)
          → IsAscending rest
          → IsAscending (if b then (make_db_key k next, marshal_entry e) ∷ rest else rest)
      step true is_j ih = (
        subst (λ x. IsAbove (make_db_key x next) rest) (sym ((bytes_beq_iff k j).0 (sym is_j)))
            above,
        ih,
      )
      step false not_j ih = ih

  pub values-numbered :
      (seq : ℕ) (kes : List (Key × Entry))
      → All (λ ke. length ke.0 ≡ 32) kes
      → map (λ (p : Pair). p.1) (under (make_prefix_key j) (numbered seq kes))
        ≡ map marshal_entry (added j kes)
  unfolding numbered
  values-numbered seq [] sizes = refl
  values-numbered seq ((k, e) ∷ kes) (size_k, sizes) =
      step (has_prefix (make_prefix_key j) (make_db_key k next)) (k == j)
        (make_db_key-prefix j k next (size ∙ sym size_k)) (values-numbered next kes sizes)
    where
      next : ℕ
      next = add_seq seq 1

      rest : List Pair
      rest = under (make_prefix_key j) (numbered next kes)

      step :
          (b c : Bool)
          → b ≡ c
          → map (λ (p : Pair). p.1) rest ≡ map marshal_entry (added j kes)
          → map
              (λ (p : Pair). p.1)
              (if b then (make_db_key k next, marshal_entry e) ∷ rest else rest)
            ≡ map marshal_entry (if c then e ∷ added j kes else added j kes)
      step true true h ih = ap (◌∷◌ (marshal_entry e)) ih
      step false false h ih = ih
      step true false h ih = cc
      step false true h ih = cc
