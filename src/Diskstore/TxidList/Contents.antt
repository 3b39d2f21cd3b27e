-- ===== src/Diskstore/TxidList/Contents.antt =====
-- internal/diskstore/txid_list.go: TxidList as a list of hashes.
use stumpt.Base.{
  if_true, if_false, ℕ, zero, suc, ◌+◌, ◌-◌, ◌^◌, ◌≤◌, ◌<◌, ◌≡◌, refl, sym, ap, ◌∙◌, arith, Bool,
  true, false, ◌&&◌, ◌||◌, ◌⊎◌, Option, none, some, List, [], ◌∷◌, ◌++◌, ltb, leb, ◌==◌ as num_eq,
  if◌then◌else◌, length, length-append, length-set, get_elem?, set as set_elem, get_elem?-set,
  get_elem?-past, get_elem?-get_or, get_elem?-lt, get_elem?-append, take, take-append, Bool-cases,
  Option-cases, inl, inr, All,
}
use stumpt.Base.Maps.{◌==◌, bytes_eq, bytes_beq_iff}
use stumpt.Base.Bytes.{Hash}
use stumpt.Subtree.{at}
use stumpt.Diskstore.Keys.{make_key}
use stumpt.Diskstore.Database.{Bytes, Database, has_prefix, written}
use stumpt.Diskstore.TxidList.{TxidList, list_prefix, as_hash, append, get, set}
use stumpt.Diskstore.TxidList.Listing.{make_key-eq}

abbrev pub Is32 : Hash → Type 0
Is32 h = length h ≡ 32

-- The first hashes of the list are `hs`; keys at or past the length may be left over from a failed
-- flush, and no other keys stand under the prefix.
pub record Holds {D : Type 0} (store : Database D) (tl : TxidList D) (hs : List Hash) : Type 0 where
  pub counted : tl.len ≡ length hs
  pub small : length hs < 2 ^ 63
  pub sizes : All Is32 hs
  pub stored : (i : ℕ) → i < length hs → store.get (make_key i) tl.db ≡ get_elem? hs i
  pub shaped :
      (k : Bytes)
      → has_prefix list_prefix k ≡ true
      → (store.get k tl.db ≡ none) ⊎ ((i : ℕ) × (i < 2 ^ 64) × (k ≡ make_key i))

pub as_hash-eq : (h : Hash) → Is32 h → as_hash h ≡ h
as_hash-eq h size = take-append h stumpt.Base.Bytes.zero_hash size

All-get_elem? : (hs : List Hash) (i : ℕ) {h : Hash} → All Is32 hs → get_elem? hs i ≡ some h → Is32 h
All-get_elem? [] i all e = cc
All-get_elem? (x ∷ hs) zero (size, all) e = ap length (cc e) ∙ size
All-get_elem? (x ∷ hs) (suc i) {h} (size, all) e = All-get_elem? hs i {h = h} all e

pub All-append : (xs ys : List Hash) → All Is32 xs → All Is32 ys → All Is32 (xs ++ ys)
All-append [] ys a b = b
All-append (x ∷ xs) ys (size, a) b = (size, All-append xs ys a b)

pub All-set :
    (xs : List Hash) (i : ℕ) (h : Hash) → All Is32 xs → Is32 h → All Is32 (set_elem xs i h)
All-set [] i h a b = a
All-set (x ∷ xs) zero h (size, a) b = (b, a)
All-set (x ∷ xs) (suc i) h (size, a) b = (size, All-set xs i h a b)

module _ {D : Type 0} (store : Database D) where
  pub get-Holds :
      (tl : TxidList D) (hs : List Hash) (i : ℕ)
      → Holds store tl hs
      → get store (at i) tl ≡ get_elem? hs i
  unfolding get
  get-Holds tl hs i held = elim (Option-cases (get_elem? hs i)) [
    | inl past ↦ ground (arith, held.counted, held.stored i, get_elem?-get_or hs i [])
    | inr (h, here) ↦ ground (
      arith,
      held.counted,
      held.stored i (get_elem?-lt hs i here),
      get_elem?-lt hs i here,
      as_hash-eq h (All-get_elem? hs i held.sizes here),
    )
  ]

  -- A write of one key of the list leaves only such keys.
  shaped_after :
      (before after : D) (j : ℕ) (h : Hash)
      → j < 2 ^ 64
      → ((k : Bytes) → store.get k after ≡ (if make_key j == k then some h else store.get k before))
      → (k : Bytes) → (store.get k before ≡ none) ⊎ ((i : ℕ) × (i < 2 ^ 64) × (k ≡ make_key i))
      → (store.get k after ≡ none) ⊎ ((i : ℕ) × (i < 2 ^ 64) × (k ≡ make_key i))
  shaped_after before after j h small law k old = elim (Bool-cases (make_key j == k)) [
    | inl new ↦ inr (j, small, sym ((bytes_beq_iff (make_key j) k).0 new))
    | inr other ↦ elim old [
      | inl gone ↦ inl (ground (arith, law k, other, gone))
      | inr kept ↦ inr kept
    ]
  ]

  -- Append puts the hash at the end of the list when it returns no error, and else leaves the list.
  pub append-Holds :
      (tl : TxidList D) (hs : List Hash) (h : Hash)
      → Holds store tl hs
      → Is32 h
      → length hs + 1 < 2 ^ 63
      → Holds store (append store h tl).0 (if (append store h tl).1 then hs ++ (h ∷ []) else hs)
  unfolding append
  append-Holds tl hs h held size room = finish put.1 refl
    where
      put : D × Bool
      put = store.transact ((make_key tl.len, h) ∷ []) tl.db

      law :
          (k : Bytes)
          → store.get k put.0 ≡ (
              if put.1
              then written k ((make_key tl.len, h) ∷ []) (store.get k tl.db)
              else store.get k tl.db)
      law k = store.get-transact ((make_key tl.len, h) ∷ []) k tl.db

      finish :
          (ok : Bool)
          → put.1 ≡ ok
          → let r : TxidList D × Bool =
              if ok
              then (record { db = put.0; len = tl.len + 1 }, true)
              else (record tl { db = put.0 }, false) in
            Holds store r.0 (if r.1 then hs ++ (h ∷ []) else hs)
      finish true e =
          let now = λ (k : Bytes). law k ∙ if_true (store.get k tl.db) e in
          record {
            counted = omega (arith, held.counted, length-append hs (h ∷ []));
            small = omega (arith, length-append hs (h ∷ []));
            sizes = All-append hs (h ∷ []) held.sizes (size, tt);
            stored = λ i lt. ground (
              arith,
              now (make_key i),
              held.counted,
              held.small,
              held.stored i,
              get_elem?-append hs (h ∷ []) i,
              length-append hs (h ∷ []),
              ap (get_elem? (h ∷ [])) {x = i - length hs} {y = 0},
              make_key-eq tl.len i (omega (arith, held.counted, held.small))
                  (omega (arith, lt, length-append hs (h ∷ []))),
            );
            shaped = λ k p.
                shaped_after tl.db put.0 tl.len h (omega (arith, held.counted, held.small)) now k
                  (held.shaped k p);
          }
      finish false e =
          let now = λ (k : Bytes).
            law k ∙ if_false (written k ((make_key tl.len, h) ∷ []) (store.get k tl.db)) e in
          record {
            counted = held.counted;
            small = held.small;
            sizes = held.sizes;
            stored = λ i lt. now (make_key i) ∙ held.stored i lt;
            shaped = λ k p. elim (held.shaped k p) [
              | inl gone ↦ inl (now k ∙ gone)
              | inr kept ↦ inr kept
            ];
          }

  -- Set replaces the hash at an index of the list when it returns no error, and else, out of range
  -- too, leaves the list.
  pub set-Holds :
      (tl : TxidList D) (hs : List Hash) (i : ℕ) (h : Hash)
      → Holds store tl hs
      → Is32 h
      → Holds store
          (set store (at i) h tl).0
          (if (set store (at i) h tl).1 then set_elem hs i h else hs)
        × (length hs ≤ i → (set store (at i) h tl).1 ≡ false)
  unfolding set
  set-Holds tl hs i h held size = finish (leb tl.len i) put.1 refl refl
    where
      put : D × Bool
      put = store.transact ((make_key i, h) ∷ []) tl.db

      law :
          (k : Bytes)
          → store.get k put.0 ≡ (
              if put.1
              then written k ((make_key i, h) ∷ []) (store.get k tl.db)
              else store.get k tl.db)
      law k = store.get-transact ((make_key i, h) ∷ []) k tl.db

      finish :
          (past ok : Bool)
          → leb tl.len i ≡ past
          → put.1 ≡ ok
          → let r : TxidList D × Bool =
              if past then (tl, false) else (record tl { db = put.0 }, ok) in
            Holds store r.0 (if r.1 then set_elem hs i h else hs) × (length hs ≤ i → r.1 ≡ false)
      finish true ok p e = (held, λ q. refl)
      finish false true p e =
          let now = λ (k : Bytes). law k ∙ if_true (store.get k tl.db) e in
          let inside : i < length hs = ground (arith, held.counted) in
          let small : i < 2 ^ 64 = omega (arith, held.small) in
          (
            record {
              counted = omega (arith, held.counted, length-set hs i h);
              small = omega (arith, length-set hs i h, held.small);
              sizes = All-set hs i h held.sizes size;
              stored = λ j lt. ground (
                arith,
                now (make_key j),
                held.stored j,
                get_elem?-set hs i j h inside,
                length-set hs i h,
                make_key-eq i j small (omega (arith, lt, held.small, length-set hs i h)),
              );
              shaped = λ k q. shaped_after tl.db put.0 i h small now k (held.shaped k q);
            },
            λ q. absurd (omega arith),
          )
      finish false false p e =
          let now = λ (k : Bytes).
            law k ∙ if_false (written k ((make_key i, h) ∷ []) (store.get k tl.db)) e in
          (
            record {
              counted = held.counted;
              small = held.small;
              sizes = held.sizes;
              stored = λ j lt. now (make_key j) ∙ held.stored j lt;
              shaped = λ k q. elim (held.shaped k q) [
                | inl gone ↦ inl (now k ∙ gone)
                | inr kept ↦ inr kept
              ];
            },
            λ q. refl,
          )
