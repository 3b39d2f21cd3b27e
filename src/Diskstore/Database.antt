-- ===== src/Diskstore/Database.antt =====
-- What internal/diskstore relies on in Badger, the key-value store behind db.go: reads, transactions,
-- write batches and scans in key order. A transaction or a batch answers whether it succeeded.
pub mod Memory
pub mod Batches
use stumpt.Base.{
  ℕ, ◌≤◌, ◌≡◌, length, Bool, true, false, Option, none, some, List, [], ◌∷◌, ltb, if◌then◌else◌,
  ◌==◌, ◌&&◌, ◌||◌, arith, refl, ap,
}
use stumpt.Base.Maps.{◌==◌ as key_beq, bytes_eq, lookup, keys, member}
use stumpt.Diskstore.Keys.Ordering.{Pair, IsAscending}

abbrev pub Bytes : Type 0
Bytes = List ℕ

abbrev pub has_prefix : Bytes → Bytes → Bool
has_prefix [] k = true
has_prefix (p ∷ ps) [] = false
has_prefix (p ∷ ps) (b ∷ k) = p == b && has_prefix ps k

-- What a key holds once pairs were put one after the other.
abbrev pub written : Bytes → List Pair → Option Bytes → Option Bytes
written k [] old = old
written k ((j, v) ∷ ps) old = written k ps (if key_beq j k then some v else old)

pub written_other :
    (k : Bytes) (ps : List Pair) (old : Option Bytes)
    → member k (keys ps) ≡ false
    → written k ps old ≡ old
written_other k [] old h = refl
written_other k ((j, v) ∷ ps) old h = ground (
  arith,
  written_other k ps old,
  ap (written k ps) {x = if key_beq j k then some v else old} {y = old},
)

pub record Database (D : Type 0) : Type 0 where
  pub get : Bytes → D → Option Bytes
  -- One transaction that puts the pairs.
  pub transact : List Pair → D → D × Bool
  -- `NewWriteBatch`, a `Set` for each pair, and `Flush`, or `Cancel` at the first failure.
  pub write_batch : List Pair → D → D × Bool
  -- How many of the pairs a `Set` was called for: all, or those up to the first that failed.
  pub tried : List Pair → D → ℕ
  -- The pairs under a prefix, as an iterator yields them.
  pub scan : Bytes → D → List Pair
  pub get-transact :
      (ps : List Pair) (k : Bytes) (d : D)
      → get k (transact ps d).0 ≡ (if (transact ps d).1 then written k ps (get k d) else get k d)
  pub get-write_batch :
      (ps : List Pair) (k : Bytes) (d : D)
      → (write_batch ps d).1 ≡ true
      → get k (write_batch ps d).0 ≡ written k ps (get k d)
  -- Succeeded or not: a failed batch may have written a part, and only its own keys.
  pub get-unwritten :
      (ps : List Pair) (k : Bytes) (d : D)
      → member k (keys ps) ≡ false
      → get k (write_batch ps d).0 ≡ get k d
  pub tried-bound :
      (ps : List Pair) (d : D)
      → (tried ps d ≤ length ps) × ((write_batch ps d).1 ≡ true → tried ps d ≡ length ps)
  pub scan-IsAscending : (prefix : Bytes) (d : D) → IsAscending (scan prefix d)
  pub lookup-scan :
      (prefix k : Bytes) (d : D)
      → lookup k (scan prefix d) ≡ (if has_prefix prefix k then get k d else none)
