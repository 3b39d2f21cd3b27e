-- ===== src/Stump/Store.antt =====
-- internal/stump/stump.go: Store, a map from XOR key to the entries added under it.
use mathlib.Core.List.{append-nil}
use stumpt.Base.{ℕ, ◌≡◌, refl, ap, List, [], ◌∷◌, ◌++◌, if◌then◌else◌, length, Bool-cases, inl, inr}
use stumpt.Base.Maps.{◌==◌, lookup, insert, bytes_eq, bytes_beq_iff, lookup-insert}
use stumpt.Stump.{Key, Entry, or_nil, StumpStore}

pub record Store : Type 0 where
  pub entries : List (Key × List Entry)

-- `s.entries[key] = append(s.entries[key], es...)`
abbrev pub extend : Key → List Entry → List (Key × List Entry) → List (Key × List Entry)
extend key es m = insert key (or_nil (lookup key m) ++ es) m

unfoldable pub new_store : Store
new_store = record { entries = [] }

unfoldable pub append : Key → Entry → Store → Store
append key e s = record { entries = extend key (e ∷ []) s.entries }

unfoldable pub append_batch : Key → List Entry → Store → Store
append_batch key [] s = s
append_batch key (e ∷ es) s = record { entries = extend key (e ∷ es) s.entries }

unfoldable pub get : Key → Store → List Entry
get key s = or_nil (lookup key s.entries)

unfoldable pub len : Store → ℕ
len s = length s.entries

pub or_nil-extend :
    (k j : Key) (es : List Entry) (m : List (Key × List Entry))
    → or_nil (lookup j (extend k es m))
      ≡ (if k == j then or_nil (lookup j m) ++ es else or_nil (lookup j m))
or_nil-extend k j es m = elim (Bool-cases (k == j)) [
  | inl same ↦
      let e = (bytes_beq_iff k j).0 same in
      rw (lookup-insert k j (or_nil (lookup k m) ++ es) m, same)
        (ap (λ x. or_nil (lookup x m) ++ es) e)
  | inr other ↦ rw (lookup-insert k j (or_nil (lookup k m) ++ es) m, other)
]

pub get-append_batch :
    (k j : Key) (es : List Entry) (s : Store)
    → get j (append_batch k es s) ≡ (if k == j then get j s ++ es else get j s)
unfolding get append_batch
get-append_batch k j [] s = elim (Bool-cases (k == j)) [
  | inl same ↦ rw (same, append-nil)
  | inr other ↦ rw other
]
get-append_batch k j (e ∷ es) s = or_nil-extend k j (e ∷ es) s.entries

pub get-append :
    (k j : Key) (e : Entry) (s : Store)
    → get j (append k e s) ≡ (if k == j then get j s ++ (e ∷ []) else get j s)
unfolding get append
get-append k j e s = or_nil-extend k j (e ∷ []) s.entries

pub get-new : (k : Key) → get k new_store ≡ []
unfolding get new_store lookup
get-new k = refl

instance abbrev pub store_is_stump_store : StumpStore Store
store_is_stump_store = record { append = append; append_batch = append_batch; get = get; len = len }
