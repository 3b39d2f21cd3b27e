-- ===== src/Stump/MemStore.antt =====
-- internal/stump/mem_stump_store.go: MemStumpStore.
use stumpt.Base.{ℕ, suc, ◌+◌, ◌≡◌, refl, arith, none, List, [], ◌∷◌, ◌++◌, length, if◌then◌else◌}
use stumpt.Base.Maps.{◌==◌, lookup, bytes_eq, length-insert}
use stumpt.Stump.{Key, Entry, or_nil, StumpStore}
use mathlib.Core.List.{append-nil}
use stumpt.Stump.Store
use stumpt.Stump.Store.{Store, extend, or_nil-extend}

-- `n` counts the entries under all keys.
pub record MemStumpStore : Type 0 where
  pub m : List (Key × List Entry)
  pub n : ℕ

unfoldable pub new_mem_stump_store : MemStumpStore
new_mem_stump_store = record { m = []; n = 0 }

unfoldable pub append : Key → Entry → MemStumpStore → MemStumpStore
append key e s = record { m = extend key (e ∷ []) s.m; n = s.n + 1 }

unfoldable pub append_batch : Key → List Entry → MemStumpStore → MemStumpStore
append_batch key es s = record { m = extend key es s.m; n = s.n + length es }

unfoldable pub get : Key → MemStumpStore → List Entry
get key s = or_nil (lookup key s.m)

unfoldable pub len : MemStumpStore → ℕ
len s = length s.m

pub get-append :
    (k j : Key) (e : Entry) (s : MemStumpStore)
    → get j (append k e s) ≡ (if k == j then get j s ++ (e ∷ []) else get j s)
unfolding get append
get-append k j e s = or_nil-extend k j (e ∷ []) s.m

pub get-append_batch :
    (k j : Key) (es : List Entry) (s : MemStumpStore)
    → get j (append_batch k es s) ≡ (if k == j then get j s ++ es else get j s)
unfolding get append_batch
get-append_batch k j es s = or_nil-extend k j es s.m

pub get-new : (k : Key) → get k new_mem_stump_store ≡ []
unfolding get new_mem_stump_store lookup
get-new k = refl

instance abbrev pub mem_store_is_stump_store : StumpStore MemStumpStore
mem_store_is_stump_store = record {
  append = append;
  append_batch = append_batch;
  get = get;
  len = len;
}

-- An empty batch under a key that is not in the map adds the key to a MemStumpStore, so that Len
-- grows by one, and leaves a Store as it is. What Get returns is the same before and after.
pub append_batch-empty :
    (k j : Key) (s : MemStumpStore) (t : Store)
    → lookup k s.m ≡ none
    → (len (append_batch k [] s) ≡ suc (len s))
      × (Store.len (Store.append_batch k [] t) ≡ Store.len t)
      × (get j (append_batch k [] s) ≡ get j s)
unfolding len append_batch Store.append_batch
append_batch-empty k j s t h = (
  ground (arith, length-insert k (or_nil (lookup k s.m) ++ []) s.m),
  refl,
  ground (arith, get-append_batch k j [] s, append-nil (get j s)),
)
