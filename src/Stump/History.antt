-- ===== src/Stump/History.antt =====
-- internal/stump: what the two stores in memory hold after any sequence of writes.
use mathlib.Core.List.{append-nil, append_assoc}
use stumpt.Base.{
  ℕ, ◌+◌, ◌≡◌, arith, ap, sym, ◌∙◌, List, [], ◌∷◌, ◌++◌, length, if◌then◌else◌, Bool-cases, inl,
  inr,
}
use stumpt.Base.Maps.{◌==◌, bytes_eq}
use stumpt.Stump.{Key, Entry, StumpStore}
use stumpt.Stump.Store
use stumpt.Stump.Store.{Store, store_is_stump_store, new_store}
use stumpt.Stump.MemStore
use stumpt.Stump.MemStore.{MemStumpStore, mem_store_is_stump_store, new_mem_stump_store}

pub data Write : Type 0 where
  one : Key → Entry → Write
  batch : Key → List Entry → Write

-- The entries that the writes add under a key, in order.
unfoldable pub added : Key → List Write → List Entry
added j [] = []
added j (one k e ∷ ws) = if k == j then e ∷ added j ws else added j ws
added j (batch k es ∷ ws) = if k == j then es ++ added j ws else added j ws

-- How many entries the writes add.
unfoldable pub num_added : List Write → ℕ
num_added [] = 0
num_added (one k e ∷ ws) = 1 + num_added ws
num_added (batch k es ∷ ws) = length es + num_added ws

module _ {S : Type 0} ⦃store : StumpStore S⦄ where
  unfoldable pub write_all : List Write → S → S
  write_all [] s = s
  write_all (one k e ∷ ws) s = write_all ws (store.append k e s)
  write_all (batch k es ∷ ws) s = write_all ws (store.append_batch k es s)

-- One write puts its entries behind those of its key.
record IsOrdered {S : Type 0} (store : StumpStore S) : Type 0 where
  get-append :
      (k j : Key) (e : Entry) (s : S)
      → store.get j (store.append k e s)
        ≡ (if k == j then store.get j s ++ (e ∷ []) else store.get j s)
  get-append_batch :
      (k j : Key) (es : List Entry) (s : S)
      → store.get j (store.append_batch k es s)
        ≡ (if k == j then store.get j s ++ es else store.get j s)

write_all-get :
    {S : Type 0} (store : StumpStore S) (laws : IsOrdered store) (ws : List Write) (j : Key) (s : S)
    → store.get j (write_all ⦃store = store⦄ ws s) ≡ store.get j s ++ added j ws
unfolding write_all added
write_all-get store laws [] j s = sym (append-nil (store.get j s))
write_all-get store laws (one k e ∷ ws) j s = elim (Bool-cases (k == j)) [
  | inl same ↦
      write_all-get store laws ws j (store.append k e s)
      ∙ rw (laws.get-append k j e s, same, append_assoc)
  | inr other ↦
      write_all-get store laws ws j (store.append k e s) ∙ rw (laws.get-append k j e s, other)
]
write_all-get store laws (batch k es ∷ ws) j s = elim (Bool-cases (k == j)) [
  | inl same ↦
      write_all-get store laws ws j (store.append_batch k es s)
      ∙ rw (laws.get-append_batch k j es s, same, append_assoc)
  | inr other ↦
      write_all-get store laws ws j (store.append_batch k es s)
      ∙ rw (laws.get-append_batch k j es s, other)
]

store-IsOrdered : IsOrdered store_is_stump_store
store-IsOrdered = record {
  get-append = Store.get-append;
  get-append_batch = Store.get-append_batch;
}

mem_store-IsOrdered : IsOrdered mem_store_is_stump_store
mem_store-IsOrdered = record {
  get-append = MemStore.get-append;
  get-append_batch = MemStore.get-append_batch;
}

n-write_all :
    (ws : List Write) (s : MemStumpStore)
    → (write_all ⦃store = mem_store_is_stump_store⦄ ws s).n ≡ s.n + num_added ws
unfolding write_all num_added MemStore.append MemStore.append_batch
n-write_all [] s = omega arith
n-write_all (one k e ∷ ws) s = omega (arith, n-write_all ws (MemStore.append k e s))
n-write_all (batch k es ∷ ws) s = omega (arith, n-write_all ws (MemStore.append_batch k es s))

-- After any writes to a new Store, and to a new MemStumpStore, Get returns the entries written under
-- the key, in the order of the writes, and the counter of a MemStumpStore is the number of entries
-- written under all keys.
pub get-write_all :
    (ws : List Write) (j : Key)
    → (Store.get j (write_all ⦃store = store_is_stump_store⦄ ws new_store) ≡ added j ws)
      × (MemStore.get j (write_all ⦃store = mem_store_is_stump_store⦄ ws new_mem_stump_store)
          ≡ added j ws)
      × ((write_all ⦃store = mem_store_is_stump_store⦄ ws new_mem_stump_store).n ≡ num_added ws)
unfolding new_mem_stump_store
get-write_all ws j = (
  write_all-get store_is_stump_store store-IsOrdered ws j new_store
      ∙ ap (λ x. x ++ added j ws) (Store.get-new j),
  write_all-get mem_store_is_stump_store mem_store-IsOrdered ws j new_mem_stump_store
      ∙ ap (λ x. x ++ added j ws) (MemStore.get-new j),
  n-write_all ws new_mem_stump_store ∙ omega arith,
)
