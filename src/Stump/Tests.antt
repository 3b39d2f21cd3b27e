-- ===== src/Stump/Tests.antt =====
-- Runs of the stores and of Discover, and the theorems at concrete inputs.
use stumpt.Base.{ℕ, suc, ◌≡◌, refl, List, [], ◌∷◌, true, false, replicate, if◌then◌else◌}
use stumpt.Base.Bytes.{Hash}
use stumpt.Base.Maps.{◌==◌, lookup, insert, bytes_eq}
use stumpt.Stump.{Token, Entry, xor_key, token_hash}
use stumpt.Stump.Store
use stumpt.Stump.Store.{Store, store_is_stump_store}
use stumpt.Stump.MemStore
use stumpt.Stump.MemStore.{
  MemStumpStore, mem_store_is_stump_store, new_mem_stump_store, append_batch-empty,
}
use stumpt.Stump.Store.{new_store}
use stumpt.Stump.History.{Write, one, batch, added, num_added, write_all, get-write_all}
use stumpt.Stump.Xor.{IsBytewiseXor, xor_key-IsBytewiseXor}
use stumpt.Stump.Registry.{
  TokenRegistry, register, hash, contains, registered, IsValid, register-IsValid, new-IsValid,
  new_token_registry,
}
use stumpt.Stump.Discovery.{
  found_for, discover, stored_for, discover-stored_for, probe, probe_tokens, probe_roots,
}

abbrev digest : List ℕ → List ℕ
digest [] = replicate 32 1
digest (b ∷ bs) = b ∷ replicate 31 b

abbrev root : ℕ → Hash
root n = replicate 32 n

abbrev entry : ℕ → Entry
entry n = record {
  tx_id = root n;
  subtree_idx = 0;
  local_idx = n;
  global_idx = n;
  sibling_path = root 9 ∷ [];
}

abbrev alice : Token
alice = 97 ∷ []

abbrev registry : TokenRegistry
registry = (register digest alice new_token_registry).0

xor_run : xor_key (root 5) (root 6) ≡ root 3
unfolding xor_key
xor_run = refl

xor_key-IsBytewiseXor_example : IsBytewiseXor (root 5) (root 6)
xor_key-IsBytewiseXor_example = xor_key-IsBytewiseXor (root 5) (root 6) refl refl

abbrev writes : List Write
writes =
    one (xor_key (root 97) (root 7)) (entry 1)
    ∷ batch (root 2) []
    ∷ batch (xor_key (root 97) (root 7)) (entry 2 ∷ entry 3 ∷ [])
    ∷ []

get-write_all_example :
    (Store.get (root 2) (write_all ⦃store = store_is_stump_store⦄ writes new_store)
      ≡ added (root 2) writes)
    × (MemStore.get
          (root 2)
          (write_all ⦃store = mem_store_is_stump_store⦄ writes new_mem_stump_store)
        ≡ added (root 2) writes)
    × ((write_all ⦃store = mem_store_is_stump_store⦄ writes new_mem_stump_store).n
        ≡ num_added writes)
get-write_all_example = get-write_all writes (root 2)

append_batch-empty_example :
    (MemStore.len (MemStore.append_batch (root 1) [] new_mem_stump_store)
      ≡ suc (MemStore.len new_mem_stump_store))
    × (Store.len (Store.append_batch (root 1) [] new_store) ≡ Store.len new_store)
    × (MemStore.get (root 2) (MemStore.append_batch (root 1) [] new_mem_stump_store)
        ≡ MemStore.get (root 2) new_mem_stump_store)
unfolding new_mem_stump_store lookup
append_batch-empty_example = append_batch-empty (root 1) (root 2) new_mem_stump_store new_store refl

registry-IsValid : IsValid digest registry
registry-IsValid = (register-IsValid digest alice new_token_registry (new-IsValid digest)).0

register-IsValid_example :
    IsValid digest registry
    × ((register digest alice new_token_registry).1 ≡ token_hash digest alice)
    × (hash alice registry ≡ (token_hash digest alice, true))
    × ((u : Token) → (alice == u) ≡ false → hash u registry ≡ hash u new_token_registry)
register-IsValid_example = register-IsValid digest alice new_token_registry (new-IsValid digest)

discover-stored_for_example :
    found_for alice (
      discover ⦃store = store_is_stump_store⦄
        (write_all ⦃store = store_is_stump_store⦄ writes new_store)
        registry
        (root 7 ∷ []))
    ≡ (if contains alice (registered registry)
        then stored_for ⦃store = store_is_stump_store⦄ digest
            (write_all ⦃store = store_is_stump_store⦄ writes new_store)
            alice
            (root 7 ∷ [])
        else [])
discover-stored_for_example =
    discover-stored_for store_is_stump_store digest
      (write_all ⦃store = store_is_stump_store⦄ writes new_store) registry (root 7 ∷ []) alice
      registry-IsValid

discover_run :
    found_for alice (
      discover ⦃store = store_is_stump_store⦄
        (write_all ⦃store = store_is_stump_store⦄ writes new_store)
        registry
        (root 8 ∷ root 7 ∷ []))
    ≡ entry 1 ∷ entry 2 ∷ entry 3 ∷ []
unfolding discover probe_roots probe_tokens probe registered hash register new_token_registry
    write_all Store.append Store.append_batch Store.get new_store xor_key token_hash lookup insert
discover_run = refl
