-- ===== src/Diskstore/StumpStore/Tests.antt =====
-- Runs of the disk store of entries on a database in memory, and the theorems at concrete inputs.
use stumpt.Base.{ℕ, ◌≡◌, refl, arith, [], ◌∷◌, List, replicate, ok}
use stumpt.Base.Bytes.{Hash}
use stumpt.Base.Maps.{bytes_eq}
use stumpt.Stump.{Entry}
use stumpt.Diskstore.Encoding.EntryCodec.{IsEncodable}
use stumpt.Diskstore.Database.Memory.{memory, sorted}
use stumpt.Diskstore.Database.Batches.{write_chunks}
use stumpt.Diskstore.StumpStore.{new_disk_stump_store, append, get, numbered}
use stumpt.Diskstore.StumpStore.Reopen.{get-append-reopen}
use stumpt.Diskstore.StumpStore.History.{Write, one, multi, write_all, get-write_all_disk}

abbrev hash : ℕ → Hash
hash b = replicate 32 b

abbrev entry : ℕ → Entry
entry n = record {
  tx_id = hash n;
  subtree_idx = n;
  local_idx = 1;
  global_idx = 2;
  sibling_path = hash 5 ∷ [];
}

entry_one-IsEncodable : IsEncodable (entry 1)
entry_one-IsEncodable = omega arith

entry_two-IsEncodable : IsEncodable (entry 2)
entry_two-IsEncodable = omega arith

abbrev writes : List Write
writes = one (hash 7) (entry 1) ∷ multi ((hash 8, entry 1 ∷ []) ∷ (hash 7, entry 2 ∷ []) ∷ []) ∷ []

get-write_all_disk_example :
    get memory (hash 7) (write_all memory writes (new_disk_stump_store []))
    ≡ ok (entry 1 ∷ entry 2 ∷ [])
unfolding sorted write_chunks numbered new_disk_stump_store
get-write_all_disk_example =
    get-write_all_disk memory writes [] (hash 7) refl
      (
        (refl, (refl, (refl, tt))),
        (entry_one-IsEncodable, (entry_one-IsEncodable, (entry_two-IsEncodable, tt))),
      )
      (omega arith) refl refl

get-append-reopen_example :
    get memory (hash 7) (
      append memory
        (hash 7)
        (entry 2)
        (new_disk_stump_store (append memory (hash 7) (entry 1) (new_disk_stump_store [])).db))
    ≡ ok (entry 2 ∷ [])
unfolding sorted
get-append-reopen_example =
    get-append-reopen memory [] (hash 7) (entry 1) (entry 2) refl entry_two-IsEncodable refl refl
      refl
