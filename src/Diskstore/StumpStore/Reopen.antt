-- ===== src/Diskstore/StumpStore/Reopen.antt =====
-- internal/diskstore/stump_store.go: NewDiskStumpStore starts its counter at 0, on any database.
use mathlib.Core.Path.{subst}
use stumpt.Base.{◌≡◌, sym, ap, arith, true, List, [], ◌∷◌, length, map, All, ok, if_true}
use stumpt.Base.Maps.{bytes_eq, beq_refl}
use stumpt.Stump.{Key, Entry}
use stumpt.Diskstore.Encoding.{marshal_entry}
use stumpt.Diskstore.Encoding.EntryCodec.{IsEncodable}
use stumpt.Diskstore.Keys.{make_db_key, make_prefix_key, compare_keys, less}
use stumpt.Diskstore.Keys.Ordering.{Pair}
use stumpt.Diskstore.Database.{Bytes, Database, written}
use stumpt.Diskstore.StumpStore.{numbered, append, get, new_disk_stump_store}
use stumpt.Diskstore.StumpStore.Contents.{Holds, value, get-Holds, puts-Holds}

module _ {D : Type 0} (store : Database D) where
  pub new-Holds :
      (db : D) (j : Key)
      → store.scan (make_prefix_key j) db ≡ []
      → Holds store (new_disk_stump_store db) j []
  unfolding new_disk_stump_store
  new-Holds db j empty = record {
    small = omega arith;
    values = ap (map value) empty;
    encodable = tt;
    below = λ i lo hi.
        subst (λ ps. All (λ (p : Pair). compare_keys p.0 (make_db_key j i) ≡ less) ps) (sym empty)
          tt;
  }

  -- The put with which a new store appends its first entry.
  abbrev first_put : Key → Entry → List Pair
  first_put k e = (make_db_key k 1, marshal_entry e) ∷ []

  -- A DiskStumpStore opened anew on the database of another one overwrites: when the first store
  -- appended an entry under a 32-byte key with nothing under it, the second appends another that fits
  -- the encoding, and the database takes both writes, then Get returns the second entry alone.
  pub get-append-reopen :
      (db : D) (k : Key) (e0 e1 : Entry)
      → length k ≡ 32
      → IsEncodable e1
      → store.scan (make_prefix_key k) db ≡ []
      → (store.transact (first_put k e0) db).1 ≡ true
      → (store.transact (first_put k e1) (append store k e0 (new_disk_stump_store db)).db).1 ≡ true
      → get store k (
          append store k e1 (new_disk_stump_store (append store k e0 (new_disk_stump_store db)).db))
        ≡ ok (e1 ∷ [])
  unfolding append new_disk_stump_store numbered
  get-append-reopen db k e0 e1 size sound empty good0 good1 =
      get-Holds store (append store k e1 (new_disk_stump_store before)) k (e1 ∷ []) (
        subst (Holds store (append store k e1 (new_disk_stump_store before)) k)
          (if_true [] (beq_refl k))
          (puts-Holds store (new_disk_stump_store db) k [] ((k, e1) ∷ [])
            (store.transact (first_put k e1) before).0 1 size (new-Holds db k empty)
            ((size, tt), (sound, tt)) (omega arith) (omega arith) law))
    where
      before : D
      before = (store.transact (first_put k e0) db).0

      law :
          (x : Bytes)
          → store.get x (store.transact (first_put k e1) before).0
            ≡ written x (first_put k e1) (store.get x db)
      law x = ground (
        arith,
        store.get-transact (first_put k e1) x before,
        store.get-transact (first_put k e0) x db,
        good0,
        good1,
      )
