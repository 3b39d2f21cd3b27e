-- ===== src/Diskstore/StumpStore.antt =====
-- internal/diskstore/stump_store.go: DiskStumpStore. A batch over a Go map is the list of its keys and
-- entries in the order in which the loop meets them.
pub mod Scans
pub mod Numbering
pub mod Contents
pub mod Writes
pub mod Reopen
pub mod History
mod Tests
use stumpt.Base.{
  ℕ, zero, suc, ◌+◌, ◌%◌, ◌^◌, Bool, true, false, List, [], ◌∷◌, ◌++◌, map, ltb, if◌then◌else◌,
  length, take, drop, Run, ok, err, panic, ◌>>=◌,
}
use stumpt.Base.Maps.{bytes_eq, insert}
use stumpt.Stump.{Key, Entry}
use stumpt.Diskstore.Encoding.{Error, marshal_entry, unmarshal_entry}
use stumpt.Diskstore.Keys.{make_db_key, make_prefix_key}
use stumpt.Diskstore.Keys.Ordering.{Pair}
use stumpt.Diskstore.Database.{Bytes, Database}
use stumpt.Diskstore.Database.Batches.{write_chunks}

pub record DiskStumpStore (D : Type 0) : Type 0 where
  pub db : D
  pub seq : ℕ

-- `stumpPrefix` alone.
abbrev pub stump_prefix : Bytes
stump_prefix = b's' ∷ []

abbrev pub max_per_batch : ℕ
max_per_batch = 50000

-- `seq.Add(n)`
abbrev pub add_seq : ℕ → ℕ → ℕ
add_seq seq n = (seq + n) % 2 ^ 64

unfoldable pub new_disk_stump_store : {D : Type 0} → D → DiskStumpStore D
new_disk_stump_store db = record { db = db; seq = 0 }

-- The puts of entries, each with the next sequence number.
unfoldable pub numbered : ℕ → List (Key × Entry) → List Pair
numbered seq [] = []
numbered seq ((key, e) ∷ entries) =
    (make_db_key key (add_seq seq 1), marshal_entry e) ∷ numbered (add_seq seq 1) entries

abbrev pub under_key : Key → List Entry → List (Key × Entry)
under_key key entries = map (λ e. (key, e)) entries

abbrev pub flatten : List (Key × List Entry) → List (Key × Entry)
flatten [] = []
flatten ((key, entries) ∷ batch) = under_key key entries ++ flatten batch

-- The loop of Get: a corrupt entry is skipped.
unfoldable pub entries_of : List Pair → Run Error (List Entry)
entries_of [] = ok []
entries_of ((k, val) ∷ items) =
    let rest = entries_of items in
    elim (unmarshal_entry val) [
      | ok e ↦ rest >>= (λ es. ok (e ∷ es))
      | err x ↦ rest
      | panic ↦ panic
    ]

-- The loop of Len.
unfoldable pub seen_keys : List Pair → List (Key × Bool) → List (Key × Bool)
seen_keys [] seen = seen
seen_keys ((k, val) ∷ items) seen =
    seen_keys items (if ltb (length k) 33 then seen else insert (take 32 (drop 1 k)) true seen)

module _ {D : Type 0} (store : Database D) where
  unfoldable pub append : Key → Entry → DiskStumpStore D → DiskStumpStore D
  append key e s =
      let seq = add_seq s.seq 1 in
      record {
        db = (store.transact ((make_db_key key seq, marshal_entry e) ∷ []) s.db).0;
        seq = seq;
      }

  unfoldable pub append_batch : Key → List Entry → DiskStumpStore D → DiskStumpStore D
  append_batch key [] s = s
  append_batch key (e ∷ es) s =
      let puts = numbered s.seq (under_key key (e ∷ es)) in
      record { db = (store.write_batch puts s.db).0; seq = add_seq s.seq (store.tried puts s.db) }

  unfoldable pub append_multi_key_batch :
      List (Key × List Entry) → DiskStumpStore D → DiskStumpStore D
  append_multi_key_batch [] s = s
  append_multi_key_batch (b ∷ bs) s =
      let r = write_chunks store max_per_batch [] (numbered s.seq (flatten (b ∷ bs))) s.db in
      record { db = r.db; seq = add_seq s.seq r.tried }

  unfoldable pub get : Key → DiskStumpStore D → Run Error (List Entry)
  get key s = entries_of (store.scan (make_prefix_key key) s.db)

  unfoldable pub len : DiskStumpStore D → ℕ
  len s = length (seen_keys (store.scan stump_prefix s.db) [])
