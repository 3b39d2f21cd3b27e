-- ===== src/Diskstore/StumpStore/History.antt =====
-- internal/diskstore/stump_store.go: what DiskStumpStore holds after any sequence of writes.
use mathlib.Core.Path.{subst}
use mathlib.Core.List.{append-nil, append_assoc}
use stumpt.Base.{
  ◌+◌, ◌^◌, ◌≤◌, ◌<◌, ◌≡◌, refl, sym, ap, ◌∙◌, arith, Bool, true, false, ◌&&◌, List, [], ◌∷◌, ◌++◌,
  if◌then◌else◌, length, All, ok, length-append,
}
use stumpt.Base.Maps.{◌==◌, bytes_eq}
use stumpt.Stump.{Key, Entry}
use stumpt.Diskstore.Encoding.{marshal_entry}
use stumpt.Diskstore.Encoding.EntryCodec.{IsEncodable}
use stumpt.Diskstore.Keys.{make_db_key, make_prefix_key}
use stumpt.Diskstore.Database.{Database}
use stumpt.Diskstore.Database.Batches.{write_chunks, tried-write_chunks}
use stumpt.Diskstore.StumpStore.{
  DiskStumpStore, max_per_batch, add_seq, numbered, under_key, flatten, append, append_batch,
  append_multi_key_batch, get, new_disk_stump_store,
}
use stumpt.Diskstore.StumpStore.Numbering.{added}
use stumpt.Diskstore.StumpStore.Contents.{
  Holds, IsSound, get-Holds, added-under_key, length-under_key, length-numbered,
}
use stumpt.Diskstore.StumpStore.Writes.{append-Holds, append_batch-Holds, append_multi-Holds}
use stumpt.Diskstore.StumpStore.Reopen.{new-Holds}

pub data Write : Type 0 where
  one : Key → Entry → Write
  batch : Key → List Entry → Write
  multi : List (Key × List Entry) → Write

-- The entries of a write with their keys, in order.
abbrev pub entries : Write → List (Key × Entry)
entries (one k e) = (k, e) ∷ []
entries (batch k es) = under_key k es
entries (multi b) = flatten b

abbrev pub all_entries : List Write → List (Key × Entry)
all_entries [] = []
all_entries (w ∷ ws) = entries w ++ all_entries ws

encodable :
    (k : Key) (es : List Entry) → All (λ ke. IsEncodable ke.1) (under_key k es) → All IsEncodable es
encodable k [] a = tt
encodable k (e ∷ es) (v, a) = (v, encodable k es a)

All-split :
    (P : Key × Entry → Type 0) (xs ys : List (Key × Entry)) → All P (xs ++ ys) → All P xs × All P ys
All-split P [] ys a = (tt, a)
All-split P (x ∷ xs) ys (p, a) = let (l, r) = All-split P xs ys a in ((p, l), r)

IsSound-split : (xs ys : List (Key × Entry)) → IsSound (xs ++ ys) → IsSound xs × IsSound ys
IsSound-split xs ys (sizes, sound) =
    let (l, r) = All-split (λ ke. length ke.0 ≡ 32) xs ys sizes in
    let (v, w) = All-split (λ ke. IsEncodable ke.1) xs ys sound in ((l, v), (r, w))

added-append :
    (j : Key) (xs ys : List (Key × Entry)) → added j (xs ++ ys) ≡ added j xs ++ added j ys
added-append j [] ys = refl
added-append j ((k, e) ∷ xs) ys = step (k == j) (added-append j xs ys)
  where
    step :
        (same : Bool)
        → added j (xs ++ ys) ≡ added j xs ++ added j ys
        → (if same then e ∷ added j (xs ++ ys) else added j (xs ++ ys))
          ≡ (if same then e ∷ added j xs else added j xs) ++ added j ys
    step true ih = ap (◌∷◌ e) ih
    step false ih = ih

module _ {D : Type 0} (store : Database D) where
  abbrev pub write : Write → DiskStumpStore D → DiskStumpStore D
  write (one k e) s = append store k e s
  write (batch k es) s = append_batch store k es s
  write (multi b) s = append_multi_key_batch store b s

  abbrev pub write_all : List Write → DiskStumpStore D → DiskStumpStore D
  write_all [] s = s
  write_all (w ∷ ws) s = write_all ws (write w s)

  -- The database took the write.
  abbrev pub succeeds : Write → DiskStumpStore D → Bool
  succeeds (one k e) s =
      (store.transact ((make_db_key k (add_seq s.seq 1), marshal_entry e) ∷ []) s.db).1
  succeeds (batch k es) s = (store.write_batch (numbered s.seq (under_key k es)) s.db).1
  succeeds (multi b) s =
      (write_chunks store max_per_batch [] (numbered s.seq (flatten b)) s.db).done

  abbrev pub all_succeed : List Write → DiskStumpStore D → Bool
  all_succeed [] s = true
  all_succeed (w ∷ ws) s = succeeds w s && all_succeed ws (write w s)

  write-Holds :
      (w : Write) (s : DiskStumpStore D) (j : Key) (es : List Entry)
      → length j ≡ 32
      → IsSound (entries w)
      → s.seq + length (entries w) < 2 ^ 64
      → Holds store s j es
      → succeeds w s ≡ true
      → Holds store (write w s) j (es ++ added j (entries w))
        × ((write w s).seq ≤ s.seq + length (entries w))
  unfolding append append_batch append_multi_key_batch
  write-Holds (one k e) s j es size ((size_k, _), (v, _)) room held good = (
    subst (Holds store (append store k e s) j)
        (cases (k == j) (ap (λ b. if b && k == j then es ++ (e ∷ []) else es) good))
        (append-Holds store s j k e es size size_k v room held),
    omega arith,
  )
    where
      cases :
          (same : Bool)
          → {x : List Entry} → x ≡ (if same then es ++ (e ∷ []) else es)
          → x ≡ es ++ (if same then e ∷ [] else [])
      cases true h = h
      cases false h = h ∙ sym (append-nil es)
  write-Holds (batch k []) s j es size sound room held good =
      (subst (Holds store s j) (sym (append-nil es)) held, omega arith)
  write-Holds (batch k (e ∷ new)) s j es size ((size_k, sizes), (v, vs)) room held good = (
    subst (Holds store (append_batch store k (e ∷ new) s) j)
        (cases (k == j) ∙ ap (◌++◌ es) (sym (added-under_key j k (e ∷ new))))
        (append_batch-Holds store s j k (e ∷ new) es size size_k (encodable k (e ∷ new) (v, vs))
          (omega (arith, room, length-under_key k (e ∷ new))) held (λ h. good)),
    omega (
      arith,
      room,
      length-under_key k (e ∷ new),
      length-numbered s.seq (under_key k (e ∷ new)),
      (store.tried-bound (numbered s.seq (under_key k (e ∷ new))) s.db).0,
    ),
  )
    where
      cases :
          (same : Bool)
          → (if same then es ++ (e ∷ new) else es) ≡ es ++ (if same then e ∷ new else [])
      cases true = refl
      cases false = sym (append-nil es)
  write-Holds (multi []) s j es size sound room held good =
      (subst (Holds store s j) (sym (append-nil es)) held, omega arith)
  write-Holds (multi (b ∷ bs)) s j es size sound room held good = (
    append_multi-Holds store s j (b ∷ bs) es size sound room held good,
    omega (
      arith,
      room,
      length-numbered s.seq (flatten (b ∷ bs)),
      (tried-write_chunks store max_per_batch [] (numbered s.seq (flatten (b ∷ bs))) s.db).0,
    ),
  )

  write_all-Holds :
      (ws : List Write) (s : DiskStumpStore D) (j : Key) (es : List Entry)
      → length j ≡ 32
      → IsSound (all_entries ws)
      → s.seq + length (all_entries ws) < 2 ^ 64
      → Holds store s j es
      → all_succeed ws s ≡ true
      → Holds store (write_all ws s) j (es ++ added j (all_entries ws))
  write_all-Holds [] s j es size sound room held good =
      subst (Holds store s j) (sym (append-nil es)) held
  write_all-Holds (w ∷ ws) s j es size sound room held good =
      let (first, others) = IsSound-split (entries w) (all_entries ws) sound in
      let lengths = length-append (entries w) (all_entries ws) in
      let (good_first, good_others) = both (succeeds w s) (all_succeed ws (write w s)) good in
      let (step, le) =
        write-Holds w s j es size first (omega (arith, room, lengths)) held good_first in
      subst (Holds store (write_all ws (write w s)) j)
        (append_assoc es (added j (entries w)) (added j (all_entries ws))
          ∙ ap (◌++◌ es) (sym (added-append j (entries w) (all_entries ws))))
        (write_all-Holds ws (write w s) j (es ++ added j (entries w)) size others
          (omega (arith, le, room, lengths)) step good_others)
    where
      both : (a b : Bool) → (a && b) ≡ true → (a ≡ true) × (b ≡ true)
      both true b h = (refl, h)
      both false b h = cc

  -- After any sequence of Append, AppendBatch and AppendMultiKeyBatch on a new DiskStumpStore, Get
  -- returns the entries that were written under the key, in the order of the writes, provided that
  -- the database has nothing under the key before and takes every write, the XOR keys have 32 bytes,
  -- the entries fit the encoding, and they are fewer than 2 ^ 64. A batch with more than 50,000
  -- entries is cut as the code cuts it.
  pub get-write_all_disk :
      (ws : List Write) (db : D) (j : Key)
      → length j ≡ 32
      → IsSound (all_entries ws)
      → length (all_entries ws) < 2 ^ 64
      → store.scan (make_prefix_key j) db ≡ []
      → all_succeed ws (new_disk_stump_store db) ≡ true
      → get store j (write_all ws (new_disk_stump_store db)) ≡ ok (added j (all_entries ws))
  unfolding new_disk_stump_store
  get-write_all_disk ws db j size sound room empty good =
      get-Holds store (write_all ws (new_disk_stump_store db)) j (added j (all_entries ws)) (
        write_all-Holds ws (new_disk_stump_store db) j [] size sound (omega (arith, room))
          (new-Holds store db j empty) good)
