-- ===== src/Diskstore/StumpStore/Writes.antt =====
-- internal/diskstore/stump_store.go: what DiskStumpStore holds under a key after a write.
use mathlib.Core.Path.{subst}
use mathlib.Core.List.{append-nil}
use stumpt.Base.{
  if_true, if_false, ℕ, ◌+◌, ◌^◌, ◌≤◌, ◌<◌, ◌≡◌, refl, sym, ap, ◌∙◌, arith, Bool, true, false, ◌&&◌,
  List, [], ◌∷◌, ◌++◌, if◌then◌else◌, length, All,
}
use stumpt.Base.Maps.{◌==◌, bytes_eq}
use stumpt.Stump.{Key, Entry}
use stumpt.Diskstore.Encoding.{marshal_entry}
use stumpt.Diskstore.Encoding.EntryCodec.{IsEncodable}
use stumpt.Diskstore.Keys.{make_db_key}
use stumpt.Diskstore.Keys.Ordering.{Pair}
use stumpt.Diskstore.Database.{Database, written}
use stumpt.Diskstore.Database.Batches.{Outcome, write_chunks, get-write_chunks, tried-write_chunks}
use stumpt.Diskstore.StumpStore.{
  DiskStumpStore, max_per_batch, add_seq, numbered, under_key, flatten, append, append_batch,
  append_multi_key_batch,
}
use stumpt.Diskstore.StumpStore.Numbering.{added}
use stumpt.Diskstore.StumpStore.Contents.{
  Holds, IsSound, puts-Holds, unchanged-Holds, length-numbered, length-under_key, under_key-IsSound,
  added-under_key, not_under_key,
}

module _ {D : Type 0} (store : Database D) where
  pub append-Holds :
      (s : DiskStumpStore D) (j k : Key) (e : Entry) (es : List Entry)
      → length j ≡ 32
      → length k ≡ 32
      → IsEncodable e
      → s.seq + 1 < 2 ^ 64
      → Holds store s j es
      → Holds store (append store k e s) j (
          if (store.transact ((make_db_key k (add_seq s.seq 1), marshal_entry e) ∷ []) s.db).1
            && k == j
          then es ++ (e ∷ [])
          else es)
  unfolding append numbered
  append-Holds s j k e es size_j size_k sound room held = finish put.1 (k == j) refl refl
    where
      puts : List Pair
      puts = (make_db_key k (add_seq s.seq 1), marshal_entry e) ∷ []

      put : D × Bool
      put = store.transact puts s.db

      done :
          put.1 ≡ true
          → Holds store
              (record { db = put.0; seq = add_seq s.seq 1 })
              j
              (es ++ added j ((k, e) ∷ []))
      done g =
          puts-Holds store s j es ((k, e) ∷ []) put.0 (add_seq s.seq 1) size_j held
            ((size_k, tt), (sound, tt)) room (omega arith)
            (λ x. store.get-transact puts x s.db ∙ if_true (store.get x s.db) g)

      finish :
          (good same : Bool)
          → put.1 ≡ good
          → (k == j) ≡ same
          → Holds store
              (record { db = put.0; seq = add_seq s.seq 1 })
              j
              (if good && same then es ++ (e ∷ []) else es)
      finish false same g h =
          unchanged-Holds store s j es put.0 (add_seq s.seq 1) held (omega arith) (omega arith)
            (λ x p. store.get-transact puts x s.db ∙ if_false (written x puts (store.get x s.db)) g)
      finish true true g h =
          subst (Holds store (record { db = put.0; seq = add_seq s.seq 1 }) j)
            (ap (◌++◌ es) (if_true [] h)) (done g)
      finish true false g h =
          subst (Holds store (record { db = put.0; seq = add_seq s.seq 1 }) j)
            (ap (◌++◌ es) (if_false (e ∷ []) h) ∙ append-nil es) (done g)

  tried_seq : (n t : ℕ) (seq : ℕ) → t ≤ n → seq + n < 2 ^ 64 → add_seq seq t ≡ seq + t
  tried_seq n t seq le room = omega arith

  pub append_batch-Holds :
      (s : DiskStumpStore D) (j k : Key) (new es : List Entry)
      → length j ≡ 32
      → length k ≡ 32
      → All IsEncodable new
      → s.seq + length new < 2 ^ 64
      → Holds store s j es
      → ((k == j) ≡ true → (store.write_batch (numbered s.seq (under_key k new)) s.db).1 ≡ true)
      → Holds store (append_batch store k new s) j (if k == j then es ++ new else es)
  unfolding append_batch
  append_batch-Holds s j k [] es size_j size_k sound room held good = step (k == j)
    where
      step : (b : Bool) → Holds store s j (if b then es ++ [] else es)
      step true = subst (Holds store s j) (sym (append-nil es)) held
      step false = held
  append_batch-Holds s j k (e ∷ new) es size_j size_k sound room held good = step (k == j) refl
    where
      kes : List (Key × Entry)
      kes = under_key k (e ∷ new)

      puts : List Pair
      puts = numbered s.seq kes

      put : D × Bool
      put = store.write_batch puts s.db

      seq : ℕ
      seq = add_seq s.seq (store.tried puts s.db)

      counted : length puts ≡ length new + 1
      counted = omega (arith, length-numbered s.seq kes, length-under_key k (e ∷ new))

      same_room : s.seq + length kes < 2 ^ 64
      same_room = omega (arith, room, length-under_key k (e ∷ new))

      step :
          (b : Bool)
          → (k == j) ≡ b
          → Holds store (record { db = put.0; seq = seq }) j (if b then es ++ (e ∷ new) else es)
      step true h =
          subst (Holds store (record { db = put.0; seq = seq }) j)
            (ap (◌++◌ es) (added-under_key j k (e ∷ new) ∙ if_true [] h))
            (puts-Holds store s j es kes put.0 seq size_j held
              (under_key-IsSound k (e ∷ new) size_k sound) same_room
              (ap (add_seq s.seq)
                  ((store.tried-bound puts s.db).1 (good h) ∙ length-numbered s.seq kes)
                ∙ tried_seq (length kes) (length kes) s.seq (omega arith) same_room)
              (λ x. store.get-write_batch puts x s.db (good h)))
      step false h =
          let le = (store.tried-bound puts s.db).0 in
          let seq_eq =
            tried_seq (length puts) (store.tried puts s.db) s.seq le
              (omega (arith, counted, room)) in
          unchanged-Holds store s j es put.0 seq held (omega (arith, seq_eq))
            (omega (arith, seq_eq, le, counted, room))
            (λ x p.
              store.get-unwritten puts x s.db
                (not_under_key j k s.seq (e ∷ new) x (size_j ∙ sym size_k) h p))

  pub append_multi-Holds :
      (s : DiskStumpStore D) (j : Key) (batch : List (Key × List Entry)) (es : List Entry)
      → length j ≡ 32
      → IsSound (flatten batch)
      → s.seq + length (flatten batch) < 2 ^ 64
      → Holds store s j es
      → (write_chunks store max_per_batch [] (numbered s.seq (flatten batch)) s.db).done ≡ true
      → Holds store (append_multi_key_batch store batch s) j (es ++ added j (flatten batch))
  unfolding append_multi_key_batch
  append_multi-Holds s j [] es size sound room held good =
      subst (Holds store s j) (sym (append-nil es)) held
  append_multi-Holds s j (b ∷ bs) es size sound room held good =
      puts-Holds store s j es kes r.db (add_seq s.seq r.tried) size held sound room
        (ap (add_seq s.seq) (
            (tried-write_chunks store max_per_batch [] puts s.db).1 good
            ∙ length-numbered s.seq kes)
          ∙ tried_seq (length kes) (length kes) s.seq (omega arith) room)
        (λ x. get-write_chunks store max_per_batch [] puts x s.db good)
    where
      kes : List (Key × Entry)
      kes = flatten (b ∷ bs)

      puts : List Pair
      puts = numbered s.seq kes

      r : Outcome D
      r = write_chunks store max_per_batch [] puts s.db
