-- ===== src/Diskstore/Database/Batches.antt =====
-- internal/diskstore: the write loops of stump_store.go and fragment.go, which flush a batch whenever it
-- has 50,000 entries.
use mathlib.Core.List.{append-nil, append_assoc}
use stumpt.Base.{
  ℕ, ◌+◌, ◌≤◌, ◌≡◌, refl, sym, ap, ◌∙◌, arith, Bool, true, false, ◌||◌, Option, some, List, [], ◌∷◌,
  ◌++◌, leb, ltb, if◌then◌else◌, length, length-append,
}
use stumpt.Base.Maps.{◌==◌, bytes_eq, keys, member}
use stumpt.Diskstore.Keys.Ordering.{Pair}
use stumpt.Diskstore.Database.{Bytes, Database, written}

pub record Outcome (D : Type 0) : Type 0 where
  pub db : D
  pub done : Bool
  -- The pairs for which a `Set` was called.
  pub tried : ℕ

nothing : (ps : List Pair) → ltb 0 (length ps) ≡ false → ps ≡ []
nothing [] e = refl
nothing (p ∷ ps) e = absurd (ground arith)

written-append :
    (k : Bytes) (xs ys : List Pair) (old : Option Bytes)
    → written k (xs ++ ys) old ≡ written k ys (written k xs old)
written-append k [] ys old = refl
written-append k ((j, v) ∷ xs) ys old = written-append k xs ys (if j == k then some v else old)

member-append :
    (k : Bytes) (xs ys : List Pair)
    → member k (keys (xs ++ ys)) ≡ (member k (keys xs) || member k (keys ys))
member-append k [] ys = refl
member-append k ((j, v) ∷ xs) ys = ground (arith, member-append k xs ys)

module _ {D : Type 0} (store : Database D) where
  abbrev one_batch : List Pair → D → Outcome D
  one_batch ps d =
      let (after, good) = store.write_batch ps d in
      record { db = after; done = good; tried = store.tried ps d }

  -- The loop with `pending` in the batch.
  unfoldable pub write_chunks : ℕ → List Pair → List Pair → D → Outcome D
  write_chunks limit pending [] d =
      if ltb 0 (length pending)
      then one_batch pending d
      else record { db = d; done = true; tried = 0 }
  write_chunks limit pending (p ∷ ps) d =
      let grown = pending ++ (p ∷ []) in
      elim (leb limit (length grown)) [
        | true ↦
            let first = one_batch grown d in
            let rest = write_chunks limit [] ps first.db in
            if first.done then record rest { tried = first.tried + rest.tried } else first
        | false ↦ write_chunks limit grown ps d
      ]

  pub get-write_chunks :
      (limit : ℕ) (pending ps : List Pair) (k : Bytes) (d : D)
      → (write_chunks limit pending ps d).done ≡ true
      → store.get k (write_chunks limit pending ps d).db ≡ written k (pending ++ ps) (store.get k d)
  unfolding write_chunks
  get-write_chunks limit pending [] k d h =
      step (ltb 0 (length pending)) refl h
      ∙ sym (ap (λ ps. written k ps (store.get k d)) (append-nil pending))
    where
      step :
          (any : Bool)
          → ltb 0 (length pending) ≡ any
          → let r : Outcome D =
              if any then one_batch pending d else record { db = d; done = true; tried = 0 } in
            r.done ≡ true → store.get k r.db ≡ written k pending (store.get k d)
      step true e h = store.get-write_batch pending k d h
      step false e h = sym (ap (λ ps. written k ps (store.get k d)) (nothing pending e))
  get-write_chunks limit pending (p ∷ ps) k d h =
      step (leb limit (length grown)) (store.write_batch grown d).1 refl h
        (get-write_chunks limit [] ps k first.db) (get-write_chunks limit grown ps k d)
      ∙ ap (λ qs. written k qs (store.get k d)) (append_assoc pending (p ∷ []) ps)
    where
      grown : List Pair
      grown = pending ++ (p ∷ [])

      first : Outcome D
      first = one_batch grown d

      rest : Outcome D
      rest = write_chunks limit [] ps first.db

      later : Outcome D
      later = write_chunks limit grown ps d

      step :
          (full good : Bool)
          → first.done ≡ good
          → let r : Outcome D = elim full [
            | true ↦ if good then record rest { tried = first.tried + rest.tried } else first
            | false ↦ later
          ] in
            r.done ≡ true
            → (rest.done ≡ true → store.get k rest.db ≡ written k ps (store.get k first.db))
            → (later.done ≡ true → store.get k later.db ≡ written k (grown ++ ps) (store.get k d))
            → store.get k r.db ≡ written k (grown ++ ps) (store.get k d)
      step true true e h ih jh =
          ih h
          ∙ ap (written k ps) (store.get-write_batch grown k d e)
          ∙ sym (written-append k grown ps (store.get k d))
      step true false e h ih jh = cc
      step false good e h ih jh = jh h

  -- Succeeded or not, other keys are left alone.
  pub get-write_chunks_other :
      (limit : ℕ) (pending ps : List Pair) (k : Bytes) (d : D)
      → member k (keys (pending ++ ps)) ≡ false
      → store.get k (write_chunks limit pending ps d).db ≡ store.get k d
  unfolding write_chunks
  get-write_chunks_other limit pending [] k d h =
      step (ltb 0 (length pending)) (ap (λ ps. member k (keys ps)) (sym (append-nil pending)) ∙ h)
    where
      step :
          (any : Bool)
          → member k (keys pending) ≡ false
          → let r : Outcome D =
              if any then one_batch pending d else record { db = d; done = true; tried = 0 } in
            store.get k r.db ≡ store.get k d
      step true h = store.get-unwritten pending k d h
      step false h = refl
  get-write_chunks_other limit pending (p ∷ ps) k d h =
      step (leb limit (length grown)) (store.write_batch grown d).1
        (get-write_chunks_other limit [] ps k first.db) (get-write_chunks_other limit grown ps k d)
    where
      grown : List Pair
      grown = pending ++ (p ∷ [])

      first : Outcome D
      first = one_batch grown d

      rest : Outcome D
      rest = write_chunks limit [] ps first.db

      later : Outcome D
      later = write_chunks limit grown ps d

      absent : member k (keys (grown ++ ps)) ≡ false
      absent = ap (λ qs. member k (keys qs)) (append_assoc pending (p ∷ []) ps) ∙ h

      apart : (member k (keys grown) ≡ false) × (member k (keys ps) ≡ false)
      apart = ground (arith, member-append k grown ps, absent)

      step :
          (full good : Bool)
          → (member k (keys ps) ≡ false → store.get k rest.db ≡ store.get k first.db)
          → (member k (keys (grown ++ ps)) ≡ false → store.get k later.db ≡ store.get k d)
          → let r : Outcome D = elim full [
            | true ↦ if good then record rest { tried = first.tried + rest.tried } else first
            | false ↦ later
          ] in
            store.get k r.db ≡ store.get k d
      step true true ih jh = ih apart.1 ∙ store.get-unwritten grown k d apart.0
      step true false ih jh = store.get-unwritten grown k d apart.0
      step false good ih jh = jh absent

  -- Every pair was tried when the loop succeeded.
  pub tried-write_chunks :
      (limit : ℕ) (pending ps : List Pair) (d : D)
      → ((write_chunks limit pending ps d).tried ≤ length (pending ++ ps))
        × ((write_chunks limit pending ps d).done ≡ true
            → (write_chunks limit pending ps d).tried ≡ length (pending ++ ps))
  unfolding write_chunks
  tried-write_chunks limit pending [] d = step (ltb 0 (length pending)) refl
    where
      step :
          (any : Bool)
          → ltb 0 (length pending) ≡ any
          → let r : Outcome D =
              if any then one_batch pending d else record { db = d; done = true; tried = 0 } in
            (r.tried ≤ length (pending ++ [])) × (r.done ≡ true → r.tried ≡ length (pending ++ []))
      step true e =
          let bound = store.tried-bound pending d in
          (
            omega (arith, bound.0, length-append pending []),
            λ h. omega (arith, bound.1 h, length-append pending []),
          )
      step false e =
          (omega arith, λ h. omega (arith, ap length (nothing pending e), length-append pending []))
  tried-write_chunks limit pending (p ∷ ps) d =
      step (leb limit (length grown)) (store.write_batch grown d).1 refl
        (tried-write_chunks limit [] ps first.db) (tried-write_chunks limit grown ps d)
    where
      grown : List Pair
      grown = pending ++ (p ∷ [])

      first : Outcome D
      first = one_batch grown d

      rest : Outcome D
      rest = write_chunks limit [] ps first.db

      later : Outcome D
      later = write_chunks limit grown ps d

      sizes :
          (length (pending ++ (p ∷ ps)) ≡ length pending + 1 + length ps)
          × (length grown ≡ length pending + 1)
          × (length (grown ++ ps) ≡ length pending + 1 + length ps)
      sizes =
          let last = length-append pending (p ∷ []) in
          (
            omega (arith, length-append pending (p ∷ ps)),
            omega (arith, last),
            omega (arith, last, length-append grown ps),
          )

      step :
          (full good : Bool)
          → first.done ≡ good
          → (rest.tried ≤ length ps) × (rest.done ≡ true → rest.tried ≡ length ps)
          → (later.tried ≤ length (grown ++ ps))
            × (later.done ≡ true → later.tried ≡ length (grown ++ ps))
          → let r : Outcome D = elim full [
            | true ↦ if good then record rest { tried = first.tried + rest.tried } else first
            | false ↦ later
          ] in
            (r.tried ≤ length (pending ++ (p ∷ ps)))
            × (r.done ≡ true → r.tried ≡ length (pending ++ (p ∷ ps)))
      step true true e (le, eq) jh =
          let bound = store.tried-bound grown d in
          (
            omega (arith, bound.0, le, sizes.0, sizes.1),
            λ h. omega (arith, bound.1 e, eq h, sizes.0, sizes.1),
          )
      step true false e ih jh =
          (omega (arith, (store.tried-bound grown d).0, sizes.0, sizes.1), λ h. cc (e, h))
      step false good e ih (le, eq) =
          (omega (arith, le, sizes.0, sizes.2), λ h. omega (arith, eq h, sizes.0, sizes.2))
