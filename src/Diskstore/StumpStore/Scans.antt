-- ===== src/Diskstore/StumpStore/Scans.antt =====
-- What a scan of a prefix yields after puts of keys that lie past those it had.
use stumpt.Base.{
  if_true, Option-cases, ◌≡◌, refl, sym, ap, ◌∙◌, arith, Bool, true, false, Option, none, some,
  List, [], ◌∷◌, ◌++◌, if◌then◌else◌, Bool-cases, inl, inr,
}
use stumpt.Base.Maps.{◌==◌, bytes_eq, bytes_beq_iff, lookup}
use stumpt.Diskstore.Keys.Ordering.{Pair, IsAbove, IsAscending, lookup-IsAbove, ascending_ext}
use stumpt.Diskstore.Database.{Bytes, Database, has_prefix, written}

-- The pairs under a prefix.
abbrev pub under : Bytes → List Pair → List Pair
under p [] = []
under p ((k, v) ∷ ps) = if has_prefix p k then (k, v) ∷ under p ps else under p ps

pub written-under :
    (p k : Bytes) (ps : List Pair) (old : Option Bytes)
    → has_prefix p k ≡ true
    → IsAscending (under p ps)
    → written k ps old ≡ elim (lookup k (under p ps)) [ some v ↦ some v | none ↦ old ]
unfolding lookup
written-under p k [] old h asc = refl
written-under p k ((j, v) ∷ ps) old h asc =
    step (has_prefix p j) refl asc (λ o. written-under p k ps o h)
  where
    step :
        (b : Bool)
        → has_prefix p j ≡ b
        → IsAscending (if b then (j, v) ∷ under p ps else under p ps)
        → ((o : Option Bytes)
            → IsAscending (under p ps)
            → written k ps o ≡ elim (lookup k (under p ps)) [ some v ↦ some v | none ↦ o ])
        → written k ps (if j == k then some v else old)
          ≡ elim (lookup k (if b then (j, v) ∷ under p ps else under p ps)) [
            | some v ↦ some v
            | none ↦ old
          ]
    step true e (above, asc) ih =
        ih (if j == k then some v else old) asc
        ∙ ground (
          arith,
          lookup-IsAbove j (under p ps) above,
          bytes_beq_iff j k,
          ap (λ x. lookup x (under p ps)) {x = j} {y = k},
        )
    step false e asc ih =
        ih (if j == k then some v else old) asc
        ∙ ground (arith, bytes_beq_iff j k, e, h, ap (has_prefix p) {x = j} {y = k})

lookup-under :
    (p k : Bytes) (ps : List Pair) → has_prefix p k ≡ false → lookup k (under p ps) ≡ none
unfolding lookup
lookup-under p k [] h = refl
lookup-under p k ((j, v) ∷ ps) h =
    ground (arith, lookup-under p k ps h, bytes_beq_iff j k, ap (has_prefix p) {x = j} {y = k})

lookup-append :
    (k : Bytes) (xs ys : List Pair)
    → lookup k (xs ++ ys) ≡ elim (lookup k xs) [ some v ↦ some v | none ↦ lookup k ys ]
unfolding lookup
lookup-append k [] ys = refl
lookup-append k ((j, v) ∷ xs) ys = ground (arith, lookup-append k xs ys)

IsAbove-append :
    (k : Bytes) (xs ys : List Pair) → IsAbove k (xs ++ ys) → IsAbove k xs × IsAbove k ys
IsAbove-append k [] ys above = (tt, above)
IsAbove-append k (x ∷ xs) ys (first, above) =
    let (left, right) = IsAbove-append k xs ys above in ((first, left), right)

-- In an ascending list no key stands in two parts.
parts_apart :
    (k : Bytes) (xs ys : List Pair) {v : Bytes}
    → IsAscending (xs ++ ys)
    → lookup k ys ≡ some v
    → lookup k xs ≡ none
unfolding lookup
parts_apart k [] ys {v} asc here = refl
parts_apart k ((j, w) ∷ xs) ys {v} (above, asc) here = ground (
  arith,
  parts_apart k xs ys {v = v} asc here,
  lookup-IsAbove j ys (IsAbove-append j xs ys above).1,
  bytes_beq_iff j k,
  ap (λ x. lookup x ys) {x = j} {y = k},
  here,
)

pub IsAscending-right : (xs ys : List Pair) → IsAscending (xs ++ ys) → IsAscending ys
IsAscending-right [] ys asc = asc
IsAscending-right (x ∷ xs) ys (above, asc) = IsAscending-right xs ys asc

pub scan-written :
    {D : Type 0} (store : Database D) (p : Bytes) (ps : List Pair) (before after : D)
    → ((k : Bytes) → has_prefix p k ≡ true → store.get k after ≡ written k ps (store.get k before))
    → IsAscending (store.scan p before ++ under p ps)
    → store.scan p after ≡ store.scan p before ++ under p ps
scan-written store p ps before after law asc =
    ascending_ext (store.scan p after) (old ++ under p ps) (store.scan-IsAscending p after) asc same
  where
    old : List Pair
    old = store.scan p before

    same : (k : Bytes) → lookup k (store.scan p after) ≡ lookup k (old ++ under p ps)
    same k = elim (Bool-cases (has_prefix p k)) [
      | inl inside ↦
          let now =
            store.lookup-scan p k after
            ∙ if_true none inside
            ∙ law k inside
            ∙ written-under p k ps (store.get k before) inside
                (IsAscending-right old (under p ps) asc) in
          let then_ = sym (store.lookup-scan p k before ∙ if_true none inside) in
          elim (Option-cases (lookup k (under p ps))) [
            | inl absent ↦ ground (arith, now, then_, absent, lookup-append k old (under p ps))
            | inr (v, here) ↦ ground (
              arith,
              now,
              here,
              lookup-append k old (under p ps),
              parts_apart k old (under p ps) {v = v} asc here,
            )
          ]
      | inr outside ↦ ground (
        arith,
        store.lookup-scan p k after,
        store.lookup-scan p k before,
        outside,
        lookup-append k old (under p ps),
        lookup-under p k ps outside,
      )
    ]
