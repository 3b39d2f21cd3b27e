-- ===== src/Diskstore/Database/Memory.antt =====
-- The interface of the key-value store can be met: pairs in memory, put in key order by a scan.
use mathlib.Core.Path.{subst}
use stumpt.Base.{
  ◌≡◌, length, refl, sym, ap, ◌∙◌, arith, true, none, some, List, [], ◌∷◌, if◌then◌else◌,
}
use stumpt.Base.Maps.{◌==◌, bytes_eq, bytes_beq_iff, lookup, insert, lookup-insert}
use stumpt.Diskstore.Keys.{Order, less, same, more, compare_keys}
use stumpt.Diskstore.Keys.Ordering.{
  Pair, IsAbove, IsAscending, IsAbove-trans, compare_keys-same, compare_keys_flip, less-ne,
}
use stumpt.Diskstore.Database.{Bytes, Database, has_prefix, written, written_other}

-- Writes on the right come later.
abbrev pub put_all : List Pair → List Pair → List Pair
put_all [] d = d
put_all ((k, v) ∷ ps) d = put_all ps (insert k v d)

unfoldable pub put_sorted : Bytes → Bytes → List Pair → List Pair
put_sorted k v [] = (k, v) ∷ []
put_sorted k v ((j, w) ∷ m) =
    let rest = put_sorted k v m in
    elim (compare_keys k j) [
      | less ↦ (k, v) ∷ (j, w) ∷ m
      | same ↦ (k, v) ∷ m
      | more ↦ (j, w) ∷ rest
    ]

unfoldable pub sorted : Bytes → List Pair → List Pair
unfolding put_sorted
sorted prefix [] = []
sorted prefix ((k, v) ∷ d) =
    let rest = sorted prefix d in if has_prefix prefix k then put_sorted k v rest else rest

pub lookup-put_all :
    (ps : List Pair) (k : Bytes) (d : List Pair)
    → lookup k (put_all ps d) ≡ written k ps (lookup k d)
lookup-put_all [] k d = refl
lookup-put_all ((j, v) ∷ ps) k d =
    lookup-put_all ps k (insert j v d) ∙ ap (written k ps) (lookup-insert j k v d)

IsAbove-put_sorted :
    (i k v : Bytes) (m : List Pair)
    → compare_keys i k ≡ less
    → IsAbove i m
    → IsAbove i (put_sorted k v m)
unfolding put_sorted
IsAbove-put_sorted i k v [] h above = (h, tt)
IsAbove-put_sorted i k v ((j, w) ∷ m) h (first, above) = ground (arith, IsAbove-put_sorted i k v m)

put_sorted-IsAscending :
    (k v : Bytes) (m : List Pair) → IsAscending m → IsAscending (put_sorted k v m)
unfolding put_sorted
put_sorted-IsAscending k v [] h = (tt, tt)
put_sorted-IsAscending k v ((j, w) ∷ m) (above, h) =
    step (compare_keys k j) refl (put_sorted-IsAscending k v m h)
  where
    step :
        (o : Order)
        → compare_keys k j ≡ o
        → IsAscending (put_sorted k v m)
        → IsAscending (elim o [
          | less ↦ (k, v) ∷ (j, w) ∷ m
          | same ↦ (k, v) ∷ m
          | more ↦ (j, w) ∷ put_sorted k v m
        ])
    step less e ih = ((e, IsAbove-trans k j m e above), (above, h))
    step same e ih = (subst (λ x. IsAbove x m) (sym (compare_keys-same k j e)) above, h)
    step more e ih = (IsAbove-put_sorted j k v m (compare_keys_flip k j e) above, ih)

lookup-put_sorted :
    (k v i : Bytes) (m : List Pair)
    → IsAscending m
    → lookup i (put_sorted k v m) ≡ (if k == i then some v else lookup i m)
unfolding put_sorted lookup
lookup-put_sorted k v i [] h = refl
lookup-put_sorted k v i ((j, w) ∷ m) (above, h) = ground (
  arith,
  lookup-put_sorted k v i m h,
  compare_keys-same k j,
  bytes_beq_iff k i,
  bytes_beq_iff j i,
  bytes_beq_iff k j,
  less-ne k j,
  less-ne j k,
  compare_keys_flip k j,
)

pub sorted-IsAscending : (prefix : Bytes) (d : List Pair) → IsAscending (sorted prefix d)
unfolding sorted
sorted-IsAscending prefix [] = tt
sorted-IsAscending prefix ((k, v) ∷ d) =
    ground (arith, sorted-IsAscending prefix d, put_sorted-IsAscending k v (sorted prefix d))

pub lookup-sorted :
    (prefix k : Bytes) (d : List Pair)
    → lookup k (sorted prefix d) ≡ (if has_prefix prefix k then lookup k d else none)
unfolding sorted lookup
lookup-sorted prefix k [] = ground arith
lookup-sorted prefix k ((j, v) ∷ d) = ground (
  arith,
  lookup-sorted prefix k d,
  lookup-put_sorted j v k (sorted prefix d) (sorted-IsAscending prefix d),
  bytes_beq_iff j k,
  ap (has_prefix prefix) {x = j} {y = k},
)

abbrev pub memory : Database (List Pair)
memory = record {
  get = lookup;
  transact = λ ps d. (put_all ps d, true);
  write_batch = λ ps d. (put_all ps d, true);
  tried = λ ps d. length ps;
  scan = sorted;
  get-transact = λ ps k d. lookup-put_all ps k d;
  get-write_batch = λ ps k d h. lookup-put_all ps k d;
  get-unwritten = λ ps k d h. lookup-put_all ps k d ∙ written_other k ps (lookup k d) h;
  tried-bound = λ ps d. (omega arith, λ h. refl);
  scan-IsAscending = sorted-IsAscending;
  lookup-scan = lookup-sorted;
}
