-- ===== src/Diskstore/Keys/Ordering.antt =====
-- internal/diskstore/txid_list.go: compareKeys is a strict order of the keys, and lists in that order.
use mathlib.Core.Path.{subst}
use stumpt.Base.{ℕ, ◌≡◌, refl, ap, ◌∙◌, arith, false, none, List, [], ◌∷◌, All}
use stumpt.Base.Maps.{◌==◌, bytes_eq, bytes_beq_iff, lookup}
use stumpt.Diskstore.Keys.{Order, less, same, more, compare_keys, compare_keys_refl}

pub compare_keys-same : (a b : List ℕ) → compare_keys a b ≡ same → a ≡ b
unfolding compare_keys
compare_keys-same [] [] h = refl
compare_keys-same [] (y ∷ b) h = cc
compare_keys-same (x ∷ a) [] h = cc
compare_keys-same (x ∷ a) (y ∷ b) h = ground (arith, compare_keys-same a b)

pub compare_keys_flip : (a b : List ℕ) → compare_keys a b ≡ more → compare_keys b a ≡ less
unfolding compare_keys
compare_keys_flip [] [] h = cc
compare_keys_flip [] (y ∷ b) h = cc
compare_keys_flip (x ∷ a) [] h = refl
compare_keys_flip (x ∷ a) (y ∷ b) h = ground (arith, compare_keys_flip a b)

pub compare_keys_flip_less : (a b : List ℕ) → compare_keys a b ≡ less → compare_keys b a ≡ more
unfolding compare_keys
compare_keys_flip_less [] [] h = cc
compare_keys_flip_less [] (y ∷ b) h = refl
compare_keys_flip_less (x ∷ a) [] h = cc
compare_keys_flip_less (x ∷ a) (y ∷ b) h = ground (arith, compare_keys_flip_less a b)

pub compare_keys_trans :
    (a b c : List ℕ) → compare_keys a b ≡ less → compare_keys b c ≡ less → compare_keys a c ≡ less
unfolding compare_keys
compare_keys_trans [] [] c h k = cc
compare_keys_trans [] (y ∷ b) [] h k = cc
compare_keys_trans [] (y ∷ b) (z ∷ c) h k = refl
compare_keys_trans (x ∷ a) [] c h k = cc
compare_keys_trans (x ∷ a) (y ∷ b) [] h k = cc
compare_keys_trans (x ∷ a) (y ∷ b) (z ∷ c) h k = ground (arith, compare_keys_trans a b c)

pub less-ne : (a b : List ℕ) → compare_keys a b ≡ less → (a == b) ≡ false
less-ne a b h =
    ground (arith, bytes_beq_iff a b, compare_keys_refl a, ap (compare_keys a) {x = a} {y = b})

abbrev pub Pair : Type 0
Pair = List ℕ × List ℕ

abbrev pub IsAbove : List ℕ → List Pair → Type 0
IsAbove k m = All (λ e. compare_keys k e.0 ≡ less) m

-- Strictly ascending keys.
abbrev pub IsAscending : List Pair → Type 0
IsAscending [] = Unit
IsAscending ((k, v) ∷ m) = IsAbove k m × IsAscending m

pub IsAbove-trans :
    (j k : List ℕ) (m : List Pair) → compare_keys j k ≡ less → IsAbove k m → IsAbove j m
IsAbove-trans j k [] h above = tt
IsAbove-trans j k ((i, v) ∷ m) h (first, above) =
    (compare_keys_trans j k i h first, IsAbove-trans j k m h above)

pub lookup-IsAbove : (k : List ℕ) (m : List Pair) → IsAbove k m → lookup k m ≡ none
unfolding lookup
lookup-IsAbove k [] above = refl
lookup-IsAbove k ((i, v) ∷ m) (first, above) =
    ground
      (arith, bytes_beq_iff i k, less-ne k i first, bytes_beq_iff k i, lookup-IsAbove k m above)

first_key :
    (j k : List ℕ) (v w : List ℕ) (xs ys : List Pair)
    → IsAbove j xs
    → IsAbove k ys
    → ((i : List ℕ) → lookup i ((j, v) ∷ xs) ≡ lookup i ((k, w) ∷ ys))
    → (o : Order) → compare_keys j k ≡ o
    → (j ≡ k) × (v ≡ w)
unfolding lookup
first_key j k v w xs ys ax ay same_lookup less h = ground (
  arith,
  same_lookup j,
  less-ne j k h,
  bytes_beq_iff j k,
  bytes_beq_iff k j,
  bytes_beq_iff j j,
  lookup-IsAbove j ys (IsAbove-trans j k ys h ay),
)
first_key j k v w xs ys ax ay same_lookup same h =
    let e = compare_keys-same j k h in
    (e, ground (arith, same_lookup j, bytes_beq_iff j j, bytes_beq_iff k j))
first_key j k v w xs ys ax ay same_lookup more h =
    let below = compare_keys_flip j k h in
    ground (
      arith,
      same_lookup k,
      less-ne k j below,
      bytes_beq_iff k j,
      bytes_beq_iff j k,
      bytes_beq_iff k k,
      lookup-IsAbove k xs (IsAbove-trans k j xs below ax),
    )

rest_lookup :
    (k v : List ℕ) (xs ys : List Pair)
    → IsAbove k xs
    → IsAbove k ys
    → ((i : List ℕ) → lookup i ((k, v) ∷ xs) ≡ lookup i ((k, v) ∷ ys))
    → (i : List ℕ) → lookup i xs ≡ lookup i ys
unfolding lookup
rest_lookup k v xs ys ax ay same_lookup i = ground (
  arith,
  same_lookup i,
  bytes_beq_iff k i,
  lookup-IsAbove k xs ax,
  lookup-IsAbove k ys ay,
  ap (λ j. lookup j xs) {x = k} {y = i},
  ap (λ j. lookup j ys) {x = k} {y = i},
)

-- An ascending list is determined by what it holds under each key.
pub ascending_ext :
    (xs ys : List Pair)
    → IsAscending xs
    → IsAscending ys
    → ((k : List ℕ) → lookup k xs ≡ lookup k ys)
    → xs ≡ ys
unfolding lookup
ascending_ext [] [] ax ay same_lookup = refl
ascending_ext [] ((k, w) ∷ ys) ax ay same_lookup = ground (arith, same_lookup k, bytes_beq_iff k k)
ascending_ext ((j, v) ∷ xs) [] ax ay same_lookup = ground (arith, same_lookup j, bytes_beq_iff j j)
ascending_ext ((j, v) ∷ xs) ((k, w) ∷ ys) (ja, ax) (ka, ay) same_lookup =
    let (ej, ev) = first_key j k v w xs ys ja ka same_lookup (compare_keys j k) refl in
    let heads : ◌≡◌ {A = Pair} (k, w) (j, v) = cc (ej, ev) in
    let rest = λ (i : List ℕ). ap (λ (p : Pair). lookup i (p ∷ xs)) heads ∙ same_lookup i in
    cc (
      heads,
      ascending_ext xs ys ax ay (rest_lookup k w xs ys (subst (λ x. IsAbove x xs) ej ja) ka rest),
    )
