-- ===== src/Merkleservice/Cache.antt =====
-- internal/merkleservice/bump.go: subtreeCache, the bounded cache of loaded subtrees. The collector's
-- hit counter is the field `hits`; a maximum that is not positive is 0.
use stumpt.Base.{
  ℕ, suc, ◌+◌, ◌≤◌, ◌<◌, ◌≡◌, refl, ap, sym, ◌∙◌, arith, Bool, true, false, ◌&&◌, Option, none,
  some, List, [], ◌∷◌, ◌++◌, if◌then◌else◌, ltb, leb, length, Option-cases, inl, inr,
}
use mathlib.Core.Path.{subst}
use stumpt.Base.Bytes.{Hash}
use stumpt.Base.Maps.{
  nat_eq, lookup, insert, erase, keys, IsUnique, lookup-insert, length-insert, keys-insert,
  insert-IsUnique, erase-fresh,
}

pub record CachedSubtree : Type 0 where
  pub leaves : List Hash
  pub store : List Hash

pub record SubtreeCache : Type 0 where
  pub entries : List (ℕ × CachedSubtree)
  pub order : List ℕ
  pub max_size : ℕ
  pub hits : ℕ

unfoldable pub new_subtree_cache : ℕ → SubtreeCache
new_subtree_cache max_entries = record {
  entries = [];
  order = [];
  max_size = max_entries;
  hits = 0;
}

unfoldable pub get : ℕ → SubtreeCache → Option CachedSubtree × SubtreeCache
get si sc = elim (lookup si sc.entries) [
  | none ↦ (none, sc)
  | some e ↦ (some e, record sc { hits = sc.hits + 1 })
]

abbrev pub append_entry : ℕ → CachedSubtree → SubtreeCache → SubtreeCache
append_entry si cs sc = record sc {
  entries = insert si cs sc.entries;
  order = sc.order ++ (si ∷ []);
}

-- `order[0]` panics, which is `none`, when nothing is in the order.
abbrev pub evict : List ℕ → SubtreeCache → Option SubtreeCache
evict [] sc = none
evict (oldest ∷ more) sc = some record sc { entries = erase oldest sc.entries; order = more }

abbrev pub then_append : ℕ → CachedSubtree → Option SubtreeCache → Option SubtreeCache
then_append si cs none = none
then_append si cs (some sc) = some (append_entry si cs sc)

unfoldable pub put : ℕ → CachedSubtree → SubtreeCache → Option SubtreeCache
put si cs sc = elim (lookup si sc.entries) [
  | some e ↦ some sc
  | none ↦
      if leb sc.max_size (length sc.entries) && ltb 0 sc.max_size
      then then_append si cs (evict sc.order sc)
      else some (append_entry si cs sc)
]

-- The order lists the keys, each once, and a positive maximum bounds their number.
pub record IsValid (sc : SubtreeCache) : Type 0 where
  pub in_order : keys sc.entries ≡ sc.order
  pub unique : IsUnique sc.entries
  pub bounded : 0 < sc.max_size → length sc.entries ≤ sc.max_size

abbrev pub Puts : ℕ → CachedSubtree → SubtreeCache → Type 0
Puts si cs sc =
    (after : SubtreeCache) × (put si cs sc ≡ some after)
    × IsValid after
    × ((get si after).0 ≡ elim (lookup si sc.entries) [ none ↦ some cs | some e ↦ some e ])

put-present :
    (si : ℕ) (cs e : CachedSubtree) (sc : SubtreeCache)
    → lookup si sc.entries ≡ some e
    → IsValid sc
    → Puts si cs sc
unfolding put get
put-present si cs e sc found valid = (sc, ground arith, valid, ground arith)

put-room :
    (si : ℕ) (cs : CachedSubtree) (sc : SubtreeCache)
    → lookup si sc.entries ≡ none
    → IsValid sc
    → (0 < sc.max_size → length sc.entries < sc.max_size)
    → IsValid (append_entry si cs sc) × ((get si (append_entry si cs sc)).0 ≡ some cs)
unfolding get
put-room si cs sc fresh valid room = (
  record {
    in_order = keys-insert si cs sc.entries fresh ∙ ap (λ ks. ks ++ (si ∷ [])) valid.in_order;
    unique = insert-IsUnique si cs sc.entries valid.unique;
    bounded = λ positive. ground (arith, length-insert si cs sc.entries, room positive);
  },
  ground (arith, lookup-insert si si cs sc.entries),
)

erased :
    (o k : ℕ) (v : CachedSubtree) (m : List (ℕ × CachedSubtree))
    → o ≡ k
    → IsUnique ((k, v) ∷ m)
    → erase o ((k, v) ∷ m) ≡ m
unfolding erase
erased o k v m same (fresh, unique) =
    ground (arith, same, erase-fresh o m (ap (λ x. lookup x m) same ∙ fresh))

-- What an eviction leaves: one entry fewer, still valid, and `si` still absent.
evicted :
    (si : ℕ) (m : List (ℕ × CachedSubtree)) (os : List ℕ) (sc : SubtreeCache)
    → sc.entries ≡ m
    → sc.order ≡ os
    → lookup si m ≡ none
    → IsValid sc
    → 0 < length m
    → (after : SubtreeCache) × (evict os sc ≡ some after)
      × IsValid after
      × (lookup si after.entries ≡ none)
      × (suc (length after.entries) ≡ length m)
      × (after.max_size ≡ sc.max_size)
unfolding lookup
evicted si [] os sc me oe fresh valid full = absurd (omega arith)
evicted si ((k, v) ∷ m) [] sc me oe fresh valid full = cc (valid.in_order, ap keys me, oe)
evicted si ((k, v) ∷ m) (o ∷ os) sc me oe fresh valid full =
    let listed : keys ((k, v) ∷ m) ≡ (o ∷ os) = sym (ap keys me) ∙ valid.in_order ∙ oe in
    let same : k ≡ o = cc listed in
    let rest : keys m ≡ os = cc listed in
    let unique : IsUnique ((k, v) ∷ m) = subst IsUnique me valid.unique in
    let gone : erase o sc.entries ≡ m = ap (erase o) me ∙ erased o k v m (sym same) unique in
    (
      record sc { entries = erase o sc.entries; order = os },
      refl,
      record {
        in_order = ap keys gone ∙ rest;
        unique = subst IsUnique (sym gone) unique.1;
        bounded = λ positive. ground (arith, gone, me, valid.bounded positive);
      },
      ap (lookup si) gone ∙ ground (arith, fresh),
      ap (λ x. suc (length x)) gone,
      refl,
    )

put-fresh :
    (si : ℕ) (cs : CachedSubtree) (sc : SubtreeCache)
    → lookup si sc.entries ≡ none
    → IsValid sc
    → (b : Bool) → (leb sc.max_size (length sc.entries) && ltb 0 sc.max_size) ≡ b
    → Puts si cs sc
unfolding put
put-fresh si cs sc fresh valid true full =
    let (mid, e, ok, gone, fewer, same) =
      evicted si sc.entries sc.order sc refl refl fresh valid (ground (arith, full)) in
    let (kept, found) =
      put-room si cs mid gone ok (λ p. ground (arith, fewer, same, valid.bounded)) in
    let evicts : put si cs sc ≡ then_append si cs (evict sc.order sc) =
      ground (arith, fresh, full) in
    (append_entry si cs mid, evicts ∙ ap (then_append si cs) e, kept, found ∙ ground (arith, fresh))
put-fresh si cs sc fresh valid false room =
    let (kept, found) = put-room si cs sc fresh valid (ground (arith, room)) in
    (append_entry si cs sc, ground (arith, fresh, room), kept, found ∙ ground (arith, fresh))

-- On a cache whose order lists its keys, each once, and whose size a positive maximum bounds (so on
-- the new cache, which is one), a put does not panic, leaves such a cache, and a get of the subtree
-- then finds it: the entry that was there before, or else the one put.
pub put-IsValid :
    (si max : ℕ) (cs : CachedSubtree) (sc : SubtreeCache)
    → IsValid sc
    → IsValid (new_subtree_cache max) × Puts si cs sc
unfolding new_subtree_cache
put-IsValid si max cs sc valid = (
  record { in_order = refl; unique = tt; bounded = λ p. omega arith },
  elim (Option-cases (lookup si sc.entries)) [
    | inl fresh ↦ put-fresh si cs sc fresh valid _ refl
    | inr (e, found) ↦ put-present si cs e sc found valid
  ],
)
