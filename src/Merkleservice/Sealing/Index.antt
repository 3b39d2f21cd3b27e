-- ===== src/Merkleservice/Sealing/Index.antt =====
-- internal/merkleservice/registry.go: the token index of a miner after a subtree was sealed.
use mathlib.Core.List.{append-nil, append_assoc}
use stumpt.Base.{
  if_true, if_false, ==_iff, ℕ, suc, ◌+◌, ◌-◌, ◌%◌, ◌^◌, ◌≤◌, ◌<◌, ◌≡◌, refl, sym, ap, ◌∙◌, arith,
  Bool, true, false, ◌&&◌, ◌⊎◌, Option, none, some, List, [], ◌∷◌, ◌++◌, ◌==◌ as num_eq,
  if◌then◌else◌, length, take, map, get_elem?, get_elem?-lt, All, Option-cases, Bool-cases, inl,
  inr,
}
use stumpt.Base.Bytes.{Hash, from_little_endian}
use stumpt.Base.Maps.{
  ◌==◌, bytes_eq, nat_eq, bytes_beq_iff, lookup, insert, lookup-insert, IsUnique, insert-IsUnique,
}
use stumpt.Stump.{or_nil}
use stumpt.Merkleservice.Runtime.{Runtime}
use stumpt.Merkleservice.TokenIndex.{
  TokenSubtreeIndex, get, add_batch, get-add_batch, int_from_int32,
}
use stumpt.Merkleservice.Jitter.{count, IsReordering}
use stumpt.Merkleservice.Sealing.{token_of, local_indices, group_by_token, index_groups}

local_indices_sound :
    (hs : List Hash) (i li : ℕ) (h : Hash) (m : List (Hash × ℕ))
    → lookup h (local_indices i hs m) ≡ some li
    → (lookup h m ≡ some li) ⊎ ((i ≤ li) × (get_elem? hs (li - i) ≡ some h))
local_indices_sound [] i li h m e = inl e
local_indices_sound (x ∷ hs) i li h m e =
    elim (local_indices_sound hs (i + 1) li h (insert x i m) e) [
      | inr (le, there) ↦ inr (
        omega arith,
        ap (get_elem? (x ∷ hs)) {x = li - i} {y = suc (li - (i + 1))} (omega arith) ∙ there,
      )
      | inl old ↦ elim (Bool-cases (x == h)) [
        | inl here ↦
            let same : li ≡ i = ground (arith, lookup-insert x h i m) in
            inr (
              omega arith,
              ap (get_elem? (x ∷ hs)) {x = li - i} {y = 0} (omega arith)
                  ∙ ap some ((bytes_beq_iff x h).0 here),
            )
        | inr other ↦ inl (ground (arith, lookup-insert x h i m))
      ]
    ]

local_indices_complete :
    (hs : List Hash) (i : ℕ) (h : Hash) (m : List (Hash × ℕ))
    → lookup h (local_indices i hs m) ≡ none
    → (count h hs ≡ 0) × (lookup h m ≡ none)
local_indices_complete [] i h m e = (refl, e)
local_indices_complete (x ∷ hs) i h m e =
    let (none_left, absent) = local_indices_complete hs (i + 1) h (insert x i m) e in
    ground (arith, lookup-insert x h i m)

-- The txid stands in the leaves at its index in the map.
abbrev Located1 : List Hash → List (Hash × ℕ) → Hash → Type 0
Located1 leaves locals h = (li : ℕ) × (lookup h locals ≡ some li) × (get_elem? leaves li ≡ some h)

locate :
    (leaves : List Hash) (h : Hash)
    → 0 < count h leaves
    → Located1 leaves (local_indices 0 leaves []) h
unfolding lookup
locate leaves h there = elim (Option-cases (lookup h (local_indices 0 leaves []))) [
  | inl absent ↦ absurd (omega (arith, (local_indices_complete leaves 0 h [] absent).0))
  | inr (li, found) ↦ elim (local_indices_sound leaves 0 li h [] found) [
    | inl old ↦ cc old
    | inr (le, here) ↦ (li, found, ap (get_elem? leaves) {x = li} {y = li - 0} (omega arith) ∙ here)
  ]
]

All-count : (Q : Hash → Type 0) (xs : List Hash) → ((h : Hash) → 0 < count h xs → Q h) → All Q xs
All-count Q [] f = tt
All-count Q (x ∷ xs) f =
    (f x (ground (arith, bytes_beq_iff x x)), All-count Q xs (λ h there. f h (ground arith)))

-- The leaf at a filed position, which the source converts to an int.
abbrev pub leaf_at : List Hash → ℕ → Option Hash
leaf_at leaves p = get_elem? leaves (int_from_int32 p)

leaf_at-small :
    (leaves : List Hash) (li : ℕ)
    → length leaves ≤ 2 ^ 31
    → li < length leaves
    → leaf_at leaves li ≡ get_elem? leaves li
leaf_at-small leaves li few inside = ap (get_elem? leaves) (ground (arith, few, inside))

-- The txids of a token, in their order.
abbrev pub of_token : ℕ → ℕ → List Hash → List Hash
of_token num_businesses t [] = []
of_token num_businesses t (h ∷ hs) =
    if num_eq (from_little_endian (take 8 h) % num_businesses) t
    then h ∷ of_token num_businesses t hs
    else of_token num_businesses t hs

group_step :
    (t ti li : ℕ) (groups : List (ℕ × List ℕ))
    → or_nil (lookup t (insert ti (or_nil (lookup ti groups) ++ (li ∷ [])) groups))
      ≡ or_nil (lookup t groups) ++ (if num_eq ti t then li ∷ [] else [])
group_step t ti li groups = step (num_eq ti t) refl
  where
    step :
        (b : Bool)
        → num_eq ti t ≡ b
        → or_nil (lookup t (insert ti (or_nil (lookup ti groups) ++ (li ∷ [])) groups))
          ≡ or_nil (lookup t groups) ++ (if b then li ∷ [] else [])
    step true e = ground (
      arith,
      lookup-insert ti t (or_nil (lookup ti groups) ++ (li ∷ [])) groups,
      ap (λ x. or_nil (lookup x groups)) {x = ti} {y = t},
    )
    step false e = ground (
      arith,
      lookup-insert ti t (or_nil (lookup ti groups) ++ (li ∷ [])) groups,
      append-nil (or_nil (lookup t groups)),
    )

module _ (nb : ℕ) (positive : 0 < nb) (leaves : List Hash) (few : length leaves ≤ 2 ^ 31)
    (locals : List (Hash × ℕ)) where
  group_by_token-positions :
      (txids : List Hash) (groups : List (ℕ × List ℕ))
      → All (Located1 leaves locals) txids
      → IsUnique groups
      → (after : List (ℕ × List ℕ)) × (group_by_token nb locals txids groups ≡ some after)
        × IsUnique after
        × ((t : ℕ)
            → (ps : List ℕ) × (or_nil (lookup t after) ≡ or_nil (lookup t groups) ++ ps)
              × (map (leaf_at leaves) ps ≡ map some (of_token nb t txids)))
  unfolding group_by_token token_of
  group_by_token-positions [] groups located unique =
      (groups, refl, unique, λ t. ([], sym (append-nil (or_nil (lookup t groups))), refl))
  group_by_token-positions (h ∷ txids) groups ((li, found, here), located) unique =
      let (after, ran, unique_after, each) =
        group_by_token-positions txids grown located grown-IsUnique in
      (after, unfolded ∙ ran, unique_after, λ t. one after t (each t))
    where
      ti : ℕ
      ti = from_little_endian (take 8 h) % nb

      grown : List (ℕ × List ℕ)
      grown = insert ti (or_nil (lookup ti groups) ++ (li ∷ [])) groups

      grown-IsUnique : IsUnique grown
      grown-IsUnique = insert-IsUnique ti (or_nil (lookup ti groups) ++ (li ∷ [])) groups unique

      unfolded : group_by_token nb locals (h ∷ txids) groups ≡ group_by_token nb locals txids grown
      unfolded = rw (token_known, found, small)
        where
          token_known : token_of nb h ≡ some ti
          token_known = if_false none (ground arith)

          small : li % 2 ^ 32 ≡ li
          small = omega (arith, few, get_elem?-lt leaves li here)

      one :
          (after : List (ℕ × List ℕ)) (t : ℕ)
          → ((ps : List ℕ) × (or_nil (lookup t after) ≡ or_nil (lookup t grown) ++ ps)
              × (map (leaf_at leaves) ps ≡ map some (of_token nb t txids)))
          → (ps : List ℕ) × (or_nil (lookup t after) ≡ or_nil (lookup t groups) ++ ps)
            × (map (leaf_at leaves) ps ≡ map some (of_token nb t (h ∷ txids)))
      one after t (ps, e, placed) = go (num_eq ti t) (group_step t ti li groups)
        where
          old : List ℕ
          old = or_nil (lookup t groups)

          go :
              (b : Bool)
              → or_nil (lookup t grown) ≡ old ++ (if b then li ∷ [] else [])
              → (ps : List ℕ) × (or_nil (lookup t after) ≡ old ++ ps)
                × (map (leaf_at leaves) ps
                    ≡ map some (if b then h ∷ of_token nb t txids else of_token nb t txids))
          go true s = (
            li ∷ ps,
            e ∙ ap (λ x. x ++ ps) s ∙ append_assoc old (li ∷ []) ps,
            cc (leaf_at-small leaves li few (get_elem?-lt leaves li here), here, placed),
          )
          go false s = (ps, e ∙ ap (λ x. x ++ ps) s ∙ ap (λ x. x ++ ps) (append-nil old), placed)

-- Filing the groups of a subtree adds to each token's slot what its group has.
get-index_groups :
    {F : Type 0} (rt : Runtime F) (si t : ℕ) (groups : List (ℕ × List ℕ)) (idx : TokenSubtreeIndex)
    → ((a b : ℕ) → rt.token_name a ≡ rt.token_name b → a ≡ b)
    → IsUnique groups
    → get (rt.token_name t) si (index_groups rt si groups idx)
      ≡ get (rt.token_name t) si idx ++ or_nil (lookup t groups)
unfolding index_groups lookup
get-index_groups rt si t [] idx inj unique = sym (append-nil (get (rt.token_name t) si idx))
get-index_groups rt si t ((ti, lis) ∷ groups) idx inj (fresh, unique) =
    get-index_groups rt si t groups filed inj unique ∙ step (num_eq ti t) refl
  where
    filed : TokenSubtreeIndex
    filed = add_batch (rt.token_name ti) si lis idx

    old : List ℕ
    old = get (rt.token_name t) si idx

    slot :
        get (rt.token_name t) si filed
        ≡ (if rt.token_name ti == rt.token_name t && num_eq si si then old ++ lis else old)
    slot = (get-add_batch (rt.token_name ti) (rt.token_name t) si si 0 lis idx).0

    step :
        (b : Bool)
        → num_eq ti t ≡ b
        → get (rt.token_name t) si filed ++ or_nil (lookup t groups)
          ≡ old ++ or_nil (if b then some lis else lookup t groups)
    step true e =
        let same : ti ≡ t = (==_iff ti t).0 e in
        ap (λ x. x ++ or_nil (lookup t groups))
          (slot
            ∙ if_true {b = rt.token_name ti == rt.token_name t && num_eq si si} old (
                ground (
                  arith,
                  same,
                  bytes_beq_iff (rt.token_name ti) (rt.token_name t),
                  ap rt.token_name same,
                )))
        ∙ ap (λ (o : Option (List ℕ)). (old ++ lis) ++ or_nil o)
            (ap (λ x. lookup x groups) (sym same) ∙ fresh)
        ∙ append-nil (old ++ lis)
    step false e =
        ap (λ x. x ++ or_nil (lookup t groups))
          (slot
            ∙ if_false {b = rt.token_name ti == rt.token_name t && num_eq si si} (old ++ lis)
                (ground (arith, e, bytes_beq_iff (rt.token_name ti) (rt.token_name t), inj ti t)))

-- The leaves of a miner being a reordering of the canonical txids, at most 2 ^ 31, and the names of
-- different tokens different: the loop that groups the txids does not panic, and filing its groups
-- adds to each token's positions in the subtree one for each of the token's txids, in canonical
-- order, where, read as an int32, the miner's leaves have that txid.
pub get-sealed :
    {F : Type 0} (rt : Runtime F) (nb si t : ℕ) (base leaves : List Hash) (idx : TokenSubtreeIndex)
    → ((a b : ℕ) → rt.token_name a ≡ rt.token_name b → a ≡ b)
    → 0 < nb
    → length leaves ≤ 2 ^ 31
    → IsReordering base leaves
    → (groups : List (ℕ × List ℕ)) × (group_by_token nb (local_indices 0 leaves []) base []
        ≡ some groups)
      × (ps : List ℕ) × (get (rt.token_name t) si (index_groups rt si groups idx)
          ≡ get (rt.token_name t) si idx ++ ps)
      × (map (leaf_at leaves) ps ≡ map some (of_token nb t base))
unfolding lookup
get-sealed rt nb si t base leaves idx inj positive few same =
    let (groups, ran, unique, each) =
      group_by_token-positions nb positive leaves few (local_indices 0 leaves []) base []
        (All-count (Located1 leaves (local_indices 0 leaves [])) base
          (λ h there. locate leaves h (omega (arith, there, same.same_counts h))))
        tt in
    let (ps, filed, placed) = each t in
    (
      groups,
      ran,
      ps,
      get-index_groups rt si t groups idx inj unique
          ∙ ap (◌++◌ (get (rt.token_name t) si idx)) filed,
      placed,
    )
