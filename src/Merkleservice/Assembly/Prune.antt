-- ===== src/Merkleservice/Assembly/Prune.antt =====
-- internal/merkleservice/bump.go: the prune loop against a filter of each level.
use stumpt.Base.{
  ◌+◌, ◌*◌, ◌^◌, ◌==◌, ◌&&◌, ◌||◌, Bool, false, elem, All, ℕ, zero, suc, ◌-◌, ◌≤◌, ◌<◌, ◌≡◌, refl,
  ap, sym, ◌∙◌, length-set, get_or-set, get_or-set_other, get_elem?, get_elem?-get_or, arith, List,
  [], ◌∷◌, map, ltb, if◌then◌else◌, length, get_or, set, some,
}
use stumpt.Merkleservice.BumpEntry.{BumpEntry, Level}
use stumpt.Merkleservice.Assembly.{
  offsets, remove, child_left, child_right, has_children, prune_level, prune_loop, prune,
}

-- The entries that the loop keeps above a level.
abbrev pub kept_level : Level → Level → Level
kept_level below [] = []
kept_level below (e ∷ es) =
    let rest = kept_level below es in if has_children (offsets below) e then rest else e ∷ rest

prune_level-kept :
    (below lev : Level) (own : List ℕ)
    → (prune_level (offsets below) lev own).0 ≡ kept_level below lev
unfolding prune_level
prune_level-kept below [] own = refl
prune_level-kept below (e ∷ es) own =
    ground (arith, prune_level-kept below es own, prune_level-kept below es (remove e.offset own))

-- What the level at `h` is after the rounds for the levels up to `top`.
abbrev pub pruned_at : ℕ → List Level → ℕ → Level
pruned_at top levels zero = get_or levels 0 []
pruned_at top levels (suc h) =
    if ltb h top
    then kept_level (get_or levels h []) (get_or levels (suc h) [])
    else get_or levels (suc h) []

pruned_at-set :
    (h j : ℕ) (levels : List Level)
    → suc h < length levels
    → pruned_at h
        (set levels (suc h) (kept_level (get_or levels h []) (get_or levels (suc h) [])))
        j
      ≡ pruned_at (suc h) levels j
pruned_at-set h zero levels bound =
    let v = kept_level (get_or levels h []) (get_or levels (suc h) []) in
    ground (arith, get_or-set levels (suc h) 0 v [] bound)
pruned_at-set h (suc i) levels bound =
    let v = kept_level (get_or levels h []) (get_or levels (suc h) []) in
    let below = get_or-set levels (suc h) i v [] bound in
    let here = get_or-set levels (suc h) (suc i) v [] bound in ground (arith, below, here)

prune_loop-at :
    (h j : ℕ) (sets : List (List ℕ)) (levels : List Level)
    → h < length levels
    → ((i : ℕ) → i ≤ h → get_or sets i [] ≡ offsets (get_or levels i []))
    → get_or (prune_loop h sets levels) j [] ≡ pruned_at h levels j
unfolding prune_loop
prune_loop-at zero zero sets levels bound same = refl
prune_loop-at zero (suc j) sets levels bound same = ground arith
prune_loop-at (suc h) j sets levels bound same =
    let lev = get_or levels (suc h) [] in
    let own = get_or sets (suc h) [] in
    let kept : (prune_level (get_or sets h []) lev own).0 ≡ kept_level (get_or levels h []) lev =
      ap (λ s. (prune_level s lev own).0) (same h (omega arith))
      ∙ prune_level-kept (get_or levels h []) lev own in
    let after = (prune_level (get_or sets h []) lev own).1 in
    let grown = set levels (suc h) (kept_level (get_or levels h []) lev) in
    ap (λ k. get_or (prune_loop h (set sets (suc h) after) (set levels (suc h) k)) j []) kept
    ∙ prune_loop-at h j (set sets (suc h) after) grown
        (omega (arith, length-set levels (suc h) (kept_level (get_or levels h []) lev)))
        (λ i le.
          get_or-set_other sets (suc h) i after [] (omega arith)
          ∙ same i (omega arith)
          ∙ ap offsets (
              sym (
                get_or-set_other levels (suc h) i (kept_level (get_or levels h []) lev) []
                  (omega arith))))
    ∙ pruned_at-set h j levels bound

length-prune_loop :
    (h : ℕ) (sets : List (List ℕ)) (levels : List Level)
    → length (prune_loop h sets levels) ≡ length levels
unfolding prune_loop
length-prune_loop zero sets levels = refl
length-prune_loop (suc h) sets levels =
    let result =
      prune_level (get_or sets h []) (get_or levels (suc h) []) (get_or sets (suc h) []) in
    length-prune_loop h (set sets (suc h) result.1) (set levels (suc h) result.0)
    ∙ length-set levels (suc h) result.0

get_or-map :
    (levels : List Level) (i : ℕ) → get_or (map offsets levels) i [] ≡ offsets (get_or levels i [])
get_or-map [] i = refl
get_or-map (l ∷ levels) zero = refl
get_or-map (l ∷ levels) (suc i) = get_or-map levels i

abbrev pub pruned : List Level → ℕ → Level
pruned levels zero = get_or levels 0 []
pruned levels (suc h) = kept_level (get_or levels h []) (get_or levels (suc h) [])

pruned_at-pruned :
    (levels : List Level) (h : ℕ)
    → h < length levels
    → pruned_at (length levels - 1) levels h ≡ pruned levels h
pruned_at-pruned levels zero bound = refl
pruned_at-pruned levels (suc h) bound = ground arith

pub prune-kept :
    (levels : List Level) (h : ℕ)
    → h < length levels
    → (length (prune levels) ≡ length levels)
      × (get_elem? (prune levels) h ≡ some (pruned levels h))
unfolding prune
prune-kept levels h bound =
    let sets = map offsets levels in
    let top = length levels - 1 in
    let len = length-prune_loop top sets levels in
    (
      len,
      get_elem?-get_or (prune_loop top sets levels) h [] (omega (arith, len))
          ∙ ap some (
              prune_loop-at top h sets levels (omega arith) (λ i le. get_or-map levels i)
              ∙ pruned_at-pruned levels h bound),
    )

-- Does a level list the node at an offset?
abbrev pub is_listed : ℕ → Level → Bool
is_listed o [] = false
is_listed o (e ∷ es) = e.offset == o || is_listed o es

abbrev pub without : (BumpEntry → Bool) → Level → Level
without p [] = []
without p (e ∷ es) = let rest = without p es in if p e then rest else e ∷ rest

-- A node that a reader computes from the level below, over the natural numbers.
abbrev pub is_superfluous : Level → BumpEntry → Bool
is_superfluous below e = is_listed (2 * e.offset) below && is_listed (2 * e.offset + 1) below

abbrev pub needed : List Level → ℕ → Level
needed levels zero = get_or levels 0 []
needed levels (suc h) = without (is_superfluous (get_or levels h [])) (get_or levels (suc h) [])

elem-is_listed : (o : ℕ) (lev : Level) → elem o (offsets lev) ≡ is_listed o lev
elem-is_listed o [] = refl
elem-is_listed o (e ∷ es) = ground (arith, elem-is_listed o es)

has_children-is_superfluous :
    (below : Level) (e : BumpEntry)
    → e.offset < 2 ^ 63
    → has_children (offsets below) e ≡ is_superfluous below e
has_children-is_superfluous below e small =
    let left : child_left e ≡ 2 * e.offset = omega (arith, small) in
    let right : child_right e ≡ 2 * e.offset + 1 = omega (arith, small) in
    let own = offsets below in
    ap (λ (l : ℕ). elem l own && elem (child_right e) own) left
    ∙ ap (λ (r : ℕ). elem (2 * e.offset) own && elem r own) right
    ∙ ap (λ x. x && elem (2 * e.offset + 1) own) (elem-is_listed (2 * e.offset) below)
    ∙ ap (λ x. is_listed (2 * e.offset) below && x) (elem-is_listed (2 * e.offset + 1) below)

kept_level-without :
    (below lev : Level)
    → All (λ e. e.offset < 2 ^ 63) lev
    → kept_level below lev ≡ without (is_superfluous below) lev
kept_level-without below [] small = refl
kept_level-without below (e ∷ es) (first, small) =
    ground (arith, kept_level-without below es small, has_children-is_superfluous below e first)

-- Where the offsets of a level are below 2 ^ 63, the loop from the top level down, which deletes from
-- the offset sets as it goes, leaves as many levels as there were and of that level, when it is
-- above level 0, the entries at an offset `o` of which the level below, as it stood before the
-- pruning, does not list both `2 * o` and `2 * o + 1`; of level 0 it leaves all.
pub prune-filter :
    (levels : List Level) (h : ℕ)
    → h < length levels
    → All (λ e. e.offset < 2 ^ 63) (get_or levels h [])
    → (length (prune levels) ≡ length levels)
      × (get_elem? (prune levels) h ≡ some (needed levels h))
prune-filter levels zero bound small = prune-kept levels 0 bound
prune-filter levels (suc h) bound small =
    let (len, at) = prune-kept levels (suc h) bound in
    (len, at ∙ ap some (kept_level-without (get_or levels h []) (get_or levels (suc h) []) small))
