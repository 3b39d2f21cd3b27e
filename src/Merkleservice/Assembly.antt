-- ===== src/Merkleservice/Assembly.antt =====
-- internal/merkleservice/bump.go: the steps that assembleTokenBUMPFromFragments and
-- assembleTokenBUMPFast share, and assembleTokenBUMPFromFragments itself. sort.Slice is a parameter;
-- a worker's level slices are one list of `total_height` levels.
pub mod Prune
pub mod Resolve
pub mod Top
mod Tests
use Prim.Native.Nat.{bit_xor}
use stumpt.Base.{
  ℕ, zero, suc, ◌+◌, ◌-◌, ◌*◌, ◌/◌, ◌%◌, ◌^◌, ◌≡◌, Bool, true, false, ◌&&◌, Option, none, some,
  List, [], ◌∷◌, ◌++◌, map, ltb, leb, ◌==◌, if◌then◌else◌, length, get_elem?, get_or, set, elem,
  replicate, Run, ok, err, panic, ◌>>=◌, or_panic,
}
use stumpt.Base.Loop.{◌>>=◌ as and_then}
use stumpt.Base.Bytes.{Hash}
use stumpt.Merkleservice.BumpEntry.{BumpEntry, Level}
use stumpt.Merkleservice.Fragment.{Error as FragmentError, unmarshal_fragment}
use stumpt.Merkleservice.Serialize.{serialize_bump}

pub data Error : Type 0 where
  no_fragments : Error
  no_positions : Error
  fragment_unmarshal : FragmentError → Error

abbrev pub offsets : Level → List ℕ
offsets [] = []
offsets (e ∷ es) = e.offset ∷ offsets es

-- `delete(set, offset)`
abbrev pub remove : ℕ → List ℕ → List ℕ
remove x [] = []
remove x (y ∷ ys) = let rest = remove x ys in if y == x then rest else y ∷ rest

-- `e.offset*2` and `e.offset*2 + 1` in uint64.
abbrev pub child_left : BumpEntry → ℕ
child_left e = e.offset * 2 % 2 ^ 64

abbrev pub child_right : BumpEntry → ℕ
child_right e = (child_left e + 1) % 2 ^ 64

abbrev pub has_children : List ℕ → BumpEntry → Bool
has_children child_set e = elem (child_left e) child_set && elem (child_right e) child_set

-- One level: the entries kept, and the level's own set without the entries dropped.
unfoldable pub prune_level : List ℕ → Level → List ℕ → Level × List ℕ
prune_level child_set [] own = ([], own)
prune_level child_set (e ∷ es) own =
    let dropped = prune_level child_set es (remove e.offset own) in
    let (kept, after) = prune_level child_set es own in
    if has_children child_set e then dropped else (e ∷ kept, after)

-- `for h := totalHeight - 1; h > 0; h--`, on the sets and the levels.
unfoldable pub prune_loop : ℕ → List (List ℕ) → List Level → List Level
prune_loop zero sets levels = levels
prune_loop (suc h) sets levels =
    let (kept, own) =
      prune_level (get_or sets h []) (get_or levels (suc h) []) (get_or sets (suc h) []) in
    prune_loop h (set sets (suc h) own) (set levels (suc h) kept)

unfoldable pub prune : List Level → List Level
prune levels = prune_loop (length levels - 1) (map offsets levels) levels

-- `int(g) / hashesPerSubtree` as an index: a negative one panics, and so does a division by zero.
abbrev pub subtree_of : ℕ → ℕ → Option ℕ
subtree_of g zero = none
subtree_of g (suc n) =
    if ltb g 0x8000_0000_0000_0000
    then some (g / suc n)
    else if (0x1_0000_0000_0000_0000 - g) / suc n == 0
    then some 0
    else none

abbrev pub top_hash : List (List Hash) → ℕ → ℕ → ℕ → Option Hash
top_hash top_proofs hashes_per_subtree g k =
    and_then (subtree_of g hashes_per_subtree)
      λ si. and_then (get_elem? top_proofs si) λ tp. get_elem? tp k

abbrev pub plain : ℕ → Hash → BumpEntry
plain offset hash = record { offset = offset; hash = hash; txid = false }

-- What the loop over the transactions appends to `block_level`. Each comes as its global index and
-- the hash that its subtree's top proof has for the level, `none` where the read would panic.
unfoldable pub top_entries : ℕ → List (ℕ × Option Hash) → List ℕ → Option Level
top_entries block_level [] seen = some []
top_entries block_level ((g, proof) ∷ more) seen =
    let sib = bit_xor (g / 2 ^ block_level) 1 in
    let skip = top_entries block_level more seen in
    let emit : Option Level =
      and_then proof
        λ h. and_then (top_entries block_level more (sib ∷ seen)) λ es. some (plain sib h ∷ es) in
    if elem sib seen then skip else emit

-- The level-0 offsets of the transactions.
abbrev pub txid_offsets : Level → List ℕ
txid_offsets [] = []
txid_offsets (e ∷ es) = let rest = txid_offsets es in if e.txid then e.offset ∷ rest else rest

-- `append` to one level; only a level that entries are appended to has to be there.
abbrev pub append_level : List Level → ℕ → Level → Option (List Level)
append_level levels h [] = some levels
append_level levels h (e ∷ es) =
    if ltb h (length levels) then some (set levels h (get_or levels h [] ++ (e ∷ es))) else none

-- The rounds `k`, …, `k + left - 1` of the top-tree loop.
unfoldable pub add_top : List (List Hash) → ℕ → ℕ → ℕ → ℕ → List Level → Option (List Level)
add_top top_proofs hps subtree_height zero k levels = some levels
add_top top_proofs hps subtree_height (suc left) k levels = and_then (get_elem? levels 0) λ level0.
    let txids = map (λ g. (g, top_hash top_proofs hps g k)) (txid_offsets level0) in
    and_then (top_entries (subtree_height + k) txids []) λ es.
      and_then (append_level levels (subtree_height + k) es)
        λ more. add_top top_proofs hps subtree_height left (k + 1) more

-- The first `limit` levels of a fragment, each behind the worker's level.
unfoldable pub append_levels : ℕ → List Level → List Level → Option (List Level)
append_levels zero levels acc = some acc
append_levels (suc limit) [] acc = some acc
append_levels (suc limit) (lev ∷ levels) [] = none
append_levels (suc limit) (lev ∷ levels) (a ∷ acc) =
    and_then (append_levels limit levels acc) λ rest. some ((a ++ lev) ∷ rest)

abbrev wrap_error : Run FragmentError (List Level) → Run Error (List Level)
wrap_error (ok levels) = ok levels
wrap_error (err e) = err (fragment_unmarshal e)
wrap_error panic = panic

unfoldable pub load_fragments : ℕ → List (List ℕ) → List Level → Run Error (List Level)
load_fragments limit [] acc = ok acc
load_fragments limit (f ∷ fs) acc = wrap_error (unmarshal_fragment f) >>= λ levels.
    or_panic (append_levels limit levels acc) >>= λ grown. load_fragments limit fs grown

module _ (sort_slice : Level → Level) where
  abbrev pub sort_level : Level → Level
  sort_level lev = if ltb 1 (length lev) then sort_slice lev else lev

  unfoldable pub finish_bump : ℕ → List Level → List ℕ
  finish_bump block_height levels = serialize_bump block_height (prune (map sort_level levels))

  unfoldable pub assemble_token_bump_from_fragments :
      ℕ → List (List ℕ) → List (List Hash) → ℕ → ℕ → ℕ → ℕ → Run Error (List ℕ)
  assemble_token_bump_from_fragments block_height [] top_proofs subtree_height top total hps =
      err no_fragments
  assemble_token_bump_from_fragments block_height (f ∷ fs) top_proofs subtree_height top total hps =
      load_fragments subtree_height (f ∷ fs) (replicate total []) >>= λ loaded.
      or_panic (add_top top_proofs hps subtree_height top 0 loaded) >>= λ levels.
      ok (finish_bump block_height levels)
