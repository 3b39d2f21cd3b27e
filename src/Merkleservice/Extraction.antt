-- ===== src/Merkleservice/Extraction.antt =====
-- internal/merkleservice/bump.go: ensureBitset, bitsetCheck, extractSubtreeFragment and
-- assembleTokenBUMPFast. sort.Ints and sort.Slice are parameters. An int is its bit
-- pattern, so that a negative index is out of range, and a read or a write out of range panics,
-- which is `none`.
pub mod Bitset
pub mod Siblings
mod Tests
use Prim.Native.Nat.{bit_xor, bit_and, bit_or, min}
use stumpt.Base.{
  ℕ, zero, suc, ◌+◌, ◌-◌, ◌*◌, ◌/◌, ◌%◌, ◌^◌, ◌≡◌, Bool, true, false, Option, none, some, List, [],
  ◌∷◌, ◌++◌, map, take, ltb, leb, ◌==◌, if◌then◌else◌, length, get_elem?, get_or, set, replicate,
  Run, ok, err, ◌>>=◌, or_panic,
}
use stumpt.Base.Loop.{◌>>=◌ as and_then}
use stumpt.Base.Maps.{nat_eq, lookup}
use stumpt.Base.Bytes.{Hash}
use stumpt.Subtree.{next_power_of_two}
use stumpt.Merkleservice.BumpEntry.{BumpEntry, Level}
use stumpt.Merkleservice.Cache.{CachedSubtree}
use stumpt.Merkleservice.TokenIndex.{int_from_int32}
use stumpt.Merkleservice.Assembly.{
  Error, no_positions, plain, append_level, top_entries, sort_level, finish_bump,
}

-- `for i := range ws.bitset { ws.bitset[i] = 0 }`
abbrev pub clear : List ℕ → List ℕ
clear [] = []
clear (w ∷ ws) = 0 ∷ clear ws

-- The worker's buffer, as long as its capacity, is replaced when it is too short, else cut and
-- cleared. The callers below start from an empty buffer.
unfoldable pub ensure_bitset : List ℕ → ℕ → List ℕ
ensure_bitset buffer words =
    if ltb (length buffer) words then replicate words 0 else clear (take words buffer)

-- Was the bit set? It is now.
unfoldable pub bitset_check : ℕ → List ℕ → Option (Bool × List ℕ)
bitset_check pos bs =
    let bit = 2 ^ (pos % 64) in
    and_then (get_elem? bs (pos / 64)) λ word.
      if bit_and word bit == 0
      then some (false, set bs (pos / 64) (bit_or word bit))
      else some (true, bs)

abbrev pub txid_entry : ℕ → Hash → BumpEntry
txid_entry offset hash = record { offset = offset; hash = hash; txid = true }

-- Positions as pairs of the local and the global index, in the order of the loop.
unfoldable pub level_zero : List Hash → ℕ → List (ℕ × ℕ) → List ℕ → Option Level
level_zero leaves n [] bs = some []
level_zero leaves n ((li, g) ∷ more) bs =
    let sib = bit_xor li 1 in
    let rest = level_zero leaves n more bs in
    and_then (get_elem? leaves li) λ own. and_then (bitset_check (li / 2) bs) λ (seen, after).
      let both : Option Level = and_then (get_elem? leaves (if leb n sib then li else sib)) λ h.
        and_then (level_zero leaves n more after)
          λ es. some (txid_entry g own ∷ plain (bit_xor g 1) h ∷ es) in
      let one : Option Level = and_then rest λ es. some (txid_entry g own ∷ es) in
      if seen then one else both

-- The siblings on level `k`, whose nodes stand in the store from `off` on, `size` of them.
unfoldable pub level_siblings : List Hash → ℕ → ℕ → ℕ → List (ℕ × ℕ) → List ℕ → Option Level
level_siblings store off size k [] bs = some []
level_siblings store off size k ((li, g) ∷ more) bs =
    let sib = bit_xor (li / 2 ^ k) 1 in
    let pos = if leb size sib then size - 1 else sib in
    let rest = level_siblings store off size k more bs in
    and_then (bitset_check pos bs) λ (seen, after).
      let emit : Option Level = and_then (get_elem? store (off + pos)) λ h.
        and_then (level_siblings store off size k more after)
          λ es. some (plain (bit_xor (g / 2 ^ k) 1) h ∷ es) in
      if seen then rest else emit

-- The levels `k`, …, `k + rounds - 1`; `most` bounds the words of the bitset.
unfoldable pub upper_levels : ℕ → List Hash → List (ℕ × ℕ) → ℕ → ℕ → ℕ → ℕ → Option (List Level)
upper_levels most store ps zero k off size = some []
upper_levels most store ps (suc rounds) k off size =
    and_then (level_siblings store off size k ps (ensure_bitset [] (min ((size + 63) / 64) most)))
      λ es.
        and_then (upper_levels most store ps rounds (k + 1) (off + size) (size / 2))
          λ levels. some (es ∷ levels)

-- Level 0, which is written whatever the height, and the levels up to below the subtree's root.
unfoldable pub subtree_levels : List Hash → List Hash → List (ℕ × ℕ) → ℕ → Option (List Level)
subtree_levels leaves store ps subtree_height =
    let half = next_power_of_two (length leaves) / 2 in
    let words = (half + 63) / 64 in
    and_then (level_zero leaves (length leaves) ps (ensure_bitset [] words)) λ es.
      and_then (upper_levels words store ps (subtree_height - 1) 1 0 half)
        λ levels. some (es ∷ levels)

abbrev pub with_global : ℕ → ℕ → ℕ × ℕ
with_global base li = (li, (base + li) % 2 ^ 64)

module _ (sort_ints : List ℕ → List ℕ) (sort_slice : Level → Level) where
  unfoldable pub extract_subtree_fragment :
      List Hash → List Hash → List ℕ → ℕ → ℕ → ℕ → Option (List Level)
  extract_subtree_fragment leaves store local_idxs subtree_idx hashes_per_subtree subtree_height =
      let ps =
        map (with_global (subtree_idx * hashes_per_subtree))
          (sort_ints (map int_from_int32 local_idxs)) in
      and_then (subtree_levels leaves store ps subtree_height)
        λ levels. some (map (sort_level sort_slice) (take subtree_height levels))

-- leafPos
pub record LeafPos : Type 0 where
  pub subtree_idx : ℕ
  pub local_idx : ℕ
  pub global_idx : ℕ

abbrev pub add_to_run : LeafPos → List (ℕ × List (ℕ × ℕ)) → List (ℕ × List (ℕ × ℕ))
add_to_run p [] = (p.subtree_idx, (p.local_idx, p.global_idx) ∷ []) ∷ []
add_to_run p ((si, run) ∷ runs) =
    if p.subtree_idx == si
    then (si, (p.local_idx, p.global_idx) ∷ run) ∷ runs
    else (p.subtree_idx, (p.local_idx, p.global_idx) ∷ []) ∷ (si, run) ∷ runs

-- The contiguous runs of positions in one subtree.
unfoldable pub runs_of : List LeafPos → List (ℕ × List (ℕ × ℕ))
runs_of [] = []
runs_of (p ∷ ps) = add_to_run p (runs_of ps)

-- Each level behind the worker's, from level `h` on.
unfoldable pub append_all : ℕ → List Level → List Level → Option (List Level)
append_all h [] acc = some acc
append_all h (lev ∷ levels) acc = and_then (append_level acc h lev) (append_all (h + 1) levels)

-- The loop over the runs; a subtree that was not loaded is passed over.
unfoldable pub load_runs :
    List (ℕ × CachedSubtree) → ℕ → List (ℕ × List (ℕ × ℕ)) → List Level → Option (List Level)
load_runs subtrees subtree_height [] acc = some acc
load_runs subtrees subtree_height ((si, run) ∷ runs) acc =
    and_then
      (elim (lookup si subtrees) [
        | none ↦ some acc
        | some sc ↦
            and_then (subtree_levels sc.leaves sc.store run subtree_height)
              λ levels. append_all 0 levels acc
      ])
      (load_runs subtrees subtree_height runs)

abbrev pub with_proof : List (List Hash) → ℕ → LeafPos → ℕ × Option Hash
with_proof top_proofs k p =
    (p.global_idx, and_then (get_elem? top_proofs p.subtree_idx) λ tp. get_elem? tp k)

-- The rounds `k`, …, `k + left - 1` of the top-tree loop.
unfoldable pub add_top_proofs :
    List (List Hash) → List LeafPos → ℕ → ℕ → ℕ → List Level → Option (List Level)
add_top_proofs top_proofs ps subtree_height zero k levels = some levels
add_top_proofs top_proofs ps subtree_height (suc left) k levels =
    and_then (top_entries (subtree_height + k) (map (with_proof top_proofs k) ps) []) λ es.
      and_then (append_level levels (subtree_height + k) es)
        (add_top_proofs top_proofs ps subtree_height left (k + 1))

module _ (sort_positions : List LeafPos → List LeafPos) (sort_slice : Level → Level) where
  unfoldable pub assemble_token_bump_fast :
      ℕ
      → List LeafPos
      → List (ℕ × CachedSubtree)
      → List (List Hash)
      → ℕ
      → ℕ
      → ℕ
      → Run Error (List ℕ)
  assemble_token_bump_fast block_height [] subtrees top_proofs subtree_height top total =
      err no_positions
  assemble_token_bump_fast block_height (p ∷ ps) subtrees top_proofs subtree_height top total =
      let sorted = sort_positions (p ∷ ps) in
      or_panic (
        and_then (load_runs subtrees subtree_height (runs_of sorted) (replicate total []))
          (add_top_proofs top_proofs sorted subtree_height top 0))
      >>= λ levels. ok (finish_bump sort_slice block_height levels)
