-- ===== src/Merkleservice/Legacy.antt =====
-- internal/merkleservice/bump.go: assembleTokenBUMP, the older assembly from leaf positions. A level
-- from 1 on is a map from offset to entry. sort.Slice is a parameter; a read out of range or of a
-- subtree that is not in the map panics, which is `none`. The sorted path stands for the go-sdk value
-- made of it.
pub mod FirstLevel
mod Tests
use Prim.Native.Nat.{bit_xor}
use stumpt.Base.{
  ℕ, zero, suc, ◌+◌, ◌-◌, ◌*◌, ◌/◌, ◌^◌, Bool, true, false, ◌&&◌, Option, none, some, List, [], ◌∷◌,
  map, leb, ◌==◌ as num_eq, if◌then◌else◌, length, get_elem?, get_or, set, replicate, Run, ok, err,
  panic, or_panic, ◌>>=◌,
}
use stumpt.Base.Loop.{◌>>=◌ as and_then}
use stumpt.Base.Maps.{◌==◌, nat_eq, lookup, erase, keys, member}
use stumpt.Base.Bytes.{Hash}
use stumpt.Subtree.{next_power_of_two}
use stumpt.Merkleservice.BumpEntry.{BumpEntry, Level}
use stumpt.Merkleservice.Assembly.{Error, no_positions, plain, offsets}
use stumpt.Merkleservice.Cache.{CachedSubtree}
use stumpt.Merkleservice.Extraction.{LeafPos, txid_entry}
use stumpt.Merkleservice.Compound.{Nodes, put_node, prune_merged, values}

-- Is it the pair that was emitted last? -1 is `none`.
abbrev pub is_last : Option ℕ → ℕ → Bool
is_last none pair = false
is_last (some last) pair = num_eq pair last

-- The loop that builds level 0, before it is sorted.
unfoldable pub build_first_level : List (ℕ × CachedSubtree) → Option ℕ → List LeafPos → Option Level
build_first_level subtrees last [] = some []
build_first_level subtrees last (pos ∷ more) =
    let pair = pos.global_idx / 2 in
    let sib = bit_xor pos.local_idx 1 in
    let rest = build_first_level subtrees (some pair) more in
    and_then (lookup pos.subtree_idx subtrees) λ sc.
      and_then (get_elem? sc.leaves pos.local_idx) λ own.
        let one : Option Level = and_then rest λ es. some (txid_entry pos.global_idx own ∷ es) in
        let both : Option Level =
          and_then (get_elem? sc.leaves (if leb (length sc.leaves) sib then pos.local_idx else sib))
            λ h. and_then rest λ es.
              some (txid_entry pos.global_idx own ∷ plain (bit_xor pos.global_idx 1) h ∷ es) in
        if is_last last pair then one else both

-- An entry on a level that has none at the offset; the hash is read only then.
abbrev pub put_missing : ℕ → ℕ → Option Hash → List Nodes → Option (List Nodes)
put_missing level offset hash merged =
    if member offset (keys (get_or merged level []))
    then some merged
    else and_then hash λ h. put_node level (plain offset h) merged

-- The subtree levels `k`, …, `k + left - 1` of a position; those nodes stand in the store from `off`
-- on, `size` of them.
unfoldable pub put_subtree_levels :
    CachedSubtree → LeafPos → ℕ → ℕ → ℕ → ℕ → List Nodes → Option (List Nodes)
put_subtree_levels sc pos zero k off size merged = some merged
put_subtree_levels sc pos (suc left) k off size merged =
    let sib = bit_xor (pos.local_idx / 2 ^ k) 1 in
    let read = get_elem? sc.store (if leb size sib then off + size - 1 else off + sib) in
    and_then (put_missing k (bit_xor (pos.global_idx / 2 ^ k) 1) read merged)
      (put_subtree_levels sc pos left (k + 1) (off + size) (size / 2))

unfoldable pub put_top_levels : List Hash → LeafPos → ℕ → ℕ → ℕ → List Nodes → Option (List Nodes)
put_top_levels top pos subtree_height zero k merged = some merged
put_top_levels top pos subtree_height (suc left) k merged =
    let level = subtree_height + k in
    and_then (put_missing level (bit_xor (pos.global_idx / 2 ^ level) 1) (get_elem? top k) merged)
      (put_top_levels top pos subtree_height left (k + 1))

unfoldable pub put_upper_levels :
    List (ℕ × CachedSubtree)
    → List (List Hash)
    → ℕ
    → ℕ
    → List LeafPos
    → List Nodes
    → Option (List Nodes)
put_upper_levels subtrees top_proofs subtree_height top_tree_height [] merged = some merged
put_upper_levels subtrees top_proofs subtree_height top_tree_height (pos ∷ more) merged =
    and_then (lookup pos.subtree_idx subtrees) λ sc.
      and_then
        (put_subtree_levels sc pos (subtree_height - 1) 1 0
          (next_power_of_two (length sc.leaves) / 2) merged)
        λ m1. and_then (get_elem? top_proofs pos.subtree_idx) λ top.
          and_then (put_top_levels top pos subtree_height top_tree_height 0 m1)
            (put_upper_levels subtrees top_proofs subtree_height top_tree_height more)

-- Level 0 as the nodes that the pruning of level 1 looks at.
abbrev pub as_nodes : Level → Nodes
as_nodes [] = []
as_nodes (e ∷ es) = (e.offset, e) ∷ as_nodes es

-- The path: level 0 as it was sorted, and above it the pruned levels.
abbrev pub finish_path : (Level → Level) → Level → List Nodes → List Level
finish_path sort_slice level0 merged = level0 ∷ map (λ nodes. sort_slice (values nodes)) merged

abbrev pub drop_first : List Nodes → List Nodes
drop_first [] = []
drop_first (nodes ∷ merged) = merged

unfoldable pub assemble_token_bump :
    (List LeafPos → List LeafPos)
    → (Level → Level)
    → List LeafPos
    → List (ℕ × CachedSubtree)
    → List (List Hash)
    → ℕ
    → ℕ
    → ℕ
    → Run Error (List Level)
assemble_token_bump sort_positions sort_slice [] subtrees top_proofs subtree_height top total =
    err no_positions
assemble_token_bump sort_positions sort_slice (p ∷ ps) subtrees top_proofs subtree_height top zero =
    panic
assemble_token_bump sort_positions sort_slice (p ∷ ps) subtrees top_proofs subtree_height top
      (suc rest) =
    let sorted = sort_positions (p ∷ ps) in
    or_panic (
      and_then (build_first_level subtrees none sorted) λ built.
        let level0 = sort_slice built in
        and_then
          (put_upper_levels subtrees top_proofs subtree_height top sorted (replicate (suc rest) []))
          λ merged. some (
            finish_path sort_slice level0
              (drop_first (prune_merged rest (set merged 0 (as_nodes level0))))))
