-- ===== src/Merkleservice/Compound.antt =====
-- internal/merkleservice/bump.go: accumulateProof and buildCompoundBUMP, the older compound BUMP. A
-- level is a map from offset to entry. The sorted path stands for the go-sdk value made of it.
pub mod FirstLevel
mod Tests
use Prim.Native.Nat.{bit_xor}
use stumpt.Base.{
  ℕ, zero, suc, ◌+◌, ◌-◌, ◌*◌, ◌/◌, ◌%◌, ◌^◌, ◌<◌, ◌≡◌, refl, ap, sym, ◌∙◌, arith, Bool, true,
  false, ◌&&◌, ◌||◌, Option, none, some, List, [], ◌∷◌, map, ltb, leb, if◌then◌else◌, length,
  get_elem?, get_or, set, get_or-set, get_or-set_other, replicate, Run, ok, err, panic, ◌>>=◌,
  or_panic, Bool-cases, Option-cases, inl, inr,
}
use stumpt.Base.Loop.{◌>>=◌ as and_then}
use stumpt.Base.Maps.{◌==◌, nat_eq, lookup, insert, erase, keys, member, lookup-insert}
use stumpt.Base.Bytes.{Hash}
use stumpt.Merkleservice.BumpEntry.{BumpEntry, Level}
use stumpt.Merkleservice.Assembly.{plain}
use stumpt.Merkleservice.Extraction.{txid_entry}

-- types.go: SubtreeProof
pub record SubtreeProof : Type 0 where
  pub tx_id : Hash
  pub subtree_idx : ℕ
  pub local_idx : ℕ
  pub global_idx : ℕ
  pub sibling_path : List Hash

pub data Error : Type 0 where
  no_proofs : Error
  proof_too_short : ℕ → Error
  top_proof_missing : ℕ → Error

abbrev pub Nodes : Type 0
Nodes = List (ℕ × BumpEntry)

-- `merged[h][e.Offset] = e`; a level that is not there panics.
unfoldable pub put_node : ℕ → BumpEntry → List Nodes → Option (List Nodes)
put_node h e merged =
    if ltb h (length merged)
    then some (set merged h (insert e.offset e (get_or merged h [])))
    else none

-- The siblings on the levels `h + k`, …, with the hashes `k`, … of the path, `left` of them.
unfoldable pub put_siblings : ℕ → List Hash → ℕ → ℕ → ℕ → List Nodes → Option (List Nodes)
put_siblings g path h zero k merged = some merged
put_siblings g path h (suc left) k merged = and_then (get_elem? path k) λ hash.
    and_then (put_node (h + k) (plain (bit_xor (g / 2 ^ (h + k)) 1) hash) merged)
      (put_siblings g path h left (k + 1))

unfoldable pub merge_proof : SubtreeProof → List Hash → ℕ → ℕ → List Nodes → Option (List Nodes)
merge_proof proof top subtree_height top_tree_height merged =
    let g = proof.global_idx in
    and_then (put_node 0 (txid_entry g proof.tx_id) merged) λ m1.
      and_then (get_elem? proof.sibling_path 0) λ sib.
        and_then (put_node 0 (plain (bit_xor g 1) sib) m1) λ m2.
          and_then (put_siblings g proof.sibling_path 0 (subtree_height - 1) 1 m2)
            (put_siblings g top subtree_height top_tree_height 0)

unfoldable pub accumulate_proof :
    List (List Hash) → ℕ → ℕ → SubtreeProof → List Nodes → Run Error (List Nodes)
accumulate_proof top_proofs subtree_height top_tree_height proof merged =
    let si = proof.subtree_idx in
    let top = get_or top_proofs si [] in
    if ltb (length proof.sibling_path) subtree_height
    then err (proof_too_short (length proof.sibling_path))
    else if leb (length top_proofs) si || ltb (length top) top_tree_height
    then err (top_proof_missing si)
    else or_panic (merge_proof proof top subtree_height top_tree_height merged)

unfoldable pub accumulate_all :
    List (List Hash) → ℕ → ℕ → List SubtreeProof → List Nodes → Run Error (List Nodes)
accumulate_all top_proofs subtree_height top_tree_height [] merged = ok merged
accumulate_all top_proofs subtree_height top_tree_height (p ∷ ps) merged =
    accumulate_proof top_proofs subtree_height top_tree_height p merged
    >>= accumulate_all top_proofs subtree_height top_tree_height ps

-- Deletes the offsets whose two children are in the level below.
unfoldable pub prune_nodes : Nodes → List ℕ → Nodes → Nodes
prune_nodes below [] nodes = nodes
prune_nodes below (o ∷ os) nodes = prune_nodes below os (
    if member (o * 2) (keys below) && member (o * 2 + 1) (keys below) then erase o nodes else nodes)

-- `for h := totalHeight - 1; h > 0; h--`
unfoldable pub prune_merged : ℕ → List Nodes → List Nodes
prune_merged zero merged = merged
prune_merged (suc h) merged =
    let nodes = get_or merged (suc h) [] in
    prune_merged h (set merged (suc h) (prune_nodes (get_or merged h []) (keys nodes) nodes))

abbrev pub values : Nodes → Level
values [] = []
values ((o, e) ∷ nodes) = e ∷ values nodes

unfoldable pub build_compound_bump :
    (Level → Level) → List SubtreeProof → List (List Hash) → ℕ → ℕ → ℕ → Run Error (List Level)
build_compound_bump sort_slice [] top_proofs subtree_height top_tree_height total = err no_proofs
build_compound_bump sort_slice (p ∷ ps) top_proofs subtree_height top_tree_height zero = panic
build_compound_bump sort_slice (p ∷ ps) top_proofs subtree_height top_tree_height (suc rest) =
    let total = suc rest in
    accumulate_all top_proofs subtree_height top_tree_height (p ∷ ps) (replicate total [])
    >>= λ merged. ok (map (λ nodes. sort_slice (values nodes)) (prune_merged (total - 1) merged))
