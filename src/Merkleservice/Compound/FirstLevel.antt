-- ===== src/Merkleservice/Compound/FirstLevel.antt =====
-- internal/merkleservice/bump.go: what accumulateProof does to level 0.
use Prim.Native.Nat.{bit_xor}
use stumpt.Base.{
  ℕ, zero, suc, ◌+◌, ◌-◌, ◌/◌, ◌^◌, ◌<◌, ◌≡◌, refl, ap, ◌∙◌, arith, Bool, true, false, ◌||◌, Option,
  none, some, List, [], ltb, leb, if◌then◌else◌, length, get_elem?, get_or, set, get_or-set,
  get_or-set_other, Run, ok, err, or_panic,
}
use stumpt.Base.Loop.{◌>>=◌ as and_then}
use stumpt.Base.Bits.{bit_xor_cancel, bit_xor-one}
use stumpt.Base.Maps.{◌==◌, nat_eq, lookup, insert, lookup-insert}
use stumpt.Base.Bytes.{Hash}
use stumpt.Merkleservice.BumpEntry.{BumpEntry}
use stumpt.Merkleservice.Assembly.{plain}
use stumpt.Merkleservice.Extraction.{txid_entry}
use stumpt.Merkleservice.Compound.{
  SubtreeProof, Nodes, proof_too_short, top_proof_missing, put_node, put_siblings, merge_proof,
  accumulate_proof,
}

taken :
    {A B : Type 0} (m : Option A) (f : A → Option B) {b : B}
    → and_then m f ≡ some b
    → (a : A) × (m ≡ some a) × (f a ≡ some b)
taken none f h = cc
taken (some a) f h = (a, refl, h)

put_node-set :
    (h : ℕ) (e : BumpEntry) (merged : List Nodes) {after : List Nodes}
    → put_node h e merged ≡ some after
    → (h < length merged) × (after ≡ set merged h (insert e.offset e (get_or merged h [])))
unfolding put_node
put_node-set h e merged ran = ground arith

put_node-first :
    (h : ℕ) (e : BumpEntry) (merged : List Nodes) {after : List Nodes}
    → 0 < h
    → put_node h e merged ≡ some after
    → get_or after 0 [] ≡ get_or merged 0 []
put_node-first h e merged above ran =
    ap (λ (m : List Nodes). get_or m 0 []) (put_node-set h e merged ran).1
    ∙ get_or-set_other merged h 0 (insert e.offset e (get_or merged h [])) [] above

put_siblings-first :
    (g : ℕ) (path : List Hash) (h left k : ℕ) (merged : List Nodes) {after : List Nodes}
    → 0 < h + k
    → put_siblings g path h left k merged ≡ some after
    → get_or after 0 [] ≡ get_or merged 0 []
unfolding put_siblings
put_siblings-first g path h zero k merged above ran = cc ran
put_siblings-first g path h (suc left) k merged {after} above ran =
    let (hash, read, r1) = taken (get_elem? path k) _ ran in
    let (m1, put, r2) =
      taken (put_node (h + k) (plain (bit_xor (g / 2 ^ (h + k)) 1) hash) merged) _ r1 in
    put_siblings-first g path h left (k + 1) m1 (omega arith) r2
    ∙ put_node-first (h + k) (plain (bit_xor (g / 2 ^ (h + k)) 1) hash) merged above put

put_node-zero :
    (e : BumpEntry) (merged : List Nodes) (o : ℕ) {after : List Nodes}
    → put_node 0 e merged ≡ some after
    → lookup o (get_or after 0 [])
      ≡ (if e.offset == o then some e else lookup o (get_or merged 0 []))
put_node-zero e merged o ran =
    let (bound, same) = put_node-set 0 e merged ran in
    ap (λ (m : List Nodes). lookup o (get_or m 0 [])) same
    ∙ ap (lookup o) (get_or-set merged 0 0 (insert e.offset e (get_or merged 0 [])) [] bound)
    ∙ lookup-insert e.offset o e (get_or merged 0 [])

merge_proof-first :
    (proof : SubtreeProof) (top : List Hash) (subtree_height top_tree_height o : ℕ)
    (merged : List Nodes) {after : List Nodes}
    → 0 < subtree_height
    → merge_proof proof top subtree_height top_tree_height merged ≡ some after
    → (sib : Hash) × (get_elem? proof.sibling_path 0 ≡ some sib)
      × (lookup o (get_or after 0 []) ≡ (
          if bit_xor proof.global_idx 1 == o
          then some (plain (bit_xor proof.global_idx 1) sib)
          else if proof.global_idx == o
          then some (txid_entry proof.global_idx proof.tx_id)
          else lookup o (get_or merged 0 [])))
unfolding merge_proof
merge_proof-first proof top sh th o merged {after} high ran =
    let g = proof.global_idx in
    let (m1, put1, r1) = taken (put_node 0 (txid_entry g proof.tx_id) merged) _ ran in
    let (sib, read, r2) = taken (get_elem? proof.sibling_path 0) _ r1 in
    let (m2, put2, r3) = taken (put_node 0 (plain (bit_xor g 1) sib) m1) _ r2 in
    let (m3, put3, r4) = taken (put_siblings g proof.sibling_path 0 (sh - 1) 1 m2) _ r3 in
    let kept : get_or after 0 [] ≡ get_or m2 0 [] =
      put_siblings-first g top sh th 0 m3 (omega arith) r4
      ∙ put_siblings-first g proof.sibling_path 0 (sh - 1) 1 m2 (omega arith) put3 in
    (
      sib,
      read,
      ap (lookup o) kept
          ∙ ground (
            arith,
            put_node-zero (plain (bit_xor g 1) sib) m1 o put2,
            put_node-zero (txid_entry g proof.tx_id) merged o put1,
          ),
    )

unpanic : {E A : Type 0} (m : Option A) {a : A} → or_panic {E = E} m ≡ ok a → m ≡ some a
unpanic none h = cc
unpanic (some x) h = cc

strip :
    {E A : Type 0} (b c : Bool) (e1 e2 : E) (m : Run E A) {a : A}
    → (if b then err e1 else if c then err e2 else m) ≡ ok a
    → m ≡ ok a
strip true c e1 e2 m h = cc
strip false true e1 e2 m h = cc
strip false false e1 e2 m h = h

merged_proof :
    (tops : List (List Hash)) (sh th : ℕ) (proof : SubtreeProof) (merged : List Nodes)
    {after : List Nodes}
    → accumulate_proof tops sh th proof merged ≡ ok after
    → merge_proof proof (get_or tops proof.subtree_idx []) sh th merged ≡ some after
unfolding accumulate_proof
merged_proof tops sh th proof merged ran =
    let top = get_or tops proof.subtree_idx [] in
    unpanic (merge_proof proof top sh th merged) (
      strip (ltb (length proof.sibling_path) sh)
        (leb (length tops) proof.subtree_idx || ltb (length top) th)
        (proof_too_short (length proof.sibling_path)) (top_proof_missing proof.subtree_idx)
        (or_panic (merge_proof proof top sh th merged)) ran)

-- For subtrees of at least one level: once proofs of both transactions of a pair were accumulated,
-- the entry of the first is the plain sibling that the second wrote over it, so that it is no longer
-- marked as a transaction; the second is marked.
pub accumulate_proof-pair :
    (tops : List (List Hash)) (sh th : ℕ) (p q : SubtreeProof) (merged : List Nodes)
    {m1 m2 : List Nodes}
    → 0 < sh
    → q.global_idx ≡ bit_xor p.global_idx 1
    → accumulate_proof tops sh th p merged ≡ ok m1
    → accumulate_proof tops sh th q m1 ≡ ok m2
    → (sib : Hash) × (get_elem? q.sibling_path 0 ≡ some sib)
      × (lookup p.global_idx (get_or m2 0 []) ≡ some (plain p.global_idx sib))
      × (lookup q.global_idx (get_or m2 0 []) ≡ some (txid_entry q.global_idx q.tx_id))
accumulate_proof-pair tops sh th p q merged {m1} {m2} high pair first second =
    let top = get_or tops q.subtree_idx [] in
    let run = merged_proof tops sh th q m1 second in
    let back : bit_xor q.global_idx 1 ≡ p.global_idx =
      ap (λ x. bit_xor x 1) pair ∙ bit_xor_cancel p.global_idx 1 in
    let (sib, read, here) = merge_proof-first q top sh th p.global_idx m1 high run in
    let (sib2, read2, there) = merge_proof-first q top sh th q.global_idx m1 high run in
    (
      sib,
      read,
      ground (arith, back, here, ap (λ x. plain x sib) back),
      ground (arith, there, bit_xor-one q.global_idx),
    )
