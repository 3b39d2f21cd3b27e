-- ===== src/Merkleservice/Compound/Tests.antt =====
-- Two transactions of one pair in the older compound BUMP, and the theorem there.
use stumpt.Base.{ℕ, ◌≡◌, refl, arith, List, [], ◌∷◌, some, get_elem?, get_or, replicate, ok}
use stumpt.Base.Bytes.{Hash}
use stumpt.Base.Maps.{lookup, insert, nat_eq}
use stumpt.Merkleservice.Assembly.{plain}
use stumpt.Merkleservice.Extraction.{txid_entry}
use stumpt.Merkleservice.Compound.{
  SubtreeProof, Nodes, accumulate_proof, merge_proof, put_node, put_siblings, build_compound_bump,
  accumulate_all, prune_merged, prune_nodes,
}
use stumpt.Merkleservice.Compound.FirstLevel.{accumulate_proof-pair}

abbrev hash_of : ℕ → Hash
hash_of b = replicate 32 b

abbrev left_proof : SubtreeProof
left_proof = record {
  tx_id = hash_of 1;
  subtree_idx = 0;
  local_idx = 0;
  global_idx = 0;
  sibling_path = hash_of 2 ∷ [];
}

abbrev right_proof : SubtreeProof
right_proof = record {
  tx_id = hash_of 2;
  subtree_idx = 0;
  local_idx = 1;
  global_idx = 1;
  sibling_path = hash_of 1 ∷ [];
}

abbrev no_nodes : List Nodes
no_nodes = [] ∷ []

abbrev one_proof : List Nodes
one_proof = ((0, txid_entry 0 (hash_of 1)) ∷ (1, plain 1 (hash_of 2)) ∷ []) ∷ []

abbrev two_proofs : List Nodes
two_proofs = ((0, plain 0 (hash_of 1)) ∷ (1, txid_entry 1 (hash_of 2)) ∷ []) ∷ []

compound_run :
    build_compound_bump (λ es. es) (left_proof ∷ right_proof ∷ []) ([] ∷ []) 1 0 1
    ≡ ok ((plain 0 (hash_of 1) ∷ txid_entry 1 (hash_of 2) ∷ []) ∷ [])
unfolding build_compound_bump accumulate_all accumulate_proof merge_proof put_node put_siblings
    prune_merged prune_nodes insert
compound_run = refl

first_run : accumulate_proof ([] ∷ []) 1 0 left_proof no_nodes ≡ ok one_proof
unfolding accumulate_proof merge_proof put_node put_siblings insert
first_run = refl

second_run : accumulate_proof ([] ∷ []) 1 0 right_proof one_proof ≡ ok two_proofs
unfolding accumulate_proof merge_proof put_node put_siblings insert
second_run = refl

accumulate_proof-pair_example :
    (sib : Hash) × (get_elem? right_proof.sibling_path 0 ≡ some sib)
    × (lookup 0 (get_or two_proofs 0 []) ≡ some (plain 0 sib))
    × (lookup 1 (get_or two_proofs 0 []) ≡ some (txid_entry 1 (hash_of 2)))
accumulate_proof-pair_example =
    accumulate_proof-pair ([] ∷ []) 1 0 left_proof right_proof no_nodes (omega arith) refl first_run
      second_run
