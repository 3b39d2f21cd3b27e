-- ===== src/Merkleservice/TokenIndex.antt =====
-- internal/merkleservice/token_subtree_index.go: TokenSubtreeIndex, the leaf positions of each token
-- in each subtree. An int32 is its bit pattern, a number below 2 ^ 32.
use stumpt.Base.{
  ℕ, ◌%◌, ◌^◌, ◌≡◌, refl, arith, Bool, true, false, ◌&&◌, ◌||◌, List, [], ◌∷◌, ◌++◌, ltb, ◌+◌,
  if◌then◌else◌,
}
use stumpt.Base.Maps.{
  ◌==◌, nat_eq, bytes_eq, lookup, insert, keys, member, lookup-insert, member-insert, bytes_beq_iff,
}
use mathlib.Core.List.{append-nil}
use stumpt.Stump.{Token, or_nil}

-- `entries[token][subtreeIdx]`
pub record TokenSubtreeIndex : Type 0 where
  pub entries : List (Token × List (ℕ × List ℕ))

unfoldable pub new_token_subtree_index : TokenSubtreeIndex
new_token_subtree_index = record { entries = [] }

unfoldable pub add_batch : Token → ℕ → List ℕ → TokenSubtreeIndex → TokenSubtreeIndex
add_batch token subtree [] idx = idx
add_batch token subtree (x ∷ xs) idx =
    let sm = or_nil (lookup token idx.entries) in
    let slot = or_nil (lookup subtree sm) in
    record { entries = insert token (insert subtree (slot ++ (x ∷ xs)) sm) idx.entries }

unfoldable pub add : Token → ℕ → ℕ → TokenSubtreeIndex → TokenSubtreeIndex
add token subtree local_idx idx =
    let sm = or_nil (lookup token idx.entries) in
    let slot = or_nil (lookup subtree sm) in
    record {
      entries = insert token (insert subtree (slot ++ (local_idx % 2 ^ 32 ∷ [])) sm) idx.entries;
    }

unfoldable pub get : Token → ℕ → TokenSubtreeIndex → List ℕ
get token subtree idx = or_nil (lookup subtree (or_nil (lookup token idx.entries)))

-- The keys of the map; Go leaves their order open.
unfoldable pub tokens : TokenSubtreeIndex → List Token
tokens idx = keys idx.entries

unfoldable pub subtree_indices : Token → TokenSubtreeIndex → List ℕ
subtree_indices token idx = keys (or_nil (lookup token idx.entries))

-- `int(li)`: the bit pattern of an int32, extended by its sign to 64 bits.
abbrev pub int_from_int32 : ℕ → ℕ
int_from_int32 li = if ltb li 0x8000_0000 then li else li + 0xffff_ffff_0000_0000

abbrev pub is_given : List ℕ → Bool
is_given [] = false
is_given (x ∷ xs) = true

-- AddBatch puts the batch behind the positions of its token and subtree and leaves every other pair
-- as it was, and Add does what AddBatch does with the one position as an int32.
pub get-add_batch :
    (token other : Token) (subtree i li : ℕ) (batch : List ℕ) (idx : TokenSubtreeIndex)
    → (get other i (add_batch token subtree batch idx)
        ≡ (if token == other && subtree == i then get other i idx ++ batch else get other i idx))
      × (add token subtree li idx ≡ add_batch token subtree (li % 2 ^ 32 ∷ []) idx)
unfolding get add add_batch
get-add_batch token other subtree i li [] idx = (ground (arith, append-nil (get other i idx)), refl)
get-add_batch token other subtree i li (x ∷ xs) idx =
    let sm = or_nil (lookup token idx.entries) in
    let more = or_nil (lookup subtree sm) ++ (x ∷ xs) in
    (
      ground (
        arith,
        bytes_beq_iff token other,
        lookup-insert token other (insert subtree more sm) idx.entries,
        lookup-insert subtree i more sm,
      ),
      refl,
    )

-- The tokens and a token's subtrees after AddBatch are those before it and, when the batch is not
-- empty, the batch's own: an empty batch lists nothing.
pub tokens-add_batch :
    (token other : Token) (subtree i : ℕ) (batch : List ℕ) (idx : TokenSubtreeIndex)
    → (member other (tokens (add_batch token subtree batch idx))
        ≡ ((is_given batch && token == other) || member other (tokens idx)))
      × (member i (subtree_indices other (add_batch token subtree batch idx)) ≡ (
          (is_given batch && (token == other && subtree == i))
          || member i (subtree_indices other idx)))
unfolding tokens subtree_indices add_batch
tokens-add_batch token other subtree i [] idx = (refl, refl)
tokens-add_batch token other subtree i (x ∷ xs) idx =
    let sm = or_nil (lookup token idx.entries) in
    let more = or_nil (lookup subtree sm) ++ (x ∷ xs) in
    (
      member-insert token other (insert subtree more sm) idx.entries,
      ground (
        arith,
        bytes_beq_iff token other,
        lookup-insert token other (insert subtree more sm) idx.entries,
        member-insert subtree i more sm,
      ),
    )
