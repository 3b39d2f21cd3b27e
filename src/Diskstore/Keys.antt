-- ===== src/Diskstore/Keys.antt =====
-- internal/diskstore: the Badger keys of the stores, and compareKeys, the order of their scans.
pub mod Ordering
mod Tests
use native.Mathlib.Nat.{pow-suc}
use stumpt.Base.{
  ℕ, zero, suc, ◌+◌, ◌*◌, ◌/◌, ◌%◌, ◌^◌, ◌<◌, ◌≡◌, refl, ap, sym, ◌∙◌, arith, List, [], ◌∷◌, ◌++◌,
  ltb, if◌then◌else◌, length,
}
use stumpt.Base.Bytes.{Hash, big_endian, length-big_endian}

-- `uint64(index)` of an index that is not negative.
unfoldable pub make_key : ℕ → List ℕ
make_key index = b'x' ∷ big_endian 8 index

unfoldable pub make_db_key : Hash → ℕ → List ℕ
make_db_key key seq = b's' ∷ (key ++ big_endian 8 seq)

unfoldable pub make_prefix_key : Hash → List ℕ
make_prefix_key key = b's' ∷ key

unfoldable pub fragment_key : ℕ → ℕ → ℕ → List ℕ
fragment_key miner_idx token_idx subtree_idx =
    b'f'
    ∷ (big_endian 4 (miner_idx % 2 ^ 32)
        ++ (big_endian 4 (token_idx % 2 ^ 32) ++ big_endian 4 (subtree_idx % 2 ^ 32)))

unfoldable pub miner_subtree_key : ℕ → ℕ → ℕ → List ℕ
miner_subtree_key miner_idx subtree_idx typ =
    b'm'
    ∷ (big_endian 4 (miner_idx % 2 ^ 32) ++ (big_endian 4 (subtree_idx % 2 ^ 32) ++ (typ ∷ [])))

pub data Order : Type 0 where
  less same more : Order

-- -1, 0 and 1
unfoldable pub compare_keys : List ℕ → List ℕ → Order
compare_keys [] [] = same
compare_keys [] (y ∷ ys) = less
compare_keys (x ∷ xs) [] = more
compare_keys (x ∷ xs) (y ∷ ys) =
    let rest = compare_keys xs ys in if ltb x y then less else if ltb y x then more else rest

abbrev pub order_of : ℕ → ℕ → Order
order_of v w = if ltb v w then less else if ltb w v then more else same

abbrev then_order : Order → Order → Order
then_order same o = o
then_order less o = less
then_order more o = more

compare_keys-append :
    (a b c d : List ℕ)
    → length a ≡ length b
    → compare_keys (a ++ c) (b ++ d) ≡ then_order (compare_keys a b) (compare_keys c d)
unfolding compare_keys
compare_keys-append [] [] c d e = refl
compare_keys-append [] (y ∷ b) c d e = absurd (omega arith)
compare_keys-append (x ∷ a) [] c d e = absurd (omega arith)
compare_keys-append (x ∷ a) (y ∷ b) c d e =
    ground (arith, compare_keys-append a b c d (omega arith))

pub compare_keys-big_endian :
    (k v w : ℕ)
    → v < 256 ^ k
    → w < 256 ^ k
    → compare_keys (big_endian k v) (big_endian k w) ≡ order_of v w
unfolding big_endian compare_keys
compare_keys-big_endian zero v w p q = ground arith
compare_keys-big_endian (suc k) v w p q =
    compare_keys-append (big_endian k (v / 256)) (big_endian k (w / 256)) (v % 256 ∷ [])
      (w % 256 ∷ []) (length-big_endian k (v / 256) ∙ sym (length-big_endian k (w / 256)))
    ∙ ap (λ o. then_order o (order_of (v % 256) (w % 256)))
        (compare_keys-big_endian k (v / 256) (w / 256) (omega (arith, pow-suc 256 k))
          (omega (arith, pow-suc 256 k)))
    ∙ ground arith

compare_keys_refl : (xs : List ℕ) → compare_keys xs xs ≡ same
unfolding compare_keys
compare_keys_refl [] = refl
compare_keys_refl (x ∷ xs) = ground (arith, compare_keys_refl xs)

pub big_endian-injective :
    (k v w : ℕ) → v < 256 ^ k → w < 256 ^ k → big_endian k v ≡ big_endian k w → v ≡ w
big_endian-injective k v w p q e = same_number (
    sym (compare_keys-big_endian k v w p q)
    ∙ ap (λ xs. compare_keys xs (big_endian k w)) e
    ∙ compare_keys_refl (big_endian k w))
  where
    same_number : order_of v w ≡ same → v ≡ w
    same_number h = ground arith

append_split : (a b c d : List ℕ) → length a ≡ length b → a ++ c ≡ b ++ d → (a ≡ b) × (c ≡ d)
append_split [] [] c d l e = (refl, e)
append_split [] (y ∷ b) c d l e = absurd (omega arith)
append_split (x ∷ a) [] c d l e = absurd (omega arith)
append_split (x ∷ a) (y ∷ b) c d l e =
    let (same_head, same_tail) = append_split a b c d (omega arith) (cc e) in
    (cc (e, same_head), same_tail)

-- An index below 2 ^ 32 in front of other bytes is read off the bytes.
index_split :
    (v w : ℕ) (c d : List ℕ)
    → v < 4_294_967_296
    → w < 4_294_967_296
    → big_endian 4 (v % 2 ^ 32) ++ c ≡ big_endian 4 (w % 2 ^ 32) ++ d
    → (v ≡ w) × (c ≡ d)
index_split v w c d p q e =
    let (first, others) =
      append_split (big_endian 4 (v % 2 ^ 32)) (big_endian 4 (w % 2 ^ 32)) c d
        (length-big_endian 4 (v % 2 ^ 32) ∙ sym (length-big_endian 4 (w % 2 ^ 32))) e in
    let low = big_endian-injective 4 (v % 2 ^ 32) (w % 2 ^ 32) (omega arith) (omega arith) first in
    (omega (arith, low), others)

tail_eq : {x : ℕ} {xs ys : List ℕ} → x ∷ xs ≡ x ∷ ys → xs ≡ ys
tail_eq e = cc

-- Indices below 2 ^ 32 of a miner, a token and a subtree have a fragment key, and of a miner and a
-- subtree a key for each type of value, that no other indices or types have.
pub fragment_key-injective :
    (m t s n u r x y : ℕ)
    → m < 4_294_967_296
    → t < 4_294_967_296
    → s < 4_294_967_296
    → n < 4_294_967_296
    → u < 4_294_967_296
    → r < 4_294_967_296
    → (fragment_key m t s ≡ fragment_key n u r → (m ≡ n) × (t ≡ u) × (s ≡ r))
      × (miner_subtree_key m s x ≡ miner_subtree_key n r y → (m ≡ n) × (s ≡ r) × (x ≡ y))
unfolding fragment_key miner_subtree_key
fragment_key-injective m t s n u r x y hm ht hs hn hu hr = (
  λ e.
      let (same_miner, e1) = index_split m n _ _ hm hn (tail_eq e) in
      let (same_token, e2) = index_split t u _ _ ht hu e1 in
      let low = big_endian-injective 4 (s % 2 ^ 32) (r % 2 ^ 32) (omega arith) (omega arith) e2 in
      (same_miner, same_token, omega (arith, low)),
  λ e.
      let (same_miner, e1) = index_split m n _ _ hm hn (tail_eq e) in
      let (same_subtree, e2) = index_split s r _ _ hs hr e1 in (same_miner, same_subtree, cc e2),
)

-- For numbers below 2 ^ 64, the order of the keys of two places in the txid list is the order of the
-- places, and the order of two entries under one XOR key is the order of their sequence numbers.
pub compare_keys-order_of :
    (key : Hash) (v w : ℕ)
    → v < 256 ^ 8
    → w < 256 ^ 8
    → (compare_keys (make_key v) (make_key w) ≡ order_of v w)
      × (compare_keys (make_db_key key v) (make_db_key key w) ≡ order_of v w)
unfolding make_key make_db_key compare_keys
compare_keys-order_of key v w p q = (
  compare_keys-big_endian 8 v w p q,
  compare_keys-append key key (big_endian 8 v) (big_endian 8 w) refl
      ∙ ap (λ o. then_order o (compare_keys (big_endian 8 v) (big_endian 8 w)))
          (compare_keys_refl key)
      ∙ compare_keys-big_endian 8 v w p q,
)
