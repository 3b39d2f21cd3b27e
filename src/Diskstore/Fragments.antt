-- ===== src/Diskstore/Fragments.antt =====
-- internal/diskstore/fragment.go and miner_subtree.go: FragmentStore and MinerSubtreeStore. A Go map of
-- fragments is the list of its pairs in the order in which the loop meets them.
mod Tests
use stumpt.Base.{
  ℕ, ◌<◌, ◌≤◌, ◌≡◌, refl, sym, ap, ◌∙◌, arith, Bool, true, false, ◌&&◌, Option, none, some, List,
  [], ◌∷◌, ◌++◌, if◌then◌else◌, ◌==◌ as num_eq, All, if_true, if_false,
}
use stumpt.Base.Maps.{◌==◌, bytes_eq, nat_eq, bytes_beq_iff, lookup, keys, member, IsUnique}
use stumpt.Diskstore.Keys.{fragment_key, miner_subtree_key, fragment_key-injective}
use stumpt.Diskstore.Keys.Ordering.{Pair}
use stumpt.Diskstore.Database.{Bytes, Database, written}
use stumpt.Diskstore.Database.Batches.{Outcome, write_chunks, get-write_chunks}

pub record FragmentStore (D : Type 0) : Type 0 where
  pub db : D

pub record MinerSubtreeStore (D : Type 0) : Type 0 where
  pub db : D

-- The puts of a batch of one miner and one subtree, from the token index and the data.
unfoldable pub fragment_puts : ℕ → ℕ → List (ℕ × Bytes) → List Pair
fragment_puts miner_idx subtree_idx [] = []
fragment_puts miner_idx subtree_idx ((token_idx, fragment) ∷ fragments) =
    (fragment_key miner_idx token_idx subtree_idx, fragment)
    ∷ fragment_puts miner_idx subtree_idx fragments

fragment_key-eq :
    (m t s n u r : ℕ)
    → m < 4_294_967_296
    → t < 4_294_967_296
    → s < 4_294_967_296
    → n < 4_294_967_296
    → u < 4_294_967_296
    → r < 4_294_967_296
    → (fragment_key m t s == fragment_key n u r) ≡ (num_eq m n && num_eq s r && num_eq t u)
fragment_key-eq m t s n u r hm ht hs hn hu hr = ground (
  arith,
  bytes_beq_iff (fragment_key m t s) (fragment_key n u r),
  same,
  (fragment_key-injective m t s n u r 0 0 hm ht hs hn hu hr).0,
)
  where
    same : m ≡ n → t ≡ u → s ≡ r → fragment_key m t s ≡ fragment_key n u r
    same a b c = cc (a, b, c)

miner_subtree_key-eq :
    (m s n r x y : ℕ)
    → m < 4_294_967_296
    → s < 4_294_967_296
    → n < 4_294_967_296
    → r < 4_294_967_296
    → (miner_subtree_key m s x == miner_subtree_key n r y)
      ≡ (num_eq m n && num_eq s r && num_eq x y)
miner_subtree_key-eq m s n r x y hm hs hn hr = ground (
  arith,
  bytes_beq_iff (miner_subtree_key m s x) (miner_subtree_key n r y),
  same,
  (fragment_key-injective m 0 s n 0 r x y hm (omega arith) hs hn (omega arith) hr).1,
)
  where
    same : m ≡ n → s ≡ r → x ≡ y → miner_subtree_key m s x ≡ miner_subtree_key n r y
    same a b c = cc (a, b, c)

-- What the puts of a batch leave under the key of a fragment.
written-fragment_puts :
    (m s n u r : ℕ) (fragments : List (ℕ × Bytes)) (old : Option Bytes)
    → m < 4_294_967_296
    → s < 4_294_967_296
    → n < 4_294_967_296
    → u < 4_294_967_296
    → r < 4_294_967_296
    → All (λ f. f.0 < 4_294_967_296) fragments
    → IsUnique fragments
    → written (fragment_key n u r) (fragment_puts m s fragments) old ≡ (
        if num_eq m n && num_eq s r
        then elim (lookup u fragments) [ some fragment ↦ some fragment | none ↦ old ]
        else old)
unfolding fragment_puts lookup
written-fragment_puts m s n u r [] old hm hs hn hu hr small unique = ground arith
written-fragment_puts m s n u r ((t, d) ∷ fragments) old hm hs hn hu hr (ht, small)
      (fresh, unique) =
    written-fragment_puts m s n u r fragments
      (if fragment_key m t s == fragment_key n u r then some d else old) hm hs hn hu hr small unique
    ∙ ground (
      arith,
      fragment_key-eq m t s n u r hm ht hs hn hu hr,
      fresh,
      ap (λ x. lookup x fragments) {x = t} {y = u},
    )

module _ {D : Type 0} (store : Database D) where
  -- `save` and `save_batch` answer whether no error is returned.
  unfoldable pub save : ℕ → ℕ → ℕ → Bytes → FragmentStore D → FragmentStore D × Bool
  save miner_idx token_idx subtree_idx fragment fs =
      let (after, good) =
        store.transact ((fragment_key miner_idx token_idx subtree_idx, fragment) ∷ []) fs.db in
      (record { db = after }, good)

  unfoldable pub save_batch : ℕ → ℕ → List (ℕ × Bytes) → FragmentStore D → FragmentStore D × Bool
  save_batch miner_idx subtree_idx [] fs = (fs, true)
  save_batch miner_idx subtree_idx (f ∷ fs) s =
      let r = write_chunks store 50000 [] (fragment_puts miner_idx subtree_idx (f ∷ fs)) s.db in
      (record { db = r.db }, r.done)

  unfoldable pub load : ℕ → ℕ → ℕ → FragmentStore D → Option Bytes
  load miner_idx token_idx subtree_idx fs =
      store.get (fragment_key miner_idx token_idx subtree_idx) fs.db

  -- The leaves and the store in one transaction.
  unfoldable pub save_miner_subtree :
      ℕ → ℕ → Bytes → Bytes → MinerSubtreeStore D → MinerSubtreeStore D × Bool
  save_miner_subtree miner_idx subtree_idx leaves stored s =
      let (after, good) =
        store.transact
          ((miner_subtree_key miner_idx subtree_idx b'L', leaves)
            ∷ (miner_subtree_key miner_idx subtree_idx b'S', stored)
            ∷ [])
          s.db in
      (record { db = after }, good)

  -- `none` when one of the two is missing.
  unfoldable pub load_miner_subtree : ℕ → ℕ → MinerSubtreeStore D → Option (Bytes × Bytes)
  load_miner_subtree miner_idx subtree_idx s =
      elim (store.get (miner_subtree_key miner_idx subtree_idx b'L') s.db) [
        | none ↦ none
        | some leaves ↦ elim (store.get (miner_subtree_key miner_idx subtree_idx b'S') s.db) [
          | none ↦ none
          | some stored ↦ some (leaves, stored)
        ]
      ]

  -- After a SaveBatch without an error, Load returns for the miner and the subtree of the batch the
  -- fragment of each token in it, and else what it returned before. The batch has one fragment for a
  -- token, and all indices are below 2 ^ 32.
  pub load-save_batch :
      (m s n u r : ℕ) (fragments : List (ℕ × Bytes)) (fs : FragmentStore D)
      → m < 4_294_967_296
      → s < 4_294_967_296
      → n < 4_294_967_296
      → u < 4_294_967_296
      → r < 4_294_967_296
      → All (λ f. f.0 < 4_294_967_296) fragments
      → IsUnique fragments
      → (save_batch m s fragments fs).1 ≡ true
      → load n u r (save_batch m s fragments fs).0 ≡ (
          if num_eq m n && num_eq s r
          then elim (lookup u fragments) [ some fragment ↦ some fragment | none ↦ load n u r fs ]
          else load n u r fs)
  unfolding save_batch load lookup
  load-save_batch m s n u r [] fs hm hs hn hu hr small unique good = ground arith
  load-save_batch m s n u r (f ∷ fragments) fs hm hs hn hu hr small unique good =
      get-write_chunks store 50000 [] (fragment_puts m s (f ∷ fragments)) (fragment_key n u r) fs.db
        good
      ∙ written-fragment_puts m s n u r (f ∷ fragments) (store.get (fragment_key n u r) fs.db) hm hs
          hn hu hr small unique

  -- After a Save without an error, Load returns the leaves and the store that were saved for that miner
  -- and subtree, and for others what it returned before, with all indices below 2 ^ 32.
  pub load-save_miner_subtree :
      (m s n r : ℕ) (leaves stored : Bytes) (ms : MinerSubtreeStore D)
      → m < 4_294_967_296
      → s < 4_294_967_296
      → n < 4_294_967_296
      → r < 4_294_967_296
      → (save_miner_subtree m s leaves stored ms).1 ≡ true
      → load_miner_subtree n r (save_miner_subtree m s leaves stored ms).0
        ≡ (if num_eq m n && num_eq s r then some (leaves, stored) else load_miner_subtree n r ms)
  unfolding save_miner_subtree load_miner_subtree
  load-save_miner_subtree m s n r leaves stored ms hm hs hn hr good = ground (
    arith,
    after b'L',
    after b'S',
    miner_subtree_key-eq m s n r b'L' b'L' hm hs hn hr,
    miner_subtree_key-eq m s n r b'L' b'S' hm hs hn hr,
    miner_subtree_key-eq m s n r b'S' b'L' hm hs hn hr,
    miner_subtree_key-eq m s n r b'S' b'S' hm hs hn hr,
  )
    where
      puts : List Pair
      puts = (miner_subtree_key m s b'L', leaves) ∷ (miner_subtree_key m s b'S', stored) ∷ []

      after :
          (x : ℕ)
          → store.get (miner_subtree_key n r x) (store.transact puts ms.db).0
            ≡ written (miner_subtree_key n r x) puts (store.get (miner_subtree_key n r x) ms.db)
      after x =
          store.get-transact puts (miner_subtree_key n r x) ms.db
          ∙ if_true (store.get (miner_subtree_key n r x) ms.db) good
