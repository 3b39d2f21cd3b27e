-- ===== src/Diskstore/TxidList/Reopen.antt =====
-- internal/diskstore/txid_list.go: NewTxidList and NewBufferedTxidList on a database that a list has written.
use mathlib.Core.Path.{subst}
use mathlib.Core.List.{append-nil}
use stumpt.Base.{
  ℕ, suc, ◌+◌, ◌-◌, ◌^◌, ◌≤◌, ◌<◌, ◌≡◌, refl, sym, ap, ◌∙◌, arith, true, none, List, [], ◌∷◌, ◌++◌,
  length, get_elem?, get_elem?-past, Bool-cases, Option-cases, inl, inr,
}
use stumpt.Base.Maps.{bytes_eq, lookup}
use stumpt.Base.Bytes.{Hash}
use stumpt.Subtree.{Index}
use stumpt.Diskstore.Keys.{make_key}
use stumpt.Diskstore.Keys.Ordering.{ascending_ext}
use stumpt.Diskstore.Database.{Bytes, Database, has_prefix}
use stumpt.Diskstore.TxidList.{
  TxidList, BufferedTxidList, listing, list_prefix, new_txid_list, init_len, new_buffered, flush,
}
use stumpt.Diskstore.TxidList.Listing.{
  make_key-prefix, lookup-listing, member-listing, lookup-member, listing-IsAscending,
}
use stumpt.Diskstore.TxidList.Contents.{Holds}
use stumpt.Diskstore.TxidList.Buffered.{Represents, flush-Represents}

length-listing : (hs : List Hash) (i : ℕ) → length (listing i hs) ≡ length hs
unfolding listing
length-listing [] i = refl
length-listing (h ∷ hs) i = ap suc (length-listing hs (i + 1))

module _ {D : Type 0} (store : Database D) where
  lookup-scanned :
      (tl : TxidList D) (hs : List Hash)
      → Holds store tl hs
      → ((i : ℕ) → length hs ≤ i → i < 2 ^ 64 → store.get (make_key i) tl.db ≡ none)
      → (i : ℕ) → i < 2 ^ 64
      → lookup (make_key i) (store.scan list_prefix tl.db) ≡ lookup (make_key i) (listing 0 hs)
  lookup-scanned tl hs held clean i small = ground (
    arith,
    store.lookup-scan list_prefix (make_key i) tl.db,
    make_key-prefix i,
    held.stored i,
    clean i,
    lookup-listing hs 0 i (omega (arith, held.small)) small,
    get_elem?-past hs i,
    ap (get_elem? hs) {x = i - 0} {y = i} (omega arith),
  )

  scan-Holds :
      (tl : TxidList D) (hs : List Hash)
      → Holds store tl hs
      → ((i : ℕ) → length hs ≤ i → i < 2 ^ 64 → store.get (make_key i) tl.db ≡ none)
      → store.scan list_prefix tl.db ≡ listing 0 hs
  scan-Holds tl hs held clean =
      ascending_ext scanned (listing 0 hs) (store.scan-IsAscending list_prefix tl.db)
        (listing-IsAscending hs 0 (omega (arith, held.small))) same
    where
      scanned : List (Bytes × Bytes)
      scanned = store.scan list_prefix tl.db

      same : (k : Bytes) → lookup k scanned ≡ lookup k (listing 0 hs)
      same k = elim (Option-cases (lookup k (listing 0 hs))) [
        | inr (v, here) ↦
            let (j, p, q, e) =
              member-listing k hs 0 (lookup-member k (listing 0 hs) {v = v} here) in
            subst (λ x. lookup x scanned ≡ lookup x (listing 0 hs)) (sym e)
              (lookup-scanned tl hs held clean j (omega (arith, held.small)))
        | inl absent ↦ elim (Bool-cases (has_prefix list_prefix k)) [
          | inl under ↦ elim (held.shaped k under) [
            | inl gone ↦ ground (arith, store.lookup-scan list_prefix k tl.db, gone, absent)
            | inr (j, small, e) ↦
                subst (λ x. lookup x scanned ≡ lookup x (listing 0 hs)) (sym e)
                  (lookup-scanned tl hs held clean j small)
          ]
          | inr outside ↦ ground (arith, store.lookup-scan list_prefix k tl.db, outside, absent)
        ]
      ]

  pub new_txid_list-Holds :
      (tl : TxidList D) (hs : List Hash)
      → Holds store tl hs
      → ((i : ℕ) → length hs ≤ i → i < 2 ^ 64 → store.get (make_key i) tl.db ≡ none)
      → new_txid_list store tl.db ≡ tl
  unfolding new_txid_list init_len
  new_txid_list-Holds tl hs held clean =
      ap (λ n. record { db = tl.db; len = n })
        (ap length (scan-Holds tl hs held clean) ∙ length-listing hs 0 ∙ sym held.counted)

  -- A BufferedTxidList opened on the database of another one after a Flush that succeeded represents
  -- the same hashes, provided that no key of the list at or past its length is in the database.
  pub reopen-Represents :
      (bl : BufferedTxidList D) (hs : List Hash) (buf_size : Index)
      → Represents store bl hs
      → (flush store bl).1 ≡ true
      → ((i : ℕ)
          → length hs ≤ i
          → i < 2 ^ 64
          → store.get (make_key i) (flush store bl).0.inner.db ≡ none)
      → Represents store (new_buffered store (flush store bl).0.inner.db buf_size) hs
  unfolding new_buffered
  reopen-Represents bl hs buf_size rep ok clean =
      let (after, emptied) = flush-Represents store bl hs rep in
      let whole = after.together ∙ ap (λ x. after.disk ++ x) (emptied ok) ∙ append-nil after.disk in
      let held = subst (Holds store (flush store bl).0.inner) (sym whole) after.on_disk in
      record {
        disk = hs;
        on_disk =
            subst (λ x. Holds store x hs)
              (sym (new_txid_list-Holds (flush store bl).0.inner hs held clean)) held;
        together = sym (append-nil hs);
        fits = after.fits;
        buf_sizes = tt;
      }
