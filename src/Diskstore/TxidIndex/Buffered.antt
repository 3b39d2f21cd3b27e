-- ===== src/Diskstore/TxidIndex/Buffered.antt =====
-- internal/diskstore/txid_index.go: BufferedTxIDIndex, what a lookup finds in the buffer and on disk.
use mathlib.Core.List.{append_assoc}
use stumpt.Base.{
  ℕ, ◌+◌, ◌≤◌, ◌≡◌, refl, sym, ap, ◌∙◌, arith, Bool, true, false, Option, none, some, List, [], ◌∷◌,
  ◌++◌, leb, ltb, if◌then◌else◌, map, length, length-append, set as set_elem,
}
use stumpt.Base.Bytes.{Hash}
use stumpt.Base.Maps.{◌==◌, bytes_eq, lookup, insert, lookup-insert}
use stumpt.Stump.{Token}
use stumpt.Diskstore.Database.{Database}
use stumpt.Diskstore.TxidIndex.{
  TxidTokenPair, BufferedTxidIndex, puts, last_token, buf_map, from_buffer, disk_idxs, disk_txids,
  place, get, batch_get, enqueue, take_buffer, write, set_buffered, flush, get_buffered,
  batch_get_buffered,
}
use stumpt.Diskstore.TxidIndex.Contents.{get-set_batch, batch_get-map}

last_token-append :
    (txid : Hash) (ps : List TxidTokenPair) (p : TxidTokenPair)
    → last_token txid (ps ++ (p ∷ []))
      ≡ (if p.tx_id == txid then some p.token else last_token txid ps)
unfolding last_token
last_token-append txid [] p = refl
last_token-append txid (q ∷ ps) p = ground (arith, last_token-append txid ps p)

lookup-buf_map :
    (txid : Hash) (ps : List TxidTokenPair) (m : List (Hash × Token))
    → lookup txid (buf_map ps m)
      ≡ elim (last_token txid ps) [ some t ↦ some t | none ↦ lookup txid m ]
unfolding last_token
lookup-buf_map txid [] m = refl
lookup-buf_map txid (p ∷ ps) m =
    lookup-buf_map txid ps (insert p.tx_id p.token m)
    ∙ ground (arith, lookup-insert p.tx_id txid p.token m)

set_elem-append :
    (xs : List Token) (x y : Token) (ys : List Token)
    → set_elem (xs ++ (x ∷ ys)) (length xs) y ≡ (xs ++ (y ∷ [])) ++ ys
set_elem-append [] x y ys = refl
set_elem-append (z ∷ xs) x y ys = ap (◌∷◌ z) (set_elem-append xs x y ys)

-- What BatchGet answers for a txid.
abbrev found : (Hash → Token) → List (Hash × Token) → Hash → Token
found disk m txid = elim (lookup txid m) [ some t ↦ t | none ↦ disk txid ]

place-disk_idxs :
    (disk : Hash → Token) (m : List (Hash × Token)) (done : List Token) (i : ℕ) (txids : List Hash)
    → i ≡ length done
    → place (disk_idxs m i txids) (map disk (disk_txids m txids)) (done ++ from_buffer m txids)
      ≡ done ++ map (found disk m) txids
unfolding place disk_idxs disk_txids from_buffer
place-disk_idxs disk m done i [] e = refl
place-disk_idxs disk m done i (txid ∷ txids) e = step (lookup txid m) (λ x.
    place-disk_idxs disk m (done ++ (x ∷ [])) (i + 1) txids
      (omega (arith, length-append done (x ∷ []))))
  where
    idxs : List ℕ
    idxs = disk_idxs m (i + 1) txids

    answers : List Token
    answers = map disk (disk_txids m txids)

    rest : List Token
    rest = from_buffer m txids

    step :
        (o : Option Token)
        → ((x : Token)
            → place idxs answers ((done ++ (x ∷ [])) ++ rest)
              ≡ (done ++ (x ∷ [])) ++ map (found disk m) txids)
        → place
            (elim o [ some t ↦ idxs | none ↦ i ∷ idxs ])
            (map disk (elim o [ some t ↦ disk_txids m txids | none ↦ txid ∷ disk_txids m txids ]))
            (done ++ elim o [ some t ↦ t ∷ rest | none ↦ [] ∷ rest ])
          ≡ done ++ (elim o [ some t ↦ t | none ↦ disk txid ] ∷ map (found disk m) txids)
    step none ih =
        ap (λ n. place idxs answers (set_elem (done ++ ([] ∷ rest)) n (disk txid))) e
        ∙ ap (place idxs answers) (set_elem-append done [] (disk txid) rest)
        ∙ ih (disk txid)
        ∙ append_assoc done (disk txid ∷ []) (map (found disk m) txids)
    step (some t) ih =
        ap (place idxs answers) (sym (append_assoc done (t ∷ []) rest))
        ∙ ih t
        ∙ append_assoc done (t ∷ []) (map (found disk m) txids)

-- Nothing is missing on disk when every txid is in the buffer.
all_buffered :
    (disk : Hash → Token) (m : List (Hash × Token)) (txids : List Hash)
    → ltb 0 (length (disk_txids m txids)) ≡ false
    → from_buffer m txids ≡ map (found disk m) txids
unfolding disk_txids from_buffer
all_buffered disk m [] h = refl
all_buffered disk m (txid ∷ txids) h = ground (arith, all_buffered disk m txids, h)

map_ext : (f g : Hash → Token) (xs : List Hash) → ((x : Hash) → f x ≡ g x) → map f xs ≡ map g xs
map_ext f g [] h = refl
map_ext f g (x ∷ xs) h = cc (h x, map_ext f g xs h)

module _ {D : Type 0} (store : Database D) where
  -- BatchGet answers for each txid what Get answers for it, the empty token when it is not found.
  pub batch_get_buffered-map :
      (txids : List Hash) (b : BufferedTxidIndex D)
      → batch_get_buffered store txids b ≡ map (λ txid. (get_buffered store txid b).0) txids
  unfolding batch_get_buffered get_buffered lookup
  batch_get_buffered-map txids b =
      step (ltb 0 (length missing)) refl
      ∙ map_ext (found disk m) (λ x. (get_buffered store x b).0) txids answer
    where
      m : List (Hash × Token)
      m = buf_map b.buf []

      missing : List Hash
      missing = disk_txids m txids

      disk : Hash → Token
      disk x = (get store x b.inner).0

      answer : (x : Hash) → found disk m x ≡ (get_buffered store x b).0
      answer x = ground (arith, lookup-buf_map x b.buf [])

      step :
          (some_missing : Bool)
          → ltb 0 (length missing) ≡ some_missing
          → (if some_missing
              then place
                  (disk_idxs m 0 txids)
                  (batch_get store missing b.inner)
                  (from_buffer m txids)
              else from_buffer m txids)
            ≡ map (found disk m) txids
      step true e =
          ap (λ ts. place (disk_idxs m 0 txids) ts (from_buffer m txids))
            (batch_get-map store missing b.inner)
          ∙ place-disk_idxs disk m [] 0 txids refl
      step false e = all_buffered disk m txids e

  get-write :
      (txid : Hash) (batch : List TxidTokenPair) (b : BufferedTxidIndex D)
      → b.buf ≡ []
      → (store.write_batch (puts batch) b.inner.db).1 ≡ true
      → get_buffered store txid (write store batch b)
        ≡ elim (last_token txid batch) [ some t ↦ (t, true) | none ↦ get store txid b.inner ]
  unfolding get_buffered write last_token
  get-write txid [] b empty ok = ground (arith, ap (last_token txid) empty)
  get-write txid (p ∷ ps) b empty ok =
      ground (arith, ap (last_token txid) empty, get-set_batch store txid (p ∷ ps) b.inner ok)

  -- Set of the buffered index is seen by the next Get: it returns the new token for that txid, and for
  -- another txid what it returned before, when the batch of a buffer that gets full is written.
  pub get-set_buffered :
      (txid other : Hash) (token : Token) (b : BufferedTxidIndex D)
      → (store.write_batch (puts (enqueue store txid token b).1) b.inner.db).1 ≡ true
      → get_buffered store other (set_buffered store txid token b)
        ≡ (if txid == other then (token, true) else get_buffered store other b)
  unfolding set_buffered get_buffered enqueue write
  get-set_buffered txid other token b ok = step (leb b.buf_size (length grown)) ok
    where
      grown : List TxidTokenPair
      grown = b.buf ++ (record { tx_id = txid; token = token } ∷ [])

      step :
          (full : Bool)
          → let r : BufferedTxidIndex D × List TxidTokenPair =
              if full then (record b { buf = [] }, grown) else (record b { buf = grown }, []) in
            (store.write_batch (puts r.1) b.inner.db).1 ≡ true
            → get_buffered store other (write store r.1 r.0)
              ≡ (if txid == other then (token, true) else get_buffered store other b)
      step true ok =
          get-write other grown (record b { buf = [] }) refl ok
          ∙ ground (arith, last_token-append other b.buf (record { tx_id = txid; token = token }))
      step false ok =
          ground (arith, last_token-append other b.buf (record { tx_id = txid; token = token }))

  pub get-flush :
      (txid : Hash) (b : BufferedTxidIndex D)
      → (store.write_batch (puts b.buf) b.inner.db).1 ≡ true
      → get_buffered store txid (flush store b) ≡ get_buffered store txid b
  unfolding flush get_buffered take_buffer write last_token
  get-flush txid b ok = get-write txid b.buf (record b { buf = [] }) refl ok

  pending_found :
      (txid : Hash) (t : Token) (b : BufferedTxidIndex D)
      → last_token txid b.buf ≡ some t
      → get_buffered store txid b ≡ (t, true)
  unfolding get_buffered
  pending_found txid t b pending =
      ap (λ o. elim o [ some t ↦ (t, true) | none ↦ get store txid b.inner ]) pending

  get-taken :
      (txid other : Hash) (token : Token) (b : BufferedTxidIndex D)
      → b.buf_size ≤ length b.buf + 1
      → get_buffered store other (enqueue store txid token b).0 ≡ get store other b.inner
  unfolding get_buffered enqueue last_token
  get-taken txid other token b full =
      step (leb b.buf_size (length grown)) (ground (arith, length-append b.buf (p ∷ [])))
    where
      p : TxidTokenPair
      p = record { tx_id = txid; token = token }

      grown : List TxidTokenPair
      grown = b.buf ++ (p ∷ [])

      step :
          (due : Bool)
          → due ≡ true
          → let r : BufferedTxidIndex D × List TxidTokenPair =
              if due then (record b { buf = [] }, grown) else (record b { buf = grown }, []) in
            get_buffered store other r.0 ≡ get store other b.inner
      step true e = refl
      step false e = cc

  -- A Set that fills the buffer hides the pairs that it takes out of it until they are written: a
  -- txid other than its own, found in the buffer before and not on disk, is not found between the two
  -- steps of Set, and found again behind the write, if it succeeds.
  pub get-enqueue :
      (txid other : Hash) (token t : Token) (b : BufferedTxidIndex D)
      → b.buf_size ≤ length b.buf + 1
      → last_token other b.buf ≡ some t
      → (txid == other) ≡ false
      → get store other b.inner ≡ ([], false)
      → (store.write_batch (puts (enqueue store txid token b).1) b.inner.db).1 ≡ true
      → (get_buffered store other b ≡ (t, true))
        × (get_buffered store other (enqueue store txid token b).0 ≡ ([], false))
        × (get_buffered store other (set_buffered store txid token b) ≡ (t, true))
  get-enqueue txid other token t b full pending differ absent ok =
      let before = pending_found other t b pending in
      (
        before,
        get-taken txid other token b full ∙ absent,
        get-set_buffered txid other token b ok ∙ rw differ before,
      )
