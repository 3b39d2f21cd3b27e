-- ===== src/Diskstore/TxidIndex/Contents.antt =====
-- internal/diskstore/txid_index.go: DiskTxIDIndex, what a lookup finds after a write.
use stumpt.Base.{
  ◌≡◌, refl, ◌∙◌, arith, true, ◌&&◌, Option, none, some, List, [], ◌∷◌, if◌then◌else◌, map,
}
use stumpt.Base.Bytes.{Hash}
use stumpt.Base.Maps.{◌==◌, bytes_eq}
use stumpt.Stump.{Token}
use stumpt.Diskstore.Database.{Bytes, Database, written}
use stumpt.Diskstore.TxidIndex.{
  DiskTxidIndex, TxidTokenPair, txid_key, puts, last_token, set, get, batch_get, set_batch,
}

txid_key-eq : (a b : Hash) → (txid_key a == txid_key b) ≡ (a == b)
unfolding txid_key
txid_key-eq a b = ground arith

pub written-puts :
    (txid : Hash) (ps : List TxidTokenPair) (old : Option Bytes)
    → written (txid_key txid) (puts ps) old
      ≡ elim (last_token txid ps) [ some t ↦ some t | none ↦ old ]
unfolding puts last_token
written-puts txid [] old = refl
written-puts txid (p ∷ ps) old =
    written-puts txid ps (if txid_key p.tx_id == txid_key txid then some p.token else old)
    ∙ ground (arith, txid_key-eq p.tx_id txid)

module _ {D : Type 0} (store : Database D) where
  pub get-set_batch :
      (txid : Hash) (ps : List TxidTokenPair) (d : DiskTxidIndex D)
      → (store.write_batch (puts ps) d.db).1 ≡ true
      → get store txid (set_batch store ps d)
        ≡ elim (last_token txid ps) [ some t ↦ (t, true) | none ↦ get store txid d ]
  unfolding get set_batch
  get-set_batch txid ps d ok = ground (
    arith,
    store.get-write_batch (puts ps) (txid_key txid) d.db ok,
    written-puts txid ps (store.get (txid_key txid) d.db),
  )

  pub get-set_disk :
      (txid other : Hash) (token : Token) (d : DiskTxidIndex D)
      → get store other (set store txid token d) ≡ (
          if (store.transact ((txid_key txid, token) ∷ []) d.db).1 && txid == other
          then (token, true)
          else get store other d)
  unfolding get set
  get-set_disk txid other token d = ground (
    arith,
    store.get-transact ((txid_key txid, token) ∷ []) (txid_key other) d.db,
    txid_key-eq txid other,
  )

  pub batch_get-map :
      (txids : List Hash) (d : DiskTxidIndex D)
      → batch_get store txids d ≡ map (λ txid. (get store txid d).0) txids
  unfolding batch_get get
  batch_get-map [] d = refl
  batch_get-map (txid ∷ txids) d = ground (arith, batch_get-map txids d)
