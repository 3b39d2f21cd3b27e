-- ===== src/Diskstore/TxidIndex.antt =====
-- internal/diskstore/txid_index.go: DiskTxIDIndex and BufferedTxIDIndex. The part of a Set or a Flush
-- under the lock is one step, and the write of the batch that it takes out of the buffer another.
-- Errors are logged or dropped.
pub mod Contents
pub mod Buffered
mod Tests
use stumpt.Base.{
  ℕ, zero, suc, ◌+◌, Bool, true, false, Option, none, some, List, [], ◌∷◌, ◌++◌, leb, ltb,
  if◌then◌else◌, length, set as set_elem,
}
use stumpt.Base.Bytes.{Hash}
use stumpt.Base.Maps.{◌==◌, bytes_eq, lookup, insert}
use stumpt.Stump.{Token}
use stumpt.Diskstore.Keys.Ordering.{Pair}
use stumpt.Diskstore.Database.{Bytes, Database}

pub record DiskTxidIndex (D : Type 0) : Type 0 where
  pub db : D

pub record TxidTokenPair : Type 0 where
  pub tx_id : Hash
  pub token : Token

pub record BufferedTxidIndex (D : Type 0) : Type 0 where
  pub inner : DiskTxidIndex D
  pub buf : List TxidTokenPair
  pub buf_size : ℕ

abbrev pub txid_prefix : Bytes
txid_prefix = b't' ∷ []

unfoldable pub txid_key : Hash → Bytes
txid_key txid = b't' ∷ txid

-- The puts of a batch.
unfoldable pub puts : List TxidTokenPair → List Pair
puts [] = []
puts (p ∷ ps) = (txid_key p.tx_id, p.token) ∷ puts ps

-- The loop of Get over the buffer, from the end.
unfoldable pub last_token : Hash → List TxidTokenPair → Option Token
last_token txid [] = none
last_token txid (p ∷ ps) =
    let later = last_token txid ps in
    elim later [ some t ↦ some t | none ↦ if p.tx_id == txid then some p.token else none ]

abbrev pub buf_map : List TxidTokenPair → List (Hash × Token) → List (Hash × Token)
buf_map [] m = m
buf_map (p ∷ ps) m = buf_map ps (insert p.tx_id p.token m)

-- The loop of BatchGet over the txids: what it puts in `result`, in `diskIdxs` and in `diskTxids`.
unfoldable pub from_buffer : List (Hash × Token) → List Hash → List Token
from_buffer m [] = []
from_buffer m (txid ∷ txids) =
    let rest = from_buffer m txids in elim (lookup txid m) [ some t ↦ t ∷ rest | none ↦ [] ∷ rest ]

unfoldable pub disk_idxs : List (Hash × Token) → ℕ → List Hash → List ℕ
disk_idxs m i [] = []
disk_idxs m i (txid ∷ txids) =
    let rest = disk_idxs m (i + 1) txids in elim (lookup txid m) [ some t ↦ rest | none ↦ i ∷ rest ]

unfoldable pub disk_txids : List (Hash × Token) → List Hash → List Hash
disk_txids m [] = []
disk_txids m (txid ∷ txids) =
    let rest = disk_txids m txids in elim (lookup txid m) [ some t ↦ rest | none ↦ txid ∷ rest ]

unfoldable pub place : List ℕ → List Token → List Token → List Token
place (idx ∷ idxs) (t ∷ ts) result = place idxs ts (set_elem result idx t)
place idxs ts result = result

module _ {D : Type 0} (store : Database D) where
  unfoldable pub set : Hash → Token → DiskTxidIndex D → DiskTxidIndex D
  set txid token d = record { db = (store.transact ((txid_key txid, token) ∷ []) d.db).0 }

  unfoldable pub get : Hash → DiskTxidIndex D → Token × Bool
  get txid d = elim (store.get (txid_key txid) d.db) [ none ↦ ([], false) | some t ↦ (t, true) ]

  unfoldable pub batch_get : List Hash → DiskTxidIndex D → List Token
  batch_get [] d = []
  batch_get (txid ∷ txids) d =
      let rest = batch_get txids d in
      elim (store.get (txid_key txid) d.db) [ none ↦ [] ∷ rest | some t ↦ t ∷ rest ]

  unfoldable pub set_batch : List TxidTokenPair → DiskTxidIndex D → DiskTxidIndex D
  set_batch pairs d = record { db = (store.write_batch (puts pairs) d.db).0 }

  unfoldable pub len : DiskTxidIndex D → ℕ
  len d = length (store.scan txid_prefix d.db)

  unfoldable pub new_buffered : D → ℕ → BufferedTxidIndex D
  new_buffered db buf_size = record { inner = record { db = db }; buf = []; buf_size = buf_size }

  -- Set under the lock: the index and the batch to write.
  unfoldable pub enqueue :
      Hash → Token → BufferedTxidIndex D → BufferedTxidIndex D × List TxidTokenPair
  enqueue txid token b =
      let grown = b.buf ++ (record { tx_id = txid; token = token } ∷ []) in
      if leb b.buf_size (length grown)
      then (record b { buf = [] }, grown)
      else (record b { buf = grown }, [])

  -- Flush under the lock.
  unfoldable pub take_buffer : BufferedTxidIndex D → BufferedTxidIndex D × List TxidTokenPair
  take_buffer b = (record b { buf = [] }, b.buf)

  -- The write of a batch that is not empty.
  unfoldable pub write : List TxidTokenPair → BufferedTxidIndex D → BufferedTxidIndex D
  write [] b = b
  write (p ∷ ps) b = record b { inner = set_batch (p ∷ ps) b.inner }

  unfoldable pub set_buffered : Hash → Token → BufferedTxidIndex D → BufferedTxidIndex D
  set_buffered txid token b = let (queued, batch) = enqueue txid token b in write batch queued

  unfoldable pub flush : BufferedTxidIndex D → BufferedTxidIndex D
  flush b = let (emptied, batch) = take_buffer b in write batch emptied

  unfoldable pub get_buffered : Hash → BufferedTxidIndex D → Token × Bool
  get_buffered txid b = elim (last_token txid b.buf) [
    | some t ↦ (t, true)
    | none ↦ get txid b.inner
  ]

  unfoldable pub batch_get_buffered : List Hash → BufferedTxidIndex D → List Token
  batch_get_buffered txids b =
      let m = buf_map b.buf [] in
      let missing = disk_txids m txids in
      let result = from_buffer m txids in
      if ltb 0 (length missing)
      then place (disk_idxs m 0 txids) (batch_get missing b.inner) result
      else result

  unfoldable pub len_buffered : BufferedTxidIndex D → ℕ
  len_buffered b = len b.inner
