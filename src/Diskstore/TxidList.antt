-- ===== src/Diskstore/TxidList.antt =====
-- internal/diskstore/txid_list.go: TxidList and BufferedTxidList. An operation under its lock is one
-- step, and so is Append, which the buffered list alone calls. A Bool result tells whether the call
-- returned no error.
pub mod Listing
pub mod Contents
pub mod Scan
pub mod Buffered
pub mod Operations
pub mod Reopen
pub mod History
mod Tests
use stumpt.Base.{
  ℕ, zero, suc, ◌+◌, ◌-◌, ◌≡◌, Bool, true, false, ◌&&◌, Option, none, some, List, [], ◌∷◌, ◌++◌,
  ltb, leb, if◌then◌else◌, length, get_elem?, set as set_elem, take, map,
}
use stumpt.Base.Bytes.{Hash, zero_hash}
use stumpt.Subtree.{Index, at, minus}
use stumpt.Diskstore.Keys.{make_key, compare_keys, Order, less, same, more}
use stumpt.Diskstore.Keys.Ordering.{Pair}
use stumpt.Diskstore.Database.{Bytes, Database}

pub record TxidList (D : Type 0) : Type 0 where
  pub db : D
  pub len : ℕ

pub record BufferedTxidList (D : Type 0) : Type 0 where
  pub inner : TxidList D
  pub buf : List Hash
  pub buf_size : ℕ

-- The key prefix of the list.
abbrev pub list_prefix : Bytes
list_prefix = b'x' ∷ []

-- `copy(h[:], val)` into 32 zero bytes.
abbrev pub as_hash : Bytes → Hash
as_hash val = take 32 (val ++ zero_hash)

-- The puts of a flush: the hashes at the indices from `base` on.
unfoldable pub listing : ℕ → List Hash → List Pair
listing base [] = []
listing base (h ∷ hs) = (make_key base, h) ∷ listing (base + 1) hs

abbrev pub is_less : Order → Bool
is_less less = true
is_less same = false
is_less more = false

-- The iterator from `Seek(start)` on.
unfoldable pub seek : Bytes → List Pair → List Pair
seek start [] = []
seek start ((k, v) ∷ m) =
    let rest = seek start m in if is_less (compare_keys k start) then rest else (k, v) ∷ m

-- The loop up to the end key.
unfoldable pub until : Bytes → List Pair → List Pair
until end_key [] = []
until end_key ((k, v) ∷ m) =
    let rest = until end_key m in if is_less (compare_keys k end_key) then (k, v) ∷ rest else []

abbrev pub hashes_of : List Pair → List Hash
hashes_of [] = []
hashes_of ((k, v) ∷ m) = as_hash v ∷ hashes_of m

abbrev pub clamp_start : Index → ℕ
clamp_start (at i) = i
clamp_start (minus k) = 0

-- A negative end is below every start.
abbrev pub clamp_end : Index → ℕ → ℕ
clamp_end (at i) n = if ltb n i then n else i
clamp_end (minus k) n = 0

module _ {D : Type 0} (store : Database D) where
  unfoldable pub init_len : D → ℕ
  init_len db = length (store.scan list_prefix db)

  unfoldable pub new_txid_list : D → TxidList D
  new_txid_list db = record { db = db; len = init_len db }

  unfoldable pub append : Hash → TxidList D → TxidList D × Bool
  append h tl =
      let (after, ok) = store.transact ((make_key tl.len, h) ∷ []) tl.db in
      if ok
      then (record { db = after; len = tl.len + 1 }, true)
      else (record tl { db = after }, false)

  -- `none` for the zero hash and false.
  unfoldable pub get : Index → TxidList D → Option Hash
  get (minus k) tl = none
  get (at i) tl =
      if leb tl.len i
      then none
      else elim (store.get (make_key i) tl.db) [ none ↦ none | some val ↦ some (as_hash val) ]

  unfoldable pub set : Index → Hash → TxidList D → TxidList D × Bool
  set (minus k) h tl = (tl, false)
  set (at i) h tl =
      let (after, ok) = store.transact ((make_key i, h) ∷ []) tl.db in
      if leb tl.len i then (tl, false) else (record tl { db = after }, ok)

  unfoldable pub slice : Index → Index → TxidList D → List Hash
  slice start end_ tl =
      let from = clamp_start start in
      let to = clamp_end end_ tl.len in
      if leb to from
      then []
      else hashes_of (until (make_key to) (seek (make_key from) (store.scan list_prefix tl.db)))

  abbrev pub size_or_default : Index → ℕ
  size_or_default (minus k) = 1000
  size_or_default (at zero) = 1000
  size_or_default (at (suc n)) = suc n

  unfoldable pub new_buffered : D → Index → BufferedTxidList D
  new_buffered db buf_size = record {
    inner = new_txid_list db;
    buf = [];
    buf_size = size_or_default buf_size;
  }

  unfoldable pub flush_locked : BufferedTxidList D → BufferedTxidList D × Bool
  flush_locked bl = elim bl.buf [
    | [] ↦ (bl, true)
    | h ∷ hs ↦
        let (after, ok) = store.write_batch (listing bl.inner.len (h ∷ hs)) bl.inner.db in
        if ok
        then (
          record bl {
            inner = record { db = after; len = bl.inner.len + length (h ∷ hs) };
            buf = [];
          },
          true,
        )
        else (record bl { inner = record { db = after; len = bl.inner.len } }, false)
  ]

  unfoldable pub flush : BufferedTxidList D → BufferedTxidList D × Bool
  flush bl = flush_locked bl

  unfoldable pub append_buffered : Hash → BufferedTxidList D → BufferedTxidList D × Bool
  append_buffered h bl =
      let grown = record bl { buf = bl.buf ++ (h ∷ []) } in
      if leb bl.buf_size (length grown.buf) then flush_locked grown else (grown, true)

  abbrev pub in_buffer : ℕ → BufferedTxidList D → Bool
  in_buffer i bl = leb bl.inner.len i && ltb i (bl.inner.len + length bl.buf)

  unfoldable pub get_buffered : Index → BufferedTxidList D → Option Hash
  get_buffered (minus k) bl = get (minus k) bl.inner
  get_buffered (at i) bl =
      if in_buffer i bl then get_elem? bl.buf (i - bl.inner.len) else get (at i) bl.inner

  unfoldable pub set_buffered : Index → Hash → BufferedTxidList D → BufferedTxidList D × Bool
  set_buffered (minus k) h bl = (bl, false)
  set_buffered (at i) h bl =
      let (after, ok) = set (at i) h bl.inner in
      if in_buffer i bl
      then (record bl { buf = set_elem bl.buf (i - bl.inner.len) h }, true)
      else (record bl { inner = after }, ok)

  -- A failed flush is passed over.
  unfoldable pub slice_buffered :
      Index → Index → BufferedTxidList D → BufferedTxidList D × List Hash
  slice_buffered start end_ bl =
      let (flushed, ok) = flush_locked bl in (flushed, slice start end_ flushed.inner)

  unfoldable pub len_buffered : BufferedTxidList D → ℕ
  len_buffered bl = bl.inner.len + length bl.buf
