-- ===== src/Diskstore/TxidList/History.antt =====
-- internal/diskstore/txid_list.go: BufferedTxidList after any sequence of operations.
use stumpt.Base.{
  if_true, none, inl, ℕ, ◌+◌, ◌^◌, ◌≤◌, ◌<◌, ◌≡◌, refl, sym, ap, ◌∙◌, arith, Bool, true, List, [],
  ◌∷◌, ◌++◌, if◌then◌else◌, length, length-append, length-set, get_elem?, set as set_elem, All,
}
use stumpt.Base.Bytes.{Hash}
use stumpt.Base.Maps.{bytes_eq, lookup}
use stumpt.Subtree.{Index, at}
use stumpt.Diskstore.Database.{Database}
use stumpt.Diskstore.TxidList.{
  BufferedTxidList, list_prefix, append_buffered, set_buffered, flush, slice_buffered, get_buffered,
  len_buffered, new_buffered, new_txid_list, init_len,
}
use stumpt.Diskstore.TxidList.Contents.{Is32}
use stumpt.Diskstore.TxidList.Buffered.{Represents, flush-Represents}
use stumpt.Diskstore.TxidList.Operations.{
  append_buffered-Represents, set_buffered-Represents, get_buffered-Represents,
}

pub data Change : Type 0 where
  append_hash : Hash → Change
  set_hash : ℕ → Hash → Change
  flush_list : Change
  read_slice : Index → Index → Change

-- The 32-byte hashes of a change.
abbrev pub HasHash : Change → Type 0
HasHash (append_hash h) = Is32 h
HasHash (set_hash i h) = Is32 h
HasHash flush_list = Unit
HasHash (read_slice s e) = Unit

module _ {D : Type 0} (store : Database D) where
  abbrev pub apply : Change → BufferedTxidList D → BufferedTxidList D × Bool
  apply (append_hash h) bl = append_buffered store h bl
  apply (set_hash i h) bl = set_buffered store (at i) h bl
  apply flush_list bl = flush store bl
  apply (read_slice s e) bl = ((slice_buffered store s e bl).0, true)

  -- What the change does to the list of hashes, where the Bool is its answer.
  abbrev pub expected : Change → Bool → List Hash → List Hash
  expected (append_hash h) good hs = hs ++ (h ∷ [])
  expected (set_hash i h) good hs = if good then set_elem hs i h else hs
  expected flush_list good hs = hs
  expected (read_slice s e) good hs = hs

  abbrev pub apply_all : List Change → BufferedTxidList D → BufferedTxidList D
  apply_all [] bl = bl
  apply_all (c ∷ cs) bl = apply_all cs (apply c bl).0

  abbrev pub expected_all : List Change → BufferedTxidList D → List Hash → List Hash
  expected_all [] bl hs = hs
  expected_all (c ∷ cs) bl hs = expected_all cs (apply c bl).0 (expected c (apply c bl).1 hs)

  apply-Represents :
      (c : Change) (bl : BufferedTxidList D) (hs : List Hash)
      → HasHash c
      → length hs + 1 < 2 ^ 63
      → Represents store bl hs
      → Represents store (apply c bl).0 (expected c (apply c bl).1 hs)
        × (length (expected c (apply c bl).1 hs) ≤ length hs + 1)
  unfolding slice_buffered flush
  apply-Represents (append_hash h) bl hs size room rep = (
    (append_buffered-Represents store bl hs h rep size room).0,
    omega (arith, length-append hs (h ∷ [])),
  )
  apply-Represents (set_hash i h) bl hs size room rep =
      ((set_buffered-Represents store bl hs i h rep size).0, ground (arith, length-set hs i h))
  apply-Represents flush_list bl hs size room rep =
      ((flush-Represents store bl hs rep).0, omega arith)
  apply-Represents (read_slice s e) bl hs size room rep =
      ((flush-Represents store bl hs rep).0, omega arith)

  apply_all-Represents :
      (cs : List Change) (bl : BufferedTxidList D) (hs : List Hash)
      → All HasHash cs
      → length hs + length cs < 2 ^ 63
      → Represents store bl hs
      → Represents store (apply_all cs bl) (expected_all cs bl hs)
  apply_all-Represents [] bl hs sizes room rep = rep
  apply_all-Represents (c ∷ cs) bl hs (size, sizes) room rep =
      let (step, le) = apply-Represents c bl hs size (omega (arith, room)) rep in
      apply_all-Represents cs (apply c bl).0 (expected c (apply c bl).1 hs) sizes
        (omega (arith, le, room)) step

  pub fresh-Represents :
      (db : D) (buf_size : Index)
      → store.scan list_prefix db ≡ []
      → Represents store (new_buffered store db buf_size) []
  unfolding new_buffered new_txid_list init_len lookup
  fresh-Represents db buf_size empty = record {
    disk = [];
    on_disk = record {
      counted = ap length empty;
      small = omega arith;
      sizes = tt;
      stored = λ i lt. absurd (omega arith);
      shaped = λ k inside. inl (
          sym (if_true none inside)
          ∙ sym (store.lookup-scan list_prefix k db)
          ∙ ap (lookup k) empty);
    };
    together = refl;
    fits = omega arith;
    buf_sizes = tt;
  }

  -- A BufferedTxidList opened on a database with no keys of the list is a list of hashes: after any
  -- sequence of Append, Set, Flush and Slice, shorter than 2 ^ 63 and with 32-byte hashes, Get and Len
  -- answer as the list of the hashes appended, where the Set calls that returned no error replaced
  -- theirs. This holds whatever writes of the database fail: an Append whose flush fails counts.
  pub get-apply_all :
      (cs : List Change) (db : D) (buf_size : Index) (i : ℕ)
      → All HasHash cs
      → length cs < 2 ^ 63
      → store.scan list_prefix db ≡ []
      → (get_buffered store (at i) (apply_all cs (new_buffered store db buf_size))
          ≡ get_elem? (expected_all cs (new_buffered store db buf_size) []) i)
        × (len_buffered store (apply_all cs (new_buffered store db buf_size))
            ≡ length (expected_all cs (new_buffered store db buf_size) []))
  get-apply_all cs db buf_size i sizes room empty =
      get_buffered-Represents store (apply_all cs (new_buffered store db buf_size))
        (expected_all cs (new_buffered store db buf_size) []) i
        (apply_all-Represents cs (new_buffered store db buf_size) [] sizes (omega (arith, room))
          (fresh-Represents db buf_size empty))
