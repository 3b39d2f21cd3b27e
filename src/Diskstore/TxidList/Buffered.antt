-- ===== src/Diskstore/TxidList/Buffered.antt =====
-- internal/diskstore/txid_list.go: BufferedTxidList as a list of hashes, those on disk and those in the buffer.
use mathlib.Core.List.{append-nil}
use stumpt.Base.{
  ℕ, ◌+◌, ◌-◌, ◌^◌, ◌<◌, ◌≡◌, refl, sym, ap, ◌∙◌, arith, Bool, true, false, List, [], ◌∷◌, ◌++◌,
  if◌then◌else◌, length, length-append, get_elem?, get_elem?-append, Bool-cases, inl, inr, All,
}
use stumpt.Base.Maps.{bytes_eq, keys, member}
use stumpt.Base.Bytes.{Hash}
use stumpt.Diskstore.Keys.{make_key}
use stumpt.Diskstore.Database.{Bytes, Database, written, written_other}
use stumpt.Diskstore.TxidList.{TxidList, BufferedTxidList, listing, flush_locked, flush}
use stumpt.Diskstore.TxidList.Listing.{make_key-injective, member-listing, written-listing}
use stumpt.Diskstore.TxidList.Contents.{Holds, Is32, All-append}

-- The list is what the disk holds, then the buffer.
pub record Represents {D : Type 0} (store : Database D) (bl : BufferedTxidList D) (hs : List Hash)
    : Type 0 where
  pub disk : List Hash
  pub on_disk : Holds store bl.inner disk
  pub together : hs ≡ disk ++ bl.buf
  pub fits : length hs < 2 ^ 63
  pub buf_sizes : All Is32 bl.buf

module _ {D : Type 0} (store : Database D) where
  -- The batch of a flush, where it succeeds.
  batch-Holds :
      (tl : TxidList D) (disk hs : List Hash) (after : D)
      → Holds store tl disk
      → length (disk ++ hs) < 2 ^ 63
      → All Is32 hs
      → ((k : Bytes) → store.get k after ≡ written k (listing tl.len hs) (store.get k tl.db))
      → Holds store (record { db = after; len = tl.len + length hs }) (disk ++ hs)
  batch-Holds tl disk hs after held fits sizes law = record {
    counted = omega (arith, held.counted, length-append disk hs);
    small = fits;
    sizes = All-append disk hs held.sizes sizes;
    stored = λ i lt. ground (
      arith,
      law (make_key i),
      held.counted,
      held.stored i,
      get_elem?-append disk hs i,
      length-append disk hs,
      written-listing hs tl.len i (store.get (make_key i) tl.db)
          (omega (arith, held.counted, fits, length-append disk hs)) (omega (arith, lt, fits)),
      ap (get_elem? hs) {x = i - tl.len} {y = i - length disk},
    );
    shaped = λ k p. elim (Bool-cases (member k (keys (listing tl.len hs)))) [
      | inl new ↦
          let (j, lo, hi, e) = member-listing k hs tl.len new in
          inr (j, omega (arith, held.counted, fits, length-append disk hs), e)
      | inr other ↦ elim (held.shaped k p) [
        | inl gone ↦
            inl (law k ∙ written_other k (listing tl.len hs) (store.get k tl.db) other ∙ gone)
        | inr kept ↦ inr kept
      ]
    ];
  }

  -- A batch that failed, whatever part of it was written.
  failed-Holds :
      (tl : TxidList D) (disk hs : List Hash)
      → Holds store tl disk
      → length (disk ++ hs) < 2 ^ 63
      → Holds store
          (record { db = (store.write_batch (listing tl.len hs) tl.db).0; len = tl.len })
          disk
  failed-Holds tl disk hs held fits = record {
    counted = held.counted;
    small = held.small;
    sizes = held.sizes;
    stored = λ i lt.
        store.get-unwritten (listing tl.len hs) (make_key i) tl.db (below i lt) ∙ held.stored i lt;
    shaped = λ k p. elim (Bool-cases (member k (keys (listing tl.len hs)))) [
      | inl new ↦
          let (j, lo, hi, e) = member-listing k hs tl.len new in
          inr (j, omega (arith, held.counted, fits, length-append disk hs), e)
      | inr other ↦ elim (held.shaped k p) [
        | inl gone ↦ inl (store.get-unwritten (listing tl.len hs) k tl.db other ∙ gone)
        | inr kept ↦ inr kept
      ]
    ];
  }
    where
      below : (i : ℕ) → i < length disk → member (make_key i) (keys (listing tl.len hs)) ≡ false
      below i lt = elim (Bool-cases (member (make_key i) (keys (listing tl.len hs)))) [
        | inl new ↦
            let (j, lo, hi, e) = member-listing (make_key i) hs tl.len new in
            absurd (
              omega (
                arith,
                held.counted,
                held.small,
                length-append disk hs,
                make_key-injective i j (omega (arith, lt, held.small))
                    (omega (arith, held.counted, fits, length-append disk hs)) e,
              ))
        | inr other ↦ other
      ]

  flush_step :
      (tl : TxidList D) (buf : List Hash) (buf_size : ℕ) (disk hs : List Hash)
      → Holds store tl disk
      → hs ≡ disk ++ buf
      → length hs < 2 ^ 63
      → All Is32 buf
      → let r = flush_locked store (record { inner = tl; buf = buf; buf_size = buf_size }) in
        Represents store r.0 hs × (r.1 ≡ true → r.0.buf ≡ [])
  unfolding flush_locked
  flush_step tl [] buf_size disk hs held e fits sizes =
      (record { disk = disk; on_disk = held; together = e; fits = fits; buf_sizes = tt }, λ p. refl)
  flush_step tl (h ∷ buf) buf_size disk hs held e fits sizes = finish put.1 refl
    where
      all : List Hash
      all = h ∷ buf

      put : D × Bool
      put = store.write_batch (listing tl.len all) tl.db

      same_fits : length (disk ++ all) < 2 ^ 63
      same_fits = omega (arith, ap length e)

      finish :
          (ok : Bool)
          → put.1 ≡ ok
          → let r : BufferedTxidList D × Bool =
              if ok
              then (
                record {
                  inner = record { db = put.0; len = tl.len + length all };
                  buf = [];
                  buf_size = buf_size;
                },
                true,
              )
              else (
                record {
                  inner = record { db = put.0; len = tl.len };
                  buf = all;
                  buf_size = buf_size;
                },
                false,
              ) in
            Represents store r.0 hs × (r.1 ≡ true → r.0.buf ≡ [])
      finish true ok = (
        record {
          disk = disk ++ all;
          on_disk =
              batch-Holds tl disk all put.0 held same_fits sizes
                (λ k. store.get-write_batch (listing tl.len all) k tl.db ok);
          together = e ∙ sym (append-nil (disk ++ all));
          fits = fits;
          buf_sizes = tt;
        },
        λ p. refl,
      )
      finish false ok = (
        record {
          disk = disk;
          on_disk = failed-Holds tl disk all held same_fits;
          together = e;
          fits = fits;
          buf_sizes = sizes;
        },
        λ p. cc p,
      )

  pub flush-Represents :
      (bl : BufferedTxidList D) (hs : List Hash)
      → Represents store bl hs
      → Represents store (flush store bl).0 hs
        × ((flush store bl).1 ≡ true → (flush store bl).0.buf ≡ [])
  unfolding flush
  flush-Represents bl hs rep =
      flush_step bl.inner bl.buf bl.buf_size rep.disk hs rep.on_disk rep.together rep.fits
        rep.buf_sizes
