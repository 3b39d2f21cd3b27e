-- ===== src/Diskstore/TxidList/Operations.antt =====
-- internal/diskstore/txid_list.go: the operations of BufferedTxidList on the list of hashes.
use mathlib.Core.Path.{subst}
use mathlib.Core.List.{append-nil, append_assoc}
use stumpt.Base.{
  if_true, if_false, ℕ, zero, suc, ◌+◌, ◌-◌, ◌^◌, ◌≤◌, ◌<◌, ◌≡◌, refl, sym, ap, ◌∙◌, arith, Bool,
  true, false, List, [], ◌∷◌, ◌++◌, ltb, leb, if◌then◌else◌, length, length-append, length-set,
  get_elem?, get_elem?-past, get_elem?-append, set as set_elem, take, drop,
}
use stumpt.Base.Maps.{bytes_eq}
use stumpt.Base.Bytes.{Hash}
use stumpt.Subtree.{Index, at}
use stumpt.Diskstore.Database.{Database}
use stumpt.Diskstore.TxidList.{
  TxidList, BufferedTxidList, clamp_start, clamp_end, set, flush_locked, flush, append_buffered,
  get_buffered, set_buffered, slice_buffered, len_buffered, in_buffer,
}
use stumpt.Diskstore.TxidList.Contents.{Holds, Is32, All-append, All-set, get-Holds, set-Holds}
use stumpt.Diskstore.TxidList.Scan.{slice-Holds}
use stumpt.Diskstore.TxidList.Buffered.{Represents, flush-Represents}

module _ {D : Type 0} (store : Database D) where
  pub append_buffered-Represents :
      (bl : BufferedTxidList D) (hs : List Hash) (h : Hash)
      → Represents store bl hs
      → Is32 h
      → length hs + 1 < 2 ^ 63
      → Represents store (append_buffered store h bl).0 (hs ++ (h ∷ []))
        × ((append_buffered store h bl).1 ≡ false → bl.buf_size ≤ length bl.buf + 1)
  unfolding append_buffered flush
  append_buffered-Represents bl hs h rep size room =
      finish (leb bl.buf_size (length grown.buf)) refl
    where
      grown : BufferedTxidList D
      grown = record bl { buf = bl.buf ++ (h ∷ []) }

      grown-Represents : Represents store grown (hs ++ (h ∷ []))
      grown-Represents = record {
        disk = rep.disk;
        on_disk = rep.on_disk;
        together = ap (λ x. x ++ (h ∷ [])) rep.together ∙ append_assoc rep.disk bl.buf (h ∷ []);
        fits = omega (arith, length-append hs (h ∷ []));
        buf_sizes = All-append bl.buf (h ∷ []) rep.buf_sizes (size, tt);
      }

      finish :
          (b : Bool)
          → leb bl.buf_size (length grown.buf) ≡ b
          → let r : BufferedTxidList D × Bool =
              if b then flush_locked store grown else (grown, true) in
            Represents store r.0 (hs ++ (h ∷ [])) × (r.1 ≡ false → bl.buf_size ≤ length bl.buf + 1)
      finish true e = (
        (flush-Represents store grown (hs ++ (h ∷ [])) grown-Represents).0,
        λ p. ground (arith, length-append bl.buf (h ∷ [])),
      )
      finish false e = (grown-Represents, λ p. cc p)

  pub get_buffered-Represents :
      (bl : BufferedTxidList D) (hs : List Hash) (i : ℕ)
      → Represents store bl hs
      → (get_buffered store (at i) bl ≡ get_elem? hs i) × (len_buffered store bl ≡ length hs)
  unfolding get_buffered len_buffered
  get_buffered-Represents bl hs i rep = (
    ground (
      arith,
      get-Holds store bl.inner rep.disk i rep.on_disk,
      rep.together,
      rep.on_disk.counted,
      get_elem?-append rep.disk bl.buf i,
      length-append rep.disk bl.buf,
      get_elem?-past rep.disk i,
      get_elem?-past bl.buf (i - length rep.disk),
      ap (get_elem? bl.buf) {x = i - bl.inner.len} {y = i - length rep.disk},
    ),
    omega (arith, ap length rep.together, rep.on_disk.counted, length-append rep.disk bl.buf),
  )

  set-append :
      (xs ys : List Hash) (i : ℕ) (h : Hash)
      → set_elem (xs ++ ys) i h
        ≡ (if ltb i (length xs) then set_elem xs i h ++ ys else xs ++ set_elem ys (i - length xs) h)
  set-append [] ys i h = ground (arith, ap (λ n. set_elem ys n h) {x = i - 0} {y = i} (omega arith))
  set-append (x ∷ xs) ys zero h = ground arith
  set-append (x ∷ xs) ys (suc i) h = ground (
    arith,
    set-append xs ys i h,
    ap (λ n. set_elem ys n h) {x = suc i - suc (length xs)} {y = i - length xs} (omega arith),
  )

  pub set_buffered-Represents :
      (bl : BufferedTxidList D) (hs : List Hash) (i : ℕ) (h : Hash)
      → Represents store bl hs
      → Is32 h
      → Represents store
          (set_buffered store (at i) h bl).0
          (if (set_buffered store (at i) h bl).1 then set_elem hs i h else hs)
        × (length hs ≤ i → (set_buffered store (at i) h bl).1 ≡ false)
  unfolding set_buffered
  set_buffered-Represents bl hs i h rep size =
      finish (in_buffer store i bl) refl (set store (at i) h bl.inner).1 refl
    where
      step : TxidList D × Bool
      step = set store (at i) h bl.inner

      law :
          Holds store step.0 (if step.1 then set_elem rep.disk i h else rep.disk)
          × (length rep.disk ≤ i → step.1 ≡ false)
      law = set-Holds store bl.inner rep.disk i h rep.on_disk size

      total : length hs ≡ length rep.disk + length bl.buf
      total = ap length rep.together ∙ length-append rep.disk bl.buf

      finish :
          (b : Bool)
          → in_buffer store i bl ≡ b
          → (ok : Bool) → step.1 ≡ ok
          → let r : BufferedTxidList D × Bool =
              if b
              then (record bl { buf = set_elem bl.buf (i - bl.inner.len) h }, true)
              else (record bl { inner = step.0 }, ok) in
            Represents store r.0 (if r.1 then set_elem hs i h else hs)
            × (length hs ≤ i → r.1 ≡ false)
      finish true e ok q = (
        record {
          disk = rep.disk;
          on_disk = rep.on_disk;
          together = ground (
            arith,
            rep.together,
            set-append rep.disk bl.buf i h,
            rep.on_disk.counted,
            ap (λ n. set_elem bl.buf n h) {x = i - bl.inner.len} {y = i - length rep.disk},
            ap (λ x. set_elem x i h) rep.together,
          );
          fits = omega (arith, rep.fits, length-set hs i h);
          buf_sizes = All-set bl.buf (i - bl.inner.len) h rep.buf_sizes size;
        },
        λ p. absurd (ground (arith, total, rep.on_disk.counted)),
      )
      finish false e true q = (
        record {
          disk = set_elem rep.disk i h;
          on_disk = subst (Holds store step.0) (if_true rep.disk q) law.0;
          together = ground (
            arith,
            set-append rep.disk bl.buf i h,
            ap (λ x. set_elem x i h) rep.together,
            law.1,
            q,
          );
          fits = omega (arith, rep.fits, length-set hs i h);
          buf_sizes = rep.buf_sizes;
        },
        λ p. absurd (ground (arith, total, law.1, q)),
      )
      finish false e false q = (
        record {
          disk = rep.disk;
          on_disk = subst (Holds store step.0) (if_false (set_elem rep.disk i h) q) law.0;
          together = rep.together;
          fits = rep.fits;
          buf_sizes = rep.buf_sizes;
        },
        λ p. refl,
      )

  -- A Slice whose flush succeeds returns what the list of hashes has from the start on, up to the end,
  -- both clamped, and the buffered list still represents the same hashes.
  pub slice_buffered-Represents :
      (bl : BufferedTxidList D) (hs : List Hash) (start end_ : Index)
      → Represents store bl hs
      → (flush store bl).1 ≡ true
      → (slice_buffered store start end_ bl).1
          ≡ take (clamp_end end_ (length hs) - clamp_start start) (drop (clamp_start start) hs)
        × Represents store (slice_buffered store start end_ bl).0 hs
  unfolding slice_buffered flush
  slice_buffered-Represents bl hs start end_ rep ok =
      let (after, emptied) = flush-Represents store bl hs rep in
      let whole = after.together ∙ ap (λ x. after.disk ++ x) (emptied ok) ∙ append-nil after.disk in
      (
        slice-Holds store (flush store bl).0.inner hs start end_
            (subst (Holds store (flush store bl).0.inner) (sym whole) after.on_disk),
        after,
      )
