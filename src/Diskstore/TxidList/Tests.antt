-- ===== src/Diskstore/TxidList/Tests.antt =====
-- Runs of the txid list on a database in memory, and the theorems at concrete inputs.
use stumpt.Base.{
  ℕ, ◌≤◌, ◌<◌, ◌^◌, ◌≡◌, refl, ◌∙◌, arith, some, none, [], ◌∷◌, List, replicate, length, get_elem?,
  take, drop,
}
use stumpt.Base.Bytes.{Hash, big_endian}
use stumpt.Base.Maps.{bytes_eq, lookup, insert}
use stumpt.Subtree.{at}
use stumpt.Diskstore.Keys.{make_key}
use stumpt.Diskstore.Keys.Ordering.{Pair}
use stumpt.Diskstore.Database.Memory.{memory, sorted, put_sorted, lookup-put_all}
use stumpt.Diskstore.TxidList.Listing.{written-listing}
use stumpt.Diskstore.TxidList.{
  BufferedTxidList, new_buffered, new_txid_list, init_len, get_buffered, len_buffered,
  slice_buffered, flush, append_buffered, flush_locked, listing, set_buffered, set, get,
}
use stumpt.Diskstore.TxidList.Buffered.{Represents}
use stumpt.Diskstore.TxidList.Operations.{slice_buffered-Represents, append_buffered-Represents}
use stumpt.Diskstore.TxidList.Reopen.{reopen-Represents}
use stumpt.Diskstore.TxidList.History.{
  Change, append_hash, set_hash, apply_all, expected_all, get-apply_all, fresh-Represents,
}

abbrev hash : ℕ → Hash
hash b = replicate 32 b

abbrev changes : List Change
changes =
    append_hash (hash 1) ∷ append_hash (hash 2) ∷ append_hash (hash 3) ∷ set_hash 1 (hash 9) ∷ []

abbrev list_after : BufferedTxidList (List Pair)
list_after = apply_all memory changes (new_buffered memory [] (at 2))

-- Two hashes are on disk and one is in the buffer.
second_hash : get_buffered memory (at 1) list_after ≡ some (hash 9)
unfolding get_buffered new_buffered new_txid_list init_len append_buffered flush_locked listing
    set_buffered set get lookup insert sorted put_sorted make_key big_endian
second_hash = refl

get-apply_all_example :
    (get_buffered memory (at 1) list_after
      ≡ get_elem? (expected_all memory changes (new_buffered memory [] (at 2)) []) 1)
    × (len_buffered memory list_after
        ≡ length (expected_all memory changes (new_buffered memory [] (at 2)) []))
unfolding sorted
get-apply_all_example =
    get-apply_all memory changes [] (at 2) 1 (refl, (refl, (refl, (refl, tt)))) (omega arith) refl

-- One hash in the buffer of a new list.
abbrev one_buffered : BufferedTxidList (List Pair)
one_buffered = (append_buffered memory (hash 1) (new_buffered memory [] (at 5))).0

one_buffered-Represents : Represents memory one_buffered (hash 1 ∷ [])
unfolding sorted
one_buffered-Represents =
    (append_buffered-Represents memory (new_buffered memory [] (at 5)) [] (hash 1)
      (fresh-Represents memory [] (at 5) refl) refl (omega arith)).0

slice_buffered-Represents_example :
    ((slice_buffered memory (at 0) (at 9) one_buffered).1 ≡ take 1 (drop 0 (hash 1 ∷ [])))
    × Represents memory (slice_buffered memory (at 0) (at 9) one_buffered).0 (hash 1 ∷ [])
unfolding flush flush_locked append_buffered new_buffered
slice_buffered-Represents_example =
    slice_buffered-Represents memory one_buffered (hash 1 ∷ []) (at 0) (at 9)
      one_buffered-Represents refl

other_key :
    (i : ℕ) → 1 ≤ i → i < 2 ^ 64 → lookup (make_key i) (flush memory one_buffered).0.inner.db ≡ none
unfolding flush flush_locked append_buffered new_buffered new_txid_list init_len sorted lookup
other_key i past small =
    lookup-put_all (listing 0 (hash 1 ∷ [])) (make_key i) []
    ∙ written-listing (hash 1 ∷ []) 0 i none (omega arith) small
    ∙ ground arith

reopen-Represents_example :
    Represents memory
      (new_buffered memory (flush memory one_buffered).0.inner.db (at 5))
      (hash 1 ∷ [])
unfolding flush flush_locked append_buffered new_buffered
reopen-Represents_example =
    reopen-Represents memory one_buffered (hash 1 ∷ []) (at 5) one_buffered-Represents refl
      other_key
