-- ===== src/Diskstore/TxidIndex/Tests.antt =====
-- Runs of the txid index on a database in memory, and the theorems at concrete inputs.
use stumpt.Base.{false, ℕ, ◌≡◌, refl, arith, true, if◌then◌else◌, [], ◌∷◌, List, replicate, map}
use stumpt.Base.Bytes.{Hash}
use stumpt.Base.Maps.{◌==◌, bytes_eq, lookup, insert}
use stumpt.Stump.{Token}
use stumpt.Diskstore.Keys.Ordering.{Pair}
use stumpt.Diskstore.Database.Memory.{memory}
use stumpt.Diskstore.TxidIndex.{
  BufferedTxidIndex, new_buffered, set_buffered, get_buffered, batch_get_buffered, enqueue, write,
  set_batch, puts, get, last_token, txid_key, from_buffer, disk_txids, disk_idxs, place, batch_get,
}
use stumpt.Diskstore.TxidIndex.Buffered.{get-set_buffered, batch_get_buffered-map, get-enqueue}

abbrev hash : ℕ → Hash
hash b = replicate 32 b

abbrev token_one : Token
token_one = b'1' ∷ []

abbrev token_two : Token
token_two = b'2' ∷ []

-- A pair on disk, from a buffer that was full.
abbrev on_disk : BufferedTxidIndex (List Pair)
on_disk = set_buffered memory (hash 1) token_one (new_buffered memory [] 1)

abbrev one_and_two : BufferedTxidIndex (List Pair)
one_and_two = record on_disk { buf = record { tx_id = hash 2; token = token_two } ∷ [] }

lookups :
    batch_get_buffered memory (hash 1 ∷ hash 3 ∷ hash 2 ∷ []) one_and_two
    ≡ token_one ∷ [] ∷ token_two ∷ []
unfolding batch_get_buffered set_buffered enqueue write new_buffered set_batch puts last_token
    txid_key lookup insert from_buffer disk_txids disk_idxs place batch_get
lookups = refl

get-set_buffered_example :
    get_buffered memory (hash 2) (set_buffered memory (hash 2) token_two on_disk)
    ≡ (if hash 2 == hash 2 then (token_two, true) else get_buffered memory (hash 2) on_disk)
get-set_buffered_example = get-set_buffered memory (hash 2) (hash 2) token_two on_disk refl

batch_get_buffered-map_example :
    batch_get_buffered memory (hash 1 ∷ hash 3 ∷ []) one_and_two
    ≡ map (λ txid. (get_buffered memory txid one_and_two).0) (hash 1 ∷ hash 3 ∷ [])
batch_get_buffered-map_example = batch_get_buffered-map memory (hash 1 ∷ hash 3 ∷ []) one_and_two

get-enqueue_example :
    (get_buffered memory (hash 2) one_and_two ≡ (token_two, true))
    × (get_buffered memory (hash 2) (enqueue memory (hash 3) token_one one_and_two).0 ≡ ([], false))
    × (get_buffered memory (hash 2) (set_buffered memory (hash 3) token_one one_and_two)
        ≡ (token_two, true))
unfolding set_buffered enqueue write new_buffered set_batch puts last_token txid_key lookup insert
    get
get-enqueue_example =
    get-enqueue memory (hash 3) (hash 2) token_one token_two one_and_two (omega arith) refl refl
      refl refl
