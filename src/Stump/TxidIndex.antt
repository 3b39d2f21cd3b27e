-- ===== src/Stump/TxidIndex.antt =====
-- internal/stump/stump.go and mem_txid_index.go: TxIDIndex and MemTxIDIndex, maps from txid to token.
use stumpt.Base.{
  ℕ, ◌+◌, ◌≡◌, arith, Bool, true, false, none, some, List, [], ◌∷◌, length, if◌then◌else◌,
}
use stumpt.Base.Bytes.{Hash}
use stumpt.Base.Maps.{◌==◌, lookup, insert, bytes_eq, lookup-insert, length-insert}
use stumpt.Stump.{Token}

-- Both indices hold nothing but the map.
pub record TxidIndex : Type 0 where
  pub lookup_table : List (Hash × Token)

unfoldable pub new_txid_index : TxidIndex
new_txid_index = record { lookup_table = [] }

unfoldable pub set : Hash → Token → TxidIndex → TxidIndex
set txid token idx = record { lookup_table = insert txid token idx.lookup_table }

-- The token and whether the txid is there; the empty token when it is not.
unfoldable pub get : Hash → TxidIndex → Token × Bool
get txid idx = elim (lookup txid idx.lookup_table) [ none ↦ ([], false) | some t ↦ (t, true) ]

unfoldable pub len : TxidIndex → ℕ
len idx = length idx.lookup_table

-- MemTxIDIndex.BatchGet: a missing txid reads as the empty token.
unfoldable pub batch_get : List Hash → TxidIndex → List Token
batch_get [] idx = []
batch_get (txid ∷ txids) idx = (get txid idx).0 ∷ batch_get txids idx

-- Get after Set returns the token that was set for that txid, and for another what it returned
-- before; Len grows by one when Get did not find the txid before, and else stays.
pub get-set :
    (txid other : Hash) (token : Token) (idx : TxidIndex)
    → (get other (set txid token idx) ≡ (if txid == other then (token, true) else get other idx))
      × (len (set txid token idx) ≡ (if (get txid idx).1 then len idx else len idx + 1))
unfolding get set len
get-set txid other token idx = (
  ground (arith, lookup-insert txid other token idx.lookup_table),
  ground (arith, length-insert txid token idx.lookup_table),
)
