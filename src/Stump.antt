-- ===== src/Stump.antt =====
-- internal/stump: the store of proof entries under XOR keys, the index from txid to token, the
-- registry of tokens, and the probe at block time. A token is the list of the bytes of its string;
-- an operation under its lock is one step of the model.
pub mod Xor
pub mod Store
pub mod MemStore
pub mod History
pub mod TxidIndex
pub mod Registry
pub mod Discovery
mod Tests
use stumpt.Base.{
  ℕ, zero, suc, ◌+◌, ◌≡◌, Bool, true, false, Option, none, some, List, [], ◌∷◌, ◌++◌, map,
  if◌then◌else◌, length, get_or, set,
}
use stumpt.Base.Bytes.{Hash, zero_hash}
use stumpt.Base.Maps.{◌==◌, bytes_eq}
use Prim.Native.Nat.{bit_xor}

abbrev pub Key : Type 0
Key = Hash

abbrev pub Token : Type 0
Token = List ℕ

-- `k[i] = a[i] ^ b[i]`; the arrays have 32 bytes.
abbrev pub xor_byte : Hash → Hash → ℕ → Key → Key
xor_byte a b i k = set k i (bit_xor (get_or a i 0) (get_or b i 0))

-- One round of the unrolled loop.
abbrev pub xor_eight : Hash → Hash → ℕ → Key → Key
xor_eight a b i k =
    let k0 = xor_byte a b (i + 0) k in
    let k1 = xor_byte a b (i + 1) k0 in
    let k2 = xor_byte a b (i + 2) k1 in
    let k3 = xor_byte a b (i + 3) k2 in
    let k4 = xor_byte a b (i + 4) k3 in
    let k5 = xor_byte a b (i + 5) k4 in let k6 = xor_byte a b (i + 6) k5 in xor_byte a b (i + 7) k6

unfoldable pub xor_key : Hash → Hash → Key
xor_key a b = xor_eight a b 24 (xor_eight a b 16 (xor_eight a b 8 (xor_eight a b 0 zero_hash)))

unfoldable pub token_hash : (List ℕ → List ℕ) → Token → Hash
token_hash sha256 token = sha256 (sha256 token)

pub record Entry : Type 0 where
  pub tx_id : Hash
  pub subtree_idx : ℕ
  pub local_idx : ℕ
  pub global_idx : ℕ
  pub sibling_path : List Hash

-- A missing key of a Go map of slices reads as the nil slice.
abbrev pub or_nil : {A : Type 0} → Option (List A) → List A
or_nil none = []
or_nil (some xs) = xs

-- The interface StumpStore.
pub record StumpStore (S : Type 0) : Type 0 where
  pub append : Key → Entry → S → S
  pub append_batch : Key → List Entry → S → S
  pub get : Key → S → List Entry
  pub len : S → ℕ
