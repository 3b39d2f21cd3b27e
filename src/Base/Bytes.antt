-- ===== src/Base/Bytes.antt =====
-- Go's encoding/binary on byte slices, and cursors that read from the front of a slice.
use native.Mathlib.Nat.{pow-suc}
use mathlib.Core.List.{List, [], ◌∷◌, ◌++◌}
use Prim.Native.Nat.{ℕ, zero, suc, ◌+◌, ◌*◌, ◌/◌, ◌%◌, ◌^◌, ◌≤◌, ◌<◌}
use mathlib.Core.Path.{◌≡◌, refl, ap}
use mathlib.Core.Option.{Option, none, some}
use mathlib.Core.Bool.{false}
use native.Mathlib.Omega.{arith}
use stumpt.Base.Tests.{ltb, if◌then◌else◌}
use stumpt.Base.Lists.{length, take, drop, replicate, All, length-append, take-append, drop-append}

-- chainhash.Hash, a [32]byte: the list of its bytes.
abbrev pub Hash : Type 0
Hash = List ℕ

-- Its zero value.
abbrev pub zero_hash : Hash
zero_hash = replicate 32 0

abbrev pub IsByte : ℕ → Type 0
IsByte b = b < 256

-- The `k` lowest bytes of a number, lowest first.
unfoldable pub little_endian : ℕ → ℕ → List ℕ
little_endian zero v = []
little_endian (suc k) v = v % 256 ∷ little_endian k (v / 256)

unfoldable pub from_little_endian : List ℕ → ℕ
from_little_endian [] = 0
from_little_endian (b ∷ bs) = b + 256 * from_little_endian bs

-- The same, highest first.
unfoldable pub big_endian : ℕ → ℕ → List ℕ
big_endian zero v = []
big_endian (suc k) v = big_endian k (v / 256) ++ (v % 256 ∷ [])

-- `data[off:off+n]` and what stands behind it; past the end it panics.
unfoldable pub read_bytes : ℕ → List ℕ → Option (List ℕ × List ℕ)
read_bytes n rest = if ltb (length rest) n then none else some (take n rest, drop n rest)

unfoldable pub read_number : ℕ → List ℕ → Option (ℕ × List ℕ)
read_number n rest =
    if ltb (length rest) n then none else some (from_little_endian (take n rest), drop n rest)

pub length-little_endian : (k v : ℕ) → length (little_endian k v) ≡ k
unfolding little_endian
length-little_endian zero v = refl
length-little_endian (suc k) v = ap suc (length-little_endian k (v / 256))

pub little_endian-IsByte : (k v : ℕ) → All IsByte (little_endian k v)
unfolding little_endian
little_endian-IsByte zero v = tt
little_endian-IsByte (suc k) v = (omega arith, little_endian-IsByte k (v / 256))

pub length-big_endian : (k v : ℕ) → length (big_endian k v) ≡ k
unfolding big_endian
length-big_endian zero v = refl
length-big_endian (suc k) v =
    omega
      (arith, length-append (big_endian k (v / 256)) (v % 256 ∷ []), length-big_endian k (v / 256))

pub from-little_endian : (k v : ℕ) → v < 256 ^ k → from_little_endian (little_endian k v) ≡ v
unfolding little_endian from_little_endian
from-little_endian zero v h = omega arith
from-little_endian (suc k) v h =
    omega (arith, pow-suc 256 k, from-little_endian k (v / 256) (omega (arith, pow-suc 256 k)))

pub read_bytes-append :
    (n : ℕ) (h rest : List ℕ) → length h ≡ n → read_bytes n (h ++ rest) ≡ some (h, rest)
unfolding read_bytes
read_bytes-append n h rest e =
    let enough : ltb (length (h ++ rest)) n ≡ false = ground (arith, length-append h rest) in
    rw (enough, take-append h rest e, drop-append h rest e)

pub read_number-append :
    (k v : ℕ) (rest : List ℕ)
    → v < 256 ^ k
    → read_number k (little_endian k v ++ rest) ≡ some (v, rest)
unfolding read_number
read_number-append k v rest h =
    let b = little_endian k v in
    let size = length-little_endian k v in
    let enough : ltb (length (b ++ rest)) k ≡ false = ground (arith, length-append b rest, size) in
    rw (enough, take-append b rest size, drop-append b rest size, from-little_endian k v h)

-- A read succeeds on a slice that is long enough, and takes just its bytes.
pub read_bytes_enough :
    (n : ℕ) (rest : List ℕ) → n ≤ length rest → read_bytes n rest ≡ some (take n rest, drop n rest)
unfolding read_bytes
read_bytes_enough n rest h = ground arith

pub read_number_enough :
    (n : ℕ) (rest : List ℕ)
    → n ≤ length rest
    → read_number n rest ≡ some (from_little_endian (take n rest), drop n rest)
unfolding read_number
read_number_enough n rest h = ground arith
