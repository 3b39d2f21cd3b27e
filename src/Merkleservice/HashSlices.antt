-- ===== src/Merkleservice/HashSlices.antt =====
-- internal/merkleservice/registry.go: hashSliceToBytes and bytesToHashSlice.
use stumpt.Base.{
  ℕ, ◌/◌, ◌<◌, ◌≡◌, ap, ◌∙◌, arith, List, ◌++◌, length, length-append, All, Option, some,
}
use stumpt.Base.Bytes.{Hash}
use stumpt.Diskstore.Encoding.{hash_size, concat_hashes, read_hashes}
use stumpt.Diskstore.Encoding.HashesCodec.{Is32, read-concat_hashes, length-concat_hashes}

-- Each hash is copied to 32 times its place, so the bytes are those of the hashes in their order.
unfoldable pub hash_slice_to_bytes : List Hash → List ℕ
hash_slice_to_bytes hashes = concat_hashes hashes

-- As many hashes as the bytes hold whole; a slice past the end would panic.
unfoldable pub bytes_to_hash_slice : List ℕ → Option (List Hash)
bytes_to_hash_slice bytes = read_hashes (length bytes / hash_size) bytes

-- bytesToHashSlice reads back the hashes of 32 bytes that hashSliceToBytes wrote, when fewer than 32
-- bytes follow.
pub bytes_to_hash_slice-hash_slice_to_bytes :
    (hashes : List Hash) (rest : List ℕ)
    → All Is32 hashes
    → length rest < 32
    → bytes_to_hash_slice (hash_slice_to_bytes hashes ++ rest) ≡ some hashes
unfolding bytes_to_hash_slice hash_slice_to_bytes
bytes_to_hash_slice-hash_slice_to_bytes hashes rest sizes few =
    ap (λ (n : ℕ). read_hashes n (concat_hashes hashes ++ rest))
      (omega (arith, length-append (concat_hashes hashes) rest, length-concat_hashes hashes sizes))
    ∙ read-concat_hashes hashes rest sizes
