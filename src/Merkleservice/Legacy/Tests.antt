-- ===== src/Merkleservice/Legacy/Tests.antt =====
-- Two transactions of one pair in the older assembly, and the theorem there.
use stumpt.Base.{ℕ, ◌*◌, ◌+◌, ◌≡◌, refl, List, [], ◌∷◌, some, none, replicate}
use stumpt.Base.Bytes.{Hash}
use stumpt.Base.Maps.{lookup}
use stumpt.Merkleservice.BumpEntry.{Level}
use stumpt.Merkleservice.Assembly.{plain}
use stumpt.Merkleservice.Cache.{CachedSubtree}
use stumpt.Merkleservice.Extraction.{LeafPos, txid_entry}
use stumpt.Merkleservice.Legacy.{build_first_level}
use stumpt.Merkleservice.Legacy.FirstLevel.{build_first_level-pair}

abbrev hash_of : ℕ → Hash
hash_of b = replicate 32 b

abbrev place : ℕ → LeafPos
place i = record { subtree_idx = 0; local_idx = i; global_idx = i }

abbrev one_subtree : List (ℕ × CachedSubtree)
one_subtree = (0, record { leaves = hash_of 1 ∷ hash_of 2 ∷ []; store = hash_of 3 ∷ [] }) ∷ []

abbrev built : Level
built = txid_entry 0 (hash_of 1) ∷ plain 1 (hash_of 2) ∷ txid_entry 1 (hash_of 2) ∷ []

built_run : build_first_level one_subtree none (place 0 ∷ place 1 ∷ []) ≡ some built
unfolding build_first_level lookup
built_run = refl

build_first_level-pair_example :
    (first : Hash) × (sib : Hash) × (second : Hash) × (rest : Level) × (built
      ≡ txid_entry (2 * 0) first ∷ plain (2 * 0 + 1) sib ∷ txid_entry (2 * 0 + 1) second ∷ rest)
build_first_level-pair_example =
    build_first_level-pair one_subtree none (place 0) (place 1) [] built 0 refl refl refl built_run
