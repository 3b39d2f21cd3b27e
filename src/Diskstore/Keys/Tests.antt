-- ===== src/Diskstore/Keys/Tests.antt =====
-- Keys at concrete indices, and the theorems there.
use stumpt.Base.{◌≡◌, refl, [], ◌∷◌, replicate}
use stumpt.Base.Bytes.{big_endian}
use stumpt.Diskstore.Keys.{make_db_key, fragment_key, compare_keys, less}

key_run : fragment_key 1 2 259 ≡ b'f' ∷ 0 ∷ 0 ∷ 0 ∷ 1 ∷ 0 ∷ 0 ∷ 0 ∷ 2 ∷ 0 ∷ 0 ∷ 1 ∷ 3 ∷ []
unfolding fragment_key big_endian
key_run = refl

key_order :
    compare_keys (make_db_key (replicate 32 7) 255) (make_db_key (replicate 32 7) 256) ≡ less
unfolding compare_keys make_db_key big_endian
key_order = refl
