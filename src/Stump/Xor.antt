-- ===== src/Stump/Xor.antt =====
-- XORKey: what the unrolled loop computes, and that either operand comes back from the key.
use Prim.Native.Nat.{bit_xor}
use stumpt.Base.{
  ℕ, zero, suc, ◌<◌, ◌≡◌, refl, ap, sym, ◌∙◌, arith, List, [], ◌∷◌, some, none, true, ltb,
  if◌then◌else◌, length, get_elem?, get_or, set, elem, range_from, elem-range_from, get_elem?-set,
  get_elem?-past, get_elem?-get_or, length-set, ext_lem, Bool-cases, inl, inr,
}
use stumpt.Base.Bytes.{Hash, zero_hash}
use stumpt.Base.Bits.{bit_xor_comm, bit_xor_cancel}
use stumpt.Stump.{Key, xor_key}

module _ (v : ℕ → ℕ) where
  set_each : List ℕ → Key → Key
  set_each [] k = k
  set_each (i ∷ is) k = set_each is (set k i (v i))

  length-set_each : (is : List ℕ) (k : Key) → length (set_each is k) ≡ length k
  unfolding set_each
  length-set_each [] k = refl
  length-set_each (i ∷ is) k = length-set_each is (set k i (v i)) ∙ length-set k i (v i)

  get_elem?-set_each :
      (is : List ℕ) (k : Key) (j : ℕ)
      → ((x : ℕ) → elem x is ≡ true → x < length k)
      → get_elem? (set_each is k) j ≡ (if elem j is then some (v j) else get_elem? k j)
  unfolding set_each
  get_elem?-set_each [] k j h = refl
  get_elem?-set_each (i ∷ is) k j h = ground (
    arith,
    h i (ground arith),
    get_elem?-set_each is (set k i (v i)) j (λ x e. ground (arith, length-set k i (v i), h x)),
    get_elem?-set k i j (v i),
    ap v {x = i} {y = j},
  )

  below_32 : (x : ℕ) → elem x (range_from 32 0) ≡ true → x < 32
  below_32 x e = ground arith

abbrev byte_xor : Hash → Hash → ℕ → ℕ
byte_xor a b i = bit_xor (get_or a i 0) (get_or b i 0)

xor_key-set_each : (a b : Hash) → xor_key a b ≡ set_each (byte_xor a b) (range_from 32 0) zero_hash
unfolding xor_key set_each
xor_key-set_each a b = refl

get_elem?-xor_key :
    (a b : Hash) (j : ℕ)
    → get_elem? (xor_key a b) j ≡ (if ltb j 32 then some (byte_xor a b j) else none)
get_elem?-xor_key a b j =
    let v = byte_xor a b in
    ap (λ k. get_elem? k j) (xor_key-set_each a b)
    ∙ get_elem?-set_each v (range_from 32 0) zero_hash j (below_32 v)
    ∙ (if_32 j)
  where
    if_32 :
        (i : ℕ)
        → (if elem i (range_from 32 0) then some (byte_xor a b i) else get_elem? zero_hash i)
          ≡ (if ltb i 32 then some (byte_xor a b i) else none)
    if_32 i = rw elem-range_from (ground (arith, get_elem?-past zero_hash i))

-- XORKey has 32 bytes, each the exclusive or of the bytes at its place; on 32-byte hashes it does not
-- depend on the order of the operands, and either operand comes back from the key and the other.
pub record IsBytewiseXor (a b : Hash) : Type 0 where
  pub bytes :
      (i : ℕ) → i < 32 → get_elem? (xor_key a b) i ≡ some (bit_xor (get_or a i 0) (get_or b i 0))
  pub size : length (xor_key a b) ≡ 32
  pub commutes : xor_key a b ≡ xor_key b a
  pub first_back : xor_key (xor_key a b) b ≡ a
  pub second_back : xor_key (xor_key a b) a ≡ b

length-xor_key : (a b : Hash) → length (xor_key a b) ≡ 32
length-xor_key a b =
    ap length (xor_key-set_each a b) ∙ length-set_each (byte_xor a b) (range_from 32 0) zero_hash

xor_key_comm : (a b : Hash) → xor_key a b ≡ xor_key b a
xor_key_comm a b = ext_lem (xor_key a b) (xor_key b a) λ i.
    rw
      (get_elem?-xor_key a b i, get_elem?-xor_key b a i, bit_xor_comm (get_or a i 0) (get_or b i 0))

get_or_of : (xs : List ℕ) (i : ℕ) {x : ℕ} → get_elem? xs i ≡ some x → get_or xs i 0 ≡ x
get_or_of [] i e = cc
get_or_of (x ∷ xs) zero e = cc
get_or_of (x ∷ xs) (suc i) e = get_or_of xs i e

xor_key_cancel : (a b : Hash) → length a ≡ 32 → xor_key (xor_key a b) b ≡ a
xor_key_cancel a b size = ext_lem (xor_key (xor_key a b) b) a λ i. elim (Bool-cases (ltb i 32)) [
  | inl inside ↦
      let byte : get_or (xor_key a b) i 0 ≡ byte_xor a b i =
        get_or_of (xor_key a b) i (get_elem?-xor_key a b i ∙ rw inside) in
      get_elem?-xor_key (xor_key a b) b i
      ∙ rw (inside, byte, bit_xor_cancel) (sym (get_elem?-get_or a i 0 (ground arith)))
  | inr past ↦
      get_elem?-xor_key (xor_key a b) b i ∙ rw past (sym (get_elem?-past a i (ground arith)))
]

-- For two hashes of 32 bytes: XORKey is their bytewise exclusive or and has 32 bytes, it does not
-- matter which hash comes first, and the key with either hash gives back the other.
pub xor_key-IsBytewiseXor : (a b : Hash) → length a ≡ 32 → length b ≡ 32 → IsBytewiseXor a b
xor_key-IsBytewiseXor a b la lb = record {
  bytes = λ i h. get_elem?-xor_key a b i ∙ ground arith;
  size = length-xor_key a b;
  commutes = xor_key_comm a b;
  first_back = xor_key_cancel a b la;
  second_back = ap (λ k. xor_key k a) (xor_key_comm a b) ∙ xor_key_cancel b a lb;
}
