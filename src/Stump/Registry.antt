-- ===== src/Stump/Registry.antt =====
-- internal/stump/stump.go: TokenRegistry, the known tokens with their hashes.
use stumpt.Base.{
  ℕ, suc, ◌≡◌, refl, ap, ◌∙◌, arith, Bool, true, false, ◌||◌, none, some, List, [], ◌∷◌, ◌++◌,
  length, if◌then◌else◌, Option-cases, inl, inr,
}
use stumpt.Base.Bytes.{Hash, zero_hash}
use stumpt.Base.Maps.{
  ◌==◌, lookup, insert, bytes_eq, bytes_beq_iff, beq_refl, lookup-insert, length-insert,
}
use stumpt.Stump.{Token, token_hash}

pub record TokenRegistry : Type 0 where
  pub hashes : List (Token × Hash)
  pub tokens : List Token

unfoldable pub new_token_registry : TokenRegistry
new_token_registry = record { hashes = []; tokens = [] }

-- The hash and whether the token is known; the zero hash when it is not.
unfoldable pub hash : Token → TokenRegistry → Hash × Bool
hash token tr = elim (lookup token tr.hashes) [ none ↦ (zero_hash, false) | some h ↦ (h, true) ]

unfoldable pub registered : TokenRegistry → List Token
registered tr = tr.tokens

unfoldable pub len : TokenRegistry → ℕ
len tr = length tr.hashes

module _ (sha256 : List ℕ → List ℕ) where
  -- The new registry and the returned hash.
  unfoldable pub register : Token → TokenRegistry → TokenRegistry × Hash
  register token tr = elim (lookup token tr.hashes) [
    | some h ↦ (tr, h)
    | none ↦
        let h = token_hash sha256 token in
        (record { hashes = insert token h tr.hashes; tokens = tr.tokens ++ (token ∷ []) }, h)
  ]

abbrev pub contains : Token → List Token → Bool
contains t [] = false
contains t (u ∷ us) = u == t || contains t us

abbrev pub Distinct : List Token → Type 0
Distinct [] = Unit
Distinct (t ∷ ts) = (contains t ts ≡ false) × Distinct ts

-- A known token stands once in the list, under its own hash; the list has no others.
pub record IsValid (sha256 : List ℕ → List ℕ) (tr : TokenRegistry) : Type 0 where
  pub distinct : Distinct tr.tokens
  pub known :
      (t : Token)
      → lookup t tr.hashes ≡ (if contains t tr.tokens then some (token_hash sha256 t) else none)
  pub size : length tr.hashes ≡ length tr.tokens

contains-concat :
    (t u : Token) (ts : List Token) → contains t (ts ++ (u ∷ [])) ≡ (contains t ts || u == t)
contains-concat t u [] = ground arith
contains-concat t u (v ∷ ts) = ground (arith, contains-concat t u ts)

Distinct-concat :
    (u : Token) (ts : List Token) → Distinct ts → contains u ts ≡ false → Distinct (ts ++ (u ∷ []))
Distinct-concat u [] d h = (refl, tt)
Distinct-concat u (t ∷ ts) (new, d) h = (
  contains-concat t u ts ∙ ground (arith, bytes_beq_iff t u, bytes_beq_iff u t),
  Distinct-concat u ts d (ground arith),
)

length-concat : (ts : List Token) (u : Token) → length (ts ++ (u ∷ [])) ≡ suc (length ts)
length-concat [] u = refl
length-concat (t ∷ ts) u = ap suc (length-concat ts u)

module _ (sha256 : List ℕ → List ℕ) where
  pub new-IsValid : IsValid sha256 new_token_registry
  unfolding new_token_registry lookup
  new-IsValid = record { distinct = tt; known = λ t. refl; size = refl }

  register_new :
      (t : Token) (tr : TokenRegistry)
      → IsValid sha256 tr
      → lookup t tr.hashes ≡ none
      → IsValid sha256 (record {
        hashes = insert t (token_hash sha256 t) tr.hashes;
        tokens = tr.tokens ++ (t ∷ []);
      })
  register_new t tr v fresh = record {
    distinct = Distinct-concat t tr.tokens v.distinct (ground (arith, v.known t));
    known = λ u. ground (
      arith,
      lookup-insert t u (token_hash sha256 t) tr.hashes,
      contains-concat u t tr.tokens,
      v.known u,
      bytes_beq_iff t u,
      ap (token_hash sha256) {x = t} {y = u},
    );
    size =
        ground (
          arith,
          length-insert t (token_hash sha256 t) tr.hashes,
          length-concat tr.tokens t,
          v.size,
        );
  }

  -- Register keeps a well-formed registry well formed, returns the hash of the token, and leaves the token
  -- known under that hash; what Hash answers for other tokens does not change.
  pub register-IsValid :
      (t : Token) (tr : TokenRegistry)
      → IsValid sha256 tr
      → IsValid sha256 (register sha256 t tr).0
        × ((register sha256 t tr).1 ≡ token_hash sha256 t)
        × (hash t (register sha256 t tr).0 ≡ (token_hash sha256 t, true))
        × ((u : Token) → (t == u) ≡ false → hash u (register sha256 t tr).0 ≡ hash u tr)
  unfolding register hash
  register-IsValid t tr v = elim (Option-cases (lookup t tr.hashes)) [
    | inl fresh ↦
        let h = token_hash sha256 t in
        rw (fresh, register)
          (
            register_new t tr v fresh,
            refl,
            ground (arith, lookup-insert t t h tr.hashes, beq_refl t),
            λ u other. ground (arith, lookup-insert t u h tr.hashes),
          )
    | inr (h, old) ↦
        let its : h ≡ token_hash sha256 t = ground (arith, v.known t) in
        rw (old, register) (v, its, ground arith, λ u other. refl)
  ]
