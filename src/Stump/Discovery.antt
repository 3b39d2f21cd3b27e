-- ===== src/Stump/Discovery.antt =====
-- internal/stump/stump.go: Discover, the probe of a store by every subtree root and token.
use mathlib.Core.List.{append-nil, append_assoc}
use stumpt.Base.{
  ℕ, ◌≡◌, ap, sym, ◌∙◌, arith, true, false, List, [], ◌∷◌, ◌++◌, if◌then◌else◌, Bool-cases, inl,
  inr,
}
use stumpt.Base.Bytes.{Hash}
use stumpt.Base.Maps.{◌==◌, lookup, insert, bytes_eq, bytes_beq_iff, lookup-insert}
use stumpt.Stump.{Token, Entry, xor_key, token_hash, or_nil, StumpStore}
use stumpt.Stump.Registry.{TokenRegistry, hash, registered, contains, Distinct, IsValid}

abbrev pub Found : Type 0
Found = List (Token × List Entry)

-- What the result holds for a token; a token that is not in the map reads as no entries.
abbrev pub found_for : Token → Found → List Entry
found_for t result = or_nil (lookup t result)

known_hash :
    (sha256 : List ℕ → List ℕ) (registry : TokenRegistry) (u : Token)
    → IsValid sha256 registry
    → contains u registry.tokens ≡ true
    → (hash u registry).0 ≡ token_hash sha256 u
unfolding hash
known_hash sha256 registry u v known = ground (arith, v.known u)

module _ {S : Type 0} ⦃store : StumpStore S⦄ where
  -- The body of the inner loop: one token against one root.
  unfoldable pub probe : S → TokenRegistry → Hash → Token → Found → Found
  probe s registry root token result =
      let entries = store.get (xor_key (hash token registry).0 root) s in
      elim entries [
        | [] ↦ result
        | e ∷ es ↦ insert token (or_nil (lookup token result) ++ (e ∷ es)) result
      ]

  unfoldable pub probe_tokens : S → TokenRegistry → Hash → List Token → Found → Found
  probe_tokens s registry root [] result = result
  probe_tokens s registry root (token ∷ tokens) result =
      probe_tokens s registry root tokens (probe s registry root token result)

  unfoldable pub probe_roots : S → TokenRegistry → List Hash → List Token → Found → Found
  probe_roots s registry [] tokens result = result
  probe_roots s registry (root ∷ roots) tokens result =
      probe_roots s registry roots tokens (probe_tokens s registry root tokens result)

  unfoldable pub discover : S → TokenRegistry → List Hash → Found
  discover s registry roots = probe_roots s registry roots (registered registry) []

  -- All that the store has for a token, root after root.
  unfoldable pub stored_for : (List ℕ → List ℕ) → S → Token → List Hash → List Entry
  stored_for sha256 s t [] = []
  stored_for sha256 s t (root ∷ roots) =
      store.get (xor_key (token_hash sha256 t) root) s ++ stored_for sha256 s t roots

  found-probe :
      (s : S) (registry : TokenRegistry) (root : Hash) (t u : Token) (result : Found)
      → found_for u (probe s registry root t result) ≡ (
          if t == u
          then found_for u result ++ store.get (xor_key (hash t registry).0 root) s
          else found_for u result)
  unfolding probe
  found-probe s registry root t u result =
      at_entries (store.get (xor_key (hash t registry).0 root) s)
    where
      at_entries :
          (es : List Entry)
          → found_for u (elim es [
            | [] ↦ result
            | e ∷ more ↦ insert t (or_nil (lookup t result) ++ (e ∷ more)) result
          ])
            ≡ (if t == u then found_for u result ++ es else found_for u result)
      at_entries [] = elim (Bool-cases (t == u)) [
        | inl same ↦ rw (same, append-nil)
        | inr other ↦ rw other
      ]
      at_entries (e ∷ more) = elim (Bool-cases (t == u)) [
        | inl same ↦
            rw (lookup-insert t u (found_for t result ++ (e ∷ more)) result, same)
              (ap (λ x. found_for x result ++ (e ∷ more)) ((bytes_beq_iff t u).0 same))
        | inr other ↦ rw (lookup-insert t u (found_for t result ++ (e ∷ more)) result, other)
      ]

  abbrev hit : S → TokenRegistry → Hash → Token → List Entry
  hit s registry root u = store.get (xor_key (hash u registry).0 root) s

  found-probe_tokens :
      (s : S) (registry : TokenRegistry) (root : Hash) (ts : List Token) (u : Token)
      (result : Found)
      → Distinct ts
      → found_for u (probe_tokens s registry root ts result)
        ≡ found_for u result ++ (if contains u ts then hit s registry root u else [])
  unfolding probe_tokens
  found-probe_tokens s registry root [] u result d = sym (append-nil (found_for u result))
  found-probe_tokens s registry root (t ∷ ts) u result (new, d) = elim (Bool-cases (t == u)) [
    | inl same ↦
        let e = (bytes_beq_iff t u).0 same in
        let gone : contains u ts ≡ false = ap (λ x. contains x ts) (sym e) ∙ new in
        found-probe_tokens s registry root ts u (probe s registry root t result) d
        ∙ rw (found-probe s registry root t u result, same, gone, append-nil)
            (ap (λ x. found_for u result ++ hit s registry root x) e)
    | inr other ↦
        found-probe_tokens s registry root ts u (probe s registry root t result) d
        ∙ rw (found-probe s registry root t u result, other)
  ]

  found-probe_roots :
      (sha256 : List ℕ → List ℕ) (s : S) (registry : TokenRegistry) (u : Token)
      → IsValid sha256 registry
      → (roots : List Hash) (result : Found)
      → found_for u (probe_roots s registry roots registry.tokens result)
        ≡ found_for u result
          ++ (if contains u registry.tokens then stored_for sha256 s u roots else [])
  unfolding probe_roots stored_for
  found-probe_roots sha256 s registry u v [] result =
      elim (Bool-cases (contains u registry.tokens)) [
        | inl known ↦ rw (known, append-nil)
        | inr unknown ↦ rw (unknown, append-nil)
      ]
  found-probe_roots sha256 s registry u v (root ∷ roots) result =
      let ts = registry.tokens in
      let next = probe_tokens s registry root ts result in
      let step = found-probe_tokens s registry root ts u result v.distinct in
      let rest = found-probe_roots sha256 s registry u v roots next in
      elim (Bool-cases (contains u ts)) [
        | inl known ↦
            rest
            ∙ rw (step, known)
                (ap
                    (λ h.
                      (found_for u result ++ store.get (xor_key h root) s)
                      ++ stored_for sha256 s u roots)
                    (known_hash sha256 registry u v known)
                  ∙ append_assoc (found_for u result)
                      (store.get (xor_key (token_hash sha256 u) root) s)
                      (stored_for sha256 s u roots))
        | inr unknown ↦ rest ∙ rw (step, unknown, append-nil, append-nil)
      ]

-- With a well-formed registry, Discover finds for every registered token exactly what the store has under the XOR keys of the
-- token with the announced roots, in the order of the roots, and nothing for any other token.
pub discover-stored_for :
    {S : Type 0} (store : StumpStore S) (sha256 : List ℕ → List ℕ) (s : S)
    (registry : TokenRegistry) (roots : List Hash) (t : Token)
    → IsValid sha256 registry
    → found_for t (discover ⦃store = store⦄ s registry roots) ≡ (
        if contains t (registered registry)
        then stored_for ⦃store = store⦄ sha256 s t roots
        else [])
unfolding discover registered lookup
discover-stored_for store sha256 s registry roots t v =
    found-probe_roots ⦃store = store⦄ sha256 s registry t v roots []
