-- ===== src/Merkleservice/Jitter.antt =====
-- internal/merkleservice/registry.go: jitterTxids, which gives each miner its own order of a subtree's
-- txids, and hashSliceToBytes. The random source and the float arithmetic on the jitter fraction are
-- parameters.
use stumpt.Base.{
  ℕ, zero, suc, ◌+◌, ◌-◌, ◌*◌, ◌<◌, ◌≡◌, refl, ap, ◌∙◌, arith, Bool, true, false, Option, none,
  some, List, [], ◌∷◌, ltb, if◌then◌else◌, length, get_elem?,
}
use stumpt.Base.Loop.{◌>>=◌}
use stumpt.Base.Maps.{◌==◌, bytes_eq}
use stumpt.Base.Bytes.{Hash}

-- `result[pos], result[pos+1] = result[pos+1], result[pos]`; out of range panics.
unfoldable pub swap_at : ℕ → List Hash → Option (List Hash)
swap_at pos [] = none
swap_at pos (x ∷ []) = none
swap_at zero (x ∷ y ∷ more) = some (y ∷ x ∷ more)
swap_at (suc pos) (x ∷ y ∷ more) = swap_at pos (y ∷ more) >>= λ ys. some (x ∷ ys)

-- The rounds `i`, …, `i + left - 1`, where `draw i n` is the generator's i-th number below `n`.
unfoldable pub swaps : (ℕ → ℕ → ℕ) → ℕ → ℕ → List Hash → Option (List Hash)
swaps draw zero i result = some result
swaps draw (suc left) i result =
    swap_at (draw i (length result - 1)) result >>= swaps draw left (i + 1)

module _ {F : Type 0} (is_zero : F → Bool) (num_swaps : ℕ → F → ℕ) (source : ℕ → ℕ → ℕ → ℕ) where
  -- `source seed` is the generator made from a seed.
  unfoldable pub jitter_txids : List Hash → ℕ → ℕ → List F → Option (List Hash)
  jitter_txids txids miner_idx subtree_idx jitter_frac = elim (get_elem? jitter_frac miner_idx) [
    | none ↦ some txids
    | some frac ↦
        if is_zero frac
        then some txids
        else if ltb (length txids) 2
        then some txids
        else swaps (source (miner_idx * 1_000_000 + subtree_idx)) (num_swaps (length txids) frac) 0
            txids
  ]

-- How often a txid stands in a list.
abbrev pub count : Hash → List Hash → ℕ
count h [] = 0
count h (x ∷ xs) = let rest = count h xs in if x == h then suc rest else rest

-- The lists with the same txids, each as often.
pub record IsReordering (xs ys : List Hash) : Type 0 where
  pub same_length : length ys ≡ length xs
  pub same_counts : (h : Hash) → count h ys ≡ count h xs

swap_at-IsReordering :
    (pos : ℕ) (xs : List Hash)
    → pos < length xs - 1
    → (ys : List Hash) × (swap_at pos xs ≡ some ys) × IsReordering xs ys
unfolding swap_at
swap_at-IsReordering pos [] inside = absurd (omega arith)
swap_at-IsReordering pos (x ∷ []) inside = absurd (omega arith)
swap_at-IsReordering zero (x ∷ y ∷ more) inside =
    (y ∷ x ∷ more, refl, record { same_length = refl; same_counts = λ h. ground arith })
swap_at-IsReordering (suc pos) (x ∷ y ∷ more) inside =
    let (ys, ran, same) = swap_at-IsReordering pos (y ∷ more) (omega arith) in
    (
      x ∷ ys,
      ap (λ (m : Option (List Hash)). m >>= λ zs. some (x ∷ zs)) ran,
      record {
        same_length = ap suc same.same_length;
        same_counts = λ h. ground (arith, same.same_counts h);
      },
    )

swaps-IsReordering :
    (draw : ℕ → ℕ → ℕ) (left i : ℕ) (xs : List Hash)
    → ((k n : ℕ) → 0 < n → draw k n < n)
    → 1 < length xs
    → (ys : List Hash) × (swaps draw left i xs ≡ some ys) × IsReordering xs ys
unfolding swaps
swaps-IsReordering draw zero i xs below many =
    (xs, refl, record { same_length = refl; same_counts = λ h. refl })
swaps-IsReordering draw (suc left) i xs below many =
    let (ys, first, same) =
      swap_at-IsReordering (draw i (length xs - 1)) xs (below i (length xs - 1) (omega arith)) in
    let (zs, others, more) =
      swaps-IsReordering draw left (i + 1) ys below (omega (arith, same.same_length)) in
    (
      zs,
      ap (λ (m : Option (List Hash)). m >>= swaps draw left (i + 1)) first ∙ others,
      record {
        same_length = more.same_length ∙ same.same_length;
        same_counts = λ h. more.same_counts h ∙ same.same_counts h;
      },
    )

-- With a generator whose numbers are below their bound, jitterTxids does not panic, and a miner's
-- order has the txids of the canonical one, each as often.
pub jitter_txids-IsReordering :
    {F : Type 0} (is_zero : F → Bool) (num_swaps : ℕ → F → ℕ) (source : ℕ → ℕ → ℕ → ℕ)
    (txids : List Hash) (miner_idx subtree_idx : ℕ) (jitter_frac : List F)
    → ((seed k n : ℕ) → 0 < n → source seed k n < n)
    → (ys : List Hash) × (jitter_txids is_zero num_swaps source txids miner_idx subtree_idx
          jitter_frac
        ≡ some ys)
      × IsReordering txids ys
unfolding jitter_txids
jitter_txids-IsReordering is_zero num_swaps source txids miner subtree fracs below =
    pick (get_elem? fracs miner)
  where
    kept : IsReordering txids txids
    kept = record { same_length = refl; same_counts = λ h. refl }

    round :
        (b c : Bool) (n : ℕ)
        → ltb (length txids) 2 ≡ c
        → (ys : List Hash) × ((if b
              then some txids
              else if c
              then some txids
              else swaps (source (miner * 1_000_000 + subtree)) n 0 txids)
            ≡ some ys)
          × IsReordering txids ys
    round true c n e = (txids, refl, kept)
    round false true n e = (txids, refl, kept)
    round false false n e =
        swaps-IsReordering (source (miner * 1_000_000 + subtree)) n 0 txids (below _)
          (ground (arith, e))

    pick :
        (o : Option _)
        → (ys : List Hash) × ((elim o [
          | none ↦ some txids
          | some frac ↦
              if is_zero frac
              then some txids
              else if ltb (length txids) 2
              then some txids
              else swaps
                  (source (miner * 1_000_000 + subtree))
                  (num_swaps (length txids) frac)
                  0
                  txids
        ])
            ≡ some ys)
          × IsReordering txids ys
    pick none = (txids, refl, kept)
    pick (some frac) =
        round (is_zero frac) (ltb (length txids) 2) (num_swaps (length txids) frac) refl
