-- ===== src/Subtree/Schedule.antt =====
-- Goroutines over chunks: every interleaving of their steps does each pair once.
use stumpt.Base.{
  ℕ, zero, suc, ◌+◌, ◌-◌, ◌*◌, ◌/◌, ◌≤◌, ◌<◌, ◌≡◌, refl, ap, ◌∙◌, arith, List, [], ◌∷◌, ◌++◌, ◌||◌,
  ◌&&◌, ltb, leb, ◌==◌, elem, range_from, elem-range_from,
}
use stumpt.Subtree.{worker_jobs, split_jobs}
use Prim.Native.Nat.{min}
use native.Mathlib.Nat.{add-zero, div-add-mod, mod-lt}

-- `order` is one way in which goroutines with these steps left may take turns.
pub data Interleaving : List (List ℕ) → List ℕ → Type 0 where
  over : Interleaving [] []
  ended :
      {jobs : List (List ℕ)} {order : List ℕ}
      → Interleaving jobs order
      → Interleaving ([] ∷ jobs) order
  turn :
      (before after : List (List ℕ)) (j : ℕ) (rest : List ℕ) {jobs : List (List ℕ)} {order : List ℕ}
      → jobs ≡ before ++ ((j ∷ rest) ∷ after)
      → Interleaving (before ++ (rest ∷ after)) order
      → Interleaving jobs (j ∷ order)

-- The goroutines run one after the other.
unfoldable pub one_by_one : List (List ℕ) → List ℕ
one_by_one [] = []
one_by_one (job ∷ jobs) = job ++ one_by_one jobs

run_first :
    (job : List ℕ) (jobs : List (List ℕ)) (order : List ℕ)
    → Interleaving jobs order
    → Interleaving (job ∷ jobs) (job ++ order)
run_first [] jobs order i = ended i
run_first (j ∷ job) jobs order i = turn [] jobs j job refl (run_first job jobs order i)

pub one_by_one-Interleaving : (jobs : List (List ℕ)) → Interleaving jobs (one_by_one jobs)
unfolding one_by_one
one_by_one-Interleaving [] = over
one_by_one-Interleaving (job ∷ jobs) =
    run_first job jobs (one_by_one jobs) (one_by_one-Interleaving jobs)

elem-append : (x : ℕ) (xs ys : List ℕ) → elem x (xs ++ ys) ≡ (elem x xs || elem x ys)
elem-append x [] ys = refl
elem-append x (y ∷ xs) ys = ground (arith, elem-append x xs ys)

elem_turn :
    (x j : ℕ) (rest : List ℕ) (before after : List (List ℕ))
    → elem x (one_by_one (before ++ ((j ∷ rest) ∷ after)))
      ≡ (j == x || elem x (one_by_one (before ++ (rest ∷ after))))
unfolding one_by_one
elem_turn x j rest [] after = refl
elem_turn x j rest (b ∷ before) after = ground (
  arith,
  elem-append x b (one_by_one (before ++ ((j ∷ rest) ∷ after))),
  elem-append x b (one_by_one (before ++ (rest ∷ after))),
  elem_turn x j rest before after,
)

-- Whatever the interleaving, the same steps are made.
elem-Interleaving :
    (x : ℕ) {jobs : List (List ℕ)} {order : List ℕ}
    → Interleaving jobs order
    → elem x order ≡ elem x (one_by_one jobs)
unfolding one_by_one
elem-Interleaving x over = refl
elem-Interleaving x (ended i) = elem-Interleaving x i
elem-Interleaving x (turn before after j rest e i) = ground (
  arith,
  ap (λ (t : List (List ℕ)). elem x (one_by_one t)) e,
  elem_turn x j rest before after,
  elem-Interleaving x i,
)

-- The chunks from worker `w` on hold the pairs from its first on.
elem-worker_jobs :
    (x left w chunk num_pairs : ℕ)
    → elem x (one_by_one (worker_jobs left w chunk num_pairs))
      ≡ (leb (w * chunk) x && ltb x num_pairs && ltb x ((w + left) * chunk))
unfolding worker_jobs one_by_one
elem-worker_jobs x zero w chunk num_pairs = ground (arith, ap (λ (t : ℕ). t * chunk) (add-zero w))
elem-worker_jobs x (suc left) w chunk num_pairs =
    let lo = w * chunk in
    let hi = min (lo + chunk) num_pairs in
    let next : (w + 1) * chunk ≡ w * chunk + chunk = omega arith in
    let last : (w + suc left) * chunk ≡ (w + 1 + left) * chunk =
      ap (λ (t : ℕ). t * chunk) (omega arith) in
    let room : (w + 1 + left) * chunk ≡ w * chunk + chunk + left * chunk = omega arith in
    ground (
      arith,
      elem-append x (range_from (hi - lo) lo)
          (one_by_one (worker_jobs left (w + 1) chunk num_pairs)),
      elem-range_from x (hi - lo) lo,
      elem-worker_jobs x left (w + 1) chunk num_pairs,
    )

enough_chunks : (p w : ℕ) → 0 < w → p ≤ w * ((p + w - 1) / w)
enough_chunks p w h = grind (arith, div-add-mod (p + w - 1) w, mod-lt)

-- The chunks of all workers hold each pair index below `num_pairs`.
pub elem-split_jobs :
    (x num_pairs num_workers : ℕ)
    → 0 < num_workers
    → elem x (one_by_one (split_jobs num_pairs num_workers)) ≡ ltb x num_pairs
elem-split_jobs x p w h =
    ground (arith, enough_chunks p w, elem-worker_jobs x w 0 ((p + w - 1) / w) p)

-- With a worker or more, the steps of any interleaving of a level's goroutines are for just the pair
-- indices below `num_pairs`.
pub elem-schedule :
    (x num_pairs num_workers : ℕ) {order : List ℕ}
    → 0 < num_workers
    → Interleaving (split_jobs num_pairs num_workers) order
    → elem x order ≡ ltb x num_pairs
elem-schedule x p w h i = elem-Interleaving x i ∙ elem-split_jobs x p w h
