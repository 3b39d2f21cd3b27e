-- ===== src/Subtree/Sizes.antt =====
-- internal/subtree/subtree.go: NextPowerOfTwo and Log2Ceil, whose loops run on 64-bit ints.
use native.Mathlib.Nat.{pow-suc, one-le-pow, pow-le-pow_right}
use native.Mathlib.Numerals.{add-one}
use stumpt.Base.{
  ℕ, zero, suc, ◌+◌, ◌*◌, ◌^◌, ◌%◌, ◌≤◌, ◌<◌, ◌≡◌, ◌∙◌, ◌⊎◌, refl, ap, arith, Option, none, some,
  ltb, Bool, true, false, if◌then◌else◌, Bool-cases, inl, inr, leb,
}
use stumpt.Subtree.{is_below, one_shifted, next_power_loop, next_power_of_two, log2_loop, log2_ceil}

pub pow_double : (h : ℕ) → 2 ^ suc h ≡ 2 * 2 ^ h
pow_double h = omega (arith, pow-suc 2 h)

pub pow_pos : (h : ℕ) → 1 ≤ 2 ^ h
pow_pos h = one-le-pow h 2 (omega arith)

pow_add_one : (h : ℕ) → 2 ^ (h + 1) ≡ 2 * 2 ^ h
pow_add_one h = rw add-one (pow_double h)

pub lt_pow : (h : ℕ) → h < 2 ^ h
lt_pow zero = omega arith
lt_pow (suc h) = omega (arith, pow_double h, lt_pow h)

pow_le : (h k : ℕ) → h ≤ k → 2 ^ h ≤ 2 ^ k
pow_le h k le = pow-le-pow_right {n = 2} (omega arith) {i = h} {j = k} le

shift_again : (h : ℕ) → one_shifted h * 2 % 2 ^ 64 ≡ one_shifted (h + 1)
shift_again h = elim (Bool-cases (ltb h 63)) [
  | inl low ↦ ground (arith, pow_add_one h, pow_le h 62)
  | inr high ↦ ground (arith, ap (λ (t : ℕ). 2 ^ t) {x = h} {y = 63})
]

-- A value that the loop returns while the shift is still inside the word.
returned :
    (h n : ℕ) → h < 64 → is_below (one_shifted h) n ≡ false → (one_shifted h ≡ 2 ^ h) × (n ≤ 2 ^ h)
returned h n low stop = ground (arith, low, stop)

pow_of : Option ℕ → Option ℕ
pow_of (some h) = some (2 ^ h)
pow_of none = none

-- The two loops run in step.
loops_agree :
    (f n h : ℕ) → h + f ≤ 64 → next_power_loop f n (one_shifted h) ≡ pow_of (log2_loop f n h)
unfolding next_power_loop log2_loop pow_of
loops_agree zero n h low = refl
loops_agree (suc f) n h low =
    step (is_below (one_shifted h) n) refl (loops_agree f n (h + 1) (omega (arith, low)))
  where
    step :
        (b : Bool)
        → is_below (one_shifted h) n ≡ b
        → next_power_loop f n (one_shifted (h + 1)) ≡ pow_of (log2_loop f n (h + 1))
        → (if b then next_power_loop f n (one_shifted h * 2 % 2 ^ 64) else some (one_shifted h))
          ≡ pow_of (if b then log2_loop f n (h + 1) else some h)
    step true e ih = ap (next_power_loop f n) (shift_again h) ∙ ih
    step false e ih = ap some (returned h n (omega (arith, low)) e).0

-- NextPowerOfTwo(n) is 2 to the power Log2Ceil(n).
pub next_power-log2 : (n : ℕ) → next_power_of_two n ≡ 2 ^ log2_ceil n
unfolding next_power_of_two log2_ceil pow_of
next_power-log2 n =
    ap (λ o. elim o [ some p ↦ p | none ↦ 2 ^ n ]) (loops_agree 64 n 0 (omega arith))
    ∙ read (log2_loop 64 n 0)
  where
    read :
        (o : Option ℕ)
        → elim (pow_of o) [ some p ↦ p | none ↦ 2 ^ n ] ≡ 2 ^ elim o [ some h ↦ h | none ↦ n ]
    read none = refl
    read (some h) = refl

log2_loop_enough : (f n h k : ℕ) → h + f ≤ 64 → log2_loop f n h ≡ some k → n ≤ 2 ^ k
unfolding log2_loop
log2_loop_enough zero n h k low e = cc e
log2_loop_enough (suc f) n h k low e =
    step (is_below (one_shifted h) n) refl (log2_loop_enough f n (h + 1) k (omega (arith, low))) e
  where
    step :
        (b : Bool)
        → is_below (one_shifted h) n ≡ b
        → (log2_loop f n (h + 1) ≡ some k → n ≤ 2 ^ k)
        → (if b then log2_loop f n (h + 1) else some h) ≡ some k
        → n ≤ 2 ^ k
    step true on ih e = ih e
    step false off ih e =
        let same : h ≡ k = cc e in
        omega (arith, (returned h n (omega (arith, low)) off).1, ap (λ (t : ℕ). 2 ^ t) same)

pub log2_ceil_enough : (n : ℕ) → n ≤ 2 ^ log2_ceil n
unfolding log2_ceil
log2_ceil_enough n = step (log2_loop 64 n 0) refl
  where
    step : (o : Option ℕ) → log2_loop 64 n 0 ≡ o → n ≤ 2 ^ elim o [ some h ↦ h | none ↦ n ]
    step none e = omega (arith, lt_pow n)
    step (some h) e = log2_loop_enough 64 n 0 h (omega arith) e

log2_loop_least :
    (f n h k : ℕ)
    → n ≤ 2 ^ k
    → h ≤ k
    → k ≤ 62
    → k < h + f
    → (j : ℕ) × (log2_loop f n h ≡ some j) × (j ≤ k)
unfolding log2_loop
log2_loop_least zero n h k p q small fuel = absurd (omega (arith, q, fuel))
log2_loop_least (suc f) n h k p q small fuel =
    step (is_below (one_shifted h) n) refl
      (λ lt. log2_loop_least f n (h + 1) k p (omega (arith, lt)) small (omega (arith, fuel)))
  where
    before_end : is_below (one_shifted h) n ≡ true → h < k
    before_end on = elim (Bool-cases (ltb h k)) [
      | inl lt ↦ ground (arith, lt)
      | inr le ↦
          let same : h ≡ k = ground (arith, le, q) in
          let low : 2 ^ k ≤ 2 ^ 62 = pow_le k 62 small in
          absurd (ground (arith, on, p, low, small, ap (λ (t : ℕ). 2 ^ t) same))
    ]

    step :
        (b : Bool)
        → is_below (one_shifted h) n ≡ b
        → (h < k → (j : ℕ) × (log2_loop f n (h + 1) ≡ some j) × (j ≤ k))
        → (j : ℕ) × ((if b then log2_loop f n (h + 1) else some h) ≡ some j) × (j ≤ k)
    step true on ih = ih (before_end on)
    step false off ih = (h, refl, q)

log2_loop_endless : (f n h : ℕ) → 2 ^ 62 < n → log2_loop f n h ≡ none
unfolding log2_loop
log2_loop_endless zero n h large = refl
log2_loop_endless (suc f) n h large = ground (
  arith,
  log2_loop_endless f n (h + 1) large,
  pow_le h 62,
  ap (λ (t : ℕ). 2 ^ t) {x = h} {y = 63},
)

-- On an int that is not negative the loop of Log2Ceil ends just when the int is at most 2 ^ 62: it then
-- ends within 64 rounds, with the least h with n ≤ 2 ^ h, and above it no number of rounds is enough.
pub log2_ceil_correct :
    (n : ℕ)
    → ((n ≤ 2 ^ 62)
        × ((h : ℕ) × (log2_loop 64 n 0 ≡ some h)
            × (log2_ceil n ≡ h)
            × (n ≤ 2 ^ h)
            × ((k : ℕ) → n ≤ 2 ^ k → h ≤ k)))
      ⊎ ((2 ^ 62 < n) × ((rounds : ℕ) → log2_loop rounds n 0 ≡ none))
unfolding log2_ceil
log2_ceil_correct n = elim (Bool-cases (leb n (2 ^ 62))) [
  | inr large ↦
      let over : 2 ^ 62 < n = ground (arith, large) in
      inr (over, λ rounds. log2_loop_endless rounds n 0 over)
  | inl small ↦
      let fits : n ≤ 2 ^ 62 = ground (arith, small) in
      let (h, found, low) =
        log2_loop_least 64 n 0 62 fits (omega arith) (omega arith) (omega arith) in
      inl (
        fits,
        (
          h,
          found,
          ap (λ o. elim o [ some h ↦ h | none ↦ n ]) found,
          log2_loop_enough 64 n 0 h (omega arith) found,
          least h low found,
        ),
      )
]
  where
    least : (h : ℕ) → h ≤ 62 → log2_loop 64 n 0 ≡ some h → (k : ℕ) → n ≤ 2 ^ k → h ≤ k
    least h low found k enough = elim (Bool-cases (leb k 62)) [
      | inr big ↦ ground (arith, low, big)
      | inl below ↦
          let (j, again, le) =
            log2_loop_least 64 n 0 k enough (omega arith) (ground (arith, below))
              (ground (arith, below)) in
          let same : h ≡ j = cc (found, again) in omega (arith, same, le)
    ]
