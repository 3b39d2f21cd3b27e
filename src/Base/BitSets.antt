-- ===== src/Base/BitSets.antt =====
-- One bit of a word, read and set by the native and and or.
use Prim.Native.Nat.{
  ℕ, zero, suc, ◌+◌, ◌*◌, ◌/◌, ◌%◌, ◌^◌, ◌≤◌, min, max, bit_and, bit_or, digits, bit_and-bitwise,
  bit_or-bitwise,
}
use mathlib.Core.Path.{◌≡◌, refl, sym, ap, ◌∙◌}
use native.Mathlib.Omega.{arith}
use native.Mathlib.Nat.{pow-suc, div-div-eq-div-mul}
use stumpt.Base.Tests.{◌==◌, if◌then◌else◌}

digits_enough :
    (z : ℕ → ℕ) (f : ℕ → ℕ → ℕ) (n m a b : ℕ) → a ≤ n → a ≤ m → digits z f n a b ≡ digits z f m a b
digits_enough z f zero zero a b p q = refl
digits_enough z f zero (suc m) zero b p q = refl
digits_enough z f (suc n) zero zero b p q = refl
digits_enough z f (suc n) (suc m) zero b p q = refl
digits_enough z f (suc n) (suc m) (suc a) b p q =
    omega (arith, digits_enough z f n m (suc a / 2) (b / 2) (omega arith) (omega arith))
digits_enough z f n m (suc a) b p q = absurd (omega arith)

bit_and_step : (a b : ℕ) → bit_and a b ≡ bit_and (a / 2) (b / 2) * 2 + min (a % 2) (b % 2)
bit_and_step zero b = omega (arith, bit_and-bitwise 0 b, bit_and-bitwise 0 (b / 2))
bit_and_step (suc a) b = omega (
  arith,
  bit_and-bitwise (suc a) b,
  bit_and-bitwise (suc a / 2) (b / 2),
  digits_enough (λ x. 0) min a (suc a / 2) (suc a / 2) (b / 2) (omega arith) (omega arith),
)

bit_or_step : (a b : ℕ) → bit_or a b ≡ bit_or (a / 2) (b / 2) * 2 + max (a % 2) (b % 2)
bit_or_step zero b = omega (arith, bit_or-bitwise 0 b, bit_or-bitwise 0 (b / 2))
bit_or_step (suc a) b = omega (
  arith,
  bit_or-bitwise (suc a) b,
  bit_or-bitwise (suc a / 2) (b / 2),
  digits_enough (λ x. x) max a (suc a / 2) (suc a / 2) (b / 2) (omega arith) (omega arith),
)

and_zero_below : (n a : ℕ) → a ≤ n → bit_and a 0 ≡ 0
and_zero_below zero zero p = bit_and-bitwise 0 0
and_zero_below zero (suc a) p = absurd (omega arith)
and_zero_below (suc n) a p =
    omega (arith, bit_and_step a 0, bit_and-bitwise 0 0, and_zero_below n (a / 2) (omega arith))

or_zero_below : (n a : ℕ) → a ≤ n → bit_or a 0 ≡ a
or_zero_below zero zero p = bit_or-bitwise 0 0
or_zero_below zero (suc a) p = absurd (omega arith)
or_zero_below (suc n) a p =
    omega (arith, bit_or_step a 0, bit_or-bitwise 0 0, or_zero_below n (a / 2) (omega arith))

-- Bit `b` of a word.
abbrev pub bit_at : ℕ → ℕ → ℕ
bit_at w b = w / 2 ^ b % 2

pub half-bit_at : (w b : ℕ) → bit_at w (suc b) ≡ bit_at (w / 2) b
half-bit_at w b =
    ap (λ (t : ℕ). t % 2)
      (ap (λ (t : ℕ). w / t) (omega (arith, pow-suc 2 b)) ∙ sym (div-div-eq-div-mul w 2 (2 ^ b)))

pub bit_and-pow :
    (w b : ℕ)
    → (bit_at w b ≡ 0 → bit_and w (2 ^ b) ≡ 0) × (bit_at w b ≡ 1 → bit_and w (2 ^ b) ≡ 2 ^ b)
bit_and-pow w zero = (
  omega (arith, bit_and_step w 1, and_zero_below (w / 2) (w / 2) (omega arith)),
  omega (arith, bit_and_step w 1, and_zero_below (w / 2) (w / 2) (omega arith)),
)
bit_and-pow w (suc b) =
    let (unset, on) = bit_and-pow (w / 2) b in
    let half = ap (bit_and (w / 2)) {x = 2 ^ suc b / 2} {y = 2 ^ b} (omega (arith, pow-suc 2 b)) in
    (
      omega (arith, bit_and_step w (2 ^ suc b), pow-suc 2 b, half-bit_at w b, half, unset),
      omega (arith, bit_and_step w (2 ^ suc b), pow-suc 2 b, half-bit_at w b, half, on),
    )

pub bit_at-bit_or : (w b c : ℕ) → bit_at (bit_or w (2 ^ b)) c ≡ (if b == c then 1 else bit_at w c)
bit_at-bit_or w zero zero = omega (arith, bit_or_step w 1)
bit_at-bit_or w (suc b) zero = ground (arith, bit_or_step w (2 ^ suc b), pow-suc 2 b)
bit_at-bit_or w zero (suc c) =
    let half : bit_or w 1 / 2 ≡ w / 2 =
      omega (arith, bit_or_step w 1, or_zero_below (w / 2) (w / 2) (omega arith)) in
    ground (arith, half-bit_at (bit_or w 1) c, half-bit_at w c, ap (λ (t : ℕ). bit_at t c) half)
bit_at-bit_or w (suc b) (suc c) =
    let half : bit_or w (2 ^ suc b) / 2 ≡ bit_or (w / 2) (2 ^ b) = omega (
      arith,
      bit_or_step w (2 ^ suc b),
      pow-suc 2 b,
      ap (bit_or (w / 2)) {x = 2 ^ suc b / 2} {y = 2 ^ b} (omega (arith, pow-suc 2 b)),
    ) in
    ground (
      arith,
      half-bit_at (bit_or w (2 ^ suc b)) c,
      half-bit_at w c,
      ap (λ (t : ℕ). bit_at t c) half,
      bit_at-bit_or (w / 2) b c,
    )
