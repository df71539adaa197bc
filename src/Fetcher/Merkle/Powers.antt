-- ===== src/Fetcher/Merkle/Powers.antt =====
-- `count_ones` on `usize`, and the powers of two that it tells apart.
use kno_vectorx.Common.{ℕ, zero, suc, ◌+◌, ◌*◌, ◌/◌, ◌%◌, ◌^◌, ◌≤◌, ◌<◌, ◌≡◌, refl, ap, arith}
use native.Mathlib.Decide.{dec_le, ℕ_discrete}
use native.Mathlib.Nat.{pow-suc, le_refl}

unfoldable pub ones : (bits n : ℕ) → ℕ
ones zero n = 0
ones (suc bits) n = n % 2 + ones bits (n / 2)

unfoldable pub count_ones : ℕ → ℕ
unfolding ones
count_ones n = ones 64 n

ones-zero : (bits : ℕ) → ones bits 0 ≡ 0
unfolding ones
ones-zero zero = refl
ones-zero (suc bits) = omega (arith, ones-zero bits)

ones-pow : (bits d : ℕ) → d < bits → ones bits (2 ^ d) ≡ 1
unfolding ones
ones-pow zero d h = absurd (omega arith)
ones-pow (suc bits) zero h = omega (arith, ones-zero bits)
ones-pow (suc bits) (suc d) h =
    let half : 2 ^ suc d / 2 ≡ 2 ^ d = omega (arith, pow-suc 2 d) in
    let even : 2 ^ suc d % 2 ≡ 0 = omega (arith, pow-suc 2 d) in
    omega (arith, even, ap (ones bits) half, ones-pow bits d)

zero_of_ones : (bits n : ℕ) → n < 2 ^ bits → ones bits n ≡ 0 → n ≡ 0
unfolding ones
zero_of_ones zero n h e = omega arith
zero_of_ones (suc bits) n h e =
    omega (arith, zero_of_ones bits (n / 2) (omega (arith, pow-suc 2 bits)) (omega arith))

pow_of_ones : (bits n : ℕ) → n < 2 ^ bits → ones bits n ≡ 1 → (d : ℕ) × (n ≡ 2 ^ d)
unfolding ones
pow_of_ones zero n h e = absurd (omega arith)
pow_of_ones (suc bits) n h e = elim (ℕ_discrete (n % 2) 0) [
  | yes even ↦
      let (d, p) = pow_of_ones bits (n / 2) (omega (arith, pow-suc 2 bits)) (omega arith) in
      (suc d, omega (arith, pow-suc 2 d))
  | no odd ↦
      let top = zero_of_ones bits (n / 2) (omega (arith, pow-suc 2 bits)) (omega arith) in
      (0, omega arith)
]

pub count_ones-pow : (d : ℕ) → d < 64 → count_ones (2 ^ d) ≡ 1
unfolding count_ones
count_ones-pow d h = ones-pow 64 d h

pub pow_of_count_ones : (n : ℕ) → n < 2 ^ 64 → count_ones n ≡ 1 → (d : ℕ) × (n ≡ 2 ^ d)
unfolding count_ones
pow_of_count_ones n h e = pow_of_ones 64 n h e

-- There is a power of two from `n` to below `2 * n`.
pub next_pow : (n : ℕ) → (d : ℕ) × (suc n ≤ 2 ^ d) × (2 ^ d < 2 * suc n)
next_pow zero = (0, omega arith, omega arith)
next_pow (suc n) =
    let (d, lo, hi) = next_pow n in
    elim (dec_le (suc (suc n)) (2 ^ d)) [
      | yes p ↦ (d, p, omega arith)
      | no p ↦ (suc d, omega (arith, pow-suc 2 d), omega (arith, pow-suc 2 d))
    ]

pub pow_mono : (a b : ℕ) → a ≤ b → 2 ^ a ≤ 2 ^ b
pow_mono a zero h = let e : a ≡ 0 = omega arith in rw e (omega arith)
pow_mono a (suc b) h = elim (dec_le a b) [
  | yes p ↦ omega (arith, pow-suc 2 b, pow_mono a b p)
  | no p ↦ let e : a ≡ suc b = omega arith in rw e (le_refl _)
]

pub exponent_lt : (a b : ℕ) → 2 ^ a < 2 ^ b → a < b
exponent_lt a b h = elim (dec_le b a) [
  | yes p ↦ absurd (omega (arith, pow_mono b a p))
  | no p ↦ omega arith
]

pub lt_pow : (d : ℕ) → d < 2 ^ d
lt_pow zero = omega arith
lt_pow (suc d) = omega (arith, pow-suc 2 d, lt_pow d)
