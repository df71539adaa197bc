-- ===== src/Common/Text.antt =====
-- Texts as byte strings, and numbers printed in decimal, as `format!` writes them.
use Prim.Native.Nat.{ℕ, zero, suc, ◌+◌, ◌-◌, ◌*◌, ◌/◌, ◌%◌, ◌^◌, ◌<◌, ◌≤◌}
use Prim.Native.Char.{code}
use Prim.Native.String.{String}
use mathlib.Core.Path.{◌≡◌, refl, sym, ◌∙◌}
use mathlib.Core.Logic.{inl, inr}
use mathlib.Core.List.{[], ◌∷◌, ◌++◌, append_assoc, append-nil}
use native.Mathlib.Nat.{pow-suc}
use native.Mathlib.Omega.{arith}
use kno_vectorx.Common.Tests.{ltb, ltb→lt, if◌then◌else◌, Bool-cases}
use kno_vectorx.Common.Lists.{Bytes}

abbrev pub codes : String → Bytes
codes String.[] = []
codes (String.◌∷◌ c s) = code c ∷ codes s

-- The decimal digits of `n`, of which there are at most `digits`.
unfoldable pub decimal_digits : (digits n : ℕ) → Bytes
decimal_digits zero n = []
decimal_digits (suc digits) n =
    let rest = decimal_digits digits (n / 10) in
    if ltb n 10 then (48 + n) ∷ [] else rest ++ (48 + n % 10) ∷ []

-- 20 digits are enough for every `u64`.
unfoldable pub decimal : ℕ → Bytes
unfolding decimal_digits
decimal n = decimal_digits 20 n

unfoldable pub parse_from : ℕ → Bytes → ℕ
parse_from acc [] = acc
parse_from acc (c ∷ cs) = parse_from (acc * 10 + (c - 48)) cs

unfoldable pub parse_decimal : Bytes → ℕ
unfolding parse_from
parse_decimal cs = parse_from 0 cs

parse_from-snoc :
    (acc c : ℕ) (cs : Bytes) → parse_from acc (cs ++ c ∷ []) ≡ parse_from acc cs * 10 + (c - 48)
unfolding parse_from
parse_from-snoc acc c [] = refl
parse_from-snoc acc c (d ∷ cs) = parse_from-snoc (acc * 10 + (d - 48)) c cs

parse_from-digits : (digits n : ℕ) → n < 10 ^ digits → parse_from 0 (decimal_digits digits n) ≡ n
unfolding decimal_digits parse_from
parse_from-digits zero n h = omega arith
parse_from-digits (suc digits) n h = elim (Bool-cases (ltb n 10)) [
  | inl one ↦ rw one (omega arith)
  | inr more ↦ rw more (
      parse_from-snoc 0 (48 + n % 10) (decimal_digits digits (n / 10))
      ∙ omega (arith, parse_from-digits digits (n / 10) (omega (arith, pow-suc 10 digits))))
]

pub parse_decimal-decimal : (n : ℕ) → n < 2 ^ 64 → parse_decimal (decimal n) ≡ n
unfolding parse_decimal decimal
parse_decimal-decimal n h = parse_from-digits 20 n (omega arith)

-- A printed number begins with a digit.
digits_head :
    (digits n : ℕ) (xs : Bytes)
    → (c : ℕ) × (rest : Bytes) × (decimal_digits (suc digits) n ++ xs ≡ c ∷ rest) × (c ≤ 57)
unfolding decimal_digits
digits_head zero n xs = elim (Bool-cases (ltb n 10)) [
  | inl one ↦ (48 + n, xs, rw one refl, omega (arith, ltb→lt n 10 one))
  | inr more ↦ (48 + n % 10, xs, rw more refl, omega arith)
]
digits_head (suc digits) n xs = elim (Bool-cases (ltb n 10)) [
  | inl one ↦ (48 + n, xs, rw one refl, omega (arith, ltb→lt n 10 one))
  | inr more ↦
      let (c, rest, e, small) = digits_head digits (n / 10) ((48 + n % 10) ∷ xs) in
      (
        c,
        rest,
        rw more (append_assoc (decimal_digits (suc digits) (n / 10)) ((48 + n % 10) ∷ []) xs ∙ e),
        small,
      )
]

pub decimal_head : (n : ℕ) → (c : ℕ) × (rest : Bytes) × (decimal n ≡ c ∷ rest) × (c ≤ 57)
unfolding decimal
decimal_head n =
    let (c, rest, e, small) = digits_head 19 n [] in
    (c, rest, sym (append-nil (decimal_digits 20 n)) ∙ e, small)
