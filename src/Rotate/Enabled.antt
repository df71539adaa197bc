-- ===== src/Rotate/Enabled.antt =====
-- Which encoded validators the loop of rotate.rs accepts.
use kno_vectorx.Common.{
  ℕ, zero, suc, ◌+◌, ◌-◌, ◌*◌, ◌≤◌, ◌<◌, ◌≡◌, refl, sym, ap, ap₂, ◌∙◌, some, List, [], ◌∷◌, ◌++◌,
  Bool, true, false, Bytes, length, take, drop, slice, get_or, drop-drop, drop_next,
  take-append_split, ◌||◌, ◌==◌, bytes_eq, bytes_eq_refl, arith,
}
use kno_vectorx.Plonky2x.{Gadgets, documented}
use kno_vectorx.Rotate.{expected_weight_bytes, expected_delay_bytes, validators_loop}
use kno_vectorx.Rotate.Validators.{encode_authorities}

pub or_true : (b : Bool) → (b || true) ≡ true
or_true true = refl
or_true false = refl

-- A validator's key and weight, and what follows them.
pub parts :
    (c a : ℕ) (sub key rest : Bytes)
    → length key ≡ 32
    → take (32 + (8 + c)) (drop a sub) ≡ key ++ (expected_weight_bytes ++ rest)
    → (slice sub a (a + 32) ≡ key)
      × (slice sub (a + 32) (a + 40) ≡ expected_weight_bytes)
      × (take c (drop (a + 40) sub) ≡ rest)
parts c a sub key rest wide e =
    let (first, after) = take-append_split 32 (8 + c) (drop a sub) key _ e wide in
    let (second, last) =
      take-append_split 8 c (drop 32 (drop a sub)) expected_weight_bytes rest after refl in
    let l1 : a + 32 - a ≡ 32 = omega arith in
    let l2 : a + 40 - (a + 32) ≡ 8 = omega arith in
    let at : a + 32 + 8 ≡ a + 40 = omega arith in
    (
      ap (λ k. take k (drop a sub)) l1 ∙ first,
      ap₂ take l2 (sym (drop-drop 32 a sub)) ∙ second,
      ap (take c) (
            ap (λ k. drop k sub) (sym at)
            ∙ sym (drop-drop 8 (a + 32) sub)
            ∙ ap (drop 8) (sym (drop-drop 32 a sub)))
          ∙ last,
    )

module _ (G : Gadgets) (n : ℕ) (sub : Bytes) (keys : List Bytes)
    (wide : (i : ℕ) → i < n → length (get_or keys i []) ≡ 32) where
  -- After the last validator the rounds check nothing.
  disabled_accepted :
      (rounds i : ℕ) → n ≤ i → validators_loop documented G n sub keys true rounds i ≡ some tt
  unfolding validators_loop
  disabled_accepted zero i past = refl
  disabled_accepted (suc rounds) i past =
      let going : (i + 1 == n) ≡ false = ground arith in
      let key : (bytes_eq (slice sub (i * 40) (i * 40 + 32)) (get_or keys i []) || true) ≡ true =
        or_true _ in
      let weight : (bytes_eq (slice sub (i * 40 + 32) (i * 40 + 40)) expected_weight_bytes || true)
          ≡ true =
        or_true _ in
      let delay : (bytes_eq (slice sub (i * 40 + 40) (i * 40 + 40 + 4)) expected_delay_bytes
            || true)
          ≡ true =
        or_true _ in
      rw (going, key, weight, delay) (disabled_accepted rounds (i + 1) (omega arith))

  pub enabled_accepted :
      (k rounds i : ℕ)
      → i + suc k ≡ n
      → suc k ≤ rounds
      → n ≤ length keys
      → take (suc k * 40 + 4) (drop (i * 40) sub) ≡ encode_authorities (take (suc k) (drop i keys))
      → validators_loop documented G n sub keys false rounds i ≡ some tt
  unfolding validators_loop
  enabled_accepted k zero i at enough long e = absurd (omega arith)
  enabled_accepted zero (suc rounds) i at enough long e =
      let next : drop i keys ≡ get_or keys i [] ∷ drop (i + 1) keys =
        drop_next i keys [] (omega arith) in
      let count : suc zero * 40 + 4 ≡ 32 + (8 + 4) = omega arith in
      let (key, weight, delay) =
        parts 4 (i * 40) sub (get_or keys i []) expected_delay_bytes (wide i (omega arith)) (
          ap (λ m. take m (drop (i * 40) sub)) (sym count)
          ∙ e
          ∙ ap (λ ks. encode_authorities (take 1 ks)) next) in
      let last : (i + 1 == n) ≡ true = ground arith in
      let l : i * 40 + 40 + 4 - (i * 40 + 40) ≡ 4 = omega arith in
      let delay' : slice sub (i * 40 + 40) (i * 40 + 40 + 4) ≡ expected_delay_bytes =
        ap (λ m. take m (drop (i * 40 + 40) sub)) l ∙ delay in
      rw
        (
          last,
          key,
          weight,
          delay',
          bytes_eq_refl (get_or keys i []),
          bytes_eq_refl expected_weight_bytes,
          bytes_eq_refl expected_delay_bytes,
        )
        (disabled_accepted rounds (i + 1) (omega arith))
  enabled_accepted (suc k) (suc rounds) i at enough long e =
      let next : drop i keys ≡ get_or keys i [] ∷ drop (i + 1) keys =
        drop_next i keys [] (omega arith) in
      let count : suc (suc k) * 40 + 4 ≡ 32 + (8 + (suc k * 40 + 4)) = omega arith in
      let (key, weight, rest) =
        parts (suc k * 40 + 4) (i * 40) sub (get_or keys i [])
          (encode_authorities (take (suc k) (drop (i + 1) keys))) (wide i (omega arith))
          (ap (λ m. take m (drop (i * 40) sub)) (sym count)
            ∙ e
            ∙ ap (λ ks. encode_authorities (take (suc (suc k)) ks)) next) in
      let going : (i + 1 == n) ≡ false = ground arith in
      let after : i * 40 + 40 ≡ (i + 1) * 40 = omega arith in
      let delay : (bytes_eq (slice sub (i * 40 + 40) (i * 40 + 40 + 4)) expected_delay_bytes
            || true)
          ≡ true =
        or_true _ in
      rw
        (
          going,
          key,
          weight,
          delay,
          bytes_eq_refl (get_or keys i []),
          bytes_eq_refl expected_weight_bytes,
        )
        (enabled_accepted k rounds (i + 1) (omega arith) (omega arith) long
          (ap (λ m. take (suc k * 40 + 4) (drop m sub)) (sym after) ∙ rest))
