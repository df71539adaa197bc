-- ===== src/Rotate/Validators.antt =====
-- The loop over the encoded validators in rotate.rs.
use kno_vectorx.Common.{
  ℕ, zero, suc, ◌+◌, ◌-◌, ◌*◌, ◌≤◌, ◌≡◌, refl, sym, ap, ap₂, subst, ◌∙◌, some, List, [], ◌∷◌, ◌++◌,
  Bool, true, false, Bytes, length, take, drop, slice, get_or, take-add, drop-drop, drop_next, not,
  ◌||◌, ◌==◌, bool_eq, bytes_eq, eq_of_bytes_eq, arith, assert_inv, if◌then◌else◌,
}
use kno_vectorx.Plonky2x.{Gadgets, documented}
use kno_vectorx.Rotate.{expected_weight_bytes, expected_delay_bytes, validators_loop}

-- The encoding of an authority set with unit weights, followed by a delay of 0.
abbrev pub encode_authorities : List Bytes → Bytes
encode_authorities [] = expected_delay_bytes
encode_authorities (k ∷ ks) = k ++ (expected_weight_bytes ++ encode_authorities ks)

-- What one round checks of an enabled validator.
enabled_inv : (a b : Bool) → bool_eq (a || b) true ≡ true → b ≡ false → a ≡ true
enabled_inv true b e f = refl
enabled_inv false true e f = cc
enabled_inv false false e f = cc

module _ (G : Gadgets) (n : ℕ) (sub : Bytes) (keys : List Bytes) where
  round_inv :
      (rounds i : ℕ)
      → validators_loop documented G n sub keys false (suc rounds) i ≡ some tt
      → (slice sub (i * 40) (i * 40 + 32) ≡ get_or keys i [])
        × (slice sub (i * 40 + 32) (i * 40 + 40) ≡ expected_weight_bytes)
        × (bool_eq
              (bytes_eq (slice sub (i * 40 + 40) (i * 40 + 40 + 4)) expected_delay_bytes
                || not (i + 1 == n))
              true
            ≡ true)
        × (validators_loop documented G n sub keys
              (if i + 1 == n then true else false)
              rounds
              (i + 1)
            ≡ some tt)
  unfolding validators_loop
  round_inv rounds i e =
      let (t1, e1) =
        assert_inv
          (bool_eq (bytes_eq (slice sub (i * 40) (i * 40 + 32)) (get_or keys i []) || false) true) _
          e in
      let (t2, e2) =
        assert_inv
          (bool_eq (bytes_eq (slice sub (i * 40 + 32) (i * 40 + 40)) expected_weight_bytes || false)
            true)
          _ e1 in
      let (t3, e3) =
        assert_inv
          (bool_eq
            (bytes_eq (slice sub (i * 40 + 40) (i * 40 + 40 + 4)) expected_delay_bytes
              || not (i + 1 == n))
            true)
          _ e2 in
      (
        eq_of_bytes_eq _ _ (enabled_inv _ false t1 refl),
        eq_of_bytes_eq _ _ (enabled_inv _ false t2 refl),
        t3,
        e3,
      )

-- A validator's key and weight, and `c` bytes after them.
chunk :
    (c a : ℕ) (sub : Bytes)
    → take (32 + (8 + c)) (drop a sub)
      ≡ slice sub a (a + 32) ++ (slice sub (a + 32) (a + 40) ++ take c (drop (a + 40) sub))
chunk c a sub =
    let d = drop a sub in
    let l1 : a + 32 - a ≡ 32 = omega arith in
    let l2 : a + 40 - (a + 32) ≡ 8 = omega arith in
    let at : a + 32 + 8 ≡ a + 40 = omega arith in
    let key : take 32 d ≡ slice sub a (a + 32) = ap (λ k. take k d) (sym l1) in
    let weight : take 8 (drop 32 d) ≡ slice sub (a + 32) (a + 40) =
      ap₂ take (sym l2) (drop-drop 32 a sub) in
    let rest : drop 8 (drop 32 d) ≡ drop (a + 40) sub =
      ap (drop 8) (drop-drop 32 a sub) ∙ drop-drop 8 (a + 32) sub ∙ ap (λ k. drop k sub) at in
    take-add 32 (8 + c) d
    ∙ ap₂ ◌++◌ key (take-add 8 c (drop 32 d) ∙ ap₂ ◌++◌ weight (ap (take c) rest))

module _ (G : Gadgets) (n : ℕ) (sub : Bytes) (keys : List Bytes) where
  pub validators_at :
      (k rounds i : ℕ)
      → i + suc k ≡ n
      → suc k ≤ rounds
      → n ≤ length keys
      → validators_loop documented G n sub keys false rounds i ≡ some tt
      → take (suc k * 40 + 4) (drop (i * 40) sub) ≡ encode_authorities (take (suc k) (drop i keys))
  validators_at k zero i e enough long accepted = absurd (omega arith)
  validators_at zero (suc rounds) i e enough long accepted =
      let (key, weight, delay, _) = round_inv G n sub keys rounds i accepted in
      let end : (i + 1 == n) ≡ true = ground arith in
      let count : suc zero * 40 + 4 ≡ 32 + (8 + 4) = omega arith in
      let l : i * 40 + 40 + 4 - (i * 40 + 40) ≡ 4 = omega arith in
      let delay_eq : take 4 (drop (i * 40 + 40) sub) ≡ expected_delay_bytes =
        ap (λ m. take m (drop (i * 40 + 40) sub)) (sym l)
        ∙ eq_of_bytes_eq _ _ (enabled_inv _ (not (i + 1 == n)) delay (ap not end)) in
      ap (λ m. take m (drop (i * 40) sub)) count
      ∙ chunk 4 (i * 40) sub
      ∙ ap₂ ◌++◌ key (ap₂ ◌++◌ weight delay_eq)
      ∙ ap (λ ks. encode_authorities (take 1 ks)) (sym (drop_next i keys [] (omega arith)))
  validators_at (suc k) (suc rounds) i e enough long accepted =
      let (key, weight, _, next) = round_inv G n sub keys rounds i accepted in
      let going : (i + 1 == n) ≡ false = ground arith in
      let count : suc (suc k) * 40 + 4 ≡ 32 + (8 + (suc k * 40 + 4)) = omega arith in
      let at : i * 40 + 40 ≡ (i + 1) * 40 = omega arith in
      let on : validators_loop documented G n sub keys false rounds (i + 1) ≡ some tt =
        subst
          (λ t.
            validators_loop documented G n sub keys (if t then true else false) rounds (i + 1)
            ≡ some tt)
          going next in
      ap (λ m. take m (drop (i * 40) sub)) count
      ∙ chunk (suc k * 40 + 4) (i * 40) sub
      ∙ ap₂ ◌++◌ key (
          ap₂ ◌++◌ weight (
            ap (λ m. take (suc k * 40 + 4) (drop m sub)) at
            ∙ validators_at k rounds (i + 1) (omega arith) (omega arith) long on))
      ∙ ap (λ ks. encode_authorities (take (suc (suc k)) ks))
          (sym (drop_next i keys [] (omega arith)))
