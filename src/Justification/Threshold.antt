-- ===== src/Justification/Threshold.antt =====
-- The voting threshold of justification.rs.
use kno_vectorx.Common.{
  ℕ, zero, suc, ◌+◌, ◌*◌, ◌%◌, ◌≤◌, ◌<◌, ◌≡◌, refl, sym, ap, ◌∙◌, some, List, [], ◌∷◌, ◌++◌, Bool,
  true, false, length, replicate, ltb, ltb→lt, arith, assert, assert-true, bool_eq,
}
use kno_vectorx.Plonky2x.{Gates, Gadgets, IsDocumented, documented, eq_documented, u32_mod}
use kno_vectorx.Justification.{bit, count_signed, verify_voting_threshold}

-- How many flags are set.
abbrev pub signed_count : List Bool → ℕ
signed_count [] = 0
signed_count (s ∷ ss) = bit s + signed_count ss

pub signed_count-le : (ss : List Bool) → signed_count ss ≤ length ss
signed_count-le [] = omega arith
signed_count-le (true ∷ ss) = omega (arith, signed_count-le ss)
signed_count-le (false ∷ ss) = omega (arith, signed_count-le ss)

pub signed_count-append :
    (xs ys : List Bool) → signed_count (xs ++ ys) ≡ signed_count xs + signed_count ys
signed_count-append [] ys = omega arith
signed_count-append (x ∷ xs) ys = omega (arith, signed_count-append xs ys)

pub signed_count-true : (n : ℕ) → signed_count (replicate n true) ≡ n
signed_count-true zero = refl
signed_count-true (suc n) = omega (arith, signed_count-true n)

pub signed_count-false : (n : ℕ) → signed_count (replicate n false) ≡ 0
signed_count-false zero = refl
signed_count-false (suc n) = omega (arith, signed_count-false n)

module _ (G : Gadgets) where
  pub count_signed-eq :
      (acc : ℕ) (ss : List Bool)
      → acc + length ss < u32_mod
      → count_signed documented G acc ss ≡ acc + signed_count ss
  unfolding count_signed
  count_signed-eq acc [] h = omega arith
  count_signed-eq acc (true ∷ ss) h =
      let next : (acc + 1) % u32_mod ≡ acc + 1 = omega arith in
      rw next (omega (arith, count_signed-eq (acc + 1) ss))
  count_signed-eq acc (false ∷ ss) h =
      let next : (acc + 0) % u32_mod ≡ acc = omega arith in
      rw next (omega (arith, count_signed-eq acc ss))

  pub threshold_at :
      (n : ℕ) (ss : List Bool)
      → n < 2147483648
      → length ss < 1431655765
      → verify_voting_threshold documented G n ss 2 3 ≡ assert (ltb (n * 2) (signed_count ss * 3))
  unfolding verify_voting_threshold
  threshold_at n ss hn hs =
      let count : count_signed documented G 0 ss ≡ signed_count ss =
        count_signed-eq 0 ss (omega arith) ∙ omega arith in
      let left : (n * 2) % u32_mod ≡ n * 2 = omega arith in
      let right : (signed_count ss * 3) % u32_mod ≡ signed_count ss * 3 =
        omega (arith, signed_count-le ss) in
      rw (count, left, right) (ap assert (bool_eq_true (ltb (n * 2) (signed_count ss * 3))))
    where
      bool_eq_true : (b : Bool) → bool_eq b true ≡ b
      bool_eq_true true = refl
      bool_eq_true false = refl

  pub threshold_inv :
      (n : ℕ) (ss : List Bool)
      → n < 2147483648
      → length ss < 1431655765
      → verify_voting_threshold documented G n ss 2 3 ≡ some tt
      → n * 2 < signed_count ss * 3
  threshold_inv n ss hn hs e =
      ltb→lt (n * 2) (signed_count ss * 3) (assert-true _ (sym (threshold_at n ss hn hs) ∙ e))

module _ (g : Gates) (gates : IsDocumented g) (G : Gadgets) where
  -- For set sizes at which the products do not wrap, the threshold holds exactly if three times the
  -- number of flags set in the whole array is more than twice the number of active authorities.
  pub verify_voting_threshold-eq :
      (num_active : ℕ) (validator_signed : List Bool)
      → num_active < 2147483648
      → length validator_signed < 1431655765
      → verify_voting_threshold g G num_active validator_signed 2 3
        ≡ assert (ltb (num_active * 2) (signed_count validator_signed * 3))
  verify_voting_threshold-eq num_active validator_signed hn hs =
      rw (← eq_documented g gates) (threshold_at G num_active validator_signed hn hs)
