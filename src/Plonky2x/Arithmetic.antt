-- ===== src/Plonky2x/Arithmetic.antt =====
-- The gates of the framework, and what they are documented to compute. A `Variable` is an element
-- of the Goldilocks field by its least representative; integers wrap; a byte is a number.
use kno_vectorx.Common.{
  ℕ, zero, suc, ◌+◌, ◌-◌, ◌*◌, ◌/◌, ◌%◌, ◌^◌, ◌≡◌, refl, sym, Bool, not, ◌&&◌, ◌||◌, Option, none,
  some, List, [], ◌∷◌, reverse, ltb, ◌==◌, if◌then◌else◌, bytes_eq, bool_eq, Bytes, assert,
}

-- The order of the Goldilocks field.
abbrev pub field_order : ℕ
field_order = 2 ^ 64 - 2 ^ 32 + 1

abbrev pub u32_mod : ℕ
u32_mod = 2 ^ 32

pub record Gates : Type 0 where
  -- is_equal, is_zero, and, or, not, select
  pub is_equal : ℕ → ℕ → Bool
  pub is_equal_bytes : Bytes → Bytes → Bool
  pub and : Bool → Bool → Bool
  pub or : Bool → Bool → Bool
  pub negate : Bool → Bool
  pub select : Bool → ℕ → ℕ → ℕ
  pub select_bytes : Bool → Bytes → Bytes → Bytes
  pub select_bool : Bool → Bool → Bool → Bool
  -- add on Variable; add, sub, mul, lt, gt on U32Variable
  pub add : ℕ → ℕ → ℕ
  pub add_u32 : ℕ → ℕ → ℕ
  pub sub_u32 : ℕ → ℕ → ℕ
  pub mul_u32 : ℕ → ℕ → ℕ
  pub lt : ℕ → ℕ → Bool
  pub gt : ℕ → ℕ → Bool
  -- ByteVariable::as_bool_targets, api.le_sum
  pub as_bool_targets : ℕ → List Bool
  pub le_sum : List Bool → ℕ
  -- U32Variable::from_variables, which checks the range; CircuitVariable::decode of an integer
  pub from_variables : ℕ → Option ℕ
  pub decode_uint : Bytes → ℕ
  -- ByteVariable::to_variable
  pub to_variable : ℕ → ℕ
  -- assert_is_equal: a constraint that is met only by equal values
  pub assert_is_equal : ℕ → ℕ → Option (Unit {0})
  pub assert_is_equal_bytes : Bytes → Bytes → Option (Unit {0})
  pub assert_is_equal_bool : Bool → Bool → Option (Unit {0})

-- Bits, the least significant first.
unfoldable pub le_bits : ℕ → ℕ → List Bool
le_bits zero x = []
le_bits (suc n) x = (x % 2 == 1) ∷ le_bits n (x / 2)

unfoldable pub le_value : List Bool → ℕ
le_value [] = 0
le_value (b ∷ bs) = (if b then 1 else 0) + 2 * le_value bs

-- A number from bytes, the most significant first.
unfoldable pub be_value : ℕ → Bytes → ℕ
be_value acc [] = acc
be_value acc (x ∷ xs) = be_value (acc * 256 + x) xs

unfoldable pub u32_check : ℕ → Option ℕ
u32_check x = if ltb x u32_mod then some x else none

pub record IsDocumented (g : Gates) : Type 0 where
  pub is_equal_lem : (a b : ℕ) → g.is_equal a b ≡ (a == b)
  pub is_equal_bytes_lem : (a b : Bytes) → g.is_equal_bytes a b ≡ bytes_eq a b
  pub and_lem : (a b : Bool) → g.and a b ≡ (a && b)
  pub or_lem : (a b : Bool) → g.or a b ≡ (a || b)
  pub negate_lem : (a : Bool) → g.negate a ≡ not a
  pub select_lem : (t : Bool) (a b : ℕ) → g.select t a b ≡ (if t then a else b)
  pub select_bytes_lem : (t : Bool) (a b : Bytes) → g.select_bytes t a b ≡ (if t then a else b)
  pub select_bool_lem : (t a b : Bool) → g.select_bool t a b ≡ (if t then a else b)
  pub add_lem : (a b : ℕ) → g.add a b ≡ (a + b) % field_order
  pub add_u32_lem : (a b : ℕ) → g.add_u32 a b ≡ (a + b) % u32_mod
  pub sub_u32_lem : (a b : ℕ) → g.sub_u32 a b ≡ (a + u32_mod - b) % u32_mod
  pub mul_u32_lem : (a b : ℕ) → g.mul_u32 a b ≡ (a * b) % u32_mod
  pub lt_lem : (a b : ℕ) → g.lt a b ≡ ltb a b
  pub gt_lem : (a b : ℕ) → g.gt a b ≡ ltb b a
  pub as_bool_targets_lem : (x : ℕ) → g.as_bool_targets x ≡ reverse (le_bits 8 x)
  pub le_sum_lem : (bs : List Bool) → g.le_sum bs ≡ le_value bs
  pub from_variables_lem : (x : ℕ) → g.from_variables x ≡ u32_check x
  pub decode_uint_lem : (xs : Bytes) → g.decode_uint xs ≡ be_value 0 xs
  pub to_variable_lem : (x : ℕ) → g.to_variable x ≡ x
  pub assert_is_equal_lem : (a b : ℕ) → g.assert_is_equal a b ≡ assert (a == b)
  pub assert_is_equal_bytes_lem :
      (a b : Bytes) → g.assert_is_equal_bytes a b ≡ assert (bytes_eq a b)
  pub assert_is_equal_bool_lem : (a b : Bool) → g.assert_is_equal_bool a b ≡ assert (bool_eq a b)

abbrev pub documented : Gates
documented = record {
  is_equal = λ a b. a == b;
  is_equal_bytes = bytes_eq;
  and = λ a b. a && b;
  or = λ a b. a || b;
  negate = λ a. not a;
  select = λ t a b. if t then a else b;
  select_bytes = λ t a b. if t then a else b;
  select_bool = λ t a b. if t then a else b;
  add = λ a b. (a + b) % field_order;
  add_u32 = λ a b. (a + b) % u32_mod;
  sub_u32 = λ a b. (a + u32_mod - b) % u32_mod;
  mul_u32 = λ a b. (a * b) % u32_mod;
  lt = ltb;
  gt = λ a b. ltb b a;
  as_bool_targets = λ x. reverse (le_bits 8 x);
  le_sum = le_value;
  from_variables = u32_check;
  decode_uint = be_value 0;
  to_variable = λ x. x;
  assert_is_equal = λ a b. assert (a == b);
  assert_is_equal_bytes = λ a b. assert (bytes_eq a b);
  assert_is_equal_bool = λ a b. assert (bool_eq a b);
}

pub documented-IsDocumented : IsDocumented documented
documented-IsDocumented = record {
  is_equal_lem = λ a b. refl;
  is_equal_bytes_lem = λ a b. refl;
  and_lem = λ a b. refl;
  or_lem = λ a b. refl;
  negate_lem = λ a. refl;
  select_lem = λ t a b. refl;
  select_bytes_lem = λ t a b. refl;
  select_bool_lem = λ t a b. refl;
  add_lem = λ a b. refl;
  add_u32_lem = λ a b. refl;
  sub_u32_lem = λ a b. refl;
  mul_u32_lem = λ a b. refl;
  lt_lem = λ a b. refl;
  gt_lem = λ a b. refl;
  as_bool_targets_lem = λ x. refl;
  le_sum_lem = λ bs. refl;
  from_variables_lem = λ x. refl;
  decode_uint_lem = λ xs. refl;
  to_variable_lem = λ x. refl;
  assert_is_equal_lem = λ a b. refl;
  assert_is_equal_bytes_lem = λ a b. refl;
  assert_is_equal_bool_lem = λ a b. refl;
}

-- The documentation determines the gates, so a theorem about `documented` is one about all.
pub eq_documented : (g : Gates) → IsDocumented g → documented ≡ g
eq_documented g d = λ i. record {
  is_equal = λ a b. sym (d.is_equal_lem a b) i;
  is_equal_bytes = λ a b. sym (d.is_equal_bytes_lem a b) i;
  and = λ a b. sym (d.and_lem a b) i;
  or = λ a b. sym (d.or_lem a b) i;
  negate = λ a. sym (d.negate_lem a) i;
  select = λ t a b. sym (d.select_lem t a b) i;
  select_bytes = λ t a b. sym (d.select_bytes_lem t a b) i;
  select_bool = λ t a b. sym (d.select_bool_lem t a b) i;
  add = λ a b. sym (d.add_lem a b) i;
  add_u32 = λ a b. sym (d.add_u32_lem a b) i;
  sub_u32 = λ a b. sym (d.sub_u32_lem a b) i;
  mul_u32 = λ a b. sym (d.mul_u32_lem a b) i;
  lt = λ a b. sym (d.lt_lem a b) i;
  gt = λ a b. sym (d.gt_lem a b) i;
  as_bool_targets = λ x. sym (d.as_bool_targets_lem x) i;
  le_sum = λ bs. sym (d.le_sum_lem bs) i;
  from_variables = λ x. sym (d.from_variables_lem x) i;
  decode_uint = λ xs. sym (d.decode_uint_lem xs) i;
  to_variable = λ x. sym (d.to_variable_lem x) i;
  assert_is_equal = λ a b. sym (d.assert_is_equal_lem a b) i;
  assert_is_equal_bytes = λ a b. sym (d.assert_is_equal_bytes_lem a b) i;
  assert_is_equal_bool = λ a b. sym (d.assert_is_equal_bool_lem a b) i;
}
