-- ===== src/Decoder/Compact.antt =====
-- The compact integers of decoder.rs: what five bytes decode to, and the SCALE encoding.
use kno_vectorx.Common.{
  ℕ, zero, suc, ◌+◌, ◌*◌, ◌/◌, ◌%◌, ◌<◌, ◌≡◌, refl, ap, subst, ◌∙◌, inl, inr, Option, none, some,
  List, [], ◌∷◌, ◌++◌, Bool, true, false, Bytes, length, take, drop, slice, ◌==◌, if◌then◌else◌,
  arith, ltb, Bool-cases, bool_eq, ◌&&◌, assert_inv,
}
use kno_vectorx.Plonky2x.{
  Gates, Gadgets, IsDocumented, IsSound, documented, eq_documented, le_bits, le_value, u32_mod,
}
use kno_vectorx.Decoder.{compact_bits, decode_compact_int, get_compact_int_byte_length}

bit_lem : (x : ℕ) → (if x % 2 == 1 then 1 else 0) ≡ x % 2
bit_lem x = ground arith

byte_value :
    (b : ℕ) (rest : List Bool) → b < 256 → le_value (le_bits 8 b ++ rest) ≡ b + 256 * le_value rest
unfolding le_value le_bits
byte_value b rest h = simp bit_lem (omega arith)

upper_value :
    (b : ℕ) (rest : List Bool)
    → b < 256
    → le_value (drop 2 (le_bits 8 b) ++ rest) ≡ b / 4 + 64 * le_value rest
unfolding le_value le_bits
upper_value b rest h = simp bit_lem (omega arith)

mode_value : (b : ℕ) → le_value (take 2 (le_bits 8 b)) ≡ b % 4
unfolding le_value le_bits
mode_value b = simp bit_lem (omega arith)

-- The bits of bytes, the least significant first.
abbrev le_flat : Bytes → List Bool
le_flat [] = []
le_flat (x ∷ xs) = le_bits 8 x ++ le_flat xs

compact_bits_lem : (xs : Bytes) → compact_bits documented xs ≡ le_flat xs
unfolding compact_bits le_bits
compact_bits_lem [] = refl
compact_bits_lem (x ∷ xs) = ap (◌++◌ (le_bits 8 x)) (compact_bits_lem xs)

nil_value : le_value [] ≡ 0
unfolding le_value
nil_value = refl

only_byte : (b : ℕ) → b < 256 → le_value (le_bits 8 b ++ []) ≡ b
only_byte b h = byte_value b [] h ∙ omega (arith, nil_value)

module _ (b0 b1 b2 b3 b4 : ℕ) (h0 : b0 < 256) (h1 : b1 < 256) (h2 : b2 < 256) (h3 : b3 < 256)
    (h4 : b4 < 256) where
  abbrev bits : List Bool
  bits = le_flat (b0 ∷ b1 ∷ b2 ∷ b3 ∷ b4 ∷ [])

  mode_bits : le_value (slice bits 0 2) ≡ b0 % 4
  unfolding le_bits
  mode_bits = mode_value b0

  zero_bits : le_value (slice bits 2 8) ≡ b0 / 4
  unfolding le_bits
  zero_bits = upper_value b0 [] h0 ∙ omega (arith, nil_value)

  one_bits : le_value (slice bits 2 16) ≡ b0 / 4 + 64 * b1
  unfolding le_bits
  one_bits = upper_value b0 (le_bits 8 b1 ++ []) h0 ∙ ap (λ n. b0 / 4 + 64 * n) (only_byte b1 h1)

  two_bits : le_value (slice bits 2 32) ≡ b0 / 4 + 64 * (b1 + 256 * (b2 + 256 * b3))
  unfolding le_bits
  two_bits =
      upper_value b0 (le_bits 8 b1 ++ (le_bits 8 b2 ++ (le_bits 8 b3 ++ []))) h0
      ∙ ap (λ n. b0 / 4 + 64 * n)
          (byte_value b1 (le_bits 8 b2 ++ (le_bits 8 b3 ++ [])) h1
            ∙ ap (λ n. b1 + 256 * n)
                (byte_value b2 (le_bits 8 b3 ++ []) h2 ∙ ap (λ n. b2 + 256 * n) (only_byte b3 h3)))

  three_bits : le_value (slice bits 8 40) ≡ b1 + 256 * (b2 + 256 * (b3 + 256 * b4))
  unfolding le_bits
  three_bits =
      byte_value b1 (le_bits 8 b2 ++ (le_bits 8 b3 ++ (le_bits 8 b4 ++ []))) h1
      ∙ ap (λ n. b1 + 256 * n)
          (byte_value b2 (le_bits 8 b3 ++ (le_bits 8 b4 ++ [])) h2
            ∙ ap (λ n. b2 + 256 * n)
                (byte_value b3 (le_bits 8 b4 ++ []) h3 ∙ ap (λ n. b3 + 256 * n) (only_byte b4 h4)))

-- What five bytes stand for: the mode in the two lowest bits, and the value in the bits that the
-- mode says. A number of four bytes is the only long one that is read.
abbrev pub compact_meaning : (b0 b1 b2 b3 b4 : ℕ) → Option (ℕ × ℕ)
compact_meaning b0 b1 b2 b3 b4 =
    if b0 % 4 == 0
    then some (b0 / 4, 0)
    else if b0 % 4 == 1
    then some ((b0 + 256 * b1) / 4, 1)
    else if b0 % 4 == 2
    then some ((b0 + 256 * b1 + 65536 * b2 + 16777216 * b3) / 4, 2)
    else if b0 == 3
    then some (b1 + 256 * b2 + 65536 * b3 + 16777216 * b4, 3)
    else none

module _ (G : Gadgets) (sound : IsSound G) where
  pub select_four :
      (a b c d i : ℕ)
      → i < 4
      → G.select_array (a ∷ b ∷ c ∷ d ∷ []) i
        ≡ (if i == 0 then a else if i == 1 then b else if i == 2 then c else d)
  select_four a b c d zero h = cc (sound.select_array_lem (a ∷ b ∷ c ∷ d ∷ []) 0 (omega arith))
  select_four a b c d (suc zero) h =
      cc (sound.select_array_lem (a ∷ b ∷ c ∷ d ∷ []) 1 (omega arith))
  select_four a b c d (suc (suc zero)) h =
      cc (sound.select_array_lem (a ∷ b ∷ c ∷ d ∷ []) 2 (omega arith))
  select_four a b c d (suc (suc (suc zero))) h =
      cc (sound.select_array_lem (a ∷ b ∷ c ∷ d ∷ []) 3 (omega arith))
  select_four a b c d (suc (suc (suc (suc i)))) h = absurd (omega arith)

  decoded_at :
      (b0 b1 b2 b3 b4 : ℕ)
      → b0 < 256
      → b1 < 256
      → b2 < 256
      → b3 < 256
      → b4 < 256
      → decode_compact_int documented G (b0 ∷ b1 ∷ b2 ∷ b3 ∷ b4 ∷ [])
        ≡ compact_meaning b0 b1 b2 b3 b4
  unfolding decode_compact_int
  decoded_at b0 b1 b2 b3 b4 h0 h1 h2 h3 h4 =
      rw
        (
          compact_bits_lem (b0 ∷ b1 ∷ b2 ∷ b3 ∷ b4 ∷ []),
          mode_bits b0 b1 b2 b3 b4 h0 h1 h2 h3 h4,
          zero_bits b0 b1 b2 b3 b4 h0 h1 h2 h3 h4,
          one_bits b0 b1 b2 b3 b4 h0 h1 h2 h3 h4,
          two_bits b0 b1 b2 b3 b4 h0 h1 h2 h3 h4,
          three_bits b0 b1 b2 b3 b4 h0 h1 h2 h3 h4,
        )
        (rw
          (select_four (b0 / 4) (b0 / 4 + 64 * b1) (b0 / 4 + 64 * (b1 + 256 * (b2 + 256 * b3)))
            (b1 + 256 * (b2 + 256 * (b3 + 256 * b4))) (b0 % 4) (omega arith))
          (ground arith))

-- The SCALE encoding of a compact integer.
unfoldable pub encode_compact : ℕ → Bytes
encode_compact n =
    if ltb n 64
    then n * 4 ∷ []
    else if ltb n 16384
    then (n * 4 + 1) % 256 ∷ (n * 4 + 1) / 256 ∷ []
    else if ltb n 1073741824
    then (n * 4 + 2) % 256
      ∷ (n * 4 + 2) / 256 % 256
      ∷ (n * 4 + 2) / 65536 % 256
      ∷ (n * 4 + 2) / 16777216
      ∷ []
    else 3 ∷ n % 256 ∷ n / 256 % 256 ∷ n / 65536 % 256 ∷ n / 16777216 ∷ []

-- The mode that the encoding uses.
abbrev pub compact_mode : ℕ → ℕ
compact_mode n =
    if ltb n 64 then 0 else if ltb n 16384 then 1 else if ltb n 1073741824 then 2 else 3

-- How many bytes a mode says are taken.
abbrev pub compact_length : ℕ → ℕ
compact_length mode = if mode == 0 then 1 else if mode == 1 then 2 else if mode == 2 then 4 else 5

two_bits_value : (bs : List Bool) → le_value (take 2 bs) < 4
unfolding le_value
two_bits_value [] = omega arith
two_bits_value (true ∷ []) = omega arith
two_bits_value (false ∷ []) = omega arith
two_bits_value (true ∷ true ∷ bs) = omega arith
two_bits_value (true ∷ false ∷ bs) = omega arith
two_bits_value (false ∷ true ∷ bs) = omega arith
two_bits_value (false ∷ false ∷ bs) = omega arith

pub decoded_mode :
    (G : Gadgets) (xs : Bytes) (value mode : ℕ)
    → decode_compact_int documented G xs ≡ some (value, mode)
    → mode < 4
unfolding decode_compact_int
decoded_mode G xs value mode e =
    let bits = compact_bits documented xs in
    let m = le_value (slice bits 0 2) in
    let (_, same) =
      assert_inv (bool_eq (m == 3) ((m == 3) && (le_value (slice bits 2 8) == 0))) _ e in
    let mode_eq : m ≡ mode = cc in subst (λ k. k < 4) mode_eq (two_bits_value bits)

module _ (g : Gates) (gates : IsDocumented g) (G : Gadgets) (sound : IsSound G) where
  -- For five bytes, `decode_compact_int` gives the value and the mode that they stand for, and
  -- refuses exactly the long mode with a length other than four bytes.
  pub decode_compact_int-meaning :
      (b0 b1 b2 b3 b4 : ℕ)
      → b0 < 256
      → b1 < 256
      → b2 < 256
      → b3 < 256
      → b4 < 256
      → decode_compact_int g G (b0 ∷ b1 ∷ b2 ∷ b3 ∷ b4 ∷ []) ≡ compact_meaning b0 b1 b2 b3 b4
  decode_compact_int-meaning b0 b1 b2 b3 b4 h0 h1 h2 h3 h4 =
      subst
        (λ g. decode_compact_int g G (b0 ∷ b1 ∷ b2 ∷ b3 ∷ b4 ∷ []) ≡ compact_meaning b0 b1 b2 b3 b4)
        (eq_documented g gates) (decoded_at G sound b0 b1 b2 b3 b4 h0 h1 h2 h3 h4)

  -- The bytes after the encoding do not matter: an encoded `u32` followed by any bytes decodes to
  -- the number and the mode of its encoding, and the mode gives the length of the encoding.
  pub decode_compact_int-encode :
      (n x1 x2 x3 x4 : ℕ)
      → n < u32_mod
      → x1 < 256
      → x2 < 256
      → x3 < 256
      → x4 < 256
      → (decode_compact_int g G (take 5 (encode_compact n ++ x1 ∷ x2 ∷ x3 ∷ x4 ∷ []))
          ≡ some (n, compact_mode n))
        × (get_compact_int_byte_length g G (compact_mode n) ≡ length (encode_compact n))
  unfolding encode_compact get_compact_int_byte_length
  decode_compact_int-encode n x1 x2 x3 x4 h h1 h2 h3 h4 = elim (Bool-cases (ltb n 64)) [
    | inl one ↦ rw one (
      decode_compact_int-meaning (n * 4) x1 x2 x3 x4 (ground arith) h1 h2 h3 h4 ∙ ground arith,
      select_four G sound 1 2 4 5 0 (omega arith),
    )
    | inr more ↦ elim (Bool-cases (ltb n 16384)) [
      | inl two ↦
          rw (more, two)
            (
              decode_compact_int-meaning ((n * 4 + 1) % 256) ((n * 4 + 1) / 256) x1 x2 x3
                    (omega arith) (ground arith) h1 h2 h3
                  ∙ ground arith,
              select_four G sound 1 2 4 5 1 (omega arith),
            )
      | inr more2 ↦ elim (Bool-cases (ltb n 1073741824)) [
        | inl four ↦
            rw (more, more2, four)
              (
                decode_compact_int-meaning ((n * 4 + 2) % 256) ((n * 4 + 2) / 256 % 256)
                      ((n * 4 + 2) / 65536 % 256) ((n * 4 + 2) / 16777216) x1 (omega arith)
                      (omega arith) (omega arith) (ground arith) h1
                    ∙ ground arith,
                select_four G sound 1 2 4 5 2 (omega arith),
              )
        | inr more3 ↦
            rw (more, more2, more3)
              (
                decode_compact_int-meaning 3 (n % 256) (n / 256 % 256) (n / 65536 % 256)
                      (n / 16777216) (omega arith) (omega arith) (omega arith) (omega arith)
                      (omega arith)
                    ∙ ground arith,
                select_four G sound 1 2 4 5 3 (omega arith),
              )
      ]
    ]
  ]
