-- ===== src/Programs/Requests.antt =====
-- The requests of the operator in bin/vectorx.rs, as the programs read them.
use kno_vectorx.Common.{
  ℕ, ◌^◌, ◌<◌, ◌≡◌, refl, ap, ◌∙◌, some, [], ◌∷◌, ◌++◌, reverse, Bytes, length, take, slice,
  length-append, take_exact, take_all, drop_past, arith,
}
use mathlib.Core.List.{reverse-cons}
use kno_vectorx.Plonky2x.{be_value}
use kno_vectorx.Decoder.Precommits.{
  le_bytes, be_value-reverse, length-le_bytes, le_uint-bytes4, le_uint-bytes8,
}
use kno_vectorx.Operator.{be_bytes, header_range_input, rotate_input}
use kno_vectorx.Programs.{read_header_range, read_rotate}

length-reverse : (xs : Bytes) → length (reverse xs) ≡ length xs
length-reverse [] = refl
length-reverse (x ∷ xs) =
    ap length (reverse-cons x xs)
    ∙ length-append (reverse xs) (x ∷ [])
    ∙ omega (arith, length-reverse xs)

length-be_bytes : (count x : ℕ) → length (be_bytes count x) ≡ count
unfolding be_bytes
length-be_bytes count x = length-reverse (le_bytes count x) ∙ length-le_bytes count x

be_value-bytes4 : (x : ℕ) → x < 2 ^ 32 → be_value 0 (be_bytes 4 x) ≡ x
unfolding be_bytes
be_value-bytes4 x h = be_value-reverse (le_bytes 4 x) ∙ le_uint-bytes4 x h

be_value-bytes8 : (x : ℕ) → x < 2 ^ 64 → be_value 0 (be_bytes 8 x) ≡ x
unfolding be_bytes
be_value-bytes8 x h = be_value-reverse (le_bytes 8 x) ∙ le_uint-bytes8 x h

-- Five strings of 4, 32, 8, 32 and 4 bytes.
module _ (a b c d e : Bytes) (la : length a ≡ 4) (lb : length b ≡ 32) (lc : length c ≡ 8)
    (ld : length d ≡ 32) (le : length e ≡ 4) where
  abbrev all : Bytes
  all = a ++ (b ++ (c ++ (d ++ e)))

  length-all : length all ≡ 80
  length-all = omega (
    arith,
    length-append {0} a (b ++ (c ++ (d ++ e))),
    length-append {0} b (c ++ (d ++ e)),
    length-append {0} c (d ++ e),
    length-append {0} d e,
  )

  first : slice all 0 4 ≡ a
  first = take_exact 4 a _ la

  second : slice all 4 36 ≡ b
  second = ap (take 32) (drop_past 4 0 a (b ++ (c ++ (d ++ e))) la) ∙ take_exact 32 b _ lb

  third : slice all 36 44 ≡ c
  third =
      ap (take 8) (drop_past 4 32 a (b ++ (c ++ (d ++ e))) la ∙ drop_past 32 0 b (c ++ (d ++ e)) lb)
      ∙ take_exact 8 c _ lc

  fourth : slice all 44 76 ≡ d
  fourth =
      ap (take 32) (
        drop_past 4 40 a (b ++ (c ++ (d ++ e))) la
        ∙ drop_past 32 8 b (c ++ (d ++ e)) lb
        ∙ drop_past 8 0 c (d ++ e) lc)
      ∙ take_exact 32 d _ ld

  fifth : slice all 76 80 ≡ e
  fifth =
      ap (take 4) (
        drop_past 4 72 a (b ++ (c ++ (d ++ e))) la
        ∙ drop_past 32 40 b (c ++ (d ++ e)) lb
        ∙ drop_past 8 32 c (d ++ e) lc
        ∙ drop_past 32 0 d e ld)
      ∙ take_all 4 e (omega arith)

-- The input bytes of a header range request read back as its fields. The hashes have 32 bytes, and
-- the numbers fit in their types.
pub read_header_range-header_range_input :
    (trusted_block : ℕ) (trusted_header_hash : Bytes) (authority_set_id : ℕ)
    (authority_set_hash : Bytes) (target_block : ℕ)
    → trusted_block < 2 ^ 32
    → length trusted_header_hash ≡ 32
    → authority_set_id < 2 ^ 64
    → length authority_set_hash ≡ 32
    → target_block < 2 ^ 32
    → read_header_range (
        header_range_input trusted_block trusted_header_hash authority_set_id authority_set_hash
          target_block)
      ≡ some (record {
        trusted_block = trusted_block;
        trusted_header_hash = trusted_header_hash;
        authority_set_id = authority_set_id;
        authority_set_hash = authority_set_hash;
        target_block = target_block;
      })
unfolding read_header_range header_range_input
read_header_range-header_range_input trusted_block hash set_id set_hash target_block h1 lh h2 ls
      h3 =
    let a = be_bytes 4 trusted_block in
    let c = be_bytes 8 set_id in
    let e = be_bytes 4 target_block in
    let la = length-be_bytes 4 trusted_block in
    let lc = length-be_bytes 8 set_id in
    let le = length-be_bytes 4 target_block in
    rw
      (
        length-all a hash c set_hash e la lh lc ls le,
        first a hash c set_hash e la lh lc ls le,
        second a hash c set_hash e la lh lc ls le,
        third a hash c set_hash e la lh lc ls le,
        fourth a hash c set_hash e la lh lc ls le,
        fifth a hash c set_hash e la lh lc ls le,
        be_value-bytes4 trusted_block h1,
        be_value-bytes8 set_id h2,
        be_value-bytes4 target_block h3,
      )
      refl

-- The input bytes of a rotation request read back as its fields, under the same conditions.
pub read_rotate-rotate_input :
    (authority_set_id : ℕ) (authority_set_hash : Bytes)
    → authority_set_id < 2 ^ 64
    → length authority_set_hash ≡ 32
    → read_rotate (rotate_input authority_set_id authority_set_hash)
      ≡ some (authority_set_id, authority_set_hash)
unfolding read_rotate rotate_input
read_rotate-rotate_input set_id set_hash h ls =
    let a = be_bytes 8 set_id in
    let la = length-be_bytes 8 set_id in
    let total : length (a ++ set_hash) ≡ 40 = omega (arith, length-append {0} a set_hash) in
    let first : slice (a ++ set_hash) 0 8 ≡ a = take_exact 8 a set_hash la in
    let second : slice (a ++ set_hash) 8 40 ≡ set_hash =
      ap (take 32) (drop_past 8 0 a set_hash la) ∙ take_all 32 set_hash (omega arith) in
    rw (total, first, second, be_value-bytes8 set_id h) refl
