-- ===== src/Programs/Inputs.antt =====
-- Which inputs the programs circuits/dummy_header_range.rs and circuits/dummy_rotate.rs refuse.
use kno_vectorx.Common.{
  ℕ, ◌≤◌, ◌<◌, ◌≡◌, refl, ap, ◌∙◌, none, some, Bytes, length, slice, leb, leb→le, true, arith,
  Option-cases, inl, inr, assert, bind_inv, assert-true,
}
use kno_vectorx.Plonky2x.{be_value}
use kno_vectorx.Programs.{HeaderRangeInput, read_header_range, read_rotate, be_uint, be_slice}

be_uint-length :
    (input_bytes : Bytes) (start end n : ℕ)
    → be_uint input_bytes start end ≡ some n
    → end ≤ length input_bytes
unfolding be_uint
be_uint-length input_bytes start end n e =
    let (_, t, _) = bind_inv (assert (leb end (length input_bytes))) _ e in
    leb→le end (length input_bytes) (assert-true (leb end (length input_bytes)) (t ∙ ap some refl))

be_slice-length :
    (input_bytes : Bytes) (start end : ℕ) (part : Bytes)
    → be_slice input_bytes start end ≡ some part
    → end ≤ length input_bytes
unfolding be_slice
be_slice-length input_bytes start end part e =
    let (_, t, _) = bind_inv (assert (leb end (length input_bytes))) _ e in
    leb→le end (length input_bytes) (assert-true (leb end (length input_bytes)) (t ∙ ap some refl))

header_range_long :
    (input_bytes : Bytes) (input : HeaderRangeInput)
    → read_header_range input_bytes ≡ some input
    → 80 ≤ length input_bytes
unfolding read_header_range
header_range_long input_bytes input e =
    let (_, _, e1) = bind_inv (be_uint input_bytes 0 4) _ e in
    let (_, _, e2) = bind_inv (be_slice input_bytes 4 36) _ e1 in
    let (_, _, e3) = bind_inv (be_uint input_bytes 36 44) _ e2 in
    let (_, _, e4) = bind_inv (be_slice input_bytes 44 76) _ e3 in
    let (target, last, _) = bind_inv (be_uint input_bytes 76 80) _ e4 in
    be_uint-length input_bytes 76 80 target last

rotate_long :
    (input_bytes : Bytes) (input : ℕ × Bytes)
    → read_rotate input_bytes ≡ some input
    → 40 ≤ length input_bytes
unfolding read_rotate
rotate_long input_bytes input e =
    let (_, _, e1) = bind_inv (be_uint input_bytes 0 8) _ e in
    let (hash, last, _) = bind_inv (be_slice input_bytes 8 40) _ e1 in
    be_slice-length input_bytes 8 40 hash last

long_enough :
    (k : ℕ) (input_bytes : Bytes) → k ≤ length input_bytes → leb k (length input_bytes) ≡ true
long_enough k input_bytes h = ground arith

-- The programs read their inputs exactly if they are long enough: 80 bytes for a header range, 40 for
-- a rotation. They panic on a shorter input, and do not look at what follows.
pub read_header_range-read_rotate-length :
    (input_bytes : Bytes)
    → (length input_bytes < 80 → read_header_range input_bytes ≡ none)
      × (80 ≤ length input_bytes
          → (input : HeaderRangeInput) × (read_header_range input_bytes ≡ some input))
      × (length input_bytes < 40 → read_rotate input_bytes ≡ none)
      × (40 ≤ length input_bytes → (input : ℕ × Bytes) × (read_rotate input_bytes ≡ some input))
unfolding read_header_range read_rotate be_uint be_slice
read_header_range-read_rotate-length input_bytes = (
  λ short. elim (Option-cases (read_header_range input_bytes)) [
    | inl e ↦ e
    | inr (input, e) ↦ absurd (omega (arith, header_range_long input_bytes input e))
  ],
  λ long. (
    record {
      trusted_block = be_value 0 (slice input_bytes 0 4);
      trusted_header_hash = slice input_bytes 4 36;
      authority_set_id = be_value 0 (slice input_bytes 36 44);
      authority_set_hash = slice input_bytes 44 76;
      target_block = be_value 0 (slice input_bytes 76 80);
    },
    rw
        (
          long_enough 4 input_bytes (omega arith),
          long_enough 36 input_bytes (omega arith),
          long_enough 44 input_bytes (omega arith),
          long_enough 76 input_bytes (omega arith),
          long_enough 80 input_bytes (omega arith),
        )
        refl,
  ),
  λ short. elim (Option-cases (read_rotate input_bytes)) [
    | inl e ↦ e
    | inr (input, e) ↦ absurd (omega (arith, rotate_long input_bytes input e))
  ],
  λ long. (
    (be_value 0 (slice input_bytes 0 8), slice input_bytes 8 40),
    rw (long_enough 8 input_bytes (omega arith), long_enough 40 input_bytes (omega arith)) refl,
  ),
)
