-- ===== src/Decoder/Precommits.antt =====
-- The precommit decoder of decoder.rs against the one of circuits/input/mod.rs and the encoding.
use kno_vectorx.Common.{
  ℕ, zero, suc, ◌+◌, ◌*◌, ◌/◌, ◌%◌, ◌^◌, ◌<◌, ◌≡◌, refl, sym, ap, subst, ◌∙◌, Option, none, some,
  [], ◌∷◌, ◌++◌, reverse, Bytes, length, take, slice, get_elem?, get_or, ◌==◌, assert, arith,
  Bool-cases, inl, inr, length-append, take_exact, drop_past, ◌>>◌,
}
use mathlib.Core.List.{reverse-cons}
use kno_vectorx.Plonky2x.{Gates, Gadgets, IsDocumented, documented, eq_documented, be_value}
use kno_vectorx.Vars.{PrecommitVariable}
use kno_vectorx.Decoder.{decode_precommit}
use kno_vectorx.Fetcher.Authorities
use kno_vectorx.Fetcher.Authorities.{le_uint}

be_value-snoc :
    (acc : ℕ) (xs : Bytes) (x : ℕ) → be_value acc (xs ++ x ∷ []) ≡ be_value acc xs * 256 + x
unfolding be_value
be_value-snoc acc [] x = refl
be_value-snoc acc (y ∷ xs) x = be_value-snoc (acc * 256 + y) xs x

pub be_value-reverse : (xs : Bytes) → be_value 0 (reverse xs) ≡ le_uint xs
unfolding le_uint be_value
be_value-reverse [] = refl
be_value-reverse (x ∷ xs) =
    ap (be_value 0) (reverse-cons x xs)
    ∙ be_value-snoc 0 (reverse xs) x
    ∙ omega (arith, be_value-reverse xs)

-- A precommit message: `n` bytes of a number, the least significant first.
unfoldable pub le_bytes : (count x : ℕ) → Bytes
le_bytes zero x = []
le_bytes (suc count) x = x % 256 ∷ le_bytes count (x / 256)

pub length-le_bytes : (count x : ℕ) → length (le_bytes count x) ≡ count
unfolding le_bytes
length-le_bytes zero x = refl
length-le_bytes (suc count) x = ap suc (length-le_bytes count (x / 256))

pub le_uint-bytes4 : (x : ℕ) → x < 2 ^ 32 → le_uint (le_bytes 4 x) ≡ x
unfolding le_bytes le_uint
le_uint-bytes4 x h = omega arith

pub le_uint-bytes8 : (x : ℕ) → x < 2 ^ 64 → le_uint (le_bytes 8 x) ≡ x
unfolding le_bytes le_uint
le_uint-bytes8 x h = omega arith

unfoldable pub encode_precommit : Bytes → (block_number round authority_set_id : ℕ) → Bytes
unfolding le_bytes
encode_precommit block_hash block_number round authority_set_id =
    1
    ∷ (block_hash ++ (le_bytes 4 block_number ++ (le_bytes 8 round ++ le_bytes 8 authority_set_id)))

-- What the circuit's decoder gives, by the fetcher's reading of integers.
abbrev pub precommit_of : Bytes → PrecommitVariable
precommit_of p = record {
  block_hash = slice p 1 33;
  block_number = le_uint (slice p 33 37);
  justification_round = le_uint (slice p 37 45);
  authority_set_id = le_uint (slice p 45 53);
}

pub decode_documented :
    (G : Gadgets) (p : Bytes)
    → decode_precommit documented G p ≡ (assert (get_or p 0 0 == 1) >> some (precommit_of p))
unfolding decode_precommit
decode_documented G p =
    rw
      (
        be_value-reverse (slice p 33 37),
        be_value-reverse (slice p 37 45),
        be_value-reverse (slice p 45 53),
      )
      refl

abbrev pub to_variable : Option (Bytes × ℕ × ℕ × ℕ) → Option PrecommitVariable
to_variable none = none
to_variable (some (block_hash, block_number, round, authority_set_id)) = some (record {
  block_hash = block_hash;
  block_number = block_number;
  justification_round = round;
  authority_set_id = authority_set_id;
})

get_in_range : (xs : Bytes) (i : ℕ) → i < length xs → (x : ℕ) × (get_elem? xs i ≡ some x)
get_in_range [] i h = absurd (omega arith)
get_in_range (x ∷ xs) zero h = (x, refl)
get_in_range (x ∷ xs) (suc i) h = get_in_range xs i (omega arith)

fetched_precommit :
    (p : Bytes)
    → length p ≡ 53
    → to_variable (Authorities.decode_precommit p)
      ≡ (assert (get_or p 0 0 == 1) >> some (precommit_of p))
unfolding Authorities.decode_precommit
fetched_precommit [] e = absurd (omega arith)
fetched_precommit (x ∷ xs) e =
    let (last, at) = get_in_range xs 51 (omega arith) in
    elim (Bool-cases (x == 1)) [ inl t ↦ rw (at, t) refl | inr f ↦ rw (at, f) refl ]

module _ (block_hash : Bytes) (block_number round authority_set_id : ℕ)
    (e : length block_hash ≡ 32) where
  abbrev message : Bytes
  message = encode_precommit block_hash block_number round authority_set_id

  hash_part : slice message 1 33 ≡ block_hash
  unfolding encode_precommit
  hash_part = take_exact 32 block_hash _ e

  number_part : slice message 33 37 ≡ le_bytes 4 block_number
  unfolding encode_precommit
  number_part = ap (take 4) (drop_past 32 0 block_hash _ e)

  round_part : slice message 37 45 ≡ le_bytes 8 round
  unfolding encode_precommit
  round_part = ap (take 8) (drop_past 32 4 block_hash _ e)

  set_part : slice message 45 53 ≡ le_bytes 8 authority_set_id
  unfolding encode_precommit
  set_part = ap (take 8) (drop_past 32 12 block_hash _ e)

  pub length-encode_precommit : length message ≡ 53
  unfolding encode_precommit
  length-encode_precommit = omega (arith, length-append {0} block_hash)

  first_part : get_or message 0 0 ≡ 1
  unfolding encode_precommit
  first_part = refl

  pub message_decoded :
      (G : Gadgets)
      → block_number < 2 ^ 32
      → round < 2 ^ 64
      → authority_set_id < 2 ^ 64
      → decode_precommit documented G message
        ≡ some (record {
          block_hash = block_hash;
          block_number = block_number;
          justification_round = round;
          authority_set_id = authority_set_id;
        })
  message_decoded G hn hr ha =
      decode_documented G message
      ∙ rw
          (
            first_part,
            hash_part,
            number_part,
            round_part,
            set_part,
            le_uint-bytes4 block_number hn,
            le_uint-bytes8 round hr,
            le_uint-bytes8 authority_set_id ha,
          )
          refl

module _ (g : Gates) (gates : IsDocumented g) (G : Gadgets) where
  -- On the 53 bytes of a precommit, the circuit's decoder and the fetcher's decoder agree: both
  -- refuse a message whose first byte is not 1, and else give the same four fields.
  pub decode_precommit-eq-fetcher :
      (p : Bytes)
      → length p ≡ 53
      → decode_precommit g G p ≡ to_variable (Authorities.decode_precommit p)
  decode_precommit-eq-fetcher p e =
      subst (λ g. decode_precommit g G p ≡ to_variable (Authorities.decode_precommit p))
        (eq_documented g gates) (decode_documented G p ∙ sym (fetched_precommit p e))

  -- An encoded precommit decodes to its fields.
  pub decode_precommit-encode :
      (block_hash : Bytes) (block_number round authority_set_id : ℕ)
      → length block_hash ≡ 32
      → block_number < 2 ^ 32
      → round < 2 ^ 64
      → authority_set_id < 2 ^ 64
      → decode_precommit g G (encode_precommit block_hash block_number round authority_set_id)
        ≡ some (record {
          block_hash = block_hash;
          block_number = block_number;
          justification_round = round;
          authority_set_id = authority_set_id;
        })
  decode_precommit-encode block_hash block_number round authority_set_id e hn hr ha =
      rw (← eq_documented g gates)
        (message_decoded block_hash block_number round authority_set_id e G hn hr ha)
