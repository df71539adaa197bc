-- ===== src/Fetcher/RotateData/Layout.antt =====
-- Where the next authorities stand in an encoded epoch end header, for rotate.rs.
use kno_vectorx.Common.{
  ℕ, zero, suc, ◌+◌, ◌-◌, ◌*◌, ◌≤◌, ◌<◌, ◌≡◌, refl, sym, ap, ap₂, subst, ◌∙◌, some, List, [], ◌∷◌,
  ◌++◌, Bytes, length, take, drop, slice, get_elem?, get_elem?-drop, drop-drop, drop-append_left,
  take_exact, length-append, replicate, arith, Bool-cases, inl, inr, ltb,
}
use kno_vectorx.Plonky2x.{Gates, Gadgets, IsDocumented, IsSound, u32_mod}
use kno_vectorx.Decoder.{decode_compact_int}
use kno_vectorx.Decoder.Compact.{
  encode_compact, compact_mode, compact_length, decode_compact_int-encode,
}
use kno_vectorx.Rotate.{consensus_engine_id, expected_weight_bytes}
use kno_vectorx.Rotate.Validators.{encode_authorities}
use kno_vectorx.Rotate.EpochEnd.{EpochEnd}

-- The elements are bytes.
abbrev pub Octets : Bytes → Type 0
Octets [] = Unit {0}
Octets (x ∷ xs) = (x < 256) × Octets xs

pub Octets-append : (xs ys : Bytes) → Octets xs → Octets ys → Octets (xs ++ ys)
Octets-append [] ys h k = k
Octets-append (x ∷ xs) ys h k = (h.0, Octets-append xs ys h.1 k)

pub Octets-replicate : (n : ℕ) → Octets (replicate n 0)
Octets-replicate zero = tt
Octets-replicate (suc n) = (omega arith, Octets-replicate n)

Octets-drop : (n : ℕ) (xs : Bytes) → Octets xs → Octets (drop n xs)
Octets-drop zero xs h = h
Octets-drop (suc n) [] h = tt
Octets-drop (suc n) (x ∷ xs) h = Octets-drop n xs h.1

-- Keys of 32 bytes.
abbrev pub Keys : List Bytes → Type 0
Keys [] = Unit {0}
Keys (k ∷ ks) = (length k ≡ 32) × Keys ks

pub length-encode_authorities :
    (ks : List Bytes) → Keys ks → length (encode_authorities ks) ≡ length ks * 40 + 4
length-encode_authorities [] h = refl
length-encode_authorities (k ∷ ks) h =
    length-append k (expected_weight_bytes ++ encode_authorities ks)
    ∙ omega (arith, h.0, length-encode_authorities ks h.1)

pub length-encode_compact : (n : ℕ) → length (encode_compact n) ≡ compact_length (compact_mode n)
unfolding encode_compact
length-encode_compact n = elim (Bool-cases (ltb n 64)) [
  | inl a ↦ rw a refl
  | inr a ↦ elim (Bool-cases (ltb n 16384)) [
    | inl b ↦ rw (a, b) refl
    | inr b ↦ elim (Bool-cases (ltb n 1073741824)) [
      | inl c ↦ rw (a, b, c) refl
      | inr c ↦ rw (a, b, c) refl
    ]
  ]
]

pub compact_positive : (n : ℕ) → 0 < length (encode_compact n)
compact_positive n = rw (length-encode_compact n) (ground arith)

take_five :
    (xs : Bytes) (a b c d : ℕ) (rest : Bytes)
    → 0 < length xs
    → take 5 (xs ++ a ∷ b ∷ c ∷ d ∷ rest) ≡ take 5 (xs ++ a ∷ b ∷ c ∷ d ∷ [])
take_five [] a b c d rest h = absurd (omega arith)
take_five (x ∷ []) a b c d rest h = refl
take_five (x ∷ y ∷ []) a b c d rest h = refl
take_five (x ∷ y ∷ z ∷ []) a b c d rest h = refl
take_five (x ∷ y ∷ z ∷ u ∷ []) a b c d rest h = refl
take_five (x ∷ y ∷ z ∷ u ∷ v ∷ xs) a b c d rest h = refl

-- What follows a prefix of known length, and a part of it.
pub slice_after :
    (at count : ℕ) (xs rest : Bytes)
    → drop at xs ≡ rest
    → slice xs at (at + count) ≡ take count rest
slice_after at count xs rest e = let l : at + count - at ≡ count = omega arith in ap₂ take l e

pub drop_on :
    (at next : ℕ) (xs ys rest : Bytes)
    → drop at xs ≡ ys ++ rest
    → at + length ys ≡ next
    → drop next xs ≡ rest
drop_on at next xs ys rest e l =
    ap (λ k. drop k xs) (sym l)
    ∙ sym (drop-drop (length ys) at xs)
    ∙ ap (drop (length ys)) e
    ∙ drop-append_left ys rest

module _ (g : Gates) (gates : IsDocumented g) (G : Gadgets) (sound : IsSound G) where
  decode_at :
      (n : ℕ) (rest : Bytes)
      → n < u32_mod
      → 4 ≤ length rest
      → Octets rest
      → decode_compact_int g G (take 5 (encode_compact n ++ rest)) ≡ some (n, compact_mode n)
  decode_at n [] small room octets = absurd (omega arith)
  decode_at n (a ∷ []) small room octets = absurd (omega arith)
  decode_at n (a ∷ b ∷ []) small room octets = absurd (omega arith)
  decode_at n (a ∷ b ∷ c ∷ []) small room octets = absurd (omega arith)
  decode_at n (a ∷ b ∷ c ∷ d ∷ rest) small room octets =
      ap (decode_compact_int g G) (take_five (encode_compact n) a b c d rest (compact_positive n))
      ∙ (decode_compact_int-encode g gates G sound n a b c d small (omega arith) (omega arith)
          (omega arith) (omega arith)).0

  -- A header that has the log after its first `start + 1` bytes lists the authorities at `start`.
  pub log-EpochEnd :
      (bytes tail : Bytes) (start len : ℕ) (keys padded : List Bytes)
      → drop (start + 1) bytes
        ≡ (4 ∷ consensus_engine_id)
          ++ (encode_compact len
              ++ ((1 ∷ []) ++ (encode_compact (length keys) ++ (encode_authorities keys ++ tail))))
      → Octets bytes
      → len < u32_mod
      → length keys < u32_mod
      → 0 < length keys
      → Keys keys
      → take (length keys) padded ≡ keys
      → EpochEnd g G bytes start (length keys) padded
  log-EpochEnd bytes tail start len keys padded at octets small1 small2 active wide first =
      let n = length keys in
      let c1 = compact_length (compact_mode len) in
      let c2 = compact_length (compact_mode n) in
      let l1 = length-encode_compact len in
      let l2 = length-encode_compact n in
      let last = encode_authorities keys ++ tail in
      let size_at = encode_compact n ++ last in
      let width = length-encode_authorities keys wide in
      let room_last : 4 ≤ length last =
        omega (arith, length-append (encode_authorities keys) tail, width) in
      let room_size : 4 ≤ length ((1 ∷ []) ++ size_at) =
        omega (arith, length-append (encode_compact n) last, room_last) in
      let d2 : drop (start + 6) bytes ≡ encode_compact len ++ ((1 ∷ []) ++ size_at) =
        drop_on (start + 1) (start + 6) bytes (4 ∷ consensus_engine_id) _ at (omega arith) in
      let d3 : drop (start + (6 + c1)) bytes ≡ (1 ∷ []) ++ size_at =
        drop_on (start + 6) (start + (6 + c1)) bytes (encode_compact len) _ d2 (omega arith) in
      let d4 : drop (start + (7 + c1)) bytes ≡ size_at =
        drop_on (start + (6 + c1)) (start + (7 + c1)) bytes (1 ∷ []) _ d3 (omega arith) in
      let d5 : drop (start + (7 + c1 + c2)) bytes ≡ last =
        drop_on (start + (7 + c1)) (start + (7 + c1 + c2)) bytes (encode_compact n) last d4
          (omega arith) in
      let o3 = subst Octets d3 (Octets-drop (start + (6 + c1)) bytes octets) in
      let o5 = subst Octets d5 (Octets-drop (start + (7 + c1 + c2)) bytes octets) in
      let s1 : start + 1 + 5 ≡ start + 6 = omega arith in
      let s2 : start + 6 + 5 ≡ start + 11 = omega arith in
      let s3 : start + (7 + c1) + 5 ≡ start + (12 + c1) = omega arith in
      let s4 : start + (6 + c1) + 0 ≡ start + (6 + c1) = omega arith in
      record {
        message_length = len;
        message_mode = compact_mode len;
        size_mode = compact_mode n;
        active = active;
        engine = ap (slice bytes (start + 1)) (sym s1) ∙ slice_after (start + 1) 5 bytes _ at;
        message =
            ap (decode_compact_int g G)
              (ap (slice bytes (start + 6)) (sym s2) ∙ slice_after (start + 6) 5 bytes _ d2)
            ∙ decode_at len ((1 ∷ []) ++ size_at) small1 room_size o3;
        flag =
            ap (get_elem? bytes) (sym s4)
            ∙ sym (get_elem?-drop 0 (start + (6 + c1)) bytes)
            ∙ ap (λ xs. get_elem? xs 0) d3;
        size =
            ap (decode_compact_int g G) (
              ap (slice bytes (start + (7 + c1))) (sym s3)
              ∙ slice_after (start + (7 + c1)) 5 bytes _ d4)
            ∙ decode_at n last small2 room_last o5;
        authorities =
            slice_after (start + (7 + c1 + c2)) (n * 40 + 4) bytes last d5
            ∙ take_exact (n * 40 + 4) (encode_authorities keys) tail width
            ∙ ap encode_authorities (sym first);
      }
