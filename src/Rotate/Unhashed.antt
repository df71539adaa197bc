-- ===== src/Rotate/Unhashed.antt =====
-- A log in the bytes of the header's buffer that are not hashed, in rotate.rs.
use kno_vectorx.Common.{
  ℕ, ◌+◌, ◌-◌, ◌*◌, ◌^◌, ◌≤◌, ◌<◌, ◌≡◌, refl, sym, ap, ap₂, ◌∙◌, true, some, List, ◌∷◌, ◌++◌, Bytes,
  length, take, drop, slice, get_or, get_elem?, ◌==◌, [], arith, length-append, take_exact,
  drop_past, get_elem?-append_right,
}
use kno_vectorx.Plonky2x.{Gates, IsDocumented, Gadgets, IsSound}
use kno_vectorx.Vars.{EncodedHeader, RotateVariable, JustificationVariable}
use kno_vectorx.Decoder.{decode_compact_int, hash_encoded_header}
use kno_vectorx.Decoder.Compact.{compact_length}
use kno_vectorx.Justification.{verify_simple_justification}
use kno_vectorx.Justification.Commitment.{compute_authority_set_commitment-eq-hash}
use kno_vectorx.Fetcher.Authorities.{compute_authority_set_hash}
use kno_vectorx.Rotate.{rotate}
use kno_vectorx.Rotate.EpochEnd.{EpochEnd}
use kno_vectorx.Rotate.Complete.{verify_epoch_end_header-accepts}

-- A buffer with the hashed bytes first, and then others.
abbrev pub with_tail : Bytes → Bytes → EncodedHeader
with_tail hashed tail = record { header_bytes = hashed ++ tail; header_size = length hashed }

abbrev pub rotation_with : ℕ → EncodedHeader → (n start : ℕ) → List Bytes → RotateVariable
rotation_with block header n start keys = record {
  epoch_end_block_number = block;
  target_header = header;
  target_header_num_authorities = n;
  next_authority_set_start_position = start;
  new_pubkeys = keys;
}

slice-past :
    (xs ys : Bytes) (offset p q : ℕ)
    → slice (xs ++ ys) (length xs + offset + p) (length xs + offset + q)
      ≡ slice ys (offset + p) (offset + q)
slice-past xs ys offset p q =
    let width : length xs + offset + q - (length xs + offset + p) ≡ offset + q - (offset + p) =
      omega arith in
    let start : length xs + offset + p ≡ length xs + (offset + p) = omega arith in
    ap₂ take width
      (ap (λ k. drop k (xs ++ ys)) start ∙ drop_past (length xs) (offset + p) xs ys refl)

get_elem?-past :
    (xs ys : Bytes) (offset p : ℕ)
    → get_elem? (xs ++ ys) (length xs + offset + p) ≡ get_elem? ys (offset + p)
get_elem?-past xs ys offset p =
    let rest : length xs + offset + p - length xs ≡ offset + p = omega arith in
    get_elem?-append_right (length xs + offset + p) xs ys (omega arith) ∙ ap (get_elem? ys) rest

EpochEnd-past :
    (g : Gates) (G : Gadgets) (xs ys : Bytes) (offset n : ℕ) (keys : List Bytes)
    → EpochEnd g G ys offset n keys
    → EpochEnd g G (xs ++ ys) (length xs + offset) n keys
EpochEnd-past g G xs ys offset n keys e =
    let c1 = compact_length e.message_mode in
    let c2 = compact_length e.size_mode in
    let at : length xs + offset + (7 + c1 + c2) + (n * 40 + 4)
        ≡ length xs + offset + (7 + c1 + c2 + (n * 40 + 4)) =
      omega arith in
    let at' : offset + (7 + c1 + c2 + (n * 40 + 4)) ≡ offset + (7 + c1 + c2) + (n * 40 + 4) =
      omega arith in
    record {
      message_length = e.message_length;
      message_mode = e.message_mode;
      size_mode = e.size_mode;
      active = e.active;
      engine = slice-past xs ys offset 1 6 ∙ e.engine;
      message = ap (decode_compact_int g G) (slice-past xs ys offset 6 11) ∙ e.message;
      flag = get_elem?-past xs ys offset (6 + c1) ∙ e.flag;
      size = ap (decode_compact_int g G) (slice-past xs ys offset (7 + c1) (12 + c1)) ∙ e.size;
      authorities =
          ap (slice (xs ++ ys) (length xs + offset + (7 + c1 + c2))) at
          ∙ slice-past xs ys offset (7 + c1 + c2) (7 + c1 + c2 + (n * 40 + 4))
          ∙ ap (slice ys (offset + (7 + c1 + c2))) at'
          ∙ e.authorities;
    }

module _ (g : Gates) (gates : IsDocumented g) (G : Gadgets) (sound : IsSound G)
    (prefix : (x y : Bytes) (n : ℕ) → take n x ≡ take n y → G.blake2b x n ≡ G.blake2b y n) where
  same_hash :
      (hashed tail forged : Bytes)
      → hash_encoded_header g G (with_tail hashed tail)
        ≡ hash_encoded_header g G (with_tail hashed forged)
  unfolding hash_encoded_header
  same_hash hashed tail forged = prefix (hashed ++ tail) (hashed ++ forged) (length hashed) (
      take_exact (length hashed) hashed tail refl
      ∙ sym (take_exact (length hashed) hashed forged refl))

  -- The position of the log is not bounded by the size of the header: given a justification of a
  -- header that the circuit accepts, any bytes put after the header in the buffer that hold a log of
  -- any `n` keys of 32 bytes, at a position among these bytes, make a rotation that the circuit
  -- accepts, with the chained hash of those keys. The hash depends on the header's bytes alone, the
  -- subarrays lie within the buffer, and the circuit has room for the keys.
  pub rotate-unhashed :
      (max sub_size set_id block offset n : ℕ) (set_hash hashed tail forged k : Bytes)
      (ks : List Bytes) (j : JustificationVariable)
      → max * 40 + 4 ≡ sub_size
      → offset + 17 + sub_size ≤ length forged
      → length (hashed ++ forged) < 2 ^ 32
      → n ≤ max
      → max ≤ length (k ∷ ks)
      → ((i : ℕ) → i < n → length (get_or (k ∷ ks) i []) ≡ 32)
      → EpochEnd g G forged offset n (k ∷ ks)
      → verify_simple_justification g G max block
          (hash_encoded_header g G (with_tail hashed tail))
          set_id
          set_hash
          j
        ≡ some tt
      → rotate g G max sub_size set_id set_hash
          (rotation_with block (with_tail hashed forged) n (length hashed + offset) (k ∷ ks))
          j
        ≡ some (compute_authority_set_hash G.sha256 (take n (k ∷ ks)))
  unfolding rotate
  rotate-unhashed max sub_size set_id block offset n set_hash hashed tail forged k ks j size room
        small few many wide log justified =
      let sized : (sub_size == max * 40 + 4) ≡ true = ground (arith, size) in
      let justified' =
        ap (λ h. verify_simple_justification g G max block h set_id set_hash j)
          (sym (same_hash hashed tail forged))
        ∙ justified in
      let listed =
        verify_epoch_end_header-accepts g gates G sound max sub_size (length hashed + offset) n
          (with_tail hashed forged) (hash_encoded_header g G (with_tail hashed forged)) (k ∷ ks)
          size (omega (arith, length-append hashed forged)) small few many wide
          (EpochEnd-past g G hashed forged offset n (k ∷ ks) log) in
      rw (sized, justified', listed)
        ((compute_authority_set_commitment-eq-hash g gates G n k ks).1 log.active)
