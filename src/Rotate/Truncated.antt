-- ===== src/Rotate/Truncated.antt =====
-- A header that lists more authorities than the circuit of rotate.rs has room for.
use kno_vectorx.Common.{
  ℕ, zero, suc, ◌+◌, ◌*◌, ◌^◌, ◌≤◌, ◌<◌, ◌≡◌, refl, sym, ap, ap₂, ◌∙◌, subst, true, false, some,
  List, [], ◌∷◌, ◌++◌, Bytes, length, take, drop, slice, get_or, drop_next, take_all, ◌||◌, ◌==◌,
  bytes_eq, bytes_eq_refl, length-append, arith,
}
use kno_vectorx.Plonky2x.{Gates, IsDocumented, Gadgets, IsSound, documented, eq_documented}
use kno_vectorx.Vars.{RotateVariable, JustificationVariable}
use kno_vectorx.Decoder.{hash_encoded_header}
use kno_vectorx.Decoder.Compact.{compact_length}
use kno_vectorx.Justification.{compute_authority_set_commitment, verify_simple_justification}
use kno_vectorx.Justification.Commitment.{compute_authority_set_commitment-eq-hash}
use kno_vectorx.Fetcher.Authorities.{compute_authority_set_hash}
use kno_vectorx.Rotate.{
  expected_weight_bytes, expected_delay_bytes, validators_loop, verify_epoch_end_header, rotate,
}
use kno_vectorx.Rotate.Validators.{encode_authorities}
use kno_vectorx.Rotate.Prefix.{take-slice}
use kno_vectorx.Rotate.Enabled.{or_true, parts}
use kno_vectorx.Rotate.EpochEnd.{EpochEnd}
use kno_vectorx.Rotate.Complete.{epoch_end_validators}

take_over : (n m : ℕ) (xs ys : Bytes) → length xs ≡ n → take (n + m) (xs ++ ys) ≡ xs ++ take m ys
take_over zero m [] ys e = let z : zero + m ≡ m = omega arith in ap (λ k. take k ys) z
take_over zero m (x ∷ xs) ys e = absurd (omega arith)
take_over (suc n) m [] ys e = absurd (omega arith)
take_over (suc n) m (x ∷ xs) ys e =
    let s : suc n + m ≡ suc (n + m) = omega arith in
    ap (λ k. take k (x ∷ (xs ++ ys))) s ∙ ap (◌∷◌ x) (take_over n m xs ys (omega arith))

module _ (G : Gadgets) (n : ℕ) (sub : Bytes) (keys others : List Bytes)
    (wide : (i : ℕ) → i < length keys → length (get_or keys i []) ≡ 32) where
  -- Rounds before the last authority check keys and weights alone.
  unended_accepted :
      (rounds i : ℕ)
      → i + rounds ≡ length keys
      → length keys < n
      → take (rounds * 40) (drop (i * 40) sub)
        ≡ take (rounds * 40) (encode_authorities (drop i keys ++ others))
      → validators_loop documented G n sub keys false rounds i ≡ some tt
  unfolding validators_loop
  unended_accepted zero i at more e = refl
  unended_accepted (suc rounds) i at more e =
      let x = get_or keys i [] in
      let next : drop i keys ≡ x ∷ drop (i + 1) keys = drop_next i keys [] (omega arith) in
      let x_wide = wide i (omega arith) in
      let tail = encode_authorities (drop (i + 1) keys ++ others) in
      let count : suc rounds * 40 ≡ 32 + (8 + rounds * 40) = omega arith in
      let after : i * 40 + 40 ≡ (i + 1) * 40 = omega arith in
      let (key, weight, rest) =
        parts (rounds * 40) (i * 40) sub x (take (rounds * 40) tail) x_wide (
          ap (λ m. take m (drop (i * 40) sub)) (sym count)
          ∙ e
          ∙ ap₂ (λ m ks. take m (encode_authorities (ks ++ others))) count next
          ∙ take_over 32 (8 + rounds * 40) x (expected_weight_bytes ++ tail) x_wide
          ∙ ap (◌++◌ x) (take_over 8 (rounds * 40) expected_weight_bytes tail refl)) in
      let going : (i + 1 == n) ≡ false = ground arith in
      let delay : (bytes_eq (slice sub (i * 40 + 40) (i * 40 + 40 + 4)) expected_delay_bytes
            || true)
          ≡ true =
        or_true _ in
      rw (going, key, weight, delay, bytes_eq_refl x, bytes_eq_refl expected_weight_bytes)
        (unended_accepted rounds (i + 1) (omega arith) more
          (ap (λ m. take (rounds * 40) (drop m sub)) (sym after) ∙ rest))

truncated_accepted :
    (G : Gadgets) (sound : IsSound G) (sub_size n : ℕ) (hash : Bytes) (r : RotateVariable)
    (others : List Bytes)
    → length r.new_pubkeys * 40 + 4 ≡ sub_size
    → r.next_authority_set_start_position + 17 + sub_size ≤ length r.target_header.header_bytes
    → length r.target_header.header_bytes < 2 ^ 32
    → n < 2 ^ 32
    → length (r.new_pubkeys ++ others) ≡ n
    → 0 < length others
    → ((i : ℕ) → i < length r.new_pubkeys → length (get_or r.new_pubkeys i []) ≡ 32)
    → EpochEnd documented G r.target_header.header_bytes r.next_authority_set_start_position n
        (r.new_pubkeys ++ others)
    → verify_epoch_end_header documented G
        (length r.new_pubkeys)
        sub_size
        r.target_header
        hash
        n
        r.next_authority_set_start_position
        r.new_pubkeys
      ≡ some tt
truncated_accepted G sound sub_size n hash r others size room small fits all more wide e =
    let keys = r.new_pubkeys in
    let max = length keys in
    let start = r.next_authority_set_start_position in
    let bytes = r.target_header.header_bytes in
    let at = start + (7 + compact_length e.message_mode + compact_length e.size_mode) in
    let longer = length-append keys others in
    let whole : take n (keys ++ others) ≡ keys ++ others =
      take_all n (keys ++ others) (omega arith) in
    let listed : take (max * 40) (drop (0 * 40) (slice bytes at (at + sub_size)))
        ≡ take (max * 40) (encode_authorities (drop 0 keys ++ others)) =
      take-slice (max * 40) sub_size at bytes (omega arith)
      ∙ sym (take-slice (max * 40) (n * 40 + 4) at bytes (omega arith))
      ∙ ap (take (max * 40)) (e.authorities ∙ ap encode_authorities whole) in
    epoch_end_validators G sound max sub_size start n r.target_header hash keys (keys ++ others)
      room small fits e
    ∙ unended_accepted G n (slice bytes at (at + sub_size)) keys others wide max 0 (omega arith)
        (omega arith) listed

commitment_whole :
    (g : Gates) (gates : IsDocumented g) (G : Gadgets) (n : ℕ) (keys : List Bytes)
    → 0 < length keys
    → length keys ≤ n
    → compute_authority_set_commitment g G n keys ≡ some (compute_authority_set_hash G.sha256 keys)
commitment_whole g gates G n [] some_key enough = absurd (omega arith)
commitment_whole g gates G n (k ∷ ks) some_key enough =
    (compute_authority_set_commitment-eq-hash g gates G n k ks).1 (omega arith)
    ∙ ap (λ keys. some (compute_authority_set_hash G.sha256 keys)) (take_all n (k ∷ ks) enough)

-- The number of new authorities is not bounded by the circuit's room for them: for a header whose log
-- lists more authorities than the key array holds, the first of them the hinted keys of 32 bytes, and
-- a justification of it that is accepted, the circuit accepts the rotation, and returns the chained
-- hash of the hinted keys alone. The subarrays lie within the buffer, and sizes are in range.
pub rotate-truncated :
    (g : Gates) (gates : IsDocumented g) (G : Gadgets) (sound : IsSound G) (sub_size set_id : ℕ)
    (set_hash : Bytes) (r : RotateVariable) (j : JustificationVariable) (others : List Bytes)
    → length r.new_pubkeys * 40 + 4 ≡ sub_size
    → r.next_authority_set_start_position + 17 + sub_size ≤ length r.target_header.header_bytes
    → length r.target_header.header_bytes < 2 ^ 32
    → r.target_header_num_authorities < 2 ^ 32
    → length (r.new_pubkeys ++ others) ≡ r.target_header_num_authorities
    → 0 < length r.new_pubkeys
    → 0 < length others
    → ((i : ℕ) → i < length r.new_pubkeys → length (get_or r.new_pubkeys i []) ≡ 32)
    → EpochEnd g G r.target_header.header_bytes r.next_authority_set_start_position
        r.target_header_num_authorities
        (r.new_pubkeys ++ others)
    → verify_simple_justification g G
        (length r.new_pubkeys)
        r.epoch_end_block_number
        (hash_encoded_header g G r.target_header)
        set_id
        set_hash
        j
      ≡ some tt
    → rotate g G (length r.new_pubkeys) sub_size set_id set_hash r j
      ≡ some (compute_authority_set_hash G.sha256 r.new_pubkeys)
unfolding rotate
rotate-truncated g gates G sound sub_size set_id set_hash r j others size room small fits all
      some_key more wide e justified =
    let n = r.target_header_num_authorities in
    let max = length r.new_pubkeys in
    let start = r.next_authority_set_start_position in
    let hash = hash_encoded_header g G r.target_header in
    let sized : (sub_size == max * 40 + 4) ≡ true = ground (arith, size) in
    let read : verify_epoch_end_header g G max sub_size r.target_header hash n start r.new_pubkeys
        ≡ some tt =
      subst
        (λ g'.
          EpochEnd g' G r.target_header.header_bytes start n (r.new_pubkeys ++ others)
          → verify_epoch_end_header g' G max sub_size r.target_header hash n start r.new_pubkeys
            ≡ some tt)
        (eq_documented g gates)
        (truncated_accepted G sound sub_size n hash r others size room small fits all more wide)
        e in
    rw (sized, justified, read)
      (commitment_whole g gates G n r.new_pubkeys some_key
        (omega (arith, length-append r.new_pubkeys others)))
