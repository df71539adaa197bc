-- ===== src/Rotate/EpochEnd.antt =====
-- What `verify_epoch_end_header` of rotate.rs shows of the header.
use kno_vectorx.Common.{
  ℕ, zero, suc, ◌+◌, ◌*◌, ◌%◌, ◌^◌, ◌≤◌, ◌<◌, ◌≡◌, refl, sym, ap, ap₂, ◌∙◌, some, List, ◌∷◌, true,
  false, Bytes, length, take, drop, slice, get_elem?, ◌==◌, bool_eq, arith, bind_inv, assert_inv,
  get_elem?-slice,
}
use kno_vectorx.Plonky2x.{Gates, Gadgets, IsSound, documented, field_order}
use kno_vectorx.Vars.{EncodedHeader}
use kno_vectorx.Decoder.{decode_compact_int}
use kno_vectorx.Decoder.Compact.{compact_length}
use kno_vectorx.Rotate.{
  consensus_engine_id, verify_consensus_log, verify_scheduled_change_message_length_and_flag,
  verify_encoded_num_authorities, validators_loop, verify_epoch_end_header,
}
use kno_vectorx.Rotate.Validators.{encode_authorities, validators_at}
use kno_vectorx.Rotate.Prefix.{
  take-slice, in_prefix, prefix_length, consensus_inv, flag_inv, size_inv, length_small,
}

-- At `start`, after one byte, the header has the consensus log of GRANDPA: the engine id, the length
-- of the message, the flag of a scheduled change, the size `n` of the authority set, and the encoding
-- of the first `n` of the given keys with unit weights, followed by a delay of 0.
pub record EpochEnd (g : Gates) (G : Gadgets) (bytes : Bytes) (start n : ℕ) (keys : List Bytes)
    : Type 0 where
  pub message_length : ℕ
  pub message_mode : ℕ
  pub size_mode : ℕ
  pub active : 0 < n
  pub engine : slice bytes (start + 1) (start + 6) ≡ 4 ∷ consensus_engine_id
  pub message :
      decode_compact_int g G (slice bytes (start + 6) (start + 11))
      ≡ some (message_length, message_mode)
  pub flag : get_elem? bytes (start + (6 + compact_length message_mode)) ≡ some 1
  pub size :
      decode_compact_int g G (
        slice bytes
          (start + (7 + compact_length message_mode))
          (start + (12 + compact_length message_mode)))
      ≡ some (n, size_mode)
  pub authorities :
      slice bytes
        (start + (7 + compact_length message_mode + compact_length size_mode))
        (start + (7 + compact_length message_mode + compact_length size_mode) + (n * 40 + 4))
      ≡ encode_authorities (take n keys)

module _ (G : Gadgets) (sound : IsSound G) where
  authorities_inv :
      (max sub_size at cursor n : ℕ) (bytes hash : Bytes) (keys : List Bytes)
      → max * 40 + 4 ≡ sub_size
      → at + sub_size ≤ length bytes
      → cursor ≡ at
      → 0 < n
      → n ≤ max
      → max ≤ length keys
      → validators_loop documented G n
          (G.get_fixed_subarray sub_size bytes cursor hash)
          keys
          false
          max
          0
        ≡ some tt
      → slice bytes at (at + (n * 40 + 4)) ≡ encode_authorities (take n keys)
  authorities_inv max sub_size at cursor zero bytes hash keys size room same active few many e =
      absurd (omega arith)
  authorities_inv max sub_size at cursor (suc k) bytes hash keys size room same active few many e =
      let enc = G.get_fixed_subarray sub_size bytes cursor hash in
      let there : enc ≡ slice bytes at (at + sub_size) =
        ap (λ c. G.get_fixed_subarray sub_size bytes c hash) same
        ∙ sound.subarray_lem sub_size bytes at hash room in
      let none_before : 0 * 40 ≡ 0 = omega arith in
      sym (take-slice (suc k * 40 + 4) sub_size at bytes (omega arith))
      ∙ ap (take (suc k * 40 + 4)) (sym there)
      ∙ ap (λ m. take (suc k * 40 + 4) (drop m enc)) (sym none_before)
      ∙ validators_at G (suc k) enc keys k max 0 (omega arith) (omega arith) (omega arith) e

  pub epoch_end_at :
      (max sub_size start n : ℕ) (header : EncodedHeader) (hash : Bytes) (keys : List Bytes)
      → max * 40 + 4 ≡ sub_size
      → start + 17 + sub_size ≤ length header.header_bytes
      → length header.header_bytes < 2 ^ 32
      → n ≤ max
      → max ≤ length keys
      → verify_epoch_end_header documented G max sub_size header hash n start keys ≡ some tt
      → EpochEnd documented G header.header_bytes start n keys
  unfolding verify_epoch_end_header
  epoch_end_at max sub_size start n header hash keys size room small few many e =
      let bytes = header.header_bytes in
      let sub = G.get_fixed_subarray 17 bytes start hash in
      let there : sub ≡ slice bytes start (start + 17) =
        sound.subarray_lem 17 bytes start hash (omega arith) in
      let len : length sub ≡ 17 = ap length there ∙ prefix_length bytes start (omega arith) in
      let (t, e1) = assert_inv (bool_eq (n == 0) false) _ e in
      let (_, log, e2) = bind_inv (verify_consensus_log documented G sub) _ e1 in
      let (idx, f, e3) =
        bind_inv (verify_scheduled_change_message_length_and_flag documented G sub) _ e2 in
      let (total, s, e4) =
        bind_inv (verify_encoded_num_authorities documented G sub idx hash n) _ e3 in
      let (message_length, message_mode, message, flag, idx_eq) = flag_inv G sound sub idx len f in
      let l1 = length_small G sound message_mode in
      let (size_mode, size_eq, total_eq) =
        size_inv G sound sub hash idx n total (omega arith) (omega arith) s in
      let l2 = length_small G sound size_mode in
      let c1 = compact_length message_mode in
      let c2 = compact_length size_mode in
      let cursor : (start + total) % field_order ≡ start + (7 + c1 + c2) = omega arith in
      let mid : idx + 5 ≡ 12 + c1 = omega arith in
      record {
        message_length = message_length;
        message_mode = message_mode;
        size_mode = size_mode;
        active = nonzero n t;
        engine =
            sym
              (in_prefix sub bytes start 1 6 (start + 1) (start + 6) there (omega arith) refl refl)
            ∙ consensus_inv G sound sub log;
        message =
            ap (decode_compact_int documented G) (
              sym (
                in_prefix sub bytes start 6 11 (start + 6) (start + 11) there (omega arith) refl
                  refl))
            ∙ message;
        flag =
            sym (get_elem?-slice (6 + c1) start 17 bytes (omega arith))
            ∙ ap (λ s. get_elem? s (6 + c1)) (sym there)
            ∙ flag;
        size =
            ap (decode_compact_int documented G) (
              sym (
                ap₂ (slice sub) idx_eq mid
                ∙ in_prefix sub bytes start (7 + c1) (12 + c1) (start + (7 + c1))
                    (start + (12 + c1)) there (omega arith) refl refl))
            ∙ size_eq;
        authorities =
            authorities_inv max sub_size (start + (7 + c1 + c2)) ((start + total) % field_order) n
              bytes hash keys size (omega arith) cursor (nonzero n t) few many e4;
      }
    where
      nonzero : (n : ℕ) → bool_eq (n == 0) false ≡ true → 0 < n
      nonzero zero t = cc
      nonzero (suc n) t = omega arith
