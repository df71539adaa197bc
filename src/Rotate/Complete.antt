-- ===== src/Rotate/Complete.antt =====
-- Which epoch end headers the circuit of rotate.rs accepts.
use kno_vectorx.Common.{
  ℕ, zero, suc, ◌+◌, ◌*◌, ◌%◌, ◌^◌, ◌≤◌, ◌<◌, ◌≡◌, refl, sym, ap, subst, ◌∙◌, some, List, [], ◌∷◌,
  false, Bytes, length, take, drop, slice, get_or, get_elem?, ◌==◌, bytes_eq, ==_refl, lt→ltb,
  arith, get_elem?-slice, some_inj,
}
use kno_vectorx.Plonky2x.{
  Gates, IsDocumented, Gadgets, IsSound, documented, eq_documented, field_order, u32_check,
}
use kno_vectorx.Vars.{EncodedHeader}
use kno_vectorx.Decoder.{decode_compact_int}
use kno_vectorx.Decoder.Compact.{compact_length, decoded_mode}
use kno_vectorx.Rotate.{
  consensus_engine_id, verify_consensus_log, verify_scheduled_change_message_length_and_flag,
  verify_encoded_num_authorities, validators_loop, verify_epoch_end_header,
}
use kno_vectorx.Rotate.Validators.{encode_authorities}
use kno_vectorx.Rotate.Prefix.{take-slice, in_prefix, prefix_length, length_small, byte_length}
use kno_vectorx.Rotate.EpochEnd.{EpochEnd}
use kno_vectorx.Rotate.Enabled.{enabled_accepted}

module _ (G : Gadgets) (sound : IsSound G) where
  consensus_accepted :
      (sub : Bytes)
      → slice sub 1 6 ≡ 4 ∷ consensus_engine_id
      → verify_consensus_log documented G sub ≡ some tt
  unfolding verify_consensus_log bytes_eq
  consensus_accepted [] e = cc
  consensus_accepted (x ∷ []) e = cc
  consensus_accepted (x ∷ y ∷ r) e =
      let code : y ≡ 4 = cc in let id : take 4 r ≡ consensus_engine_id = cc in rw (code, id) refl

  flag_accepted :
      (sub : Bytes) (len mode : ℕ)
      → length sub ≡ 17
      → decode_compact_int documented G (slice sub 6 11) ≡ some (len, mode)
      → get_elem? sub (6 + compact_length mode) ≡ some 1
      → verify_scheduled_change_message_length_and_flag documented G sub
        ≡ some (7 + compact_length mode)
  unfolding verify_scheduled_change_message_length_and_flag
  flag_accepted sub len mode e d one =
      let small = decoded_mode G (slice sub 6 11) len mode d in
      let short = length_small G sound mode in
      let bytes = byte_length G sound mode small in
      let at : (6 + compact_length mode) % field_order ≡ 6 + compact_length mode = omega arith in
      let next : (6 + compact_length mode + 1) % field_order ≡ 7 + compact_length mode =
        omega arith in
      let value : G.select_array sub (6 + compact_length mode) ≡ 1 =
        some_inj (sym (sound.select_array_lem sub (6 + compact_length mode) (omega arith)) ∙ one) in
      rw (d, bytes, at, value, next) refl

  size_accepted :
      (sub hash : Bytes) (cursor n mode : ℕ)
      → cursor + 5 ≤ length sub
      → length sub ≡ 17
      → n < 2 ^ 32
      → decode_compact_int documented G (slice sub cursor (cursor + 5)) ≡ some (n, mode)
      → verify_encoded_num_authorities documented G sub cursor hash n
        ≡ some (cursor + compact_length mode)
  unfolding verify_encoded_num_authorities u32_check
  size_accepted sub hash cursor n mode room e small d =
      let there = sound.subarray_lem 5 sub cursor hash room in
      let small' = decoded_mode G (slice sub cursor (cursor + 5)) n mode d in
      let short = length_small G sound mode in
      let bytes = byte_length G sound mode small' in
      let next : (cursor + compact_length mode) % field_order ≡ cursor + compact_length mode =
        omega arith in
      rw (there, d, lt→ltb n (2 ^ 32) small, ==_refl n, bytes, next) refl

  -- What is left to accept after the prefix of a log that lists `listed`.
  pub epoch_end_validators :
      (max sub_size start n : ℕ) (header : EncodedHeader) (hash : Bytes) (keys listed : List Bytes)
      → start + 17 + sub_size ≤ length header.header_bytes
      → length header.header_bytes < 2 ^ 32
      → n < 2 ^ 32
      → (e : EpochEnd documented G header.header_bytes start n listed)
      → verify_epoch_end_header documented G max sub_size header hash n start keys
        ≡ validators_loop documented G n
            (slice header.header_bytes
              (start + (7 + compact_length e.message_mode + compact_length e.size_mode))
              (start + (7 + compact_length e.message_mode + compact_length e.size_mode) + sub_size))
            keys
            false
            max
            0
  unfolding verify_epoch_end_header
  epoch_end_validators max sub_size start zero header hash keys listed room small few e =
      absurd (omega (arith, e.active))
  epoch_end_validators max sub_size start (suc k) header hash keys listed room small few e =
      let bytes = header.header_bytes in
      let n = suc k in
      let sub = G.get_fixed_subarray 17 bytes start hash in
      let there : sub ≡ slice bytes start (start + 17) =
        sound.subarray_lem 17 bytes start hash (omega arith) in
      let len : length sub ≡ 17 = ap length there ∙ prefix_length bytes start (omega arith) in
      let c1 = compact_length e.message_mode in
      let c2 = compact_length e.size_mode in
      let s1 = length_small G sound e.message_mode in
      let s2 = length_small G sound e.size_mode in
      let log = consensus_accepted sub (
        in_prefix sub bytes start 1 6 (start + 1) (start + 6) there (omega arith) refl refl
        ∙ e.engine) in
      let flag =
        flag_accepted sub e.message_length e.message_mode len
          (ap (decode_compact_int documented G) (
              in_prefix sub bytes start 6 11 (start + 6) (start + 11) there (omega arith) refl refl)
            ∙ e.message)
          (ap (λ s. get_elem? s (6 + c1)) there
            ∙ get_elem?-slice (6 + c1) start 17 bytes (omega arith)
            ∙ e.flag) in
      let count = size_accepted sub hash (7 + c1) n e.size_mode (omega arith) len (omega arith) (
        ap (decode_compact_int documented G) (
          in_prefix sub bytes start (7 + c1) (7 + c1 + 5) (start + (7 + c1)) (start + (12 + c1))
            there (omega arith) refl (omega arith))
        ∙ e.size) in
      let cursor : (start + (7 + c1 + c2)) % field_order ≡ start + (7 + c1 + c2) = omega arith in
      let at = start + (7 + c1 + c2) in
      let enc : G.get_fixed_subarray sub_size bytes at hash ≡ slice bytes at (at + sub_size) =
        sound.subarray_lem sub_size bytes at hash (omega arith) in
      let active : (suc k == 0) ≡ false = ground arith in
      rw (active, log, flag, count, cursor, enc) refl

  epoch_end_accepted :
      (max sub_size start n : ℕ) (header : EncodedHeader) (hash : Bytes) (keys : List Bytes)
      → max * 40 + 4 ≡ sub_size
      → start + 17 + sub_size ≤ length header.header_bytes
      → length header.header_bytes < 2 ^ 32
      → n ≤ max
      → max ≤ length keys
      → ((i : ℕ) → i < n → length (get_or keys i []) ≡ 32)
      → EpochEnd documented G header.header_bytes start n keys
      → verify_epoch_end_header documented G max sub_size header hash n start keys ≡ some tt
  epoch_end_accepted max sub_size start zero header hash keys size room small few many wide e =
      absurd (omega (arith, e.active))
  epoch_end_accepted max sub_size start (suc k) header hash keys size room small few many wide e =
      let n = suc k in
      let bytes = header.header_bytes in
      let at = start + (7 + compact_length e.message_mode + compact_length e.size_mode) in
      let listed : take (suc k * 40 + 4) (drop (0 * 40) (slice bytes at (at + sub_size)))
          ≡ encode_authorities (take (suc k) keys) =
        take-slice (suc k * 40 + 4) sub_size at bytes (omega arith) ∙ e.authorities in
      epoch_end_validators max sub_size start n header hash keys keys room small (omega arith) e
      ∙ enabled_accepted G n (slice bytes at (at + sub_size)) keys wide k max 0 (omega arith) few
          (omega arith) listed

-- `verify_epoch_end_header` accepts a header wherever it lists the authorities: after one byte the
-- consensus log of GRANDPA, the length of its message, the flag of a scheduled change, the number of
-- authorities, and their keys of 32 bytes each with weight 1, with a delay of 0 at the end. The
-- subarrays lie within the header, and there are at most as many authorities as the circuit has room
-- for.
pub verify_epoch_end_header-accepts :
    (g : Gates) (gates : IsDocumented g) (G : Gadgets) (sound : IsSound G)
    (max sub_size start n : ℕ) (header : EncodedHeader) (hash : Bytes) (keys : List Bytes)
    → max * 40 + 4 ≡ sub_size
    → start + 17 + sub_size ≤ length header.header_bytes
    → length header.header_bytes < 2 ^ 32
    → n ≤ max
    → max ≤ length keys
    → ((i : ℕ) → i < n → length (get_or keys i []) ≡ 32)
    → EpochEnd g G header.header_bytes start n keys
    → verify_epoch_end_header g G max sub_size header hash n start keys ≡ some tt
verify_epoch_end_header-accepts g gates G sound max sub_size start n header hash keys size room
      small few many wide =
    subst
      (λ g.
        EpochEnd g G header.header_bytes start n keys
        → verify_epoch_end_header g G max sub_size header hash n start keys ≡ some tt)
      (eq_documented g gates)
      (epoch_end_accepted G sound max sub_size start n header hash keys size room small few many
        wide)
