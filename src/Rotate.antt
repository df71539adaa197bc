-- ===== src/Rotate.antt =====
-- circuits/builder/rotate.rs: the circuit that reads the next authority set from an epoch end
-- header. The hinted `RotateVariable` and justification are untrusted arguments.
pub mod Enabled
pub mod Unhashed
pub mod Truncated
pub mod Complete
pub mod Soundness
pub mod Prefix
pub mod EpochEnd
pub mod Validators
use kno_vectorx.Common.{
  ℕ, zero, suc, ◌+◌, ◌*◌, Bool, true, false, Option, some, List, [], ◌∷◌, Bytes, get_or, slice,
  ◌==◌, assert, ◌>>=◌, ◌>>◌,
}
use kno_vectorx.Consts.{
  consensus_engine_id_prefix_length, max_compact_uint_bytes, max_prefix_length, pubkey_length,
  validator_length, delay_length,
}
use kno_vectorx.Plonky2x.{Gates, Gadgets}
use kno_vectorx.Vars.{EncodedHeader, RotateVariable, JustificationVariable}
use kno_vectorx.Decoder.{decode_compact_int, get_compact_int_byte_length, hash_encoded_header}
use kno_vectorx.Justification.{compute_authority_set_commitment, verify_simple_justification}

-- Voting power 1, as 8 little-endian bytes, and a delay of 0.
abbrev pub expected_weight_bytes : Bytes
expected_weight_bytes = 1 ∷ 0 ∷ 0 ∷ 0 ∷ 0 ∷ 0 ∷ 0 ∷ 0 ∷ []

abbrev pub expected_delay_bytes : Bytes
expected_delay_bytes = 0 ∷ 0 ∷ 0 ∷ 0 ∷ []

-- "FRNK"
abbrev pub consensus_engine_id : Bytes
consensus_engine_id = 70 ∷ 82 ∷ 78 ∷ 75 ∷ []

module _ (g : Gates) (G : Gadgets) where
  unfoldable pub verify_consensus_log : Bytes → Option (Unit {0})
  verify_consensus_log subarray = do
    g.assert_is_equal (get_or subarray 1 0) 4
    g.assert_is_equal_bytes (slice subarray 2 6) consensus_engine_id

  -- The index after the scheduled change flag.
  unfoldable pub verify_scheduled_change_message_length_and_flag : Bytes → Option ℕ
  verify_scheduled_change_message_length_and_flag subarray = do
    let prefix_cursor = consensus_engine_id_prefix_length
    let encoded_message_length =
        slice subarray consensus_engine_id_prefix_length
          (consensus_engine_id_prefix_length + max_compact_uint_bytes)
    (_, compress_mode) ← decode_compact_int g G encoded_message_length
    let byte_length = get_compact_int_byte_length g G compress_mode
    let prefix_cursor = g.add prefix_cursor byte_length
    let header_schedule_change_flag = G.select_array subarray prefix_cursor
    g.assert_is_equal header_schedule_change_flag 1
    some (g.add prefix_cursor 1)

  -- The index after the encoded size of the new authority set.
  unfoldable pub verify_encoded_num_authorities : Bytes → ℕ → Bytes → ℕ → Option ℕ
  verify_encoded_num_authorities subarray prefix_cursor header_hash untrusted_authority_set_size =
      do
        let encoded_authority_set_size =
            G.get_fixed_subarray max_compact_uint_bytes subarray prefix_cursor header_hash
        (decoded_authority_set_size, compress_mode) ←
            decode_compact_int g G encoded_authority_set_size
        num_authorities_u32 ← g.from_variables untrusted_authority_set_size
        g.assert_is_equal decoded_authority_set_size num_authorities_u32
        let size_bytes = get_compact_int_byte_length g G compress_mode
        some (g.add prefix_cursor size_bytes)

  -- The rounds `i ..` of the loop over the encoded validators, `rounds` of them.
  unfoldable pub validators_loop :
      ℕ → Bytes → List Bytes → Bool → (rounds i : ℕ) → Option (Unit {0})
  validators_loop num_authorities subarray new_pubkeys validator_disabled zero i = some tt
  validators_loop num_authorities subarray new_pubkeys validator_disabled (suc rounds) i = do
    let idx = i * validator_length
    let curr_validator = i + 1
    let extracted_pubkey = slice subarray idx (idx + pubkey_length)
    let pubkey_match = g.is_equal_bytes extracted_pubkey (get_or new_pubkeys i [])
    g.assert_is_equal_bool (g.or pubkey_match validator_disabled) true
    let extracted_weight = slice subarray (idx + pubkey_length) (idx + validator_length)
    let weight_match = g.is_equal_bytes extracted_weight expected_weight_bytes
    g.assert_is_equal_bool (g.or weight_match validator_disabled) true
    let at_end = g.is_equal curr_validator num_authorities
    let disabled = g.select_bool at_end true validator_disabled
    let not_at_end = g.negate at_end
    let extracted_delay =
        slice subarray (idx + validator_length) (idx + validator_length + delay_length)
    let delay_match = g.is_equal_bytes extracted_delay expected_delay_bytes
    g.assert_is_equal_bool (g.or delay_match not_at_end) true
    validators_loop num_authorities subarray new_pubkeys disabled rounds (i + 1)

  unfoldable pub verify_epoch_end_header :
      (max_authority_set_size max_subarray_size : ℕ)
      → EncodedHeader
      → Bytes
      → (num_authorities start_position : ℕ) → List Bytes
      → Option (Unit {0})
  unfolding verify_consensus_log verify_scheduled_change_message_length_and_flag
      verify_encoded_num_authorities validators_loop
  verify_epoch_end_header max_authority_set_size max_subarray_size header header_hash
        num_authorities start_position new_pubkeys =
      do
        g.assert_is_equal_bool (g.is_equal num_authorities 0) false
        let cursor = start_position
        let prefix_subarray =
            G.get_fixed_subarray max_prefix_length header.header_bytes cursor header_hash
        verify_consensus_log prefix_subarray
        prefix_idx ← verify_scheduled_change_message_length_and_flag prefix_subarray
        total_prefix_length ←
            verify_encoded_num_authorities prefix_subarray prefix_idx header_hash num_authorities
        let cursor = g.add cursor total_prefix_length
        let enc_validator_subarray =
            G.get_fixed_subarray max_subarray_size header.header_bytes cursor header_hash
        validators_loop num_authorities enc_validator_subarray new_pubkeys false
            max_authority_set_size 0

  -- `justification` answers the hint for the epoch end block.
  unfoldable pub rotate :
      (max_authority_set_size max_subarray_size current_authority_set_id : ℕ)
      → Bytes
      → RotateVariable
      → JustificationVariable
      → Option Bytes
  unfolding verify_epoch_end_header
  rotate max_authority_set_size max_subarray_size current_authority_set_id
        current_authority_set_hash r justification =
      do
        assert (max_subarray_size == max_authority_set_size * validator_length + delay_length)
        let target_header_hash = hash_encoded_header g G r.target_header
        verify_simple_justification g G max_authority_set_size r.epoch_end_block_number
            target_header_hash current_authority_set_id current_authority_set_hash justification
        verify_epoch_end_header max_authority_set_size max_subarray_size r.target_header
            target_header_hash r.target_header_num_authorities r.next_authority_set_start_position
            r.new_pubkeys
        compute_authority_set_commitment g G r.target_header_num_authorities r.new_pubkeys
