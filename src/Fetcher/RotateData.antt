-- ===== src/Fetcher/RotateData.antt =====
-- `get_header_rotate` of circuits/input/mod.rs, and the hint of circuits/rotate.rs that feeds its data
-- to the circuit. A panic is `none`.
pub mod Sizes
pub mod EpochHeader
pub mod Accepted
pub mod Found
pub mod Layout
use kno_vectorx.Common.{
  ℕ, zero, suc, ◌+◌, ◌-◌, ◌*◌, ◌/◌, ◌%◌, ◌^◌, Bool, true, false, Option, none, some, List, [], ◌∷◌,
  ◌++◌, Bytes, length, take, drop, slice, get_elem?, replicate, leb, ◌==◌, bytes_eq, assert, ◌>>=◌,
  ◌>>◌,
}
use kno_vectorx.Consts.{
  hash_size, pubkey_length, validator_length, delay_length, consensus_engine_id_prefix_length,
}
use kno_vectorx.Vars.{HeaderRotateData, RotateVariable}
use kno_vectorx.Fetcher.Rpc.{Rpc, Libraries, DigestItem, consensus, other}
use kno_vectorx.Fetcher.Search.{last_justified_block}
use kno_vectorx.Fetcher.Authorities.{get_authorities, compute_authority_set_hash}
use kno_vectorx.Fetcher.Justifications.{previous, compressed_keys}

-- `expected_weight`, and the consensus id that is looked for.
abbrev pub expected_weight : Bytes
expected_weight = 1 ∷ 0 ∷ 0 ∷ 0 ∷ 0 ∷ 0 ∷ 0 ∷ 0 ∷ []

abbrev pub grandpa_id : Bytes
grandpa_id = 70 ∷ 82 ∷ 78 ∷ 75 ∷ []

-- The rounds over `chunks_exact`: `rounds` chunks from the `i`-th on. More chunks than authorities
-- panic; fewer do not.
unfoldable pub check_chunks : List Bytes → Bytes → (rounds i : ℕ) → Option (Unit {0})
check_chunks new_authorities authorities_bytes zero i = some tt
check_chunks new_authorities authorities_bytes (suc rounds) i = do
  let authority_chunk =
      slice authorities_bytes (i * validator_length) (i * validator_length + validator_length)
  authority ← get_elem? new_authorities i
  assert (bytes_eq (take pubkey_length authority_chunk) authority)
  assert (bytes_eq (drop pubkey_length authority_chunk) expected_weight)
  check_chunks new_authorities authorities_bytes rounds (i + 1)

-- The checks on the value of the log of GRANDPA. The delay must have four bytes, which are 0.
unfoldable pub check_value :
    (encoded_num_authorities_len : ℕ) → List Bytes → Bytes → Option (Unit {0})
unfolding check_chunks
check_value encoded_num_authorities_len new_authorities value = do
  first ← get_elem? value 0
  assert (first == 1)
  let cursor = 1 + encoded_num_authorities_len
  assert (leb cursor (length value))
  let authorities_bytes = drop cursor value
  let chunks = length authorities_bytes / validator_length
  check_chunks new_authorities authorities_bytes chunks 0
  let delay = drop (cursor + chunks * validator_length) value
  assert (bytes_eq (take delay_length delay) (replicate delay_length 0))

-- The loop over the logs, at `position`: the position before the first log of GRANDPA.
unfoldable pub find_log :
    (encoded_num_authorities_len : ℕ) → List Bytes → (position : ℕ) → List DigestItem → Option ℕ
unfolding check_value
find_log encoded_num_authorities_len new_authorities position [] = none
find_log encoded_num_authorities_len new_authorities position
      (consensus consensus_id value encoded_log ∷ logs) =
    let later =
      find_log encoded_num_authorities_len new_authorities (position + length encoded_log) logs in
    elim (bytes_eq consensus_id grandpa_id) [
      | true ↦ do check_value encoded_num_authorities_len new_authorities value; some position
      | false ↦ later
    ]
find_log encoded_num_authorities_len new_authorities position (other encoded_log ∷ logs) =
    find_log encoded_num_authorities_len new_authorities (position + length encoded_log) logs

module _ (libs : Libraries) (rpc : Rpc) (header_length validator_set_size_max : ℕ) where
  unfoldable pub get_header_rotate : (epoch_end_block : ℕ) → Option HeaderRotateData
  unfolding find_log
  get_header_rotate epoch_end_block = do
    let epoch_end_block_authority_set_id = rpc.get_authority_set_id epoch_end_block
    let prev_authority_set_id = rpc.get_authority_set_id (previous epoch_end_block)
    assert ((epoch_end_block_authority_set_id + 2 ^ 64 - 1) % 2 ^ 64 == prev_authority_set_id)
    let header = rpc.get_header epoch_end_block
    let header_size = length header.encoded
    assert (leb header_size header_length)
    let header_bytes = header.encoded ++ replicate (header_length - header_size) 0
    new_authorities ← get_authorities rpc epoch_end_block
    let num_authorities = length new_authorities
    let encoded_num_authorities_len = length (libs.encode_compact (num_authorities % 2 ^ 32))
    let scheduled_change_message_length =
        1 + encoded_num_authorities_len + 40 * num_authorities + delay_length
    let encoded_scheduled_change_message_length_size =
        length (libs.encode_compact (scheduled_change_message_length % 2 ^ 32))
    let number_encoded = libs.encode_compact epoch_end_block
    position ←
        find_log encoded_num_authorities_len new_authorities
          (hash_size + length number_encoded + hash_size + hash_size) header.digest_logs
    let new_authority_set_hash = compute_authority_set_hash libs.sha256 new_authorities
    pubkeys ← compressed_keys new_authorities
    let padded_pubkeys =
        pubkeys ++ replicate (validator_set_size_max - num_authorities) libs.dummy_public_key
    let prefix_length =
        consensus_engine_id_prefix_length + encoded_scheduled_change_message_length_size + 1
        + encoded_num_authorities_len
    let end_position = position + prefix_length + (32 + 8) * num_authorities + 4
    some (record {
      header_bytes = header_bytes;
      header_size = header_size;
      num_authorities = num_authorities;
      start_position = position;
      end_position = end_position;
      new_authority_set_hash = new_authority_set_hash;
      padded_pubkeys = padded_pubkeys;
    })

  -- `RotateHint`
  unfoldable pub hint_rotate : (authority_set_id : ℕ) → Option RotateVariable
  unfolding get_header_rotate
  hint_rotate authority_set_id = do
    epoch_end_block_nb ← last_justified_block rpc authority_set_id
    rotate_data ← get_header_rotate epoch_end_block_nb
    assert (leb rotate_data.num_authorities validator_set_size_max)
    some (record {
      epoch_end_block_number = epoch_end_block_nb;
      target_header = record {
        header_bytes = rotate_data.header_bytes;
        header_size = rotate_data.header_size % 2 ^ 32;
      };
      target_header_num_authorities = rotate_data.num_authorities;
      next_authority_set_start_position = rotate_data.start_position;
      new_pubkeys = rotate_data.padded_pubkeys;
    })
