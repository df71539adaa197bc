-- ===== src/Consts.antt =====
-- circuits/consts.rs
use kno_vectorx.Common.{ℕ, ◌+◌, ◌*◌}

abbrev pub data_root_offset_from_end : ℕ
data_root_offset_from_end = 32

abbrev pub headers_per_map : ℕ
headers_per_map = 8

abbrev pub max_header_chunk_size : ℕ
max_header_chunk_size = 280

abbrev pub blake2b_chunk_size_bytes : ℕ
blake2b_chunk_size_bytes = 128

abbrev pub max_header_size : ℕ
max_header_size = max_header_chunk_size * blake2b_chunk_size_bytes

abbrev pub hash_size : ℕ
hash_size = 32

abbrev pub pubkey_length : ℕ
pubkey_length = 32

abbrev pub weight_length : ℕ
weight_length = 8

abbrev pub validator_length : ℕ
validator_length = pubkey_length + weight_length

abbrev pub delay_length : ℕ
delay_length = 4

abbrev pub max_compact_uint_bytes : ℕ
max_compact_uint_bytes = 5

abbrev pub consensus_engine_id_prefix_length : ℕ
consensus_engine_id_prefix_length = 6

abbrev pub max_prefix_length : ℕ
max_prefix_length =
    consensus_engine_id_prefix_length + max_compact_uint_bytes + 1 + max_compact_uint_bytes

abbrev pub encoded_precommit_length : ℕ
encoded_precommit_length = 53

abbrev pub max_authority_set_size : ℕ
max_authority_set_size = 300

abbrev pub max_subarray_size : ℕ
max_subarray_size = max_authority_set_size * validator_length + delay_length
