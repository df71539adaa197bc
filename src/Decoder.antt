-- ===== src/Decoder.antt =====
-- circuits/builder/decoder.rs, circuits/builder/header.rs: the decoders of the circuits. A compact
-- integer and a precommit are read from their bytes; a header is read from its fixed-size buffer.
pub mod Precommits
pub mod Compact
use kno_vectorx.Common.{
  ℕ, ◌+◌, Bool, Option, some, List, [], ◌∷◌, ◌++◌, reverse, Bytes, slice, get_or, ◌>>=◌, ◌>>◌,
}
use kno_vectorx.Consts.{data_root_offset_from_end, hash_size, max_compact_uint_bytes}
use kno_vectorx.Plonky2x.{Gates, Gadgets}
use kno_vectorx.Vars.{EncodedHeader, HeaderVariable, PrecommitVariable}

-- The bits of a compact integer, each byte's least significant bit first.
compact_bits : Gates → Bytes → List Bool
compact_bits g [] = []
compact_bits g (x ∷ xs) = reverse (g.as_bool_targets x) ++ compact_bits g xs

module _ (g : Gates) (G : Gadgets) where
  -- The value and the compress mode.
  unfoldable pub decode_compact_int : Bytes → Option (ℕ × ℕ)
  unfolding compact_bits
  decode_compact_int compact_bytes = do
    let bool_targets = compact_bits g compact_bytes
    let compress_mode = g.le_sum (slice bool_targets 0 2)
    let zero_mode_value = g.le_sum (slice bool_targets 2 8)
    let one_mode_value = g.le_sum (slice bool_targets 2 16)
    let two_mode_value = g.le_sum (slice bool_targets 2 32)
    let three_mode_value = g.le_sum (slice bool_targets 8 40)
    let value =
        G.select_array (zero_mode_value ∷ one_mode_value ∷ two_mode_value ∷ three_mode_value ∷ [])
          compress_mode
    let is_mode_three = g.is_equal compress_mode 3
    let encoded_byte_length = g.le_sum (slice bool_targets 2 8)
    let is_encoded_length_zero = g.is_equal encoded_byte_length 0
    let is_valid_encoded_length_check = g.and is_mode_three is_encoded_length_zero
    g.assert_is_equal_bool is_mode_three is_valid_encoded_length_check
    some (value, compress_mode)

  unfoldable pub get_compact_int_byte_length : ℕ → ℕ
  get_compact_int_byte_length compress_mode = G.select_array (1 ∷ 2 ∷ 4 ∷ 5 ∷ []) compress_mode

  unfoldable pub hash_encoded_header : EncodedHeader → Bytes
  hash_encoded_header header = G.blake2b header.header_bytes header.header_size

  unfoldable pub decode_header : EncodedHeader → Bytes → Option HeaderVariable
  unfolding decode_compact_int
  decode_header header header_hash = do
    let bytes = header.header_bytes
    let parent_hash = slice bytes 0 hash_size
    let block_number_bytes = slice bytes hash_size (hash_size + max_compact_uint_bytes)
    (block_number, compress_mode) ← decode_compact_int block_number_bytes
    let all_possible_state_roots : List Bytes =
        slice bytes 33 (33 + hash_size)
        ∷ slice bytes 34 (34 + hash_size)
        ∷ slice bytes 36 (36 + hash_size)
        ∷ slice bytes 37 (37 + hash_size)
        ∷ []
    let state_root = G.select_array_bytes all_possible_state_roots compress_mode
    let data_root_start = g.sub_u32 header.header_size data_root_offset_from_end
    let header_is_zero_size = g.is_equal header.header_size 0
    let data_root_start = g.select header_is_zero_size 0 data_root_start
    let data_root = G.get_fixed_subarray hash_size bytes data_root_start header_hash
    some (record {
      block_number = block_number;
      parent_hash = parent_hash;
      state_root = state_root;
      data_root = data_root;
    })

  unfoldable pub decode_precommit : Bytes → Option PrecommitVariable
  decode_precommit precommit = do
    let precommit_first_byte = g.to_variable (get_or precommit 0 0)
    g.assert_is_equal precommit_first_byte 1
    let block_hash = slice precommit 1 33
    let block_number_bytes = slice precommit 33 37
    let justification_round_bytes = slice precommit 37 45
    let authority_set_id_bytes = slice precommit 45 53
    some (record {
      block_hash = block_hash;
      block_number = g.decode_uint (reverse block_number_bytes);
      justification_round = g.decode_uint (reverse justification_round_bytes);
      authority_set_id = g.decode_uint (reverse authority_set_id_bytes);
    })
