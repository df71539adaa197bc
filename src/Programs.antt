-- ===== src/Programs.antt =====
-- The two circuits, circuits/header_range.rs and circuits/rotate.rs, and the programs that stand in
-- for them, circuits/dummy_header_range.rs and circuits/dummy_rotate.rs. The circuits read their
-- inputs as values and write a list of values; the programs read and write bytes.
pub mod Inputs
pub mod Dummy
pub mod Soundness
pub mod Requests
use kno_vectorx.Common.{
  ℕ, ◌+◌, Bool, Option, none, some, List, [], ◌∷◌, ◌++◌, Bytes, length, slice, leb, assert, ◌>>=◌,
  ◌>>◌,
}
use kno_vectorx.Plonky2x.{Gates, Gadgets, be_value}
use kno_vectorx.Vars.{JustificationVariable, RotateVariable}
use kno_vectorx.Justification.{verify_simple_justification}
use kno_vectorx.Subchain.{MapReduce, HeaderHint, verify_subchain}
use kno_vectorx.Rotate.{rotate}
use kno_vectorx.Fetcher.Rpc.{Rpc}
use kno_vectorx.Fetcher.Search.{last_justified_block}
use kno_vectorx.Fetcher.Merkle.{get_merkle_root_commitments}
use kno_vectorx.Fetcher.Authorities.{compute_authority_set_hash_at}

-- What the contract passes to a header range proof.
pub record HeaderRangeInput : Type 0 where
  pub trusted_block : ℕ
  pub trusted_header_hash : Bytes
  pub authority_set_id : ℕ
  pub authority_set_hash : Bytes
  pub target_block : ℕ

module _ (g : Gates) (G : Gadgets) where
  -- `HeaderRangeCircuit::define`: the target header hash and the two roots.
  unfoldable pub define_header_range :
      MapReduce
      → (max_authority_set_size max_num_headers : ℕ) → HeaderHint
      → JustificationVariable
      → HeaderRangeInput
      → Option (List Bytes)
  unfolding verify_subchain verify_simple_justification
  define_header_range mapreduce max_authority_set_size max_num_headers headers justification input =
      do
        subchain_output ←
            verify_subchain g G mapreduce max_num_headers headers input.trusted_block
              input.trusted_header_hash input.target_block
        verify_simple_justification g G max_authority_set_size input.target_block
            subchain_output.target_header_hash input.authority_set_id input.authority_set_hash
            justification
        some (
            subchain_output.target_header_hash ∷ subchain_output.state_root_merkle_root
            ∷ subchain_output.data_root_merkle_root ∷ [])

  -- `RotateCircuit::define`, with the answers of the two hints.
  unfoldable pub define_rotate :
      (max_authority_set_size max_subarray_size authority_set_id : ℕ)
      → Bytes
      → RotateVariable
      → JustificationVariable
      → Option (List Bytes)
  unfolding rotate
  define_rotate max_authority_set_size max_subarray_size authority_set_id authority_set_hash
        rotate_var justification =
      do
        new_authority_set_hash ←
            rotate g G max_authority_set_size max_subarray_size authority_set_id authority_set_hash
              rotate_var justification
        some (new_authority_set_hash ∷ [])

-- `from_be_bytes` of a slice that ends at `end`; slicing past the end panics.
unfoldable pub be_uint : Bytes → (start end : ℕ) → Option ℕ
be_uint input_bytes start end = do
  assert (leb end (length input_bytes))
  some (be_value 0 (slice input_bytes start end))

unfoldable pub be_slice : Bytes → (start end : ℕ) → Option Bytes
be_slice input_bytes start end = do
  assert (leb end (length input_bytes))
  some (slice input_bytes start end)

-- The fields that `DummyHeaderRange::run` reads.
unfoldable pub read_header_range : Bytes → Option HeaderRangeInput
unfolding be_uint be_slice
read_header_range input_bytes = do
  trusted_block ← be_uint input_bytes 0 4
  trusted_header_hash ← be_slice input_bytes 4 36
  authority_set_id ← be_uint input_bytes 36 44
  authority_set_hash ← be_slice input_bytes 44 76
  target_block ← be_uint input_bytes 76 80
  some (record {
    trusted_block = trusted_block;
    trusted_header_hash = trusted_header_hash;
    authority_set_id = authority_set_id;
    authority_set_hash = authority_set_hash;
    target_block = target_block;
  })

-- The fields that `DummyRotate::run` reads.
unfoldable pub read_rotate : Bytes → Option (ℕ × Bytes)
unfolding be_uint be_slice
read_rotate input_bytes = do
  authority_set_id ← be_uint input_bytes 0 8
  authority_set_hash ← be_slice input_bytes 8 40
  some (authority_set_id, authority_set_hash)

module _ (sha256 : Bytes → Bytes) (rpc : Rpc) where
  unfoldable pub dummy_header_range : (header_range_commitment_tree_size : ℕ) → Bytes → Option Bytes
  unfolding read_header_range get_merkle_root_commitments
  dummy_header_range header_range_commitment_tree_size input_bytes = do
    input ← read_header_range input_bytes
    let target_header_hash = (rpc.get_header input.target_block).hash
    (state_merkle_root, data_merkle_root) ←
        get_merkle_root_commitments sha256 rpc header_range_commitment_tree_size input.trusted_block
          input.target_block
    some (target_header_hash ++ (state_merkle_root ++ data_merkle_root))

  unfoldable pub dummy_rotate : Bytes → Option Bytes
  unfolding read_rotate last_justified_block compute_authority_set_hash_at
  dummy_rotate input_bytes = do
    (authority_set_id, _) ← read_rotate input_bytes
    epoch_end_block_number ← last_justified_block rpc authority_set_id
    compute_authority_set_hash_at sha256 rpc epoch_end_block_number
