-- ===== src/Operator.antt =====
-- bin/vectorx.rs: one round of the operator, which looks for the next proof to request. A panic is
-- `none`; within it, `none` is a round without a request. Contract and node are parameters.
pub mod Step
use kno_vectorx.Common.{
  ℕ, zero, suc, ◌+◌, ◌-◌, ◌%◌, ◌^◌, Bool, true, false, not, ◌&&◌, ◌||◌, Option, none, some, List,
  [], ◌∷◌, ◌++◌, Bytes, reverse, min, ltb, leb, ◌==◌, bytes_eq, if◌then◌else◌, assert, ◌>>=◌, ◌>>◌,
}
use kno_vectorx.Plonky2x.{zero_hash}
use kno_vectorx.Decoder.Precommits.{le_bytes}
use kno_vectorx.Fetcher.Rpc.{Rpc}
use kno_vectorx.Fetcher.Search.{last_justified_block}
use kno_vectorx.Fetcher.Justifications.{previous}

-- What is read of the contract.
pub record Contract : Type 0 where
  pub latest_block : ℕ
  pub header_range_commitment_tree_size : ℕ
  pub block_height_to_header_hash : ℕ → Bytes
  pub authority_set_id_to_hash : ℕ → Bytes
  pub header_range_function_id : Bytes
  pub rotate_function_id : Bytes

pub record HeaderRangeContractData : Type 0 where
  pub vectorx_latest_block : ℕ
  pub avail_current_block : ℕ
  pub header_range_commitment_tree_size : ℕ
  pub next_authority_set_hash_exists : Bool
  pub header_range_function_id : Bytes

pub record RotateContractData : Type 0 where
  pub current_block : ℕ
  pub next_authority_set_hash_exists : Bool
  pub rotate_function_id : Bytes

-- The call that the platform makes with the proof.
pub data Call : Type 0 where
  commit_header_range : (authority_set_id target_block : ℕ) → Call
  rotate_call : (current_authority_set_id : ℕ) → Call

pub record Request : Type 0 where
  pub call : Call
  pub function_id : Bytes
  pub input : Bytes

-- Integers in `abi_encode_packed`, the most significant byte first.
unfoldable pub be_bytes : (count x : ℕ) → Bytes
unfolding le_bytes
be_bytes count x = reverse (le_bytes count x)

unfoldable pub header_range_input : ℕ → Bytes → ℕ → Bytes → ℕ → Bytes
unfolding be_bytes
header_range_input trusted_block trusted_header_hash trusted_authority_set_id
      trusted_authority_set_hash target_block =
    be_bytes 4 trusted_block
    ++ (trusted_header_hash
        ++ (be_bytes 8 trusted_authority_set_id
            ++ (trusted_authority_set_hash ++ be_bytes 4 target_block)))

unfoldable pub rotate_input : ℕ → Bytes → Bytes
unfolding be_bytes
rotate_input current_authority_set_id current_authority_set_hash =
    be_bytes 8 current_authority_set_id ++ current_authority_set_hash

module _ (contract : Contract) where
  unfoldable pub get_header_range_input_data :
      (trusted_block trusted_authority_set_id : ℕ) → Bytes × Bytes
  get_header_range_input_data trusted_block trusted_authority_set_id = (
    contract.block_height_to_header_hash trusted_block,
    contract.authority_set_id_to_hash trusted_authority_set_id,
  )

  unfoldable pub request_header_range : ℕ → ℕ → ℕ → Bytes → Request
  unfolding get_header_range_input_data header_range_input
  request_header_range trusted_block trusted_authority_set_id target_block
        header_range_function_id =
      let (trusted_header_hash, trusted_authority_set_hash) =
        get_header_range_input_data trusted_block trusted_authority_set_id in
      record {
        call = commit_header_range trusted_authority_set_id target_block;
        function_id = header_range_function_id;
        input =
            header_range_input trusted_block trusted_header_hash trusted_authority_set_id
              trusted_authority_set_hash target_block;
      }

  unfoldable pub request_rotate : ℕ → Bytes → Request
  unfolding rotate_input
  request_rotate current_authority_set_id rotate_function_id = record {
    call = rotate_call current_authority_set_id;
    function_id = rotate_function_id;
    input =
        rotate_input current_authority_set_id
          (contract.authority_set_id_to_hash current_authority_set_id);
  }

module _ (contract : Contract) (rpc : Rpc) where
  -- Whether the hash of the authority set after that of the block is set.
  abbrev next_hash_exists : ℕ → Bool
  next_hash_exists block = not (
      bytes_eq
        (contract.authority_set_id_to_hash
          ((rpc.get_authority_set_id (previous block) + 1) % 2 ^ 64))
        zero_hash)

  unfoldable pub get_contract_data_for_header_range : HeaderRangeContractData
  get_contract_data_for_header_range = record {
    vectorx_latest_block = contract.latest_block;
    avail_current_block = rpc.get_head.number;
    header_range_commitment_tree_size = contract.header_range_commitment_tree_size;
    next_authority_set_hash_exists = next_hash_exists contract.latest_block;
    header_range_function_id = contract.header_range_function_id;
  }

  unfoldable pub get_contract_data_for_rotate : RotateContractData
  get_contract_data_for_rotate = record {
    current_block = contract.latest_block;
    next_authority_set_hash_exists = next_hash_exists contract.latest_block;
    rotate_function_id = contract.rotate_function_id;
  }

  unfoldable pub find_and_request_rotate : Option Request
  unfolding get_contract_data_for_rotate request_rotate
  find_and_request_rotate =
      let rotate_contract_data = get_contract_data_for_rotate in
      let head_authority_set_id = rpc.get_authority_set_id (previous rpc.get_head.number) in
      let current_authority_set_id =
        rpc.get_authority_set_id (previous rotate_contract_data.current_block) in
      if ltb current_authority_set_id head_authority_set_id
        && not rotate_contract_data.next_authority_set_hash_exists
      then some
          (request_rotate contract current_authority_set_id rotate_contract_data.rotate_function_id)
      else none

-- `is_ok` says how `get_justification_from_block` ends at a block; a panic of it is `none`.
module _ (rpc : Rpc) (is_dummy_operator : Bool) (is_ok : ℕ → Option Bool) where
  -- The loop upwards from `block_to_step_to`, with fuel. At a limit of `u32::MAX` the counter wraps
  -- to 0 and the loop need not end.
  unfoldable pub step_loop : (fuel limit block_to_step_to : ℕ) → Option (Option ℕ)
  step_loop zero limit block_to_step_to = none
  step_loop (suc fuel) limit block_to_step_to = elim (ltb limit block_to_step_to) [
    | true ↦ some none
    | false ↦ elim (is_ok block_to_step_to) [
      | none ↦ none
      | some true ↦ some (some block_to_step_to)
      | some false ↦ step_loop fuel limit ((block_to_step_to + 1) % 2 ^ 32)
    ]
  ]

  unfoldable pub find_block_to_step_to :
      (ideal_block_interval header_range_commitment_tree_size vectorx_current_block
        avail_current_block authority_set_id : ℕ)
      → Option (Option ℕ)
  unfolding step_loop
  find_block_to_step_to ideal_block_interval header_range_commitment_tree_size vectorx_current_block
        avail_current_block authority_set_id =
      do
        last_justified ← last_justified_block rpc authority_set_id
        let limit = (vectorx_current_block + header_range_commitment_tree_size) % 2 ^ 32
        if not (last_justified == 0) && leb last_justified limit
            then some (some last_justified)
            else do
              let max_valid_block_to_step_to = min limit avail_current_block
              assert (not (ideal_block_interval == 0))
              let block_to_step_to =
                  max_valid_block_to_step_to - max_valid_block_to_step_to % ideal_block_interval
              if leb block_to_step_to vectorx_current_block
                  then some none
                  else if is_dummy_operator
                  then some (some block_to_step_to)
                  else step_loop (suc (suc limit)) limit block_to_step_to

  unfoldable pub find_and_request_header_range :
      Contract → (ideal_block_interval : ℕ) → Option (Option Request)
  unfolding get_contract_data_for_header_range find_block_to_step_to request_header_range
  find_and_request_header_range contract ideal_block_interval = do
    let d = get_contract_data_for_header_range contract rpc
    let current_authority_set_id = rpc.get_authority_set_id (previous d.vectorx_latest_block)
    last_justified ← last_justified_block rpc current_authority_set_id
    if (d.vectorx_latest_block == last_justified) && not d.next_authority_set_hash_exists
        then some none
        else do
          let request_authority_set_id =
              if d.vectorx_latest_block == last_justified
              then (current_authority_set_id + 1) % 2 ^ 64
              else current_authority_set_id
          block_to_step_to ←
              find_block_to_step_to ideal_block_interval d.header_range_commitment_tree_size
                d.vectorx_latest_block d.avail_current_block request_authority_set_id
          elim block_to_step_to [
            | none ↦ some none
            | some target ↦ some (
                some (
                  request_header_range contract d.vectorx_latest_block request_authority_set_id
                    target d.header_range_function_id))
          ]
