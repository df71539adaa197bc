-- ===== src/Vars.antt =====
-- circuits/vars.rs and circuits/input/types.rs: the structures that circuits and fetcher exchange.
-- A `U32Variable`, `U64Variable` or `Variable` is a number, a `Bytes32Variable` a byte string.
use kno_vectorx.Common.{ℕ, Bool, List, Bytes}

pub record EncodedHeader : Type 0 where
  pub header_bytes : Bytes
  pub header_size : ℕ

pub record HeaderVariable : Type 0 where
  pub block_number : ℕ
  pub parent_hash : Bytes
  pub state_root : Bytes
  pub data_root : Bytes

pub record PrecommitVariable : Type 0 where
  pub block_hash : Bytes
  pub block_number : ℕ
  pub justification_round : ℕ
  pub authority_set_id : ℕ

pub record JustificationVariable : Type 0 where
  pub encoded_precommit : Bytes
  pub validator_signed : List Bool
  pub signatures : List Bytes
  pub pubkeys : List Bytes
  pub num_authorities : ℕ

pub record RotateVariable : Type 0 where
  pub epoch_end_block_number : ℕ
  pub target_header : EncodedHeader
  pub target_header_num_authorities : ℕ
  pub next_authority_set_start_position : ℕ
  pub new_pubkeys : List Bytes

pub record SubchainVerificationVariable : Type 0 where
  pub target_header_hash : Bytes
  pub state_root_merkle_root : Bytes
  pub data_root_merkle_root : Bytes

-- types.rs

pub record HeaderRotateData : Type 0 where
  pub header_bytes : Bytes
  pub header_size : ℕ
  pub num_authorities : ℕ
  pub start_position : ℕ
  pub end_position : ℕ
  pub new_authority_set_hash : Bytes
  pub padded_pubkeys : List Bytes

pub record StoredJustificationData : Type 0 where
  pub block_number : ℕ
  pub signed_message : Bytes
  pub pubkeys : List Bytes
  pub signatures : List Bytes
  pub validator_signed : List Bool
  pub num_authorities : ℕ

pub record CircuitJustification : Type 0 where
  pub authority_set_id : ℕ
  pub signed_message : Bytes
  pub validator_signed : List Bool
  pub pubkeys : List Bytes
  pub signatures : List Bytes
  pub num_authorities : ℕ
  pub current_authority_set_hash : Bytes

pub record SimpleJustificationData : Type 0 where
  pub pubkeys : List Bytes
  pub signatures : List Bytes
  pub validator_signed : List Bool
  pub signed_message : Bytes
  pub voting_weight : ℕ
  pub num_authorities : ℕ

pub record Precommit : Type 0 where
  pub target_hash : Bytes
  pub target_number : ℕ

pub record SignedPrecommit : Type 0 where
  pub precommit : Precommit
  pub signature : Bytes
  pub id : Bytes

pub record Commit : Type 0 where
  pub target_hash : Bytes
  pub target_number : ℕ
  pub precommits : List SignedPrecommit

pub record GrandpaJustification : Type 0 where
  pub round : ℕ
  pub commit : Commit

pub data SignerMessage : Type 0 where
  dummy_message : ℕ → SignerMessage
  precommit_message : Precommit → SignerMessage
