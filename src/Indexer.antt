-- ===== src/Indexer.antt =====
-- bin/indexer.rs: the justifications that the node announces are checked and stored in Redis. A panic
-- is `none`. `SignedAll` is the one of the justification circuit.
pub mod Repeated
pub mod Listening
pub mod Stored
use kno_vectorx.Common.{
  ℕ, ◌+◌, ◌*◌, ◌/◌, Bool, true, false, ◌&&◌, Option, none, some, List, [], ◌∷◌, Bytes, length,
  get_elem?, leb, bytes_eq, if◌then◌else◌, assert, ◌>>=◌, ◌>>◌,
}
use kno_vectorx.Vars.{GrandpaJustification, SignedPrecommit, StoredJustificationData}
use kno_vectorx.Fetcher.Rpc.{Rpc, Libraries, Header}
use kno_vectorx.Fetcher.Authorities.{get_authorities}
use kno_vectorx.Fetcher.Justifications.{previous, signature_of}
use kno_vectorx.Redis.{Server, add_justification}

-- What is asked of the node for a block hash, and the hash function of its headers.
pub record Node : Type 0 where
  -- chain_get_header
  pub header_of : Bytes → Header
  -- storage().grandpa().current_set_id()
  pub set_id_at : Bytes → ℕ
  pub blake2_256 : Bytes → Bytes

-- The vectors that the loop over the authorities fills.
pub record Entries : Type 0 where
  pub pubkeys : List Bytes
  pub signatures : List Bytes
  pub validator_signed : List Bool

module _ (libs : Libraries) where
  -- The `filter_map`: the keys and signatures of the precommits that verify.
  unfoldable pub verified : (signed_message : Bytes) → List SignedPrecommit → List (Bytes × Bytes)
  verified signed_message [] = []
  verified signed_message (precommit ∷ precommits) =
      let rest = verified signed_message precommits in
      if libs.ed25519_verify precommit.id signed_message precommit.signature
      then (precommit.id, precommit.signature) ∷ rest
      else rest

  unfoldable pub fill_entries : List (Bytes × Bytes) → List Bytes → Entries
  unfolding signature_of
  fill_entries pubkey_to_signature [] = record {
    pubkeys = [];
    signatures = [];
    validator_signed = [];
  }
  fill_entries pubkey_to_signature (authority_pubkey ∷ authorities) =
      let rest = fill_entries pubkey_to_signature authorities in
      elim (signature_of pubkey_to_signature authority_pubkey) [
        | some signature ↦ record {
          pubkeys = authority_pubkey ∷ rest.pubkeys;
          signatures = signature ∷ rest.signatures;
          validator_signed = true ∷ rest.validator_signed;
        }
        | none ↦ record {
          pubkeys = authority_pubkey ∷ rest.pubkeys;
          signatures = libs.dummy_signature ∷ rest.signatures;
          validator_signed = false ∷ rest.validator_signed;
        }
      ]

-- `HashMap::insert` of each pair: a later signature replaces an earlier one of the same key.
unfoldable pub insert_all : List (Bytes × Bytes) → List (Bytes × Bytes) → List (Bytes × Bytes)
insert_all pubkey_to_signature [] = pubkey_to_signature
insert_all pubkey_to_signature (pair ∷ pairs) = insert_all (pair ∷ pubkey_to_signature) pairs

module _ (libs : Libraries) (rpc : Rpc) (node : Node) (r : Server) (connects : ℕ → Bool)
    (avail_chain_id : Bytes) where
  -- What is stored for a justification: nothing, if too few precommits verify.
  unfoldable pub justification_data : GrandpaJustification → Option (Option StoredJustificationData)
  unfolding verified insert_all fill_entries
  justification_data justification = do
    let block_hash = justification.commit.target_hash
    let header = node.header_of block_hash
    let calculated_hash = node.blake2_256 header.encoded
    assert (bytes_eq header.hash calculated_hash && bytes_eq block_hash calculated_hash)
    let authority_set_id = node.set_id_at block_hash
    first ← get_elem? justification.commit.precommits 0
    let signed_message =
        libs.encode_precommit_message first.precommit justification.round authority_set_id
    let validators = verified libs signed_message justification.commit.precommits
    let pubkey_to_signature = insert_all [] validators
    authorities ← get_authorities rpc (previous header.number)
    let num_authorities = length authorities
    let signed_count = length validators
    let required_signatures = num_authorities * 2 / 3
    let entries = fill_entries libs pubkey_to_signature authorities
    elim (leb signed_count required_signatures) [
      | true ↦ some none
      | false ↦ some (
          some (record {
            block_number = header.number;
            signed_message = signed_message;
            pubkeys = entries.pubkeys;
            signatures = entries.signatures;
            validator_signed = entries.validator_signed;
            num_authorities = num_authorities;
          }))
    ]

  -- A round of the loop.
  unfoldable pub index_justification : GrandpaJustification → r.State → Option r.State
  unfolding justification_data
  index_justification justification s = do
    store_justification_data ← justification_data justification
    elim store_justification_data [
      | none ↦ some s
      | some data_ ↦ add_justification r connects avail_chain_id data_ s
    ]

  -- The loop over the announced justifications, until the subscription ends.
  unfoldable pub listen_for_justifications : List GrandpaJustification → r.State → Option r.State
  unfolding index_justification
  listen_for_justifications [] s = some s
  listen_for_justifications (justification ∷ rest) s = do
    t ← index_justification justification s
    listen_for_justifications rest t
