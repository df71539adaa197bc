-- ===== src/Fetcher/Justifications.antt =====
-- Justifications in circuits/input/mod.rs, and the hint of circuits/builder/justification.rs that
-- feeds them to the circuit. A panic or an error is `none`; `stored` is what Redis has for a block.
pub mod Accepted
use kno_vectorx.Common.{
  ℕ, zero, suc, ◌+◌, ◌-◌, ◌*◌, ◌%◌, ◌^◌, Bool, true, false, not, Option, none, some, List, [], ◌∷◌,
  ◌++◌, Bytes, length, get_elem?, replicate, ltb, leb, ◌==◌, bytes_eq, if◌then◌else◌, assert, ◌>>=◌,
  ◌>>◌,
}
use kno_vectorx.Vars.{
  StoredJustificationData, CircuitJustification, SimpleJustificationData, SignedPrecommit,
  JustificationVariable,
}
use kno_vectorx.Fetcher.Rpc.{Rpc, Libraries}
use kno_vectorx.Fetcher.Authorities.{get_authorities, compute_authority_set_hash}

-- `block_number - 1` on `u32`.
abbrev pub previous : ℕ → ℕ
previous block_number = (block_number + 2 ^ 32 - 1) % 2 ^ 32

module _ (libs : Libraries) where
  unfoldable pub verify_signature : Bytes → Bytes → Bytes → Option (Unit {0})
  verify_signature pubkey_bytes signed_message signature =
      assert (libs.ed25519_verify pubkey_bytes signed_message signature)

  -- The signatures by public key; a later one replaces an earlier one of the same key.
  unfoldable pub collect_signatures :
      Bytes → List (Bytes × Bytes) → List SignedPrecommit → Option (List (Bytes × Bytes))
  unfolding verify_signature
  collect_signatures signed_message pubkey_bytes_to_signature [] = some pubkey_bytes_to_signature
  collect_signatures signed_message pubkey_bytes_to_signature (precommit ∷ precommits) = do
    verify_signature precommit.id signed_message precommit.signature
    collect_signatures signed_message
        ((precommit.id, precommit.signature) ∷ pubkey_bytes_to_signature) precommits

-- `HashMap::get`
unfoldable pub signature_of : List (Bytes × Bytes) → Bytes → Option Bytes
signature_of [] key = none
signature_of ((k, signature) ∷ rest) key =
    let later = signature_of rest key in if bytes_eq k key then some signature else later

-- The vectors that the loop over the authorities fills.
pub record Votes : Type 0 where
  pub validator_signed : List Bool
  pub signatures : List Bytes
  pub voting_weight : ℕ

module _ (libs : Libraries) where
  unfoldable pub votes_of : List (Bytes × Bytes) → List Bytes → Votes
  unfolding signature_of
  votes_of signed [] = record { validator_signed = []; signatures = []; voting_weight = 0 }
  votes_of signed (key ∷ keys) =
      let rest = votes_of signed keys in
      elim (signature_of signed key) [
        | some valid_signature ↦ record {
          validator_signed = true ∷ rest.validator_signed;
          signatures = valid_signature ∷ rest.signatures;
          voting_weight = 1 + rest.voting_weight;
        }
        | none ↦ record {
          validator_signed = false ∷ rest.validator_signed;
          signatures = libs.dummy_signature ∷ rest.signatures;
          voting_weight = rest.voting_weight;
        }
      ]

unfoldable pub count_votes : List Bool → ℕ
count_votes [] = 0
count_votes (true ∷ ss) = 1 + count_votes ss
count_votes (false ∷ ss) = count_votes ss

-- `CompressedEdwardsY::from_slice(..).unwrap()` of each key.
unfoldable pub compressed_keys : List Bytes → Option (List Bytes)
compressed_keys [] = some []
compressed_keys (key ∷ keys) = do
  assert (length key == 32)
  rest ← compressed_keys keys
  some (key ∷ rest)

module _ (libs : Libraries) (rpc : Rpc) (stored : ℕ → Option StoredJustificationData)
    (validator_set_size_max : ℕ) where
  -- The branch of an epoch end block.
  unfoldable pub chain_justification : ℕ → Option SimpleJustificationData
  unfolding collect_signatures votes_of
  chain_justification block_number = do
    let justification = rpc.prove_finality block_number
    let authority_set_id = rpc.get_authority_set_id (previous block_number)
    authorities ← get_authorities rpc (previous block_number)
    assert (leb (length authorities) validator_set_size_max)
    first ← get_elem? justification.commit.precommits 0
    let signed_message =
        libs.encode_precommit_message first.precommit justification.round authority_set_id
    signed ← collect_signatures libs signed_message [] justification.commit.precommits
    let votes = votes_of libs signed authorities
    some (record {
      pubkeys = authorities;
      signatures = votes.signatures;
      validator_signed = votes.validator_signed;
      signed_message = signed_message;
      voting_weight = votes.voting_weight;
      num_authorities = length authorities;
    })

  -- The branch of any other block.
  unfoldable pub stored_justification : ℕ → Option SimpleJustificationData
  unfolding count_votes compressed_keys
  stored_justification block_number = do
    found ← stored block_number
    pubkeys ← compressed_keys found.pubkeys
    some (record {
      pubkeys = pubkeys;
      signatures = found.signatures;
      validator_signed = found.validator_signed;
      signed_message = found.signed_message;
      voting_weight = count_votes found.validator_signed;
      num_authorities = found.num_authorities;
    })

  unfoldable pub get_justification_data : ℕ → Option SimpleJustificationData
  unfolding chain_justification stored_justification
  get_justification_data block_number =
      let curr_authority_set_id = rpc.get_authority_set_id block_number in
      let prev_authority_set_id = rpc.get_authority_set_id (previous block_number) in
      if curr_authority_set_id == (prev_authority_set_id + 1) % 2 ^ 64
      then chain_justification block_number
      else stored_justification block_number

-- The first `rounds` entries from `i` on; indexing past the end panics.
unfoldable pub active_entries :
    SimpleJustificationData → (rounds i : ℕ) → Option (List Bytes × List Bytes × List Bool)
active_entries d zero i = some ([], [], [])
active_entries d (suc rounds) i = do
  key ← get_elem? d.pubkeys i
  signature ← get_elem? d.signatures i
  assert (length signature == 64)
  signed ← get_elem? d.validator_signed i
  (keys, signatures, flags) ← active_entries d rounds (i + 1)
  some (key ∷ keys, signature ∷ signatures, signed ∷ flags)

module _ (libs : Libraries) (rpc : Rpc) (stored : ℕ → Option StoredJustificationData)
    (validator_set_size_max : ℕ) where
  unfoldable pub get_justification_from_block : ℕ → Option CircuitJustification
  unfolding get_justification_data active_entries
  get_justification_from_block block_number = do
    d ← get_justification_data libs rpc stored validator_set_size_max block_number
    let current_authority_set_id = rpc.get_authority_set_id (previous block_number)
    let current_authority_set_hash = compute_authority_set_hash libs.sha256 d.pubkeys
    assert (not (ltb (d.voting_weight * 3) (d.num_authorities * 2)))
    (keys, signatures, flags) ← active_entries d d.num_authorities 0
    let padding = validator_set_size_max - d.num_authorities
    some (record {
      authority_set_id = current_authority_set_id;
      signed_message = d.signed_message;
      validator_signed = flags ++ replicate padding false;
      pubkeys = keys ++ replicate padding libs.dummy_public_key;
      signatures = signatures ++ replicate padding libs.dummy_signature;
      num_authorities = d.num_authorities;
      current_authority_set_hash = current_authority_set_hash;
    })

  -- The loop over the active entries, of which those that signed are verified.
  unfoldable pub verify_flagged :
      Bytes → List Bool → List Bytes → List Bytes → ℕ → Option (Unit {0})
  unfolding verify_signature
  verify_flagged message flags keys signatures zero = some tt
  verify_flagged message (true ∷ flags) (key ∷ keys) (signature ∷ signatures) (suc rounds) = do
    verify_signature libs key message signature
    verify_flagged message flags keys signatures rounds
  verify_flagged message (false ∷ flags) (key ∷ keys) (signature ∷ signatures) (suc rounds) =
      verify_flagged message flags keys signatures rounds
  verify_flagged message _ _ _ (suc rounds) = none

  -- `HintSimpleJustification`
  unfoldable pub hint_simple_justification :
      (block_number authority_set_id : ℕ) → Option JustificationVariable
  unfolding get_justification_from_block verify_flagged
  hint_simple_justification block_number authority_set_id = do
    d ← get_justification_from_block block_number
    assert (d.authority_set_id == authority_set_id)
    let encoded_precommit = d.signed_message
    assert (length encoded_precommit == 53)
    verify_flagged encoded_precommit d.validator_signed d.pubkeys d.signatures d.num_authorities
    some (record {
      encoded_precommit = encoded_precommit;
      validator_signed = d.validator_signed;
      signatures = d.signatures;
      pubkeys = d.pubkeys;
      num_authorities = d.num_authorities % 2 ^ 32;
    })
