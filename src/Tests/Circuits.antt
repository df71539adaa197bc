-- ===== src/Tests/Circuits.antt =====
-- The properties of the circuits, at a chain of two headers and at an epoch end header.
use kno_vectorx.Common.{
  ℕ, ◌*◌, ◌≡◌, refl, true, some, List, [], ◌∷◌, ◌++◌, Bytes, replicate, arith, bytes_eq, range_from,
}
use kno_vectorx.Plonky2x.{
  documented, documented-IsDocumented, tree_reduce, le_value, le_bits, tree_root, hash_level,
  enable_leaves, all_signed_valid, be_value,
}
use kno_vectorx.Vars.{
  EncodedHeader, JustificationVariable, RotateVariable, SubchainVerificationVariable,
}
use kno_vectorx.Decoder.{decode_precommit, decode_header, hash_encoded_header}
use kno_vectorx.Decoder.Precommits.{encode_precommit}
use kno_vectorx.Justification.Complete.{with_votes}
use kno_vectorx.Subchain.{HeaderHint, verify_subchain, next_power_of_two}
use kno_vectorx.Subchain.Soundness.{VerifiedRange, verify_subchain-VerifiedRange}
use kno_vectorx.Programs.{HeaderRangeInput, define_header_range}
use kno_vectorx.Tests.Instances.{
  toy, toy-IsSound, toy_mapreduce, toy_mapreduce-IsTreeReduction, key_a, signature_a, block_hash,
}

-- A header with number `n`, and its hash.
abbrev pub encoded : Bytes → ℕ → EncodedHeader
encoded parent n = record {
  header_bytes = parent ++ (n * 4 ∷ (replicate 32 n ++ replicate 32 5));
  header_size = 97;
}

abbrev pub hash_of : ℕ → Bytes
hash_of n = n * 4 ∷ replicate 31 n

abbrev pub two_headers : HeaderHint
two_headers start end max =
    encoded block_hash 2
    ∷ encoded (hash_of 2) 3
    ∷ replicate 6 (record { header_bytes = []; header_size = 0 })

abbrev pub two_verified : SubchainVerificationVariable
two_verified = record {
  target_header_hash = hash_of 3;
  state_root_merkle_root = replicate 32 2;
  data_root_merkle_root = replicate 32 5;
}

two_accepted :
    verify_subchain documented toy toy_mapreduce 8 two_headers 1 block_hash 3 ≡ some two_verified
unfolding verify_subchain tree_reduce range_from decode_header le_value le_bits bytes_eq
    hash_encoded_header tree_root hash_level enable_leaves
two_accepted = refl

verify_subchain-VerifiedRange_example : VerifiedRange documented toy 8 1 block_hash 3 two_verified
unfolding next_power_of_two
verify_subchain-VerifiedRange_example =
    verify_subchain-VerifiedRange documented documented-IsDocumented toy toy-IsSound toy_mapreduce
      toy_mapreduce-IsTreeReduction two_headers 8 1 block_hash 3 two_verified (λ s e m. refl)
      (omega arith) (omega arith) (omega arith) two_accepted

abbrev pub range_input : HeaderRangeInput
range_input = record {
  trusted_block = 1;
  trusted_header_hash = block_hash;
  authority_set_id = 4;
  authority_set_hash = key_a;
  target_block = 3;
}

abbrev pub range_vote : JustificationVariable
range_vote =
    with_votes (encode_precommit (hash_of 3) 3 7 4) (true ∷ []) (signature_a ∷ []) (key_a ∷ []) 1

abbrev pub range_outputs : List Bytes
range_outputs = hash_of 3 ∷ replicate 32 2 ∷ replicate 32 5 ∷ []

pub range_accepted :
    define_header_range documented toy toy_mapreduce 1 8 two_headers range_vote range_input
    ≡ some range_outputs
unfolding define_header_range tree_reduce range_from decode_header le_value le_bits bytes_eq
    hash_encoded_header tree_root hash_level enable_leaves all_signed_valid be_value
    decode_precommit encode_precommit
range_accepted = refl

-- The consensus log at position 0, with one authority.
abbrev epoch_end_header : EncodedHeader
epoch_end_header = record {
  header_bytes =
      6 ∷ 4 ∷ 70 ∷ 82 ∷ 78 ∷ 75 ∷ 184 ∷ 1 ∷ 4 ∷ (key_a ++ (1 ∷ replicate 11 0 ++ replicate 20 0));
  header_size = 73;
}

abbrev epoch_end : RotateVariable
epoch_end = record {
  epoch_end_block_number = 20;
  target_header = epoch_end_header;
  target_header_num_authorities = 1;
  next_authority_set_start_position = 0;
  new_pubkeys = key_a ∷ [];
}

abbrev epoch_end_hash : Bytes
epoch_end_hash = replicate 9 1 ++ (1 ∷ replicate 22 0)

abbrev epoch_end_vote : JustificationVariable
epoch_end_vote =
    with_votes (encode_precommit epoch_end_hash 20 7 4) (true ∷ []) (signature_a ∷ []) (key_a ∷ [])
      1
