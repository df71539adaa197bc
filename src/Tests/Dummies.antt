-- ===== src/Tests/Dummies.antt =====
-- The dummy header range program, at the proven range of two headers.
use kno_vectorx.Common.{
  ℕ, ◌≡◌, refl, some, [], ◌∷◌, ◌++◌, Bytes, replicate, arith, bytes_eq, range_from,
}
use kno_vectorx.Plonky2x.{
  documented, documented-IsDocumented, tree_root, hash_level, le_value, le_bits, be_value,
  all_signed_valid,
}
use kno_vectorx.Decoder.{decode_header, decode_precommit, hash_encoded_header}
use kno_vectorx.Decoder.Precommits.{encode_precommit}
use kno_vectorx.Justification.{verify_simple_justification}
use kno_vectorx.Justification.Soundness.{verify_simple_justification-Justified}
use kno_vectorx.Subchain.{Block, next_power_of_two}
use kno_vectorx.Subchain.Soundness.{VerifiedRange}
use kno_vectorx.Fetcher.Rpc.{Rpc, Header}
use kno_vectorx.Programs.{read_header_range, dummy_header_range}
use kno_vectorx.Programs.Soundness.{ProvenRange}
use kno_vectorx.Programs.Dummy.{dummy_header_range-eq-circuit}
use kno_vectorx.Tests.Instances.{toy, toy-IsSound, toy_rpc, block_hash, key_a}
use kno_vectorx.Tests.Circuits.{
  encoded, hash_of, two_verified, range_input, range_vote, range_outputs,
}

abbrev header_at : ℕ → Header
header_at n = record {
  number = n;
  parent_hash = block_hash;
  state_root = replicate 32 n;
  data_root = replicate 32 5;
  hash = hash_of n;
  encoded = [];
  digest_logs = [];
}

abbrev node : Rpc
node = record {
  get_header = header_at;
  get_head = header_at 3;
  get_authority_set_id = toy_rpc.get_authority_set_id;
  grandpa_authorities = toy_rpc.grandpa_authorities;
  prove_finality = toy_rpc.prove_finality;
}

abbrev block : Bytes → ℕ → Block
block parent n = record {
  hash = hash_of n;
  header = record {
    block_number = n;
    parent_hash = parent;
    state_root = replicate 32 n;
    data_root = replicate 32 5;
  };
}

two_range : VerifiedRange documented toy 8 1 block_hash 3 two_verified
unfolding tree_root hash_level le_value le_bits decode_header hash_encoded_header next_power_of_two
two_range = record {
  blocks = block block_hash 2 ∷ block (hash_of 2) 3 ∷ [];
  depth = 3;
  size = refl;
  fits = omega arith;
  linked = (refl, refl, (refl, refl, tt));
  decoded = ((encoded block_hash 2, refl, refl), ((encoded (hash_of 2) 3, refl, refl), tt));
  target_hash = refl;
  leaves = refl;
  state_root = refl;
  data_root = refl;
}

vote_accepted :
    verify_simple_justification documented toy 1 3 (hash_of 3) 4 key_a range_vote ≡ some tt
unfolding le_value le_bits bytes_eq all_signed_valid be_value decode_precommit encode_precommit
    verify_simple_justification
vote_accepted = refl

two_proven : ProvenRange documented toy 1 8 range_vote range_input range_outputs
unfolding next_power_of_two
two_proven = record {
  range = two_verified;
  written = refl;
  verified = two_range;
  justified =
      verify_simple_justification-Justified documented documented-IsDocumented toy toy-IsSound 1 3
        (hash_of 3) 4 key_a range_vote (omega arith) (omega arith) (omega arith) vote_accepted;
}

abbrev input_bytes : Bytes
input_bytes =
    0
    ∷ 0
    ∷ 0
    ∷ 1
    ∷ (block_hash ++ (0 ∷ 0 ∷ 0 ∷ 0 ∷ 0 ∷ 0 ∷ 0 ∷ 4 ∷ (key_a ++ (0 ∷ 0 ∷ 0 ∷ 3 ∷ []))))

read_input : read_header_range input_bytes ≡ some range_input
unfolding read_header_range be_value
read_input = refl

dummy_header_range-eq-circuit_example :
    dummy_header_range toy.sha256 node 8 input_bytes
    ≡ some (hash_of 3 ++ (replicate 32 2 ++ replicate 32 5))
unfolding next_power_of_two two_proven two_range range_from
dummy_header_range-eq-circuit_example =
    dummy_header_range-eq-circuit documented toy node 1 8 range_vote range_input range_outputs
      input_bytes two_proven read_input (omega arith) (omega arith) refl refl refl
