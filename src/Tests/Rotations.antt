-- ===== src/Tests/Rotations.antt =====
-- A rotation that completes, on a chain whose block 4 is an epoch end block.
use kno_vectorx.Common.{
  ℕ, ◌/◌, ◌<◌, ◌≤◌, ◌≡◌, refl, true, some, List, [], ◌∷◌, ◌++◌, Bytes, length, replicate, get_or,
  zero, suc, arith, bytes_eq,
}
use kno_vectorx.Plonky2x.{
  documented, documented-IsDocumented, le_value, le_bits, all_signed_valid, be_value,
}
use kno_vectorx.Vars.{JustificationVariable, RotateVariable}
use kno_vectorx.Decoder.{decode_precommit, hash_encoded_header}
use kno_vectorx.Decoder.Compact.{encode_compact}
use kno_vectorx.Decoder.Precommits.{encode_precommit}
use kno_vectorx.Justification.{verify_simple_justification}
use kno_vectorx.Justification.Complete.{with_votes}
use kno_vectorx.Rotate.{rotate, verify_epoch_end_header}
use kno_vectorx.Rotate.Complete.{verify_epoch_end_header-accepts}
use kno_vectorx.Fetcher.Rpc.{Rpc, Libraries, Header, consensus}
use kno_vectorx.Fetcher.Search.{last_justified_block}
use kno_vectorx.Fetcher.Authorities.{get_authorities, compute_authority_set_hash}
use kno_vectorx.Fetcher.RotateData.{grandpa_id, hint_rotate}
use kno_vectorx.Fetcher.RotateData.EpochHeader.{IsEpochEnd, scheduled_change, change_log}
use kno_vectorx.Fetcher.Justifications.{compressed_keys}
use kno_vectorx.Fetcher.RotateData.Sizes.{hint_rotate-sizes}
use kno_vectorx.Fetcher.RotateData.Accepted.{hinted-EpochEnd, rotate-completes}
use kno_vectorx.Tests.Instances.{
  toy, toy-IsSound, toy_rpc, toy_libs, key_a, key_b, signature_a, block_hash,
}

abbrev header_fields : Bytes
header_fields = replicate 96 9 ++ (16 ∷ [])

abbrev keys : List Bytes
keys = key_a ∷ []

abbrev epoch_header : ℕ → Header
epoch_header n = record {
  number = n;
  parent_hash = block_hash;
  state_root = block_hash;
  data_root = block_hash;
  hash = block_hash;
  encoded = header_fields ++ (4 ∷ change_log keys);
  digest_logs = consensus grandpa_id (scheduled_change keys) (change_log keys) ∷ [];
}

abbrev epoch_rpc : Rpc
epoch_rpc = record {
  get_header = epoch_header;
  get_head = epoch_header 23;
  get_authority_set_id = λ n. n / 4;
  grandpa_authorities = λ n. (key_a, 1) ∷ [];
  prove_finality = toy_rpc.prove_finality;
}

abbrev scale_libs : Libraries
scale_libs = record {
  sha256 = toy_libs.sha256;
  ed25519_verify = toy_libs.ed25519_verify;
  encode_compact = encode_compact;
  encode_precommit_message = toy_libs.encode_precommit_message;
  dummy_public_key = key_b;
  dummy_signature = signature_a;
}

block_4 : IsEpochEnd epoch_rpc 4 keys
unfolding get_authorities encode_compact
block_4 = record {
  next_set = refl;
  authorities = refl;
  active = omega arith;
  wide = (refl, tt);
  fields = header_fields;
  fields_length = refl;
  log_count = 4;
  before = [];
  after = [];
  clear = tt;
  logs = refl;
  tail = [];
  encoded = refl;
  octets = ground arith;
}

abbrev answer : RotateVariable
answer = record {
  epoch_end_block_number = 4;
  target_header = record {
    header_bytes = header_fields ++ (4 ∷ (change_log keys ++ replicate 106 0));
    header_size = 150;
  };
  target_header_num_authorities = 1;
  next_authority_set_start_position = 97;
  new_pubkeys = keys;
}

abbrev vote : JustificationVariable
vote = with_votes (encode_precommit block_hash 4 7 0) (true ∷ []) (signature_a ∷ []) keys 1

vote_accepted :
    verify_simple_justification documented toy 1 4
      (hash_encoded_header documented toy answer.target_header)
      0
      key_a
      vote
    ≡ some tt
unfolding le_value le_bits bytes_eq hash_encoded_header all_signed_valid be_value decode_precommit
    encode_precommit verify_simple_justification encode_compact
vote_accepted = refl

found_4 : last_justified_block epoch_rpc 0 ≡ some 4
unfolding last_justified_block
found_4 = refl

rotate-completes_example :
    (hint_rotate scale_libs epoch_rpc 256 1 0 ≡ some answer)
    × (rotate documented toy 1 44 0 key_a answer vote
        ≡ some (compute_authority_set_hash toy.sha256 keys))
unfolding encode_compact block_4
rotate-completes_example =
    rotate-completes scale_libs epoch_rpc 256 1 (λ n h. refl) 4 keys block_4 (omega arith)
      (omega arith) (omega arith) (omega arith) documented documented-IsDocumented toy toy-IsSound
      44 0 key_a vote refl (omega arith) found_4 vote_accepted

one_key : (i : ℕ) → i < 1 → length (get_or keys i []) ≡ 32
one_key zero h = refl
one_key (suc i) h = absurd (omega arith)

verify_epoch_end_header-accepts_example :
    verify_epoch_end_header documented toy 1 44 answer.target_header block_hash 1 97 keys ≡ some tt
unfolding encode_compact block_4
verify_epoch_end_header-accepts_example =
    verify_epoch_end_header-accepts documented documented-IsDocumented toy toy-IsSound 1 44 97 1
      answer.target_header block_hash keys refl (omega arith) (omega arith) (omega arith)
      (omega arith) one_key
      (hinted-EpochEnd scale_libs epoch_rpc 256 1 (λ n h. refl) 4 keys block_4 (omega arith)
        (omega arith) (omega arith) (omega arith) documented documented-IsDocumented toy
        toy-IsSound)

answered_4 : hint_rotate scale_libs epoch_rpc 256 1 0 ≡ some answer
unfolding hint_rotate encode_compact last_justified_block get_authorities bytes_eq compressed_keys
answered_4 = refl

hint_rotate-sizes_example :
    (length answer.target_header.header_bytes ≡ 256)
    × (150 ≤ 256)
    × (length keys ≡ 1)
    × (1 ≤ 1)
    × ((i : ℕ) → i < 1 → length (get_or keys i []) ≡ 32)
unfolding encode_compact
hint_rotate-sizes_example = hint_rotate-sizes scale_libs epoch_rpc 256 1 0 answer answered_4
