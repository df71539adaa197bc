-- ===== src/Tests/Forgeries.antt =====
-- Rotations that the circuit accepts although the header does not list the new authorities alone.
use kno_vectorx.Common.{
  ℕ, zero, suc, ◌<◌, ◌≡◌, refl, ap, length, get_or, drop, true, some, [], ◌∷◌, ◌++◌, Bytes,
  replicate, arith, bytes_eq,
}
use kno_vectorx.Plonky2x.{
  documented, documented-IsDocumented, le_value, le_bits, all_signed_valid, be_value,
}
use kno_vectorx.Vars.{JustificationVariable, RotateVariable}
use kno_vectorx.Decoder.{decode_precommit, hash_encoded_header, decode_compact_int}
use kno_vectorx.Decoder.Precommits.{encode_precommit}
use kno_vectorx.Justification.{verify_simple_justification}
use kno_vectorx.Justification.Complete.{with_votes}
use kno_vectorx.Fetcher.Authorities.{compute_authority_set_hash}
use kno_vectorx.Rotate.{rotate}
use kno_vectorx.Rotate.EpochEnd.{EpochEnd}
use kno_vectorx.Rotate.Truncated.{rotate-truncated}
use kno_vectorx.Rotate.Unhashed.{with_tail, rotation_with, rotate-unhashed}
use kno_vectorx.Tests.Instances.{
  toy, toy-IsSound, first_bytes, key_a, key_b, signature_a, block_hash,
}

-- A log of a key that is not in the header, after a header of 64 bytes.
abbrev forged_log : Bytes
forged_log =
    6 ∷ 4 ∷ 70 ∷ 82 ∷ 78 ∷ 75 ∷ 184 ∷ 1 ∷ 4 ∷ (key_b ++ (1 ∷ replicate 11 0 ++ replicate 20 0))

abbrev plain_header : Bytes
plain_header = replicate 32 9 ++ block_hash

forged-EpochEnd : EpochEnd documented toy forged_log 0 1 (key_b ∷ [])
unfolding decode_compact_int le_value le_bits
forged-EpochEnd = record {
  message_length = 46;
  message_mode = 0;
  size_mode = 0;
  active = omega arith;
  engine = refl;
  message = refl;
  flag = refl;
  size = refl;
  authorities = refl;
}

abbrev plain_vote : JustificationVariable
plain_vote =
    with_votes (encode_precommit block_hash 20 7 4) (true ∷ []) (signature_a ∷ []) (key_a ∷ []) 1

plain_accepted :
    verify_simple_justification documented toy 1 20
      (hash_encoded_header documented toy (with_tail plain_header []))
      4
      key_a
      plain_vote
    ≡ some tt
unfolding le_value le_bits bytes_eq hash_encoded_header all_signed_valid be_value decode_precommit
    encode_precommit verify_simple_justification
plain_accepted = refl

forged_width : (i : ℕ) → i < 1 → length (get_or (key_b ∷ []) i []) ≡ 32
forged_width zero h = refl
forged_width (suc i) h = absurd (omega arith)

rotate-unhashed_example :
    rotate documented toy 1 44 4 key_a
      (rotation_with 20 (with_tail plain_header forged_log) 1 64 (key_b ∷ []))
      plain_vote
    ≡ some (compute_authority_set_hash toy.sha256 (key_b ∷ []))
rotate-unhashed_example =
    rotate-unhashed documented documented-IsDocumented toy toy-IsSound
      (λ x y n e. ap (λ z. first_bytes (drop 32 z)) e) 1 44 4 20 0 1 key_a plain_header []
      forged_log key_b [] plain_vote refl (omega arith) (omega arith) (omega arith) (omega arith)
      forged_width forged-EpochEnd plain_accepted

-- A header that lists two authorities, in a circuit with room for one.
abbrev two_authorities : Bytes
two_authorities =
    6
    ∷ 4
    ∷ 70
    ∷ 82
    ∷ 78
    ∷ 75
    ∷ 89
    ∷ 1
    ∷ 1
    ∷ 8
    ∷ (key_b ++ (1 ∷ (replicate 7 0 ++ (key_a ++ (1 ∷ (replicate 7 0 ++ replicate 4 0))))))

abbrev truncated : RotateVariable
truncated =
    rotation_with 20 (record { header_bytes = plain_header ++ two_authorities; header_size = 158 })
      2 64 (key_b ∷ [])

two-EpochEnd : EpochEnd documented toy (plain_header ++ two_authorities) 64 2 (key_b ∷ key_a ∷ [])
unfolding decode_compact_int le_value le_bits
two-EpochEnd = record {
  message_length = 86;
  message_mode = 1;
  size_mode = 0;
  active = omega arith;
  engine = refl;
  message = refl;
  flag = refl;
  size = refl;
  authorities = refl;
}

truncated_vote_accepted :
    verify_simple_justification documented toy 1 20
      (hash_encoded_header documented toy truncated.target_header)
      4
      key_a
      plain_vote
    ≡ some tt
unfolding le_value le_bits bytes_eq hash_encoded_header all_signed_valid be_value decode_precommit
    encode_precommit verify_simple_justification
truncated_vote_accepted = refl

rotate-truncated_example :
    rotate documented toy 1 44 4 key_a truncated plain_vote
    ≡ some (compute_authority_set_hash toy.sha256 (key_b ∷ []))
rotate-truncated_example =
    rotate-truncated documented documented-IsDocumented toy toy-IsSound 44 4 key_a truncated
      plain_vote (key_a ∷ []) refl (omega arith) (omega arith) (omega arith) refl (omega arith)
      (omega arith) forged_width two-EpochEnd truncated_vote_accepted
