-- ===== src/Tests/Justifications.antt =====
-- The properties of the decoders and of justifications, at concrete inputs.
use kno_vectorx.Common.{
  ℕ, ◌<◌, ◌≡◌, refl, true, false, none, some, [], ◌∷◌, ◌++◌, length, take, arith, bytes_eq,
}
use kno_vectorx.Plonky2x.{documented, documented-IsDocumented}
use kno_vectorx.Vars.{JustificationVariable}
use kno_vectorx.Decoder.{decode_compact_int, get_compact_int_byte_length, decode_precommit}
use kno_vectorx.Decoder.Compact.{
  encode_compact, decode_compact_int-meaning, decode_compact_int-encode,
}
use kno_vectorx.Decoder.Precommits.{
  encode_precommit, to_variable, length-encode_precommit, decode_precommit-eq-fetcher,
  decode_precommit-encode,
}
use kno_vectorx.Justification.{
  compute_authority_set_commitment, verify_voting_threshold, verify_simple_justification,
}
use kno_vectorx.Justification.Commitment.{compute_authority_set_commitment-eq-hash}
use kno_vectorx.Justification.Threshold.{verify_voting_threshold-eq}
use kno_vectorx.Justification.Soundness.{Justified, verify_simple_justification-Justified}
use kno_vectorx.Justification.Complete.{SignedAll, with_votes, verify_simple_justification-accepts}
use kno_vectorx.Justification.Wrap.{half_of_u32, verify_simple_justification-wrapped}
use kno_vectorx.Justification.Forgery.{verify_simple_justification-padding}
use kno_vectorx.Fetcher.Authorities
use kno_vectorx.Fetcher.Authorities.{get_authorities, compute_authority_set_hash}
use kno_vectorx.Fetcher.Justifications.{hint_simple_justification}
use kno_vectorx.Fetcher.Justifications.Accepted.{hint_simple_justification-accepted}
use kno_vectorx.Tests.Instances.{
  toy, toy-IsSound, toy_rpc, toy_libs, key_a, key_b, signature_a, block_hash,
}

decode_compact_int-meaning_example :
    decode_compact_int documented toy (21 ∷ 1 ∷ 7 ∷ 7 ∷ 7 ∷ []) ≡ some (69, 1)
decode_compact_int-meaning_example =
    decode_compact_int-meaning documented documented-IsDocumented toy toy-IsSound 21 1 7 7 7
      (omega arith) (omega arith) (omega arith) (omega arith) (omega arith)

decode_compact_int-encode_example :
    (decode_compact_int documented toy (take 5 (encode_compact 300 ++ 1 ∷ 2 ∷ 3 ∷ 4 ∷ []))
      ≡ some (300, 1))
    × (get_compact_int_byte_length documented toy 1 ≡ length (encode_compact 300))
decode_compact_int-encode_example =
    decode_compact_int-encode documented documented-IsDocumented toy toy-IsSound 300 1 2 3 4
      (omega arith) (omega arith) (omega arith) (omega arith) (omega arith)

decode_precommit-eq-fetcher_example :
    decode_precommit documented toy (encode_precommit block_hash 20 3 4)
    ≡ to_variable (Authorities.decode_precommit (encode_precommit block_hash 20 3 4))
decode_precommit-eq-fetcher_example =
    decode_precommit-eq-fetcher documented documented-IsDocumented toy
      (encode_precommit block_hash 20 3 4) (length-encode_precommit block_hash 20 3 4 refl)

decode_precommit-encode_example :
    decode_precommit documented toy (encode_precommit block_hash 20 3 4)
    ≡ some (record {
      block_hash = block_hash;
      block_number = 20;
      justification_round = 3;
      authority_set_id = 4;
    })
decode_precommit-encode_example =
    decode_precommit-encode documented documented-IsDocumented toy block_hash 20 3 4 refl
      (omega arith) (omega arith) (omega arith)

compute_authority_set_commitment-eq-hash_example :
    (◌≡◌ {A = ℕ} 2 0
      → compute_authority_set_commitment documented toy 2 (key_a ∷ key_b ∷ key_a ∷ []) ≡ none)
    × (0 < 2
        → compute_authority_set_commitment documented toy 2 (key_a ∷ key_b ∷ key_a ∷ [])
          ≡ some (compute_authority_set_hash toy.sha256 (key_a ∷ key_b ∷ [])))
compute_authority_set_commitment-eq-hash_example =
    compute_authority_set_commitment-eq-hash documented documented-IsDocumented toy 2 key_a
      (key_b ∷ key_a ∷ [])

verify_voting_threshold-eq_example :
    verify_voting_threshold documented toy 3 (true ∷ true ∷ false ∷ []) 2 3 ≡ none
verify_voting_threshold-eq_example =
    verify_voting_threshold-eq documented documented-IsDocumented toy 3 (true ∷ true ∷ false ∷ [])
      (omega arith) (omega arith)

-- One authority of one signs.
abbrev one_vote : JustificationVariable
one_vote =
    with_votes (encode_precommit block_hash 20 3 4) (true ∷ false ∷ [])
      (signature_a ∷ signature_a ∷ []) (key_a ∷ key_b ∷ []) 1

one_signed :
    SignedAll toy.ed25519
      (encode_precommit block_hash 20 3 4)
      (true ∷ false ∷ [])
      (signature_a ∷ signature_a ∷ [])
      (key_a ∷ key_b ∷ [])
unfolding SignedAll bytes_eq
one_signed = (refl, tt)

verify_simple_justification-accepts_example :
    verify_simple_justification documented toy 2 20 block_hash 4
      (compute_authority_set_hash toy.sha256 (key_a ∷ []))
      one_vote
    ≡ some tt
verify_simple_justification-accepts_example =
    verify_simple_justification-accepts documented documented-IsDocumented toy toy-IsSound 2 1 20 3
      4 block_hash key_a (key_b ∷ []) (signature_a ∷ signature_a ∷ []) (true ∷ false ∷ []) refl
      (omega arith) (omega arith) (omega arith) (omega arith) (omega arith) (omega arith) one_signed
      (omega arith)

accepted_vote :
    verify_simple_justification documented toy 2 20 block_hash 4
      (compute_authority_set_hash toy.sha256 (key_a ∷ []))
      one_vote
    ≡ some tt
accepted_vote =
    verify_simple_justification-accepts documented documented-IsDocumented toy toy-IsSound 2 1 20 3
      4 block_hash key_a (key_b ∷ []) (signature_a ∷ signature_a ∷ []) (true ∷ false ∷ []) refl
      (omega arith) (omega arith) (omega arith) (omega arith) (omega arith) (omega arith) one_signed
      (omega arith)

verify_simple_justification-Justified_example :
    Justified toy 2 20 block_hash 4 (compute_authority_set_hash toy.sha256 (key_a ∷ [])) one_vote
verify_simple_justification-Justified_example =
    verify_simple_justification-Justified documented documented-IsDocumented toy toy-IsSound 2 20
      block_hash 4 (compute_authority_set_hash toy.sha256 (key_a ∷ [])) one_vote (omega arith)
      (omega arith) (omega arith) accepted_vote

verify_simple_justification-padding_example :
    verify_simple_justification documented toy 2 20 block_hash 4
      (compute_authority_set_hash toy.sha256 (key_b ∷ []))
      (with_votes
        (encode_precommit block_hash 20 3 4)
        (false ∷ true ∷ [])
        (signature_a ∷ signature_a ∷ [])
        (key_b ∷ key_a ∷ [])
        1)
    ≡ some tt
unfolding bytes_eq
verify_simple_justification-padding_example =
    verify_simple_justification-padding documented documented-IsDocumented toy toy-IsSound 1 20 3 4
      block_hash key_b [] key_a signature_a refl (omega arith) (omega arith) (omega arith)
      (omega arith) (omega arith) refl

-- One of two authorities signs, and the number of authorities wraps.
verify_simple_justification-wrapped_example :
    verify_simple_justification documented toy 2 20 block_hash 4
      (compute_authority_set_hash toy.sha256 (key_a ∷ key_b ∷ []))
      (with_votes
        (encode_precommit block_hash 20 3 4)
        (true ∷ false ∷ [])
        (signature_a ∷ signature_a ∷ [])
        (key_a ∷ key_b ∷ [])
        half_of_u32)
    ≡ some tt
verify_simple_justification-wrapped_example =
    verify_simple_justification-wrapped documented documented-IsDocumented toy toy-IsSound 2 20 3 4
      block_hash key_a (key_b ∷ []) (signature_a ∷ signature_a ∷ []) (true ∷ false ∷ []) refl
      (omega arith) (omega arith) (omega arith) (omega arith) (omega arith) (omega arith) one_signed

abbrev fetched_vote : JustificationVariable
fetched_vote =
    with_votes (encode_precommit block_hash 20 3 4) (true ∷ false ∷ [])
      (signature_a ∷ signature_a ∷ []) (key_a ∷ key_b ∷ []) 1

hint_answers : hint_simple_justification toy_libs toy_rpc (λ n. none) 2 20 4 ≡ some fetched_vote
unfolding hint_simple_justification get_authorities bytes_eq encode_precommit
hint_answers = refl

hint_simple_justification-accepted_example :
    verify_simple_justification documented toy 2 20 block_hash 4
      (compute_authority_set_hash toy.sha256 (key_a ∷ []))
      fetched_vote
    ≡ some tt
hint_simple_justification-accepted_example =
    hint_simple_justification-accepted documented documented-IsDocumented toy toy-IsSound toy_libs
      toy_rpc (λ n. none) 2 20 3 4 block_hash fetched_vote (λ k m s e. e) hint_answers refl refl
      (omega arith) (omega arith) (omega arith) (omega arith) (omega arith) (omega arith)
