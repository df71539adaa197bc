-- ===== src/Justification/Forgery.antt =====
-- Votes of entries past the active authorities, in the check of justification.rs.
use kno_vectorx.Common.{
  ℕ, zero, suc, ◌+◌, ◌*◌, ◌^◌, ◌<◌, ◌≡◌, refl, subst, ◌∙◌, some, List, [], ◌∷◌, ◌++◌, Bool, true,
  false, Bytes, length, replicate, take, arith, length-append, length-replicate, take_exact,
}
use kno_vectorx.Plonky2x.{Gates, Gadgets, IsDocumented, IsSound}
use kno_vectorx.Decoder.Precommits.{encode_precommit}
use kno_vectorx.Justification.{verify_simple_justification}
use kno_vectorx.Justification.Threshold.{
  signed_count, signed_count-append, signed_count-true, signed_count-false,
}
use kno_vectorx.Justification.Complete.{SignedAll, with_votes, verify_simple_justification-accepts}
use kno_vectorx.Fetcher.Authorities.{compute_authority_set_hash}

-- No authority of the set has signed; all of the `m` entries after the set have.
abbrev pub padding_flags : (n m : ℕ) → List Bool
padding_flags n m = replicate n false ++ replicate m true

padding_SignedAll :
    (verify : Bytes → Bytes → Bytes → Bool) (p key signature : Bytes) (m : ℕ) (keys : List Bytes)
    → verify key p signature ≡ true
    → SignedAll verify p
        (padding_flags (length keys) m)
        (replicate (length keys) signature ++ replicate m signature)
        (keys ++ replicate m key)
unfolding SignedAll
padding_SignedAll verify p key signature zero [] v = tt
padding_SignedAll verify p key signature (suc m) [] v =
    (v, padding_SignedAll verify p key signature m [] v)
padding_SignedAll verify p key signature m (k ∷ keys) v =
    padding_SignedAll verify p key signature m keys v

module _ (g : Gates) (gates : IsDocumented g) (G : Gadgets) (sound : IsSound G) where
  -- Entries after the active authorities vote: given any one key with a signature over the encoded
  -- precommit of a block, that key repeated `m` times after the committed keys, with `3 m` greater
  -- than `2 n`, makes a justification that the circuit accepts against the commitment to the `n`
  -- keys, of which none has signed.
  pub verify_simple_justification-padding :
      (m block_number round authority_set_id : ℕ) (block_hash k : Bytes) (ks : List Bytes)
      (key signature : Bytes)
      → length block_hash ≡ 32
      → block_number < 2 ^ 32
      → round < 2 ^ 64
      → authority_set_id < 2 ^ 64
      → length (k ∷ ks) * 2 < m * 3
      → length (k ∷ ks) + m < 1431655765
      → G.ed25519 key (encode_precommit block_hash block_number round authority_set_id) signature
        ≡ true
      → verify_simple_justification g G
          (length (k ∷ ks) + m)
          block_number
          block_hash
          authority_set_id
          (compute_authority_set_hash G.sha256 (k ∷ ks))
          (with_votes
            (encode_precommit block_hash block_number round authority_set_id)
            (padding_flags (length (k ∷ ks)) m)
            (replicate (length (k ∷ ks)) signature ++ replicate m signature)
            ((k ∷ ks) ++ replicate m key)
            (length (k ∷ ks)))
        ≡ some tt
  verify_simple_justification-padding m block_number round authority_set_id block_hash k ks key
        signature e hn hr ha th size v =
      let n = length (k ∷ ks) in
      let flags = padding_flags n m in
      let gs = replicate n signature ++ replicate m signature in
      let active : take n (k ∷ (ks ++ replicate m key)) ≡ k ∷ ks =
        take_exact n (k ∷ ks) (replicate m key) refl in
      let count : signed_count flags ≡ m =
        signed_count-append (replicate n false) (replicate m true)
        ∙ omega (arith, signed_count-false n, signed_count-true m) in
      let len : length flags ≡ n + m = omega (
        arith,
        length-append (replicate n false) (replicate m true),
        length-replicate n false,
        length-replicate m true,
      ) in
      let p = encode_precommit block_hash block_number round authority_set_id in
      subst
        (λ keys.
          verify_simple_justification g G (n + m) block_number block_hash authority_set_id
            (compute_authority_set_hash G.sha256 keys)
            (with_votes p flags gs ((k ∷ ks) ++ replicate m key) n)
          ≡ some tt)
        active
        (verify_simple_justification-accepts g gates G sound (n + m) n block_number round
          authority_set_id block_hash k (ks ++ replicate m key) gs flags e hn hr ha (omega arith)
          (omega arith) (omega arith) (padding_SignedAll G.ed25519 p key signature m (k ∷ ks) v)
          (omega arith))
