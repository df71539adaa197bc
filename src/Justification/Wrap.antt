-- ===== src/Justification/Wrap.antt =====
-- A number of authorities that wraps, in the check of justification.rs.
use kno_vectorx.Common.{
  ℕ, ◌*◌, ◌%◌, ◌^◌, ◌≤◌, ◌<◌, ◌≡◌, refl, subst, ◌∙◌, some, List, ◌∷◌, Bool, Bytes, length, take_all,
  lt→ltb, arith,
}
use kno_vectorx.Plonky2x.{Gates, Gadgets, IsDocumented, IsSound, documented, eq_documented, u32_mod}
use kno_vectorx.Decoder.Precommits.{encode_precommit}
use kno_vectorx.Justification.{count_signed, verify_voting_threshold, verify_simple_justification}
use kno_vectorx.Justification.Threshold.{signed_count, signed_count-le, count_signed-eq}
use kno_vectorx.Justification.Complete.{SignedAll, with_votes, accepted_with}
use kno_vectorx.Fetcher.Authorities.{compute_authority_set_hash}

-- Twice this number wraps to 0.
abbrev pub half_of_u32 : ℕ
half_of_u32 = 2147483648

module _ (G : Gadgets) where
  wrapped_threshold :
      (ss : List Bool)
      → length ss < 1431655765
      → 0 < signed_count ss
      → verify_voting_threshold documented G half_of_u32 ss 2 3 ≡ some tt
  unfolding verify_voting_threshold
  wrapped_threshold ss flags some_flag =
      let count : count_signed documented G 0 ss ≡ signed_count ss =
        count_signed-eq G 0 ss (omega arith) ∙ omega arith in
      let right : (signed_count ss * 3) % u32_mod ≡ signed_count ss * 3 =
        omega (arith, signed_count-le ss) in
      rw (count, right, lt→ltb 0 (signed_count ss * 3) (omega arith)) refl

module _ (g : Gates) (gates : IsDocumented g) (G : Gadgets) (sound : IsSound G) where
  -- The hinted number of authorities can wrap: where the authority set fills the key array, flags of
  -- which at least one is set, each flagged entry with a valid signature over the encoded precommit
  -- of a block, make a justification that the circuit accepts against the commitment to the whole
  -- set, if it claims 2 ^ 31 authorities. The fields and sizes are in range.
  pub verify_simple_justification-wrapped :
      (max block_number round authority_set_id : ℕ) (block_hash k : Bytes) (ks gs : List Bytes)
      (ss : List Bool)
      → length block_hash ≡ 32
      → block_number < 2 ^ 32
      → round < 2 ^ 64
      → authority_set_id < 2 ^ 64
      → length (k ∷ ks) ≤ half_of_u32
      → length ss < 1431655765
      → 0 < signed_count ss
      → SignedAll G.ed25519
          (encode_precommit block_hash block_number round authority_set_id)
          ss
          gs
          (k ∷ ks)
      → verify_simple_justification g G max block_number block_hash authority_set_id
          (compute_authority_set_hash G.sha256 (k ∷ ks))
          (with_votes
            (encode_precommit block_hash block_number round authority_set_id)
            ss
            gs
            (k ∷ ks)
            half_of_u32)
        ≡ some tt
  verify_simple_justification-wrapped max block_number round authority_set_id block_hash k ks gs ss
        e hn hr ha few flags some_flag v =
      let p = encode_precommit block_hash block_number round authority_set_id in
      rw (← eq_documented g gates) (
        subst
          (λ keys.
            verify_simple_justification documented G max block_number block_hash authority_set_id
              (compute_authority_set_hash G.sha256 keys) (with_votes p ss gs (k ∷ ks) half_of_u32)
            ≡ some tt)
          (take_all half_of_u32 (k ∷ ks) few)
          (accepted_with G sound max half_of_u32 block_number round authority_set_id block_hash k ks
            gs ss e hn hr ha (omega arith) v (wrapped_threshold G ss flags some_flag)))
