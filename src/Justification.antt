-- ===== src/Justification.antt =====
-- circuits/builder/justification.rs: the authority set commitment, the voting threshold, and the
-- check of a simple justification. The justification is the untrusted answer of the hint, so it
-- is an argument; the arrays have the length `MAX_NUM_AUTHORITIES`.
pub mod Commitment
pub mod Threshold
pub mod Soundness
pub mod Complete
pub mod Forgery
pub mod Wrap
use kno_vectorx.Common.{
  ℕ, suc, Bool, true, false, Option, some, List, [], ◌∷◌, ◌++◌, Bytes, get_or, drop, replicate,
  assert, ◌>>=◌, ◌>>◌,
}
use kno_vectorx.Consts.{encoded_precommit_length}
use kno_vectorx.Plonky2x.{Gates, Gadgets}
use kno_vectorx.Vars.{JustificationVariable}
use kno_vectorx.Decoder.{decode_precommit}

-- A validator's flag, as the variable that carries it.
abbrev pub bit : Bool → ℕ
bit true = 1
bit false = 0

module _ (g : Gates) (G : Gadgets) where
  -- The loop over `authority_set_signers[i..]`, from index `curr_idx`.
  unfoldable pub commitment_loop : ℕ → Bool → Bytes → List Bytes → ℕ → Bytes
  commitment_loop num_active authority_enabled commitment_so_far [] curr_idx = commitment_so_far
  commitment_loop num_active authority_enabled commitment_so_far (signer ∷ signers) curr_idx =
      let at_end = g.is_equal curr_idx num_active in
      let not_at_end = g.negate at_end in
      let enabled = g.and authority_enabled not_at_end in
      let chained_hash = G.sha256 (commitment_so_far ++ signer) in
      commitment_loop num_active enabled (g.select_bytes enabled chained_hash commitment_so_far)
        signers (suc curr_idx)

  unfoldable pub compute_authority_set_commitment : ℕ → List Bytes → Option Bytes
  unfolding commitment_loop
  compute_authority_set_commitment num_active signers = do
    let invalid_num_authorities = g.is_equal num_active 0
    g.assert_is_equal_bool invalid_num_authorities false
    let first = G.sha256 (get_or signers 0 [])
    some (commitment_loop num_active true first (drop 1 signers) 1)

  unfoldable pub count_signed : ℕ → List Bool → ℕ
  count_signed num_signed [] = num_signed
  count_signed num_signed (s ∷ ss) = count_signed (g.add_u32 num_signed (bit s)) ss

  unfoldable pub verify_voting_threshold : ℕ → List Bool → ℕ → ℕ → Option (Unit {0})
  unfolding count_signed
  verify_voting_threshold num_active validator_signed numerator denominator =
      let num_signed = count_signed 0 validator_signed in
      let scaled_num_signed = g.mul_u32 num_signed denominator in
      let scaled_threshold = g.mul_u32 num_active numerator in
      g.assert_is_equal_bool (g.gt scaled_num_signed scaled_threshold) true

  unfoldable pub verify_simple_justification :
      (max_num_authorities block_number : ℕ) (block_hash : Bytes) (authority_set_id : ℕ)
      (authority_set_hash : Bytes)
      → JustificationVariable
      → Option (Unit {0})
  unfolding compute_authority_set_commitment verify_voting_threshold
  verify_simple_justification max_num_authorities block_number block_hash authority_set_id
        authority_set_hash justification =
      do
        computed_authority_set_commitment ←
            compute_authority_set_commitment justification.num_authorities justification.pubkeys
        g.assert_is_equal_bytes authority_set_hash computed_authority_set_commitment
        decoded_precommit ← decode_precommit g G justification.encoded_precommit
        g.assert_is_equal decoded_precommit.block_number block_number
        g.assert_is_equal decoded_precommit.authority_set_id authority_set_id
        g.assert_is_equal_bytes decoded_precommit.block_hash block_hash
        assert (
            G.verify_sigs_conditional justification.validator_signed
              (replicate max_num_authorities encoded_precommit_length)
              (replicate max_num_authorities justification.encoded_precommit)
              justification.signatures justification.pubkeys)
        verify_voting_threshold justification.num_authorities justification.validator_signed 2 3
