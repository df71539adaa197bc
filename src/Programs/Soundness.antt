-- ===== src/Programs/Soundness.antt =====
-- What the proof of a header range in circuits/header_range.rs shows.
use kno_vectorx.Common.{ℕ, ◌≡◌, List, [], ◌∷◌, Bytes}
use kno_vectorx.Plonky2x.{Gates, Gadgets}
use kno_vectorx.Vars.{JustificationVariable, SubchainVerificationVariable}
use kno_vectorx.Justification.Soundness.{Justified}
use kno_vectorx.Subchain.Soundness.{VerifiedRange}
use kno_vectorx.Programs.{HeaderRangeInput}

-- The outputs are those of a verified range of headers, whose last one is justified by the trusted
-- authority set.
pub record ProvenRange (g : Gates) (G : Gadgets) (max_authority_set_size max_num_headers : ℕ)
    (j : JustificationVariable) (input : HeaderRangeInput) (outputs : List Bytes) : Type 0 where
  pub range : SubchainVerificationVariable
  pub written :
      outputs
      ≡ range.target_header_hash ∷ range.state_root_merkle_root ∷ range.data_root_merkle_root ∷ []
  pub verified :
      VerifiedRange g G max_num_headers input.trusted_block input.trusted_header_hash
        input.target_block range
  pub justified :
      Justified G max_authority_set_size input.target_block range.target_header_hash
        input.authority_set_id input.authority_set_hash j
