-- ===== src/Justification/Commitment.antt =====
-- The authority set commitment of justification.rs against the fetcher's authority set hash.
use kno_vectorx.Common.{
  ℕ, zero, suc, ◌+◌, ◌<◌, ◌≡◌, refl, none, some, List, [], ◌∷◌, ◌++◌, true, false, Bytes, take,
  ◌==◌, arith,
}
use kno_vectorx.Plonky2x.{Gates, Gadgets, IsDocumented, documented, eq_documented}
use kno_vectorx.Justification.{commitment_loop, compute_authority_set_commitment}
use kno_vectorx.Fetcher.Authorities.{chain_hash, compute_authority_set_hash}

module _ (G : Gadgets) where
  disabled_loop :
      (n : ℕ) (so_far : Bytes) (signers : List Bytes) (i : ℕ)
      → commitment_loop documented G n false so_far signers i ≡ so_far
  unfolding commitment_loop
  disabled_loop n so_far [] i = refl
  disabled_loop n so_far (s ∷ signers) i = disabled_loop n so_far signers (suc i)

  enabled_loop :
      (k n : ℕ) (so_far : Bytes) (signers : List Bytes) (i : ℕ)
      → i + k ≡ n
      → commitment_loop documented G n true so_far signers i
        ≡ chain_hash G.sha256 so_far (take k signers)
  unfolding commitment_loop chain_hash
  enabled_loop zero n so_far [] i e = refl
  enabled_loop (suc k) n so_far [] i e = refl
  enabled_loop zero n so_far (s ∷ signers) i e =
      let stop : (i == n) ≡ true = ground arith in rw stop (disabled_loop n so_far signers (suc i))
  enabled_loop (suc k) n so_far (s ∷ signers) i e =
      let go : (i == n) ≡ false = ground arith in
      rw go (enabled_loop k n (G.sha256 (so_far ++ s)) signers (suc i) (omega arith))

  commitment_at :
      (n : ℕ) (s : Bytes) (signers : List Bytes)
      → compute_authority_set_commitment documented G (suc n) (s ∷ signers)
        ≡ some (compute_authority_set_hash G.sha256 (take (suc n) (s ∷ signers)))
  unfolding compute_authority_set_commitment compute_authority_set_hash
  commitment_at n s signers =
      let active : (suc n == 0) ≡ false = ground arith in
      rw (active, enabled_loop n (suc n) (G.sha256 s) signers 1 (omega arith)) refl

module _ (g : Gates) (gates : IsDocumented g) (G : Gadgets) where
  -- For at least one key, the circuit's commitment to an authority set is the fetcher's chained
  -- hash over its first `num_active` keys (all keys, where there are fewer); no active authority at
  -- all is refused.
  pub compute_authority_set_commitment-eq-hash :
      (num_active : ℕ) (s : Bytes) (signers : List Bytes)
      → (num_active ≡ 0 → compute_authority_set_commitment g G num_active (s ∷ signers) ≡ none)
        × (0 < num_active
            → compute_authority_set_commitment g G num_active (s ∷ signers)
              ≡ some (compute_authority_set_hash G.sha256 (take num_active (s ∷ signers))))
  unfolding compute_authority_set_commitment
  compute_authority_set_commitment-eq-hash num_active s signers =
      rw (← eq_documented g gates) (both num_active)
    where
      both :
          (n : ℕ)
          → (n ≡ 0 → compute_authority_set_commitment documented G n (s ∷ signers) ≡ none)
            × (0 < n
                → compute_authority_set_commitment documented G n (s ∷ signers)
                  ≡ some (compute_authority_set_hash G.sha256 (take n (s ∷ signers))))
      both zero = (λ e. refl, λ h. absurd (omega arith))
      both (suc n) = (λ e. absurd (omega arith), λ h. commitment_at G n s signers)
