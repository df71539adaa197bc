-- ===== src/Justification/Soundness.antt =====
-- What an accepted justification of justification.rs shows.
use kno_vectorx.Common.{
  ℕ, zero, suc, ◌*◌, ◌<◌, ◌≡◌, refl, sym, ap, subst, ◌∙◌, some, List, [], ◌∷◌, Bool, true, Bytes,
  length, replicate, take, get_elem?, get_or, ◌==◌, eq_of_==, bytes_eq, eq_of_bytes_eq, arith,
  bind_inv, assert_inv,
}
use kno_vectorx.Plonky2x.{
  Gates, Gadgets, IsDocumented, IsSound, documented, documented-IsDocumented, eq_documented,
  all_signed_valid,
}
use kno_vectorx.Vars.{JustificationVariable, PrecommitVariable}
use kno_vectorx.Decoder.{decode_precommit}
use kno_vectorx.Decoder.Precommits.{precommit_of, decode_documented}
use kno_vectorx.Justification.{compute_authority_set_commitment, verify_simple_justification}
use kno_vectorx.Justification.Threshold.{signed_count, threshold_inv}
use kno_vectorx.Justification.Commitment.{compute_authority_set_commitment-eq-hash}
use kno_vectorx.Fetcher.Authorities.{compute_authority_set_hash}

-- The flagged entry `i` of the arrays has a valid signature over the precommit.
pub all_signed_valid-at :
    (verify : Bytes → Bytes → Bytes → Bool) (n : ℕ) (m : Bytes) (max i : ℕ) (ss : List Bool)
    (gs ks : List Bytes) (key signature : Bytes)
    → all_signed_valid verify ss (replicate max n) (replicate max m) gs ks ≡ true
    → i < max
    → get_elem? ss i ≡ some true
    → get_elem? gs i ≡ some signature
    → get_elem? ks i ≡ some key
    → verify key (take n m) signature ≡ true
unfolding all_signed_valid
all_signed_valid-at verify n m zero i ss gs ks key signature v lt s gi ki = absurd (omega arith)
all_signed_valid-at verify n m (suc max) i [] gs ks key signature v lt s gi ki = cc
all_signed_valid-at verify n m (suc max) i (x ∷ ss) [] ks key signature v lt s gi ki = cc
all_signed_valid-at verify n m (suc max) i (x ∷ ss) (y ∷ gs) [] key signature v lt s gi ki = cc
all_signed_valid-at verify n m (suc max) zero (x ∷ ss) (y ∷ gs) (z ∷ ks) key signature v lt s gi
      ki =
    ground arith
all_signed_valid-at verify n m (suc max) (suc i) (x ∷ ss) (y ∷ gs) (z ∷ ks) key signature v lt s gi
      ki =
    all_signed_valid-at verify n m max i ss gs ks key signature (ground arith) (omega arith) s gi ki

-- The justification is bound to the trusted authority set, the block and the set id; every flagged
-- entry has a valid signature over the precommit; and more than two thirds are flagged, counted
-- over the whole array.
pub record Justified (G : Gadgets) (max_num_authorities block_number : ℕ) (block_hash : Bytes)
    (authority_set_id : ℕ) (authority_set_hash : Bytes) (j : JustificationVariable) : Type 0 where
  pub authorities : 0 < j.num_authorities
  pub committed :
      authority_set_hash ≡ compute_authority_set_hash G.sha256 (take j.num_authorities j.pubkeys)
  pub precommit : get_or j.encoded_precommit 0 0 ≡ 1
  pub number : (precommit_of j.encoded_precommit).block_number ≡ block_number
  pub set_id : (precommit_of j.encoded_precommit).authority_set_id ≡ authority_set_id
  pub hash : (precommit_of j.encoded_precommit).block_hash ≡ block_hash
  pub signatures :
      (i : ℕ) (key signature : Bytes)
      → i < max_num_authorities
      → get_elem? j.validator_signed i ≡ some true
      → get_elem? j.signatures i ≡ some signature
      → get_elem? j.pubkeys i ≡ some key
      → G.ed25519 key (take 53 j.encoded_precommit) signature ≡ true
  pub threshold : j.num_authorities * 2 < signed_count j.validator_signed * 3

module _ (G : Gadgets) (sound : IsSound G) where
  -- A commitment that was computed is the chained hash, of at least one authority.
  pub committed_inv :
      (n : ℕ) (keys : List Bytes) (c : Bytes)
      → 0 < length keys
      → compute_authority_set_commitment documented G n keys ≡ some c
      → (0 < n) × (c ≡ compute_authority_set_hash G.sha256 (take n keys))
  committed_inv n [] c some_key e = absurd (omega arith)
  committed_inv zero (k ∷ keys) c some_key e =
      let r =
        compute_authority_set_commitment-eq-hash documented documented-IsDocumented G 0 k keys in
      cc (r.0 refl)
  committed_inv (suc n) (k ∷ keys) c some_key e =
      let r =
        compute_authority_set_commitment-eq-hash documented documented-IsDocumented G (suc n) k
          keys in
      (omega arith, cc (r.1 (omega arith)))

  precommit_inv :
      (p : Bytes) (d : PrecommitVariable)
      → decode_precommit documented G p ≡ some d
      → (get_or p 0 0 ≡ 1) × (d ≡ precommit_of p)
  precommit_inv p d e =
      let (one, same) = assert_inv (get_or p 0 0 == 1) _ (sym (decode_documented G p) ∙ e) in
      (eq_of_== (get_or p 0 0) 1 one, cc)

  pub Justified-at :
      (max block_number : ℕ) (block_hash : Bytes) (set_id : ℕ) (set_hash : Bytes)
      (j : JustificationVariable)
      → 0 < length j.pubkeys
      → length j.validator_signed < 1431655765
      → j.num_authorities < 2147483648
      → verify_simple_justification documented G max block_number block_hash set_id set_hash j
        ≡ some tt
      → Justified G max block_number block_hash set_id set_hash j
  unfolding verify_simple_justification
  Justified-at max block_number block_hash set_id set_hash j keys flags auths e =
      let (c, ce, e1) =
        bind_inv (compute_authority_set_commitment documented G j.num_authorities j.pubkeys) _ e in
      let (t1, e2) = assert_inv (bytes_eq set_hash c) _ e1 in
      let (d, de, e3) = bind_inv (decode_precommit documented G j.encoded_precommit) _ e2 in
      let (t2, e4) = assert_inv (d.block_number == block_number) _ e3 in
      let (t3, e5) = assert_inv (d.authority_set_id == set_id) _ e4 in
      let (t4, e6) = assert_inv (bytes_eq d.block_hash block_hash) _ e5 in
      let (t5, e7) =
        assert_inv
          (G.verify_sigs_conditional j.validator_signed (replicate max 53)
            (replicate max j.encoded_precommit) j.signatures j.pubkeys)
          _ e6 in
      let (active, hash) = committed_inv j.num_authorities j.pubkeys c keys ce in
      let (one, same) = precommit_inv j.encoded_precommit d de in
      record {
        authorities = active;
        committed = eq_of_bytes_eq set_hash c t1 ∙ hash;
        precommit = one;
        number =
            ap (λ (v : PrecommitVariable). v.block_number) (sym same)
            ∙ eq_of_== d.block_number block_number t2;
        set_id =
            ap (λ (v : PrecommitVariable). v.authority_set_id) (sym same)
            ∙ eq_of_== d.authority_set_id set_id t3;
        hash =
            ap (λ (v : PrecommitVariable). v.block_hash) (sym same)
            ∙ eq_of_bytes_eq d.block_hash block_hash t4;
        signatures = λ i key signature lt s gi ki.
            all_signed_valid-at G.ed25519 53 j.encoded_precommit max i j.validator_signed
              j.signatures j.pubkeys key signature (sym (sound.verify_sigs_lem _ _ _ _ _) ∙ t5) lt s
              gi ki;
        threshold = threshold_inv G j.num_authorities j.validator_signed auths flags e7;
      }

module _ (g : Gates) (gates : IsDocumented g) (G : Gadgets) (sound : IsSound G) where
  -- A justification that the circuit accepts is `Justified`: its active keys hash to the trusted
  -- commitment, its precommit names the block, its hash and the set id, every flagged entry of the
  -- arrays has a valid signature of its key over the precommit, and the flags of the whole array
  -- number more than two thirds of the active authorities. The array is not empty, and the sizes
  -- are below those at which the products wrap.
  pub verify_simple_justification-Justified :
      (max_num_authorities block_number : ℕ) (block_hash : Bytes) (authority_set_id : ℕ)
      (authority_set_hash : Bytes) (justification : JustificationVariable)
      → 0 < length justification.pubkeys
      → length justification.validator_signed < 1431655765
      → justification.num_authorities < 2147483648
      → verify_simple_justification g G max_num_authorities block_number block_hash authority_set_id
          authority_set_hash justification
        ≡ some tt
      → Justified G max_num_authorities block_number block_hash authority_set_id authority_set_hash
          justification
  verify_simple_justification-Justified max_num_authorities block_number block_hash authority_set_id
        authority_set_hash justification keys flags auths =
      subst
        (λ g.
          verify_simple_justification g G max_num_authorities block_number block_hash
              authority_set_id authority_set_hash justification
            ≡ some tt
          → Justified G max_num_authorities block_number block_hash authority_set_id
              authority_set_hash justification)
        (eq_documented g gates)
        (Justified-at G sound max_num_authorities block_number block_hash authority_set_id
          authority_set_hash justification keys flags auths)
