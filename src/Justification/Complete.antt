-- ===== src/Justification/Complete.antt =====
-- Which justifications the circuit of justification.rs accepts.
use kno_vectorx.Common.{
  ℕ, zero, suc, ◌*◌, ◌^◌, ◌<◌, ◌≡◌, refl, ap, ◌∙◌, some, List, [], ◌∷◌, Bool, true, false, Bytes,
  length, replicate, take, lt→ltb, ==_refl, bytes_eq_refl, arith, take_all, assert,
}
use kno_vectorx.Plonky2x.{
  Gates, Gadgets, IsDocumented, IsSound, documented, documented-IsDocumented, eq_documented,
  all_signed_valid,
}
use kno_vectorx.Vars.{JustificationVariable}
use kno_vectorx.Decoder.Precommits.{encode_precommit, message_decoded, length-encode_precommit}
use kno_vectorx.Justification.{verify_voting_threshold, verify_simple_justification}
use kno_vectorx.Justification.Threshold.{signed_count, threshold_at}
use kno_vectorx.Justification.Commitment.{compute_authority_set_commitment-eq-hash}
use kno_vectorx.Fetcher.Authorities.{compute_authority_set_hash}

-- Every flagged entry of the three arrays holds a signature over `m`.
unfoldable pub SignedAll :
    (Bytes → Bytes → Bytes → Bool) → Bytes → List Bool → List Bytes → List Bytes → Type 0
SignedAll verify m (true ∷ ss) (g ∷ gs) (k ∷ ks) =
    (verify k m g ≡ true) × SignedAll verify m ss gs ks
SignedAll verify m (false ∷ ss) (g ∷ gs) (k ∷ ks) = SignedAll verify m ss gs ks
SignedAll verify m _ _ _ = Unit {0}

pub all_signed-SignedAll :
    (verify : Bytes → Bytes → Bytes → Bool) (n : ℕ) (m : Bytes) (max : ℕ) (ss : List Bool)
    (gs ks : List Bytes)
    → take n m ≡ m
    → SignedAll verify m ss gs ks
    → all_signed_valid verify ss (replicate max n) (replicate max m) gs ks ≡ true
unfolding all_signed_valid SignedAll
all_signed-SignedAll verify n m max [] gs ks e v = refl
all_signed-SignedAll verify n m zero (s ∷ ss) gs ks e v = refl
all_signed-SignedAll verify n m (suc max) (s ∷ ss) [] ks e v = refl
all_signed-SignedAll verify n m (suc max) (s ∷ ss) (g ∷ gs) [] e v = refl
all_signed-SignedAll verify n m (suc max) (true ∷ ss) (g ∷ gs) (k ∷ ks) e v =
    rw (e, v.0) (all_signed-SignedAll verify n m max ss gs ks e v.1)
all_signed-SignedAll verify n m (suc max) (false ∷ ss) (g ∷ gs) (k ∷ ks) e v =
    all_signed-SignedAll verify n m max ss gs ks e v

module _ (G : Gadgets) (sound : IsSound G) where
  -- Whatever makes the threshold hold.
  pub accepted_with :
      (max n block_number round authority_set_id : ℕ) (block_hash k : Bytes) (ks gs : List Bytes)
      (ss : List Bool)
      → length block_hash ≡ 32
      → block_number < 2 ^ 32
      → round < 2 ^ 64
      → authority_set_id < 2 ^ 64
      → 0 < n
      → SignedAll G.ed25519
          (encode_precommit block_hash block_number round authority_set_id)
          ss
          gs
          (k ∷ ks)
      → verify_voting_threshold documented G n ss 2 3 ≡ some tt
      → verify_simple_justification documented G max block_number block_hash authority_set_id
          (compute_authority_set_hash G.sha256 (take n (k ∷ ks)))
          (record {
            encoded_precommit = encode_precommit block_hash block_number round authority_set_id;
            validator_signed = ss;
            signatures = gs;
            pubkeys = k ∷ ks;
            num_authorities = n;
          })
        ≡ some tt
  unfolding verify_simple_justification
  accepted_with max n block_number round authority_set_id block_hash k ks gs ss e hn hr ha active v
        th =
      let m = encode_precommit block_hash block_number round authority_set_id in
      let all_of_it : take 53 m ≡ m =
        take_all 53 m (
          omega
            (arith, length-encode_precommit block_hash block_number round authority_set_id e)) in
      let c =
        (compute_authority_set_commitment-eq-hash documented documented-IsDocumented G n k ks).1
          active in
      let d = message_decoded block_hash block_number round authority_set_id e G hn hr ha in
      let valid =
        sound.verify_sigs_lem ss (replicate max 53) (replicate max m) gs (k ∷ ks)
        ∙ all_signed-SignedAll G.ed25519 53 m max ss gs (k ∷ ks) all_of_it v in
      rw
        (
          c,
          bytes_eq_refl (compute_authority_set_hash G.sha256 (take n (k ∷ ks))),
          d,
          ==_refl block_number,
          ==_refl authority_set_id,
          bytes_eq_refl block_hash,
          valid,
          th,
        )
        refl

  pub accepted_at :
      (max n block_number round authority_set_id : ℕ) (block_hash k : Bytes) (ks gs : List Bytes)
      (ss : List Bool)
      → length block_hash ≡ 32
      → block_number < 2 ^ 32
      → round < 2 ^ 64
      → authority_set_id < 2 ^ 64
      → 0 < n
      → n < 2147483648
      → length ss < 1431655765
      → SignedAll G.ed25519
          (encode_precommit block_hash block_number round authority_set_id)
          ss
          gs
          (k ∷ ks)
      → n * 2 < signed_count ss * 3
      → verify_simple_justification documented G max block_number block_hash authority_set_id
          (compute_authority_set_hash G.sha256 (take n (k ∷ ks)))
          (record {
            encoded_precommit = encode_precommit block_hash block_number round authority_set_id;
            validator_signed = ss;
            signatures = gs;
            pubkeys = k ∷ ks;
            num_authorities = n;
          })
        ≡ some tt
  accepted_at max n block_number round authority_set_id block_hash k ks gs ss e hn hr ha active
        small flags v th =
      accepted_with max n block_number round authority_set_id block_hash k ks gs ss e hn hr ha
        active v
        (threshold_at G n ss small flags ∙ ap assert (lt→ltb (n * 2) (signed_count ss * 3) th))

-- The justification with precommit `m`, flags `ss`, signatures `gs` and keys `ks`.
abbrev pub with_votes : Bytes → List Bool → List Bytes → List Bytes → ℕ → JustificationVariable
with_votes m ss gs ks n = record {
  encoded_precommit = m;
  validator_signed = ss;
  signatures = gs;
  pubkeys = ks;
  num_authorities = n;
}

module _ (g : Gates) (gates : IsDocumented g) (G : Gadgets) (sound : IsSound G) where
  -- An honest justification is accepted: with at least one active authority, the flagged entries'
  -- signatures valid over the encoded precommit of the block, and more than two thirds flagged, the
  -- circuit accepts it against the chained hash of the active keys. The sizes and fields are in
  -- range.
  pub verify_simple_justification-accepts :
      (max n block_number round authority_set_id : ℕ) (block_hash k : Bytes) (ks gs : List Bytes)
      (ss : List Bool)
      → length block_hash ≡ 32
      → block_number < 2 ^ 32
      → round < 2 ^ 64
      → authority_set_id < 2 ^ 64
      → 0 < n
      → n < 2147483648
      → length ss < 1431655765
      → SignedAll G.ed25519
          (encode_precommit block_hash block_number round authority_set_id)
          ss
          gs
          (k ∷ ks)
      → n * 2 < signed_count ss * 3
      → verify_simple_justification g G max block_number block_hash authority_set_id
          (compute_authority_set_hash G.sha256 (take n (k ∷ ks)))
          (with_votes
            (encode_precommit block_hash block_number round authority_set_id)
            ss
            gs
            (k ∷ ks)
            n)
        ≡ some tt
  verify_simple_justification-accepts max n block_number round authority_set_id block_hash k ks gs
        ss e hn hr ha active small flags v th =
      rw (← eq_documented g gates) (
        accepted_at G sound max n block_number round authority_set_id block_hash k ks gs ss e hn hr
          ha active small flags v th)
