-- ===== src/Indexer/Repeated.antt =====
-- What bin/indexer.rs counts: precommits, not authorities.
use kno_vectorx.Common.{
  ℕ, zero, suc, ◌*◌, ◌/◌, ◌<◌, ◌≡◌, refl, sym, ap, subst, ◌∙◌, Bool, true, false, Option, none,
  some, List, [], ◌∷◌, map, Bytes, length, length-replicate, replicate, leb, bytes_eq,
  bytes_eq_refl, if◌then◌else◌, arith, Bool-cases, inl, inr,
}
use kno_vectorx.Vars.{SignedPrecommit, StoredJustificationData}
use kno_vectorx.Fetcher.Rpc.{Rpc, Libraries}
use kno_vectorx.Fetcher.Authorities.{get_authorities}
use kno_vectorx.Fetcher.Justifications.{previous, signature_of}
use kno_vectorx.Redis.{Server}
use kno_vectorx.Indexer.Stored.{fill_entries-lengths}
use kno_vectorx.Indexer.{Node, verified, fill_entries, insert_all, justification_data}

module _ (libs : Libraries) (message : Bytes) (p : SignedPrecommit)
    (valid : libs.ed25519_verify p.id message p.signature ≡ true) where
  verified_copies :
      (m : ℕ) → verified libs message (replicate m p) ≡ replicate m (p.id, p.signature)
  unfolding verified
  verified_copies zero = refl
  verified_copies (suc m) = rw (valid, verified) (ap (◌∷◌ (p.id, p.signature)) (verified_copies m))

  -- The map of copies of one pair has that pair only.
  copies_map :
      (m : ℕ) (pairs : List (Bytes × Bytes))
      → ((key : Bytes)
          → signature_of pairs key ≡ (if bytes_eq p.id key then some p.signature else none))
      → (key : Bytes)
      → signature_of (insert_all pairs (replicate m (p.id, p.signature))) key
        ≡ (if bytes_eq p.id key then some p.signature else none)
  unfolding insert_all signature_of
  copies_map zero pairs h key = h key
  copies_map (suc m) pairs h key =
      copies_map m ((p.id, p.signature) ∷ pairs)
        (λ k. elim (Bool-cases (bytes_eq p.id k)) [
          | inl t ↦ rw t refl
          | inr t ↦ rw t (h k ∙ rw t refl)
        ])
        key

  flags_of_one :
      (pairs : List (Bytes × Bytes)) (authorities : List Bytes)
      → ((key : Bytes)
          → signature_of pairs key ≡ (if bytes_eq p.id key then some p.signature else none))
      → (fill_entries libs pairs authorities).validator_signed ≡ map (bytes_eq p.id) authorities
  unfolding fill_entries
  flags_of_one pairs [] h = refl
  flags_of_one pairs (a ∷ rest) h = elim (Bool-cases (bytes_eq p.id a)) [
    | inl t ↦
        let e : signature_of pairs a ≡ some p.signature = h a ∙ rw t refl in
        rw (e, fill_entries, t) (ap (◌∷◌ true) (flags_of_one pairs rest h))
    | inr t ↦
        let e : signature_of pairs a ≡ none = h a ∙ rw t refl in
        rw (e, fill_entries, t) (ap (◌∷◌ false) (flags_of_one pairs rest h))
  ]

stored_choice :
    (few : Bool) (x : StoredJustificationData)
    → few ≡ false
    → (elim few as (λ b. Option (Option StoredJustificationData)) [
      | true ↦ some none
      | false ↦ some (some x)
    ])
      ≡ some (some x)
stored_choice true x e = cc
stored_choice false x e = refl

module _ (libs : Libraries) (rpc : Rpc) (node : Node) (r : Server) (connects : ℕ → Bool)
    (chain : Bytes) where
  -- A justification that holds one valid precommit often enough is stored: with more copies than two
  -- thirds of the number of authorities, the data that is stored flags only the authorities with the
  -- key of that precommit, however many authorities there are.
  pub justification_data-repeated :
      (round copies : ℕ) (hash : Bytes) (target_number : ℕ) (p : SignedPrecommit)
      (authorities : List Bytes)
      → (node.header_of hash).hash ≡ hash
      → node.blake2_256 (node.header_of hash).encoded ≡ hash
      → libs.ed25519_verify p.id
          (libs.encode_precommit_message p.precommit round (node.set_id_at hash))
          p.signature
        ≡ true
      → get_authorities rpc (previous (node.header_of hash).number) ≡ some authorities
      → length authorities * 2 < suc copies * 3
      → (j : StoredJustificationData) × (justification_data libs rpc node r connects chain (record {
        round = round;
        commit = record {
          target_hash = hash;
          target_number = target_number;
          precommits = replicate (suc copies) p;
        };
      })
          ≡ some (some j))
        × (j.pubkeys ≡ authorities)
        × (j.num_authorities ≡ length authorities)
        × (j.validator_signed ≡ map (bytes_eq p.id) authorities)
  unfolding justification_data insert_all
  justification_data-repeated round copies hash target_number p authorities named hashed valid
        fetched many =
      let message = libs.encode_precommit_message p.precommit round (node.set_id_at hash) in
      let pair : Bytes × Bytes = (p.id, p.signature) in
      let one : List (Bytes × Bytes) = pair ∷ [] in
      let votes = verified libs message (replicate (suc copies) p) in
      let copied : votes ≡ replicate (suc copies) pair =
        verified_copies libs message p valid (suc copies) in
      let pairs = insert_all [] votes in
      let only : (key : Bytes)
          → signature_of pairs key ≡ (if bytes_eq p.id key then some p.signature else none) =
        subst
          (λ vs.
            (key : Bytes)
            → signature_of (insert_all [] vs) key
              ≡ (if bytes_eq p.id key then some p.signature else none))
          (sym copied)
          (copies_map libs message p valid copies one (λ k. elim (Bool-cases (bytes_eq p.id k)) [
            | inl t ↦ rw (t, signature_of) refl
            | inr t ↦ rw (t, signature_of) refl
          ])) in
      let entries = fill_entries libs pairs authorities in
      let (keys, _, _) = fill_entries-lengths libs message pairs authorities in
      let count : length votes ≡ suc copies =
        ap length copied ∙ length-replicate (suc copies) pair in
      let enough : leb (length votes) (length authorities * 2 / 3) ≡ false =
        rw count (ground (arith, many)) in
      (
        record {
          block_number = (node.header_of hash).number;
          signed_message = message;
          pubkeys = entries.pubkeys;
          signatures = entries.signatures;
          validator_signed = entries.validator_signed;
          num_authorities = length authorities;
        },
        rw (named, hashed, bytes_eq_refl hash)
            (rw fetched (stored_choice (leb (length votes) (length authorities * 2 / 3)) _ enough)),
        keys,
        refl,
        flags_of_one libs message p valid pairs authorities only,
      )
