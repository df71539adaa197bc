-- ===== src/Indexer/Stored.antt =====
-- What bin/indexer.rs stores.
use kno_vectorx.Common.{
  ℕ, suc, ◌*◌, ◌/◌, ◌<◌, ◌≡◌, refl, sym, ap, subst, ◌∙◌, Bool, true, false, ◌&&◌, Option, none,
  some, List, [], ◌∷◌, Bytes, length, get_elem?, leb, leb-false, bytes_eq, eq_of_bytes_eq, arith,
  Bool-cases, Option-cases, inl, inr, bind_inv, assert_inv, some_inj,
}
use kno_vectorx.Vars.{GrandpaJustification, SignedPrecommit, StoredJustificationData}
use kno_vectorx.Justification.Complete.{SignedAll}
use kno_vectorx.Fetcher.Rpc.{Rpc, Libraries}
use kno_vectorx.Fetcher.Authorities.{get_authorities}
use kno_vectorx.Fetcher.Justifications.{previous, signature_of}
use kno_vectorx.Redis.{Server}
use kno_vectorx.Indexer.{Node, verified, fill_entries, insert_all, justification_data}

module _ (verify : Bytes → Bytes → Bytes → Bool) (message : Bytes) where
  -- Each pair is a key and a signature of it.
  abbrev Valid : List (Bytes × Bytes) → Type 0
  Valid [] = Unit {0}
  Valid ((key, signature) ∷ pairs) = (verify key message signature ≡ true) × Valid pairs

  insert_all-Valid :
      (map pairs : List (Bytes × Bytes)) → Valid map → Valid pairs → Valid (insert_all map pairs)
  unfolding insert_all
  insert_all-Valid map [] h k = h
  insert_all-Valid map ((key, signature) ∷ pairs) h k =
      insert_all-Valid ((key, signature) ∷ map) pairs (k.0, h) k.1

  signature_of-Valid :
      (map : List (Bytes × Bytes)) (key signature : Bytes)
      → Valid map
      → signature_of map key ≡ some signature
      → verify key message signature ≡ true
  unfolding signature_of
  signature_of-Valid [] key signature h e = cc
  signature_of-Valid ((k, s) ∷ map) key signature h e = elim (Bool-cases (bytes_eq k key)) [
    | inl t ↦
        let here : signature_of ((k, s) ∷ map) key ≡ some s = rw (t, signature_of) refl in
        let same : s ≡ signature = some_inj (sym here ∙ e) in
        subst (λ x. verify key message x ≡ true) same
          (subst (λ x. verify x message s ≡ true) (eq_of_bytes_eq k key t) h.0)
    | inr t ↦
        let there : signature_of ((k, s) ∷ map) key ≡ signature_of map key =
          rw (t, signature_of) refl in
        signature_of-Valid map key signature h.1 (sym there ∙ e)
  ]

module _ (libs : Libraries) (message : Bytes) where
  verified-Valid :
      (precommits : List SignedPrecommit)
      → Valid libs.ed25519_verify message (verified libs message precommits)
  unfolding verified
  verified-Valid [] = tt
  verified-Valid (p ∷ ps) = elim (Bool-cases (libs.ed25519_verify p.id message p.signature)) [
    | inl t ↦ rw (t, verified) (t, verified-Valid ps)
    | inr t ↦ rw (t, verified) (verified-Valid ps)
  ]

  fill_entries-SignedAll :
      (map : List (Bytes × Bytes)) (authorities : List Bytes)
      → Valid libs.ed25519_verify message map
      → SignedAll libs.ed25519_verify message
          (fill_entries libs map authorities).validator_signed
          (fill_entries libs map authorities).signatures
          (fill_entries libs map authorities).pubkeys
  unfolding fill_entries SignedAll
  fill_entries-SignedAll map [] h = tt
  fill_entries-SignedAll map (a ∷ rest) h = elim (Option-cases (signature_of map a)) [
    | inl e ↦ rw (e, fill_entries) (fill_entries-SignedAll map rest h)
    | inr (signature, e) ↦
        rw (e, fill_entries)
          (
            signature_of-Valid libs.ed25519_verify message map a signature h e,
            fill_entries-SignedAll map rest h,
          )
  ]

  pub fill_entries-lengths :
      (map : List (Bytes × Bytes)) (authorities : List Bytes)
      → ((fill_entries libs map authorities).pubkeys ≡ authorities)
        × (length (fill_entries libs map authorities).signatures ≡ length authorities)
        × (length (fill_entries libs map authorities).validator_signed ≡ length authorities)
  unfolding fill_entries
  fill_entries-lengths map [] = (refl, refl, refl)
  fill_entries-lengths map (a ∷ others) =
      let (keys, signatures, flags) = fill_entries-lengths map others in
      elim (Option-cases (signature_of map a)) [
        | inl e ↦ rw (e, fill_entries) (ap (◌∷◌ a) keys, ap suc signatures, ap suc flags)
        | inr (signature, e) ↦
            rw (e, fill_entries) (ap (◌∷◌ a) keys, ap suc signatures, ap suc flags)
      ]

-- What a chain that ends with a choice of nothing or `x` went through.
stored_inv :
    (few : Bool) (x j : StoredJustificationData)
    → (elim few as (λ b. Option (Option StoredJustificationData)) [
      | true ↦ some none
      | false ↦ some (some x)
    ])
      ≡ some (some j)
    → (few ≡ false) × (x ≡ j)
stored_inv true x j e = cc
stored_inv false x j e = (refl, some_inj (some_inj e))

-- A stored justification has an entry for each authority, and each flagged entry holds a valid
-- signature over the signed message.
pub record Verified (libs : Libraries) (j : StoredJustificationData) : Type 0 where
  pub signed :
      SignedAll libs.ed25519_verify j.signed_message j.validator_signed j.signatures j.pubkeys
  pub keys : length j.pubkeys ≡ j.num_authorities
  pub signatures : length j.signatures ≡ j.num_authorities
  pub flags : length j.validator_signed ≡ j.num_authorities

module _ (libs : Libraries) (rpc : Rpc) (node : Node) (r : Server) (connects : ℕ → Bool)
    (chain : Bytes) where
  -- What is stored for a justification is an entry for each authority of the block before the header
  -- with the justification's hash, with a valid signature wherever an entry is flagged; the header's
  -- encoding hashes to that hash, and more than two thirds as many precommits as there are authorities
  -- have a valid signature over the message.
  pub justification_data-Verified :
      (justification : GrandpaJustification) (j : StoredJustificationData)
      → justification_data libs rpc node r connects chain justification ≡ some (some j)
      → Verified libs j
        × (get_authorities rpc (previous j.block_number) ≡ some j.pubkeys)
        × (node.blake2_256 (node.header_of justification.commit.target_hash).encoded
            ≡ justification.commit.target_hash)
        × (j.block_number ≡ (node.header_of justification.commit.target_hash).number)
        × (j.num_authorities * 2
            < length (verified libs j.signed_message justification.commit.precommits) * 3)
  unfolding justification_data
  justification_data-Verified justification j e =
      let hash = justification.commit.target_hash in
      let header = node.header_of hash in
      let precommits = justification.commit.precommits in
      let (t, e1) =
        assert_inv
          (bytes_eq header.hash (node.blake2_256 header.encoded)
            && bytes_eq hash (node.blake2_256 header.encoded))
          _ e in
      let (first, _, e2) = bind_inv (get_elem? precommits 0) _ e1 in
      let message =
        libs.encode_precommit_message first.precommit justification.round (node.set_id_at hash) in
      let (authorities, fetched, e3) =
        bind_inv (get_authorities rpc (previous header.number)) _ e2 in
      let map = insert_all [] (verified libs message precommits) in
      let valid =
        insert_all-Valid libs.ed25519_verify message [] (verified libs message precommits) tt
          (verified-Valid libs message precommits) in
      let (keys, signatures, flags) = fill_entries-lengths libs message map authorities in
      let entries = fill_entries libs map authorities in
      let made : StoredJustificationData = record {
        block_number = header.number;
        signed_message = message;
        pubkeys = entries.pubkeys;
        signatures = entries.signatures;
        validator_signed = entries.validator_signed;
        num_authorities = length authorities;
      } in
      let (many, same) =
        stored_inv (leb (length (verified libs message precommits)) (length authorities * 2 / 3))
          made j e3 in
      subst
        (λ j.
          Verified libs j
          × (get_authorities rpc (previous j.block_number) ≡ some j.pubkeys)
          × (node.blake2_256 header.encoded ≡ hash)
          × (j.block_number ≡ header.number)
          × (j.num_authorities * 2 < length (verified libs j.signed_message precommits) * 3))
        same
        (
          record {
            signed = fill_entries-SignedAll libs message map authorities valid;
            keys = ap length keys;
            signatures = signatures;
            flags = flags;
          },
          fetched ∙ ap some (sym keys),
          sym (eq_of_bytes_eq hash _ (second _ _ t)),
          refl,
          omega (arith, leb-false _ _ many),
        )
    where
      second : (a b : Bool) → (a && b) ≡ true → b ≡ true
      second true b e = e
      second false b e = cc
