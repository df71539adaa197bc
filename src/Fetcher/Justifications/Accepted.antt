-- ===== src/Fetcher/Justifications/Accepted.antt =====
-- The hint for a justification in circuits/builder/justification.rs, against the circuit's check.
use kno_vectorx.Common.{
  ℕ, zero, suc, ◌+◌, ◌-◌, ◌*◌, ◌%◌, ◌^◌, ◌≤◌, ◌<◌, ◌≡◌, refl, sym, ap, ap₂, subst, ◌∙◌, Bool, true,
  false, not, Option, some, List, [], ◌∷◌, ◌++◌, Bytes, length, get_elem?, replicate, take,
  length-append, ltb, ◌==◌, arith, bind_inv, assert_inv, some_inj,
}
use kno_vectorx.Plonky2x.{Gates, Gadgets, IsDocumented, IsSound}
use kno_vectorx.Vars.{
  StoredJustificationData, SimpleJustificationData, CircuitJustification, JustificationVariable,
}
use kno_vectorx.Decoder.Precommits.{encode_precommit}
use kno_vectorx.Justification.{verify_simple_justification}
use kno_vectorx.Justification.Threshold.{signed_count}
use kno_vectorx.Justification.Complete.{SignedAll, with_votes, verify_simple_justification-accepts}
use kno_vectorx.Fetcher.Rpc.{Rpc, Libraries}
use kno_vectorx.Fetcher.Authorities.{compute_authority_set_hash}
use kno_vectorx.Fetcher.Justifications.{
  active_entries, get_justification_data, get_justification_from_block, verify_flagged,
  hint_simple_justification,
}

active_lengths :
    (d : SimpleJustificationData) (n i : ℕ) (keys signatures : List Bytes) (flags : List Bool)
    → active_entries d n i ≡ some (keys, signatures, flags)
    → (length keys ≡ n) × (length flags ≡ n)
unfolding active_entries
active_lengths d zero i keys signatures flags e =
    let parts = some_inj e in (ap (λ p. length p.0) (sym parts), ap (λ p. length p.2) (sym parts))
active_lengths d (suc n) i keys signatures flags e =
    let (key, _, e1) = bind_inv (get_elem? d.pubkeys i) _ e in
    let (signature, _, e2) = bind_inv (get_elem? d.signatures i) _ e1 in
    let (_, e3) = assert_inv (length signature == 64) _ e2 in
    let (signed, _, e4) = bind_inv (get_elem? d.validator_signed i) _ e3 in
    let ((ks, gs, ss), rest, e5) = bind_inv (active_entries d n (i + 1)) _ e4 in
    let (l1, l2) = active_lengths d n (i + 1) ks gs ss rest in
    let parts = some_inj e5 in
    (ap (λ p. length p.0) (sym parts) ∙ ap suc l1, ap (λ p. length p.2) (sym parts) ∙ ap suc l2)

module _ (libs : Libraries) (rpc : Rpc) (stored : ℕ → Option StoredJustificationData) (max : ℕ)
    (m : Bytes) where
  padding_unsigned :
      (n : ℕ) (gs ks : List Bytes) → SignedAll libs.ed25519_verify m (replicate n false) gs ks
  unfolding SignedAll
  padding_unsigned zero gs ks = tt
  padding_unsigned (suc n) [] ks = tt
  padding_unsigned (suc n) (g ∷ gs) [] = tt
  padding_unsigned (suc n) (g ∷ gs) (k ∷ ks) = padding_unsigned n gs ks

  flagged_SignedAll :
      (pad : ℕ) (flags : List Bool) (ks gs : List Bytes)
      → verify_flagged libs rpc stored max m (flags ++ replicate pad false) ks gs (length flags)
        ≡ some tt
      → SignedAll libs.ed25519_verify m (flags ++ replicate pad false) gs ks
  unfolding SignedAll verify_flagged
  flagged_SignedAll pad [] ks gs e = padding_unsigned pad gs ks
  flagged_SignedAll pad (true ∷ flags) [] [] e = tt
  flagged_SignedAll pad (false ∷ flags) [] [] e = tt
  flagged_SignedAll pad (true ∷ flags) (k ∷ ks) [] e = tt
  flagged_SignedAll pad (false ∷ flags) (k ∷ ks) [] e = tt
  flagged_SignedAll pad (true ∷ flags) [] (g ∷ gs) e = tt
  flagged_SignedAll pad (false ∷ flags) [] (g ∷ gs) e = tt
  flagged_SignedAll pad (true ∷ flags) (k ∷ ks) (g ∷ gs) e =
      let (v, e1) = assert_inv (libs.ed25519_verify k m g) _ e in
      (v, flagged_SignedAll pad flags ks gs e1)
  flagged_SignedAll pad (false ∷ flags) (k ∷ ks) (g ∷ gs) e = flagged_SignedAll pad flags ks gs e

-- What a hint that answers has checked.
record Checked (libs : Libraries) (j : JustificationVariable) : Type 0 where
  pub count : ℕ
  pub authorities : j.num_authorities ≡ count % 2 ^ 32
  pub flags : count ≤ length j.validator_signed
  pub keys : count ≤ length j.pubkeys
  pub signed :
      SignedAll libs.ed25519_verify j.encoded_precommit j.validator_signed j.signatures j.pubkeys

module _ (libs : Libraries) (rpc : Rpc) (stored : ℕ → Option StoredJustificationData)
    (max : ℕ) where
  -- The flags are those of the active entries, padded with entries that have not signed.
  padded_inv :
      (block_number : ℕ) (c : CircuitJustification)
      → get_justification_from_block libs rpc stored max block_number ≡ some c
      → (pad : ℕ) × (flags : List Bool) × (c.validator_signed ≡ flags ++ replicate pad false)
        × (length flags ≡ c.num_authorities)
        × (c.num_authorities ≤ length c.pubkeys)
  unfolding get_justification_from_block
  padded_inv block_number c found =
      let (d, _, f1) = bind_inv (get_justification_data libs rpc stored max block_number) _ found in
      let (_, f2) = assert_inv (not (ltb (d.voting_weight * 3) (d.num_authorities * 2))) _ f1 in
      let ((keys, signatures, flags), entries, f3) =
        bind_inv (active_entries d d.num_authorities 0) _ f2 in
      let pad = max - d.num_authorities in
      let made = some_inj f3 in
      let (l1, l2) = active_lengths d d.num_authorities 0 keys signatures flags entries in
      let same = ap (λ (c : CircuitJustification). c.num_authorities) made in
      let all = ap (λ (c : CircuitJustification). length c.pubkeys) made in
      (
        pad,
        flags,
        ap (λ (c : CircuitJustification). c.validator_signed) (sym made),
        l2 ∙ same,
        keys_enough d.num_authorities c.num_authorities (length keys)
            (length (replicate pad libs.dummy_public_key)) (length c.pubkeys) l1 same
            (sym (length-append keys (replicate pad libs.dummy_public_key)) ∙ all),
      )
    where
      keys_enough : (n n' k p total : ℕ) → k ≡ n → n ≡ n' → k + p ≡ total → n' ≤ total
      keys_enough n n' k p total a b c = omega arith

  hint_Checked :
      (block_number set_id : ℕ) (j : JustificationVariable)
      → hint_simple_justification libs rpc stored max block_number set_id ≡ some j
      → Checked libs j
  unfolding hint_simple_justification
  hint_Checked block_number set_id j e =
      let (c, found, e1) =
        bind_inv (get_justification_from_block libs rpc stored max block_number) _ e in
      let (pad, flags, flags_eq, count, room) = padded_inv block_number c found in
      let (_, e2) = assert_inv (c.authority_set_id == set_id) _ e1 in
      let (_, e3) = assert_inv (length c.signed_message == 53) _ e2 in
      let (_, checks, e4) =
        bind_inv
          (verify_flagged libs rpc stored max c.signed_message c.validator_signed c.pubkeys
            c.signatures c.num_authorities)
          _ e3 in
      subst (Checked libs) (some_inj e4) (record {
        count = c.num_authorities;
        authorities = refl;
        flags =
            flags_enough c.num_authorities (length flags) (length (replicate pad false))
              (length c.validator_signed) count
              (sym (length-append flags (replicate pad false)) ∙ ap length (sym flags_eq));
        keys = room;
        signed =
            subst (λ ss. SignedAll libs.ed25519_verify c.signed_message ss c.signatures c.pubkeys)
              (sym flags_eq)
              (flagged_SignedAll libs rpc stored max c.signed_message pad flags c.pubkeys
                c.signatures
                (ap₂
                    (λ ss n.
                      verify_flagged libs rpc stored max c.signed_message ss c.pubkeys c.signatures
                        n)
                    (sym flags_eq) count
                  ∙ checks));
      })
    where
      flags_enough : (n k p total : ℕ) → k ≡ n → k + p ≡ total → n ≤ total
      flags_enough n k p total a b = omega arith

-- Signatures that the fetcher's library accepts are those that the circuit accepts.
SignedAll-mono :
    (v w : Bytes → Bytes → Bytes → Bool) (m : Bytes) (ss : List Bool) (gs ks : List Bytes)
    → ((k s : Bytes) → v k m s ≡ true → w k m s ≡ true)
    → SignedAll v m ss gs ks
    → SignedAll w m ss gs ks
unfolding SignedAll
SignedAll-mono v w m [] gs ks h a = tt
SignedAll-mono v w m (true ∷ ss) [] ks h a = tt
SignedAll-mono v w m (false ∷ ss) [] ks h a = tt
SignedAll-mono v w m (true ∷ ss) (g ∷ gs) [] h a = tt
SignedAll-mono v w m (false ∷ ss) (g ∷ gs) [] h a = tt
SignedAll-mono v w m (true ∷ ss) (g ∷ gs) (k ∷ ks) h a =
    (h k g a.0, SignedAll-mono v w m ss gs ks h a.1)
SignedAll-mono v w m (false ∷ ss) (g ∷ gs) (k ∷ ks) h a = SignedAll-mono v w m ss gs ks h a

module _ (g : Gates) (gates : IsDocumented g) (G : Gadgets) (sound : IsSound G) where
  accepted :
      (max n block_number round set_id : ℕ) (hash : Bytes) (ss : List Bool) (gs ks : List Bytes)
      → 0 < length ks
      → length hash ≡ 32
      → block_number < 2 ^ 32
      → round < 2 ^ 64
      → set_id < 2 ^ 64
      → 0 < n
      → n < 2147483648
      → length ss < 1431655765
      → SignedAll G.ed25519 (encode_precommit hash block_number round set_id) ss gs ks
      → n * 2 < signed_count ss * 3
      → verify_simple_justification g G max block_number hash set_id
          (compute_authority_set_hash G.sha256 (take n ks))
          (with_votes (encode_precommit hash block_number round set_id) ss gs ks n)
        ≡ some tt
  accepted max n block_number round set_id hash ss gs [] some_key e hn hr ha active small flags v
        th =
      absurd (omega arith)
  accepted max n block_number round set_id hash ss gs (k ∷ ks) some_key e hn hr ha active small
        flags v th =
      verify_simple_justification-accepts g gates G sound max n block_number round set_id hash k ks
        gs ss e hn hr ha active small flags v th

  -- What the hint fetches is accepted: when `HintSimpleJustification` answers for a block, with a
  -- message that encodes a precommit on that block under the set id, with at least one authority and
  -- more than two thirds of them flagged, the circuit accepts the answer against the chained hash of
  -- its active keys. The circuit's signature check accepts what the fetcher's library accepts, and
  -- the fields are in range.
  pub hint_simple_justification-accepted :
      (libs : Libraries) (rpc : Rpc) (stored : ℕ → Option StoredJustificationData)
      (max block_number round set_id : ℕ) (hash : Bytes) (j : JustificationVariable)
      → ((key m signature : Bytes)
          → libs.ed25519_verify key m signature ≡ true
          → G.ed25519 key m signature ≡ true)
      → hint_simple_justification libs rpc stored max block_number set_id ≡ some j
      → j.encoded_precommit ≡ encode_precommit hash block_number round set_id
      → length hash ≡ 32
      → block_number < 2 ^ 32
      → round < 2 ^ 64
      → set_id < 2 ^ 64
      → 0 < j.num_authorities
      → length j.validator_signed < 1431655765
      → j.num_authorities * 2 < signed_count j.validator_signed * 3
      → verify_simple_justification g G max block_number hash set_id
          (compute_authority_set_hash G.sha256 (take j.num_authorities j.pubkeys))
          j
        ≡ some tt
  hint_simple_justification-accepted libs rpc stored max block_number round set_id hash j same_keys
        answered encoded e hn hr ha active flags th =
      let c = hint_Checked libs rpc stored max block_number set_id j answered in
      let n_eq : j.num_authorities ≡ c.count = c.authorities ∙ omega (arith, c.flags) in
      subst
        (λ m.
          verify_simple_justification g G max block_number hash set_id
            (compute_authority_set_hash G.sha256 (take j.num_authorities j.pubkeys))
            (with_votes m j.validator_signed j.signatures j.pubkeys j.num_authorities)
          ≡ some tt)
        (sym encoded)
        (accepted max j.num_authorities block_number round set_id hash j.validator_signed
          j.signatures j.pubkeys (omega (arith, c.keys)) e hn hr ha active (omega (arith, c.flags))
          flags
          (subst (λ m. SignedAll G.ed25519 m j.validator_signed j.signatures j.pubkeys) encoded
            (SignedAll-mono libs.ed25519_verify G.ed25519 j.encoded_precommit j.validator_signed
              j.signatures j.pubkeys (λ k s. same_keys k j.encoded_precommit s) c.signed))
          th)
