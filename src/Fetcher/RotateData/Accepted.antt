-- ===== src/Fetcher/RotateData/Accepted.antt =====
-- The data that `RotateHint` of circuits/rotate.rs finds, in the circuit of circuits/builder/rotate.rs.
use kno_vectorx.Common.{
  ℕ, ◌+◌, ◌-◌, ◌*◌, ◌%◌, ◌^◌, ◌≤◌, ◌<◌, ◌≡◌, refl, sym, ap, ◌∙◌, some, List, [], ◌∷◌, ◌++◌, Bytes,
  length, drop, length-append, length-drop, length-replicate, replicate, take-append_left,
  drop-append_left, ◌==◌, ==_refl, leb, arith, true,
}
use mathlib.Core.List.{append_assoc}
use kno_vectorx.Plonky2x.{Gates, Gadgets, IsDocumented, IsSound}
use kno_vectorx.Vars.{HeaderRotateData, RotateVariable, JustificationVariable}
use kno_vectorx.Decoder.Compact.{encode_compact}
use kno_vectorx.Justification.{verify_simple_justification}
use kno_vectorx.Decoder.{hash_encoded_header}
use kno_vectorx.Rotate.{rotate, consensus_engine_id, verify_epoch_end_header}
use kno_vectorx.Rotate.Validators.{encode_authorities}
use kno_vectorx.Rotate.EpochEnd.{EpochEnd}
use kno_vectorx.Rotate.Complete.{verify_epoch_end_header-accepts}
use kno_vectorx.Fetcher.Rpc.{Rpc, Libraries}
use kno_vectorx.Fetcher.Search.{last_justified_block}
use kno_vectorx.Fetcher.Authorities.{compute_authority_set_hash}
use kno_vectorx.Fetcher.Justifications.{previous}
use kno_vectorx.Fetcher.RotateData.{find_log, get_header_rotate, hint_rotate}
use kno_vectorx.Fetcher.RotateData.Layout.{
  Octets-append, Octets-replicate, log-EpochEnd, length-encode_authorities,
}
use kno_vectorx.Fetcher.RotateData.Found.{
  encoded_logs, value_found, log_found, compressed_keys-Keys,
}
use kno_vectorx.Fetcher.RotateData.EpochHeader.{
  scheduled_change, change_log, IsEpochEnd, Keys-get_or, commitment_found,
}

module _ (libs : Libraries) (rpc : Rpc) (header_length max : ℕ)
    (documented_compact : (n : ℕ) → n < 2 ^ 32 → libs.encode_compact n ≡ encode_compact n)
    (block : ℕ) (keys : List Bytes) (chain : IsEpochEnd rpc block keys) where
  abbrev padding : Bytes
  padding = replicate (header_length - length (rpc.get_header block).encoded) 0

  abbrev start : ℕ
  start = 96 + length (encode_compact block) + length (encoded_logs chain.before)

  length-scheduled_change :
      length (scheduled_change keys)
      ≡ 1 + (length (encode_compact (length keys)) + (length keys * 40 + 4))
  length-scheduled_change = omega (
    arith,
    length-append (encode_compact (length keys)) (encode_authorities keys),
    length-encode_authorities keys chain.wide,
  )

  length-change_log :
      length (change_log keys)
      ≡ 5
        + (length (encode_compact (length (scheduled_change keys)))
            + length (scheduled_change keys))
  length-change_log = omega (
    arith,
    length-append (encode_compact (length (scheduled_change keys))) (scheduled_change keys),
  )

  -- The log stands after the fields, the count and the logs before it.
  encoded_at :
      (rest : Bytes)
      → drop (start + 1) ((rpc.get_header block).encoded ++ rest)
        ≡ change_log keys ++ (chain.tail ++ rest)
  encoded_at rest =
      let prefix = chain.fields ++ ((chain.log_count ∷ []) ++ encoded_logs chain.before) in
      let width : length prefix ≡ start + 1 = omega (
        arith,
        length-append chain.fields ((chain.log_count ∷ []) ++ encoded_logs chain.before),
        chain.fields_length,
      ) in
      let split : (rpc.get_header block).encoded ++ rest
          ≡ prefix ++ (change_log keys ++ (chain.tail ++ rest)) =
        ap (λ xs. xs ++ rest) chain.encoded
        ∙ append_assoc chain.fields _ rest
        ∙ ap (λ xs. chain.fields ++ ((chain.log_count ∷ []) ++ xs))
            (append_assoc (encoded_logs chain.before) (change_log keys ++ chain.tail) rest
              ∙ ap (◌++◌ (encoded_logs chain.before))
                  (append_assoc (change_log keys) chain.tail rest))
        ∙ sym (append_assoc chain.fields ((chain.log_count ∷ []) ++ encoded_logs chain.before) _) in
      ap (λ n. drop n ((rpc.get_header block).encoded ++ rest)) (sym width)
      ∙ ap (drop (length prefix)) split
      ∙ drop-append_left prefix _

  get_header_rotate-found :
      block < 2 ^ 32
      → length (rpc.get_header block).encoded ≤ header_length
      → length (scheduled_change keys) < 2 ^ 32
      → (d : HeaderRotateData) × (get_header_rotate libs rpc header_length max block ≡ some d)
        × (d.header_bytes ≡ (rpc.get_header block).encoded ++ padding)
        × (d.header_size ≡ length (rpc.get_header block).encoded)
        × (d.num_authorities ≡ length keys)
        × (d.start_position ≡ start)
        × (d.end_position ≡ start + 1 + length (change_log keys))
        × (d.padded_pubkeys ≡ keys ++ replicate (max - length keys) libs.dummy_public_key)
  unfolding get_header_rotate
  get_header_rotate-found small fits short =
      let n = length keys in
      let few : n % 2 ^ 32 ≡ n = omega (arith, length-scheduled_change) in
      let size : libs.encode_compact (n % 2 ^ 32) ≡ encode_compact n =
        ap libs.encode_compact few
        ∙ documented_compact n (omega (arith, length-scheduled_change)) in
      let number = documented_compact block small in
      let room : leb (length (rpc.get_header block).encoded) header_length ≡ true =
        ground (arith, fits) in
      let found =
        ap
          (λ l.
            find_log (length (encode_compact n)) keys (32 + length (encode_compact block) + 32 + 32)
              l)
          chain.logs
        ∙ log_found (length (encode_compact n)) keys (32 + length (encode_compact block) + 32 + 32)
            chain.before chain.after (scheduled_change keys) (change_log keys) chain.clear
            (value_found (encode_compact n) keys chain.wide) in
      let ids : ((rpc.get_authority_set_id block + 2 ^ 64 - 1) % 2 ^ 64
            == rpc.get_authority_set_id (previous block))
          ≡ true =
        ap (λ m. m == rpc.get_authority_set_id (previous block)) chain.next_set ∙ ==_refl _ in
      let message : (1 + length (encode_compact n) + 40 * n + 4) % 2 ^ 32
          ≡ length (scheduled_change keys) =
        omega (arith, length-scheduled_change) in
      let message_size = ap libs.encode_compact message ∙ documented_compact _ short in
      let position =
        32 + length (encode_compact block) + 32 + 32 + length (encoded_logs chain.before) in
      let after_size = length (encode_compact (length (scheduled_change keys))) in
      (
        record {
          header_bytes = (rpc.get_header block).encoded ++ padding;
          header_size = length (rpc.get_header block).encoded;
          num_authorities = n;
          start_position = position;
          end_position = position + (6 + after_size + 1 + length (encode_compact n)) + 40 * n + 4;
          new_authority_set_hash = compute_authority_set_hash libs.sha256 keys;
          padded_pubkeys = keys ++ replicate (max - n) libs.dummy_public_key;
        },
        rw (ids, room, chain.authorities)
            (rw (size, number)
              (rw (found, compressed_keys-Keys keys chain.wide) (rw message_size refl))),
        refl,
        refl,
        refl,
        omega arith,
        omega (arith, length-change_log, length-scheduled_change),
        refl,
      )

  short : length (rpc.get_header block).encoded < 2 ^ 32 → length (scheduled_change keys) < 2 ^ 32
  short small =
      let there = ap length (encoded_at []) in
      omega (
        arith,
        there,
        length-drop (start + 1) ((rpc.get_header block).encoded ++ []),
        length-append (rpc.get_header block).encoded [],
        length-append (change_log keys) (chain.tail ++ []),
        length-change_log,
      )

  -- What the hint answers.
  abbrev pub hinted : RotateVariable
  hinted = record {
    epoch_end_block_number = block;
    target_header = record {
      header_bytes = (rpc.get_header block).encoded ++ padding;
      header_size = length (rpc.get_header block).encoded;
    };
    target_header_num_authorities = length keys;
    next_authority_set_start_position = start;
    new_pubkeys = keys ++ replicate (max - length keys) libs.dummy_public_key;
  }

  module _ (small : block < 2 ^ 32) (fits : length (rpc.get_header block).encoded ≤ header_length)
      (short_header : header_length < 2 ^ 32) (few : length keys ≤ max) where
    hint_rotate-found :
        (set_id : ℕ)
        → last_justified_block rpc set_id ≡ some block
        → hint_rotate libs rpc header_length max set_id ≡ some hinted
    unfolding hint_rotate
    hint_rotate-found set_id at =
        let (d, answered, bytes, size, count, from, to, padded) =
          get_header_rotate-found small fits (short (omega arith)) in
        let room : leb d.num_authorities max ≡ true = ground (arith, count, few) in
        let size' : d.header_size % 2 ^ 32 ≡ length (rpc.get_header block).encoded =
          omega (arith, size) in
        rw (at, answered) (rw (room, size') (rw (bytes, count, from, padded) refl))

    module _ (g : Gates) (gates : IsDocumented g) (G : Gadgets) (sound : IsSound G) where
      pub hinted-EpochEnd :
          EpochEnd g G hinted.target_header.header_bytes start (length keys) hinted.new_pubkeys
      hinted-EpochEnd =
          log-EpochEnd g gates G sound hinted.target_header.header_bytes (chain.tail ++ padding)
            start (length (scheduled_change keys)) keys hinted.new_pubkeys
            (encoded_at padding
              ∙ ap (◌++◌ (4 ∷ consensus_engine_id)) (
                  append_assoc (encode_compact (length (scheduled_change keys)))
                    (scheduled_change keys) (chain.tail ++ padding)
                  ∙ ap (λ xs. encode_compact (length (scheduled_change keys)) ++ (1 ∷ xs))
                      (append_assoc (encode_compact (length keys)) (encode_authorities keys)
                        (chain.tail ++ padding))))
            (Octets-append (rpc.get_header block).encoded padding chain.octets (Octets-replicate _))
            (short (omega arith)) (omega (arith, length-scheduled_change, short (omega arith)))
            chain.active chain.wide
            (take-append_left keys (replicate (max - length keys) libs.dummy_public_key))

      hinted_accepted :
          (sub_size : ℕ) (hash : Bytes)
          → max * 40 + 4 ≡ sub_size
          → start + 17 + sub_size ≤ header_length
          → verify_epoch_end_header g G max sub_size hinted.target_header hash
              (length keys)
              start
              hinted.new_pubkeys
            ≡ some tt
      hinted_accepted sub_size hash size room =
          let len : length hinted.target_header.header_bytes ≡ header_length =
            length-append (rpc.get_header block).encoded padding
            ∙ omega (
              arith,
              length-replicate {A = ℕ} (header_length - length (rpc.get_header block).encoded) 0,
            ) in
          let many : max ≤ length hinted.new_pubkeys = omega (
            arith,
            length-append keys (replicate (max - length keys) libs.dummy_public_key),
            length-replicate (max - length keys) libs.dummy_public_key,
          ) in
          verify_epoch_end_header-accepts g gates G sound max sub_size start (length keys)
            hinted.target_header hash hinted.new_pubkeys size (omega (arith, len))
            (omega (arith, len)) few many
            (λ i l.
              Keys-get_or keys (replicate (max - length keys) libs.dummy_public_key) i chain.wide l)
            hinted-EpochEnd

      -- A rotation completes: for an authority set whose last block the search finds, where that block
      -- is an epoch end block encoded as documented, within the buffer and the sizes of the circuit,
      -- the hint answers, and the circuit, given a justification of the header by the current set that
      -- it accepts, returns the chained hash of the next authorities.
      pub rotate-completes :
          (sub_size set_id : ℕ) (set_hash : Bytes) (j : JustificationVariable)
          → max * 40 + 4 ≡ sub_size
          → start + 17 + sub_size ≤ header_length
          → last_justified_block rpc set_id ≡ some block
          → verify_simple_justification g G max block
              (hash_encoded_header g G hinted.target_header)
              set_id
              set_hash
              j
            ≡ some tt
          → (hint_rotate libs rpc header_length max set_id ≡ some hinted)
            × (rotate g G max sub_size set_id set_hash hinted j
                ≡ some (compute_authority_set_hash G.sha256 keys))
      unfolding rotate
      rotate-completes sub_size set_id set_hash j size room found justified =
          let hash = hash_encoded_header g G hinted.target_header in
          let sized : (sub_size == max * 40 + 4) ≡ true = ground (arith, size) in
          (
            hint_rotate-found set_id found,
            rw (sized, justified, hinted_accepted sub_size hash size room)
                (commitment_found g gates G keys
                  (replicate (max - length keys) libs.dummy_public_key) chain.active),
          )
