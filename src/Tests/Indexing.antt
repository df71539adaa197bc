-- ===== src/Tests/Indexing.antt =====
-- The properties of the indexer, at a justification by one authority and at one with a repeated vote.
use kno_vectorx.Common.{
  ℕ, ◌*◌, ◌≤◌, ◌<◌, ◌≡◌, refl, true, false, some, List, [], ◌∷◌, Bytes, length, replicate, codes,
  arith, bytes_eq, decimal, parse_decimal,
}
use kno_vectorx.Vars.{GrandpaJustification, SignedPrecommit, StoredJustificationData}
use kno_vectorx.Decoder.Precommits.{encode_precommit}
use kno_vectorx.Fetcher.Rpc.{Rpc}
use kno_vectorx.Fetcher.Authorities.{get_authorities, unit_weights}
use kno_vectorx.Fetcher.Justifications.{signature_of}
use kno_vectorx.Redis.{
  justification_key, blocks_key, add_justification, get_justification, get_blocks_in_range, mem,
}
use kno_vectorx.Redis.Connection.{attempts_loop, get_connection}
use kno_vectorx.Indexer.{
  Node, verified, fill_entries, insert_all, justification_data, index_justification,
  listen_for_justifications,
}
use kno_vectorx.Indexer.Stored.{Verified, justification_data-Verified}
use kno_vectorx.Indexer.Listening.{listen_for_justifications-Verified}
use kno_vectorx.Indexer.Repeated.{justification_data-repeated}
use kno_vectorx.Tests.Instances.{
  toy_rpc, toy_libs, toy_header, key_a, key_b, signature_a, block_hash,
}
use kno_vectorx.Tests.Redis.{Memory, memory, memory-IsRedis, connects, chain, empty}

abbrev node : Node
node = record {
  header_of = λ hash. toy_header 7;
  set_id_at = λ hash. 1;
  blake2_256 = λ x. block_hash;
}

abbrev vote : SignedPrecommit
vote = record {
  precommit = record { target_hash = block_hash; target_number = 7 };
  signature = signature_a;
  id = key_a;
}

abbrev announced : (votes : ℕ) → GrandpaJustification
announced votes = record {
  round = 3;
  commit = record {
    target_hash = block_hash;
    target_number = 7;
    precommits = replicate votes vote;
  };
}

abbrev stored_7 : StoredJustificationData
stored_7 = record {
  block_number = 7;
  signed_message = encode_precommit block_hash 7 3 1;
  pubkeys = key_a ∷ [];
  signatures = signature_a ∷ [];
  validator_signed = true ∷ [];
  num_authorities = 1;
}

found_7 :
    justification_data toy_libs toy_rpc node memory connects chain (announced 1)
    ≡ some (some stored_7)
unfolding justification_data verified fill_entries insert_all signature_of get_authorities
    unit_weights bytes_eq
found_7 = refl

justification_data-Verified_example :
    Verified toy_libs stored_7
    × (get_authorities toy_rpc 6 ≡ some (key_a ∷ []))
    × (block_hash ≡ block_hash)
    × (stored_7.block_number ≡ 7)
    × (1 * 2 < length (verified toy_libs stored_7.signed_message (vote ∷ [])) * 3)
justification_data-Verified_example =
    justification_data-Verified toy_libs toy_rpc node memory connects chain (announced 1) stored_7
      found_7

abbrev after_7 : Memory
after_7 =
    memory.zadd (memory.json_set empty (justification_key chain 7) stored_7) (blocks_key chain)
      (codes "7") 7

listened :
    listen_for_justifications toy_libs toy_rpc node memory connects chain (announced 1 ∷ []) empty
    ≡ some after_7
unfolding listen_for_justifications index_justification justification_data verified fill_entries
    insert_all signature_of get_authorities unit_weights bytes_eq add_justification get_connection
    attempts_loop justification_key blocks_key decimal
listened = refl

listen_for_justifications-Verified_example :
    (5 ≤ 7)
    × (7 ≤ 20)
    × (j : StoredJustificationData) × (get_justification memory connects chain 7 after_7
        ≡ some (some j))
    × (j.block_number ≡ 7)
    × Verified toy_libs j
unfolding get_blocks_in_range get_connection attempts_loop blocks_key mem bytes_eq parse_decimal
listen_for_justifications-Verified_example =
    listen_for_justifications-Verified toy_libs toy_rpc node memory connects chain memory-IsRedis
      (λ hash. omega arith) (announced 1 ∷ []) empty after_7 (λ m low high. refl)
      (λ n j rest small e. cc) listened 5 20 (7 ∷ []) (omega arith) refl 0 7 refl

-- Four authorities, of which one votes three times.
abbrev four_rpc : Rpc
four_rpc = record {
  get_header = toy_rpc.get_header;
  get_head = toy_rpc.get_head;
  get_authority_set_id = toy_rpc.get_authority_set_id;
  grandpa_authorities = λ n. (key_b, 1) ∷ (key_a, 1) ∷ (key_b, 1) ∷ (key_b, 1) ∷ [];
  prove_finality = toy_rpc.prove_finality;
}

abbrev four : List Bytes
four = key_b ∷ key_a ∷ key_b ∷ key_b ∷ []

justification_data-repeated_example :
    (j : StoredJustificationData) × (justification_data toy_libs four_rpc node memory connects chain
        (announced 3)
      ≡ some (some j))
    × (j.pubkeys ≡ four)
    × (j.num_authorities ≡ 4)
    × (j.validator_signed ≡ false ∷ true ∷ false ∷ false ∷ [])
unfolding bytes_eq get_authorities unit_weights
justification_data-repeated_example =
    justification_data-repeated toy_libs four_rpc node memory connects chain 3 2 block_hash 7 vote
      four refl refl refl refl (omega arith)
