-- ===== src/Lib.antt =====
-- VectorX: zero-knowledge proofs of Avail headers for an Ethereum contract, the programs that
-- stand in for them, and the operator that requests them.
--
-- The parts and their files. The contract trusts a block and an authority set. `HeaderRange`
-- (circuits/header_range.rs) proves a range of headers after the trusted block, and `Rotate`
-- (circuits/rotate.rs) proves the next authority set. Both read untrusted hints, which the data
-- fetcher answers from a node and from Redis; the operator decides which proof to request.
--
-- - Common: lists, tests and `Option` as the result of a step. `none` is a constraint that cannot be
--   met, a panic or an error.
-- - Plonky2x: the circuit framework (the plonky2x crate) as parameters. `Gates` and `IsDocumented`
--   are its arithmetic, where `documented` is the one instance; `Gadgets` and `IsSound` are hashing,
--   signatures, dynamic indexing and merkle trees. A `Variable` is an element of the Goldilocks field
--   by its least representative; u32 arithmetic wraps; a byte is a number.
-- - Consts, Vars: circuits/consts.rs, circuits/vars.rs and circuits/input/types.rs.
-- - Decoder: circuits/builder/decoder.rs and header.rs (`decode_compact_int`, `decode_header`,
--   `decode_precommit`, `hash_encoded_header`).
-- - Justification: circuits/builder/justification.rs (`compute_authority_set_commitment`,
--   `verify_voting_threshold`, `verify_simple_justification`).
-- - Rotate: circuits/builder/rotate.rs (`verify_epoch_end_header`, `rotate`).
-- - Subchain: circuits/builder/subchain_verification.rs (`verify_subchain`; `map_batch` and
--   `reduce_batches` are the closures of its map-reduce). The loop over a batch carries `BatchState`.
-- - Fetcher: circuits/input/mod.rs (`last_justified_block`, `get_block_headers_range`,
--   `get_merkle_root_commitments`, authority sets, justifications) and the hints for headers and
--   justifications. The node is the record `Rpc`; hashing, signatures and SCALE encodings are the
--   record `Libraries`; what Redis has for a block is a function.
-- - Fetcher.RotateData, Fetcher.InRange: `get_header_rotate` with `RotateHint` of circuits/rotate.rs,
--   and `find_justifications_in_range`. The digest logs of a header are given with their encodings.
-- - Redis: `RedisClient` and the reconnection loops of circuits/input/mod.rs. The server is the record
--   `Server`, and `IsRedis` states what its commands do: JSON.SET and JSON.GET, a sorted set whose
--   members have one score each, and SET and GET of a number. Keys are written out with the decimal
--   digits of their numbers. `Step` is what a writer does, also where it stops between two commands.
-- - Indexer: bin/indexer.rs (`listen_for_justifications`). The announced justifications are a list; the
--   node's answers for a block hash are the record `Node`.
-- - BlockRange: bin/fill_block_range.rs (`get_block_range_data`).
-- - Operator: bin/vectorx.rs (`find_and_request_rotate`, `find_and_request_header_range`,
--   `find_block_to_step_to`). The contract is a record of its view functions, and
--   `abi_encode_packed` is written out as documented.
-- - Events, EventRounds: bin/events.rs (`store_events`, and the loop of `main` for one deployment). What
--   a round sees of Ethereum is the record `Ethereum`; the filter is a function of it.
-- - Programs: the `define` functions of the two circuits, and the `run` functions of
--   circuits/dummy_header_range.rs and circuits/dummy_rotate.rs.
-- - Tests: instances of the parameters, and the properties at concrete inputs.
--
-- A hint is an argument, since a prover may answer it at will. An array of a fixed length is a list;
-- theorems that need its length say so. Loops with a bound in the code recurse on it. The loops of
-- `last_justified_block`, `get_block_headers_range`, `find_block_to_step_to`, `store_events`,
-- `get_block_range_data` and `find_justifications_in_range` have fuel: more rounds than there are blocks
-- up to the head, the end of the range or the limit; the theorems about them show that it is enough,
-- where the counters do not wrap.
--
-- Not modelled: the proof system itself, the Solidity contracts, the network, the environment and
-- logging, the reading of deployments.json, several deployments at once in bin/events.rs, and the
-- program bin/genesis.rs, which prints.
pub mod EventRounds
pub mod Indexer
pub mod BlockRange
pub mod Common
pub mod Consts
pub mod Plonky2x
pub mod Vars
pub mod Decoder
pub mod Justification
pub mod Rotate
pub mod Subchain
pub mod Fetcher
pub mod Operator
pub mod Events
pub mod Programs
pub mod Redis
pub mod Tests
