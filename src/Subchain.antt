-- ===== src/Subchain.antt =====
-- circuits/builder/subchain_verification.rs: a chain of headers is verified by map-reduce. The map
-- stage checks a batch of `headers_per_map` headers, the reduce stage joins neighbouring batches.
-- The headers answer a hint and are untrusted: `headers` is any function of the hint's inputs.
pub mod Soundness
pub mod Reduction
pub mod Covers
pub mod Batch
pub mod Chain
use kno_vectorx.Common.{
  range_from, ℕ, zero, suc, ◌*◌, ◌/◌, ◌^◌, ◌≡◌, Bool, true, Option, none, some, List, [], ◌∷◌, ◌++◌,
  map, Bytes, length, get_or, leb, if◌then◌else◌, ◌>>=◌, ◌>>◌,
}
use kno_vectorx.Consts.{headers_per_map}
use kno_vectorx.Plonky2x.{Gates, Gadgets, zero_hash, tree_reduce}
use kno_vectorx.Vars.{EncodedHeader, HeaderVariable, SubchainVerificationVariable}
use kno_vectorx.Decoder.{hash_encoded_header, decode_header}

pub record SubchainVerificationCtx : Type 0 where
  pub global_start_block : ℕ
  pub global_end_block : ℕ

pub record MapReduceSubchainVariable : Type 0 where
  pub num_blocks : ℕ
  pub start_block : ℕ
  pub start_header_hash : Bytes
  pub start_parent : Bytes
  pub end_block : ℕ
  pub end_header_hash : Bytes
  pub state_merkle_root : Bytes
  pub data_merkle_root : Bytes

-- The hint's headers, by start, end and maximal block.
abbrev pub HeaderHint : Type 0
HeaderHint = ℕ → ℕ → ℕ → List EncodedHeader

-- The variables that the loop over a batch updates.
pub record BatchState : Type 0 where
  pub end_block_num : ℕ
  pub end_header_hash : Bytes
  pub num_headers : ℕ
  pub nb_enabled_leaves : ℕ
  pub curr_block_noop : Bool

-- What the loop pushes for one header: block_hashes, and the fields of the decoded header.
pub record Block : Type 0 where
  pub hash : Bytes
  pub header : HeaderVariable

abbrev pub no_block : Block
no_block = record {
  hash = [];
  header = record { block_number = 0; parent_hash = []; state_root = []; data_root = [] };
}

abbrev pub first_block : List Block → Block
first_block bs = get_or bs 0 no_block

abbrev pub state_roots : List Block → List Bytes
state_roots = map (λ b. b.header.state_root)

abbrev pub data_roots : List Block → List Bytes
data_roots = map (λ b. b.header.data_root)

module _ (g : Gates) (G : Gadgets) where
  -- `if i > 0`: the link to the previous header, unless the block is a no-op.
  unfoldable pub check_link : Option Block → Block → Bool → Option (Unit {0})
  check_link none block curr_block_noop = some tt
  check_link (some previous) block curr_block_noop =
      let hashes_linked = g.is_equal_bytes block.header.parent_hash previous.hash in
      let expected_block_num = g.add_u32 previous.header.block_number 1 in
      let nums_sequential = g.is_equal block.header.block_number expected_block_num in
      let header_correctly_linked = g.and hashes_linked nums_sequential in
      g.assert_is_equal_bool (g.or curr_block_noop header_correctly_linked) true

  unfoldable pub update_batch : (global_end_block : ℕ) → Block → BatchState → BatchState
  update_batch global_end_block block s = record {
    end_block_num = g.select s.curr_block_noop s.end_block_num block.header.block_number;
    end_header_hash = g.select_bytes s.curr_block_noop s.end_header_hash block.hash;
    num_headers = g.add s.num_headers (g.select s.curr_block_noop 0 1);
    nb_enabled_leaves = g.add s.nb_enabled_leaves (g.select s.curr_block_noop 0 1);
    curr_block_noop =
        g.or s.curr_block_noop (g.is_equal block.header.block_number global_end_block);
  }

  -- The loop over the headers of a batch: the last state, and the blocks pushed.
  unfoldable pub batch_loop :
      (global_end_block : ℕ)
      → Option Block
      → BatchState
      → List EncodedHeader
      → Option (BatchState × List Block)
  unfolding check_link update_batch
  batch_loop global_end_block previous s [] = some (s, [])
  batch_loop global_end_block previous s (h ∷ hs) = do
    let hash = hash_encoded_header g G h
    header ← decode_header g G h hash
    let block : Block = record { hash = hash; header = header }
    check_link previous block s.curr_block_noop
    (last, blocks) ←
        batch_loop global_end_block (some block) (update_batch global_end_block block s) hs
    some (last, block ∷ blocks)

  -- The map stage for the batch of the given first and last block.
  unfoldable pub map_range :
      HeaderHint
      → SubchainVerificationCtx
      → (batch_start_block batch_end_block : ℕ) → Option MapReduceSubchainVariable
  unfolding batch_loop
  map_range headers ctx batch_start_block batch_end_block = do
    let is_batch_disabled = g.lt ctx.global_end_block batch_start_block
    let start : BatchState = record {
      end_block_num = 0;
      end_header_hash = zero_hash;
      num_headers = 0;
      nb_enabled_leaves = 0;
      curr_block_noop = is_batch_disabled;
    }
    (last, blocks) ←
        batch_loop ctx.global_end_block none start
          (headers batch_start_block batch_end_block ctx.global_end_block)
    let first = first_block blocks
    g.assert_is_equal_bool
        (g.or (g.is_equal first.header.block_number batch_start_block) is_batch_disabled) true
    g.assert_is_equal_bool
        (g.or (g.is_equal last.end_block_num batch_end_block) last.curr_block_noop) true
    some (record {
      num_blocks = last.num_headers;
      start_block = first.header.block_number;
      start_header_hash = first.hash;
      start_parent = first.header.parent_hash;
      end_block = last.end_block_num;
      end_header_hash = last.end_header_hash;
      state_merkle_root = G.get_root_from_hashed_leaves (state_roots blocks) last.nb_enabled_leaves;
      data_merkle_root = G.get_root_from_hashed_leaves (data_roots blocks) last.nb_enabled_leaves;
    })

  -- The map stage.
  unfoldable pub map_batch :
      HeaderHint → SubchainVerificationCtx → List ℕ → Option MapReduceSubchainVariable
  unfolding map_range
  map_batch headers ctx relative_block_nums =
      map_range headers ctx (g.add_u32 ctx.global_start_block (get_or relative_block_nums 0 0))
        (g.add_u32 ctx.global_start_block (get_or relative_block_nums 7 0))

  -- The reduce stage.
  unfoldable pub reduce_batches :
      MapReduceSubchainVariable → MapReduceSubchainVariable → Option MapReduceSubchainVariable
  reduce_batches left right = do
    let are_subchains_linked = g.is_equal_bytes left.end_header_hash right.start_parent
    let expected_left_end_block_number = g.sub_u32 right.start_block 1
    let are_subchains_sequential = g.is_equal left.end_block expected_left_end_block_number
    let are_subchains_linked = g.and are_subchains_linked are_subchains_sequential
    let is_right_subchain_inactive = g.is_equal right.num_blocks 0
    g.assert_is_equal_bool (g.or is_right_subchain_inactive are_subchains_linked) true
    some (record {
      num_blocks = g.add left.num_blocks right.num_blocks;
      start_block = left.start_block;
      start_header_hash = left.start_header_hash;
      start_parent = left.start_parent;
      end_block = g.select is_right_subchain_inactive left.end_block right.end_block;
      end_header_hash =
          g.select_bytes is_right_subchain_inactive left.end_header_hash right.end_header_hash;
      state_merkle_root = G.sha256 (left.state_merkle_root ++ right.state_merkle_root);
      data_merkle_root = G.sha256 (left.data_merkle_root ++ right.data_merkle_root);
    })

-- `usize::next_power_of_two`, searched from `2 ^ k` upwards.
unfoldable pub power_of_two_from : (fuel k n : ℕ) → ℕ
power_of_two_from zero k n = 2 ^ k
power_of_two_from (suc fuel) k n =
    let rest = power_of_two_from fuel (suc k) n in if leb n (2 ^ k) then 2 ^ k else rest

unfoldable pub next_power_of_two : ℕ → ℕ
unfolding power_of_two_from
next_power_of_two n = power_of_two_from n 0 n

-- The framework's mapreduce over batches of `HEADERS_PER_MAP` inputs, at the types of its one use.
abbrev pub MapReduce : Type 0
MapReduce =
    List ℕ
    → (List ℕ → Option MapReduceSubchainVariable)
    → (MapReduceSubchainVariable → MapReduceSubchainVariable → Option MapReduceSubchainVariable)
    → Option MapReduceSubchainVariable

-- It maps each batch and reduces the outputs as a balanced binary tree.
abbrev pub IsTreeReduction : MapReduce → Type 0
IsTreeReduction mapreduce =
    (depth : ℕ) (inputs : List ℕ) (map_fn : List ℕ → Option MapReduceSubchainVariable)
    (reduce_fn : MapReduceSubchainVariable
      → MapReduceSubchainVariable
      → Option MapReduceSubchainVariable)
    → length inputs ≡ headers_per_map * 2 ^ depth
    → mapreduce inputs map_fn reduce_fn ≡ tree_reduce headers_per_map map_fn reduce_fn depth inputs

module _ (g : Gates) (G : Gadgets) (mapreduce : MapReduce) where
  unfoldable pub verify_subchain :
      (max_num_headers : ℕ)
      → HeaderHint
      → (trusted_block : ℕ) (trusted_header_hash : Bytes) (target_block : ℕ)
      → Option SubchainVerificationVariable
  unfolding map_batch reduce_batches next_power_of_two
  verify_subchain max_num_headers headers trusted_block trusted_header_hash target_block = do
    let ctx : SubchainVerificationCtx = record {
      global_start_block = trusted_block;
      global_end_block = target_block;
    }
    let num_map_jobs = next_power_of_two (max_num_headers / headers_per_map)
    let relative_block_nums = range_from 1 (num_map_jobs * headers_per_map)
    output ← mapreduce relative_block_nums (map_batch g G headers ctx) (reduce_batches g G)
    g.assert_is_equal_bytes trusted_header_hash output.start_parent
    g.assert_is_equal target_block output.end_block
    some (record {
      target_header_hash = output.end_header_hash;
      state_root_merkle_root = output.state_merkle_root;
      data_root_merkle_root = output.data_merkle_root;
    })
