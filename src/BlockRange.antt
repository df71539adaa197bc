-- ===== src/BlockRange.antt =====
-- bin/fill_block_range.rs: the data of consecutive block ranges from the contract's latest block to a
-- given one, as `updateBlockRangeData` of the contract takes it. A panic is `none`.
pub mod Cover
use kno_vectorx.Common.{
  ℕ, zero, suc, ◌+◌, ◌%◌, true, false, not, Option, none, some, List, [], ◌∷◌, map, Bytes, length,
  min, ltb, ◌==◌, assert, ◌>>=◌, ◌>>◌,
}
use kno_vectorx.Plonky2x.{u32_mod}
use kno_vectorx.Fetcher.Rpc.{Rpc}
use kno_vectorx.Fetcher.Merkle.{get_merkle_root_commitments}
use kno_vectorx.Fetcher.Authorities.{compute_authority_set_hash_at}

pub record BlockRangeData : Type 0 where
  pub start_blocks : List ℕ
  pub end_blocks : List ℕ
  pub header_hashes : List Bytes
  pub data_root_commitments : List Bytes
  pub state_root_commitments : List Bytes
  pub end_authority_set_id : ℕ
  pub end_authority_set_hash : Bytes

-- What a round pushes to the five vectors.
pub record Pushed : Type 0 where
  pub start_block : ℕ
  pub end_block : ℕ
  pub header_hash : Bytes
  pub data_root_commitment : Bytes
  pub state_root_commitment : Bytes

module _ (sha256 : Bytes → Bytes) (rpc : Rpc) (header_range_commitment_tree_size : ℕ) where
  -- The loop over `(i..end_block).step_by(..)`, with fuel: the iterator stops where the next start
  -- would pass the largest `u32`, but the end of a range is a wrapping sum.
  unfoldable pub range_loop : (fuel i end_block : ℕ) → Option (List Pushed)
  range_loop zero i end_block = none
  range_loop (suc fuel) i end_block = elim (ltb i end_block) [
    | false ↦ some []
    | true ↦ do
      let block_range_end = min ((i + header_range_commitment_tree_size) % u32_mod) end_block
      let header = rpc.get_header block_range_end
      (state_root_commitment, data_root_commitment) ←
          get_merkle_root_commitments sha256 rpc header_range_commitment_tree_size i block_range_end
      assert (length data_root_commitment == 32)
      assert (length state_root_commitment == 32)
      rest ← range_loop fuel (i + header_range_commitment_tree_size) end_block
      some (
          record {
            start_block = i;
            end_block = block_range_end;
            header_hash = header.hash;
            data_root_commitment = data_root_commitment;
            state_root_commitment = state_root_commitment;
          }
          ∷ rest)
  ]

  -- `step_by(0)` panics. A round for each block is enough.
  unfoldable pub get_block_range_data : (start_block end_block : ℕ) → Option BlockRangeData
  unfolding range_loop
  get_block_range_data start_block end_block = do
    assert (not (header_range_commitment_tree_size == 0))
    pushed ← range_loop (suc end_block) start_block end_block
    let end_authority_set_id = rpc.get_authority_set_id end_block
    end_authority_set_hash ← compute_authority_set_hash_at sha256 rpc end_block
    some (record {
      start_blocks = map (λ (p : Pushed). p.start_block) pushed;
      end_blocks = map (λ (p : Pushed). p.end_block) pushed;
      header_hashes = map (λ (p : Pushed). p.header_hash) pushed;
      data_root_commitments = map (λ (p : Pushed). p.data_root_commitment) pushed;
      state_root_commitments = map (λ (p : Pushed). p.state_root_commitment) pushed;
      end_authority_set_id = end_authority_set_id;
      end_authority_set_hash = end_authority_set_hash;
    })
