-- ===== src/Events.antt =====
-- bin/events.rs: the events of the contract are read from Ethereum in batches and stored in Redis.
-- `get_logs` answers the filter for a first and a last block with the decoded events.
pub mod Coverage
use kno_vectorx.Common.{
  ℕ, zero, suc, ◌+◌, ◌%◌, ◌^◌, Bool, true, false, Option, none, some, List, [], ◌++◌, Bytes, ltb,
  if◌then◌else◌, ◌>>=◌,
}

pub record DataCommitmentRange : Type 0 where
  pub start : ℕ
  pub end : ℕ
  pub data_commitment : Bytes

module _ (get_logs : ℕ → ℕ → List DataCommitmentRange) where
  -- `while curr_start_block < end_block`, with fuel: the ranges that are stored, in order.
  unfoldable pub store_loop :
      (fuel curr_start_block end_block : ℕ) → Option (List DataCommitmentRange)
  store_loop zero curr_start_block end_block = none
  store_loop (suc fuel) curr_start_block end_block = elim (ltb curr_start_block end_block) [
    | false ↦ some []
    | true ↦ do
      let next = (curr_start_block + 50000) % 2 ^ 64
      let batch_end_block = if ltb end_block next then end_block else next
      rest ← store_loop fuel batch_end_block end_block
      some (get_logs curr_start_block batch_end_block ++ rest)
  ]

  -- A round for each block is enough.
  unfoldable pub store_events : (start_block end_block : ℕ) → Option (List DataCommitmentRange)
  unfolding store_loop
  store_events start_block end_block = store_loop (suc end_block) start_block end_block
