-- ===== src/EventRounds.antt =====
-- The loop of `main` in bin/events.rs: for each deployment the events from its cursor to the current
-- block are stored in Redis, and then the cursor is set. A panic is `none`.
pub mod Invariant
pub mod Recorded
use kno_vectorx.Common.{
  ℕ, ◌+◌, ◌-◌, Bool, true, false, Option, none, some, List, [], ◌∷◌, ◌++◌, Bytes, ltb, codes,
  assert, ◌>>=◌, ◌>>◌,
}
use kno_vectorx.Events.{DataCommitmentRange, store_events}
use kno_vectorx.Redis.{Server, get_contract_cursor, set_contract_cursor, add_data_commitment_range}

pub record Deployment : Type 0 where
  pub contract_chain_id : ℕ
  pub contract_address : Bytes
  pub cursor_start_block : ℕ

-- What a round sees of Ethereum: whether there is an RPC url for the deployment's chain, the id that
-- the provider reports, the number of the current block, and the decoded logs of the filter.
pub record Ethereum : Type 0 where
  pub has_url : Bool
  pub chain_id : ℕ
  pub current_block : ℕ
  pub get_logs : ℕ → ℕ → List DataCommitmentRange

module _ (r : Server) (connects : ℕ → Bool) (hex_encode : Bytes → Bytes) where
  -- The calls of `add_data_commitment_range` in `store_events`, in order. That the batches are
  -- fetched in between does not matter to what is stored.
  unfoldable pub add_ranges :
      (chain_id : ℕ) (address : Bytes) → List DataCommitmentRange → r.State → Option r.State
  unfolding add_data_commitment_range
  add_ranges chain_id address [] s = some s
  add_ranges chain_id address (range ∷ ranges) s = do
    t ← add_data_commitment_range r connects hex_encode chain_id address range s
    add_ranges chain_id address ranges t

  -- `{:#x}` of an address
  abbrev pub address_text : Bytes → Bytes
  address_text address = codes "0x" ++ hex_encode address

  unfoldable pub store_deployment : Deployment → Ethereum → r.State → Option r.State
  unfolding add_ranges
  store_deployment deployment ethereum s = do
    assert ethereum.has_url
    let contract_address = address_text deployment.contract_address
    stored_cursor ← get_contract_cursor r connects deployment.contract_chain_id contract_address s
    let cursor : ℕ = elim stored_cursor [
      | some cursor ↦ cursor
      | none ↦ deployment.cursor_start_block
    ]
    elim (ltb cursor ethereum.current_block) [
      | false ↦ some s
      | true ↦ do
        ranges ← store_events ethereum.get_logs cursor ethereum.current_block
        t ← add_ranges ethereum.chain_id deployment.contract_address ranges s
        set_contract_cursor r connects deployment.contract_chain_id contract_address
            ethereum.current_block t
    ]

  -- The rounds of one deployment, each with what it sees.
  unfoldable pub store_rounds : Deployment → List Ethereum → r.State → Option r.State
  unfolding store_deployment
  store_rounds deployment [] s = some s
  store_rounds deployment (ethereum ∷ later) s = do
    t ← store_deployment deployment ethereum s
    store_rounds deployment later t
