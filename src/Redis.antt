-- ===== src/Redis.antt =====
-- `RedisClient` of circuits/input/mod.rs: the keys, and the operations on a Redis server. The server
-- is a parameter; `IsRedis` is what its commands are documented to do. A panic is `none`.
pub mod Answers
pub mod Index
pub mod Connection
use kno_vectorx.Common.{
  ℕ, zero, suc, ◌+◌, ◌≡◌, Bool, true, false, ◌&&◌, Option, none, some, List, [], ◌∷◌, ◌++◌, map,
  Bytes, length, leb, ◌==◌, bytes_eq, if◌then◌else◌, codes, decimal, parse_decimal, assert, ◌>>=◌,
  ◌>>◌,
}
use kno_vectorx.Events.{DataCommitmentRange}
use kno_vectorx.Vars.{StoredJustificationData}
use kno_vectorx.Operator.{be_bytes}
use kno_vectorx.Redis.Connection.{get_connection}

-- A Redis server with the JSON module, as the `redis` crate drives it. Text goes in and out as bytes.
pub record Server : Type 1 where
  pub State : Type 0
  -- The JSON text of an answer.
  pub Answer : Type 0
  -- JSON.SET at the root path, JSON.GET of the root path; `none` is the error of a missing key
  pub json_set : State → Bytes → StoredJustificationData → State
  pub json_get : State → Bytes → Option Answer
  -- serde_json::from_slice of the answer
  pub from_slice : Answer → Option (List StoredJustificationData)
  -- ZADD of a member with its score, ZRANGEBYSCORE
  pub zadd : State → Bytes → Bytes → ℕ → State
  pub zrangebyscore : State → Bytes → ℕ → ℕ → List Bytes
  -- SET and GET of a number
  pub set : State → Bytes → ℕ → State
  pub get : State → Bytes → Option ℕ

unfoldable pub mem : Bytes → List Bytes → Bool
mem x [] = false
mem x (y ∷ ys) = let rest = mem x ys in if bytes_eq x y then true else rest

pub record IsRedis (r : Server) : Type 0 where
  pub json_get_self :
      (s : r.State) (k : Bytes) (v : StoredJustificationData)
      → (r.json_get (r.json_set s k v) k >>= r.from_slice) ≡ some (v ∷ [])
  pub json_get_other :
      (s : r.State) (k j : Bytes) (v : StoredJustificationData)
      → bytes_eq k j ≡ false
      → r.json_get (r.json_set s k v) j ≡ r.json_get s j
  pub json_get-zadd :
      (s : r.State) (k j m : Bytes) (score : ℕ)
      → bytes_eq k j ≡ false
      → r.json_get (r.zadd s k m score) j ≡ r.json_get s j
  pub zrangebyscore-json_set :
      (s : r.State) (k j : Bytes) (v : StoredJustificationData) (a b : ℕ)
      → bytes_eq k j ≡ false
      → r.zrangebyscore (r.json_set s k v) j a b ≡ r.zrangebyscore s j a b
  -- The member is in the range exactly if its score is; other members are as before.
  pub zrangebyscore-zadd :
      (s : r.State) (k m x : Bytes) (score a b : ℕ)
      → mem x (r.zrangebyscore (r.zadd s k m score) k a b)
        ≡ (if bytes_eq x m then leb a score && leb score b else mem x (r.zrangebyscore s k a b))
  pub get_self : (s : r.State) (k : Bytes) (v : ℕ) → r.get (r.set s k v) k ≡ some v
  pub get_other :
      (s : r.State) (k j : Bytes) (v : ℕ) → bytes_eq k j ≡ false → r.get (r.set s k v) j ≡ r.get s j
  pub get-zadd :
      (s : r.State) (k j m : Bytes) (score : ℕ)
      → bytes_eq k j ≡ false
      → r.get (r.zadd s k m score) j ≡ r.get s j
  pub zrangebyscore-set :
      (s : r.State) (k j : Bytes) (v a b : ℕ)
      → bytes_eq k j ≡ false
      → r.zrangebyscore (r.set s k v) j a b ≡ r.zrangebyscore s j a b

-- `format!` of the keys. An address is its printed form.
unfoldable pub justification_key : (avail_chain_id : Bytes) (block_number : ℕ) → Bytes
justification_key avail_chain_id block_number =
    avail_chain_id ++ (codes ":justification:" ++ decimal block_number)

unfoldable pub blocks_key : Bytes → Bytes
blocks_key avail_chain_id = avail_chain_id ++ (codes ":justification:" ++ codes "blocks")

unfoldable pub cursor_key : (ethereum_chain_id : ℕ) (address : Bytes) → Bytes
cursor_key ethereum_chain_id address =
    decimal ethereum_chain_id ++ (codes ":" ++ (address ++ codes ":cursor"))

unfoldable pub ranges_key : (chain_id : ℕ) (address : Bytes) → Bytes
ranges_key chain_id address = decimal chain_id ++ (codes ":0x" ++ (address ++ codes ":ranges"))

-- `connects` says which attempts to connect succeed; `hex_encode` is that of the hex crate.
module _ (r : Server) (connects : ℕ → Bool) where
  -- The block is indexed after its justification is set.
  unfoldable pub add_justification : Bytes → StoredJustificationData → r.State → Option r.State
  unfolding justification_key blocks_key get_connection
  add_justification avail_chain_id justification s = do
    _ ← get_connection connects
    let set =
        r.json_set s (justification_key avail_chain_id justification.block_number) justification
    some (
        r.zadd set (blocks_key avail_chain_id) (decimal justification.block_number)
          justification.block_number)

  -- `some none` is the error of an answer that does not deserialize; a missing key and indexing an empty
  -- list panic.
  unfoldable pub get_justification :
      Bytes → (block_number : ℕ) → r.State → Option (Option StoredJustificationData)
  unfolding justification_key get_connection
  get_justification avail_chain_id block_number s = do
    _ ← get_connection connects
    answer ← r.json_get s (justification_key avail_chain_id block_number)
    elim (r.from_slice answer) [
      | none ↦ some none
      | some [] ↦ none
      | some (justification ∷ rest) ↦ some (some justification)
    ]

  unfoldable pub get_blocks_in_range : Bytes → (start end : ℕ) → r.State → Option (List ℕ)
  unfolding blocks_key get_connection
  get_blocks_in_range avail_chain_id start end s = do
    _ ← get_connection connects
    some (map parse_decimal (r.zrangebyscore s (blocks_key avail_chain_id) start end))

  unfoldable pub get_contract_cursor :
      (ethereum_chain_id : ℕ) (address : Bytes) → r.State → Option (Option ℕ)
  unfolding cursor_key get_connection
  get_contract_cursor ethereum_chain_id address s = do
    _ ← get_connection connects
    some (r.get s (cursor_key ethereum_chain_id address))

  unfoldable pub set_contract_cursor :
      (ethereum_chain_id : ℕ) (address : Bytes) (cursor : ℕ) → r.State → Option r.State
  unfolding cursor_key get_connection
  set_contract_cursor ethereum_chain_id address cursor s = do
    _ ← get_connection connects
    some (r.set s (cursor_key ethereum_chain_id address) cursor)

  unfoldable pub add_data_commitment_range :
      (hex_encode : Bytes → Bytes) (chain_id : ℕ) (address : Bytes)
      → DataCommitmentRange
      → r.State
      → Option r.State
  unfolding ranges_key get_connection
  add_data_commitment_range hex_encode chain_id address range s = do
    _ ← get_connection connects
    assert (length range.data_commitment == 32)
    let range_data = be_bytes 4 range.start ++ (be_bytes 4 range.end ++ range.data_commitment)
    some (r.zadd s (ranges_key chain_id (hex_encode address)) (hex_encode range_data) range.end)
