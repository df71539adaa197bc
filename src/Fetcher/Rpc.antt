-- ===== src/Fetcher/Rpc.antt =====
-- What `RpcDataFetcher` of circuits/input/mod.rs asks of an Avail node, and of the libraries for
-- hashing, signatures and SCALE encoding.
use kno_vectorx.Common.{ℕ, Bool, Bytes, List}
use kno_vectorx.Vars.{GrandpaJustification, Precommit}

-- `DigestItem`: only consensus logs are told apart; `encoded` is the log's own encoding.
pub data DigestItem : Type 0 where
  consensus : (consensus_id value encoded : Bytes) → DigestItem
  other : (encoded : Bytes) → DigestItem

-- What is read of an Avail header: its fields, `hash()`, `data_root()` and `encode()`.
pub record Header : Type 0 where
  pub number : ℕ
  pub parent_hash : Bytes
  pub state_root : Bytes
  pub data_root : Bytes
  pub hash : Bytes
  pub encoded : Bytes
  pub digest_logs : List DigestItem

pub record Rpc : Type 0 where
  -- chain_get_block_hash, then chain_get_header
  pub get_header : ℕ → Header
  -- chain_get_finalized_head, then chain_get_header
  pub get_head : Header
  -- storage().grandpa().current_set_id() at the block
  pub get_authority_set_id : ℕ → ℕ
  -- GrandpaApi_grandpa_authorities at the block: public keys with weights
  pub grandpa_authorities : ℕ → List (Bytes × ℕ)
  -- grandpa_proveFinality, decoded
  pub prove_finality : ℕ → GrandpaJustification

pub record Libraries : Type 0 where
  -- Sha256
  pub sha256 : Bytes → Bytes
  -- ed25519 verification: public key, message, signature
  pub ed25519_verify : Bytes → Bytes → Bytes → Bool
  -- SCALE encodings: Compact(u32), and (SignerMessage::PrecommitMessage, round, authority set id)
  pub encode_compact : ℕ → Bytes
  pub encode_precommit_message : Precommit → ℕ → ℕ → Bytes
  -- DUMMY_PUBLIC_KEY, DUMMY_SIGNATURE
  pub dummy_public_key : Bytes
  pub dummy_signature : Bytes
