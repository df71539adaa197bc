-- ===== src/Fetcher/Authorities.antt =====
-- Authority sets and precommits in circuits/input/mod.rs.
pub mod UnitWeights
use kno_vectorx.Common.{
  ℕ, ◌+◌, ◌*◌, ◌==◌, Option, some, List, [], ◌∷◌, ◌++◌, Bytes, length, slice, assert, get_elem?,
  ◌>>=◌, ◌>>◌,
}
use kno_vectorx.Fetcher.Rpc.{Rpc}

-- `compute_authority_set_hash`: the chained hash over the public keys. The hash before the first
-- key is empty.
module _ (sha256 : Bytes → Bytes) where
  unfoldable pub chain_hash : Bytes → List Bytes → Bytes
  chain_hash hash_so_far [] = hash_so_far
  chain_hash hash_so_far (authority ∷ rest) = chain_hash (sha256 (hash_so_far ++ authority)) rest

  unfoldable pub compute_authority_set_hash : List Bytes → Bytes
  unfolding chain_hash
  compute_authority_set_hash authorities = chain_hash [] authorities

-- The keys, once every weight was found to be 1.
unfoldable pub unit_weights : List (Bytes × ℕ) → Option (List Bytes)
unit_weights [] = some []
unit_weights ((pub_key, weight) ∷ rest) = do
  assert (weight == 1)
  authorities ← unit_weights rest
  some (pub_key ∷ authorities)

unfoldable pub get_authorities : Rpc → ℕ → Option (List Bytes)
unfolding unit_weights
get_authorities rpc block_number = unit_weights (rpc.grandpa_authorities block_number)

-- The method of `RpcDataFetcher`, which fetches the authorities first. `H256::from_slice` panics
-- unless it is given 32 bytes.
unfoldable pub compute_authority_set_hash_at : (Bytes → Bytes) → Rpc → ℕ → Option Bytes
unfolding chain_hash
compute_authority_set_hash_at sha256 rpc block_number = do
  authorities ← get_authorities rpc block_number
  let hash_so_far = chain_hash sha256 [] authorities
  assert (length hash_so_far == 32)
  some hash_so_far

-- `from_le_bytes`
unfoldable pub le_uint : Bytes → ℕ
le_uint [] = 0
le_uint (x ∷ xs) = x + 256 * le_uint xs

-- Block hash, block number, round, authority set id. Indexing past the end panics.
unfoldable pub decode_precommit : Bytes → Option (Bytes × ℕ × ℕ × ℕ)
unfolding le_uint
decode_precommit precommit = do
  first ← get_elem? precommit 0
  assert (first == 1)
  _ ← get_elem? precommit 52
  some (
    slice precommit 1 33,
    le_uint (slice precommit 33 37),
    le_uint (slice precommit 37 45),
    le_uint (slice precommit 45 53),
  )
