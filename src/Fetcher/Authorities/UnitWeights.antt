-- ===== src/Fetcher/Authorities/UnitWeights.antt =====
-- The hash of an authority set of unit weights, in circuits/input/mod.rs.
use kno_vectorx.Common.{ℕ, ◌≡◌, refl, ap, ◌∙◌, some, List, [], ◌∷◌, ◌++◌, map, Bytes, length}
use kno_vectorx.Fetcher.Rpc.{Rpc}
use kno_vectorx.Fetcher.Authorities.{
  chain_hash, compute_authority_set_hash, unit_weights, get_authorities,
  compute_authority_set_hash_at,
}

abbrev pub with_weight_1 : Bytes → Bytes × ℕ
with_weight_1 key = (key, 1)

unit_weights-map : (keys : List Bytes) → unit_weights (map with_weight_1 keys) ≡ some keys
unfolding unit_weights
unit_weights-map [] = refl
unit_weights-map (key ∷ keys) = rw (unit_weights-map keys) refl

module _ (sha256 : Bytes → Bytes) (width : (x : Bytes) → length (sha256 x) ≡ 32) where
  length-chain_hash :
      (hash_so_far : Bytes) (keys : List Bytes)
      → length hash_so_far ≡ 32
      → length (chain_hash sha256 hash_so_far keys) ≡ 32
  unfolding chain_hash
  length-chain_hash hash_so_far [] h = h
  length-chain_hash hash_so_far (key ∷ keys) h =
      length-chain_hash (sha256 (hash_so_far ++ key)) keys (width (hash_so_far ++ key))

  -- A set that is not empty and has unit weights has a hash, which is that of its keys.
  pub compute_authority_set_hash_at-keys :
      (rpc : Rpc) (block_number : ℕ) (key : Bytes) (keys : List Bytes)
      → rpc.grandpa_authorities block_number ≡ map with_weight_1 (key ∷ keys)
      → compute_authority_set_hash_at sha256 rpc block_number
        ≡ some (compute_authority_set_hash sha256 (key ∷ keys))
  unfolding compute_authority_set_hash_at compute_authority_set_hash get_authorities chain_hash
  compute_authority_set_hash_at-keys rpc block_number key keys e =
      let listed : unit_weights (rpc.grandpa_authorities block_number) ≡ some (key ∷ keys) =
        ap unit_weights e ∙ unit_weights-map (key ∷ keys) in
      let wide = length-chain_hash (sha256 ([] ++ key)) keys (width ([] ++ key)) in
      rw listed (rw wide refl)
