-- ===== src/Fetcher/Merkle.antt =====
-- `get_merkle_root` and `get_merkle_root_commitments` of circuits/input/mod.rs.
pub mod Powers
pub mod Root
pub mod Commitments
use kno_vectorx.Common.{
  ℕ, zero, suc, ◌+◌, ◌-◌, ◌*◌, ◌/◌, ◌%◌, ◌^◌, ◌≤◌, ◌<◌, ◌≡◌, refl, sym, ap, ap₂, subst, ◌∙◌, ◌⊎◌,
  inl, inr, Option, none, some, List, [], ◌∷◌, ◌++◌, map, Bool, true, false, Bytes, length, get_or,
  replicate, ltb, ◌==◌, arith, Bool-cases, ◌>>=◌, ◌>>◌, assert, not, length-append,
  length-replicate, length-map, range_from, if◌then◌else◌, eq_of_==, bind_inv,
}
use mathlib.Core.List.{append-nil, append_assoc}
use native.Mathlib.Nat.{pow-suc}
use kno_vectorx.Plonky2x.{u32_mod, zero_hash, hash_level, tree_root}
use kno_vectorx.Subchain.Chain.{pad, length-pad, length-hash_level}
use kno_vectorx.Fetcher.Rpc.{Rpc, Header}
use kno_vectorx.Fetcher.Range.{get_block_headers_range, get_block_headers_range-map}
use Powers.{count_ones, count_ones-pow, pow_of_count_ones, next_pow}

module _ (sha256 : Bytes → Bytes) where
  -- `while leaves.len().count_ones() != 1`, with fuel.
  unfoldable pub extend_leaves : ℕ → List Bytes → Option (List Bytes)
  extend_leaves zero leaves = none
  extend_leaves (suc fuel) leaves = elim (count_ones (length leaves) == 1) [
    | true ↦ some leaves
    | false ↦ extend_leaves fuel (leaves ++ zero_hash ∷ [])
  ]

  -- `while nodes.len() > 1`, with fuel, and then `nodes[0]`.
  unfoldable pub fold_nodes : ℕ → List Bytes → Option Bytes
  fold_nodes zero nodes = none
  fold_nodes (suc fuel) nodes = elim (ltb 1 (length nodes)) [
    | true ↦ fold_nodes fuel (hash_level sha256 nodes)
    | false ↦ some (get_or nodes 0 [])
  ]

  -- Fewer leaves are pushed than there are, and each round at least halves the nodes.
  unfoldable pub get_merkle_root : List Bytes → Option Bytes
  unfolding extend_leaves fold_nodes
  get_merkle_root [] = some []
  get_merkle_root (x ∷ xs) = do
    leaves ← extend_leaves (length (x ∷ xs) + 1) (x ∷ xs)
    fold_nodes (length leaves) leaves

  -- A `u32` difference wraps, and is then out of range.
  unfoldable pub get_merkle_root_commitments :
      Rpc → (tree_size start_block end_block : ℕ) → Option (Bytes × Bytes)
  unfolding get_merkle_root
  get_merkle_root_commitments rpc tree_size start_block end_block = do
    assert (count_ones tree_size == 1)
    assert (not (ltb tree_size ((end_block + u32_mod - start_block) % u32_mod)))
    headers ← get_block_headers_range rpc ((start_block + 1) % u32_mod) end_block
    let missing = replicate (tree_size - length headers) zero_hash
    let data_root_leaves = map (λ (h : Header). h.data_root) headers ++ missing
    let state_root_leaves = map (λ (h : Header). h.state_root) headers ++ missing
    state_root ← get_merkle_root state_root_leaves
    data_root ← get_merkle_root data_root_leaves
    some (state_root, data_root)
