-- ===== src/Fetcher/Merkle/Commitments.antt =====
-- `get_merkle_root_commitments` of circuits/input/mod.rs, and its agreement with the circuit.
use kno_vectorx.Common.{
  ℕ, ◌+◌, ◌-◌, ◌%◌, ◌^◌, ◌≤◌, ◌<◌, ◌≡◌, refl, sym, ap, ap₂, ◌∙◌, some, List, [], ◌∷◌, ◌++◌, map,
  true, Bytes, length, replicate, le→ltb, ◌==◌, arith, length-map, range_from, length-range_from,
}
use kno_vectorx.Plonky2x.{Gates, Gadgets, u32_mod, zero_hash, tree_root}
use kno_vectorx.Subchain.Chain.{pad, length-pad}
use kno_vectorx.Subchain.Reduction.{pow_pos}
use kno_vectorx.Fetcher.Rpc.{Rpc, Header}
use kno_vectorx.Fetcher.Range.{get_block_headers_range, get_block_headers_range-map}
use kno_vectorx.Fetcher.Merkle.{extend_leaves, get_merkle_root, get_merkle_root_commitments}
use kno_vectorx.Fetcher.Merkle.Powers.{count_ones, count_ones-pow, lt_pow}
use kno_vectorx.Vars.{SubchainVerificationVariable}
use kno_vectorx.Subchain.{state_roots, data_roots}
use kno_vectorx.Subchain.Soundness.{VerifiedRange, capacity}
use kno_vectorx.Fetcher.Merkle.Root.{pad-replicate, fold_nodes-tree_root, extend_full}

module _ (sha256 : Bytes → Bytes) where
  get_merkle_root-full :
      (d : ℕ) (leaves : List Bytes)
      → d < 64
      → length leaves ≡ 2 ^ d
      → get_merkle_root sha256 leaves ≡ some (tree_root sha256 d leaves)
  unfolding get_merkle_root extend_leaves
  get_merkle_root-full d [] h e = absurd (omega (arith, pow_pos d))
  get_merkle_root-full d (x ∷ xs) h e =
      let one : (count_ones (length (x ∷ xs)) == 1) ≡ true =
        ap (λ n. n == 1) (ap count_ones e ∙ count_ones-pow d h) in
      rw (extend_full sha256 (length (x ∷ xs)) (x ∷ xs) one, get_merkle_root)
        (fold_nodes-tree_root sha256 d (length (x ∷ xs)) (x ∷ xs) e (omega (arith, e, lt_pow d)))

  module _ (rpc : Rpc) (d start_block end_block : ℕ) (bounded : d < 32)
      (ordered : start_block ≤ end_block) (in_range : end_block ≤ start_block + 2 ^ d)
      (small : end_block + 200 < u32_mod) where
    -- The headers of the blocks after the start, up to the end.
    abbrev headers : List Header
    headers = map rpc.get_header (range_from (start_block + 1) (end_block - start_block))

    length-headers : length headers ≡ end_block - start_block
    length-headers =
        length-map (range_from (start_block + 1) (end_block - start_block)) rpc.get_header
        ∙ length-range_from _ _

    root_of :
        (f : Header → Bytes)
        → get_merkle_root sha256 (map f headers ++ replicate (2 ^ d - length headers) zero_hash)
          ≡ some (tree_root sha256 d (pad (2 ^ d) (map f headers)))
    root_of f =
        let len = length-map headers f in
        let padded : map f headers ++ replicate (2 ^ d - length headers) zero_hash
            ≡ pad (2 ^ d) (map f headers) =
          ap (λ n. map f headers ++ replicate (2 ^ d - n) zero_hash) (sym len)
          ∙ pad-replicate (2 ^ d) (map f headers) (omega (arith, len, length-headers)) in
        ap (get_merkle_root sha256) padded
        ∙ get_merkle_root-full d (pad (2 ^ d) (map f headers)) (omega arith)
            (length-pad (2 ^ d) (map f headers))

    fetched : get_block_headers_range rpc ((start_block + 1) % u32_mod) end_block ≡ some headers
    fetched =
        let next : (start_block + 1) % u32_mod ≡ start_block + 1 = omega arith in
        let count : end_block + 1 - (start_block + 1) ≡ end_block - start_block = omega arith in
        rw next (
          get_block_headers_range-map rpc (start_block + 1) end_block small
          ∙ ap (λ n. some (map rpc.get_header (range_from (start_block + 1) n))) count)

    -- For a power of two as tree size, a range that fits it, and block numbers that do not wrap,
    -- the commitments are the roots of the trees over the state and the data roots of exactly the
    -- blocks after the start up to the end, filled up with empty leaves to the tree size.
    pub get_merkle_root_commitments-tree_root :
        get_merkle_root_commitments sha256 rpc (2 ^ d) start_block end_block
        ≡ some (
          tree_root sha256 d (pad (2 ^ d) (map (λ (h : Header). h.state_root) headers)),
          tree_root sha256 d (pad (2 ^ d) (map (λ (h : Header). h.data_root) headers)),
        )
    unfolding get_merkle_root_commitments
    get_merkle_root_commitments-tree_root =
        let diff : (end_block + u32_mod - start_block) % u32_mod ≡ end_block - start_block =
          omega arith in
        let one : (count_ones (2 ^ d) == 1) ≡ true =
          ap (λ n. n == 1) (count_ones-pow d (omega arith)) in
        rw (one, diff, le→ltb (2 ^ d) (end_block - start_block) (omega arith), fetched)
          (rw (root_of (λ (h : Header). h.state_root), root_of (λ (h : Header). h.data_root)) refl)

-- The circuit and the fetcher agree: where the circuit accepts a range whose blocks have the roots
-- of the node's headers, the fetcher's commitments for that range and a tree of the circuit's
-- capacity are the two roots that the circuit returns.
module _ (g : Gates) (G : Gadgets) (rpc : Rpc) (max_num_headers trusted target : ℕ)
    (trusted_hash : Bytes) (out : SubchainVerificationVariable)
    (v : VerifiedRange g G max_num_headers trusted trusted_hash target out) where
  abbrev node_headers : List Header
  node_headers = map rpc.get_header (range_from (trusted + 1) (target - trusted))

  pub commitments-eq-circuit :
      v.depth < 32
      → target + 200 < u32_mod
      → map (λ (h : Header). h.state_root) node_headers ≡ state_roots v.blocks
      → map (λ (h : Header). h.data_root) node_headers ≡ data_roots v.blocks
      → get_merkle_root_commitments G.sha256 rpc (capacity max_num_headers) trusted target
        ≡ some (out.state_root_merkle_root, out.data_root_merkle_root)
  commitments-eq-circuit bounded small states datas =
      let fetched =
        get_merkle_root_commitments-tree_root G.sha256 rpc v.depth trusted target bounded
          (omega (arith, v.size)) (omega (arith, v.size, v.fits, v.leaves)) small in
      ap (λ n. get_merkle_root_commitments G.sha256 rpc n trusted target) (sym v.leaves)
      ∙ fetched
      ∙ ap some (
          ap₂ (λ x y. (x, y))
            (ap (λ xs. tree_root G.sha256 v.depth (pad (2 ^ v.depth) xs)) states
              ∙ ap (λ n. tree_root G.sha256 v.depth (pad n (state_roots v.blocks))) v.leaves
              ∙ sym v.state_root)
            (ap (λ xs. tree_root G.sha256 v.depth (pad (2 ^ v.depth) xs)) datas
              ∙ ap (λ n. tree_root G.sha256 v.depth (pad n (data_roots v.blocks))) v.leaves
              ∙ sym v.data_root))
