-- ===== src/BlockRange/Cover.antt =====
-- The ranges of bin/fill_block_range.rs leave no block out, and their commitments are those of their
-- blocks.
use kno_vectorx.Common.{
  ℕ, zero, suc, ◌+◌, ◌-◌, ◌%◌, ◌^◌, ◌≤◌, ◌<◌, ◌≡◌, refl, sym, subst, ◌∙◌, false, some, List, [],
  ◌∷◌, map, Bytes, length, min, ltb, ◌==◌, arith, range_from, Bool-cases, inl, inr, ltb→lt,
  ltb-false, ◌++◌,
}
use kno_vectorx.Plonky2x.{u32_mod, tree_root, hash_level}
use kno_vectorx.Subchain.Chain.{pad, length-pad, length-hash_level}
use native.Mathlib.Nat.{pow-suc}
use mathlib.Core.List.{map-map}
use kno_vectorx.Subchain.Reduction.{pow_pos}
use kno_vectorx.Fetcher.Rpc.{Rpc, Header}
use kno_vectorx.Fetcher.Merkle.Commitments.{get_merkle_root_commitments-tree_root}
use kno_vectorx.Fetcher.Authorities.{compute_authority_set_hash}
use kno_vectorx.Fetcher.Authorities.UnitWeights.{with_weight_1, compute_authority_set_hash_at-keys}
use kno_vectorx.BlockRange.{BlockRangeData, Pushed, range_loop, get_block_range_data}

-- Each element is a hash's worth of bytes.
abbrev AllHashes : List Bytes → Type 0
AllHashes [] = Unit {0}
AllHashes (x ∷ xs) = (length x ≡ 32) × AllHashes xs

AllHashes-map : (f : ℕ → Bytes) (ns : List ℕ) → ((n : ℕ) → length (f n) ≡ 32) → AllHashes (map f ns)
AllHashes-map f [] h = tt
AllHashes-map f (n ∷ ns) h = (h n, AllHashes-map f ns h)

AllHashes-pad : (n : ℕ) (xs : List Bytes) → AllHashes xs → AllHashes (pad n xs)
AllHashes-pad zero xs h = tt
AllHashes-pad (suc n) [] h = (refl, AllHashes-pad n [] tt)
AllHashes-pad (suc n) (x ∷ xs) h = (h.0, AllHashes-pad n xs h.1)

module _ (sha256 : Bytes → Bytes) (width : (x : Bytes) → length (sha256 x) ≡ 32) where
  AllHashes-hash_level : (xs : List Bytes) → AllHashes xs → AllHashes (hash_level sha256 xs)
  unfolding hash_level
  AllHashes-hash_level [] h = tt
  AllHashes-hash_level (x ∷ []) h = tt
  AllHashes-hash_level (x ∷ y ∷ xs) h = (width (x ++ y), AllHashes-hash_level xs h.1.1)

  length-tree_root :
      (d : ℕ) (xs : List Bytes)
      → length xs ≡ 2 ^ d
      → AllHashes xs
      → length (tree_root sha256 d xs) ≡ 32
  unfolding tree_root
  length-tree_root zero [] e h = absurd (omega arith)
  length-tree_root zero (x ∷ xs) e h = h.0
  length-tree_root (suc d) xs e h =
      length-tree_root d (hash_level sha256 xs)
        (length-hash_level sha256 (2 ^ d) xs (e ∙ omega (arith, pow-suc 2 d)))
        (AllHashes-hash_level xs h)

  module _ (rpc : Rpc)
      (roots : (n : ℕ)
        → (length (rpc.get_header n).state_root ≡ 32) × (length (rpc.get_header n).data_root ≡ 32))
      (d : ℕ) (bounded : d < 32) (last : ℕ) (small : last + 2 ^ d + 200 < u32_mod) where
    -- The root over a field of the headers of the blocks after `start` up to `end`, filled up with
    -- empty leaves.
    abbrev pub root_over : (Header → Bytes) → (start end : ℕ) → Bytes
    root_over f start end =
        tree_root sha256 d
          (pad (2 ^ d) (map f (map rpc.get_header (range_from (start + 1) (end - start)))))

    length-root_over :
        (f : Header → Bytes) (start end : ℕ)
        → ((n : ℕ) → length (f (rpc.get_header n)) ≡ 32)
        → length (root_over f start end) ≡ 32
    length-root_over f start end h = length-tree_root d _ (length-pad (2 ^ d) _) (
        AllHashes-pad (2 ^ d) _ (
          subst AllHashes (sym (map-map f rpc.get_header (range_from (start + 1) (end - start))))
            (AllHashes-map (λ n. f (rpc.get_header n)) (range_from (start + 1) (end - start)) h)))

    -- Ranges from `start` to `last` that follow one another, are not empty and fit the tree, with the
    -- hashes and the roots of their blocks.
    abbrev pub Covered : (start : ℕ) → List Pushed → Type 0
    Covered start [] = start ≡ last
    Covered start (p ∷ ps) =
        (p.start_block ≡ start)
        × (start < p.end_block)
        × (p.end_block ≤ start + 2 ^ d)
        × (p.header_hash ≡ (rpc.get_header p.end_block).hash)
        × (p.data_root_commitment ≡ root_over (λ (h : Header). h.data_root) start p.end_block)
        × (p.state_root_commitment ≡ root_over (λ (h : Header). h.state_root) start p.end_block)
        × Covered p.end_block ps

    range_loop-Covered :
        (fuel i : ℕ)
        → last - i < fuel
        → (ps : List Pushed) × (range_loop sha256 rpc (2 ^ d) fuel i last ≡ some ps)
          × Covered (min i last) ps
    unfolding range_loop
    range_loop-Covered zero i enough = absurd (omega arith)
    range_loop-Covered (suc fuel) i enough = elim (Bool-cases (ltb i last)) [
      | inl more ↦
          let below : i < last = ltb→lt i last more in
          let wide : 0 < 2 ^ d = pow_pos d in
          let end = min (i + 2 ^ d) last in
          let (ps, ran, covered) = range_loop-Covered fuel (i + 2 ^ d) (omega arith) in
          let next : (i + 2 ^ d) % u32_mod ≡ i + 2 ^ d = omega arith in
          let roots_of =
            get_merkle_root_commitments-tree_root sha256 rpc d i end bounded (omega arith)
              (omega arith) (omega arith) in
          let width1 = length-root_over (λ (h : Header). h.data_root) i end (λ n. (roots n).1) in
          let width2 = length-root_over (λ (h : Header). h.state_root) i end (λ n. (roots n).0) in
          let from : min i last ≡ i = omega arith in
          (
            record {
              start_block = i;
              end_block = end;
              header_hash = (rpc.get_header end).hash;
              data_root_commitment = root_over (λ (h : Header). h.data_root) i end;
              state_root_commitment = root_over (λ (h : Header). h.state_root) i end;
            }
                ∷ ps,
            rw (more, range_loop) (rw (next, roots_of) (rw (width1, width2, ran) refl)),
            (sym from, omega arith, omega arith, refl, rw from refl, rw from refl, covered),
          )
      | inr done ↦ ([], rw (done, range_loop) refl, omega (arith, ltb-false i last done))
    ]

    -- From the contract's latest block to one that is not before it, for a tree of 2 ^ d leaves with
    -- d below 32, where the last block, the tree and 200 together are below 2 ^ 32, on a chain whose
    -- header roots have 32 bytes and whose authority set at the last block is not empty and has
    -- weights 1 only, with a hash function of 32 bytes: the data is found, and its five vectors list
    -- ranges that follow one another without a gap, are not empty, fit the tree, end with the last
    -- block, and carry the hash of their last header and the roots over exactly their blocks; with
    -- the id and the hash of that authority set.
    pub get_block_range_data-Covered :
        (start_block : ℕ) (key : Bytes) (keys : List Bytes)
        → start_block ≤ last
        → rpc.grandpa_authorities last ≡ map with_weight_1 (key ∷ keys)
        → (data_ : BlockRangeData) × (get_block_range_data sha256 rpc (2 ^ d) start_block last
            ≡ some data_)
          × (ps : List Pushed) × Covered start_block ps
          × (data_.start_blocks ≡ map (λ (p : Pushed). p.start_block) ps)
          × (data_.end_blocks ≡ map (λ (p : Pushed). p.end_block) ps)
          × (data_.header_hashes ≡ map (λ (p : Pushed). p.header_hash) ps)
          × (data_.data_root_commitments ≡ map (λ (p : Pushed). p.data_root_commitment) ps)
          × (data_.state_root_commitments ≡ map (λ (p : Pushed). p.state_root_commitment) ps)
          × (data_.end_authority_set_id ≡ rpc.get_authority_set_id last)
          × (data_.end_authority_set_hash ≡ compute_authority_set_hash sha256 (key ∷ keys))
    unfolding get_block_range_data
    get_block_range_data-Covered start_block key keys ordered authorities =
        let hashed =
          compute_authority_set_hash_at-keys sha256 width rpc last key keys authorities in
        let (ps, ran, covered) = range_loop-Covered (suc last) start_block (omega arith) in
        let from : min start_block last ≡ start_block = omega arith in
        let size : (2 ^ d == 0) ≡ false = ground (arith, pow_pos d) in
        (
          _,
          rw (size, ran) (rw hashed refl),
          ps,
          subst (λ n. Covered n ps) from covered,
          refl,
          refl,
          refl,
          refl,
          refl,
          refl,
          refl,
        )
