-- ===== src/Fetcher/Merkle/Root.antt =====
-- What the merkle roots of circuits/input/mod.rs are, as trees over padded leaves.
use kno_vectorx.Common.{
  ℕ, zero, suc, ◌+◌, ◌-◌, ◌*◌, ◌^◌, ◌≤◌, ◌<◌, ◌≡◌, refl, sym, ap, ◌∙◌, inl, inr, ◌≢◌, some, List,
  [], ◌∷◌, ◌++◌, true, false, Bytes, length, get_or, replicate, le→ltb, lt→ltb, ◌==◌, arith,
  Bool-cases, length-append, eq_of_==,
}
use native.Mathlib.Nat.{pow-suc}
use kno_vectorx.Plonky2x.{zero_hash, hash_level, tree_root}
use kno_vectorx.Subchain.Chain.{pad, length-pad, length-hash_level}
use kno_vectorx.Subchain.Reduction.{pow_pos}
use kno_vectorx.Fetcher.Merkle.{extend_leaves, fold_nodes, get_merkle_root}
use kno_vectorx.Fetcher.Merkle.Powers.{
  count_ones, count_ones-pow, pow_of_count_ones, next_pow, lt_pow, exponent_lt,
}

pad_full : (n : ℕ) (xs : List Bytes) → length xs ≡ n → pad n xs ≡ xs
pad_full zero [] e = refl
pad_full zero (x ∷ xs) e = absurd (omega arith)
pad_full (suc n) [] e = absurd (omega arith)
pad_full (suc n) (x ∷ xs) e = ap (◌∷◌ x) (pad_full n xs (omega arith))

pad-snoc : (n : ℕ) (xs : List Bytes) → length xs < n → pad n (xs ++ zero_hash ∷ []) ≡ pad n xs
pad-snoc zero xs h = absurd (omega arith)
pad-snoc (suc n) [] h = refl
pad-snoc (suc n) (x ∷ xs) h = ap (◌∷◌ x) (pad-snoc n xs (omega arith))

pad-nil : (n : ℕ) → pad n [] ≡ replicate n zero_hash
pad-nil zero = refl
pad-nil (suc n) = ap (◌∷◌ zero_hash) (pad-nil n)

pub pad-replicate :
    (n : ℕ) (xs : List Bytes) → length xs ≤ n → xs ++ replicate (n - length xs) zero_hash ≡ pad n xs
pad-replicate n [] h =
    let e : n - 0 ≡ n = omega arith in ap (λ k. replicate k zero_hash) e ∙ sym (pad-nil n)
pad-replicate zero (x ∷ xs) h = absurd (omega arith)
pad-replicate (suc n) (x ∷ xs) h =
    let e : suc n - suc (length xs) ≡ n - length xs = omega arith in
    ap (◌∷◌ x) (ap (λ k. xs ++ replicate k zero_hash) e ∙ pad-replicate n xs (omega arith))

module _ (sha256 : Bytes → Bytes) where
  single_node :
      (nodes : List Bytes) → length nodes ≡ 1 → get_or nodes 0 [] ≡ tree_root sha256 0 nodes
  unfolding tree_root
  single_node [] e = refl
  single_node (x ∷ xs) e = refl

  pub fold_nodes-tree_root :
      (d fuel : ℕ) (nodes : List Bytes)
      → length nodes ≡ 2 ^ d
      → d < fuel
      → fold_nodes sha256 fuel nodes ≡ some (tree_root sha256 d nodes)
  unfolding fold_nodes tree_root
  fold_nodes-tree_root d zero nodes e h = absurd (omega arith)
  fold_nodes-tree_root zero (suc fuel) nodes e h =
      rw (le→ltb 1 (length nodes) (omega arith), fold_nodes) (ap some (single_node nodes e))
  fold_nodes-tree_root (suc d) (suc fuel) nodes e h =
      rw (lt→ltb 1 (length nodes) (omega (arith, pow-suc 2 d, pow_pos d)), fold_nodes)
        (fold_nodes-tree_root d fuel (hash_level sha256 nodes)
          (length-hash_level sha256 (2 ^ d) nodes (omega (arith, pow-suc 2 d))) (omega arith))

  -- A power of two of leaves stays as it is.
  pub extend_full :
      (fuel : ℕ) (leaves : List Bytes)
      → (count_ones (length leaves) == 1) ≡ true
      → extend_leaves sha256 (fuel + 1) leaves ≡ some leaves
  unfolding extend_leaves
  extend_full fuel leaves one =
      let e : fuel + 1 ≡ suc fuel = omega arith in rw (e, one, extend_leaves) refl

  -- The leaves are filled up to a power of two not above `2 ^ top`.
  record Extended (leaves : List Bytes) (top fuel : ℕ) : Type 0 where
    depth : ℕ
    extended : extend_leaves sha256 fuel leaves ≡ some (pad (2 ^ depth) leaves)
    holds : length leaves ≤ 2 ^ depth
    least : 2 ^ depth ≤ 2 ^ top

  extend_leaves-pad :
      (top fuel : ℕ) (leaves : List Bytes)
      → top < 64
      → 2 ^ top < 2 ^ 64
      → length leaves ≤ 2 ^ top
      → 2 ^ top - length leaves < fuel
      → Extended leaves top fuel
  unfolding extend_leaves
  extend_leaves-pad top zero leaves t small le enough = absurd (omega arith)
  extend_leaves-pad top (suc fuel) leaves t small le enough =
      elim (Bool-cases (count_ones (length leaves) == 1)) [
        | inl stop ↦
            let (d, pow) =
              pow_of_count_ones (length leaves) (omega arith)
                (eq_of_== (count_ones (length leaves)) 1 stop) in
            record {
              depth = d;
              extended = rw (stop, extend_leaves) (ap some (sym (pad_full (2 ^ d) leaves pow)));
              holds = omega (arith, pow);
              least = omega (arith, pow);
            }
        | inr more ↦
            let next = leaves ++ zero_hash ∷ [] in
            let len : length next ≡ length leaves + 1 = length-append leaves (zero_hash ∷ []) in
            let not_top : length leaves ≢ 2 ^ top = λ e. full_stops e more in
            let r = extend_leaves-pad top fuel next t small (omega arith) (omega arith) in
            record {
              depth = r.depth;
              extended =
                  rw (more, extend_leaves)
                    (r.extended ∙ ap some (pad-snoc (2 ^ r.depth) leaves (omega (arith, r.holds))));
              holds = omega (arith, r.holds);
              least = r.least;
            }
      ]
    where
      full_stops : length leaves ≡ 2 ^ top → ¬ ((count_ones (length leaves) == 1) ≡ false)
      full_stops e more =
          let one : count_ones (length leaves) ≡ 1 = ap count_ones e ∙ count_ones-pow top t in
          ground arith

  -- The root of any number of leaves but none is that of the tree over the next power of two of
  -- leaves, filled up with empty ones: the loops end, and there are fewer than twice the leaves.
  pub get_merkle_root-tree_root :
      (x : Bytes) (xs : List Bytes)
      → suc (length xs) < 2 ^ 63
      → (d : ℕ) × (get_merkle_root sha256 (x ∷ xs)
          ≡ some (tree_root sha256 d (pad (2 ^ d) (x ∷ xs))))
        × (suc (length xs) ≤ 2 ^ d)
        × (2 ^ d < 2 * suc (length xs))
  unfolding get_merkle_root
  get_merkle_root-tree_root x xs small =
      let (top, lo, hi) = next_pow (length xs) in
      let small' : 2 ^ top < 2 ^ 64 = omega arith in
      let r =
        extend_leaves-pad top (length (x ∷ xs) + 1) (x ∷ xs) (exponent_lt top 64 small') small' lo
          (omega arith) in
      let len = length-pad (2 ^ r.depth) (x ∷ xs) in
      (
        r.depth,
        rw (r.extended, get_merkle_root)
            (fold_nodes-tree_root r.depth _ (pad (2 ^ r.depth) (x ∷ xs)) len
              (omega (arith, len, lt_pow r.depth))),
        r.holds,
        omega (arith, r.least),
      )
