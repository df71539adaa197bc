-- ===== src/Plonky2x/Tree.antt =====
-- Binary trees over lists: the merkle tree and the reduction that the framework documents.
use kno_vectorx.Common.{
  ℕ, zero, suc, ◌*◌, ◌^◌, Bytes, Option, List, [], ◌∷◌, ◌++◌, take, drop, replicate, ◌>>=◌,
}

abbrev pub zero_hash : Bytes
zero_hash = replicate 32 0

-- One level of a merkle tree: neighbours are hashed together.
unfoldable pub hash_level : (Bytes → Bytes) → List Bytes → List Bytes
hash_level h [] = []
hash_level h (x ∷ []) = []
hash_level h (x ∷ y ∷ rest) = h (x ++ y) ∷ hash_level h rest

-- The root over `2 ^ depth` leaves, which are not hashed themselves.
unfoldable pub tree_root : (Bytes → Bytes) → ℕ → List Bytes → Bytes
tree_root h zero [] = []
tree_root h zero (x ∷ xs) = x
tree_root h (suc d) xs = tree_root h d (hash_level h xs)

-- The leaves from the `n`-th on are disabled.
unfoldable pub enable_leaves : ℕ → List Bytes → List Bytes
enable_leaves n [] = []
enable_leaves zero (x ∷ xs) = zero_hash ∷ enable_leaves zero xs
enable_leaves (suc n) (x ∷ xs) = x ∷ enable_leaves n xs

-- `2 ^ depth` batches of `size` inputs are mapped, and the outputs reduced pairwise.
unfoldable pub tree_reduce {ℓ κ} :
    {I : Type ℓ} {O : Type κ} (size : ℕ) (map_fn : List I → Option O) (reduce : O → O → Option O)
    → ℕ
    → List I
    → Option O
tree_reduce size map_fn reduce zero xs = map_fn (take size xs)
tree_reduce size map_fn reduce (suc d) xs = do
  left ← tree_reduce size map_fn reduce d (take (size * 2 ^ d) xs)
  right ← tree_reduce size map_fn reduce d (drop (size * 2 ^ d) xs)
  reduce left right
