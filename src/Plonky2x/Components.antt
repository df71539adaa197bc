-- ===== src/Plonky2x/Components.antt =====
-- Hashing, signatures, dynamic indexing and merkle trees of the framework, and what is relied on.
use kno_vectorx.Common.{
  ℕ, ◌+◌, ◌^◌, ◌≤◌, ◌<◌, ◌≡◌, Bool, true, ◌&&◌, ◌||◌, not, some, List, ◌∷◌, Bytes, length,
  get_elem?, take, slice,
}
use kno_vectorx.Plonky2x.Tree.{tree_root, enable_leaves}

pub record Gadgets : Type 0 where
  -- curta_sha256, sha256
  pub sha256 : Bytes → Bytes
  -- curta_blake2b_variable
  pub blake2b : Bytes → ℕ → Bytes
  -- The Ed25519 predicate: public key, message, signature.
  pub ed25519 : Bytes → Bytes → Bytes → Bool
  -- curta_eddsa_verify_sigs_conditional: whether its constraints can be met.
  pub verify_sigs_conditional : List Bool → List ℕ → List Bytes → List Bytes → List Bytes → Bool
  -- get_fixed_subarray::<_, LEN>: array, start, seed of the challenge.
  pub get_fixed_subarray : ℕ → Bytes → ℕ → Bytes → Bytes
  -- select_array_random_gate
  pub select_array : List ℕ → ℕ → ℕ
  pub select_array_bytes : List Bytes → ℕ → Bytes
  -- get_root_from_hashed_leaves: leaves, number of enabled leaves.
  pub get_root_from_hashed_leaves : List Bytes → ℕ → Bytes

-- Each enabled entry holds a valid signature over the first `len` bytes of its message.
unfoldable pub all_signed_valid :
    (Bytes → Bytes → Bytes → Bool)
    → List Bool
    → List ℕ
    → List Bytes
    → List Bytes
    → List Bytes
    → Bool
all_signed_valid verify (s ∷ ss) (n ∷ ns) (m ∷ ms) (g ∷ gs) (k ∷ ks) =
    (not s || verify k (take n m) g) && all_signed_valid verify ss ns ms gs ks
all_signed_valid verify _ _ _ _ _ = true

pub record IsSound (G : Gadgets) : Type 0 where
  pub sha256_length : (x : Bytes) → length (G.sha256 x) ≡ 32
  pub blake2b_length : (x : Bytes) (n : ℕ) → length (G.blake2b x n) ≡ 32
  pub verify_sigs_lem :
      (ss : List Bool) (ns : List ℕ) (ms gs ks : List Bytes)
      → G.verify_sigs_conditional ss ns ms gs ks ≡ all_signed_valid G.ed25519 ss ns ms gs ks
  pub subarray_lem :
      (len : ℕ) (xs : Bytes) (start : ℕ) (seed : Bytes)
      → start + len ≤ length xs
      → G.get_fixed_subarray len xs start seed ≡ slice xs start (start + len)
  pub select_array_lem :
      (xs : List ℕ) (i : ℕ) → i < length xs → get_elem? xs i ≡ some (G.select_array xs i)
  pub select_array_bytes_lem :
      (xs : List Bytes) (i : ℕ) → i < length xs → get_elem? xs i ≡ some (G.select_array_bytes xs i)
  pub merkle_lem :
      (depth : ℕ) (leaves : List Bytes) (n : ℕ)
      → length leaves ≡ 2 ^ depth
      → G.get_root_from_hashed_leaves leaves n ≡ tree_root G.sha256 depth (enable_leaves n leaves)
