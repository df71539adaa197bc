-- ===== src/Tests/Instances.antt =====
-- Small instances of the parameters: a framework with toy hashes and signatures that does what is
-- documented, a node with constant headers, and inputs that the circuits accept.
use kno_vectorx.Common.{
  ℕ, zero, suc, ◌+◌, ◌*◌, ◌/◌, ◌^◌, ◌≤◌, ◌<◌, ◌≡◌, refl, ap, ◌∙◌, Bool, true, false, some, List, [],
  ◌∷◌, ◌++◌, Bytes, length, get_or, get_elem?, take, drop, slice, replicate, length-append,
  length-take, leb, bytes_eq, if◌then◌else◌, arith,
}
use native.Mathlib.Nat.{pow-suc}
use kno_vectorx.Plonky2x.{
  Gadgets, IsSound, all_signed_valid, zero_hash, tree_root, enable_leaves, tree_reduce,
}
use kno_vectorx.Decoder.Precommits.{encode_precommit}
use kno_vectorx.Fetcher.Rpc.{Rpc, Header, Libraries}
use kno_vectorx.Subchain.{MapReduce, IsTreeReduction}
use kno_vectorx.Subchain.Reduction.{pow_pos}

-- The first 32 bytes, filled up with zeros.
abbrev pub first_bytes : Bytes → Bytes
first_bytes x = take 32 (x ++ zero_hash)

pub length-first_bytes : (x : Bytes) → length (first_bytes x) ≡ 32
length-first_bytes x =
    length-take 32 (x ++ zero_hash) ∙ omega (arith, length-append {0} x zero_hash)

-- How often `n` is halved until it is at most `size`.
abbrev pub depth_from : (fuel size n : ℕ) → ℕ
depth_from zero size n = 0
depth_from (suc fuel) size n =
    let rest = depth_from fuel size (n / 2) in if leb n size then 0 else suc rest

depth_from-pow :
    (d fuel size : ℕ)
    → ((d : ℕ) → size * 2 ^ suc d ≡ 2 * (size * 2 ^ d))
    → ((d : ℕ) → size ≤ size * 2 ^ d)
    → 0 < size
    → d < fuel
    → depth_from fuel size (size * 2 ^ d) ≡ d
depth_from-pow d zero size grow big positive enough = absurd (omega arith)
depth_from-pow zero (suc fuel) size grow big positive enough =
    let one : leb (size * 2 ^ 0) size ≡ true = ground arith in rw one refl
depth_from-pow (suc d) (suc fuel) size grow big positive enough =
    let half : size * 2 ^ suc d ≡ 2 * (size * 2 ^ d) = grow d in
    let more : leb (size * 2 ^ suc d) size ≡ false = ground (arith, grow d, big d) in
    let next : size * 2 ^ suc d / 2 ≡ size * 2 ^ d = omega (arith, half) in
    rw (more, next) (ap suc (depth_from-pow d fuel size grow big positive (omega arith)))

depth_bound : (d : ℕ) → d < 2 ^ d
depth_bound zero = omega arith
depth_bound (suc d) = omega (arith, pow-suc 2 d, depth_bound d)

abbrev pub toy_ed25519 : Bytes → Bytes → Bytes → Bool
toy_ed25519 key message signature = bytes_eq key (take 32 signature)

abbrev pub toy : Gadgets
toy = record {
  sha256 = first_bytes;
  blake2b = λ x n. first_bytes (drop 32 (take n x));
  ed25519 = toy_ed25519;
  verify_sigs_conditional = all_signed_valid toy_ed25519;
  get_fixed_subarray = λ len xs start seed. slice xs start (start + len);
  select_array = λ xs i. get_or xs i 0;
  select_array_bytes = λ xs i. get_or xs i [];
  get_root_from_hashed_leaves = λ leaves n.
      tree_root first_bytes (depth_from (suc (length leaves)) 1 (length leaves))
        (enable_leaves n leaves);
}

get_or_lem {ℓ} :
    {A : Type ℓ} (xs : List A) (i : ℕ) (d : A)
    → i < length xs
    → get_elem? xs i ≡ some (get_or xs i d)
get_or_lem [] i d h = absurd (omega arith)
get_or_lem (x ∷ xs) zero d h = refl
get_or_lem (x ∷ xs) (suc i) d h = get_or_lem xs i d (omega arith)

pub toy-IsSound : IsSound toy
toy-IsSound = record {
  sha256_length = length-first_bytes;
  blake2b_length = λ x n. length-first_bytes (drop 32 (take n x));
  verify_sigs_lem = λ ss ns ms gs ks. refl;
  subarray_lem = λ len xs start seed h. refl;
  select_array_lem = λ xs i h. get_or_lem xs i 0 h;
  select_array_bytes_lem = λ xs i h. get_or_lem xs i [] h;
  merkle_lem = λ depth leaves n e. merkle depth leaves n e;
}
  where
    merkle :
        (depth : ℕ) (leaves : List Bytes) (n : ℕ)
        → length leaves ≡ 2 ^ depth
        → toy.get_root_from_hashed_leaves leaves n
          ≡ tree_root first_bytes depth (enable_leaves n leaves)
    merkle depth leaves n e =
        let size : length leaves ≡ 1 * 2 ^ depth = e ∙ omega arith in
        let enough : depth < suc (length leaves) = omega (arith, depth_bound depth) in
        let d : depth_from (suc (length leaves)) 1 (length leaves) ≡ depth =
          ap (depth_from (suc (length leaves)) 1) size
          ∙ depth_from-pow depth (suc (length leaves)) 1 (λ k. omega (arith, pow-suc 2 k))
              (λ k. omega (arith, pow_pos k)) (omega arith) enough in
        ap (λ k. tree_root first_bytes k (enable_leaves n leaves)) d

abbrev pub toy_mapreduce : MapReduce
toy_mapreduce inputs map_fn reduce_fn =
    tree_reduce 8 map_fn reduce_fn (depth_from (suc (length inputs)) 8 (length inputs)) inputs

pub toy_mapreduce-IsTreeReduction : IsTreeReduction toy_mapreduce
toy_mapreduce-IsTreeReduction depth inputs map_fn reduce_fn e =
    let enough : depth < suc (length inputs) = omega (arith, depth_bound depth) in
    let d : depth_from (suc (length inputs)) 8 (length inputs) ≡ depth =
      ap (depth_from (suc (length inputs)) 8) e
      ∙ depth_from-pow depth (suc (length inputs)) 8 (λ k. omega (arith, pow-suc 2 k))
          (λ k. omega (arith, pow_pos k)) (omega arith) enough in
    ap (λ k. tree_reduce 8 map_fn reduce_fn k inputs) d

abbrev pub key_a : Bytes
key_a = replicate 32 1

abbrev pub key_b : Bytes
key_b = replicate 32 2

abbrev pub signature_a : Bytes
signature_a = replicate 64 1

abbrev pub block_hash : Bytes
block_hash = replicate 32 9

-- A chain whose authority set changes at every fourth block.
abbrev pub toy_header : ℕ → Header
toy_header n = record {
  number = n;
  parent_hash = block_hash;
  state_root = replicate 32 n;
  data_root = replicate 32 3;
  hash = block_hash;
  encoded = n ∷ 7 ∷ [];
  digest_logs = [];
}

abbrev pub toy_rpc : Rpc
toy_rpc = record {
  get_header = toy_header;
  get_head = toy_header 23;
  get_authority_set_id = λ n. n / 4;
  grandpa_authorities = λ n. (key_a, 1) ∷ [];
  prove_finality = λ n. record {
    round = 3;
    commit = record {
      target_hash = block_hash;
      target_number = n;
      precommits =
          record {
            precommit = record { target_hash = block_hash; target_number = n };
            signature = signature_a;
            id = key_a;
          }
          ∷ [];
    };
  };
}

abbrev pub toy_libs : Libraries
toy_libs = record {
  sha256 = first_bytes;
  ed25519_verify = toy_ed25519;
  encode_compact = λ n. n * 4 ∷ [];
  encode_precommit_message =
      λ p round set_id. encode_precommit p.target_hash p.target_number round set_id;
  dummy_public_key = key_b;
  dummy_signature = signature_a;
}
