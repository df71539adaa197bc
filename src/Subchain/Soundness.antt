-- ===== src/Subchain/Soundness.antt =====
-- `verify_subchain` of subchain_verification.rs against the abstract view of a chain of headers.
use kno_vectorx.Common.{
  ℕ, zero, suc, ◌+◌, ◌/◌, ◌%◌, ◌==◌, ◌*◌, ◌^◌, ◌≤◌, ◌<◌, ◌≡◌, refl, sym, ap, subst, ◌∙◌, Option,
  some, List, ◌++◌, Bytes, length, take, drop, leb, arith, bind_inv, eq_of_bytes_eq, eq_of_==,
  assert_inv, bytes_eq, range_from, take-range_from, drop-range_from, length-range_from, Bool-cases,
  inl, inr,
}
use native.Mathlib.Nat.{mul_comm}
use native.Mathlib.Numerals.{add-one}
use kno_vectorx.Plonky2x.{
  Gates, Gadgets, IsDocumented, eq_documented, IsSound, documented, u32_mod, tree_root, tree_reduce,
}
use kno_vectorx.Vars.{SubchainVerificationVariable}
use kno_vectorx.Subchain.{
  Block, SubchainVerificationCtx, MapReduceSubchainVariable, MapReduce, IsTreeReduction, HeaderHint,
  map_batch, reduce_batches, state_roots, data_roots, power_of_two_from, next_power_of_two,
  verify_subchain,
}
use kno_vectorx.Subchain.Chain.{Linked, last_hash, AllDecoded, pad}
use kno_vectorx.Subchain.Covers.{Covers, map-Covers}
use kno_vectorx.Subchain.Reduction.{double, leaves, pow_pos, joined-Covers}
use kno_vectorx.Consts.{headers_per_map}

power_of_two_from-pow : (fuel k n : ℕ) → (d : ℕ) × (power_of_two_from fuel k n ≡ 2 ^ d)
unfolding power_of_two_from
power_of_two_from-pow zero k n = (k, refl)
power_of_two_from-pow (suc fuel) k n = elim (Bool-cases (leb n (2 ^ k))) [
  | inl e ↦ (k, rw e)
  | inr e ↦ rw e (power_of_two_from-pow fuel (suc k) n)
]

-- The halves of a reduction that succeeds.
tree_reduce_inv :
    (map_fn : List ℕ → Option MapReduceSubchainVariable)
    (reduce : MapReduceSubchainVariable
      → MapReduceSubchainVariable
      → Option MapReduceSubchainVariable)
    (d : ℕ) (xs : List ℕ) (out : MapReduceSubchainVariable)
    → tree_reduce 8 map_fn reduce (suc d) xs ≡ some out
    → (l : MapReduceSubchainVariable) × (r : MapReduceSubchainVariable) × (tree_reduce 8 map_fn
          reduce d
          (take (8 * 2 ^ d) xs)
        ≡ some l)
      × (tree_reduce 8 map_fn reduce d (drop (8 * 2 ^ d) xs) ≡ some r)
      × (reduce l r ≡ some out)
unfolding tree_reduce
tree_reduce_inv map_fn reduce d xs out e =
    let (l, el, e1) = bind_inv (tree_reduce 8 map_fn reduce d (take (8 * 2 ^ d) xs)) _ e in
    let (r, er, e2) = bind_inv (tree_reduce 8 map_fn reduce d (drop (8 * 2 ^ d) xs)) _ e1 in
    (l, r, el, er, e2)

next_power_of_two-pow : (n : ℕ) → (d : ℕ) × (next_power_of_two n ≡ 2 ^ d)
unfolding next_power_of_two
next_power_of_two-pow n = power_of_two_from-pow n 0 n

module _ (G : Gadgets) (sound : IsSound G) (headers : HeaderHint) (trusted target : ℕ)
    (sized : (s e m : ℕ) → length (headers s e m) ≡ 8) (small : target < u32_mod) where
  abbrev ctx : SubchainVerificationCtx
  ctx = record { global_start_block = trusted; global_end_block = target }

  leaf-Covers :
      (r : ℕ) (out : MapReduceSubchainVariable)
      → trusted + r + 8 ≤ u32_mod
      → map_batch documented G headers ctx (range_from r 8) ≡ some out
      → (bs : List Block) × Covers G target (trusted + r) 0 out bs
  unfolding map_batch range_from
  leaf-Covers r out fits e =
      let first : (trusted + r) % u32_mod ≡ trusted + r = omega arith in
      map-Covers G sound target headers trusted (trusted + r) _ out (sized _ _ _) small
        (rw first at e)

  abbrev tree : ℕ → List ℕ → Option MapReduceSubchainVariable
  tree = tree_reduce 8 (map_batch documented G headers ctx) (reduce_batches documented G)

  base-Covers :
      (r : ℕ) (out : MapReduceSubchainVariable)
      → trusted + r + 8 ≤ u32_mod
      → tree zero (range_from r 8) ≡ some out
      → (bs : List Block) × Covers G target (trusted + r) 0 out bs
  unfolding tree_reduce
  base-Covers r out fits e = leaf-Covers r out fits (rw (take-range_from 8 0 r) at e)

  -- The whole tree.
  tree-Covers :
      (d r : ℕ) (out : MapReduceSubchainVariable)
      → trusted + r + 8 * 2 ^ d ≤ u32_mod
      → tree d (range_from r (8 * 2 ^ d)) ≡ some out
      → (bs : List Block) × Covers G target (trusted + r) d out bs
  tree-Covers zero r out fits e = base-Covers r out fits e
  tree-Covers (suc d) r out fits e =
      let half = 8 * 2 ^ d in
      let whole : tree (suc d) (range_from r (half + half)) ≡ some out =
        subst (λ n. tree (suc d) (range_from r n) ≡ some out) (double d) e in
      let (l, right, el, er, join) =
        tree_reduce_inv (map_batch documented G headers ctx) (reduce_batches documented G) d
          (range_from r (half + half)) out whole in
      let (bs, left) =
        tree-Covers d r l (omega (arith, double d))
          (subst (λ xs. tree d xs ≡ some l) (take-range_from half half r) el) in
      let (cs, rest) =
        tree-Covers d (r + half) right (omega (arith, double d))
          (subst (λ xs. tree d xs ≡ some right) (drop-range_from half half r) er) in
      let start : trusted + (r + half) ≡ trusted + r + half = omega arith in
      (
        bs ++ cs,
        joined-Covers G target (trusted + r) d l right out bs left small join cs
            (subst (λ s. Covers G target s d right cs) start rest),
      )

-- The number of headers that the circuit has room for.
abbrev pub capacity : ℕ → ℕ
capacity max_num_headers = next_power_of_two (max_num_headers / headers_per_map) * headers_per_map

-- The verified range: the blocks `trusted + 1 .. target`, each the header that its hash commits to,
-- linked from the trusted hash to the target hash, and the merkle roots over their roots.
pub record VerifiedRange (g : Gates) (G : Gadgets) (max_num_headers trusted : ℕ)
    (trusted_hash : Bytes) (target : ℕ) (out : SubchainVerificationVariable) : Type 0 where
  pub blocks : List Block
  pub depth : ℕ
  pub size : trusted + length blocks ≡ target
  pub fits : length blocks ≤ capacity max_num_headers
  pub linked : Linked trusted_hash (suc trusted) blocks
  pub decoded : AllDecoded g G blocks
  pub target_hash : out.target_header_hash ≡ last_hash trusted_hash blocks
  pub leaves : 2 ^ depth ≡ capacity max_num_headers
  pub state_root :
      out.state_root_merkle_root
      ≡ tree_root G.sha256 depth (pad (capacity max_num_headers) (state_roots blocks))
  pub data_root :
      out.data_root_merkle_root
      ≡ tree_root G.sha256 depth (pad (capacity max_num_headers) (data_roots blocks))

-- What the last checks of `verify_subchain` add to the reduction.
record Checked (G : Gadgets) (mapreduce : MapReduce) (max_num_headers : ℕ) (headers : HeaderHint)
    (trusted : ℕ) (trusted_hash : Bytes) (target : ℕ) (out : SubchainVerificationVariable)
    : Type 0 where
  output : MapReduceSubchainVariable
  run :
      mapreduce
        (range_from 1 (capacity max_num_headers))
        (map_batch documented G headers
          (record { global_start_block = trusted; global_end_block = target }))
        (reduce_batches documented G)
      ≡ some output
  parent : trusted_hash ≡ output.start_parent
  end : target ≡ output.end_block
  hash : out.target_header_hash ≡ output.end_header_hash
  state : out.state_root_merkle_root ≡ output.state_merkle_root
  datas : out.data_root_merkle_root ≡ output.data_merkle_root

Checked-inv :
    (G : Gadgets) (mapreduce : MapReduce) (max_num_headers : ℕ) (headers : HeaderHint) (trusted : ℕ)
    (trusted_hash : Bytes) (target : ℕ) (out : SubchainVerificationVariable)
    → verify_subchain documented G mapreduce max_num_headers headers trusted trusted_hash target
      ≡ some out
    → Checked G mapreduce max_num_headers headers trusted trusted_hash target out
unfolding verify_subchain
Checked-inv G mapreduce max_num_headers headers trusted trusted_hash target out e =
    let (output, run, e1) =
      bind_inv
        (mapreduce (range_from 1 (capacity max_num_headers))
          (map_batch documented G headers
            (record { global_start_block = trusted; global_end_block = target }))
          (reduce_batches documented G))
        _ e in
    let (p, e2) = assert_inv (bytes_eq trusted_hash output.start_parent) _ e1 in
    let (t, e3) = assert_inv (target == output.end_block) _ e2 in
    record {
      output = output;
      run = run;
      parent = eq_of_bytes_eq trusted_hash output.start_parent p;
      end = eq_of_== target output.end_block t;
      hash = cc;
      state = cc;
      datas = cc;
    }

module _ (G : Gadgets) (sound : IsSound G) (mapreduce : MapReduce)
    (trees : IsTreeReduction mapreduce) (headers : HeaderHint) (max_num_headers trusted : ℕ)
    (trusted_hash : Bytes) (target : ℕ) (out : SubchainVerificationVariable)
    (sized : (s e m : ℕ) → length (headers s e m) ≡ headers_per_map) (below : trusted < target)
    (small : target < u32_mod) (room : trusted + capacity max_num_headers < u32_mod) where
  sound_at :
      verify_subchain documented G mapreduce max_num_headers headers trusted trusted_hash target
        ≡ some out
      → VerifiedRange documented G max_num_headers trusted trusted_hash target out
  sound_at e =
      let c = Checked-inv G mapreduce max_num_headers headers trusted trusted_hash target out e in
      let (d, pow) = next_power_of_two-pow (max_num_headers / headers_per_map) in
      let full : capacity max_num_headers ≡ 8 * 2 ^ d = ap (λ n. n * 8) pow ∙ mul_comm (2 ^ d) 8 in
      let ran =
        sym (
          trees d (range_from 1 (8 * 2 ^ d)) (map_batch documented G headers _)
            (reduce_batches documented G) (length-range_from 1 (8 * 2 ^ d)))
        ∙ subst
            (λ n.
              mapreduce (range_from 1 n)
                (map_batch documented G headers
                  (record { global_start_block = trusted; global_end_block = target }))
                (reduce_batches documented G)
              ≡ some c.output)
            full c.run in
      let (bs, v) =
        tree-Covers G sound headers trusted target sized small d 1 c.output (omega arith) ran in
      let some_bs : 0 < length bs = omega (arith, v.size, pow_pos d) in
      record {
        blocks = bs;
        depth = suc (suc (suc d));
        size = omega (arith, v.ended some_bs, c.end);
        fits = omega (arith, v.size);
        linked =
            subst (λ p. Linked p (suc trusted) bs) (sym c.parent)
              (subst (λ n. Linked c.output.start_parent n bs) (add-one trusted) v.linked);
        decoded = v.decoded;
        target_hash = c.hash ∙ v.hashed some_bs ∙ ap (λ p. last_hash p bs) (sym c.parent);
        leaves = sym (full ∙ leaves d);
        state_root =
            c.state
            ∙ v.state_root
            ∙ ap (λ n. tree_root G.sha256 (suc (suc (suc d))) (pad n (state_roots bs))) (sym full);
        data_root =
            c.datas
            ∙ v.data_root
            ∙ ap (λ n. tree_root G.sha256 (suc (suc (suc d))) (pad n (data_roots bs))) (sym full);
      }

module _ (g : Gates) (gates : IsDocumented g) (G : Gadgets) (sound : IsSound G)
    (mapreduce : MapReduce) (trees : IsTreeReduction mapreduce) (headers : HeaderHint)
    (max_num_headers trusted : ℕ) (trusted_hash : Bytes) (target : ℕ) where
  -- With gates and gadgets that do what they document, batches of eight headers from the hint, a
  -- target above the trusted block and no wrap-around of block numbers: whatever headers the hint
  -- supplies, if `verify_subchain` accepts then there are blocks numbered `trusted + 1` to `target`,
  -- at most as many as the circuit has room for, each the decoding of a header with its hash, each
  -- the child of the one before, from the trusted hash to the target hash that is returned, and the
  -- returned roots are those of the merkle trees over their state and data roots, filled up with
  -- empty leaves.
  pub verify_subchain-VerifiedRange :
      (out : SubchainVerificationVariable)
      → ((s e m : ℕ) → length (headers s e m) ≡ headers_per_map)
      → trusted < target
      → target < u32_mod
      → trusted + capacity max_num_headers < u32_mod
      → verify_subchain g G mapreduce max_num_headers headers trusted trusted_hash target ≡ some out
      → VerifiedRange g G max_num_headers trusted trusted_hash target out
  verify_subchain-VerifiedRange out sized below small room =
      subst
        (λ g.
          verify_subchain g G mapreduce max_num_headers headers trusted trusted_hash target
            ≡ some out
          → VerifiedRange g G max_num_headers trusted trusted_hash target out)
        (eq_documented g gates)
        (sound_at G sound mapreduce trees headers max_num_headers trusted trusted_hash target out
          sized below small room)
