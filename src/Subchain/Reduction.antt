-- ===== src/Subchain/Reduction.antt =====
-- The reduce stage of subchain_verification.rs, and the whole reduction tree.
use kno_vectorx.Common.{
  ℕ, zero, suc, ◌+◌, ◌%◌, ◌*◌, ◌^◌, ◌≤◌, ◌<◌, ◌≡◌, sym, ap, ap₂, subst, ◌∙◌, some, List, [], ◌∷◌,
  ◌++◌, map, Bytes, length, arith, length-append, length-map, eq_of_bytes_eq,
}
use mathlib.Core.List.{map-append, append-nil}
use native.Mathlib.Nat.{pow-suc}
use kno_vectorx.Plonky2x.{Gadgets, documented, u32_mod, field_order, tree_root}
use kno_vectorx.Subchain.{Block, MapReduceSubchainVariable, reduce_batches}
use kno_vectorx.Subchain.Chain.{
  Linked, last_hash, pad, pad-append_full, pad-append_empty, length-pad, Linked-append,
  last_hash-append, AllDecoded-append, tree_root-append,
}
use kno_vectorx.Subchain.Covers.{Covers}

pub pow_pos : (d : ℕ) → 0 < 2 ^ d
pow_pos zero = omega arith
pow_pos (suc d) = omega (arith, pow-suc 2 d, pow_pos d)

pub double : (d : ℕ) → 8 * 2 ^ suc d ≡ 8 * 2 ^ d + 8 * 2 ^ d
double d = omega (arith, pow-suc 2 d)

pub leaves : (d : ℕ) → 8 * 2 ^ d ≡ 2 ^ suc (suc (suc d))
leaves d = omega (arith, pow-suc 2 d, pow-suc 2 (suc d), pow-suc 2 (suc (suc d)))

module _ (G : Gadgets) (target : ℕ) where
  -- What the reduce stage checks, and what it puts out.
  record Reduced (l r out : MapReduceSubchainVariable) : Type 0 where
    link : 0 < r.num_blocks → l.end_header_hash ≡ r.start_parent
    num_blocks : out.num_blocks ≡ (l.num_blocks + r.num_blocks) % field_order
    start_block : out.start_block ≡ l.start_block
    start_parent : out.start_parent ≡ l.start_parent
    end_left :
        r.num_blocks ≡ 0 → (out.end_block ≡ l.end_block) × (out.end_header_hash ≡ l.end_header_hash)
    end_right :
        0 < r.num_blocks → (out.end_block ≡ r.end_block) × (out.end_header_hash ≡ r.end_header_hash)
    state : out.state_merkle_root ≡ G.sha256 (l.state_merkle_root ++ r.state_merkle_root)
    datas : out.data_merkle_root ≡ G.sha256 (l.data_merkle_root ++ r.data_merkle_root)

  reduce_inv :
      (l r out : MapReduceSubchainVariable)
      → reduce_batches documented G l r ≡ some out
      → Reduced l r out
  unfolding reduce_batches
  reduce_inv l r out e = record {
    link = λ h. ground (arith, eq_of_bytes_eq l.end_header_hash r.start_parent);
    num_blocks = ground arith;
    start_block = ground arith;
    start_parent = ground arith;
    end_left = λ h. ground arith;
    end_right = λ h. ground arith;
    state = ground arith;
    datas = ground arith;
  }

  -- The roots over both halves, of which the left is full or the right empty.
  joined_root :
      (f : Block → Bytes) (d : ℕ) (bs cs : List Block) (l r out : Bytes)
      → out ≡ G.sha256 (l ++ r)
      → l ≡ tree_root G.sha256 (suc (suc (suc d))) (pad (8 * 2 ^ d) (map f bs))
      → r ≡ tree_root G.sha256 (suc (suc (suc d))) (pad (8 * 2 ^ d) (map f cs))
      → pad (8 * 2 ^ d + 8 * 2 ^ d) (map f bs ++ map f cs)
        ≡ pad (8 * 2 ^ d) (map f bs) ++ pad (8 * 2 ^ d) (map f cs)
      → out ≡ tree_root G.sha256 (suc (suc (suc (suc d)))) (pad (8 * 2 ^ suc d) (map f (bs ++ cs)))
  joined_root f d bs cs l r out e el er joined =
      e
      ∙ ap₂ (λ x y. G.sha256 (x ++ y)) el er
      ∙ sym (
          tree_root-append G.sha256 (suc (suc (suc d))) _ _ (length-pad _ _ ∙ leaves d)
            (length-pad _ _ ∙ leaves d))
      ∙ ap (tree_root G.sha256 (suc (suc (suc (suc d)))))
          (sym joined ∙ ap₂ pad (sym (double d)) (sym (map-append f bs cs)))

  module _ (start d : ℕ) (l r out : MapReduceSubchainVariable) (bs : List Block)
      (left : Covers G target start d l bs) (small : target < u32_mod)
      (e : reduce_batches documented G l r ≡ some out) where
    -- The right half is beyond the target.
    joined_left :
        Covers G target (start + 8 * 2 ^ d) d r [] → Covers G target start (suc d) out (bs ++ [])
    joined_left right =
        let m = reduce_inv l r out e in
        let idle = m.end_left right.counted in
        let fits : length bs ≤ 8 * 2 ^ d = omega (arith, left.size) in
        let count : length (bs ++ []) ≡ length bs = omega (arith, length-append bs []) in
        let joined = λ (f : Block → Bytes).
          ap (λ xs. pad (8 * 2 ^ d + 8 * 2 ^ d) xs) (append-nil (map f bs))
          ∙ pad-append_empty (8 * 2 ^ d) (8 * 2 ^ d) (map f bs)
              (subst (λ n. n ≤ 8 * 2 ^ d) (sym (length-map bs f)) fits) in
        record {
          size = omega (arith, left.size, right.size, double d, count);
          counted = omega (arith, m.num_blocks, left.counted, right.counted, left.size, count);
          started = λ h. m.start_block ∙ left.started (omega arith);
          linked = rw append-nil (subst (λ p. Linked p start bs) (sym m.start_parent) left.linked);
          ended = λ h. omega (arith, idle.0, left.ended (omega arith), count);
          hashed = λ h.
              idle.1
              ∙ left.hashed (omega arith)
              ∙ ap₂ last_hash (sym m.start_parent) (sym (append-nil bs));
          decoded = AllDecoded-append documented G bs [] left.decoded tt;
          state_root =
              joined_root _ d bs [] _ _ _ m.state left.state_root right.state_root (joined _);
          data_root = joined_root _ d bs [] _ _ _ m.datas left.data_root right.data_root (joined _);
        }

    -- The right half holds blocks, so the left half is full.
    joined_right :
        (cs : List Block)
        → 0 < length cs
        → Covers G target (start + 8 * 2 ^ d) d r cs
        → Covers G target start (suc d) out (bs ++ cs)
    joined_right cs some_cs right =
        let m = reduce_inv l r out e in
        let active : 0 < r.num_blocks = omega (arith, right.counted) in
        let ends = m.end_right active in
        let full : length bs ≡ 8 * 2 ^ d = omega (arith, left.size, right.size) in
        let some_bs : 0 < length bs = omega (arith, pow_pos d) in
        let count = length-append bs cs in
        let parent : r.start_parent ≡ last_hash out.start_parent bs =
          sym (m.link active)
          ∙ left.hashed some_bs
          ∙ ap (λ p. last_hash p bs) (sym m.start_parent) in
        let joined = λ (f : Block → Bytes).
          pad-append_full (8 * 2 ^ d) (8 * 2 ^ d) (map f bs) (map f cs) (length-map bs f ∙ full) in
        record {
          size = omega (arith, left.size, right.size, double d, count);
          counted =
              omega
                (arith, m.num_blocks, left.counted, right.counted, left.size, right.size, count);
          started = λ h. m.start_block ∙ left.started some_bs;
          linked =
              Linked-append out.start_parent start (start + 8 * 2 ^ d) bs cs (omega arith)
                (subst (λ p. Linked p start bs) (sym m.start_parent) left.linked)
                (subst (λ p. Linked p (start + 8 * 2 ^ d) cs) parent right.linked);
          ended = λ h. omega (arith, ends.0, right.ended some_cs, count);
          hashed = λ h.
              ends.1
              ∙ right.hashed some_cs
              ∙ ap (λ p. last_hash p cs) parent
              ∙ sym (last_hash-append out.start_parent bs cs);
          decoded = AllDecoded-append documented G bs cs left.decoded right.decoded;
          state_root =
              joined_root _ d bs cs _ _ _ m.state left.state_root right.state_root (joined _);
          data_root = joined_root _ d bs cs _ _ _ m.datas left.data_root right.data_root (joined _);
        }

    pub joined-Covers :
        (cs : List Block)
        → Covers G target (start + 8 * 2 ^ d) d r cs
        → Covers G target start (suc d) out (bs ++ cs)
    joined-Covers [] right = joined_left right
    joined-Covers (c ∷ cs) right = joined_right (c ∷ cs) (omega arith) right
