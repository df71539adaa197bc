-- ===== src/Subchain/Covers.antt =====
-- The map-reduce of subchain_verification.rs: what the output for a range of blocks stands for,
-- after the map stage and after any number of reduce stages.
use kno_vectorx.Common.{
  ℕ, zero, suc, ◌+◌, ◌-◌, ◌==◌, ◌*◌, ◌^◌, ◌≤◌, ◌<◌, ◌≡◌, refl, sym, ap, subst, ◌∙◌, Bool, true,
  false, none, some, List, [], ◌∷◌, map, Bytes, length, take, arith, min, length-map, length-take,
  le→ltb, bind_inv, assert, bool_eq, ◌||◌, ltb,
}
use native.Mathlib.Decide.{dec_le}
use kno_vectorx.Plonky2x.{Gadgets, IsSound, documented, u32_mod, zero_hash, tree_root}
use kno_vectorx.Vars.{EncodedHeader}
use kno_vectorx.Subchain.{
  Block, BatchState, MapReduceSubchainVariable, HeaderHint, batch_loop, update_batch, map_range,
  first_block, state_roots, data_roots,
}
use kno_vectorx.Subchain.Chain.{
  Linked, last_hash, AllDecoded, pad, enable_leaves-pad, AllDecoded-take,
}
use kno_vectorx.Subchain.Batch.{Current, Current-loop, Step-inv, noop_loop, loop_decoded}

-- The output `out` of a tree of depth `d` stands for the blocks `bs`: those from block `start` on,
-- up to the target, at most `8 * 2 ^ d` of them.
pub record Covers (G : Gadgets) (target start d : ℕ) (out : MapReduceSubchainVariable)
    (bs : List Block) : Type 0 where
  pub size : length bs ≡ min (8 * 2 ^ d) (suc target - start)
  pub counted : out.num_blocks ≡ length bs
  pub started : 0 < length bs → out.start_block ≡ start
  pub linked : Linked out.start_parent start bs
  pub ended : 0 < length bs → out.end_block + 1 ≡ start + length bs
  pub hashed : 0 < length bs → out.end_header_hash ≡ last_hash out.start_parent bs
  pub decoded : AllDecoded documented G bs
  pub state_root :
      out.state_merkle_root
      ≡ tree_root G.sha256 (suc (suc (suc d))) (pad (8 * 2 ^ d) (state_roots bs))
  pub data_root :
      out.data_merkle_root
      ≡ tree_root G.sha256 (suc (suc (suc d))) (pad (8 * 2 ^ d) (data_roots bs))

take-map : (f : Block → Bytes) (k : ℕ) (bs : List Block) → take k (map f bs) ≡ map f (take k bs)
take-map f zero bs = refl
take-map f (suc k) [] = refl
take-map f (suc k) (b ∷ bs) = ap (◌∷◌ (f b)) (take-map f k bs)

module _ (G : Gadgets) (sound : IsSound G) (target : ℕ) where
  -- The root over a batch, of which the first `k` leaves are enabled.
  batch_root :
      (f : Block → Bytes) (blocks : List Block) (k : ℕ)
      → length blocks ≡ 8
      → G.get_root_from_hashed_leaves (map f blocks) k
        ≡ tree_root G.sha256 3 (pad 8 (map f (take k blocks)))
  batch_root f blocks k e =
      let len : length (map f blocks) ≡ 8 = length-map blocks f ∙ e in
      sound.merkle_lem 3 (map f blocks) k len
      ∙ ap (tree_root G.sha256 3)
          (enable_leaves-pad k (map f blocks) ∙ rw (len, take-map f k blocks))

  -- What the map stage checks, and what it puts out.
  record Mapped (headers : HeaderHint) (trusted start end : ℕ) (out : MapReduceSubchainVariable)
      : Type 0 where
    last : BatchState
    blocks : List Block
    run :
        batch_loop documented G target none
          (record {
            end_block_num = 0;
            end_header_hash = zero_hash;
            num_headers = 0;
            nb_enabled_leaves = 0;
            curr_block_noop = ltb target start;
          })
          (headers start end target)
        ≡ some (last, blocks)
    first : start ≤ target → (first_block blocks).header.block_number ≡ start
    num_blocks : out.num_blocks ≡ last.num_headers
    start_block : out.start_block ≡ (first_block blocks).header.block_number
    start_parent : out.start_parent ≡ (first_block blocks).header.parent_hash
    end_block : out.end_block ≡ last.end_block_num
    end_header_hash : out.end_header_hash ≡ last.end_header_hash
    state :
        out.state_merkle_root
        ≡ G.get_root_from_hashed_leaves (state_roots blocks) last.nb_enabled_leaves
    datas :
        out.data_merkle_root
        ≡ G.get_root_from_hashed_leaves (data_roots blocks) last.nb_enabled_leaves

  first_check :
      (number start : ℕ)
      → ((number == start) || ltb target start) ≡ true
      → start ≤ target
      → number ≡ start
  first_check number start e h = ground arith

  map_inv :
      (headers : HeaderHint) (trusted start end : ℕ) (out : MapReduceSubchainVariable)
      → map_range documented G headers
          (record { global_start_block = trusted; global_end_block = target })
          start
          end
        ≡ some out
      → Mapped headers trusted start end out
  unfolding map_range
  map_inv headers trusted start end out e =
      let (res, run, e1) =
        bind_inv
          (batch_loop documented G target none
            (record {
              end_block_num = 0;
              end_header_hash = zero_hash;
              num_headers = 0;
              nb_enabled_leaves = 0;
              curr_block_noop = ltb target start;
            })
            (headers start end target))
          _ e in
      let (_, t1, e2) =
        bind_inv
          (assert
            (bool_eq (((first_block res.1).header.block_number == start) || ltb target start) true))
          _ e1 in
      let (_, t2, e3) =
        bind_inv (assert (bool_eq ((res.0.end_block_num == end) || res.0.curr_block_noop) true)) _
          e2 in
      record {
        last = res.0;
        blocks = res.1;
        run = run;
        first = first_check (first_block res.1).header.block_number start (ground arith);
        num_blocks = cc;
        start_block = cc;
        start_parent = cc;
        end_block = cc;
        end_header_hash = cc;
        state = cc;
        datas = cc;
      }

  abbrev initial : Bool → BatchState
  initial disabled = record {
    end_block_num = 0;
    end_header_hash = zero_hash;
    num_headers = 0;
    nb_enabled_leaves = 0;
    curr_block_noop = disabled;
  }

  -- An enabled batch, of which the blocks up to the target count.
  record Enabled (start : ℕ) (last : BatchState) (blocks : List Block) (k : ℕ) : Type 0 where
    linked : Linked (first_block blocks).header.parent_hash start (take (suc k) blocks)
    counted : last.num_headers ≡ suc k
    enabled : last.nb_enabled_leaves ≡ suc k
    ended : last.end_block_num ≡ start + k
    hashed :
        last.end_header_hash
        ≡ last_hash (first_block blocks).header.parent_hash (take (suc k) blocks)

  first_Current :
      (block : Block) (start : ℕ)
      → start ≤ target
      → target < u32_mod
      → block.header.block_number ≡ start
      → let s = update_batch documented G target block (initial false) in
        (s.num_headers ≡ 1) × Current G target block start s 7
  unfolding update_batch
  first_Current block start le small e = (
    refl,
    record {
      running = ap (λ m. m == target) e;
      number = e;
      within = le;
      small = small;
      counts = refl;
      room = omega arith;
      ended = e;
      hashed = refl;
    },
  )

  Enabled-batch :
      (hs : List EncodedHeader) (start : ℕ) (last : BatchState) (blocks : List Block)
      → length hs ≡ 8
      → start ≤ target
      → target < u32_mod
      → batch_loop documented G target none (initial false) hs ≡ some (last, blocks)
      → (first_block blocks).header.block_number ≡ start
      → Enabled start last blocks (min 7 (target - start))
  Enabled-batch [] start last blocks len le small e first = absurd (omega arith)
  Enabled-batch (h ∷ hs) start last blocks len le small e first =
      let st = Step-inv G target none (initial false) h hs last blocks e in
      let number : st.block.header.block_number ≡ start =
        ap (λ bs. (first_block bs).header.block_number) (sym st.pushed) ∙ first in
      let (count, current) = first_Current st.block start le small number in
      let rest : length hs ≡ 7 = omega arith in
      let a =
        Current-loop G target st.block start _ hs last st.rest (min 7 (target - start))
          (ap (λ n. min n (target - start)) (sym rest))
          (subst (Current G target st.block start _) (sym rest) current) st.continued in
      rw st.pushed (record {
        linked = (refl, number, a.linked);
        counted = omega (arith, a.counted, count);
        enabled = omega (arith, a.enabled, count);
        ended = a.ended;
        hashed = a.hashed;
      })

  Mapped-roots :
      {headers : HeaderHint} {trusted start end : ℕ} {out : MapReduceSubchainVariable}
      (m : Mapped headers trusted start end out) (n : ℕ)
      → length m.blocks ≡ 8
      → m.last.nb_enabled_leaves ≡ n
      → (out.state_merkle_root ≡ tree_root G.sha256 3 (pad 8 (state_roots (take n m.blocks))))
        × (out.data_merkle_root ≡ tree_root G.sha256 3 (pad 8 (data_roots (take n m.blocks))))
  Mapped-roots m n len e = (
    m.state
        ∙ ap (G.get_root_from_hashed_leaves (state_roots m.blocks)) e
        ∙ batch_root _ m.blocks n len,
    m.datas
        ∙ ap (G.get_root_from_hashed_leaves (data_roots m.blocks)) e
        ∙ batch_root _ m.blocks n len,
  )

  idle-Covers :
      {headers : HeaderHint} {trusted start end : ℕ} {out : MapReduceSubchainVariable}
      (m : Mapped headers trusted start end out)
      → length m.blocks ≡ 8
      → target < start
      → m.last ≡ initial true
      → Covers G target start 0 out []
  idle-Covers m len gt same =
      let roots = Mapped-roots m 0 len (ap (λ (s : BatchState). s.nb_enabled_leaves) same) in
      record {
        size = omega arith;
        counted = m.num_blocks ∙ ap (λ (s : BatchState). s.num_headers) same;
        started = λ h. absurd (omega arith);
        linked = tt;
        ended = λ h. absurd (omega arith);
        hashed = λ h. absurd (omega arith);
        decoded = tt;
        state_root = roots.0;
        data_root = roots.1;
      }

  Enabled-Covers :
      {headers : HeaderHint} {trusted start end : ℕ} {out : MapReduceSubchainVariable}
      (m : Mapped headers trusted start end out) (k : ℕ)
      → length m.blocks ≡ 8
      → AllDecoded documented G m.blocks
      → start ≤ target
      → k ≡ min 7 (target - start)
      → Enabled start m.last m.blocks k
      → Covers G target start 0 out (take (suc k) m.blocks)
  Enabled-Covers {start = start} m k len all le ke b =
      let roots = Mapped-roots m (suc k) len b.enabled in
      let count : length (take (suc k) m.blocks) ≡ suc k =
        omega (arith, length-take (suc k) m.blocks) in
      record {
        size = omega arith;
        counted = m.num_blocks ∙ b.counted ∙ sym count;
        started = λ h. m.start_block ∙ m.first le;
        linked = subst (λ p. Linked p start (take (suc k) m.blocks)) (sym m.start_parent) b.linked;
        ended = λ h. omega (arith, m.end_block, b.ended);
        hashed = λ h.
            m.end_header_hash
            ∙ b.hashed
            ∙ ap (λ p. last_hash p (take (suc k) m.blocks)) (sym m.start_parent);
        decoded = AllDecoded-take documented G (suc k) m.blocks all;
        state_root = roots.0;
        data_root = roots.1;
      }

  -- The map stage yields the blocks of its batch that are not beyond the target.
  pub map-Covers :
      (headers : HeaderHint) (trusted start end : ℕ) (out : MapReduceSubchainVariable)
      → length (headers start end target) ≡ 8
      → target < u32_mod
      → map_range documented G headers
          (record { global_start_block = trusted; global_end_block = target })
          start
          end
        ≡ some out
      → (bs : List Block) × Covers G target start 0 out bs
  map-Covers headers trusted start end out len small e =
      let m = map_inv headers trusted start end out e in
      let (all, count) = loop_decoded G target none _ _ m.last m.blocks m.run in
      elim (dec_le start target) [
        | yes le ↦
            let b =
              Enabled-batch (headers start end target) start m.last m.blocks len le small
                (rw (le→ltb target start le) at m.run) (m.first le) in
            (_, Enabled-Covers m (min 7 (target - start)) (count ∙ len) all le refl b)
        | no gt ↦
            let idle : ltb target start ≡ true = ground arith in
            let same =
              noop_loop G target none _ _ m.last m.blocks m.run idle (omega arith) (omega arith) in
            ([], idle-Covers m (count ∙ len) (omega arith) (same ∙ ap initial idle))
      ]
