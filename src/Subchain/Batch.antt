-- ===== src/Subchain/Batch.antt =====
-- The map stage of subchain_verification.rs: what a batch that is accepted holds.
use kno_vectorx.Common.{
  ℕ, zero, suc, ◌+◌, ◌-◌, ◌%◌, ◌==◌, ◌≤◌, ◌<◌, ◌≡◌, refl, sym, ap, true, false, Option, some, List,
  [], ◌∷◌, Bytes, length, take, arith, min, bind_inv, eq_of_bytes_eq,
}
use kno_vectorx.Plonky2x.{Gadgets, documented, u32_mod, field_order}
use kno_vectorx.Vars.{EncodedHeader}
use kno_vectorx.Decoder.{hash_encoded_header, decode_header}
use kno_vectorx.Subchain.{Block, BatchState, check_link, update_batch, batch_loop}
use kno_vectorx.Subchain.Chain.{Linked, last_hash, AllDecoded}

module _ (G : Gadgets) (target : ℕ) where
  -- The loop over a header: hash, decode, link, update, continue.
  pub record Step (previous : Option Block) (s : BatchState) (h : EncodedHeader)
      (hs : List EncodedHeader) (last : BatchState) (blocks : List Block) : Type 0 where
    pub block : Block
    pub rest : List Block
    pub decoded :
        (hash_encoded_header documented G h ≡ block.hash)
        × (decode_header documented G h block.hash ≡ some block.header)
    pub linked : check_link documented G previous block s.curr_block_noop ≡ some tt
    pub continued :
        batch_loop documented G target (some block) (update_batch documented G target block s) hs
        ≡ some (last, rest)
    pub pushed : blocks ≡ block ∷ rest

  pub Step-inv :
      (previous : Option Block) (s : BatchState) (h : EncodedHeader) (hs : List EncodedHeader)
      (last : BatchState) (blocks : List Block)
      → batch_loop documented G target previous s (h ∷ hs) ≡ some (last, blocks)
      → Step previous s h hs last blocks
  unfolding batch_loop
  Step-inv previous s h hs last blocks e =
      let (header, d, e1) =
        bind_inv (decode_header documented G h (hash_encoded_header documented G h)) _ e in
      let block : Block = record { hash = hash_encoded_header documented G h; header = header } in
      let (_, l, e2) = bind_inv (check_link documented G previous block s.curr_block_noop) _ e1 in
      let (out, c, e3) =
        bind_inv
          (batch_loop documented G target (some block) (update_batch documented G target block s)
            hs)
          _ e2 in
      record {
        block = block;
        rest = out.1;
        decoded = (refl, d);
        linked = l;
        continued = cc;
        pushed = cc;
      }

  update_batch_noop :
      (block : Block) (s : BatchState)
      → s.curr_block_noop ≡ true
      → s.num_headers < field_order
      → s.nb_enabled_leaves < field_order
      → update_batch documented G target block s ≡ s
  unfolding update_batch
  update_batch_noop block s noop b c = ground arith

  -- A no-op block leaves the state alone.
  pub noop_loop :
      (previous : Option Block) (s : BatchState) (hs : List EncodedHeader) (last : BatchState)
      (blocks : List Block)
      → batch_loop documented G target previous s hs ≡ some (last, blocks)
      → s.curr_block_noop ≡ true
      → s.num_headers < field_order
      → s.nb_enabled_leaves < field_order
      → last ≡ s
  unfolding batch_loop
  noop_loop previous s [] last blocks e noop b c = cc
  noop_loop previous s (h ∷ hs) last blocks e noop b c =
      let st = Step-inv previous s h hs last blocks e in
      let same : update_batch documented G target st.block s ≡ s =
        update_batch_noop st.block s noop b c in
      noop_loop (some st.block) s hs last st.rest (rw same at st.continued) noop b c

  -- What `k` enabled blocks after a block with hash `p` and number `n` do to the state.
  pub record Advance (p : Bytes) (n : ℕ) (s last : BatchState) (blocks : List Block) (k : ℕ)
      : Type 0 where
    pub linked : Linked p (suc n) (take k blocks)
    pub counted : last.num_headers ≡ s.num_headers + k
    pub enabled : last.nb_enabled_leaves ≡ s.num_headers + k
    pub ended : last.end_block_num ≡ n + k
    pub hashed : last.end_header_hash ≡ last_hash p (take k blocks)

  link_inv :
      (previous block : Block)
      → check_link documented G (some previous) block false ≡ some tt
      → (block.header.parent_hash ≡ previous.hash)
        × (block.header.block_number ≡ (previous.header.block_number + 1) % u32_mod)
  unfolding check_link
  link_inv previous block e = ground (arith, eq_of_bytes_eq block.header.parent_hash previous.hash)

  update_batch_active :
      (block : Block) (s : BatchState)
      → s.curr_block_noop ≡ false
      → s.num_headers + 1 < field_order
      → s.nb_enabled_leaves ≡ s.num_headers
      → update_batch documented G target block s ≡ record {
        end_block_num = block.header.block_number;
        end_header_hash = block.hash;
        num_headers = s.num_headers + 1;
        nb_enabled_leaves = s.num_headers + 1;
        curr_block_noop = block.header.block_number == target;
      }
  unfolding update_batch
  update_batch_active block s running b c = ground arith

  stay :
      (p : Bytes) (n : ℕ) (s last : BatchState) (blocks : List Block)
      → last ≡ s
      → s.end_block_num ≡ n
      → s.end_header_hash ≡ p
      → s.num_headers ≡ s.nb_enabled_leaves
      → Advance p n s last blocks 0
  stay p n s last blocks e ended hashed counts = record {
    linked = tt;
    counted = ground arith;
    enabled = ground arith;
    ended = ground arith;
    hashed = ground arith;
  }

  Advance-step :
      (p : Bytes) (n k : ℕ) (s after last : BatchState) (block : Block) (rest : List Block)
      → (block.header.parent_hash ≡ p) × (block.header.block_number ≡ suc n)
      → after.num_headers ≡ s.num_headers + 1
      → Advance block.hash (suc n) after last rest k
      → Advance p n s last (block ∷ rest) (suc k)
  Advance-step p n k s after last block rest link count a = record {
    linked = (link.0, link.1, a.linked);
    counted = omega (arith, a.counted);
    enabled = omega (arith, a.enabled);
    ended = omega (arith, a.ended);
    hashed = a.hashed;
  }

  -- A block that was just pushed: its number is `n`, which may be the target.
  pub record Current (block : Block) (n : ℕ) (s : BatchState) (len : ℕ) : Type 0 where
    pub running : s.curr_block_noop ≡ (n == target)
    pub number : block.header.block_number ≡ n
    pub within : n ≤ target
    pub small : target < u32_mod
    pub counts : s.num_headers ≡ s.nb_enabled_leaves
    pub room : s.num_headers + len < field_order
    pub ended : s.end_block_num ≡ n
    pub hashed : s.end_header_hash ≡ block.hash

  -- The block after one that is not the target.
  next_Current :
      (previous block : Block) (n len : ℕ) (s : BatchState)
      → Current previous n s (suc len)
      → n < target
      → (block.header.parent_hash ≡ previous.hash)
        × (block.header.block_number ≡ (previous.header.block_number + 1) % u32_mod)
      → (block.header.block_number ≡ suc n)
        × ((update_batch documented G target block s).num_headers ≡ s.num_headers + 1)
        × Current block (suc n) (update_batch documented G target block s) len
  next_Current previous block n len s c lt link =
      let running : s.curr_block_noop ≡ false = ground (arith, c.running) in
      let number : block.header.block_number ≡ suc n = omega (arith, link.1, c.number, c.small) in
      rw (update_batch_active block s running (omega (arith, c.room)) (sym c.counts)) (
        number,
        refl,
        record {
          running = ap (λ m. m == target) number;
          number = number;
          within = lt;
          small = c.small;
          counts = refl;
          room = omega (arith, c.room);
          ended = number;
          hashed = refl;
        },
      )

  -- The rest of the loop after block `n`.
  pub Current-loop :
      (previous : Block) (n : ℕ) (s : BatchState) (hs : List EncodedHeader) (last : BatchState)
      (blocks : List Block) (k : ℕ)
      → k ≡ min (length hs) (target - n)
      → Current previous n s (length hs)
      → batch_loop documented G target (some previous) s hs ≡ some (last, blocks)
      → Advance previous.hash n s last blocks k
  unfolding batch_loop
  Current-loop previous n s [] last blocks (suc k) ke c e = absurd (omega arith)
  Current-loop previous n s [] last blocks zero ke c e =
      stay previous.hash n s last blocks (cc) c.ended c.hashed c.counts
  Current-loop previous n s (h ∷ hs) last blocks zero ke c e =
      stay previous.hash n s last blocks
        (noop_loop (some previous) s (h ∷ hs) last blocks e (ground (arith, c.running, c.within))
          (omega (arith, c.room)) (omega (arith, c.room, c.counts)))
        c.ended c.hashed c.counts
  Current-loop previous n s (h ∷ hs) last blocks (suc k) ke c e =
      let st = Step-inv (some previous) s h hs last blocks e in
      let lt : n < target = omega arith in
      let running : s.curr_block_noop ≡ false = ground (arith, c.running) in
      let link = link_inv previous st.block (rw running at st.linked) in
      let (number, count, c') = next_Current previous st.block n (length hs) s c lt link in
      rw st.pushed (
        Advance-step previous.hash n k s _ last st.block st.rest (link.0, number) count
          (Current-loop st.block (suc n) (update_batch documented G target st.block s) hs last
            st.rest k (omega arith) c' st.continued))

  -- Every block pushed is a decoded header.
  pub loop_decoded :
      (previous : Option Block) (s : BatchState) (hs : List EncodedHeader) (last : BatchState)
      (blocks : List Block)
      → batch_loop documented G target previous s hs ≡ some (last, blocks)
      → AllDecoded documented G blocks × (length blocks ≡ length hs)
  unfolding batch_loop
  loop_decoded previous s [] last [] e = (tt, refl)
  loop_decoded previous s [] last (b ∷ blocks) e = cc
  loop_decoded previous s (h ∷ hs) last blocks e =
      let st = Step-inv previous s h hs last blocks e in
      let (rest, len) = loop_decoded (some st.block) _ hs last st.rest st.continued in
      rw st.pushed (((h, st.decoded.0, st.decoded.1), rest), ap suc len)
