-- ===== src/Events/Coverage.antt =====
-- The batches of `store_events` in bin/events.rs leave out no block.
use kno_vectorx.Common.{
  ltb→lt, ℕ, zero, suc, ◌+◌, ◌-◌, ◌%◌, ◌^◌, ◌≤◌, ◌<◌, ◌≡◌, refl, sym, ap, subst, ◌∙◌, some, List,
  [], ◌∷◌, ◌++◌, range_from, ltb, ltb-false, if◌then◌else◌, arith, Bool-cases, inl, inr,
}
use mathlib.Core.List.{append_assoc}
use native.Mathlib.Decide.{dec_le}
use kno_vectorx.Events.{DataCommitmentRange, store_loop, store_events}

batch_bounds :
    (start last next : ℕ)
    → start < last
    → next ≡ start + 50000
    → (start < (if ltb last next then last else next))
      × ((if ltb last next then last else next) ≤ last)
batch_bounds start last next h e = ground arith

module _ (events_at : ℕ → List DataCommitmentRange) where
  -- The events of some blocks, in order.
  abbrev pub events_of : List ℕ → List DataCommitmentRange
  events_of [] = []
  events_of (b ∷ bs) = events_at b ++ events_of bs

  -- The events of block `b` are a part of `stored`.
  abbrev pub Stored : ℕ → List DataCommitmentRange → Type 0
  Stored b stored =
      (before : List DataCommitmentRange) × (after : List DataCommitmentRange) × (stored
        ≡ before ++ (events_at b ++ after))

  Stored-right : (b : ℕ) (xs ys : List DataCommitmentRange) → Stored b ys → Stored b (xs ++ ys)
  Stored-right b xs ys (before, after, e) =
      (xs ++ before, after, ap (◌++◌ xs) e ∙ sym (append_assoc xs before (events_at b ++ after)))

  Stored-left : (b : ℕ) (xs ys : List DataCommitmentRange) → Stored b xs → Stored b (xs ++ ys)
  Stored-left b xs ys (before, after, e) = (
    before,
    after ++ ys,
    ap (λ zs. zs ++ ys) e
        ∙ append_assoc before (events_at b ++ after) ys
        ∙ ap (◌++◌ before) (append_assoc (events_at b) after ys),
  )

  events_of-Stored :
      (n b start : ℕ) → start ≤ b → b < start + n → Stored b (events_of (range_from start n))
  unfolding range_from
  events_of-Stored zero b start h k = absurd (omega arith)
  events_of-Stored (suc n) b start h k = elim (dec_le b start) [
    | yes low ↦
        let same : start ≡ b = omega arith in
        (
          [],
          events_of (range_from (suc start) n),
          ap (λ c. events_at c ++ events_of (range_from (suc start) n)) same,
        )
    | no high ↦
        Stored-right b (events_at start) (events_of (range_from (suc start) n))
          (events_of-Stored n b (suc start) (omega arith) (omega arith))
  ]

  module _ (get_logs : ℕ → ℕ → List DataCommitmentRange)
      (inclusive : (a b : ℕ) → get_logs a b ≡ events_of (range_from a (b + 1 - a))) where
    store_loop-Stored :
        (fuel start last : ℕ)
        → last + 50000 < 2 ^ 64
        → last - start < fuel
        → (stored : List DataCommitmentRange) × (store_loop get_logs fuel start last ≡ some stored)
          × ((b : ℕ) → start < last → start ≤ b → b ≤ last → Stored b stored)
    unfolding store_loop
    store_loop-Stored zero start last small enough = absurd (omega arith)
    store_loop-Stored (suc fuel) start last small enough = elim (Bool-cases (ltb start last)) [
      | inl more ↦
          let next = (start + 50000) % 2 ^ 64 in
          let batch_end = if ltb last next then last else next in
          let below : start < last = ltb→lt start last more in
          let next_eq : next ≡ start + 50000 = omega arith in
          let (above, within) = batch_bounds start last next below next_eq in
          let (rest, ran, stored) = store_loop-Stored fuel batch_end last small (omega arith) in
          (
            get_logs start batch_end ++ rest,
            rw (more, store_loop) (rw ran refl),
            λ b h l u. elim (dec_le b batch_end) [
              | yes first ↦ Stored-left b (get_logs start batch_end) rest (
                  subst (Stored b) (sym (inclusive start batch_end))
                    (events_of-Stored (batch_end + 1 - start) b start l (omega arith)))
              | no later ↦
                  Stored-right b (get_logs start batch_end) rest
                    (stored b (omega arith) (omega arith) u)
            ],
          )
      | inr done ↦ (
        [],
        rw (done, store_loop) refl,
        λ b h l u. absurd (omega (arith, ltb-false start last done)),
      )
    ]

    -- Every event is stored: for a range whose last block is above its first, with block numbers that
    -- do not wrap, `store_events` ends, and the events of every block from the first to the last, both
    -- included, are a part of what it stores, where the filter answers with the events of all blocks
    -- from its first to its last.
    pub store_events-Stored :
        (start_block end_block : ℕ)
        → end_block + 50000 < 2 ^ 64
        → start_block < end_block
        → (stored : List DataCommitmentRange) × (store_events get_logs start_block end_block
            ≡ some stored)
          × ((b : ℕ) → start_block ≤ b → b ≤ end_block → Stored b stored)
    unfolding store_events
    store_events-Stored start_block end_block small below =
        let (stored, ran, all) =
          store_loop-Stored (suc end_block) start_block end_block small (omega arith) in
        (stored, ran, λ b l u. all b below l u)
