-- ===== src/Fetcher/InRange/Found.antt =====
-- Which blocks `find_justifications_in_range` of circuits/input/mod.rs answers.
use kno_vectorx.Common.{
  ℕ, zero, suc, ◌+◌, ◌-◌, ◌%◌, ◌^◌, ◌≤◌, ◌<◌, ◌≡◌, refl, sym, ap, subst, ◌∙◌, Bool, true, false,
  Option, some, List, [], ◌∷◌, ◌++◌, Bytes, ltb, leb, ltb→lt, ltb-false, leb→le, leb-false, ◌==◌,
  ◌>>=◌, ◌⊎◌, inl, inr, arith, Bool-cases,
}
use native.Mathlib.Decide.{dec_le}
use kno_vectorx.Fetcher.Rpc.{Rpc}
use kno_vectorx.Fetcher.Search.{last_justified_block}
use kno_vectorx.Fetcher.Search.Handover.{mono, last_justified_block-finds}
use kno_vectorx.Fetcher.Justifications.{previous}
use kno_vectorx.Redis.{Server, get_blocks_in_range}
use kno_vectorx.Fetcher.InRange.{sort, era_loop, find_justifications_in_range}
use kno_vectorx.Fetcher.InRange.Sort.{
  In, Sorted, In-append, append-In, sort-Sorted, In-sort, sort-In,
}

-- What a round of the loop does with the block that the search finds.
abbrev outcome : (gone within : Bool) (block : ℕ) → Option (List ℕ) → Option (List ℕ)
outcome true within block rest = some []
outcome false false block rest = some []
outcome false true block rest = rest >>= λ ns. some (block ∷ ns)

outcome_eq :
    (gone within : Bool) (block : ℕ) (rest : Option (List ℕ))
    → (elim gone as (λ b. Option (List ℕ)) [
      | true ↦ some []
      | false ↦ elim within as (λ b. Option (List ℕ)) [
        | false ↦ some []
        | true ↦ rest >>= λ ns. some (block ∷ ns)
      ]
    ])
      ≡ outcome gone within block rest
outcome_eq true within block rest = refl
outcome_eq false false block rest = refl
outcome_eq false true block rest = refl

era_round :
    (rpc : Rpc) (fuel curr era high block : ℕ)
    → ltb curr high ≡ true
    → last_justified_block rpc era ≡ some block
    → era_loop rpc (suc fuel) curr era high
      ≡ outcome
          (block == 0)
          (leb block high)
          block
          (era_loop rpc fuel block ((era + 1) % 2 ^ 64) high)
unfolding era_loop
era_round rpc fuel curr era high block more at =
    rw (more, era_loop) (rw at (outcome_eq (block == 0) (leb block high) block _))

combined :
    (rpc : Rpc) (r : Server) (connects : ℕ → Bool) (chain : Bytes) (s : r.State) (start end : ℕ)
    (redis ns : List ℕ)
    → get_blocks_in_range r connects chain start end s ≡ some redis
    → era_loop rpc (end + 2) start (rpc.get_authority_set_id (previous start)) end ≡ some ns
    → find_justifications_in_range rpc r connects chain s start end ≡ some (sort (redis ++ ns))
unfolding find_justifications_in_range
combined rpc r connects chain s start end redis ns answered ran = rw answered (rw ran refl)

module _ (rpc : Rpc)
    (steps : (n : ℕ)
      → (rpc.get_authority_set_id (suc n) ≡ rpc.get_authority_set_id n)
        ⊎ (rpc.get_authority_set_id (suc n) ≡ rpc.get_authority_set_id n + 1))
    (head_small : rpc.get_head.number < 2 ^ 31)
    (ids_small : rpc.get_authority_set_id rpc.get_head.number + 2 < 2 ^ 64) where
  -- The last block of an authority set, not above the head: the set id grows at it.
  abbrev pub EpochEndBlock : ℕ → Type 0
  EpochEndBlock n =
      (0 < n)
      × (n ≤ rpc.get_head.number)
      × (rpc.get_authority_set_id n ≡ rpc.get_authority_set_id (n - 1) + 1)

  -- The blocks between two: above `low`, up to `high`.
  abbrev Exactly : (low high : ℕ) → List ℕ → Type 0
  Exactly low high ns =
      ((n : ℕ) → In n ns → (low < n) × (n ≤ high) × EpochEndBlock n)
      × ((n : ℕ) → low < n → n ≤ high → EpochEndBlock n → In n ns)

  -- While the set id is that of `low`, no later block ends an epoch.
  none_before :
      (low n m : ℕ)
      → rpc.get_authority_set_id n ≤ rpc.get_authority_set_id low
      → low < m
      → m ≤ n
      → ¬ (EpochEndBlock m)
  none_before low n m same above within (positive, known, grows) =
      let up = mono rpc.get_authority_set_id steps m n within in
      let down = mono rpc.get_authority_set_id steps low (m - 1) (omega arith) in omega arith

  Exactly-next :
      (low high n : ℕ) (ns : List ℕ)
      → low < suc n
      → suc n ≤ high
      → n < rpc.get_head.number
      → rpc.get_authority_set_id n ≡ rpc.get_authority_set_id low
      → rpc.get_authority_set_id (suc n) ≡ rpc.get_authority_set_id low + 1
      → Exactly (suc n) high ns
      → Exactly low high (suc n ∷ ns)
  Exactly-next low high n ns above within known same next (only, all) =
      let before : rpc.get_authority_set_id (suc n - 1) ≡ rpc.get_authority_set_id n =
        ap rpc.get_authority_set_id (omega arith) in
      (
        λ m h. elim h [
          | inl e ↦
              subst (λ k. (low < k) × (k ≤ high) × EpochEndBlock k) (sym e)
                (above, within, (omega arith, omega arith, omega (arith, before, same, next)))
          | inr later ↦ let (a, b, ends) = only m later in (omega arith, b, ends)
        ],
        λ m a b ends. elim (dec_le m n) [
          | yes early ↦ absurd (none_before low n m (omega (arith, same)) a early ends)
          | no late ↦ elim (dec_le m (suc n)) [
            | yes here ↦ inl (omega arith)
            | no past ↦ inr (all m (omega arith) b ends)
          ]
        ],
      )

  Exactly-none :
      (low high : ℕ) → ((m : ℕ) → low < m → m ≤ high → ¬ (EpochEndBlock m)) → Exactly low high []
  Exactly-none low high h = (λ m e. absurd e, λ m a b ends. h m a b ends)

  era_loop-Exactly :
      (fuel low curr high : ℕ)
      → (curr ≡ low) ⊎ ((curr ≡ low + 1) × (low + 1 < high))
      → low ≤ rpc.get_head.number
      → high + 1 - low < fuel
      → (ns : List ℕ) × (era_loop rpc fuel curr (rpc.get_authority_set_id low) high ≡ some ns)
        × Exactly low high ns
  unfolding era_loop
  era_loop-Exactly zero low curr high from below enough = absurd (omega arith)
  era_loop-Exactly (suc fuel) low curr high from below enough = elim (Bool-cases (ltb curr high)) [
    | inr stop ↦
        let over : high ≤ low = elim from [
          | inl e ↦ omega (arith, e, ltb-false curr high stop)
          | inr (e, room) ↦ absurd (omega (arith, e, room, ltb-false curr high stop))
        ] in
        ([], rw (stop, era_loop) refl, Exactly-none low high (λ m a b ends. omega arith))
    | inl more ↦
        let ids = rpc.get_authority_set_id in
        let up = mono ids steps low rpc.get_head.number below in
        let (found, gone) =
          last_justified_block-finds rpc steps (ids low) (mono ids steps 0 low (omega arith))
            (omega arith) head_small in
        elim (Bool-cases (ltb (ids low) (ids rpc.get_head.number))) [
          | inr last ↦
              let over = ltb-false (ids low) (ids rpc.get_head.number) last in
              (
                [],
                era_round rpc fuel curr (ids low) high 0 more (gone over),
                Exactly-none low high
                    (λ m a b ends. none_before low rpc.get_head.number m over a ends.1 ends),
              )
          | inl later ↦
              let (n, at, known, same, next) =
                found (ltb→lt (ids low) (ids rpc.get_head.number) later) in
              let above : low < suc n = elim (dec_le (suc n) low) [
                | yes low' ↦ absurd (omega (arith, mono ids steps (suc n) low low', next))
                | no high' ↦ omega arith
              ] in
              let positive : (suc n == 0) ≡ false = ground arith in
              elim (Bool-cases (leb (suc n) high)) [
                | inr past ↦
                    let over = leb-false (suc n) high past in
                    (
                      [],
                      era_round rpc fuel curr (ids low) high (suc n) more at
                          ∙ rw (positive, past) refl,
                      Exactly-none low high (λ m a b ends.
                          none_before low n m (omega (arith, same)) a (omega arith) ends),
                    )
                | inl within ↦
                    let fits = leb→le (suc n) high within in
                    let wrap : (ids low + 1) % 2 ^ 64 ≡ ids (suc n) =
                      omega (arith, next, up, ids_small) in
                    let (ns, ran, exact) =
                      era_loop-Exactly fuel (suc n) (suc n) high (inl refl) (omega arith)
                        (omega arith) in
                    (
                      suc n ∷ ns,
                      era_round rpc fuel curr (ids low) high (suc n) more at
                          ∙ rw (positive, within, wrap, ran) refl,
                      Exactly-next low high n ns above fits known same next exact,
                    )
              ]
        ]
  ]

  -- On a chain whose authority set id grows by at most one at each block, with the head below 2 ^ 31
  -- and the set id of the head plus 2 below 2 ^ 64, for a range of at least two blocks after block 0
  -- that starts at most one block above the head, and Redis answering for it:
  -- the answer is sorted, and has exactly the blocks that Redis has a justification for and the blocks
  -- of the range, both ends included, at which an authority set ends.
  pub find_justifications_in_range-Exactly :
      (r : Server) (connects : ℕ → Bool) (chain : Bytes) (s : r.State) (start end : ℕ)
      (redis : List ℕ)
      → 0 < start
      → start < end
      → start ≤ rpc.get_head.number + 1
      → get_blocks_in_range r connects chain start end s ≡ some redis
      → (blocks : List ℕ) × (find_justifications_in_range rpc r connects chain s start end
          ≡ some blocks)
        × Sorted blocks
        × ((n : ℕ) → In n blocks → In n redis ⊎ ((start ≤ n) × (n ≤ end) × EpochEndBlock n))
        × ((n : ℕ) → In n redis ⊎ ((start ≤ n) × (n ≤ end) × EpochEndBlock n) → In n blocks)
  unfolding find_justifications_in_range
  find_justifications_in_range-Exactly r connects chain s start end redis positive room known
        answered =
      let prev : previous start ≡ start - 1 = omega arith in
      let (ns, ran, (only, all)) =
        era_loop-Exactly (end + 2) (start - 1) start end (inr (omega arith, omega arith))
          (omega arith) (omega arith) in
      (
        sort (redis ++ ns),
        combined rpc r connects chain s start end redis ns answered
            (ap (λ p. era_loop rpc (end + 2) start (rpc.get_authority_set_id p) end) prev ∙ ran),
        sort-Sorted (redis ++ ns),
        λ n h. elim (In-append n redis ns (In-sort n (redis ++ ns) h)) [
          | inl a ↦ inl a
          | inr b ↦ let (low, high, ends) = only n b in inr (omega arith, high, ends)
        ],
        λ n h. sort-In n (redis ++ ns) (
            append-In n redis ns (elim h [
              | inl a ↦ inl a
              | inr (low, high, ends) ↦ inr (all n (omega arith) high ends)
            ])),
      )
