-- ===== src/Operator/Step.antt =====
-- The block that the operator of bin/vectorx.rs steps to.
use kno_vectorx.Common.{
  ltb-false, leb-false, ℕ, zero, suc, ◌+◌, ◌-◌, ◌%◌, ◌^◌, ◌≤◌, ◌<◌, ◌≡◌, refl, sym, ap, ◌∙◌, ◌⊎◌,
  inl, inr, Bool, true, false, not, ◌&&◌, Option, none, some, min, arith, ltb, leb, leb→le, ◌==◌,
  if◌then◌else◌, assert, some_inj, ◌>>◌,
}
use kno_vectorx.Fetcher.Rpc.{Rpc}
use kno_vectorx.Fetcher.Search.{last_justified_block}
use kno_vectorx.Operator.{step_loop, find_block_to_step_to}

-- A round of the loop that does not end without a block.
round_inv :
    (past : Bool) (fetched : Option Bool) (start n : ℕ) (rest : Option (Option ℕ))
    → elim past [
      | true ↦ some none
      | false ↦ elim fetched [ none ↦ none | some true ↦ some (some start) | some false ↦ rest ]
    ]
      ≡ some (some n)
    → (past ≡ false) × (((fetched ≡ some true) × (start ≡ n)) ⊎ (rest ≡ some (some n)))
round_inv true fetched start n rest e = cc
round_inv false none start n rest e = cc
round_inv false (some true) start n rest e = (refl, inl (refl, some_inj (some_inj e)))
round_inv false (some false) start n rest e = (refl, inr e)

round_returns :
    (past b : Bool) (fetched : Option Bool) (start : ℕ) (rest : Option (Option ℕ))
    → fetched ≡ some b
    → (past ≡ false → (r : Option ℕ) × (rest ≡ some r))
    → (r : Option ℕ) × (elim past [
      | true ↦ some none
      | false ↦ elim fetched [ none ↦ none | some true ↦ some (some start) | some false ↦ rest ]
    ]
        ≡ some r)
round_returns true b fetched start rest e next = (none, refl)
round_returns false b none start rest e next = cc
round_returns false b (some true) start rest e next = (some start, refl)
round_returns false b (some false) start rest e next = next refl

-- Where a choice of a block comes from.
choice_inv :
    (early ok low dummy : Bool) (l start n : ℕ) (rest : Option (Option ℕ))
    → (if early
        then some (some l)
        else (assert ok >> (if low then some none else if dummy then some (some start) else rest)))
      ≡ some (some n)
    → ((early ≡ true) × (l ≡ n))
      ⊎ ((low ≡ false) × (((dummy ≡ true) × (start ≡ n)) ⊎ (rest ≡ some (some n))))
choice_inv true ok low dummy l start n rest e = inl (refl, some_inj (some_inj e))
choice_inv false false low dummy l start n rest e = cc
choice_inv false true true dummy l start n rest e = cc
choice_inv false true false true l start n rest e = inr (refl, inl (refl, some_inj (some_inj e)))
choice_inv false true false false l start n rest e = inr (refl, inr e)

choice_returns :
    (early ok low dummy : Bool) (l start : ℕ) (rest : Option (Option ℕ))
    → ok ≡ true
    → (r : Option ℕ) × (rest ≡ some r)
    → (r : Option ℕ) × ((if early
          then some (some l)
          else (assert ok
              >> (if low then some none else if dummy then some (some start) else rest)))
        ≡ some r)
choice_returns true ok low dummy l start rest e ran = (some l, refl)
choice_returns false false low dummy l start rest e ran = cc
choice_returns false true true dummy l start rest e ran = (none, refl)
choice_returns false true false true l start rest e ran = (some start, refl)
choice_returns false true false false l start rest e ran = ran

early_inv : (l limit : ℕ) → (not (l == 0) && leb l limit) ≡ true → (0 < l) × (l ≤ limit)
early_inv zero limit e = cc
early_inv (suc l) limit e = (omega arith, leb→le (suc l) limit (ground arith))

module _ (rpc : Rpc) (is_dummy : Bool) (is_ok : ℕ → Option Bool) where
  loop_finds :
      (fuel limit start n : ℕ)
      → limit + 1 < 2 ^ 32
      → step_loop rpc is_dummy is_ok fuel limit start ≡ some (some n)
      → (start ≤ n) × (n ≤ limit) × (is_ok n ≡ some true)
  unfolding step_loop
  loop_finds zero limit start n small e = cc
  loop_finds (suc fuel) limit start n small e =
      let (room, next) =
        round_inv (ltb limit start) (is_ok start) start n
          (step_loop rpc is_dummy is_ok fuel limit ((start + 1) % 2 ^ 32)) e in
      let below : start ≤ limit = ltb-false limit start room in
      elim next [
        | inl (ok, here) ↦ (omega (arith, here), omega (arith, here), ap is_ok (sym here) ∙ ok)
        | inr later ↦
            let (l, h, ok) = loop_finds fuel limit ((start + 1) % 2 ^ 32) n small later in
            (omega arith, h, ok)
      ]

  -- The fuel is enough: the loop passes the limit.
  loop_returns :
      (fuel limit start : ℕ)
      → limit + 1 < 2 ^ 32
      → ((n : ℕ) → (b : Bool) × (is_ok n ≡ some b))
      → limit + 1 - start < fuel
      → (r : Option ℕ) × (step_loop rpc is_dummy is_ok fuel limit start ≡ some r)
  unfolding step_loop
  loop_returns zero limit start small answers enough = absurd (omega arith)
  loop_returns (suc fuel) limit start small answers enough =
      let (b, answer) = answers start in
      round_returns (ltb limit start) b (is_ok start) start
        (step_loop rpc is_dummy is_ok fuel limit ((start + 1) % 2 ^ 32)) answer
        (λ room.
          loop_returns fuel limit ((start + 1) % 2 ^ 32) small answers
            (omega (arith, ltb-false limit start room)))

  module _ (interval tree current avail set_id l : ℕ)
      (found : last_justified_block rpc set_id ≡ some l) (small : current + tree + 1 < 2 ^ 32) where
    abbrev limit : ℕ
    limit = (current + tree) % 2 ^ 32

    abbrev start : ℕ
    start = min limit avail - min limit avail % interval

    -- The choice, once the last justified block is known.
    abbrev choice : Option (Option ℕ)
    choice =
        if not (l == 0) && leb l limit
        then some (some l)
        else (assert (not (interval == 0))
            >> (if leb start current
                then some none
                else if is_dummy
                then some (some start)
                else step_loop rpc is_dummy is_ok (suc (suc limit)) limit start))

    choice_eq : find_block_to_step_to rpc is_dummy is_ok interval tree current avail set_id ≡ choice
    unfolding find_block_to_step_to
    choice_eq = rw found refl

    -- If the operator steps to block `n`, then `n` is at most the tree size above the contract's
    -- block, and it is either the last justified block of the set, or is above the contract's
    -- block with a justification that was fetched (which only the dummy operator leaves out). The
    -- search for the last justified block returns, and the contract's block plus the tree size is
    -- below the largest `u32`.
    pub find_block_to_step_to-in_range :
        (n : ℕ)
        → find_block_to_step_to rpc is_dummy is_ok interval tree current avail set_id
          ≡ some (some n)
        → (n ≤ current + tree)
          × (((0 < n) × (n ≡ l)) ⊎ ((current < n) × ((is_dummy ≡ true) ⊎ (is_ok n ≡ some true))))
    find_block_to_step_to-in_range n e =
        let limit_eq : limit ≡ current + tree = omega arith in
        elim (choice_inv (not (l == 0) && leb l limit) (not (interval == 0)) (leb start current)
          is_dummy l start n (step_loop rpc is_dummy is_ok (suc (suc limit)) limit start)
          (sym choice_eq ∙ e)) [
            | inl (early, same) ↦
                let (positive, low) = early_inv l limit early in
                (omega (arith, low, same), inl (omega (arith, same), sym same))
            | inr (high, inl (dummy, same)) ↦ (
              omega (arith, same),
              inr (omega (arith, same, leb-false start current high), inl dummy),
            )
            | inr (high, inr ran) ↦
                let (above, below, ok) =
                  loop_finds (suc (suc limit)) limit start n (omega arith) ran in
                (omega arith, inr (omega (arith, leb-false start current high), inr ok))
          ]

    -- The search for a block returns, with a block or without, where the search for the last
    -- justified block returns, each justification that it asks for is answered, the interval is not
    -- 0, and the contract's block plus the tree size is below the largest `u32`.
    pub find_block_to_step_to-returns :
        ((n : ℕ) → (b : Bool) × (is_ok n ≡ some b))
        → 0 < interval
        → (r : Option ℕ) × (find_block_to_step_to rpc is_dummy is_ok interval tree current avail
              set_id
            ≡ some r)
    find_block_to_step_to-returns answers positive =
        let (r, e) =
          choice_returns (not (l == 0) && leb l limit) (not (interval == 0)) (leb start current)
            is_dummy l start (step_loop rpc is_dummy is_ok (suc (suc limit)) limit start)
            (ground arith)
            (loop_returns (suc (suc limit)) limit start (omega arith) answers (omega arith)) in
        (r, choice_eq ∙ e)
