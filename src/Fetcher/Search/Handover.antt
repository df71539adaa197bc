-- ===== src/Fetcher/Search/Handover.antt =====
-- What `last_justified_block` of circuits/input/mod.rs finds.
use kno_vectorx.Common.{
  ltb-false, leb-false, ℕ, zero, suc, ◌+◌, ◌-◌, ◌/◌, ◌%◌, ◌^◌, ◌≤◌, ◌<◌, ◌≡◌, ap, some, leb, ltb,
  arith, inl, inr, ◌⊎◌, ◌∙◌, Bool-cases, ltb→lt, leb→le,
}
use kno_vectorx.Fetcher.Rpc.{Rpc}
use kno_vectorx.Fetcher.Search.{search_loop, search_finds, last_justified_block, u64_mod}

module _ (ids : ℕ → ℕ) (steps : (n : ℕ) → (ids (suc n) ≡ ids n) ⊎ (ids (suc n) ≡ ids n + 1)) where
  pub mono : (a b : ℕ) → a ≤ b → ids a ≤ ids b
  mono zero zero h = omega arith
  mono (suc a) zero h = absurd (omega arith)
  mono a (suc b) h = elim (Bool-cases (leb a b)) [
    | inl t ↦ elim (steps b) [
      | inl e ↦ omega (arith, mono a b (leb→le a b t))
      | inr e ↦ omega (arith, mono a b (leb→le a b t))
    ]
    | inr f ↦ let same : a ≡ suc b = omega (arith, leb-false a b f) in rw same (omega arith)
  ]

  -- A set whose id is passed has a block that hands over to the next.
  handover :
      (t high : ℕ)
      → ids 0 ≤ t
      → t < ids high
      → (n : ℕ) × (n < high) × (ids n ≡ t) × (ids (suc n) ≡ t + 1)
  handover t zero start later = absurd (omega arith)
  handover t (suc high) start later = elim (Bool-cases (ltb t (ids high))) [
    | inl l ↦
        let (n, lt, at, next) = handover t high start (ltb→lt t (ids high) l) in
        (n, omega arith, at, next)
    | inr f ↦ elim (steps high) [
      | inl e ↦ absurd (omega (arith, ltb-false t (ids high) f))
      | inr e ↦ (
        high,
        omega arith,
        omega (arith, ltb-false t (ids high) f),
        omega (arith, ltb-false t (ids high) f),
      )
    ]
  ]

  search_none :
      (t fuel low high : ℕ)
      → ids high ≤ t
      → t + 1 < u64_mod
      → high < 2 ^ 31
      → high + 1 - low < fuel
      → search_loop ids t fuel low high ≡ some 0
  unfolding search_loop
  search_none t zero low high later small bound enough = absurd (omega arith)
  search_none t (suc fuel) low high later small bound enough = ground (
    arith,
    mono ((low + high) % 4294967296 / 2) high,
    search_none t fuel ((low + high) % 4294967296 / 2 + 1) high later small bound,
  )

module _ (rpc : Rpc)
    (steps : (n : ℕ)
      → (rpc.get_authority_set_id (suc n) ≡ rpc.get_authority_set_id n)
        ⊎ (rpc.get_authority_set_id (suc n) ≡ rpc.get_authority_set_id n + 1)) where
  -- On a chain whose authority set id grows by at most one at each block, the search for set `t`
  -- (not before the set of block 0) ends with block `n + 1` where the id changes from `t` to
  -- `t + 1`, if the head is past set `t`; and with 0, if it is not. The head's number is less than
  -- `2 ^ 31` and `t + 1` fits in 64 bits.
  pub last_justified_block-finds :
      (t : ℕ)
      → rpc.get_authority_set_id 0 ≤ t
      → t + 1 < u64_mod
      → rpc.get_head.number < 2 ^ 31
      → (t < rpc.get_authority_set_id rpc.get_head.number
          → (n : ℕ) × (last_justified_block rpc t ≡ some (suc n))
            × (n < rpc.get_head.number)
            × (rpc.get_authority_set_id n ≡ t)
            × (rpc.get_authority_set_id (suc n) ≡ t + 1))
        × (rpc.get_authority_set_id rpc.get_head.number ≤ t → last_justified_block rpc t ≡ some 0)
  unfolding last_justified_block
  last_justified_block-finds t start small bound =
      let ids = rpc.get_authority_set_id in
      let head = rpc.get_head.number in
      (
        λ later.
            let (n, lt, at, next) = handover ids steps t head start later in
            (
              n,
              search_finds ids t (mono ids steps) start small (suc n) (suc (suc head)) 0 head next
                  (before n ∙ at) (omega arith) (omega arith) bound (omega arith),
              lt,
              at,
              next,
            ),
        λ before. search_none ids steps t (suc (suc head)) 0 head before small bound (omega arith),
      )
    where
      before : (n : ℕ) → rpc.get_authority_set_id (suc n - 1) ≡ rpc.get_authority_set_id n
      before n = let same : suc n - 1 ≡ n = omega arith in ap rpc.get_authority_set_id same
