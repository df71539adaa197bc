-- ===== src/Redis/Answers.antt =====
-- What `RedisClient::get_blocks_in_range` answers, against what was added.
use kno_vectorx.Common.{
  ℕ, zero, suc, ◌^◌, ◌≤◌, ◌<◌, ◌≡◌, refl, sym, ap, subst, ◌∙◌, Bool, true, false, inl, inr, some,
  List, [], ◌∷◌, map, Bytes, get_elem?, bytes_eq, bytes_eq_refl, eq_of_bytes_eq, if◌then◌else◌,
  decimal, parse_decimal, parse_decimal-decimal, arith, Bool-cases, bind_inv, some_inj,
}
use kno_vectorx.Vars.{StoredJustificationData}
use kno_vectorx.Redis.{
  justification_key, Server, IsRedis, mem, blocks_key, add_justification, get_justification,
  get_blocks_in_range,
}
use kno_vectorx.Redis.Connection.{get_connection}
use kno_vectorx.Redis.Index.{
  Reach, Step, here, next, added, stopped, Reach-IsIndexed, justification_key-ne_blocks, set, index,
  decimal_inj,
}

mem-get_elem? :
    (xs : List Bytes) (i n : ℕ)
    → get_elem? (map parse_decimal xs) i ≡ some n
    → (m : Bytes) × (mem m xs ≡ true) × (parse_decimal m ≡ n)
unfolding mem
mem-get_elem? [] i n h = cc
mem-get_elem? (x ∷ xs) zero n h = (x, rw (bytes_eq_refl x) refl, some_inj h)
mem-get_elem? (x ∷ xs) (suc i) n h =
    let (m, e, text) = mem-get_elem? xs i n h in
    (m, elim (Bool-cases (bytes_eq m x)) [ inl t ↦ rw t refl | inr t ↦ rw (t, e) refl ], text)

get_elem?-mem :
    (m : Bytes) (xs : List Bytes)
    → mem m xs ≡ true
    → (i : ℕ) × (get_elem? (map parse_decimal xs) i ≡ some (parse_decimal m))
unfolding mem
get_elem?-mem m [] h = cc
get_elem?-mem m (x ∷ xs) h = elim (Bool-cases (bytes_eq m x)) [
  | inl t ↦ (0, ap (λ y. some (parse_decimal y)) (sym (eq_of_bytes_eq m x t)))
  | inr t ↦
      let (i, e) = get_elem?-mem m xs (ap (λ b. if b then true else mem m xs) (sym t) ∙ h) in
      (suc i, e)
]

contradiction : {b : Bool} → b ≡ false → b ≡ true → ⊥
contradiction e h = cc

module _ (r : Server) (laws : IsRedis r) (chain : Bytes) (connects : ℕ → Bool) where
  -- From a server whose index of a chain is empty, whatever justifications of blocks below 2 ^ 32
  -- writers add, and wherever they stop between the two commands: each block that
  -- `get_blocks_in_range` returns is in the range it was asked for, and `get_justification` returns a
  -- justification of that block.
  pub get_blocks_in_range-get_justification :
      (s t : r.State)
      → ((m : Bytes) (low high : ℕ) → mem m (r.zrangebyscore s (blocks_key chain) low high) ≡ false)
      → Reach r laws chain s t
      → (start end : ℕ) (blocks : List ℕ)
      → get_blocks_in_range r connects chain start end t ≡ some blocks
      → (i n : ℕ) → get_elem? blocks i ≡ some n
      → (start ≤ n)
        × (n ≤ end)
        × (j : StoredJustificationData) × (get_justification r connects chain n t ≡ some (some j))
        × (j.block_number ≡ n)
  unfolding get_blocks_in_range get_justification
  get_blocks_in_range-get_justification s t empty reach start end blocks e i n at =
      let inv =
        Reach-IsIndexed r laws chain s t reach
          (λ m low high h. absurd (contradiction (empty m low high) h)) in
      let (a, connected, answer) = bind_inv (get_connection connects) _ e in
      let (m, member, text) =
        mem-get_elem? _ i n (ap (λ bs. get_elem? bs i) (some_inj answer) ∙ at) in
      let (n', text', small, low, high, (j, held, number)) = inv m start end member in
      let (answer, got, parsed) =
        bind_inv (r.json_get t (justification_key chain n')) r.from_slice held in
      let same : n' ≡ n =
        sym (parse_decimal-decimal n' (omega arith)) ∙ sym (ap parse_decimal text') ∙ text in
      (
        omega arith,
        omega arith,
        j,
        subst (λ k. get_justification r connects chain k t ≡ some (some j)) same
            (rw connected (rw got (rw parsed refl))),
        number ∙ same,
      )

  -- A member that a query answers is answered after the two commands that add a justification.
  zrangebyscore-json_set :
      (j : StoredJustificationData) (s : r.State) (m : Bytes) (low high : ℕ)
      → mem m (r.zrangebyscore s (blocks_key chain) low high) ≡ true
      → mem m (r.zrangebyscore (set r laws chain j s) (blocks_key chain) low high) ≡ true
  zrangebyscore-json_set j s m low high h =
      ap (mem m) (
        laws.zrangebyscore-json_set s _ (blocks_key chain) j low high
          (justification_key-ne_blocks chain j.block_number))
      ∙ h

  zrangebyscore-zadd :
      (j : StoredJustificationData) (s : r.State) (n low high : ℕ)
      → j.block_number < 2 ^ 32
      → n < 2 ^ 32
      → low ≤ n
      → n ≤ high
      → mem (decimal n) (r.zrangebyscore s (blocks_key chain) low high) ≡ true
      → mem (decimal n) (r.zrangebyscore (index r laws chain j s) (blocks_key chain) low high)
        ≡ true
  zrangebyscore-zadd j s n low high small small' lo hi h =
      laws.zrangebyscore-zadd s (blocks_key chain) (decimal j.block_number) (decimal n)
        j.block_number low high
      ∙ elim (Bool-cases (bytes_eq (decimal n) (decimal j.block_number))) [
        | inl same ↦
            let number : n ≡ j.block_number =
              decimal_inj n j.block_number (omega arith) (omega arith) (eq_of_bytes_eq _ _ same) in
            rw same (ground (arith, number))
        | inr other ↦ rw other h
      ]

  Step-mem :
      (s t : r.State) (n low high : ℕ)
      → n < 2 ^ 32
      → low ≤ n
      → n ≤ high
      → Step r laws chain s t
      → mem (decimal n) (r.zrangebyscore s (blocks_key chain) low high) ≡ true
      → mem (decimal n) (r.zrangebyscore t (blocks_key chain) low high) ≡ true
  unfolding add_justification
  Step-mem s t n low high small lo hi (added other j small' e) h =
      let (_, _, e') = bind_inv (get_connection other) _ e in
      subst (λ u. mem (decimal n) (r.zrangebyscore u (blocks_key chain) low high) ≡ true)
        (some_inj e')
        (zrangebyscore-zadd j (set r laws chain j s) n low high small' small lo hi
          (zrangebyscore-json_set j s (decimal n) low high h))
  Step-mem s t n low high small lo hi (stopped j small' e) h =
      subst (λ u. mem (decimal n) (r.zrangebyscore u (blocks_key chain) low high) ≡ true) (sym e)
        (zrangebyscore-json_set j s (decimal n) low high h)

  Reach-mem :
      (s t : r.State) (n low high : ℕ)
      → n < 2 ^ 32
      → low ≤ n
      → n ≤ high
      → Reach r laws chain s t
      → mem (decimal n) (r.zrangebyscore s (blocks_key chain) low high) ≡ true
      → mem (decimal n) (r.zrangebyscore t (blocks_key chain) low high) ≡ true
  Reach-mem s _ n low high small lo hi here h = h
  Reach-mem s u n low high small lo hi (next {t} reach step) h =
      Step-mem t u n low high small lo hi step (Reach-mem s t n low high small lo hi reach h)

  -- A block whose justification was added is among the answers of `get_blocks_in_range` for every
  -- range that it lies in, whatever justifications writers added since, if the query connects.
  pub add_justification-get_blocks_in_range :
      (s t u : r.State) (j : StoredJustificationData)
      → j.block_number < 2 ^ 32
      → add_justification r connects chain j s ≡ some t
      → Reach r laws chain t u
      → (start end : ℕ) → start ≤ j.block_number
      → j.block_number ≤ end
      → (blocks : List ℕ) × (get_blocks_in_range r connects chain start end u ≡ some blocks)
        × (i : ℕ) × (get_elem? blocks i ≡ some j.block_number)
  unfolding add_justification get_blocks_in_range
  add_justification-get_blocks_in_range s t u j small e reach start end lo hi =
      let (a, connected, e') = bind_inv (get_connection connects) _ e in
      let n = j.block_number in
      let indexed : mem (decimal n) (r.zrangebyscore t (blocks_key chain) start end) ≡ true =
        subst (λ v. mem (decimal n) (r.zrangebyscore v (blocks_key chain) start end) ≡ true)
          (some_inj e')
          (laws.zrangebyscore-zadd (set r laws chain j s) (blocks_key chain) (decimal n) (decimal n)
              n start end
            ∙ rw (bytes_eq_refl (decimal n)) (ground arith)) in
      let (i, at) =
        get_elem?-mem (decimal n) _ (Reach-mem t u n start end small lo hi reach indexed) in
      (
        map parse_decimal (r.zrangebyscore u (blocks_key chain) start end),
        rw connected refl,
        i,
        at ∙ ap some (parse_decimal-decimal n (omega arith)),
      )
