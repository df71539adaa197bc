-- ===== src/Redis/Index.antt =====
-- The index of justified blocks that `RedisClient` of circuits/input/mod.rs keeps.
use kno_vectorx.Common.{
  ◌>>=◌, ℕ, ◌^◌, ◌≤◌, ◌<◌, ◌≡◌, refl, sym, ap, subst, ◌∙◌, Bool, true, false, ◌&&◌, some, [], ◌∷◌,
  ◌++◌, Bytes, leb, ◌==◌, bytes_eq, eq_of_bytes_eq, eq_of_==, if◌then◌else◌, codes, decimal,
  decimal_head, parse_decimal, parse_decimal-decimal, arith, Bool-cases, inl, inr, bind_inv,
  some_inj,
}
use kno_vectorx.Vars.{StoredJustificationData}
use kno_vectorx.Redis.{Server, IsRedis, mem, justification_key, blocks_key, add_justification}
use kno_vectorx.Redis.Connection.{get_connection}

bytes_eq-append : (c x y : Bytes) → bytes_eq (c ++ x) (c ++ y) ≡ bytes_eq x y
unfolding bytes_eq
bytes_eq-append [] x y = refl
bytes_eq-append (b ∷ c) x y = ground (arith, bytes_eq-append c x y)

pub bytes_ne : (x y : Bytes) → ¬ (x ≡ y) → bytes_eq x y ≡ false
bytes_ne x y h = elim (Bool-cases (bytes_eq x y)) [
  | inl e ↦ absurd (h (eq_of_bytes_eq x y e))
  | inr e ↦ e
]

pub bytes_eq_comm : (x y : Bytes) → bytes_eq x y ≡ bytes_eq y x
unfolding bytes_eq
bytes_eq_comm [] [] = refl
bytes_eq_comm [] (y ∷ ys) = refl
bytes_eq_comm (x ∷ xs) [] = refl
bytes_eq_comm (x ∷ xs) (y ∷ ys) = ground (arith, bytes_eq_comm xs ys)

decimal-blocks : (n : ℕ) → bytes_eq (decimal n) (codes "blocks") ≡ false
unfolding bytes_eq
decimal-blocks n =
    let (c, rest, e, small) = decimal_head n in
    subst (λ d. bytes_eq d (codes "blocks") ≡ false) (sym e) (ground arith)

pub decimal_inj : (n m : ℕ) → n < 2 ^ 64 → m < 2 ^ 64 → decimal n ≡ decimal m → n ≡ m
decimal_inj n m hn hm e =
    sym (parse_decimal-decimal n hn) ∙ ap parse_decimal e ∙ parse_decimal-decimal m hm

module _ (chain : Bytes) where
  -- The key of a justification is neither that of the index nor that of another block.
  pub justification_key-ne_blocks :
      (n : ℕ) → bytes_eq (justification_key chain n) (blocks_key chain) ≡ false
  unfolding justification_key blocks_key
  justification_key-ne_blocks n =
      bytes_eq-append chain _ _ ∙ bytes_eq-append (codes ":justification:") _ _ ∙ decimal-blocks n

  pub justification_key-ne :
      (n m : ℕ)
      → n < 2 ^ 64
      → m < 2 ^ 64
      → ¬ (n ≡ m)
      → bytes_eq (justification_key chain n) (justification_key chain m) ≡ false
  unfolding justification_key
  justification_key-ne n m hn hm h =
      bytes_eq-append chain _ _
      ∙ bytes_eq-append (codes ":justification:") _ _
      ∙ bytes_ne (decimal n) (decimal m) (λ e. h (decimal_inj n m hn hm e))

module _ (r : Server) (laws : IsRedis r) (chain : Bytes) where
  abbrev Justified : r.State → ℕ → Type 0
  Justified s n =
      (j : StoredJustificationData) × ((r.json_get s (justification_key chain n) >>= r.from_slice)
        ≡ some (j ∷ []))
      × (j.block_number ≡ n)

  -- What a member indexed between two scores stands for.
  abbrev Held : r.State → (m : Bytes) (low high : ℕ) → Type 0
  Held s m low high =
      (n : ℕ) × (m ≡ decimal n) × (n < 2 ^ 32) × (low ≤ n) × (n ≤ high) × Justified s n

  -- Every indexed block has its justification.
  abbrev pub IsIndexed : r.State → Type 0
  IsIndexed s =
      (m : Bytes) (low high : ℕ)
      → mem m (r.zrangebyscore s (blocks_key chain) low high) ≡ true
      → Held s m low high

  abbrev pub set : StoredJustificationData → r.State → r.State
  set j s = r.json_set s (justification_key chain j.block_number) j

  abbrev pub index : StoredJustificationData → r.State → r.State
  index j s = r.zadd s (blocks_key chain) (decimal j.block_number) j.block_number

  -- What a writer does to the server: it adds a justification, or is stopped between the two
  -- commands of doing so.
  pub data Step (s t : r.State) : Type 0 where
    added :
        (connects : ℕ → Bool) (j : StoredJustificationData)
        → j.block_number < 2 ^ 32
        → add_justification r connects chain j s ≡ some t
        → Step s t
    stopped : (j : StoredJustificationData) → j.block_number < 2 ^ 32 → t ≡ set j s → Step s t

  pub data Reach (s : r.State) : r.State → Type 0 where
    here : Reach s s
    next : {t u : r.State} → Reach s t → Step t u → Reach s u

  json_set-Justified :
      (j : StoredJustificationData) (s : r.State) (n : ℕ)
      → j.block_number < 2 ^ 32
      → n < 2 ^ 32
      → Justified s n
      → Justified (set j s) n
  json_set-Justified j s n small small' (j', e, number) = elim (Bool-cases (n == j.block_number)) [
    | inl same ↦
        let same' = eq_of_== n j.block_number same in
        (
          j,
          ap (λ k. (r.json_get (set j s) (justification_key chain k) >>= r.from_slice)) same'
              ∙ laws.json_get_self s (justification_key chain j.block_number) j,
          sym same',
        )
    | inr other ↦
        let differ : ¬ (j.block_number ≡ n) = λ h. ground (arith, other) in
        let key = justification_key-ne chain j.block_number n (omega arith) (omega arith) differ in
        (j', ap (λ a. a >>= r.from_slice) (laws.json_get_other s _ _ j key) ∙ e, number)
  ]

  zadd-Justified :
      (j : StoredJustificationData) (s : r.State) (n : ℕ) → Justified s n → Justified (index j s) n
  zadd-Justified j s n (j', e, number) =
      let key =
        bytes_eq_comm (blocks_key chain) (justification_key chain n)
        ∙ justification_key-ne_blocks chain n in
      (j', ap (λ a. a >>= r.from_slice) (laws.json_get-zadd s _ _ _ j.block_number key) ∙ e, number)

  json_set-IsIndexed :
      (j : StoredJustificationData) (s : r.State)
      → j.block_number < 2 ^ 32
      → IsIndexed s
      → IsIndexed (set j s)
  json_set-IsIndexed j s small inv m low high e =
      let same =
        laws.zrangebyscore-json_set s _ (blocks_key chain) j low high
          (justification_key-ne_blocks chain j.block_number) in
      let (n, text, small', lo, hi, held) = inv m low high (sym (ap (mem m) same) ∙ e) in
      (n, text, small', lo, hi, json_set-Justified j s n small small' held)

  zadd-IsIndexed :
      (j : StoredJustificationData) (s : r.State)
      → j.block_number < 2 ^ 32
      → IsIndexed s
      → Justified s j.block_number
      → IsIndexed (index j s)
  zadd-IsIndexed j s small inv held m low high e =
      let law =
        laws.zrangebyscore-zadd s (blocks_key chain) (decimal j.block_number) m j.block_number low
          high in
      elim (Bool-cases (bytes_eq m (decimal j.block_number))) [
        | inl same ↦
            let both : (leb low j.block_number && leb j.block_number high) ≡ true =
              ap
                (λ t.
                  if t
                  then leb low j.block_number && leb j.block_number high
                  else mem m (r.zrangebyscore s (blocks_key chain) low high))
                (sym same)
              ∙ sym law
              ∙ e in
            (
              j.block_number,
              eq_of_bytes_eq m (decimal j.block_number) same,
              small,
              ground arith,
              ground arith,
              zadd-Justified j s j.block_number held,
            )
        | inr other ↦
            let before : mem m (r.zrangebyscore s (blocks_key chain) low high) ≡ true =
              ap
                (λ t.
                  if t
                  then leb low j.block_number && leb j.block_number high
                  else mem m (r.zrangebyscore s (blocks_key chain) low high))
                (sym other)
              ∙ sym law
              ∙ e in
            let (n, text, small', lo, hi, held') = inv m low high before in
            (n, text, small', lo, hi, zadd-Justified j s n held')
      ]

  Step-IsIndexed : (s t : r.State) → Step s t → IsIndexed s → IsIndexed t
  unfolding add_justification
  Step-IsIndexed s t (added connects j small e) inv =
      let (_, _, e') = bind_inv (get_connection connects) _ e in
      let stored = json_set-IsIndexed j s small inv in
      let held = laws.json_get_self s (justification_key chain j.block_number) j in
      subst IsIndexed (some_inj e') (zadd-IsIndexed j (set j s) small stored (j, held, refl))
  Step-IsIndexed s t (stopped j small e) inv =
      subst IsIndexed (sym e) (json_set-IsIndexed j s small inv)

  pub Reach-IsIndexed : (s t : r.State) → Reach s t → IsIndexed s → IsIndexed t
  Reach-IsIndexed s _ here inv = inv
  Reach-IsIndexed s u (next {t} reach step) inv =
      Step-IsIndexed t u step (Reach-IsIndexed s t reach inv)
