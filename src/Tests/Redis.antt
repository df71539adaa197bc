-- ===== src/Tests/Redis.antt =====
-- A small Redis server that does what is documented, and the properties of `RedisClient` at it.
use kno_vectorx.Common.{
  ℕ, ◌≤◌, ◌<◌, ◌≡◌, refl, sym, ◌∙◌, Bool, true, false, ◌&&◌, ◌||◌, ◌⊎◌, decimal, parse_decimal, inl,
  inr, Option, none, some, List, [], ◌∷◌, Bytes, get_elem?, leb, bytes_eq, bytes_eq_refl,
  eq_of_bytes_eq, if◌then◌else◌, codes, arith, Bool-cases,
}
use kno_vectorx.Vars.{StoredJustificationData}
use kno_vectorx.Redis.{
  Server, IsRedis, mem, justification_key, blocks_key, add_justification, get_justification,
  get_blocks_in_range,
}
use kno_vectorx.Redis.Connection.{attempts_loop, get_connection, get_connection_first}
use kno_vectorx.Redis.Index.{bytes_eq_comm, Reach, here, next, added, stopped}
use kno_vectorx.Redis.Answers.{
  get_blocks_in_range-get_justification, add_justification-get_blocks_in_range,
}

pub record Memory : Type 0 where
  pub values : Bytes → Option StoredJustificationData
  pub members : Bytes → List (Bytes × ℕ)
  pub numbers : Bytes → Option ℕ

abbrev put {ℓ} : {A : Type ℓ} → (Bytes → A) → Bytes → A → Bytes → A
put f k v j = if bytes_eq k j then v else f j

abbrev remove : Bytes → List (Bytes × ℕ) → List (Bytes × ℕ)
remove m [] = []
remove m (e ∷ es) = let rest = remove m es in if bytes_eq e.0 m then rest else e ∷ rest

abbrev members_between : (low high : ℕ) → List (Bytes × ℕ) → List Bytes
members_between low high [] = []
members_between low high (e ∷ es) =
    let rest = members_between low high es in
    if leb low e.1 && leb e.1 high then e.0 ∷ rest else rest

abbrev pub memory : Server
memory = record {
  State = Memory;
  Answer = StoredJustificationData;
  json_set = λ s k v. record {
    values = put s.values k (some v);
    members = s.members;
    numbers = s.numbers;
  };
  json_get = λ s k. s.values k;
  from_slice = λ v. some (v ∷ []);
  zadd = λ s k m score. record {
    values = s.values;
    members = put s.members k ((m, score) ∷ remove m (s.members k));
    numbers = s.numbers;
  };
  zrangebyscore = λ s k low high. members_between low high (s.members k);
  set = λ s k v. record {
    values = s.values;
    members = s.members;
    numbers = put s.numbers k (some v);
  };
  get = λ s k. s.numbers k;
}

-- Whether `x` is a member, where `m` is one with a score that passes the test, and where it was removed.
mem-if :
    (x y : Bytes) (b : Bool) (xs : List Bytes)
    → mem x (if b then y ∷ xs else xs) ≡ (if bytes_eq x y then b || mem x xs else mem x xs)
unfolding mem
mem-if x y true xs = elim (Bool-cases (bytes_eq x y)) [ inl t ↦ rw t refl | inr t ↦ rw t refl ]
mem-if x y false xs = elim (Bool-cases (bytes_eq x y)) [ inl t ↦ rw t refl | inr t ↦ rw t refl ]

or_false : (b : Bool) → (b || false) ≡ b
or_false true = refl
or_false false = refl

remove_lem :
    (m x : Bytes) (low high : ℕ) (es : List (Bytes × ℕ))
    → mem x (members_between low high (remove m es))
      ≡ (if bytes_eq x m then false else mem x (members_between low high es))
unfolding mem
remove_lem m x low high [] = elim (Bool-cases (bytes_eq x m)) [
  | inl t ↦ rw t refl
  | inr t ↦ rw t refl
]
remove_lem m x low high ((y, n) ∷ es) =
    let before = mem-if x y (leb low n && leb n high) (members_between low high es) in
    let after = mem-if x y (leb low n && leb n high) (members_between low high (remove m es)) in
    elim (Bool-cases (bytes_eq y m)) [
      | inl t ↦ elim (Bool-cases (bytes_eq x m)) [
        | inl t' ↦ rw (t, t') (remove_lem m x low high es ∙ rw t' refl)
        | inr t' ↦
            let apart : bytes_eq x y ≡ false = rw (eq_of_bytes_eq y m t) t' in
            rw (t, t') (remove_lem m x low high es ∙ rw t' (sym (before ∙ rw apart refl)))
      ]
      | inr t ↦ elim (Bool-cases (bytes_eq x m)) [
        | inl t' ↦
            let apart : bytes_eq x y ≡ false = bytes_eq_comm x y ∙ rw (eq_of_bytes_eq x m t') t in
            rw (t, t') (after ∙ rw apart (remove_lem m x low high es ∙ rw t' refl))
        | inr t' ↦
            let rest = remove_lem m x low high es ∙ rw t' refl in
            rw (t, t') (after ∙ rw rest (sym before))
      ]
    ]

pub memory-IsRedis : IsRedis memory
memory-IsRedis = record {
  json_get_self = λ s k v. rw (bytes_eq_refl k) refl;
  json_get_other = λ s k j v e. rw e refl;
  json_get-zadd = λ s k j m score e. refl;
  zrangebyscore-json_set = λ s k j v a b e. refl;
  zrangebyscore-zadd = λ s k m x score low high. zadd s k m x score low high;
  get-zadd = λ s k j m score e. refl;
  zrangebyscore-set = λ s k j v a b e. refl;
  get_self = λ s k v. rw (bytes_eq_refl k) refl;
  get_other = λ s k j v e. rw e refl;
}
  where
    zadd :
        (s : Memory) (k m x : Bytes) (score low high : ℕ)
        → mem x (memory.zrangebyscore (memory.zadd s k m score) k low high) ≡ (
            if bytes_eq x m
            then leb low score && leb score high
            else mem x (memory.zrangebyscore s k low high))
    zadd s k m x score low high =
        let now =
          mem-if x m (leb low score && leb score high)
            (members_between low high (remove m (s.members k))) in
        let old = remove_lem m x low high (s.members k) in
        rw (bytes_eq_refl k) (
          now ∙ elim (Bool-cases (bytes_eq x m)) [
            | inl t ↦ rw (t, old, t) (or_false _)
            | inr t ↦ rw (t, old, t) refl
          ])

-- The first attempt to connect fails, the next one succeeds.
abbrev pub connects : ℕ → Bool
connects i = leb 1 i

abbrev pub chain : Bytes
chain = codes "turing"

abbrev pub empty : Memory
empty = record { values = λ k. none; members = λ k. []; numbers = λ k. none }

abbrev justification_of : ℕ → StoredJustificationData
justification_of n = record {
  block_number = n;
  signed_message = [];
  pubkeys = [];
  signatures = [];
  num_authorities = 0;
  validator_signed = [];
}

-- Block 7 is added, a writer stops in the middle of adding block 8, and block 9 is added.
abbrev with_7 : Memory
with_7 =
    memory.zadd (memory.json_set empty (justification_key chain 7) (justification_of 7))
      (blocks_key chain) (codes "7") 7

add_7 : add_justification memory connects chain (justification_of 7) empty ≡ some with_7
unfolding add_justification get_connection attempts_loop justification_key blocks_key decimal
add_7 = refl

abbrev pub with_8 : Memory
with_8 = memory.json_set with_7 (justification_key chain 8) (justification_of 8)

to_with_8 : Reach memory memory-IsRedis chain empty with_8
to_with_8 =
    next (next here (added connects (justification_of 7) (omega arith) add_7))
      (stopped (justification_of 8) (omega arith) refl)

get_blocks_in_range-get_justification_example :
    (5 ≤ 7)
    × (7 ≤ 20)
    × (j : StoredJustificationData) × (get_justification memory connects chain 7 with_8
        ≡ some (some j))
    × (j.block_number ≡ 7)
unfolding get_blocks_in_range get_connection attempts_loop blocks_key mem bytes_eq parse_decimal
get_blocks_in_range-get_justification_example =
    get_blocks_in_range-get_justification memory memory-IsRedis chain connects empty with_8
      (λ m low high. refl) to_with_8 5 20 (7 ∷ []) refl 0 7 refl

add_justification-get_blocks_in_range_example :
    (blocks : List ℕ) × (get_blocks_in_range memory connects chain 5 20 with_8 ≡ some blocks)
    × (i : ℕ) × (get_elem? blocks i ≡ some 7)
add_justification-get_blocks_in_range_example =
    add_justification-get_blocks_in_range memory memory-IsRedis chain connects empty with_7 with_8
      (justification_of 7) (omega arith) add_7
      (next here (stopped (justification_of 8) (omega arith) refl)) 5 20 (omega arith) (omega arith)

get_connection_first_example :
    ((j : ℕ) × (get_connection connects ≡ some j)
      × (j < 3)
      × (connects j ≡ true)
      × ((k : ℕ) → k < j → connects k ≡ false))
    ⊎ ((get_connection connects ≡ none) × ((k : ℕ) → k < 3 → connects k ≡ false))
get_connection_first_example = get_connection_first connects
