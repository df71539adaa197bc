-- ===== src/Redis/Connection.antt =====
-- The connection attempts of circuits/input/mod.rs, to Redis and to the Avail node.
use kno_vectorx.Common.{
  ℕ, zero, suc, ◌+◌, ◌≤◌, ◌<◌, ◌≡◌, refl, subst, Bool, true, false, Option, none, some, arith,
  Bool-cases, inl, inr, ◌⊎◌, if◌then◌else◌,
}
use native.Mathlib.Decide.{dec_le}

abbrev pub max_reconnect_attempts : ℕ
max_reconnect_attempts = 3

-- The loop over the attempts from `i` on; `connects i` says whether attempt `i` succeeds. `none` is
-- the error after the last one.
unfoldable pub attempts_loop : (ℕ → Bool) → (rounds i : ℕ) → Option ℕ
attempts_loop connects zero i = none
attempts_loop connects (suc rounds) i =
    let later = attempts_loop connects rounds (i + 1) in if connects i then some i else later

-- `RedisClient::get_connection`
unfoldable pub get_connection : (ℕ → Bool) → Option ℕ
unfolding attempts_loop
get_connection connects = attempts_loop connects max_reconnect_attempts 0

-- `RpcDataFetcher::refresh_ws_connection`: in each round the client at hand is asked for its health,
-- and if it fails a new one is built. The result says whether the client was replaced.
unfoldable pub refresh_loop : (healthy builds : ℕ → Bool) → (rounds i : ℕ) → Option Bool
refresh_loop healthy builds zero i = none
refresh_loop healthy builds (suc rounds) i =
    let later = refresh_loop healthy builds rounds (i + 1) in
    if healthy i then some false else if builds i then some true else later

unfoldable pub refresh_ws_connection : (healthy builds : ℕ → Bool) → Option Bool
unfolding refresh_loop
refresh_ws_connection healthy builds = refresh_loop healthy builds max_reconnect_attempts 0

module _ (connects : ℕ → Bool) where
  from_next :
      (i j k : ℕ)
      → connects i ≡ false
      → ((k : ℕ) → i + 1 ≤ k → k < j → connects k ≡ false)
      → i ≤ k
      → k < j
      → connects k ≡ false
  from_next i j k failed before l h = elim (dec_le (i + 1) k) [
    | yes later ↦ before k later h
    | no here ↦ let same : i ≡ k = omega arith in subst (λ n. connects n ≡ false) same failed
  ]

  loop_result :
      (rounds i : ℕ)
      → ((j : ℕ) × (attempts_loop connects rounds i ≡ some j)
          × (i ≤ j)
          × (j < i + rounds)
          × (connects j ≡ true)
          × ((k : ℕ) → i ≤ k → k < j → connects k ≡ false))
        ⊎ ((attempts_loop connects rounds i ≡ none)
            × ((k : ℕ) → i ≤ k → k < i + rounds → connects k ≡ false))
  unfolding attempts_loop
  loop_result zero i = inr (refl, λ k l h. absurd (omega arith))
  loop_result (suc rounds) i = elim (Bool-cases (connects i)) [
    | inl here ↦
        inl (i, rw here refl, omega arith, omega arith, here, λ k l h. absurd (omega arith))
    | inr failed ↦ elim (loop_result rounds (i + 1)) [
      | inl (j, found, l, h, ok, before) ↦ inl (
        j,
        rw failed found,
        omega arith,
        omega arith,
        ok,
        λ k l' h'. from_next i j k failed before l' h',
      )
      | inr (gone, all) ↦ inr (
        rw failed gone,
        λ k l' h'. from_next i (i + suc rounds) k failed (λ k l h. all k l (omega arith)) l' h',
      )
    ]
  ]

  -- A connection is the first attempt that succeeds, among three; there is an error exactly if all
  -- three fail.
  pub get_connection_first :
      ((j : ℕ) × (get_connection connects ≡ some j)
        × (j < 3)
        × (connects j ≡ true)
        × ((k : ℕ) → k < j → connects k ≡ false))
      ⊎ ((get_connection connects ≡ none) × ((k : ℕ) → k < 3 → connects k ≡ false))
  unfolding get_connection
  get_connection_first = elim (loop_result 3 0) [
    | inl (j, found, l, h, ok, before) ↦
        inl (j, found, omega arith, ok, λ k h'. before k (omega arith) h')
    | inr (gone, all) ↦ inr (gone, λ k h'. all k (omega arith) (omega arith))
  ]
