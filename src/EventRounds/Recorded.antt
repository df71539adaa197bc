-- ===== src/EventRounds/Recorded.antt =====
-- What Redis has of the events up to the cursor of bin/events.rs.
use kno_vectorx.Common.{
  ℕ, zero, suc, ◌+◌, ◌%◌, ◌^◌, ◌⊎◌, ◌<◌, ◌≡◌, refl, sym, ap, subst, ◌∙◌, Bool, true, false, ◌&&◌,
  some, List, [], ◌∷◌, ◌++◌, Bytes, length, get_elem?, leb, ltb, ◌==◌, bytes_eq, bytes_eq_refl,
  if◌then◌else◌, codes, decimal, bind_inv, assert_inv, some_inj, Bool-cases, inl, inr, arith, ◌>>=◌,
}
use kno_vectorx.Operator.{be_bytes}
use kno_vectorx.Events.{DataCommitmentRange, store_loop}
use kno_vectorx.Redis.{Server, IsRedis, mem, cursor_key, ranges_key, add_data_commitment_range}
use kno_vectorx.Redis.Connection.{get_connection}
use kno_vectorx.Redis.Index.{bytes_ne}
use kno_vectorx.EventRounds.{add_ranges}

last_or : ℕ → Bytes → ℕ
last_or d [] = d
last_or d (x ∷ xs) = last_or x xs

last_or-append : (d : ℕ) (xs : Bytes) (y : ℕ) (ys : Bytes) → last_or d (xs ++ y ∷ ys) ≡ last_or y ys
unfolding last_or
last_or-append d [] y ys = refl
last_or-append d (x ∷ xs) y ys = last_or-append x xs y ys

-- The key of a cursor ends with another letter than the key of a set of ranges.
pub key_ne : (c i : ℕ) (a b : Bytes) → bytes_eq (cursor_key c a) (ranges_key i b) ≡ false
unfolding cursor_key ranges_key last_or
key_ne c i a b = bytes_ne (cursor_key c a) (ranges_key i b) (λ e. differ (ap (last_or 0) e))
  where
    cursor_last : last_or 0 (cursor_key c a) ≡ 114
    cursor_last =
        last_or-append 0 (decimal c) 58 (a ++ codes ":cursor")
        ∙ last_or-append 58 a 58 (codes "cursor")

    ranges_last : last_or 0 (ranges_key i b) ≡ 115
    ranges_last =
        last_or-append 0 (decimal i) 58 (48 ∷ 120 ∷ (b ++ codes ":ranges"))
        ∙ last_or-append 120 b 58 (codes "ranges")

    differ : last_or 0 (cursor_key c a) ≡ last_or 0 (ranges_key i b) → ⊥
    differ e = omega (arith, e, cursor_last, ranges_last)

get_elem?-cases :
    (first : DataCommitmentRange) (ranges : List DataCommitmentRange) (i : ℕ)
    (range : DataCommitmentRange)
    → get_elem? (first ∷ ranges) i ≡ some range
    → (first ≡ range) ⊎ ((j : ℕ) × (get_elem? ranges j ≡ some range))
get_elem?-cases first ranges zero range e = inl (some_inj e)
get_elem?-cases first ranges (suc i) range e = inr (i, e)

pub get_elem?-append_cases :
    (xs ys : List DataCommitmentRange) (i : ℕ) (range : DataCommitmentRange)
    → get_elem? (xs ++ ys) i ≡ some range
    → ((j : ℕ) × (get_elem? xs j ≡ some range)) ⊎ ((j : ℕ) × (get_elem? ys j ≡ some range))
get_elem?-append_cases [] ys i range e = inr (i, e)
get_elem?-append_cases (x ∷ xs) ys zero range e = inl (0, e)
get_elem?-append_cases (x ∷ xs) ys (suc i) range e = elim (get_elem?-append_cases xs ys i range e) [
  | inl (j, found) ↦ inl (suc j, found)
  | inr later ↦ inr later
]

-- What is stored is a log of some query.
pub store_loop_inv :
    (get_logs : ℕ → ℕ → List DataCommitmentRange) (fuel from to : ℕ)
    (stored : List DataCommitmentRange)
    → store_loop get_logs fuel from to ≡ some stored
    → (i : ℕ) (range : DataCommitmentRange) → get_elem? stored i ≡ some range
    → (a b j : ℕ) × (get_elem? (get_logs a b) j ≡ some range)
unfolding store_loop
store_loop_inv get_logs zero from to stored e i range at = cc
store_loop_inv get_logs (suc fuel) from to stored e i range at = elim (Bool-cases (ltb from to)) [
  | inr done ↦
      let nothing : store_loop get_logs (suc fuel) from to ≡ some [] = rw (done, store_loop) refl in
      let same : [] ≡ stored = some_inj (sym nothing ∙ e) in
      let absent : get_elem? {A = DataCommitmentRange} [] i ≡ some range =
        ap (λ xs. get_elem? xs i) same ∙ at in
      cc
  | inl more ↦
      let next = (from + 50000) % 2 ^ 64 in
      let batch_end = if ltb to next then to else next in
      let round : store_loop get_logs (suc fuel) from to ≡ (
          store_loop get_logs fuel batch_end to >>= λ rest.
          some (get_logs from batch_end ++ rest)) =
        rw (more, store_loop) refl in
      let (rest, ran, joined) =
        bind_inv (store_loop get_logs fuel batch_end to) _ (sym round ∙ e) in
      let at' = ap (λ xs. get_elem? xs i) (some_inj joined) ∙ at in
      elim (get_elem?-append_cases (get_logs from batch_end) rest i range at') [
        | inl (j, found) ↦ (from, batch_end, j, found)
        | inr (j, found) ↦ store_loop_inv get_logs fuel batch_end to rest ran j range found
      ]
]

module _ (hex_encode : Bytes → Bytes) where
  -- How a range is stored: the packed tuple in hexadecimal.
  abbrev pub member : DataCommitmentRange → Bytes
  member range =
      hex_encode (be_bytes 4 range.start ++ (be_bytes 4 range.end ++ range.data_commitment))

  module _ (r : Server) (laws : IsRedis r) (connects : ℕ → Bool) (chain_id : ℕ)
      (address : Bytes) where
    -- The ranges that Redis has for the contract.
    abbrev pub recorded : r.State → List Bytes
    recorded s = r.zrangebyscore s (ranges_key chain_id (hex_encode address)) 0 4294967295

    add_range_inv :
        (range : DataCommitmentRange) (s t : r.State)
        → add_data_commitment_range r connects hex_encode chain_id address range s ≡ some t
        → r.zadd s (ranges_key chain_id (hex_encode address)) (member range) range.end ≡ t
    unfolding add_data_commitment_range
    add_range_inv range s t e =
        let (_, _, e1) = bind_inv (get_connection connects) _ e in
        let (_, e2) = assert_inv (length range.data_commitment == 32) _ e1 in some_inj e2

    add_range_mem :
        (range : DataCommitmentRange) (s t : r.State)
        → range.end < 2 ^ 32
        → add_data_commitment_range r connects hex_encode chain_id address range s ≡ some t
        → (x : Bytes)
        → mem x (recorded t) ≡ (if bytes_eq x (member range) then true else mem x (recorded s))
    add_range_mem range s t small e x =
        let in_range : (leb 0 range.end && leb range.end 4294967295) ≡ true = ground arith in
        ap (λ u. mem x (recorded u)) (sym (add_range_inv range s t e))
        ∙ laws.zrangebyscore-zadd s (ranges_key chain_id (hex_encode address)) (member range) x
            range.end 0 4294967295
        ∙ ap (λ b. if bytes_eq x (member range) then b else mem x (recorded s)) in_range

    -- All ranges of a list are added, and nothing is lost.
    pub add_ranges-mem :
        (ranges : List DataCommitmentRange) (s t : r.State)
        → ((i : ℕ) (range : DataCommitmentRange)
            → get_elem? ranges i ≡ some range
            → range.end < 2 ^ 32)
        → add_ranges r connects hex_encode chain_id address ranges s ≡ some t
        → ((x : Bytes) → mem x (recorded s) ≡ true → mem x (recorded t) ≡ true)
          × ((i : ℕ) (range : DataCommitmentRange)
              → get_elem? ranges i ≡ some range
              → mem (member range) (recorded t) ≡ true)
          × ((k : Bytes)
              → bytes_eq (ranges_key chain_id (hex_encode address)) k ≡ false
              → r.get t k ≡ r.get s k)
    unfolding add_ranges
    add_ranges-mem [] s t small e = (
      λ x h. subst (λ u. mem x (recorded u) ≡ true) (some_inj e) h,
      λ i range at. cc,
      λ k ne. ap (λ u. r.get u k) (sym (some_inj e)),
    )
    add_ranges-mem (first ∷ ranges) s u small e =
        let (t, e1, e2) =
          bind_inv (add_data_commitment_range r connects hex_encode chain_id address first s) _ e in
        let (kept, added, same) =
          add_ranges-mem ranges t u (λ i range at. small (suc i) range at) e2 in
        let now = add_range_mem first s t (small 0 first refl) e1 in
        (
          λ x h. kept x (
              now x ∙ elim (Bool-cases (bytes_eq x (member first))) [
                | inl a ↦ rw a refl
                | inr a ↦ rw a h
              ]),
          λ i range at. elim (get_elem?-cases first ranges i range at) [
            | inl same ↦ kept (member range) (
                now (member range)
                ∙ ap
                    (λ v.
                      if bytes_eq (member range) (member v)
                      then true
                      else mem (member range) (recorded s))
                    same
                ∙ rw (bytes_eq_refl (member range)) refl)
            | inr (j, later) ↦ added j range later
          ],
          λ k ne.
              same k ne
              ∙ ap (λ v. r.get v k) (sym (add_range_inv first s t e1))
              ∙ laws.get-zadd s _ k (member first) first.end ne,
        )
