-- ===== src/Indexer/Listening.antt =====
-- What Redis has after bin/indexer.rs processed some justifications.
use kno_vectorx.Common.{
  ◌>>=◌, ℕ, ◌^◌, ◌≤◌, ◌<◌, ◌≡◌, sym, ap, subst, ◌∙◌, Bool, false, Option, none, some, List, [], ◌∷◌,
  Bytes, get_elem?, eq_of_==, ◌==◌, arith, Bool-cases, inl, inr, bind_inv, some_inj,
}
use kno_vectorx.Vars.{GrandpaJustification, StoredJustificationData}
use kno_vectorx.Fetcher.Rpc.{Rpc, Libraries}
use kno_vectorx.Redis.{
  Server, IsRedis, mem, blocks_key, justification_key, add_justification, get_justification,
  get_blocks_in_range,
}
use kno_vectorx.Redis.Answers.{get_blocks_in_range-get_justification}
use kno_vectorx.Redis.Connection.{get_connection}
use kno_vectorx.Redis.Index.{
  justification_key-ne, justification_key-ne_blocks, bytes_eq_comm, Reach, here, next, added,
}
use kno_vectorx.Indexer.{Node, justification_data, index_justification, listen_for_justifications}
use kno_vectorx.Indexer.Stored.{Verified, justification_data-Verified}

-- What an answer of `get_justification` went through.
answer_inv :
    (a : Option (List StoredJustificationData)) (j : StoredJustificationData)
    → (elim a as (λ o. Option (Option StoredJustificationData)) [
      | none ↦ some none
      | some [] ↦ none
      | some (justification ∷ rest) ↦ some (some justification)
    ])
      ≡ some (some j)
    → (rest : List StoredJustificationData) × (a ≡ some (j ∷ rest))
answer_inv none j e = cc
answer_inv (some []) j e = cc
answer_inv (some (k ∷ rest)) j e = (rest, ap (λ x. some (x ∷ rest)) (some_inj (some_inj e)))

module _ (libs : Libraries) (rpc : Rpc) (node : Node) (r : Server) (connects : ℕ → Bool)
    (chain : Bytes) where
  module _ (laws : IsRedis r) where
    -- Every justification that Redis has for a block of the chain is verified.
    abbrev pub AllVerified : r.State → Type 0
    AllVerified s =
        (n : ℕ) (j : StoredJustificationData) (rest : List StoredJustificationData)
        → n < 2 ^ 32
        → (r.json_get s (justification_key chain n) >>= r.from_slice) ≡ some (j ∷ rest)
        → Verified libs j

    add_justification-AllVerified :
        (j : StoredJustificationData) (s t : r.State)
        → j.block_number < 2 ^ 32
        → Verified libs j
        → add_justification r connects chain j s ≡ some t
        → AllVerified s
        → AllVerified t
    unfolding add_justification
    add_justification-AllVerified j s t small ok added_ inv =
        let (_, _, e) = bind_inv (get_connection connects) _ added_ in
        let number = j.block_number in
        let key = justification_key chain number in
        let set = r.json_set s key j in
        subst AllVerified (some_inj e) (λ n k rest small' found.
          let apart = bytes_eq_comm _ _ ∙ justification_key-ne_blocks chain n in
          let before =
            ap (λ a. a >>= r.from_slice)
              (sym (laws.json_get-zadd set _ (justification_key chain n) _ number apart))
            ∙ found in
          elim (Bool-cases (number == n)) [
            | inl same ↦
                let here =
                  ap (λ m. (r.json_get set (justification_key chain m) >>= r.from_slice))
                    (eq_of_== number n same)
                  ∙ before in
                let last : j ∷ [] ≡ k ∷ rest = some_inj (sym (laws.json_get_self s key j) ∙ here) in
                let it : j ≡ k = cc in subst (Verified libs) it ok
            | inr other ↦
                let differ : ¬ (number ≡ n) = λ h. ground (arith, other) in
                let apart' =
                  justification_key-ne chain number n (omega arith) (omega arith) differ in
                inv n k rest small' (
                  ap (λ a. a >>= r.from_slice)
                    (sym (laws.json_get_other s key (justification_key chain n) j apart'))
                  ∙ before)
          ])

    -- A round keeps the server verified, and does what a writer of Redis does, or nothing.
    round_kept :
        (justification : GrandpaJustification) (found : Option StoredJustificationData)
        (s t : r.State)
        → (node.header_of justification.commit.target_hash).number < 2 ^ 32
        → justification_data libs rpc node r connects chain justification ≡ some found
        → (elim found as (λ o. Option r.State) [
          | none ↦ some s
          | some j ↦ add_justification r connects chain j s
        ])
          ≡ some t
        → AllVerified s
        → AllVerified t × Reach r laws chain s t
    round_kept justification none s t small e e' inv =
        (subst AllVerified (some_inj e') inv, subst (Reach r laws chain s) (some_inj e') here)
    round_kept justification (some j) s t small e e' inv =
        let (ok, _, _, number, _) =
          justification_data-Verified libs rpc node r connects chain justification j e in
        let small' : j.block_number < 2 ^ 32 = omega (arith, number, small) in
        (
          add_justification-AllVerified j s t small' ok e' inv,
          next here (added connects j small' e'),
        )

    Reach-trans :
        (s t u : r.State) → Reach r laws chain s t → Reach r laws chain t u → Reach r laws chain s u
    Reach-trans s m _ a here = a
    Reach-trans s m u a (next {t} b step) = next (Reach-trans s m t a b) step

    module _ (small : (hash : Bytes) → (node.header_of hash).number < 2 ^ 32) where
      listen_kept :
          (justifications : List GrandpaJustification) (s t : r.State)
          → listen_for_justifications libs rpc node r connects chain justifications s ≡ some t
          → AllVerified s
          → AllVerified t × Reach r laws chain s t
      unfolding listen_for_justifications index_justification
      listen_kept [] s t e inv =
          (subst AllVerified (some_inj e) inv, subst (Reach r laws chain s) (some_inj e) here)
      listen_kept (j ∷ js) s u e inv =
          let (t, e1, e2) = bind_inv (index_justification libs rpc node r connects chain j s) _ e in
          let (found, e3, e4) =
            bind_inv (justification_data libs rpc node r connects chain j) _ e1 in
          let (inv', first) = round_kept j found s t (small j.commit.target_hash) e3 e4 inv in
          let (inv'', rest) = listen_kept js t u e2 inv' in (inv'', Reach-trans s t u first rest)

      -- From a server whose index of the chain is empty, and where what is stored is verified, whatever
      -- justifications are announced, of blocks whose numbers are `u32`: once they are processed, every
      -- block that a query returns is in its range, and has a stored justification with an entry for
      -- each authority, in which each flagged entry holds a valid signature over the message.
      pub listen_for_justifications-Verified :
          (justifications : List GrandpaJustification) (s t : r.State)
          → ((m : Bytes) (low high : ℕ)
              → mem m (r.zrangebyscore s (blocks_key chain) low high) ≡ false)
          → AllVerified s
          → listen_for_justifications libs rpc node r connects chain justifications s ≡ some t
          → (start end : ℕ) (blocks : List ℕ) → end < 2 ^ 32
          → get_blocks_in_range r connects chain start end t ≡ some blocks
          → (i n : ℕ) → get_elem? blocks i ≡ some n
          → (start ≤ n)
            × (n ≤ end)
            × (j : StoredJustificationData) × (get_justification r connects chain n t
                ≡ some (some j))
            × (j.block_number ≡ n)
            × Verified libs j
      unfolding get_justification
      listen_for_justifications-Verified justifications s t empty inv e start end blocks u32
            answered i n at =
          let (inv', reach) = listen_kept justifications s t e inv in
          let (lo, hi, j, found, number) =
            get_blocks_in_range-get_justification r laws chain connects s t empty reach start end
              blocks answered i n at in
          let (_, _, e') = bind_inv (get_connection connects) _ found in
          let (answer, got, parsed) = bind_inv (r.json_get t (justification_key chain n)) _ e' in
          let (rest, one) = answer_inv (r.from_slice answer) j parsed in
          let held : (r.json_get t (justification_key chain n) >>= r.from_slice) ≡ some (j ∷ rest) =
            ap (λ a. a >>= r.from_slice) got ∙ one in
          (lo, hi, j, found, number, inv' n j rest (omega arith) held)
