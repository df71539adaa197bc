-- ===== src/EventRounds/Invariant.antt =====
-- The cursor of bin/events.rs: the events up to it are in Redis.
use kno_vectorx.Common.{
  ℕ, zero, suc, ◌+◌, ◌-◌, ◌^◌, ◌≤◌, ◌<◌, ◌≡◌, refl, sym, ap, subst, ◌∙◌, Bool, true, false, Option,
  none, some, List, [], ◌∷◌, ◌++◌, Bytes, get_elem?, ltb, ltb→lt, bind_inv, assert_inv, some_inj,
  inl, inr, arith, range_from, ◌>>=◌,
}
use native.Mathlib.Decide.{dec_le}
use kno_vectorx.Events.{DataCommitmentRange, store_events}
use kno_vectorx.Events.Coverage.{events_of, store_events-Stored}
use kno_vectorx.Redis.{
  Server, IsRedis, mem, cursor_key, ranges_key, get_contract_cursor, set_contract_cursor,
}
use kno_vectorx.Redis.Connection.{get_connection}
use kno_vectorx.EventRounds.{
  Deployment, Ethereum, add_ranges, address_text, store_deployment, store_rounds,
}
use kno_vectorx.EventRounds.Recorded.{
  member, recorded, add_ranges-mem, key_ne, store_loop_inv, get_elem?-append_cases,
}

-- An entry of the middle part of a list.
middle :
    (xs ys zs : List DataCommitmentRange) (i : ℕ) (range : DataCommitmentRange)
    → get_elem? ys i ≡ some range
    → (j : ℕ) × (get_elem? (xs ++ (ys ++ zs)) j ≡ some range)
middle [] [] zs i range e = cc
middle [] (y ∷ ys) zs zero range e = (0, e)
middle [] (y ∷ ys) zs (suc i) range e = let (j, at) = middle [] ys zs i range e in (suc j, at)
middle (x ∷ xs) ys zs i range e = let (j, at) = middle xs ys zs i range e in (suc j, at)

module _ (hex_encode : Bytes → Bytes) (r : Server) (laws : IsRedis r) (connects : ℕ → Bool)
    (deployment : Deployment) (chain_id : ℕ) (events_at : ℕ → List DataCommitmentRange)
    (u32 : (b i : ℕ) (range : DataCommitmentRange)
      → get_elem? (events_at b) i ≡ some range
      → range.end < 2 ^ 32) where
  -- What a round sees is the chain with these events: a query answers with the events of all blocks
  -- from its first to its last.
  pub record IsView (ethereum : Ethereum) : Type 0 where
    pub same_chain : ethereum.chain_id ≡ chain_id
    pub inclusive :
        (a b : ℕ) → ethereum.get_logs a b ≡ events_of events_at (range_from a (b + 1 - a))
    pub small : ethereum.current_block + 50000 < 2 ^ 64

  abbrev key : Bytes
  key =
      cursor_key deployment.contract_chain_id
        (address_text r connects hex_encode deployment.contract_address)

  abbrev Has : r.State → ℕ → Type 0
  Has s b =
      (i : ℕ) (range : DataCommitmentRange)
      → get_elem? (events_at b) i ≡ some range
      → mem (member hex_encode range)
          (recorded hex_encode r laws connects chain_id deployment.contract_address s)
        ≡ true

  -- The events of all blocks from the deployment's start to its cursor are recorded.
  abbrev pub Recorded : r.State → Type 0
  Recorded s =
      (cursor : ℕ)
      → r.get s key ≡ some cursor
      → (b : ℕ) → deployment.cursor_start_block ≤ b
      → b ≤ cursor
      → Has s b

  events_of_inv :
      (bs : List ℕ) (j : ℕ) (range : DataCommitmentRange)
      → get_elem? (events_of events_at bs) j ≡ some range
      → range.end < 2 ^ 32
  events_of_inv [] j range e = cc
  events_of_inv (b ∷ bs) j range e =
      elim (get_elem?-append_cases (events_at b) (events_of events_at bs) j range e) [
        | inl (i, at) ↦ u32 b i range at
        | inr (i, at) ↦ events_of_inv bs i range at
      ]

  -- A round that has something to store.
  stored_Recorded :
      (ethereum : Ethereum) (s t u : r.State) (cursor : ℕ) (ranges : List DataCommitmentRange)
      → IsView ethereum
      → cursor < ethereum.current_block
      → ((b : ℕ) → deployment.cursor_start_block ≤ b → b < cursor → Has s b)
      → store_events ethereum.get_logs cursor ethereum.current_block ≡ some ranges
      → add_ranges r connects hex_encode ethereum.chain_id deployment.contract_address ranges s
        ≡ some t
      → r.set t key ethereum.current_block ≡ u
      → Recorded u
  unfolding store_events
  stored_Recorded ethereum s t u cursor ranges view below before found added set =
      let current = ethereum.current_block in
      let address = deployment.contract_address in
      let (stored, ran, all) =
        store_events-Stored events_at ethereum.get_logs view.inclusive cursor current view.small
          below in
      let same : stored ≡ ranges = some_inj (sym ran ∙ found) in
      let added' =
        subst (λ c. add_ranges r connects hex_encode c address ranges s ≡ some t) view.same_chain
          added in
      let (kept, new, _) =
        add_ranges-mem hex_encode r laws connects chain_id address ranges s t
          (λ i range at.
            let (a, b, j, at') =
              store_loop_inv ethereum.get_logs (suc current) cursor current ranges found i range
                at in
            events_of_inv (range_from a (b + 1 - a)) j range
              (ap (λ xs. get_elem? xs j) (sym (view.inclusive a b)) ∙ at'))
          added' in
      λ c got b lo hi i range at.
        let cursor_eq : current ≡ c =
          some_inj (sym (laws.get_self t key current) ∙ ap (λ v. r.get v key) set ∙ got) in
        let unchanged =
          ap (recorded hex_encode r laws connects chain_id address) (sym set)
          ∙ laws.zrangebyscore-set t key (ranges_key chain_id (hex_encode address)) current 0
              4294967295
              (key_ne deployment.contract_chain_id chain_id
                (address_text r connects hex_encode address) (hex_encode address)) in
        ap (mem (member hex_encode range)) unchanged ∙ elim (dec_le cursor b) [
          | yes late ↦
              let (front, back, split) = all b late (omega (arith, cursor_eq)) in
              let (j, at') = middle front (events_at b) back i range at in
              new j range (ap (λ xs. get_elem? xs j) (sym same ∙ split) ∙ at')
          | no early ↦ kept (member hex_encode range) (before b lo (omega arith) i range at)
        ]

  before_cursor :
      (s : r.State) (stored : Option ℕ)
      → r.get s key ≡ stored
      → Recorded s
      → (b : ℕ) → deployment.cursor_start_block ≤ b
      → b
        < (elim stored as (λ o. ℕ) [ some cursor ↦ cursor | none ↦ deployment.cursor_start_block ])
      → Has s b
  before_cursor s none read inv b lo hi = absurd (omega arith)
  before_cursor s (some cursor) read inv b lo hi = inv cursor read b lo (omega arith)

  round_Recorded :
      (ethereum : Ethereum) (s u : r.State) (cursor : ℕ) (more : Bool)
      → IsView ethereum
      → ltb cursor ethereum.current_block ≡ more
      → ((b : ℕ) → deployment.cursor_start_block ≤ b → b < cursor → Has s b)
      → Recorded s
      → (elim more as (λ m. Option r.State) [
        | false ↦ some s
        | true ↦ store_events ethereum.get_logs cursor ethereum.current_block >>= λ ranges.
            add_ranges r connects hex_encode ethereum.chain_id deployment.contract_address ranges s
            >>= λ t.
                set_contract_cursor r connects deployment.contract_chain_id
                  (address_text r connects hex_encode deployment.contract_address)
                  ethereum.current_block
                  t
      ])
        ≡ some u
      → Recorded u
  unfolding set_contract_cursor
  round_Recorded ethereum s u cursor false view more before inv e = subst Recorded (some_inj e) inv
  round_Recorded ethereum s u cursor true view more before inv e =
      let (ranges, found, e1) =
        bind_inv (store_events ethereum.get_logs cursor ethereum.current_block) _ e in
      let (t, added, e2) =
        bind_inv
          (add_ranges r connects hex_encode ethereum.chain_id deployment.contract_address ranges s)
          _ e1 in
      let (_, _, e3) = bind_inv (get_connection connects) _ e2 in
      stored_Recorded ethereum s t u cursor ranges view (ltb→lt cursor ethereum.current_block more)
        before found added (some_inj e3)

  store_deployment-Recorded :
      (ethereum : Ethereum) (s u : r.State)
      → IsView ethereum
      → store_deployment r connects hex_encode deployment ethereum s ≡ some u
      → Recorded s
      → Recorded u
  unfolding store_deployment get_contract_cursor
  store_deployment-Recorded ethereum s u view e inv =
      let (_, e1) = assert_inv ethereum.has_url _ e in
      let (stored, read, e2) =
        bind_inv
          (get_contract_cursor r connects deployment.contract_chain_id
            (address_text r connects hex_encode deployment.contract_address) s)
          _ e1 in
      let (_, _, read') = bind_inv (get_connection connects) _ read in
      let cursor = elim stored as (λ o. ℕ) [
        | some cursor ↦ cursor
        | none ↦ deployment.cursor_start_block
      ] in
      round_Recorded ethereum s u cursor (ltb cursor ethereum.current_block) view refl
        (before_cursor s stored (some_inj read') inv) inv e2

  -- Views of the same chain.
  abbrev pub AllViews : List Ethereum → Type 0
  AllViews [] = Unit {0}
  AllViews (ethereum ∷ later) = IsView ethereum × AllViews later

  -- No event is lost between the rounds of a deployment: if Redis has the events of all blocks from the
  -- start block to the stored cursor (there may be no cursor yet), it does so after any number of
  -- rounds that end without a panic, whatever block is the current one in each, where every query
  -- answers with the events of all its blocks and the block numbers do not wrap.
  pub store_rounds-Recorded :
      (views : List Ethereum) (s t : r.State)
      → AllViews views
      → store_rounds r connects hex_encode deployment views s ≡ some t
      → Recorded s
      → Recorded t
  unfolding store_rounds
  store_rounds-Recorded [] s t views e inv = subst Recorded (some_inj e) inv
  store_rounds-Recorded (ethereum ∷ later) s u views e inv =
      let (t, e1, e2) =
        bind_inv (store_deployment r connects hex_encode deployment ethereum s) _ e in
      store_rounds-Recorded later t u views.1 e2
        (store_deployment-Recorded ethereum s t views.0 e1 inv)
