-- ===== src/Tests/EventRounds.antt =====
-- Two rounds of the event store, of which the second one has nothing to do.
use kno_vectorx.Common.{
  ℕ, zero, suc, ◌+◌, ◌-◌, ◌^◌, ◌<◌, ◌≡◌, refl, true, some, List, [], ◌∷◌, ◌++◌, Bytes, replicate,
  codes, get_elem?, decimal, some_inj, range_from, arith, subst, bytes_eq,
}
use kno_vectorx.Events.{DataCommitmentRange, store_events}
use kno_vectorx.Events.Coverage.{events_of}
use kno_vectorx.Redis.{mem, cursor_key, ranges_key, get_contract_cursor, set_contract_cursor}
use kno_vectorx.EventRounds.{Deployment, Ethereum, store_rounds}
use kno_vectorx.EventRounds.Recorded.{member, recorded}
use kno_vectorx.EventRounds.Invariant.{IsView, store_rounds-Recorded}
use kno_vectorx.Tests.Redis.{Memory, memory, memory-IsRedis, connects, empty}

-- One event at every block.
abbrev event_at : ℕ → List DataCommitmentRange
event_at n = record { start = n; end = 40; data_commitment = replicate 32 5 } ∷ []

event_u32 :
    (b i : ℕ) (range : DataCommitmentRange)
    → get_elem? (event_at b) i ≡ some range
    → range.end < 2 ^ 32
event_u32 b zero range e =
    subst (λ (x : DataCommitmentRange). x.end < 2 ^ 32) (some_inj e) (omega arith)
event_u32 b (suc i) range e = cc

abbrev hex : Bytes → Bytes
hex x = x

abbrev deployment : Deployment
deployment = record {
  contract_chain_id = 1;
  contract_address = replicate 20 7;
  cursor_start_block = 3;
}

abbrev view_at : ℕ → Ethereum
view_at n = record {
  has_url = true;
  chain_id = 1;
  current_block = n;
  get_logs = λ a b. events_of event_at (range_from a (b + 1 - a));
}

view_at_4 : IsView hex memory memory-IsRedis connects deployment 1 event_at event_u32 (view_at 4)
view_at_4 = record { same_chain = refl; inclusive = λ a b. refl; small = omega arith }

abbrev put_event : ℕ → Memory → Memory
put_event n s =
    memory.zadd s (ranges_key 1 (replicate 20 7))
      (member hex (record { start = n; end = 40; data_commitment = replicate 32 5 })) 40

abbrev stored : Memory
stored =
    memory.set (put_event 4 (put_event 3 empty)) (cursor_key 1 (codes "0x" ++ replicate 20 7)) 4

two_rounds :
    store_rounds memory connects hex deployment (view_at 4 ∷ view_at 4 ∷ []) empty ≡ some stored
unfolding store_rounds get_contract_cursor store_events range_from set_contract_cursor bytes_eq
    decimal
two_rounds = refl

store_rounds-Recorded_example :
    mem
      (member hex (record { start = 3; end = 40; data_commitment = replicate 32 5 }))
      (recorded hex memory memory-IsRedis connects 1 (replicate 20 7) stored)
    ≡ true
unfolding cursor_key decimal bytes_eq
store_rounds-Recorded_example =
    store_rounds-Recorded hex memory memory-IsRedis connects deployment 1 event_at event_u32
      (view_at 4 ∷ view_at 4 ∷ []) empty stored (view_at_4, (view_at_4, tt)) two_rounds
      (λ cursor got. cc) 4 refl 3 (omega arith) (omega arith) 0
      (record { start = 3; end = 40; data_commitment = replicate 32 5 }) refl
