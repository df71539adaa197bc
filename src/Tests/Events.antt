-- ===== src/Tests/Events.antt =====
-- The property of the event store, at three blocks.
use kno_vectorx.Common.{ℕ, ◌+◌, ◌-◌, ◌≤◌, ◌≡◌, refl, some, List, [], ◌∷◌, range_from, arith}
use kno_vectorx.Events.{DataCommitmentRange, store_events}
use kno_vectorx.Events.Coverage.{events_of, Stored, store_events-Stored}

-- One event at every block.
abbrev event_at : ℕ → List DataCommitmentRange
event_at n = record { start = n; end = n + 1; data_commitment = [] } ∷ []

abbrev node_logs : ℕ → ℕ → List DataCommitmentRange
node_logs from to = events_of event_at (range_from from (to + 1 - from))

store_events-Stored_example :
    (stored : List DataCommitmentRange) × (store_events node_logs 3 5 ≡ some stored)
    × ((b : ℕ) → 3 ≤ b → b ≤ 5 → Stored event_at b stored)
store_events-Stored_example =
    store_events-Stored event_at node_logs (λ a b. refl) 3 5 (omega arith) (omega arith)
