-- ===== src/Tests/Ranges.antt =====
-- The blocks that are found in a range, with one block in Redis.
use kno_vectorx.Common.{ℕ, ◌≤◌, ◌≡◌, ◌⊎◌, refl, some, List, [], ◌∷◌, arith, bytes_eq, parse_decimal}
use kno_vectorx.Redis.{get_blocks_in_range, blocks_key, mem}
use kno_vectorx.Redis.Connection.{get_connection, attempts_loop}
use kno_vectorx.Fetcher.InRange.{find_justifications_in_range}
use kno_vectorx.Fetcher.InRange.Sort.{In, Sorted}
use kno_vectorx.Fetcher.InRange.Found.{EpochEndBlock, find_justifications_in_range-Exactly}
use kno_vectorx.Tests.Instances.{toy_rpc}
use kno_vectorx.Tests.Fetching.{toy_steps}
use kno_vectorx.Tests.Redis.{memory, connects, chain, with_8}

find_justifications_in_range-Exactly_example :
    (blocks : List ℕ) × (find_justifications_in_range toy_rpc memory connects chain with_8 5 20
      ≡ some blocks)
    × Sorted blocks
    × ((n : ℕ)
        → In n blocks
        → In n (7 ∷ [])
          ⊎ ((5 ≤ n) × (n ≤ 20) × EpochEndBlock toy_rpc toy_steps (omega arith) (omega arith) n))
    × ((n : ℕ)
        → In n (7 ∷ [])
          ⊎ ((5 ≤ n) × (n ≤ 20) × EpochEndBlock toy_rpc toy_steps (omega arith) (omega arith) n)
        → In n blocks)
unfolding get_blocks_in_range get_connection attempts_loop blocks_key mem bytes_eq parse_decimal
find_justifications_in_range-Exactly_example =
    find_justifications_in_range-Exactly toy_rpc toy_steps (omega arith) (omega arith) memory
      connects chain with_8 5 20 (7 ∷ []) (omega arith) (omega arith) (omega arith) refl
