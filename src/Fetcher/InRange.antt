-- ===== src/Fetcher/InRange.antt =====
-- `find_justifications_in_range` of circuits/input/mod.rs: the blocks of a range that Redis has a
-- justification for, and the epoch end blocks. The connection to the node is there.
pub mod Sort
pub mod Found
use kno_vectorx.Common.{
  ℕ, zero, suc, ◌+◌, ◌-◌, ◌%◌, ◌^◌, Bool, true, false, Option, none, some, List, [], ◌∷◌, ◌++◌,
  Bytes, ltb, leb, ◌==◌, if◌then◌else◌, ◌>>=◌,
}
use kno_vectorx.Fetcher.Rpc.{Rpc}
use kno_vectorx.Fetcher.Search.{last_justified_block}
use kno_vectorx.Fetcher.Justifications.{previous}
use kno_vectorx.Redis.{Server, get_blocks_in_range}

-- `sort` of a vector, as insertion: equal numbers are not told apart.
unfoldable pub insert : ℕ → List ℕ → List ℕ
insert x [] = x ∷ []
insert x (y ∷ ys) = let rest = insert x ys in if leb x y then x ∷ y ∷ ys else y ∷ rest

unfoldable pub sort : List ℕ → List ℕ
unfolding insert
sort [] = []
sort (x ∷ xs) = insert x (sort xs)

module _ (rpc : Rpc) where
  -- `while curr_block < end_block`, with fuel.
  unfoldable pub era_loop : (fuel curr_block curr_era end_block : ℕ) → Option (List ℕ)
  era_loop zero curr_block curr_era end_block = none
  era_loop (suc fuel) curr_block curr_era end_block = elim (ltb curr_block end_block) [
    | false ↦ some []
    | true ↦ do
      epoch_end_block ← last_justified_block rpc curr_era
      elim (epoch_end_block == 0) [
        | true ↦ some []
        | false ↦ elim (leb epoch_end_block end_block) [
          | false ↦ some []
          | true ↦ do
            rest ← era_loop fuel epoch_end_block ((curr_era + 1) % 2 ^ 64) end_block
            some (epoch_end_block ∷ rest)
        ]
      ]
  ]

  -- A round for each block is enough.
  unfoldable pub find_justifications_in_range :
      (r : Server) (connects : ℕ → Bool) (avail_chain_id : Bytes)
      → r.State
      → (start_block end_block : ℕ) → Option (List ℕ)
  unfolding era_loop sort
  find_justifications_in_range r connects avail_chain_id s start_block end_block = do
    redis_blocks ← get_blocks_in_range r connects avail_chain_id start_block end_block s
    let start_era = rpc.get_authority_set_id (previous start_block)
    epoch_end_blocks ← era_loop (end_block + 2) start_block start_era end_block
    some (sort (redis_blocks ++ epoch_end_blocks))
