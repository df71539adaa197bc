-- ===== src/Fetcher/Search.antt =====
-- `last_justified_block` of circuits/input/mod.rs: a binary search for the block at which an
-- authority set hands over. Block numbers are `u32`, authority set ids `u64`; both wrap.
pub mod Handover
use kno_vectorx.Common.{
  ℕ, zero, suc, ◌+◌, ◌-◌, ◌/◌, ◌%◌, ◌^◌, ◌≤◌, ◌<◌, ◌≡◌, refl, Option, none, some, Bool, true, false,
  leb, ltb, ◌==◌, if◌then◌else◌, arith,
}
use kno_vectorx.Fetcher.Rpc.{Rpc}

abbrev pub u64_mod : ℕ
u64_mod = 2 ^ 64

abbrev pub u32_mod : ℕ
u32_mod = 2 ^ 32

-- One round of the search: a result, or the next bounds.
pub data Round : Type 0 where
  found : ℕ → Round
  bounds : (low high : ℕ) → Round

module _ (ids : ℕ → ℕ) (target_authority_set_id : ℕ) where
  -- The body of the loop, at the middle block.
  unfoldable pub probe : (low high mid : ℕ) → Round
  probe low high mid =
      if ids mid == (target_authority_set_id + 1) % u64_mod
      then if mid == 0
        then found mid
        else if ids (mid - 1) == target_authority_set_id
        then found mid
        else bounds low (mid - 1)
      else if ltb (ids mid) ((target_authority_set_id + 1) % u64_mod)
      then bounds ((mid + 1) % u32_mod) high
      else bounds low ((mid + u32_mod - 1) % u32_mod)

  -- `while low <= high`, with fuel; `none` means that the fuel ran out.
  unfoldable pub search_loop : (fuel low high : ℕ) → Option ℕ
  unfolding probe
  search_loop zero low high = none
  search_loop (suc fuel) low high = elim (leb low high) [
    | false ↦ some 0
    | true ↦ elim (probe low high ((low + high) % u32_mod / 2)) [
      | found n ↦ some n
      | bounds low' high' ↦ search_loop fuel low' high'
    ]
  ]

-- Enough fuel for every search: the bounds close in by one each round.
unfoldable pub last_justified_block : Rpc → ℕ → Option ℕ
unfolding search_loop
last_justified_block rpc target_authority_set_id =
    search_loop rpc.get_authority_set_id target_authority_set_id (suc (suc rpc.get_head.number)) 0
      rpc.get_head.number

module _ (ids : ℕ → ℕ) (t : ℕ) (mono : (a b : ℕ) → a ≤ b → ids a ≤ ids b) (start : ids 0 ≤ t)
    (small : t + 1 < u64_mod) where
  -- The hand-over block stays within the bounds.
  search_finds :
      (n fuel low high : ℕ)
      → ids n ≡ t + 1
      → ids (n - 1) ≡ t
      → low ≤ n
      → n ≤ high
      → high < 2 ^ 31
      → high + 1 - low < fuel
      → search_loop ids t fuel low high ≡ some n
  unfolding search_loop
  search_finds n zero low high at before l h bound enough = absurd (omega arith)
  search_finds n (suc fuel) low high at before l h bound enough =
      let mid = (low + high) % u32_mod / 2 in
      ground (
        arith,
        mono mid n,
        mono n mid,
        mono mid (n - 1),
        mono n (mid - 1),
        search_finds n fuel low (mid - 1) at before,
        search_finds n fuel (mid + 1) high at before,
      )
