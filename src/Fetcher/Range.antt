-- ===== src/Fetcher/Range.antt =====
-- `get_block_headers_range` of circuits/input/mod.rs: the headers of a range of blocks, fetched in
-- batches.
use kno_vectorx.Common.{
  ℕ, zero, suc, ◌+◌, ◌-◌, ◌%◌, ◌≤◌, ◌<◌, ◌≡◌, sym, ap, ◌∙◌, Option, none, some, List, [], ◌++◌, map,
  true, false, leb, min, arith, range_from, range_from-append, range_from-zero, leb→le, ◌⊎◌,
  Bool-cases, inl, inr, ◌>>=◌,
}
use mathlib.Core.List.{map-append, append-nil}
use native.Mathlib.Decide.{dec_le}
use kno_vectorx.Plonky2x.{u32_mod}
use kno_vectorx.Fetcher.Rpc.{Rpc, Header}

abbrev pub max_concurrent_ws_requests : ℕ
max_concurrent_ws_requests = 200

module _ (rpc : Rpc) where
  -- `while curr_block <= end_block_number`, with fuel.
  unfoldable pub headers_loop : (fuel curr_block end_block_number : ℕ) → Option (List Header)
  headers_loop zero curr_block end_block_number = none
  headers_loop (suc fuel) curr_block end_block_number = elim (leb curr_block end_block_number) [
    | false ↦ some []
    | true ↦ do
      let end_block =
          min (((curr_block + max_concurrent_ws_requests) % u32_mod + u32_mod - 1) % u32_mod)
            end_block_number
      let headers_batch =
          map rpc.get_header (range_from curr_block ((end_block + 1) % u32_mod - curr_block))
      rest ←
          headers_loop fuel ((curr_block + max_concurrent_ws_requests) % u32_mod) end_block_number
      some (headers_batch ++ rest)
  ]

  -- A round for each block would be enough.
  unfoldable pub get_block_headers_range : (start_block end_block : ℕ) → Option (List Header)
  unfolding headers_loop
  get_block_headers_range start_block end_block = headers_loop (end_block + 3) start_block end_block

  -- A batch and the batches after it.
  join_batches :
      (r a b c : ℕ)
      → a + b ≡ c
      → (a ≡ 200) ⊎ (b ≡ 0)
      → map rpc.get_header (range_from r a) ++ map rpc.get_header (range_from (r + 200) b)
        ≡ map rpc.get_header (range_from r c)
  join_batches r a b c e (inl full) =
      sym (map-append rpc.get_header (range_from r a) (range_from (r + 200) b))
      ∙ ap (map rpc.get_header) (
          ap (λ n. range_from r a ++ range_from (r + n) b) (sym full)
          ∙ sym (range_from-append r a b)
          ∙ ap (range_from r) e)
  join_batches r a b c e (inr last) =
      let same : a ≡ c = omega arith in
      ap (λ n. map rpc.get_header (range_from r a) ++ map rpc.get_header (range_from (r + 200) n))
        last
      ∙ ap (λ xs. map rpc.get_header (range_from r a) ++ map rpc.get_header xs)
          (range_from-zero (r + 200))
      ∙ append-nil _
      ∙ ap (λ n. map rpc.get_header (range_from r n)) same

  full_or_last :
      (curr last : ℕ)
      → curr ≤ last
      → (min (curr + 199) last + 1 - curr ≡ 200) ⊎ (last + 1 - (curr + 200) ≡ 0)
  full_or_last curr last h = elim (dec_le (curr + 199) last) [
    | yes p ↦ inl (omega arith)
    | no p ↦ inr (omega arith)
  ]

  headers_loop-map :
      (fuel curr last : ℕ)
      → last + 200 < u32_mod
      → suc (last + 1 - curr) < fuel
      → headers_loop fuel curr last ≡ some (map rpc.get_header (range_from curr (last + 1 - curr)))
  unfolding headers_loop
  headers_loop-map zero curr last small enough = absurd (omega arith)
  headers_loop-map (suc fuel) curr last small enough = elim (Bool-cases (leb curr last)) [
    | inl more ↦
        let le : curr ≤ last = leb→le curr last more in
        let next : (curr + 200) % u32_mod ≡ curr + 200 = omega arith in
        let stop : (curr + 200 + u32_mod - 1) % u32_mod ≡ curr + 199 = omega arith in
        let past : (min (curr + 199) last + 1) % u32_mod ≡ min (curr + 199) last + 1 =
          omega arith in
        rw (more, headers_loop)
          (rw (next, headers_loop-map fuel (curr + 200) last small (omega arith), stop, past)
            (ap some (join_batches curr _ _ _ (omega arith) (full_or_last curr last le))))
    | inr done ↦
        let none_left : last + 1 - curr ≡ 0 = ground arith in
        rw (done, headers_loop)
          (rw none_left (ap (λ xs. some (map rpc.get_header xs)) (sym (range_from-zero curr))))
  ]

  -- For block numbers that do not wrap, the fetcher returns the header of every block from the
  -- start to the end, both included, once and in order.
  pub get_block_headers_range-map :
      (start_block end_block : ℕ)
      → end_block + 200 < u32_mod
      → get_block_headers_range start_block end_block
        ≡ some (map rpc.get_header (range_from start_block (end_block + 1 - start_block)))
  unfolding get_block_headers_range
  get_block_headers_range-map start_block end_block small =
      headers_loop-map (end_block + 3) start_block end_block small (omega arith)
