-- ===== src/Fetcher/Headers.antt =====
-- `HeaderRangeFetcherHint` of circuits/builder/subchain_verification.rs: the encoded headers of a
-- batch, in buffers of a fixed length, filled up with empty headers.
use kno_vectorx.Common.{
  ℕ, zero, suc, ◌+◌, ◌-◌, ◌%◌, ◌≤◌, ◌<◌, ◌≡◌, refl, sym, ap, subst, ◌∙◌, Option, some, List, [],
  ◌∷◌, ◌++◌, map, Bytes, length, replicate, min, leb, arith, if◌then◌else◌, assert, bind_inv,
  assert_inv, leb→le, some_inj, length-append, length-replicate, length-map, length-range_from,
  range_from, range_from-zero, get_elem?, get_elem?-append_left, get_elem?-append_right,
  get_elem?-replicate, get_elem?-map_range, Bool-cases, inl, inr, ◌>>=◌, ◌>>◌,
}
use kno_vectorx.Plonky2x.{u32_mod}
use kno_vectorx.Vars.{EncodedHeader}
use kno_vectorx.Fetcher.Rpc.{Rpc, Header}
use kno_vectorx.Fetcher.Range.{get_block_headers_range, get_block_headers_range-map}

module _ (header_length : ℕ) where
  -- One header; a longer one than the buffer panics.
  unfoldable pub header_variable : Bytes → Option EncodedHeader
  header_variable header_bytes = do
    let header_size = length header_bytes
    assert (leb header_size header_length)
    some (record {
      header_bytes = header_bytes ++ replicate (header_length - header_size) 0;
      header_size = header_size % u32_mod;
    })

  unfoldable pub header_variables : List Header → Option (List EncodedHeader)
  unfolding header_variable
  header_variables [] = some []
  header_variables (header ∷ headers) = do
    first ← header_variable header.encoded
    rest ← header_variables headers
    some (first ∷ rest)

  abbrev pub empty_header : EncodedHeader
  empty_header = record { header_bytes = replicate header_length 0; header_size = 0 }

  unfoldable pub hint_headers :
      Rpc → (num_headers start_block last_block max_block : ℕ) → Option (List EncodedHeader)
  unfolding header_variables
  hint_headers rpc num_headers start_block last_block max_block = do
    let last = min last_block max_block
    headers ← if leb start_block last then get_block_headers_range rpc start_block last else some []
    variables ← header_variables headers
    some (variables ++ replicate (num_headers - length headers) empty_header)

  variables_inv :
      (headers : List Header) (vs : List EncodedHeader)
      → header_variables headers ≡ some vs
      → length vs ≡ length headers
  unfolding header_variables
  variables_inv [] vs e = ap length (sym (some_inj e))
  variables_inv (h ∷ headers) vs e =
      let (v, _, e1) = bind_inv (header_variable h.encoded) _ e in
      let (rest, e2, e3) = bind_inv (header_variables headers) _ e1 in
      ap length (sym (some_inj e3)) ∙ ap suc (variables_inv headers rest e2)

  -- The bytes in a buffer of the circuit's length, and how many they are.
  abbrev pub buffered : Bytes → EncodedHeader
  buffered encoded = record {
    header_bytes = encoded ++ replicate (header_length - length encoded) 0;
    header_size = length encoded;
  }

  variable_inv :
      (encoded : Bytes) (v : EncodedHeader)
      → header_length < u32_mod
      → header_variable encoded ≡ some v
      → (length encoded ≤ header_length) × (v ≡ buffered encoded)
  unfolding header_variable
  variable_inv encoded v small e =
      let (t, e1) = assert_inv (leb (length encoded) header_length) _ e in
      let fits : length encoded ≤ header_length = leb→le (length encoded) header_length t in
      let size : length encoded % u32_mod ≡ length encoded = omega arith in
      (
        fits,
        sym (some_inj e1)
            ∙ ap
                (λ n. record {
                  header_bytes = encoded ++ replicate (header_length - length encoded) 0;
                  header_size = n;
                })
                size,
      )

  variables_at :
      (headers : List Header) (vs : List EncodedHeader) (i : ℕ) (h : Header)
      → header_length < u32_mod
      → header_variables headers ≡ some vs
      → get_elem? headers i ≡ some h
      → (length h.encoded ≤ header_length) × (get_elem? vs i ≡ some (buffered h.encoded))
  unfolding header_variables
  variables_at [] vs i h small e at = cc
  variables_at (x ∷ headers) vs zero h small e at =
      let (v, e0, e1) = bind_inv (header_variable x.encoded) _ e in
      let (rest, e2, e3) = bind_inv (header_variables headers) _ e1 in
      let (fits, same) = variable_inv x.encoded v small e0 in
      let here : x ≡ h = some_inj at in
      (
        subst (λ (y : Header). length y.encoded ≤ header_length) here fits,
        ap (λ ys. get_elem? ys 0) (sym (some_inj e3))
            ∙ ap some (same ∙ ap (λ (y : Header). buffered y.encoded) here),
      )
  variables_at (x ∷ headers) vs (suc i) h small e at =
      let (v, e0, e1) = bind_inv (header_variable x.encoded) _ e in
      let (rest, e2, e3) = bind_inv (header_variables headers) _ e1 in
      let (fits, same) = variables_at headers rest i h small e2 at in
      (fits, ap (λ ys. get_elem? ys (suc i)) (sym (some_inj e3)) ∙ same)

  module _ (rpc : Rpc) (num_headers start_block last_block max_block : ℕ)
      (short : header_length < u32_mod) (small : min last_block max_block + 200 < u32_mod) where
    abbrev last : ℕ
    last = min last_block max_block

    abbrev fetched : List Header
    fetched = map rpc.get_header (range_from start_block (last + 1 - start_block))

    fetched_eq :
        (if leb start_block last then get_block_headers_range rpc start_block last else some [])
        ≡ some fetched
    fetched_eq = elim (Bool-cases (leb start_block last)) [
      | inl t ↦ rw t (get_block_headers_range-map rpc start_block last small)
      | inr f ↦
          let nothing : last + 1 - start_block ≡ 0 = ground arith in
          rw (f, nothing, range_from-zero start_block) refl
    ]

    -- The answer of the hint has exactly `num_headers` entries: entry `i` holds the encoding of the
    -- header of block `start_block + i`, which fits, filled up with zeros, and its length, up to the
    -- last block or the maximal block, whichever is less; the other entries, all of them for a batch
    -- that starts after that block, are zeros of length 0. The batch has room for the blocks, the
    -- buffer is shorter than 2 ^ 32 bytes, and block numbers do not wrap.
    pub hint_headers-filled :
        (vs : List EncodedHeader)
        → last + 1 - start_block ≤ num_headers
        → hint_headers rpc num_headers start_block last_block max_block ≡ some vs
        → (length vs ≡ num_headers)
          × ((i : ℕ)
              → start_block + i ≤ last
              → (length (rpc.get_header (start_block + i)).encoded ≤ header_length)
                × (get_elem? vs i ≡ some (buffered (rpc.get_header (start_block + i)).encoded)))
          × ((i : ℕ)
              → last < start_block + i
              → i < num_headers
              → get_elem? vs i
                ≡ some (record { header_bytes = replicate header_length 0; header_size = 0 }))
    unfolding hint_headers
    hint_headers-filled vs room e =
        let (headers, found, e1) =
          bind_inv
            (if leb start_block last then get_block_headers_range rpc start_block last else some [])
            _ e in
        let (variables, made, e2) = bind_inv (header_variables headers) _ e1 in
        let headers_eq : fetched ≡ headers = some_inj (sym fetched_eq ∙ found) in
        let count = last + 1 - start_block in
        let headers_length : length headers ≡ count =
          ap length (sym headers_eq)
          ∙ length-map (range_from start_block count) rpc.get_header
          ∙ length-range_from start_block count in
        let variables_length : length variables ≡ count =
          variables_inv headers variables made ∙ headers_length in
        let padding = replicate (num_headers - length headers) empty_header in
        let vs_eq : variables ++ padding ≡ vs = some_inj e2 in
        (
          ap length (sym vs_eq)
              ∙ length-append variables padding
              ∙ omega (
                arith,
                variables_length,
                headers_length,
                length-replicate (num_headers - length headers) empty_header,
              ),
          λ i h.
              let (fits, there) =
                variables_at headers variables i (rpc.get_header (start_block + i)) short made (
                  ap (λ ys. get_elem? ys i) (sym headers_eq)
                  ∙ get_elem?-map_range rpc.get_header count start_block i (omega arith)) in
              (
                fits,
                ap (λ ys. get_elem? ys i) (sym vs_eq)
                    ∙ get_elem?-append_left i variables padding (omega arith)
                    ∙ there,
              ),
          λ i h inside.
              ap (λ ys. get_elem? ys i) (sym vs_eq)
              ∙ get_elem?-append_right i variables padding (omega arith)
              ∙ get_elem?-replicate (i - length variables) (num_headers - length headers)
                  empty_header (omega arith),
        )
