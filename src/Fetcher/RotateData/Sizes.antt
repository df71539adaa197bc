-- ===== src/Fetcher/RotateData/Sizes.antt =====
-- The sizes of what `RotateHint` of circuits/rotate.rs answers.
use kno_vectorx.Common.{
  ℕ, ◌+◌, ◌-◌, ◌%◌, ◌^◌, ◌≤◌, ◌<◌, ◌≡◌, sym, ap, subst, ◌∙◌, some, List, [], ◌∷◌, ◌++◌, Bytes,
  length, get_or, length-append, length-replicate, replicate, leb, leb→le, ◌==◌, eq_of_==, arith,
  bind_inv, assert_inv, some_inj,
}
use kno_vectorx.Vars.{HeaderRotateData, RotateVariable}
use kno_vectorx.Fetcher.Rpc.{Rpc, Libraries}
use kno_vectorx.Fetcher.Search.{last_justified_block}
use kno_vectorx.Fetcher.Authorities.{get_authorities}
use kno_vectorx.Fetcher.Justifications.{previous, compressed_keys}
use kno_vectorx.Fetcher.RotateData.{find_log, get_header_rotate, hint_rotate}
use kno_vectorx.Fetcher.RotateData.Layout.{Keys}
use kno_vectorx.Fetcher.RotateData.EpochHeader.{Keys-get_or}

compressed_keys_inv : (ks out : List Bytes) → compressed_keys ks ≡ some out → (out ≡ ks) × Keys ks
unfolding compressed_keys
compressed_keys_inv [] out e = (sym (some_inj e), tt)
compressed_keys_inv (k ∷ ks) out e =
    let (t, e1) = assert_inv (length k == 32) _ e in
    let (rest, e2, e3) = bind_inv (compressed_keys ks) _ e1 in
    let (same, wide) = compressed_keys_inv ks rest e2 in
    (sym (some_inj e3) ∙ ap (◌∷◌ k) same, (eq_of_== (length k) 32 t, wide))

module _ (libs : Libraries) (rpc : Rpc) (header_length max : ℕ) where
  -- What an answer of `get_header_rotate` comes from.
  get_header_rotate_inv :
      (block : ℕ) (d : HeaderRotateData)
      → get_header_rotate libs rpc header_length max block ≡ some d
      → (keys : List Bytes) × Keys keys
        × (d.num_authorities ≡ length keys)
        × (d.padded_pubkeys ≡ keys ++ replicate (max - length keys) libs.dummy_public_key)
        × (d.header_size ≤ header_length)
        × (length d.header_bytes ≡ header_length)
  unfolding get_header_rotate
  get_header_rotate_inv block d e =
      let encoded = (rpc.get_header block).encoded in
      let padding = replicate {A = ℕ} (header_length - length encoded) 0 in
      let (_, e1) =
        assert_inv
          ((rpc.get_authority_set_id block + 2 ^ 64 - 1) % 2 ^ 64
            == rpc.get_authority_set_id (previous block))
          _ e in
      let (t, e2) = assert_inv (leb (length encoded) header_length) _ e1 in
      let (keys, _, e3) = bind_inv (get_authorities rpc block) _ e2 in
      let (_, _, e4) = bind_inv (find_log _ keys _ (rpc.get_header block).digest_logs) _ e3 in
      let (out, e5, e6) = bind_inv (compressed_keys keys) _ e4 in
      let (same, wide) = compressed_keys_inv keys out e5 in
      let made = some_inj e6 in
      let fits = leb→le (length encoded) header_length t in
      let full : length (encoded ++ padding) ≡ header_length =
        length-append encoded padding
        ∙ omega (arith, length-replicate {A = ℕ} (header_length - length encoded) 0) in
      (
        keys,
        wide,
        ap (λ (h : HeaderRotateData). h.num_authorities) (sym made),
        ap (λ (h : HeaderRotateData). h.padded_pubkeys) (sym made)
            ∙ ap (λ ks. ks ++ replicate (max - length keys) libs.dummy_public_key) same,
        subst (λ (h : HeaderRotateData). h.header_size ≤ header_length) made fits,
        ap (λ (h : HeaderRotateData). length h.header_bytes) (sym made) ∙ full,
      )

  -- The hint's answer fits the circuit's types: whatever the node says, an answer has a header buffer of
  -- exactly the header length, with a header that is not longer, and exactly as many keys as there are
  -- entries, of which the first ones, as many as the authorities, have 32 bytes.
  pub hint_rotate-sizes :
      (set_id : ℕ) (r : RotateVariable)
      → hint_rotate libs rpc header_length max set_id ≡ some r
      → (length r.target_header.header_bytes ≡ header_length)
        × (r.target_header.header_size ≤ header_length)
        × (length r.new_pubkeys ≡ max)
        × (r.target_header_num_authorities ≤ max)
        × ((i : ℕ) → i < r.target_header_num_authorities → length (get_or r.new_pubkeys i []) ≡ 32)
  unfolding hint_rotate
  hint_rotate-sizes set_id r e =
      let (block, _, e1) = bind_inv (last_justified_block rpc set_id) _ e in
      let (d, found, e2) = bind_inv (get_header_rotate libs rpc header_length max block) _ e1 in
      let (t, e3) = assert_inv (leb d.num_authorities max) _ e2 in
      let (keys, wide, count, padded, fits, full) = get_header_rotate_inv block d found in
      let made = some_inj e3 in
      let few = leb→le d.num_authorities max t in
      let number = ap (λ (r : RotateVariable). r.target_header_num_authorities) made in
      let pubkeys = ap (λ (r : RotateVariable). r.new_pubkeys) made in
      let many : length d.padded_pubkeys ≡ max =
        ap length padded
        ∙ length-append keys (replicate (max - length keys) libs.dummy_public_key)
        ∙ omega (arith, count, few, length-replicate (max - length keys) libs.dummy_public_key) in
      (
        ap (λ (r : RotateVariable). length r.target_header.header_bytes) (sym made) ∙ full,
        subst (λ (r : RotateVariable). r.target_header.header_size ≤ header_length) made
            (omega (arith, fits)),
        ap length (sym pubkeys) ∙ many,
        omega (arith, number, few),
        λ i h.
            ap (λ ks. length (get_or ks i [])) (sym pubkeys ∙ padded)
            ∙ Keys-get_or keys (replicate (max - length keys) libs.dummy_public_key) i wide
                (omega (arith, number, count)),
      )
