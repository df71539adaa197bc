-- ===== src/Fetcher/RotateData/Found.antt =====
-- What `get_header_rotate` of circuits/input/mod.rs finds in a header, and that the circuit of
-- rotate.rs accepts it.
use kno_vectorx.Common.{
  ℕ, suc, ◌+◌, ◌-◌, ◌*◌, ◌/◌, ◌≡◌, refl, sym, ap, ap₂, ◌∙◌, true, false, some, List, [], ◌∷◌, ◌++◌,
  Bytes, length, take, drop, slice, get_elem?, get_elem?-drop, drop-drop, drop-append_left,
  take_exact, length-append, bytes_eq, bytes_eq_refl, leb, arith,
}
use mathlib.Core.List.{append_assoc}
use kno_vectorx.Rotate.{expected_delay_bytes}
use kno_vectorx.Rotate.Validators.{encode_authorities}
use kno_vectorx.Fetcher.Rpc.{DigestItem, consensus, other}
use kno_vectorx.Fetcher.Justifications.{compressed_keys}
use kno_vectorx.Fetcher.RotateData.{
  expected_weight, grandpa_id, check_chunks, check_value, find_log,
}
use kno_vectorx.Fetcher.RotateData.Layout.{Keys, length-encode_authorities}

pub compressed_keys-Keys : (ks : List Bytes) → Keys ks → compressed_keys ks ≡ some ks
unfolding compressed_keys
compressed_keys-Keys [] h = refl
compressed_keys-Keys (k ∷ ks) h = rw (h.0, compressed_keys-Keys ks h.1) refl

-- The chunk of a key and its weight.
chunk_at :
    (bytes k rest : Bytes) (at : ℕ)
    → drop at bytes ≡ k ++ (expected_weight ++ rest)
    → length k ≡ 32
    → (take 32 (slice bytes at (at + 40)) ≡ k)
      × (drop 32 (slice bytes at (at + 40)) ≡ expected_weight)
      × (drop (at + 40) bytes ≡ rest)
chunk_at bytes k rest at e wide =
    let l : at + 40 - at ≡ 40 = omega arith in
    let both = k ++ expected_weight in
    let split : drop at bytes ≡ both ++ rest = e ∙ sym (append_assoc k expected_weight rest) in
    let width : length both ≡ 40 = length-append k expected_weight ∙ omega (arith, wide) in
    let chunk : slice bytes at (at + 40) ≡ both =
      ap₂ take l split ∙ take_exact 40 both rest width in
    (
      ap (take 32) chunk ∙ take_exact 32 k expected_weight wide,
      ap (drop 32) chunk ∙ ap (λ n. drop n both) (sym wide) ∙ drop-append_left k expected_weight,
      sym (drop-drop 40 at bytes)
          ∙ ap (drop 40) split
          ∙ ap (λ n. drop n (both ++ rest)) (sym width)
          ∙ drop-append_left both rest,
    )

module _ (keys : List Bytes) (bytes : Bytes) where
  chunks_found :
      (ks : List Bytes) (i : ℕ)
      → drop i keys ≡ ks
      → drop (i * 40) bytes ≡ encode_authorities ks
      → Keys ks
      → (check_chunks keys bytes (length ks) i ≡ some tt)
        × (drop ((i + length ks) * 40) bytes ≡ expected_delay_bytes)
  unfolding check_chunks
  chunks_found [] i from at wide = (refl, ap (λ n. drop n bytes) (omega arith) ∙ at)
  chunks_found (k ∷ ks) i from at wide =
      let (key, weight, rest) = chunk_at bytes k (encode_authorities ks) (i * 40) at wide.0 in
      let zero_more : i + 0 ≡ i = omega arith in
      let found : get_elem? keys i ≡ some k =
        ap (get_elem? keys) (sym zero_more)
        ∙ sym (get_elem?-drop 0 i keys)
        ∙ ap (λ xs. get_elem? xs 0) from in
      let next : i * 40 + 40 ≡ (i + 1) * 40 = omega arith in
      let past : (i + 1 + length ks) * 40 ≡ (i + suc (length ks)) * 40 = omega arith in
      let (others, delay) =
        chunks_found ks (i + 1) (sym (drop-drop 1 i keys) ∙ ap (drop 1) from)
          (ap (λ n. drop n bytes) (sym next) ∙ rest) wide.1 in
      (
        rw (found, key, weight, bytes_eq_refl k, bytes_eq_refl expected_weight) others,
        ap (λ n. drop n bytes) (sym past) ∙ delay,
      )

-- The value of a scheduled change is accepted for the authorities that it lists.
pub value_found :
    (size : Bytes) (keys : List Bytes)
    → Keys keys
    → check_value (length size) keys ((1 ∷ []) ++ (size ++ encode_authorities keys)) ≡ some tt
unfolding check_value bytes_eq
value_found size keys wide =
    let listed = encode_authorities keys in
    let value = (1 ∷ []) ++ (size ++ listed) in
    let len : length value ≡ 1 + (length size + length listed) =
      omega (arith, length-append size listed) in
    let room : leb (1 + length size) (length value) ≡ true = ground (arith, len) in
    let after : drop (1 + length size) value ≡ listed = drop_one size listed in
    let width = length-encode_authorities keys wide in
    let count : length listed / 40 ≡ length keys = omega (arith, width) in
    let none_before : length keys ≡ 0 + length keys = omega arith in
    let (checked, delay) = chunks_found keys listed keys 0 refl refl wide in
    let delay' : drop (1 + length size + length keys * 40) value ≡ expected_delay_bytes =
      sym (drop-drop (length keys * 40) (1 + length size) value)
      ∙ ap (drop (length keys * 40)) after
      ∙ ap (λ n. drop (n * 40) listed) none_before
      ∙ delay in
    rw (room, after, count, checked, delay') refl
  where
    drop_one : (xs ys : Bytes) → drop (1 + length xs) ((1 ∷ []) ++ (xs ++ ys)) ≡ ys
    drop_one xs ys =
        let s : 1 + length xs ≡ suc (length xs) = omega arith in
        ap (λ n. drop n (1 ∷ (xs ++ ys))) s ∙ drop-append_left xs ys

-- The encodings of logs, one after another, and logs of which none is one of GRANDPA.
abbrev pub encoded_logs : List DigestItem → Bytes
encoded_logs [] = []
encoded_logs (consensus consensus_id value encoded_log ∷ logs) = encoded_log ++ encoded_logs logs
encoded_logs (other encoded_log ∷ logs) = encoded_log ++ encoded_logs logs

abbrev pub NoGrandpa : List DigestItem → Type 0
NoGrandpa [] = Unit {0}
NoGrandpa (consensus consensus_id value encoded_log ∷ logs) =
    (bytes_eq consensus_id grandpa_id ≡ false) × NoGrandpa logs
NoGrandpa (other encoded_log ∷ logs) = NoGrandpa logs

pub log_found :
    (len : ℕ) (keys : List Bytes) (position : ℕ) (before after : List DigestItem)
    (value log : Bytes)
    → NoGrandpa before
    → check_value len keys value ≡ some tt
    → find_log len keys position (before ++ consensus grandpa_id value log ∷ after)
      ≡ some (position + length (encoded_logs before))
unfolding find_log bytes_eq
log_found len keys position [] after value log clear e = rw e (ap some (omega arith))
log_found len keys position (consensus id v enc ∷ before) after value log clear e =
    rw (clear.0, find_log)
      (log_found len keys (position + length enc) before after value log clear.1 e
        ∙ ap some (omega (arith, length-append enc (encoded_logs before))))
log_found len keys position (other enc ∷ before) after value log clear e =
    log_found len keys (position + length enc) before after value log clear e
    ∙ ap some (omega (arith, length-append enc (encoded_logs before)))
