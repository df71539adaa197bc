-- ===== src/Rotate/Prefix.antt =====
-- The prefix of an epoch end header: what the checks of rotate.rs show of its parts.
use kno_vectorx.Common.{
  ℕ, ◌+◌, ◌-◌, ◌%◌, ◌^◌, ◌≤◌, ◌<◌, ◌≡◌, sym, ap, ap₂, subst, ◌∙◌, some, [], ◌∷◌, Bytes, length,
  take, drop, slice, get_elem?, ◌==◌, eq_of_==, eq_of_bytes_eq, arith, bind_inv, assert_inv,
  assert-true, assert, ◌>>◌, slice-slice, length-take, length-drop,
}
use kno_vectorx.Plonky2x.{Gadgets, IsSound, documented, field_order, u32_check}
use kno_vectorx.Decoder.{decode_compact_int, get_compact_int_byte_length}
use kno_vectorx.Decoder.Compact.{compact_length, select_four, decoded_mode}
use kno_vectorx.Rotate.{
  consensus_engine_id, verify_consensus_log, verify_scheduled_change_message_length_and_flag,
  verify_encoded_num_authorities,
}

checked : (n u : ℕ) → u32_check n ≡ some u → u ≡ n
unfolding u32_check
checked n u e = ground arith

cursor_after :
    (cursor b len next : ℕ)
    → cursor < 2 ^ 32
    → b ≡ len
    → len ≤ 5
    → some ((cursor + b) % field_order) ≡ some next
    → next ≡ cursor + len
cursor_after cursor b len next small e h there =
    let value : (cursor + b) % field_order ≡ cursor + len = omega arith in
    let same : (cursor + b) % field_order ≡ next = cc in sym same ∙ value

pub prefix_length :
    (bytes : Bytes) (start : ℕ)
    → start + 17 ≤ length bytes
    → length (slice bytes start (start + 17)) ≡ 17
prefix_length bytes start h =
    omega (arith, length-take (start + 17 - start) (drop start bytes), length-drop start bytes)

-- A prefix of a slice.
pub take-slice :
    (m n at : ℕ) (xs : Bytes) → m ≤ n → take m (slice xs at (at + n)) ≡ slice xs at (at + m)
take-slice m n at xs h =
    let zero_left : m - 0 ≡ m = omega arith in
    let zero_right : at + 0 ≡ at = omega arith in
    ap (λ k. take k (slice xs at (at + n))) (sym zero_left)
    ∙ slice-slice at n 0 m xs h
    ∙ ap (λ k. slice xs k (at + m)) zero_right

-- The parts of the prefix, in the header.
pub in_prefix :
    (sub bytes : Bytes) (start a b a' b' : ℕ)
    → sub ≡ slice bytes start (start + 17)
    → b ≤ 17
    → start + a ≡ a'
    → start + b ≡ b'
    → slice sub a b ≡ slice bytes a' b'
in_prefix sub bytes start a b a' b' there h ea eb =
    ap (λ s. slice s a b) there ∙ slice-slice start 17 a b bytes h ∙ ap₂ (slice bytes) ea eb

module _ (G : Gadgets) (sound : IsSound G) where
  pub consensus_inv :
      (sub : Bytes)
      → verify_consensus_log documented G sub ≡ some tt
      → slice sub 1 6 ≡ 4 ∷ consensus_engine_id
  unfolding verify_consensus_log
  consensus_inv [] e = cc
  consensus_inv (x ∷ []) e = cc
  consensus_inv (x ∷ y ∷ r) e =
      let (t1, e1) = assert_inv (y == 4) _ e in
      let id = eq_of_bytes_eq (take 4 r) consensus_engine_id (assert-true _ e1) in
      ap₂ ◌∷◌ (eq_of_== y 4 t1) id

  pub byte_length : (m : ℕ) → m < 4 → get_compact_int_byte_length documented G m ≡ compact_length m
  unfolding get_compact_int_byte_length
  byte_length m h = select_four G sound 1 2 4 5 m h

  pub length_small : (m : ℕ) → compact_length m ≤ 5
  length_small m = ground arith

  flag_step :
      (sub : Bytes) (c idx next : ℕ)
      → c ≡ idx
      → idx < length sub
      → idx < 2 ^ 32
      → (assert (G.select_array sub c == 1) >> some ((c + 1) % field_order)) ≡ some next
      → (get_elem? sub idx ≡ some 1) × (next ≡ idx + 1)
  flag_step sub c idx next at room small e =
      let (t, e1) = assert_inv (G.select_array sub c == 1) _ e in
      let one = eq_of_== (G.select_array sub c) 1 t in
      let value : get_elem? sub idx ≡ some (G.select_array sub idx) =
        sound.select_array_lem sub idx room in
      (value ∙ ap some (ap (G.select_array sub) (sym at) ∙ one), cc e1 ∙ mod_at)
    where
      mod_at : (c + 1) % field_order ≡ idx + 1
      mod_at = omega arith

  pub flag_inv :
      (sub : Bytes) (next : ℕ)
      → length sub ≡ 17
      → verify_scheduled_change_message_length_and_flag documented G sub ≡ some next
      → (len mode : ℕ) × (decode_compact_int documented G (slice sub 6 11) ≡ some (len, mode))
        × (get_elem? sub (6 + compact_length mode) ≡ some 1)
        × (next ≡ 7 + compact_length mode)
  unfolding verify_scheduled_change_message_length_and_flag
  flag_inv sub next e accepted =
      let ((len, mode), d, e1) =
        bind_inv (decode_compact_int documented G (slice sub 6 11)) _ accepted in
      let small = decoded_mode G (slice sub 6 11) len mode d in
      let bytes : get_compact_int_byte_length documented G mode ≡ compact_length mode =
        byte_length mode small in
      let at : (6 + get_compact_int_byte_length documented G mode) % field_order
          ≡ 6 + compact_length mode =
        rw bytes (omega (arith, length_small mode)) in
      let (one, after) =
        flag_step sub ((6 + get_compact_int_byte_length documented G mode) % field_order)
          (6 + compact_length mode) next at (omega (arith, length_small mode))
          (omega (arith, length_small mode)) e1 in
      (len, mode, d, one, omega (arith, after))

  pub size_inv :
      (sub hash : Bytes) (cursor n next : ℕ)
      → cursor + 5 ≤ length sub
      → cursor < 2 ^ 32
      → verify_encoded_num_authorities documented G sub cursor hash n ≡ some next
      → (mode : ℕ) × (decode_compact_int documented G (slice sub cursor (cursor + 5))
          ≡ some (n, mode))
        × (next ≡ cursor + compact_length mode)
  unfolding verify_encoded_num_authorities
  size_inv sub hash cursor n next room small e =
      let there = sound.subarray_lem 5 sub cursor hash room in
      let part = G.get_fixed_subarray 5 sub cursor hash in
      let ((value, mode), d, e1) = bind_inv (decode_compact_int documented G part) _ e in
      let (u, ue, e2) = bind_inv (u32_check n) _ e1 in
      let (t, e3) = assert_inv (value == u) _ e2 in
      let small_mode = decoded_mode G part value mode d in
      let same : value ≡ n = eq_of_== value u t ∙ checked n u ue in
      (
        mode,
        subst (λ p. decode_compact_int documented G p ≡ some (n, mode)) there
            (d ∙ ap (λ v. some (v, mode)) same),
        cursor_after cursor (get_compact_int_byte_length documented G mode) (compact_length mode)
            next small (byte_length mode small_mode) (length_small mode) e3,
      )
