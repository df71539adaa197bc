-- ===== src/Rotate/Soundness.antt =====
-- What an accepted rotation of rotate.rs shows.
use kno_vectorx.Common.{ℕ, ◌+◌, ◌^◌, ◌≤◌, ◌<◌, ◌≡◌, Bytes, length, take}
use kno_vectorx.Plonky2x.{Gates, Gadgets}
use kno_vectorx.Vars.{RotateVariable, JustificationVariable}
use kno_vectorx.Decoder.{hash_encoded_header}
use kno_vectorx.Justification.Soundness.{Justified}
use kno_vectorx.Fetcher.Authorities.{compute_authority_set_hash}
use kno_vectorx.Rotate.EpochEnd.{EpochEnd}

-- The current authorities justify the epoch end header, a consensus log in the buffer of that header
-- holds the next authorities, and `next` is the commitment to them.
pub record Rotated (g : Gates) (G : Gadgets) (max set_id : ℕ) (set_hash : Bytes)
    (r : RotateVariable) (j : JustificationVariable) (next : Bytes) : Type 0 where
  pub justified :
      Justified G max r.epoch_end_block_number
        (hash_encoded_header g G r.target_header)
        set_id
        set_hash
        j
  pub epoch_end :
      EpochEnd g G r.target_header.header_bytes r.next_authority_set_start_position
        r.target_header_num_authorities r.new_pubkeys
  pub next_hash :
      next
      ≡ compute_authority_set_hash G.sha256 (take r.target_header_num_authorities r.new_pubkeys)

-- The arrays have their sizes, and the buffer has room for what is read after the start position.
-- `authorities` and `fits` bound two numbers of the hints, which the circuit does not check.
pub record InBounds (max sub_size : ℕ) (r : RotateVariable) (j : JustificationVariable)
    : Type 0 where
  pub some_key : 0 < length j.pubkeys
  pub flags : length j.validator_signed < 1431655765
  pub authorities : j.num_authorities < 2147483648
  pub room :
      r.next_authority_set_start_position + 17 + sub_size ≤ length r.target_header.header_bytes
  pub header : length r.target_header.header_bytes < 2 ^ 32
  pub fits : r.target_header_num_authorities ≤ max
  pub positive : 0 < max
  pub keys : length r.new_pubkeys ≡ max
