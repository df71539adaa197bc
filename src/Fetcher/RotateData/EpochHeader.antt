-- ===== src/Fetcher/RotateData/EpochHeader.antt =====
-- The header of an epoch end block as Substrate documents it, for circuits/input/mod.rs.
use kno_vectorx.Common.{
  ℕ, zero, suc, ◌+◌, ◌-◌, ◌%◌, ◌^◌, ◌<◌, ◌≡◌, ap, ◌∙◌, some, List, [], ◌∷◌, ◌++◌, Bytes, length,
  get_or, take-append_left, arith,
}
use kno_vectorx.Plonky2x.{Gates, Gadgets, IsDocumented}
use kno_vectorx.Decoder.Compact.{encode_compact}
use kno_vectorx.Justification.{compute_authority_set_commitment}
use kno_vectorx.Justification.Commitment.{compute_authority_set_commitment-eq-hash}
use kno_vectorx.Rotate.{consensus_engine_id}
use kno_vectorx.Rotate.Validators.{encode_authorities}
use kno_vectorx.Fetcher.Rpc.{Rpc, DigestItem, consensus}
use kno_vectorx.Fetcher.Authorities.{get_authorities, compute_authority_set_hash}
use kno_vectorx.Fetcher.Justifications.{previous}
use kno_vectorx.Fetcher.RotateData.{grandpa_id}
use kno_vectorx.Fetcher.RotateData.Layout.{Keys, Octets}
use kno_vectorx.Fetcher.RotateData.Found.{encoded_logs, NoGrandpa}

-- The value of a scheduled change to the given authorities, without delay, and its log.
abbrev pub scheduled_change : List Bytes → Bytes
scheduled_change keys = (1 ∷ []) ++ (encode_compact (length keys) ++ encode_authorities keys)

abbrev pub change_log : List Bytes → Bytes
change_log keys =
    (4 ∷ consensus_engine_id)
    ++ (encode_compact (length (scheduled_change keys)) ++ scheduled_change keys)

-- An epoch end block of the chain: the set id grows by one, all authorities of the new set have
-- weight 1 and a key of 32 bytes, and the header is encoded as the documentation of SCALE and
-- Substrate says: three hashes and the number, a byte for the number of logs, the logs, of which the
-- first one of GRANDPA schedules the change to the new set, and what follows.
pub record IsEpochEnd (rpc : Rpc) (block : ℕ) (keys : List Bytes) : Type 0 where
  pub next_set :
      (rpc.get_authority_set_id block + 2 ^ 64 - 1) % 2 ^ 64
      ≡ rpc.get_authority_set_id (previous block)
  pub authorities : get_authorities rpc block ≡ some keys
  pub active : 0 < length keys
  pub wide : Keys keys
  pub fields : Bytes
  pub fields_length : length fields ≡ 96 + length (encode_compact block)
  pub log_count : ℕ
  pub before : List DigestItem
  pub after : List DigestItem
  pub clear : NoGrandpa before
  pub logs :
      (rpc.get_header block).digest_logs
      ≡ before ++ consensus grandpa_id (scheduled_change keys) (change_log keys) ∷ after
  pub tail : Bytes
  pub encoded :
      (rpc.get_header block).encoded
      ≡ fields ++ ((log_count ∷ []) ++ (encoded_logs before ++ (change_log keys ++ tail)))
  pub octets : Octets (rpc.get_header block).encoded

pub Keys-get_or :
    (ks padded : List Bytes) (i : ℕ)
    → Keys ks
    → i < length ks
    → length (get_or (ks ++ padded) i []) ≡ 32
Keys-get_or [] padded i h l = absurd (omega arith)
Keys-get_or (k ∷ ks) padded zero h l = h.0
Keys-get_or (k ∷ ks) padded (suc i) h l = Keys-get_or ks padded i h.1 (omega arith)

pub commitment_found :
    (g : Gates) (gates : IsDocumented g) (G : Gadgets) (keys padded : List Bytes)
    → 0 < length keys
    → compute_authority_set_commitment g G (length keys) (keys ++ padded)
      ≡ some (compute_authority_set_hash G.sha256 keys)
commitment_found g gates G [] padded active = absurd (omega arith)
commitment_found g gates G (k ∷ ks) padded active =
    (compute_authority_set_commitment-eq-hash g gates G (length (k ∷ ks)) k (ks ++ padded)).1 active
    ∙ ap (λ xs. some (compute_authority_set_hash G.sha256 xs)) (take-append_left (k ∷ ks) padded)
