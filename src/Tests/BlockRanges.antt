-- ===== src/Tests/BlockRanges.antt =====
-- The property of bin/fill_block_range.rs, at nine blocks in trees of four leaves.
use kno_vectorx.Common.{ℕ, ◌≡◌, refl, some, List, [], ◌∷◌, map, length, arith}
use kno_vectorx.Tests.Instances.{first_bytes, length-first_bytes, toy_rpc, key_a}
use kno_vectorx.Fetcher.Authorities.{compute_authority_set_hash}
use kno_vectorx.BlockRange.{BlockRangeData, Pushed, get_block_range_data}
use kno_vectorx.BlockRange.Cover.{Covered, get_block_range_data-Covered}

toy_roots :
    (n : ℕ)
    → (length (toy_rpc.get_header n).state_root ≡ 32)
      × (length (toy_rpc.get_header n).data_root ≡ 32)
toy_roots n = (refl, refl)

get_block_range_data-Covered_example :
    (data_ : BlockRangeData) × (get_block_range_data first_bytes toy_rpc 4 1 10 ≡ some data_)
    × (ps : List Pushed) × Covered first_bytes length-first_bytes toy_rpc toy_roots 2
        (omega arith)
        10
        (omega arith)
        1
        ps
    × (data_.start_blocks ≡ map (λ (p : Pushed). p.start_block) ps)
    × (data_.end_blocks ≡ map (λ (p : Pushed). p.end_block) ps)
    × (data_.header_hashes ≡ map (λ (p : Pushed). p.header_hash) ps)
    × (data_.data_root_commitments ≡ map (λ (p : Pushed). p.data_root_commitment) ps)
    × (data_.state_root_commitments ≡ map (λ (p : Pushed). p.state_root_commitment) ps)
    × (data_.end_authority_set_id ≡ 2)
    × (data_.end_authority_set_hash ≡ compute_authority_set_hash first_bytes (key_a ∷ []))
get_block_range_data-Covered_example =
    get_block_range_data-Covered first_bytes length-first_bytes toy_rpc toy_roots 2 (omega arith) 10
      (omega arith) 1 key_a [] (omega arith) refl
