-- ===== src/Tests/Fetching.antt =====
-- The properties of the fetcher, the operator and its requests, at concrete inputs.
use kno_vectorx.Common.{
  ℕ, suc, ◌+◌, ◌/◌, ◌^◌, ◌≤◌, ◌<◌, ◌≡◌, refl, ◌⊎◌, inl, inr, Bool, true, false, Option, some, none,
  Bytes, [], ◌∷◌, length, get_elem?, replicate, range_from, ◌==◌, arith,
}
use native.Mathlib.Decide.{dec_le}
use kno_vectorx.Plonky2x.{tree_root}
use kno_vectorx.Vars.{EncodedHeader}
use kno_vectorx.Subchain.Chain.{pad}
use kno_vectorx.Fetcher.Search.{last_justified_block}
use kno_vectorx.Fetcher.Search.Handover.{last_justified_block-finds}
use kno_vectorx.Fetcher.Range.{get_block_headers_range, get_block_headers_range-map}
use kno_vectorx.Fetcher.Merkle.{get_merkle_root, get_merkle_root_commitments}
use kno_vectorx.Fetcher.Merkle.Root.{get_merkle_root-tree_root}
use kno_vectorx.Fetcher.Merkle.Commitments.{get_merkle_root_commitments-tree_root}
use kno_vectorx.Fetcher.Headers.{buffered, empty_header, hint_headers, hint_headers-filled}
use kno_vectorx.Operator.{header_range_input, rotate_input, find_block_to_step_to}
use kno_vectorx.Operator.Step.{find_block_to_step_to-in_range, find_block_to_step_to-returns}
use kno_vectorx.Programs.{HeaderRangeInput, read_header_range, read_rotate}
use kno_vectorx.Programs.Inputs.{read_header_range-read_rotate-length}
use kno_vectorx.Programs.Requests.{read_header_range-header_range_input, read_rotate-rotate_input}
use kno_vectorx.Tests.Instances.{first_bytes, toy_rpc, toy_header, key_a, key_b, block_hash}

pub toy_steps :
    (n : ℕ)
    → (toy_rpc.get_authority_set_id (suc n) ≡ toy_rpc.get_authority_set_id n)
      ⊎ (toy_rpc.get_authority_set_id (suc n) ≡ toy_rpc.get_authority_set_id n + 1)
toy_steps n = elim (dec_le (suc n / 4) (n / 4)) [
  | yes e ↦ inl (omega arith)
  | no e ↦ inr (omega arith)
]

last_justified_block-finds_example :
    (4 < toy_rpc.get_authority_set_id 23
      → (n : ℕ) × (last_justified_block toy_rpc 4 ≡ some (suc n))
        × (n < 23)
        × (toy_rpc.get_authority_set_id n ≡ 4)
        × (toy_rpc.get_authority_set_id (suc n) ≡ 5))
    × (toy_rpc.get_authority_set_id 23 ≤ 4 → last_justified_block toy_rpc 4 ≡ some 0)
last_justified_block-finds_example =
    last_justified_block-finds toy_rpc toy_steps 4 (omega arith) (omega arith) (omega arith)

get_block_headers_range-map_example :
    get_block_headers_range toy_rpc 1 3 ≡ some (toy_header 1 ∷ toy_header 2 ∷ toy_header 3 ∷ [])
unfolding range_from
get_block_headers_range-map_example = get_block_headers_range-map toy_rpc 1 3 (omega arith)

get_merkle_root-tree_root_example :
    (d : ℕ) × (get_merkle_root first_bytes (key_a ∷ key_b ∷ key_a ∷ [])
      ≡ some (tree_root first_bytes d (pad (2 ^ d) (key_a ∷ key_b ∷ key_a ∷ []))))
    × (3 ≤ 2 ^ d)
    × (2 ^ d < 6)
get_merkle_root-tree_root_example =
    get_merkle_root-tree_root first_bytes key_a (key_b ∷ key_a ∷ []) (omega arith)

get_merkle_root_commitments-tree_root_example :
    get_merkle_root_commitments first_bytes toy_rpc 4 1 4
    ≡ some (
      tree_root first_bytes 2 (pad 4 (replicate 32 2 ∷ replicate 32 3 ∷ replicate 32 4 ∷ [])),
      tree_root first_bytes 2 (pad 4 (replicate 32 3 ∷ replicate 32 3 ∷ replicate 32 3 ∷ [])),
    )
unfolding range_from
get_merkle_root_commitments-tree_root_example =
    get_merkle_root_commitments-tree_root first_bytes toy_rpc 2 1 4 (omega arith) (omega arith)
      (omega arith) (omega arith)

-- The buffer of a header, and an empty one.
abbrev filled : ℕ → EncodedHeader
filled n = record { header_bytes = n ∷ 7 ∷ 0 ∷ 0 ∷ []; header_size = 2 }

three_headers :
    hint_headers 4 toy_rpc 3 10 12 11 ≡ some (filled 10 ∷ filled 11 ∷ empty_header 4 ∷ [])
unfolding hint_headers get_block_headers_range range_from
three_headers = refl

hint_headers-filled_example :
    (length (filled 10 ∷ filled 11 ∷ empty_header 4 ∷ []) ≡ 3)
    × ((i : ℕ)
        → 10 + i ≤ 11
        → (length (toy_header (10 + i)).encoded ≤ 4)
          × (get_elem? (filled 10 ∷ filled 11 ∷ empty_header 4 ∷ []) i
              ≡ some (buffered 4 (toy_header (10 + i)).encoded)))
    × ((i : ℕ)
        → 11 < 10 + i
        → i < 3
        → get_elem? (filled 10 ∷ filled 11 ∷ empty_header 4 ∷ []) i ≡ some (empty_header 4))
hint_headers-filled_example =
    hint_headers-filled 4 toy_rpc 3 10 12 11 (omega arith) (omega arith)
      (filled 10 ∷ filled 11 ∷ empty_header 4 ∷ []) (omega arith) three_headers

-- Only block 30 has a justification.
abbrev only_30 : ℕ → Option Bool
only_30 n = some (n == 30)

answers : (n : ℕ) → (b : Bool) × (only_30 n ≡ some b)
answers n = (n == 30, refl)

no_hand_over : last_justified_block toy_rpc 5 ≡ some 0
unfolding last_justified_block
no_hand_over = refl

steps_to_30 : find_block_to_step_to toy_rpc false only_30 7 10 21 40 5 ≡ some (some 30)
unfolding find_block_to_step_to last_justified_block
steps_to_30 = refl

find_block_to_step_to-in_range_example :
    (30 ≤ 31)
    × (((0 < 30) × (◌≡◌ {A = ℕ} 30 0))
        ⊎ ((21 < 30) × ((◌≡◌ {A = Bool} false true) ⊎ (only_30 30 ≡ some true))))
find_block_to_step_to-in_range_example =
    find_block_to_step_to-in_range toy_rpc false only_30 7 10 21 40 5 0 no_hand_over (omega arith)
      30 steps_to_30

find_block_to_step_to-returns_example :
    (r : Option ℕ) × (find_block_to_step_to toy_rpc false only_30 7 10 21 40 5 ≡ some r)
find_block_to_step_to-returns_example =
    find_block_to_step_to-returns toy_rpc false only_30 7 10 21 40 5 0 no_hand_over (omega arith)
      answers (omega arith)

read_header_range-header_range_input_example :
    read_header_range (header_range_input 20 block_hash 4 key_a 300)
    ≡ some (record {
      trusted_block = 20;
      trusted_header_hash = block_hash;
      authority_set_id = 4;
      authority_set_hash = key_a;
      target_block = 300;
    })
read_header_range-header_range_input_example =
    read_header_range-header_range_input 20 block_hash 4 key_a 300 (omega arith) refl (omega arith)
      refl (omega arith)

read_rotate-rotate_input_example : read_rotate (rotate_input 4 key_a) ≡ some (4, key_a)
read_rotate-rotate_input_example = read_rotate-rotate_input 4 key_a (omega arith) refl

-- One byte is missing.
read_header_range-read_rotate-length_example :
    (79 < 80 → read_header_range (replicate 79 0) ≡ none)
    × (80 ≤ 79 → (input : HeaderRangeInput) × (read_header_range (replicate 79 0) ≡ some input))
    × (79 < 40 → read_rotate (replicate 79 0) ≡ none)
    × (40 ≤ 79 → (input : ℕ × Bytes) × (read_rotate (replicate 79 0) ≡ some input))
read_header_range-read_rotate-length_example = read_header_range-read_rotate-length (replicate 79 0)
