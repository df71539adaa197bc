-- ===== src/Programs/Dummy.antt =====
-- The program circuits/dummy_header_range.rs, against the circuit that it stands in for.
use kno_vectorx.Common.{
  ℕ, ◌+◌, ◌-◌, ◌<◌, ◌≡◌, sym, ap, ap₂, ◌∙◌, some, List, [], ◌∷◌, ◌++◌, map, Bytes, range_from,
}
use mathlib.Core.List.{append-nil}
use kno_vectorx.Plonky2x.{Gates, Gadgets, u32_mod}
use kno_vectorx.Vars.{JustificationVariable}
use kno_vectorx.Subchain.{state_roots, data_roots}
use kno_vectorx.Subchain.Soundness.{capacity}
use kno_vectorx.Fetcher.Rpc.{Rpc, Header}
use kno_vectorx.Fetcher.Merkle.Commitments.{commitments-eq-circuit}
use kno_vectorx.Programs.{HeaderRangeInput, read_header_range, dummy_header_range}
use kno_vectorx.Programs.Soundness.{ProvenRange}

-- The output bytes of a circuit, which writes its values one after another.
abbrev pub written : List Bytes → Bytes
written [] = []
written (value ∷ values) = value ++ written values

-- The program answers what the circuit proves: for a proven header range whose target hash and whose
-- roots, block by block, are those of the node's headers, the program's output on input bytes that
-- hold the circuit's input is the circuit's output. The tree has at most 2 ^ 31 leaves, and block
-- numbers do not wrap.
pub dummy_header_range-eq-circuit :
    (g : Gates) (G : Gadgets) (rpc : Rpc) (max_authority_set_size max_num_headers : ℕ)
    (j : JustificationVariable) (input : HeaderRangeInput) (outputs : List Bytes)
    (input_bytes : Bytes)
    (proven : ProvenRange g G max_authority_set_size max_num_headers j input outputs)
    → read_header_range input_bytes ≡ some input
    → proven.verified.depth < 32
    → input.target_block + 200 < u32_mod
    → (rpc.get_header input.target_block).hash ≡ proven.range.target_header_hash
    → map
        (λ (h : Header). h.state_root)
        (map rpc.get_header
          (range_from (input.trusted_block + 1) (input.target_block - input.trusted_block)))
      ≡ state_roots proven.verified.blocks
    → map
        (λ (h : Header). h.data_root)
        (map rpc.get_header
          (range_from (input.trusted_block + 1) (input.target_block - input.trusted_block)))
      ≡ data_roots proven.verified.blocks
    → dummy_header_range G.sha256 rpc (capacity max_num_headers) input_bytes
      ≡ some (written outputs)
unfolding dummy_header_range
dummy_header_range-eq-circuit g G rpc max_authority_set_size max_num_headers j input outputs
      input_bytes proven read bounded small hash states datas =
    let range = proven.range in
    let commitments =
      commitments-eq-circuit g G rpc max_num_headers input.trusted_block input.target_block
        input.trusted_header_hash range proven.verified bounded small states datas in
    let tail : range.state_root_merkle_root ++ (range.data_root_merkle_root ++ [])
        ≡ range.state_root_merkle_root ++ range.data_root_merkle_root =
      ap (◌++◌ range.state_root_merkle_root) (append-nil range.data_root_merkle_root) in
    rw read (rw commitments (ap some (ap₂ ◌++◌ hash (sym tail) ∙ ap written (sym proven.written))))
