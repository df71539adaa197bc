-- ===== src/Plonky2x.antt =====
-- What the circuits use of the circuit framework (the plonky2x crate), as parameters.
-- `Gates` holds the gates that are functions of their inputs alone, `IsDocumented` what each is
-- documented to compute; `documented` shows that this can be met, and determines the gates.
-- `Gadgets` holds hashing, signatures, dynamic indexing and merkle trees, `IsSound` what the
-- circuits rely on. A constraint that cannot be met is `none`.
mod Arithmetic
mod Tree
mod Components
unfoldable pub use Arithmetic.*
unfoldable pub use Tree.*
unfoldable pub use Components.*
