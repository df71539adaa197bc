-- ===== src/Fetcher.antt =====
-- circuits/input/mod.rs: the off-chain data fetcher. What the chain's RPC node answers is a
-- parameter (`Rpc`), and so are the hash and signature functions it calls.
pub mod InRange
pub mod RotateData
pub mod Headers
pub mod Justifications
pub mod Rpc
pub mod Search
pub mod Range
pub mod Merkle
pub mod Authorities
