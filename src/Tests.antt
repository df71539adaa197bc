-- ===== src/Tests.antt =====
-- Concrete instances of the framework and the node, and the properties applied to them.
mod Dummies
mod EventRounds
mod Ranges
mod Indexing
mod Rotations
mod BlockRanges
mod Redis
pub mod Instances
mod Justifications
mod Fetching
mod Circuits
mod Forgeries
mod Events
