-- ===== src/Packing.antt =====
-- nemo_rl/data/packing/algorithms.py: the sequence packers.
pub mod Base
pub mod Adjust
pub mod Concatenative
pub mod FirstFit
pub mod Modified
pub mod Pack
mod Tests
