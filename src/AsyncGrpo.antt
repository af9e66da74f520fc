-- ===== src/AsyncGrpo.antt =====
-- nemo_rl/algorithms/async_utils.py: the replay buffer and the trajectory collector of async GRPO.
pub mod Buffer
pub mod Collector
