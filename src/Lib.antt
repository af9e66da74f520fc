-- ===== src/Lib.antt =====
-- A verification library for nemo-rl-vlm, a toolkit for reinforcement learning of language models. It
-- models the parts of the program that carry logic of their own, apart from tensors and remote calls:
--
-- - Packing (nemo_rl/data/packing/algorithms.py): sequences are packed into bins of a fixed capacity.
--   Base has the checks of `SequencePacker`, Concatenative, FirstFit and Modified the algorithms, Adjust
--   `_adjust_bin_count`, Pack `pack` and `get_packer`. A bin is a list of indices, an exception a value
--   of `Result`. `random.shuffle` is a parameter, assumed to keep the items of its list. The `while` of
--   phase 4 in Modified runs on as many rounds as there are items: each round takes one or ends.
-- - AsyncGrpo (nemo_rl/algorithms/async_utils.py): Buffer is `ReplayBuffer`, three parallel lists under
--   one lock, so that each method is one step. Collector is `AsyncTrajectoryCollector`: which training
--   step a generation is for, the reservations, the events that pause the loop, and the workers. The
--   collector pushes into the buffer what it reserved a target for; the trainer samples from it.
--   Workers gives the interleavings of the trainer, the loop and the workers as a step relation, of
--   steps that each hold one lock or touch one object, with the permits that are between two of them.
-- - SlidingPuzzle (nemo_rl/environments/games/sliding_puzzle.py): `SlidingPuzzleGameLogic`, the state of
--   the board and what a command does to it. `random.choice` is a number for each round. Runner is
--   `SlidingPuzzleRunner` and the turns of a sample in nemo_rl/experience/rollouts.py.
-- - NamedSharding (nemo_rl/distributed/named_sharding.py): an array of ranks with named axes, as its shape
--   and its items in row-major order, with the coordinates of a rank and the ranks at coordinates.
-- - Batched (nemo_rl/distributed/batched_data_dict.py): `BatchedDataDict`, columns of which the rows
--   belong together. Shards is `shard_by_batch_size`, Dynamic its dynamic batching, Packed its sequence
--   packing, which calls the packers of Packing and `from_batches` (Stack), Iterators the way from a
--   shard to its micro-batches, Reorder the way back to the order of the rows, Restores all of the way
--   there and back. torch's operations on the first dimension are those on lists.
-- - Checkpoint (nemo_rl/utils/checkpoint.py): `CheckpointManager` on a directory, a list of names with
--   the metrics of each: the renames that put a checkpoint into place, the retention of the k best, the
--   best and the latest. The comparison of metric values is a parameter, assumed a strict weak order.
-- - Timer (nemo_rl/utils/timer.py): `Timer`, `convert_to_seconds` and `TimeoutChecker`; the clock's value
--   is an argument of each call, and an average is compared with its divisor multiplied out.
-- - Prelude: numbers, lists, integers, results, a stable sort, and lists up to order.
--
-- Not modelled: tensors, models, rollouts but for how a turn ends a sample, placement on a cluster,
-- texts that are printed or shown, and statistics. Floats do not occur: where the program computes one
-- for a report, the model keeps what it is computed from.
pub mod Prelude
pub mod AsyncGrpo
pub mod Batched
pub mod Checkpoint
pub mod NamedSharding
pub mod Packing
pub mod SlidingPuzzle
pub mod Timer
