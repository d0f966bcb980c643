-- ===== src/Pipeline.antt =====
-- app/infra/memory_pipeline.py, class MemoryPipeline: a queue for each room, the rooms that are ready
-- for a worker, the rooms that a worker holds, and the event ids seen lately. Each function of the
-- children is one critical section of the class's condition variable; the threads interleave whole
-- sections.
pub mod State
pub mod Admission
pub mod Worker
pub mod Schedule
pub mod Rooms
pub mod Invariant
pub mod Order
pub mod Dedupe
pub mod Race
pub mod Partitions
pub mod Drops
pub mod Refinement
pub mod Fairness
