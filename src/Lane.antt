-- ===== src/Lane.antt =====
-- sidecars/kokoro/worker_lane.py: a bounded queue of inference work with deadlines (`WorkLane`).
-- The threads of a lane and its callers interleave as steps.
pub mod Work
pub mod Kept
pub mod Promises
pub mod Examples
