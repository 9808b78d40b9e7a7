-- ===== src/Queue.antt =====
-- The job queue over Redis (backend/app/services/queue.py): scores, the Lua scripts, leases, signals
-- (State, Claims, Claimed, Leases) and the new order of an administrator (Reorder, Sorted, Reordered),
-- and the queue as one sees it from outside (Places, Refinement, Kept).
pub mod Score
pub mod State
pub mod Claims
pub mod Claimed
pub mod Leases
pub mod Reorder
pub mod Sorted
pub mod Reordered
pub mod Places
pub mod Refinement
pub mod Kept
