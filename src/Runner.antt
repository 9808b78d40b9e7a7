-- ===== src/Runner.antt =====
-- backend/app/worker/runner.py: the counters of a run (Counters), its billing at the
-- start (Prepare), the dispatch of its items
-- (Dispatch), what a run keeps (Occurrences, Distinct, Ledger), how it ends (Outcome, Progress), and how a later run takes it
-- up (Resumed).
pub mod Counters
pub mod Prepare
pub mod Dispatch
pub mod Occurrences
pub mod Distinct
pub mod Ledger
pub mod Outcome
pub mod Progress
pub mod Resumed
