-- ===== src/Results.antt =====
-- backend/app/services/results.py: the files of a job's results, how they are written (Writer), read
-- back when a job goes on (Resume, Reported, Recount, Rescan), and shown (Pages, Slices).
pub mod Writer
pub mod Resume
pub mod Reported
pub mod Recount
pub mod Rescan
pub mod Pages
pub mod Slices
