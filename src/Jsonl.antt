-- ===== src/Jsonl.antt =====
-- backend/app/services/jsonl.py: one line of an input file becomes one request (Parse), a file is
-- read in two ways (Files), and the check at upload agrees with the run of the job (Validate).
pub mod Parse
pub mod Files
pub mod Validate
