-- ===== src/Worker.antt =====
-- backend/app/worker/main.py and backend/app/services/model_limits.py: which job a worker takes.
pub mod Pick
pub mod Fair
