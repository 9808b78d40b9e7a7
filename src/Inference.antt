-- ===== src/Inference.antt =====
-- backend/app/services/inference.py: the parameters of a model and the body of a request (Params),
-- which of the merged values wins (Keys, Caps), the retries of one request (Retry), the rate limiter
-- (Limiter, Throughput, Waiting), and what is read from a body (Texts).
pub mod Params
pub mod Keys
pub mod Caps
pub mod Retry
pub mod Limiter
pub mod Throughput
pub mod Waiting
pub mod Texts
