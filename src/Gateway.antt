-- ===== src/Gateway.antt =====
-- The personal gateway (backend/app/services/gateway.py): which address, key and model name a
-- request is sent with, and when its usage is billed.
pub mod Settings
pub mod Routes
pub mod Agreement
