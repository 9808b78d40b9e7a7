-- ===== src/Billing.antt =====
-- Independent billing for the personal gateway (backend/app/services/billing.py): usage is cut into
-- records (`Cut`) under ids that never change (`RequestId`), and each record is sent and settled
-- (`Outcome`, `Send`, `Settle`). `Interleaving` runs many workers against one job.
pub mod RequestId
pub mod Cut
pub mod Charges
pub mod Interleaving
pub mod Outcome
pub mod Send
pub mod Delivery
pub mod Settle
