-- ===== src/Storage.antt =====
-- backend/app/services/storage.py, backend/app/services/retention.py and the start of `upload_jsonl` of
-- backend/app/api/jobs.py: who may upload, and how much, which
-- files are cleared, and what the preview of that says.
pub mod Quotas
pub mod Upload
pub mod Uploaded
pub mod Retention
pub mod Cleared
pub mod Preview
