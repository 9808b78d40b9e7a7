-- ===== src/Storage/Uploaded.antt =====
-- An upload that is let in by `upload_jsonl` of backend/app/api/jobs.py fits into the limits.
use batch_inference_console.Prelude.{ℕ, ◌≤◌, ◌≡◌, false}
use batch_inference_console.Prelude.Int.{ℤ}
use batch_inference_console.Storage.Upload.{is_over}

-- A file of so many bytes is within the three bounds.
abbrev HasRoom : ℕ → ℤ → ℤ → ℕ → Type 0
HasRoom max_bytes left total_left size =
    (size ≤ max_bytes) × (is_over left size ≡ false) × (is_over total_left size ≡ false)
