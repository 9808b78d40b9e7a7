-- ===== src/Storage/Upload.antt =====
-- The part of `upload_jsonl` of backend/app/api/jobs.py that lets an upload in: the check of what is used,
-- and the loop that receives the file in chunks and stops where it gets too large. A chunk is its size;
-- a write that the disk refuses is left out, as is the check of the lines (Jsonl).
use batch_inference_console.Prelude.{
  ℕ, ◌+◌, ◌-◌, ◌*◌, Bool, false, not, ◌||◌, List, [], ◌∷◌, ◌==◌, ltb, if◌then◌else◌,
}
use batch_inference_console.Prelude.Int.{ℤ, pos, negsuc}
use batch_inference_console.Models.{User}
use batch_inference_console.Database.{Schema, Db}
use batch_inference_console.Storage.Quotas.{
  Quota, Files, Limits, mb, Verdict, accepted, check_before_upload, user_quota, total_quota,
}

-- `Quota.remaining`: -1 where there is no limit
abbrev pub remaining : Quota → ℤ
remaining q = if q.limit == 0 then negsuc 0 else pos (q.limit - q.used)

-- `remaining >= 0 and size > remaining`
abbrev pub is_over : ℤ → ℕ → Bool
is_over (pos r) size = ltb r size
is_over (negsuc n) size = false

-- 200 with the size, 413, 507, 503, 400
pub data Received : Type 0 where
  received : ℕ → Received
  too_large no_room closed bad_name : Received

-- The loop over the chunks.
unfoldable pub receive : ℕ → ℤ → ℤ → ℕ → List ℕ → Received
receive max_bytes left total_left size [] = received size
receive max_bytes left total_left size (chunk ∷ chunks) =
    let rest = receive max_bytes left total_left (size + chunk) chunks in
    if ltb max_bytes (size + chunk)
    then too_large
    else if is_over left (size + chunk) || is_over total_left (size + chunk)
    then no_room
    else rest

module _ (S : Schema) where
  abbrev pub after_check : Verdict → Files → Limits → Db S → ℕ → User → ℕ → List ℕ → Received
  after_check accepted files limits db user_id user max_upload_mb chunks =
      receive (max_upload_mb * mb) (remaining (user_quota S files limits db user_id user))
        (remaining (total_quota S files limits db)) 0 chunks
  after_check _ files limits db user_id user max_upload_mb chunks = no_room

  -- `may_submit`: new jobs are allowed or the user is an administrator; `name_ok`: the suffix is one of
  -- four.
  unfoldable pub upload_jsonl :
      Bool → Bool → Files → Limits → Db S → ℕ → User → ℕ → List ℕ → Received
  unfolding check_before_upload receive
  upload_jsonl may_submit name_ok files limits db user_id user max_upload_mb chunks =
      if not may_submit
      then closed
      else if not name_ok
      then bad_name
      else after_check (check_before_upload S files limits db user_id user 0) files limits db
          user_id user max_upload_mb chunks
