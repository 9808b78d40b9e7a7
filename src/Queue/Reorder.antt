-- ===== src/Queue/Reorder.antt =====
-- `reorder` and `_REORDER_LUA` of backend/app/services/queue.py: queued jobs swap their scores.
use batch_inference_console.Prelude.{
  ℕ, suc, zero, ◌-◌, Option, none, some, List, [], ◌∷◌, if◌then◌else◌,
}
use batch_inference_console.Prelude.Int.{ℤ, leb_ℤ}
use batch_inference_console.Redis.{Redis}
use batch_inference_console.Queue.State.{Keys}

-- `table.sort` on the numbers of the entries; entries of one number are alike.
abbrev pub insert : ℤ → List ℤ → List ℤ
insert s [] = s ∷ []
insert s (t ∷ ts) = let rest = insert s ts in if leb_ℤ s t then s ∷ t ∷ ts else t ∷ rest

unfoldable pub sort : List ℤ → List ℤ
sort [] = []
sort (s ∷ ts) = insert s (sort ts)

-- The first loop of the script: the entries, or the place of the first job that has no score.
pub data Entries : Type 0 where
  missing : ℕ → Entries
  entries : List ℤ → Entries

-- The new scores of the jobs, or `KeyError` with the job; `none` would be an index out of range.
pub data Reordered : Type 0 where
  moved : List (ℕ × ℤ) → Reordered
  key_error : Option ℕ → Reordered

abbrev pub nth : {A : Type 0} → ℕ → List A → Option A
nth n [] = none
nth zero (x ∷ xs) = some x
nth (suc n) (x ∷ xs) = nth n xs

abbrev pub zip : List ℕ → List ℤ → List (ℕ × ℤ)
zip [] ss = []
zip (j ∷ js) [] = []
zip (j ∷ js) (s ∷ ss) = (j, s) ∷ zip js ss

abbrev pub add_entry : ℤ → Entries → Entries
add_entry s (missing i) = missing i
add_entry s (entries ss) = entries (s ∷ ss)

module _ (R : Redis) where
  abbrev pub entry_or : ℕ → Option ℤ → Entries → Entries
  entry_or i none rest = missing i
  entry_or i (some s) rest = add_entry s rest

  unfoldable pub entries_from : R.ZSet → ℕ → List ℕ → Entries
  entries_from z i [] = entries []
  entries_from z i (job ∷ jobs) = entry_or i (R.zscore job z) (entries_from z (suc i) jobs)

  -- The second loop.
  unfoldable pub write_scores : R.ZSet → List ℕ → List ℤ → R.ZSet
  write_scores z (job ∷ jobs) (s ∷ ss) = write_scores (R.zadd job s z) jobs ss
  write_scores z _ _ = z

  abbrev pub reorder_with : Keys R → List ℕ → Entries → Keys R × Reordered
  reorder_with q jobs (missing i) = (q, key_error (nth (i - 1) jobs))
  reorder_with q jobs (entries ss) =
      (record q { queue = write_scores q.queue jobs (sort ss) }, moved (zip jobs (sort ss)))

  unfoldable pub reorder : Keys R → List ℕ → Keys R × Reordered
  unfolding entries_from
  reorder q jobs = reorder_with q jobs (entries_from q.queue 1 jobs)
