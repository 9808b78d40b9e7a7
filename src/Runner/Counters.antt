-- ===== src/Runner/Counters.antt =====
-- `_bump` of backend/app/worker/runner.py: what a run counts as it writes its results. The
-- samples of errors that it keeps for the database are left out.
use batch_inference_console.Prelude.{ℕ, suc, List, [], ◌∷◌}
use batch_inference_console.Prelude.Int.{ℤ, ◌+ℤ◌}
use batch_inference_console.Results.Writer.{Write, success, failure}

pub record Counters : Type 0 where
  pub completed : ℕ
  pub failed : ℕ
  pub prompt_tokens : ℤ
  pub completion_tokens : ℤ
  pub cached_tokens : ℤ

-- `_bump` after `write_success` or `write_failure`
unfoldable pub bump : Counters → Write → Counters
bump c (success i custom_id result latency_ms) = record c {
  completed = suc c.completed;
  prompt_tokens = c.prompt_tokens +ℤ result.prompt_tokens;
  completion_tokens = c.completion_tokens +ℤ result.completion_tokens;
  cached_tokens = c.cached_tokens +ℤ result.cached_tokens;
}
bump c (failure i custom_id message status_code attempts) = record c { failed = suc c.failed }

unfoldable pub bump_all : Counters → List Write → Counters
unfolding bump
bump_all c [] = c
bump_all c (x ∷ xs) = bump_all (bump c x) xs

abbrev pub index_of : Write → ℕ
index_of (success i custom_id result latency_ms) = i
index_of (failure i custom_id message status_code attempts) = i
