-- ===== src/Tests/LimiterRuns.antt =====
-- A limiter of two requests and a hundred tokens a minute.
use batch_inference_console.Prelude.{ℕ, ◌≡◌, refl, List, [], ◌∷◌, true, false, arith}
use batch_inference_console.Inference.Limiter.{Limiter, new_limiter, try_acquire, turns, acquire}
use batch_inference_console.Inference.Throughput.{IsWithin, turns-IsWithin, none_passed, oversized}
use batch_inference_console.Inference.Waiting.{acquire-passes}

abbrev busy : List (ℕ × ℕ)
busy = (0, 40) ∷ (10, 40) ∷ (10, 40) ∷ (30000, 40) ∷ []

abbrev used_up : Limiter
used_up = record { rpm = 2; tpm = 100; req_tokens = 0; tok_tokens = 0; last = 5000 }

three_passed : (turns (new_limiter 2 100 0) 0 busy none_passed).1.requests ≡ 3
unfolding turns
three_passed = refl

turns-IsWithin_example : IsWithin 2 100 30020 (turns (new_limiter 2 100 0) 0 busy none_passed).1
turns-IsWithin_example = turns-IsWithin 2 100 0 busy

oversized_example :
    (try_acquire (turns (new_limiter 2 100 0) 0 busy none_passed).0 900000 101).1 ≡ false
oversized_example = oversized 2 100 0 busy 900000 101 (omega arith) (omega arith)

acquire-passes_example : (acquire used_up 100 (20000 ∷ 20000 ∷ 20000 ∷ [])).1 ≡ true
acquire-passes_example = acquire-passes used_up 100 (20000 ∷ 20000 ∷ 20000 ∷ []) refl (omega arith)
