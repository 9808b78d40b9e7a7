-- ===== src/Tests/InferenceRuns.antt =====
-- Parameters, bodies and retries of concrete requests.
use batch_inference_console.Prelude.{
  ℕ, ◌≡◌, refl, true, false, none, some, [], ◌∷◌, codes, ltb, if◌then◌else◌,
}
use batch_inference_console.Prelude.Int.{pos}
use batch_inference_console.Json.{Json, Fields, int, str, obj, end, field, get}
use batch_inference_console.Inference.Params.{
  ModelConfig, Reasoning, resolve_params, build_request_body, fill_effort,
}
use batch_inference_console.Inference.Keys.{build_request_body-key}
use batch_inference_console.Inference.Caps.{value_of}
use batch_inference_console.Inference.Retry.{
  Reply, timeout, response, judge, complete, complete-exhausted,
}

-- `top_p` may be set, `seed` is forced, and at most 100 tokens may be asked for.
abbrev sample_model : ModelConfig
sample_model = record {
  model_name = codes "qwen-3";
  default_params = field "seed" (int (pos 1)) end;
  forced_params = field "seed" (int (pos 7)) end;
  allowed_param_keys = "top_p" ∷ "max_tokens" ∷ [];
  supports_system_prompt = true;
  supports_temperature = false;
  reasoning_mode = Reasoning.off;
  reasoning_payload = end;
  reasoning_off_payload = field "enable_thinking" (Json.bool false) end;
  reasoning_effort_options = [];
  reasoning_default_effort = [];
  max_tokens_cap = 100;
  body_marker = end;
}

abbrev asked : Fields
asked = field "seed" (int (pos 5)) (field "max_tokens" (int (pos 900)) end)

filled_effort :
    fill_effort (codes "1024") (obj (field "budget" (str (codes "$effort")) end))
    ≡ some (obj (field "budget" (int (pos 1024)) end))
unfolding fill_effort
filled_effort = refl

capped : value_of "max_tokens" (resolve_params sample_model asked) ≡ some (int (pos 100))
unfolding resolve_params
capped = refl

build_request_body-key_example :
    get "seed" (
      build_request_body sample_model
        (field "seed" (int (pos 3)) end)
        (field "seed" (int (pos 7)) end)
        [])
    ≡ int (pos 7)
build_request_body-key_example =
    build_request_body-key sample_model (field "seed" (int (pos 3)) end)
      (field "seed" (int (pos 7)) end) [] "seed" refl refl refl

-- The first request times out, and all later ones are refused with status 400.
abbrev refused_later : ℕ → Reply
refused_later i = if ltb i 2 then timeout else response 400 none

complete-exhausted_example : complete 1 (λ i. response 503 none) ≡ judge 2 (response 503 none)
unfolding judge
complete-exhausted_example = complete-exhausted (λ i. response 503 none) 1 (λ i low high. refl)
