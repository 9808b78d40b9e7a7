-- ===== src/Tests/GatewayRuns.antt =====
-- Routes of requests under concrete settings.
use batch_inference_console.Prelude.{◌≡◌, refl, true, false, none, some, [], ◌∷◌, codes}
use batch_inference_console.Gateway.Settings.{Rule, Runtime, Libraries}
use batch_inference_console.Gateway.Routes.{resolve_route, billing_mode, uses_key_passthrough}
use batch_inference_console.Gateway.Agreement.{passthrough_agrees}

abbrev sample_lib : Libraries
sample_lib = record { fnmatch = λ name pattern. true; fernet = λ s. some (codes "sk-platform") }

abbrev sample_rule : Rule
sample_rule = record {
  pattern = codes "qwen*";
  billing_override = true;
  inference_base_url = some (codes "https://qwen/v1/");
  inference_key_passthrough = true;
  inference_api_key_encrypted = none;
  upstream_model = some (codes "qwen-3");
}

abbrev rule_runtime : Runtime
rule_runtime = record {
  billing_enabled = true;
  billing_only_matched = true;
  inference_key_passthrough = false;
  inference_api_key_encrypted = some (codes "enc");
  inference_base_url = some (codes "https://infer/v1");
  base_url = none;
  default_base_url = codes "https://gw/v1";
  billing_key_passthrough = false;
  billing_token_encrypted = some (codes "enc");
  billing_url = some (codes "https://gw/api/batch/billing");
  billing_interval = none;
  rules = sample_rule ∷ [];
}

route_of_rule :
    resolve_route sample_lib (codes "qwen-max") rule_runtime (codes "sk-user")
    ≡ (codes "https://qwen/v1", codes "sk-user", codes "qwen-3")
unfolding resolve_route
route_of_rule = refl

passthrough_agrees_example :
    (resolve_route sample_lib (codes "qwen-max") rule_runtime (codes "sk-user")).1 ≡ codes "sk-user"
unfolding resolve_route billing_mode uses_key_passthrough
passthrough_agrees_example =
    passthrough_agrees sample_lib rule_runtime (codes "qwen-max") (codes "sk-user") refl
