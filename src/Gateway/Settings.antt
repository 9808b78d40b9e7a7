-- ===== src/Gateway/Settings.antt =====
-- The runtime settings that backend/app/services/gateway.py reads (backend/app/services/
-- settings_store.py keeps them), and `decrypt_secret` of backend/app/core/security.py. A setting
-- that is missing or null is `none`. Patterns are matched by Python's `fnmatch`, and ciphertexts
-- are opened by Fernet under the platform's key; both are parameters.
use batch_inference_console.Prelude.{ℕ, Bool, Option, none, some, List, [], ◌∷◌, Text}

-- one entry of `user_gateway_reasoning_rules`
pub record Rule : Type 0 where
  pub pattern : Text
  pub billing_override : Bool
  pub inference_base_url : Option Text
  pub inference_key_passthrough : Bool
  pub inference_api_key_encrypted : Option Text
  pub upstream_model : Option Text

pub record Runtime : Type 0 where
  pub billing_enabled : Bool
  pub billing_only_matched : Bool
  pub inference_key_passthrough : Bool
  pub inference_api_key_encrypted : Option Text
  pub inference_base_url : Option Text
  pub base_url : Option Text
  pub default_base_url : Text
  pub billing_key_passthrough : Bool
  pub billing_token_encrypted : Option Text
  pub billing_url : Option Text
  pub billing_interval : Option ℕ
  pub rules : List Rule

-- `fnmatch(name, pattern)`; `Fernet.decrypt`, which fails on a token of another key.
pub record Libraries : Type 0 where
  pub fnmatch : Text → Text → Bool
  pub fernet : Text → Option Text

module _ (lib : Libraries) where
  unfoldable pub decrypt_secret : Option Text → Option Text
  decrypt_secret none = none
  decrypt_secret (some []) = none
  decrypt_secret (some (c ∷ s)) = lib.fernet (c ∷ s)
