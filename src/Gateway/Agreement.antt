-- ===== src/Gateway/Agreement.antt =====
-- `uses_key_passthrough` says of every model what `resolve_route` does with its key
-- (backend/app/services/gateway.py).
use batch_inference_console.Prelude.{
  true, ◌≡◌, refl, Option, none, some, [], Text, text_of, text_or, strip_slashes, if◌then◌else◌,
  arith,
}
use batch_inference_console.Gateway.Settings.{Rule, Runtime, Libraries}
use batch_inference_console.Gateway.Routes.{
  billing_mode, resolve_route, uses_key_passthrough, secret_or_empty, match_rule, apply_rule,
  rule_passthrough, decided_or,
}

module _ (lib : Libraries) where
  -- The key that is sent when the user's own is not passed through.
  abbrev pub platform_key : Runtime → Option Rule → Text
  platform_key runtime none = secret_or_empty lib runtime.inference_api_key_encrypted
  platform_key runtime (some rule) =
      if rule.billing_override
      then text_or (secret_or_empty lib rule.inference_api_key_encrypted) (
          if runtime.inference_key_passthrough
          then []
          else secret_or_empty lib runtime.inference_api_key_encrypted)
      else secret_or_empty lib runtime.inference_api_key_encrypted

  key_by_rule :
      (runtime : Runtime) (user_token base model_name : Text) (rule : Option Rule)
      → (apply_rule lib user_token
          (
            base,
            (if runtime.inference_key_passthrough
                then user_token
                else secret_or_empty lib runtime.inference_api_key_encrypted),
            model_name,
          )
          rule).1
        ≡ (if decided_or (rule_passthrough lib rule) runtime.inference_key_passthrough
            then user_token
            else platform_key runtime rule)
  unfolding apply_rule rule_passthrough
  key_by_rule runtime user_token base model_name none = refl
  key_by_rule runtime user_token base model_name (some rule) = ground arith

  -- In billing mode a request carries the user's key exactly when `uses_key_passthrough` says so,
  -- and else the platform's: the rule's if it opens, or the global one.
  pub passthrough_agrees :
      (runtime : Runtime) (model_name user_token : Text)
      → billing_mode runtime ≡ true
      → (resolve_route lib model_name runtime user_token).1 ≡ (
          if uses_key_passthrough lib model_name runtime
          then user_token
          else platform_key runtime (match_rule lib model_name runtime))
  unfolding resolve_route uses_key_passthrough
  passthrough_agrees runtime model_name user_token on = ground (
    arith,
    key_by_rule runtime user_token (strip_slashes (text_of runtime.inference_base_url)) model_name
        (match_rule lib model_name runtime),
  )
