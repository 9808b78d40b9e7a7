-- ===== src/Gateway/Routes.antt =====
-- `inference_endpoint`, `billing_endpoint`, `match_rule`, `resolve_route` and their companions of
-- backend/app/services/gateway.py.
use batch_inference_console.Prelude.{
  Bool, true, false, not, ◌&&◌, ◌||◌, Option, none, some, List, [], ◌∷◌, Text, codes, text_of,
  text_or, strip, strip_slashes, is_empty, if◌then◌else◌,
}
use batch_inference_console.Gateway.Settings.{Rule, Runtime, Libraries, decrypt_secret}

unfoldable pub billing_mode : Runtime → Bool
billing_mode runtime = runtime.billing_enabled

abbrev pub overrides : Option Rule → Bool
overrides none = false
overrides (some rule) = rule.billing_override

abbrev pub decided_or : Option Bool → Bool → Bool
decided_or none d = d
decided_or (some b) d = b

abbrev pub has_text : Option Text → Bool
has_text s = not (is_empty (text_of s))

abbrev pub rule_key_stored : Option Rule → Bool
rule_key_stored none = false
rule_key_stored (some rule) = rule.billing_override && has_text rule.inference_api_key_encrypted

module _ (lib : Libraries) where
  -- `decrypt_secret(x or "") or ""`
  unfoldable pub secret_or_empty : Option Text → Text
  secret_or_empty s = text_of (decrypt_secret lib s)

  unfoldable pub inference_endpoint : Runtime → Text → Text × Text
  unfolding billing_mode secret_or_empty
  inference_endpoint runtime user_token =
      if billing_mode runtime
      then (
        strip_slashes (text_of runtime.inference_base_url),
        if runtime.inference_key_passthrough
            then user_token
            else secret_or_empty runtime.inference_api_key_encrypted,
      )
      else (strip_slashes (text_or (text_of runtime.base_url) runtime.default_base_url), user_token)

  unfoldable pub billing_endpoint : Runtime → Text × Text
  unfolding secret_or_empty
  billing_endpoint runtime =
      if runtime.billing_key_passthrough
      then (strip (text_of runtime.billing_url), [])
      else (strip (text_of runtime.billing_url), secret_or_empty runtime.billing_token_encrypted)

  unfoldable pub billing_auth : Runtime → Text → Text
  unfolding billing_endpoint
  billing_auth runtime user_key =
      if runtime.billing_key_passthrough then user_key else (billing_endpoint runtime).1

  unfoldable pub billing_endpoint_error : Runtime → Option Text
  unfolding billing_endpoint
  billing_endpoint_error runtime =
      let (url, token) = billing_endpoint runtime in
      if is_empty url
      then some (codes "管理员尚未配置个人网关的计费接口地址")
      else if is_empty token && not runtime.billing_key_passthrough
      then some (codes "管理员尚未配置计费接口的访问令牌，或令牌无法解密")
      else none

  -- The first rule whose pattern is not empty and fits the name.
  unfoldable pub match_from : Text → List Rule → Option Rule
  match_from model_name [] = none
  match_from model_name (rule ∷ rules) =
      if not (is_empty rule.pattern) && lib.fnmatch model_name rule.pattern
      then some rule
      else match_from model_name rules

  unfoldable pub match_rule : Text → Runtime → Option Rule
  unfolding match_from
  match_rule model_name runtime = match_from model_name runtime.rules

  unfoldable pub billing_applies : Text → Runtime → Bool
  unfolding billing_mode match_rule
  billing_applies model_name runtime =
      if not (billing_mode runtime)
      then false
      else if not runtime.billing_only_matched
      then true
      else overrides (match_rule model_name runtime)

  -- What a matching rule changes of the address, the key and the model name.
  unfoldable pub apply_rule : Text → Text × Text × Text → Option Rule → Text × Text × Text
  unfolding secret_or_empty
  apply_rule user_token (base, key, upstream) none = (base, key, upstream)
  apply_rule user_token (base, key, upstream) (some rule) =
      if rule.billing_override
      then (
        text_or (strip_slashes (text_of rule.inference_base_url)) base,
        if rule.inference_key_passthrough
            then user_token
            else text_or (secret_or_empty rule.inference_api_key_encrypted) key,
        text_or (strip (text_of rule.upstream_model)) upstream,
      )
      else (base, key, upstream)

  unfoldable pub resolve_route : Text → Runtime → Text → Text × Text × Text
  unfolding inference_endpoint billing_mode match_rule apply_rule
  resolve_route model_name runtime user_token =
      let (base, key) = inference_endpoint runtime user_token in
      if not (billing_mode runtime)
      then (base, key, model_name)
      else apply_rule user_token (base, key, model_name) (match_rule model_name runtime)

  -- The rule's part of `uses_key_passthrough`; `none` where the global setting decides.
  unfoldable pub rule_passthrough : Option Rule → Option Bool
  unfolding secret_or_empty
  rule_passthrough none = none
  rule_passthrough (some rule) =
      if rule.billing_override
      then (if rule.inference_key_passthrough
          then some true
          else if is_empty (secret_or_empty rule.inference_api_key_encrypted)
          then none
          else some false)
      else none

  unfoldable pub uses_key_passthrough : Text → Runtime → Bool
  unfolding billing_mode match_rule rule_passthrough
  uses_key_passthrough model_name runtime =
      if not (billing_mode runtime)
      then false
      else decided_or (rule_passthrough (match_rule model_name runtime))
          runtime.inference_key_passthrough

  -- `billing_config_error` for a job's model. The user's key is not empty.
  unfoldable pub billing_config_error : Runtime → Text → Option Text
  unfolding resolve_route match_rule billing_applies billing_endpoint_error
  billing_config_error runtime model_name =
      let (base, key, upstream) = resolve_route model_name runtime (codes "<user-key>") in
      if is_empty base
      then some (codes "管理员尚未配置个人网关的推理接口地址")
      else if (rule_key_stored (match_rule model_name runtime)
            || has_text runtime.inference_api_key_encrypted)
          && is_empty key
      then some (codes "推理接口 API Key 无法解密（SECRET_KEY 可能已变更），请管理员重新填写")
      else if not (billing_applies model_name runtime)
      then none
      else billing_endpoint_error runtime
