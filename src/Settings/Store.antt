-- ===== src/Settings/Store.antt =====
-- `DEFAULTS`, `read_runtime` and `write_runtime` of backend/app/services/settings_store.py. The row of the
-- table holds a JSON dict, or null; there may be no row.
use batch_inference_console.Prelude.{ℕ, true, false, Option, some, [], ◌++◌, codes}
use batch_inference_console.Prelude.Int.{pos}
use batch_inference_console.Json.{
  Fields, bool, int, str, arr, obj, nil, end, field, put, update, keep, has_key,
}

-- The settings that come from the environment.
pub record Environment : Type 0 where
  pub max_upload_mb : ℕ
  pub max_items_per_job : ℕ

unfoldable pub defaults : Fields
defaults = field "allow_new_jobs" (bool true) (
    field "default_priority" (int (pos 100)) (
      field "announcement" (str []) (
        field "user_gateway_enabled" (bool false) (
          field "user_gateway_base_url" (str []) (
            field "user_gateway_label" (str (codes "个人网关")) (
              field "user_gateway_max_concurrency" (int (pos 4)) (
                field "user_gateway_timeout" (int (pos 300)) (
                  field "user_gateway_max_retries" (int (pos 3)) (
                    field "user_gateway_max_tokens_cap" (int (pos 0)) (
                      field "user_gateway_reasoning_enabled" (bool true) (
                        field "user_gateway_reasoning_payload"
                          (obj (field "enable_thinking" (bool true) end))
                          (field "user_gateway_reasoning_effort_options" (arr nil) (
                            field "user_gateway_reasoning_default_effort" (str []) (
                              field "user_gateway_reasoning_rules" (arr nil) (
                                field "user_gateway_billing_enabled" (bool false) (
                                  field "user_gateway_inference_base_url" (str []) (
                                    field "user_gateway_inference_api_key_encrypted" (str []) (
                                      field "user_gateway_billing_url" (str []) (
                                        field "user_gateway_billing_token_encrypted" (str []) (
                                          field "user_gateway_billing_interval" (int (pos 60)) (
                                            field "user_gateway_inference_key_passthrough"
                                              (bool false)
                                              (field "user_gateway_billing_key_passthrough"
                                                (bool false)
                                                (field "user_gateway_passthrough_marker"
                                                  (obj (field "batch" (bool true) end))
                                                  (field "user_gateway_billing_only_matched"
                                                    (bool false)
                                                    (field "user_gateway_billing_require_batch_key"
                                                      (bool false)
                                                      (field "user_gateway_key_check_model" (str [])
                                                        (field "model_job_limits" (arr nil) (
                                                          field "file_retention_days" (int (pos 0))
                                                            (field "purge_input_files" (bool true) (
                                                            field "stale_upload_hours"
                                                            (int (pos 24))
                                                            (field "max_total_storage_gb"
                                                            (int (pos 0))
                                                            (field "default_user_storage_gb"
                                                            (int (pos 0))
                                                            (field "smtp_enabled" (bool false) (
                                                            field "smtp_host" (str []) (
                                                            field "smtp_port" (int (pos 587)) (
                                                            field "smtp_username" (str []) (
                                                            field "smtp_password_encrypted" (str [])
                                                            (field "smtp_security"
                                                            (str (codes "starttls"))
                                                            (field "smtp_from" (str []) (
                                                            field "smtp_from_name"
                                                            (str (codes "批量推理平台"))
                                                            (field "smtp_timeout" (int (pos 20)) (
                                                            field "notify_on_success" (bool true) (
                                                            field "notify_on_failure" (bool true) (
                                                            field "notify_on_canceled" (bool false)
                                                            (field "notify_min_items" (int (pos 0))
                                                            (field "mail_html" (bool false) (
                                                            field "mail_subject_template"
                                                            (str (
                                                            codes
                                                            "[批量推理] {{job_name}} {{status_label}}"))
                                                            (field "mail_body_template"
                                                            (str (
                                                            codes "你好 {{username}}：\n"
                                                            ++ codes "\n"
                                                            ++ codes
                                                            "任务「{{job_name}}」{{status_label}}。\n"
                                                            ++ codes "\n"
                                                            ++ codes "  模型：{{model}}\n"
                                                            ++ codes
                                                            "  进度：成功 {{completed}} / 失败 {{failed}} / 共 {{total}}\n"
                                                            ++ codes "  耗时：{{duration}}\n"
                                                            ++ codes "  消耗 tokens：{{tokens}}\n"
                                                            ++ codes "{{error_block}}\n"
                                                            ++ codes "查看详情：{{job_url}}\n"
                                                            ++ codes "\n"
                                                            ++ codes
                                                            "—— 本邮件由批量推理平台自动发送，如需关闭请在「个人设置」中取消勾选。\n"))
                                                            end)))))))))))))))))))))))))))))))))))))
                                                            )))))))))))

-- `dict(row.value or {}) if row else {}`
abbrev pub stored_of : Option (Option Fields) → Fields
stored_of (some (some value)) = value
stored_of _ = end

unfoldable pub read_runtime : Environment → Option (Option Fields) → Fields
unfolding defaults
read_runtime env row =
    put "max_items_per_job" (int (pos env.max_items_per_job))
      (put "max_upload_mb" (int (pos env.max_upload_mb)) (update defaults (stored_of row)))

-- The new row, which is there in any case, and the settings that it gives.
unfoldable pub write_runtime :
    Environment → Option (Option Fields) → Fields → Option (Option Fields) × Fields
unfolding read_runtime defaults
write_runtime env row changes =
    let row' = some (some (update (stored_of row) (keep (λ k. has_key k defaults) changes))) in
    (row', read_runtime env row')
