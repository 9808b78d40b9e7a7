-- ===== src/Billing/Settle.antt =====
-- `rekey_failed`, `settle_job` and the orphan filter of `sweep` of backend/app/services/billing.py.
-- Each send has its own times and network; they are numbered from the first.
use batch_inference_console.Prelude.{
  ℕ, suc, ◌+◌, Bool, true, false, not, ◌&&◌, ◌||◌, Option, none, some, List, [], ◌∷◌, ◌++◌, Text,
  codes, text_eq, text_of, ◌==◌, leb, if◌then◌else◌,
}
use batch_inference_console.Models.{BillingRecord, BillingStatus}
use batch_inference_console.Database.{Schema, Db}
use batch_inference_console.Gateway.Settings.{Runtime, Libraries, decrypt_secret}
use batch_inference_console.Billing.Send.{Net, send, status_in}
use batch_inference_console.Billing.RequestId.{decimal}

abbrev pub soft_fail_limit : ℕ
soft_fail_limit = 5

abbrev pub of_job : ℕ → BillingRecord → Bool
of_job job_id r = elim (r.job_id) [ none ↦ false | some j ↦ j == job_id ]

abbrev pub is_failed : BillingStatus → Bool
is_failed BillingStatus.failed = true
is_failed _ = false

abbrev pub is_pending : BillingStatus → Bool
is_pending BillingStatus.pending = true
is_pending _ = false

-- `KEY_CODES | {"missing_key"}`
abbrev pub is_key_code : Text → Bool
is_key_code c =
    text_eq c (codes "invalid_key")
    || text_eq c (codes "key_unavailable")
    || text_eq c (codes "key_not_batch")
    || text_eq c (codes "model_not_allowed")
    || text_eq c (codes "insufficient_key_quota")
    || text_eq c (codes "missing_key")

abbrev pub has_key_code : Option Text → Bool
has_key_code none = false
has_key_code (some c) = is_key_code c

abbrev pub optional_eq : Option Text → Option Text → Bool
optional_eq none none = true
optional_eq (some s) (some t) = text_eq s t
optional_eq _ _ = false

-- The message of `describe` for the codes that it knows.
abbrev pub message_of : Text → Text → Option Text
message_of c model =
    if text_eq c (codes "insufficient_quota")
    then some (codes "个人网关余额或订阅额度不足，充值后点「继续」即可补扣并接着跑")
    else if text_eq c (codes "insufficient_key_quota")
    then some (codes "Key 本身的额度不足，请在个人网关调高该 Key 的额度后点「继续」")
    else if text_eq c (codes "key_unavailable")
    then some (codes "Key 已禁用、已过期或额度已用尽，请在个人网关处理后点「继续」")
    else if text_eq c (codes "invalid_key")
    then some (codes "Key 不存在，请在「新建任务」页重新填写 batch 分组的 Key 后点「继续」")
    else if text_eq c (codes "key_not_batch")
    then some (codes "Key 不属于 batch 分组，请换一个 batch 分组的 Key 后点「继续」")
    else if text_eq c (codes "model_not_allowed")
    then some (codes "Key 限制了可用模型、不包含模型 " ++ (model ++ codes "，请在个人网关放开限制后点「继续」"))
    else if text_eq c (codes "user_disabled")
    then some (codes "你的个人网关账号已被禁用")
    else if text_eq c (codes "batch_group_unavailable")
    then some (codes "你的个人网关账号不能使用 batch 分组，请联系网关管理员")
    else if text_eq c (codes "AUTH_UNAUTHORIZED")
    then some (codes "平台的计费令牌无效，请联系管理员")
    else if text_eq c (codes "ACCESS_TOKEN_SCOPE_DENIED")
    then some (codes "平台的计费令牌没有 batch_billing:write 权限，请联系管理员")
    else if text_eq c (codes "AUTH_INSUFFICIENT_PRIVILEGE")
    then some (codes "平台的计费令牌不是管理员令牌，请联系管理员")
    else if text_eq c (codes "model_price_error")
    then some (codes "个人网关没有给模型 " ++ (model ++ codes " 配置价格，请联系管理员"))
    else none

abbrev pub text_or_else : Option Text → Text → Text
text_or_else none d = d
text_or_else (some []) d = d
text_or_else (some (c ∷ s)) d = c ∷ s

unfoldable pub describe : Option Text → Option Text → Text → Text
describe code message model = elim (message_of (text_of code) model) [
  | some t ↦ t
  | none ↦ elim (text_of code) [
    | [] ↦ text_or_else message (codes "未知错误")
    | c ∷ s ↦ codes "计费接口拒绝（" ++ ((c ∷ s) ++ (codes "）：" ++ text_or_else message (codes "未知错误")))
  ]
]

-- The network and the two times of each send.
pub record Schedule : Type 0 where
  pub net : ℕ → Net
  pub now : ℕ → ℕ
  pub later : ℕ → ℕ

pub record SettleResult : Type 0 where
  pub sent : ℕ
  pub problem : Option Text

module _ (S : Schema) where
  -- The update of one record in `rekey_failed`; the count of changes is what it returns.
  unfoldable pub rekey : Libraries → ℕ → Option Text → BillingRecord → BillingRecord
  rekey lib job_id user_key r =
      if of_job job_id r
        && is_failed r.status
        && has_key_code r.error_code
        && not (optional_eq (decrypt_secret lib r.key_encrypted) (decrypt_secret lib user_key))
      then record r { key_encrypted = user_key }
      else r

  -- `rekey_failed`: all failed records of the job that a bad key stopped move to the user's key.
  unfoldable pub rekey_all : Libraries → ℕ → Option Text → List ℕ → Db S → Db S
  unfolding rekey
  rekey_all lib job_id user_key [] db = db
  rekey_all lib job_id user_key (id ∷ ids) db =
      rekey_all lib job_id user_key ids
        (record db { records = S.records.update id (rekey lib job_id user_key) db.records })

  abbrev pub is_rekeyable : ℕ → BillingRecord → Bool
  is_rekeyable job_id r = of_job job_id r && is_failed r.status && has_key_code r.error_code

  unfoldable pub rekey_failed : Libraries → ℕ → Option Text → Db S → Db S
  unfolding rekey_all
  rekey_failed lib job_id none db = db
  rekey_failed lib job_id (some []) db = db
  rekey_failed lib job_id (some (c ∷ s)) db =
      rekey_all lib job_id (some (c ∷ s)) (S.records.select (is_rekeyable job_id) db.records) db

  -- The loop of `settle_job`: it stops at the first record that is refused.
  unfoldable pub settle_ids :
      Schedule → Runtime → Bool → ℕ → List ℕ → SettleResult → Db S → Db S × SettleResult
  settle_ids sch runtime failed_too n [] out db = (db, out)
  settle_ids sch runtime failed_too n (id ∷ ids) out db =
      let (db', sent) = send S (sch.net n) runtime db id failed_too (sch.now n) (sch.later n) in
      elim sent [
        | none ↦ settle_ids sch runtime failed_too (suc n) ids out db'
        | some r ↦
            let out' = record out { sent = out.sent + 1 } in
            elim (is_failed r.status) [
              | true ↦ (
                db',
                record out' {
                  problem = some (codes "计费失败：" ++ describe r.error_code r.error r.model_name);
                },
              )
              | false ↦ settle_ids sch runtime failed_too (suc n) ids out' db'
            ]
      ]

  -- The records of a job that soft errors have kept waiting too often.
  abbrev pub is_stuck : ℕ → BillingRecord → Bool
  is_stuck job_id r = of_job job_id r && is_pending r.status && leb soft_fail_limit r.attempts

  stuck_message : Option BillingRecord → Text
  stuck_message none = []
  stuck_message (some r) =
      codes "计费接口连续 "
      ++ (decimal r.attempts
          ++ (codes " 次没有扣费成功（"
              ++ (text_or_else r.error (text_or_else r.error_code (codes "None"))
                  ++ codes "），已暂停任务，请稍后点「继续」重试")))

  -- The check after the loop: the first stuck record is reported.
  unfoldable pub report_stuck : Db S → SettleResult → List ℕ → Db S × SettleResult
  unfolding stuck_message
  report_stuck db out [] = (db, out)
  report_stuck db out (id ∷ ids) =
      (db, record out { problem = some (stuck_message (S.records.get id db.records)) })

  unfoldable pub check_stuck : ℕ → Db S × SettleResult → Db S × SettleResult
  unfolding report_stuck
  check_stuck job_id (db, out) = report_stuck db out (S.records.select (is_stuck job_id) db.records)

  -- A refusal returns at once; otherwise the stuck records are looked for.
  abbrev pub unless_problem : Option Text → ℕ → Db S × SettleResult → Db S × SettleResult
  unless_problem none job_id res = check_stuck job_id res
  unless_problem (some p) job_id res = res

  abbrev pub is_unsettled : ℕ → Bool → BillingRecord → Bool
  is_unsettled job_id failed_too r = of_job job_id r && status_in failed_too r.status

  -- Nothing to send returns at once.
  unfoldable pub settle_all : Schedule → Runtime → ℕ → Bool → List ℕ → Db S → Db S × SettleResult
  unfolding settle_ids check_stuck
  settle_all sch runtime job_id failed_too [] db = (db, record { sent = 0; problem = none })
  settle_all sch runtime job_id failed_too (id ∷ ids) db =
      let res =
        settle_ids sch runtime failed_too 0 (id ∷ ids) (record { sent = 0; problem = none }) db in
      unless_problem res.1.problem job_id res

  unfoldable pub settle_job : Schedule → Runtime → ℕ → Bool → Db S → Db S × SettleResult
  unfolding settle_all
  settle_job sch runtime job_id failed_too db =
      settle_all sch runtime job_id failed_too
        (S.records.select (is_unsettled job_id failed_too) db.records) db
