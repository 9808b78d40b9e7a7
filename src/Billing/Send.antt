-- ===== src/Billing/Send.antt =====
-- `_claim` and `send` of backend/app/services/billing.py. A record is claimed in one transaction,
-- sent, and its result is saved in another. What the gateway replies is a parameter.
use batch_inference_console.Prelude.{
  ℕ, ◌+◌, Bool, true, false, not, ◌&&◌, ◌||◌, Option, none, some, Text, codes, text_of, is_empty,
  take, leb, if◌then◌else◌, [],
}
use batch_inference_console.Json.{Json, Fields, end, get, int_of, truthy, json_or, str}
use batch_inference_console.Models.{BillingRecord, BillingStatus}
use batch_inference_console.Table.{holds}
use batch_inference_console.Database.{Schema, Db}
use batch_inference_console.Gateway.Settings.{Runtime, Libraries, decrypt_secret}
use batch_inference_console.Gateway.Routes.{billing_endpoint, billing_auth}
use batch_inference_console.Billing.Outcome.{
  Reply, Outcome, post_billing, build_payload, backoff, text_of_json, some_text,
}

abbrev pub in_flight_seconds : ℕ
in_flight_seconds = 120

-- `BillingRecord.status.in_(statuses)`
abbrev pub status_in : Bool → BillingStatus → Bool
status_in include_failed BillingStatus.pending = true
status_in include_failed BillingStatus.failed = include_failed
status_in include_failed BillingStatus.succeeded = false

-- `next_attempt_at IS NULL OR next_attempt_at <= now`
abbrev pub is_time : Option ℕ → ℕ → Bool
is_time none now = true
is_time (some t) now = leb t now

-- The `WHERE` of `_claim`, but for the id.
abbrev pub can_claim : Bool → ℕ → BillingRecord → Bool
can_claim include_failed now r = status_in include_failed r.status && is_time r.next_attempt_at now

unfoldable pub claimed : ℕ → BillingRecord → BillingRecord
claimed now r = record r {
  status = BillingStatus.pending;
  next_attempt_at = some (now + in_flight_seconds);
}

-- What is asked of the gateway's libraries and of the network.
pub record Net : Type 0 where
  pub lib : Libraries
  pub repr : Json → Text
  -- the reply to a payload, posted to an address under a token
  pub post : Text → Text → Fields → Reply

-- The part of `send` between the claim and the save.
unfoldable pub outcome_of : Net → Runtime → BillingRecord → Outcome
outcome_of net runtime r =
    let url = (billing_endpoint net.lib runtime).0 in
    let key = text_of (decrypt_secret net.lib r.key_encrypted) in
    let token = billing_auth net.lib runtime key in
    if is_empty url || (is_empty token && not (is_empty key))
    then record {
      ok = false;
      retriable = true;
      code = some (codes "not_configured");
      message = some (codes "计费接口未配置");
      reply = end;
    }
    else if is_empty key
    then record {
      ok = false;
      retriable = false;
      code = some (codes "missing_key");
      message = some (codes "找不到可用的 batch Key —— 可能已被清除，或平台 SECRET_KEY 已变更");
      reply = end;
    }
    else post_billing net.repr (net.post url token (build_payload r key))

-- What `send` writes into the record, by the outcome.
unfoldable pub save_outcome : (Json → Text) → ℕ → Outcome → BillingRecord → BillingRecord
save_outcome repr now out r =
    if out.ok
    then record r {
      attempts = r.attempts + 1;
      status = BillingStatus.succeeded;
      quota = int_of (get "quota" out.reply);
      billing_source =
          some_text
            (take 32 (text_of_json repr (json_or (get "billing_source" out.reply) (str []))));
      duplicate = truthy (get "duplicate" out.reply);
      billed_at = some now;
      next_attempt_at = none;
      error_code = none;
      error = none;
    }
    else if out.retriable
    then record r {
      attempts = r.attempts + 1;
      status = BillingStatus.pending;
      next_attempt_at = some (now + backoff (r.attempts + 1));
      error_code = out.code;
      error = out.message;
    }
    else record r {
      attempts = r.attempts + 1;
      status = BillingStatus.failed;
      next_attempt_at = none;
      error_code = out.code;
      error = out.message;
    }

module _ (S : Schema) where
  -- `_claim`: whether the `UPDATE` matched the record.
  unfoldable pub claim : Db S → ℕ → Bool → ℕ → Db S × Bool
  unfolding claimed
  claim db id include_failed now =
      if holds (can_claim include_failed now) (S.records.get id db.records)
      then (record db { records = S.records.update id (claimed now) db.records }, true)
      else (db, false)

  -- `send` after the claim, from the record as it was read.
  unfoldable pub deliver :
      Net → Runtime → Db S → ℕ → ℕ → Option BillingRecord → Db S × Option BillingRecord
  unfolding outcome_of save_outcome
  deliver net runtime db id now none = (db, none)
  deliver net runtime db id now (some r) =
      let save = save_outcome net.repr now (outcome_of net runtime r) in
      (record db { records = S.records.update id save db.records }, some (save r))

  -- `now` is the time of the claim, `later` the time when the reply has come.
  unfoldable pub send : Net → Runtime → Db S → ℕ → Bool → ℕ → ℕ → Db S × Option BillingRecord
  unfolding claim deliver
  send net runtime db id include_failed now later =
      let (db', taken) = claim db id include_failed now in
      if taken then deliver net runtime db' id later (S.records.get id db'.records) else (db', none)
