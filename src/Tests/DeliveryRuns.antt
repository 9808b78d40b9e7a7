-- ===== src/Tests/DeliveryRuns.antt =====
-- Claims, deliveries and settlements at concrete records.
use batch_inference_console.Prelude.{◌≡◌, true, false, none, some, [], ◌∷◌, codes, arith}
use batch_inference_console.Prelude.Int.{pos}
use batch_inference_console.Json.{int, obj, bool, end, field}
use batch_inference_console.Models.{BillingStatus}
use batch_inference_console.Database.{Db, list_schema}
use batch_inference_console.Gateway.Settings.{Runtime}
use batch_inference_console.Billing.Outcome.{Reply, response}
use batch_inference_console.Billing.Send.{Net, claim, deliver, send}
use batch_inference_console.Billing.Delivery.{
  Call, send_each, claim_excludes, HasSent, send_delivers,
}
use batch_inference_console.Billing.Settle.{Schedule}
use batch_inference_console.Tests.Samples.{sample_record, record_db}

abbrev paid_reply : Reply
paid_reply = response 200 (codes "ok") (
    some (
      obj (field "success" (bool true) (field "data" (obj (field "quota" (int (pos 7)) end)) end))))

abbrev sample_net : Net
sample_net = record {
  lib = record { fnmatch = λ name pattern. true; fernet = λ s. some (codes "sk-user") };
  repr = λ v. [];
  post = λ url token payload. paid_reply;
}

abbrev sample_runtime : Runtime
sample_runtime = record {
  billing_enabled = true;
  billing_only_matched = false;
  inference_key_passthrough = false;
  inference_api_key_encrypted = some (codes "enc2");
  inference_base_url = some (codes "https://infer/v1/");
  base_url = none;
  default_base_url = codes "https://gw/v1";
  billing_key_passthrough = false;
  billing_token_encrypted = some (codes "enc3");
  billing_url = some (codes "https://gw/api/batch/billing");
  billing_interval = none;
  rules = [];
}

abbrev sample_schedule : Schedule
sample_schedule = record { net = λ n. sample_net; now = λ n. 1000; later = λ n. 1001 }

-- Another worker, which asks for failed records too, starts a second before the two minutes end.
abbrev rival : Call list_schema
rival = record {
  net = sample_net;
  runtime = sample_runtime;
  failed_too = true;
  now = 1119;
  later = 1121;
}

claim_excludes_example :
    deliver list_schema sample_net sample_runtime
      (send_each list_schema 0 (rival ∷ []) (claim list_schema record_db 0 false 1000).0)
      0
      1003
      (list_schema.records.get 0
        (send_each list_schema 0 (rival ∷ []) (claim list_schema record_db 0 false 1000).0).records)
    ≡ send list_schema sample_net sample_runtime record_db 0 false 1000 1003
unfolding claim
claim_excludes_example =
    claim_excludes list_schema sample_net sample_runtime record_db 0 false 1000 1003 (rival ∷ [])
      (omega arith, tt)

abbrev paid_db : Db list_schema
paid_db = record record_db {
  records = (record sample_record { status = BillingStatus.succeeded }) ∷ [];
}

send_delivers_example :
    HasSent list_schema record_db 0 false 1000 1001
      (send list_schema sample_net sample_runtime record_db 0 false 1000 1001)
send_delivers_example =
    send_delivers list_schema sample_net sample_runtime record_db 0 false 1000 1001
