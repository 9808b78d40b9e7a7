-- ===== src/Tests/BillingRuns.antt =====
-- Cuts and their interleavings at concrete jobs.
use batch_inference_console.Prelude.{
  ℕ, zero, suc, ◌+◌, ◌≤◌, ◌≡◌, refl, none, some, codes, arith, max,
}
use batch_inference_console.Models.{Job}
use batch_inference_console.Table.{option_map}
use batch_inference_console.Database.{list_schema}
use batch_inference_console.Billing.RequestId.{request_id, request_id-injective}
use batch_inference_console.Billing.Cut.{cut, plan, commit, record_of, advance}
use batch_inference_console.Billing.Charges.{HasCut, cut_charges}
use batch_inference_console.Billing.Interleaving.{
  World, Steps, here, next, write, read, transact, Inv, KeepsBilling, never_overcharged,
  total_charged, billed, prompt_of, billed_of, put, has_read,
}
use batch_inference_console.Tests.Samples.{sample_job, sample_user, sample_db}

cut_first :
    (cut list_schema sample_db 0 none).1 ≡ some (record_of sample_job (some sample_user) none)
unfolding cut
cut_first = refl

request_id_text : request_id 255 12 ≡ codes "bic-000000000000000000000000000000ff-12"
unfolding request_id
request_id_text = refl

request_id-injective_example : ◌≡◌ {A = ℕ} 3 3 × ◌≡◌ {A = ℕ} 12 12
request_id-injective_example = request_id-injective 3 3 12 12 (omega arith) (omega arith) refl

cut_charges_example : HasCut list_schema sample_db 0 (cut list_schema sample_db 0 none)
cut_charges_example = cut_charges list_schema sample_db 0 none

-- The runner's write of new counters.
abbrev more : Job → Job
more r = record r { prompt_tokens = 150 }

more-KeepsBilling : KeepsBilling more
more-KeepsBilling = record { keeps_id = λ r. refl; keeps_billed = λ r. refl; keeps_seq = λ r. refl }

abbrev start : World list_schema
start = record { db = sample_db; reads = λ s. none; peak = λ j. 100 }

start-Inv : Inv list_schema start
start-Inv = record {
  keyed = keyed;
  usage_seen = usage_seen;
  billed_seen = billed_seen;
  read_id = λ s j job e. cc;
  read_fresh = λ s j job row e g. cc;
}
  where
    keyed : (j : ℕ) (row : Job) → list_schema.jobs.get j sample_db.jobs ≡ some row → row.id ≡ j
    keyed zero row e = cc
    keyed (suc j) row e = cc

    usage_seen : (j : ℕ) → prompt_of (list_schema.jobs.get j sample_db.jobs) ≤ 100
    usage_seen zero = omega arith
    usage_seen (suc j) = omega arith

    billed_seen : (j : ℕ) → billed_of (list_schema.jobs.get j sample_db.jobs) ≤ 100
    billed_seen zero = omega arith
    billed_seen (suc j) = omega arith

-- The counters grow to 150, sessions 1 and 2 both read the job, and both commit: the second finds
-- the sequence number moved and rolls back.
abbrev written : World list_schema
written = record start {
  db = record sample_db { jobs = list_schema.jobs.update 0 more sample_db.jobs };
  peak =
      put list_schema 0
        (max 100 (prompt_of (option_map more (list_schema.jobs.get 0 sample_db.jobs)))) start.peak;
}

abbrev read_by : ℕ → World list_schema → World list_schema
read_by session w = record w {
  reads = put list_schema session (has_read list_schema 0 (plan list_schema w.db 0)) w.reads;
}

abbrev seen_job : Job
seen_job = record sample_job { prompt_tokens = 150 }

abbrev committed_by : ℕ → World list_schema → World list_schema
committed_by session w = record w {
  db = (commit list_schema w.db 0 none seen_job).0;
  reads = put list_schema session none w.reads;
}

abbrev finish : World list_schema
finish = committed_by 2 (committed_by 1 (read_by 2 (read_by 1 written)))

run_to_finish : Steps list_schema start finish
unfolding plan commit
run_to_finish =
    next
      (next
        (next (next (next here (write start 0 more more-KeepsBilling)) (read written 1 0))
          (read (read_by 1 written) 2 0))
        (transact (read_by 2 (read_by 1 written)) 1 0 seen_job none refl))
      (transact (committed_by 1 (read_by 2 (read_by 1 written))) 2 0 seen_job none refl)

finish_charged : total_charged list_schema 0 finish ≡ 150
unfolding plan commit record_of advance
finish_charged = refl

never_overcharged_example :
    (total_charged list_schema 0 finish + 0 ≡ 0 + billed list_schema 0 finish)
    × (billed list_schema 0 finish ≤ finish.peak 0)
    × (total_charged list_schema 0 finish + 0 ≤ 0 + finish.peak 0)
never_overcharged_example = never_overcharged list_schema 0 run_to_finish start-Inv
