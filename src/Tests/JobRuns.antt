-- ===== src/Tests/JobRuns.antt =====
-- Cancels, returns to the queue and claims on a concrete site.
use batch_inference_console.Prelude.{List, ◌≡◌, refl, true, none, some, [], ◌∷◌, codes}
use batch_inference_console.Prelude.Int.{pos}
use batch_inference_console.Models.{Job, JobStatus}
use batch_inference_console.Database.{list_schema}
use batch_inference_console.Redis.Lists.{list_redis}
use batch_inference_console.Queue.State.{Keys, Signal}
use batch_inference_console.Jobs.Arrange.{reorder_queue}
use batch_inference_console.Jobs.Arrangement.{ArrangedOr, reorder_queue-ArrangedOr}
use batch_inference_console.Jobs.Handlers.{World, Site, cancel_job}
use batch_inference_console.Jobs.Moves.{requeue_preempted}
use batch_inference_console.Jobs.Races.{
  IsWithdrawn, cancel_job-IsWithdrawn, cancel_job-lost, status_of, then_marked,
}
use batch_inference_console.Jobs.Returns.{IsSettled, requeue_preempted-IsSettled}
use batch_inference_console.Worker.Pick.{LimitRule}
use batch_inference_console.Tests.Samples.{sample_job}

abbrev quiet_world : World
quiet_world = record {
  now = 3000;
  live_completed = 0;
  live_failed = 0;
  last_seen = λ worker. some none;
  input_exists = λ path. true;
  shared_model_name = λ id. none;
}

abbrev waiting_job : Job
waiting_job = record sample_job { status = JobStatus.queued }

abbrev sample_keys : Keys list_redis
sample_keys = record {
  queue = (0, pos 100) ∷ [];
  leases = [];
  owner = [];
  job_model = [];
  model_running = λ name. [];
  ctrl = (0, Signal.pause) ∷ [];
}

abbrev sample_site : Site list_schema list_redis
sample_site = record {
  db = record { jobs = waiting_job ∷ []; users = []; records = [] };
  keys = sample_keys;
}

cancel_job-IsWithdrawn_example :
    IsWithdrawn list_schema list_redis 0
      (cancel_job list_schema list_redis quiet_world 0 sample_site).0
cancel_job-IsWithdrawn_example =
    cancel_job-IsWithdrawn list_schema list_redis quiet_world 0 sample_site waiting_job refl refl

requeue_preempted-IsSettled_example :
    IsSettled list_schema list_redis quiet_world 0 waiting_job
      (some Signal.pause)
      sample_site
      (requeue_preempted list_schema list_redis quiet_world 0 sample_site)
requeue_preempted-IsSettled_example =
    requeue_preempted-IsSettled list_schema list_redis quiet_world 0 waiting_job sample_site refl
      refl

cancel_job-lost_example :
    (status_of list_schema list_redis 0
        (cancel_job list_schema list_redis quiet_world 0 sample_site).0
      ≡ some JobStatus.canceled)
    × (status_of list_schema list_redis 0 (
          then_marked list_schema list_redis
            (codes "w1")
            3001
            0
            0
            0
            (cancel_job list_schema list_redis quiet_world 0 sample_site).0)
        ≡ some JobStatus.running)
    × (list_redis.hget 0
          (then_marked list_schema list_redis
            (codes "w1")
            3001
            0
            0
            0
            (cancel_job list_schema list_redis quiet_world 0 sample_site).0).keys.ctrl
        ≡ none)
cancel_job-lost_example =
    cancel_job-lost list_schema list_redis quiet_world 0 sample_site waiting_job (codes "w1") 3001 0
      0 refl refl

reorder_queue-ArrangedOr_example :
    ArrangedOr list_schema list_redis sample_site
      (0 ∷ [])
      (reorder_queue list_schema list_redis sample_site (0 ∷ []))
reorder_queue-ArrangedOr_example =
    reorder_queue-ArrangedOr list_schema list_redis sample_site (0 ∷ []) (refl, tt)

-- At most two jobs at a time on any model.
abbrev two_each : List LimitRule
two_each = record { pattern = codes "*"; max_running_jobs = pos 2 } ∷ []
