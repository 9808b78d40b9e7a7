-- ===== src/Lib.antt =====
-- Batch inference console: users upload files of chat requests, workers run them against models
-- and write the answers, and the use of personal gateways is billed. This library models the back
-- end (backend/app).
--
-- The parts and how they interact. A web handler (backend/app/api/jobs.py) writes the row of a
-- job and moves it in the Redis queue (backend/app/services/queue.py). A worker
-- (backend/app/worker/main.py) claims the first job that no limit and no pin bars, and its runner
-- (backend/app/worker/runner.py) reads the input file (backend/app/services/jsonl.py), builds
-- each request (backend/app/services/inference.py) and counts the answers. A pinned job drives
-- the others off its model (backend/app/services/pins.py). Use of a personal gateway
-- (backend/app/services/gateway.py) is cut into billing records, which are sent until they are
-- paid for or refused (backend/app/services/billing.py).
--
-- Foundations. Prelude: native numbers, texts as code points, lists, integers. Json: the values
-- that `json` reads, with the order of a dict. Models: the rows of backend/app/models.py. Table,
-- Database: what the code relies on of its database, as operations with laws, and tables held as
-- lists. Redis: the same for sorted sets, hashes and sets.
--
-- Billing models backend/app/services/billing.py: RequestId the idempotency key, Cut the cut of a
-- record (`cut`, `cut_before_change`, `rebase`), Charges and Interleaving what cuts add up to,
-- Outcome the reading of a reply (`post_billing`, `_backoff`), Send one delivery (`_claim`,
-- `send`), Settle the settlement of a job (`settle_job`), Delivery the laws of a delivery. In
-- Interleaving a session reads a row and commits against it later, while others cut and write; a
-- switch of the billing (`rebase`) is no step there.
--
-- Queue models backend/app/services/queue.py: Score the scores, State the keys and the Lua
-- scripts, Claims, Claimed and Leases their laws, Reorder, Sorted and Reordered the new order of
-- an administrator (`reorder`). Places is the queue as one sees it from outside, with a
-- specification of each call; Refinement and Kept set the calls against it. A script runs alone,
-- so it is a function of the keys. Gateway models backend/app/services/gateway.py: Settings,
-- Routes (`resolve_route`, `billing_config_error`), Agreement.
--
-- Jobs models the handlers of backend/app/api/jobs.py, backend/app/services/pins.py and the
-- writes of backend/app/worker/runner.py: Rows each write to a row, Handlers and Moves the
-- handlers on database and queue together, Races and Returns their laws, Arrange `reorder_queue`
-- and Arrangement its law. Worker models `_claim` of backend/app/worker/main.py and
-- backend/app/services/model_limits.py (Pick; Fair its law).
--
-- Runner models the run of a job in backend/app/worker/runner.py: Counters `_bump`, Dispatch the
-- events of `_dispatch` with its stops and the end of `run`. An event is the next turn of the
-- loop, the end of a task with the replies to its request, a task that returns because of the
-- stop, or the stop. Their order is free, as that of asyncio tasks is; the bound on tasks in
-- flight is a guard, and which of them hold the semaphore is left open. Occurrences, Distinct and
-- Ledger are what a run keeps, Outcome and Progress how it ends, Resumed how runs follow each
-- other over the result files. Prepare is `_flush_db` and the change of the billing in
-- `_prepare_billing`. Settings models backend/app/services/settings_store.py: Store `DEFAULTS`,
-- `read_runtime` and `write_runtime`, Merge what a write does. Projects models
-- backend/app/services/projects.py and parts of backend/app/api/projects.py: Store the projects,
-- Default and Race the default project.
--
-- Inference models backend/app/services/inference.py: Params the merging of parameters, Keys and
-- Caps which value wins, Retry the attempts of a request, Texts what is read from a body, Limiter
-- the rate limiter, Throughput and Waiting its laws. Jsonl models backend/app/services/jsonl.py:
-- Parse what is read from lines, Files the readers of a file, Validate the agreement of the check
-- at upload with the run. Storage models backend/app/services/storage.py (Quotas), the loop of
-- `upload_jsonl` of backend/app/api/jobs.py that receives a file (Upload, Uploaded), and
-- backend/app/services/retention.py (Retention the sweep, Cleared its law, Preview the preview).
-- Results models backend/app/services/results.py: Writer, Resume the scan of the files, Reported,
-- Recount and Rescan what a scan finds, Pages the readers, Slices their laws. Tests holds
-- concrete runs.
--
-- Bounds. Loops are recursion on lists, or on the number of attempts that are left (`max_retries
-- + 1`, as the source has it). Only the digits of a number n take fuel, n + 1 of it, which is
-- more than n has digits. Times are whole seconds, in the rate limiter milliseconds, and its
-- buckets count 60000ths of a token, so that no number is rounded; scores are exact numbers. The
-- source has doubles in these places. Rows have as many records as there are cuts; the counters
-- of the source are Python integers.
--
-- Not modelled: HTTP, SMTP, the file system, cryptography, fnmatch and JSON decoding, which are
-- parameters; logging, audit rows and the texts of some messages; the handlers that only list or
-- edit rows; the reply to an upload and the clearing of staged files; a request that never
-- returns from `acquire`, as every task that is in flight can end in Dispatch; the raw and the
-- CSV export; a task that is cancelled between the write of its result and its count.
pub mod Billing
pub mod Database
pub mod Gateway
pub mod Inference
pub mod Jobs
pub mod Json
pub mod Jsonl
pub mod Models
pub mod Prelude
pub mod Projects
pub mod Queue
pub mod Redis
pub mod Results
pub mod Runner
pub mod Settings
pub mod Storage
pub mod Table
pub mod Tests
pub mod Worker
