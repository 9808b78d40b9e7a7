-- ===== src/Billing/Interleaving.antt =====
-- Many sessions cut the same jobs at once (backend/app/services/billing.py `cut`, run by the API,
-- the runners and every worker's sweep). A session reads the job (`plan`) and later commits what it
-- read; between the two other sessions read, cut and write. A switch of the billing of a job (`rebase`)
-- moves its billed counters without a record, so it is no step here: the steps are what happens between
-- two switches.
use batch_inference_console.Prelude.{
  ℕ, ◌+◌, ◌≤◌, ◌≡◌, ◌≢◌, refl, sym, ◌∙◌, Bool, false, Option, none, some, Text, ◌==◌, ==_eq, max,
  if◌then◌else◌, inl, inr, Option-cases, Bool-cases, arith, ◌⊎◌,
}
use batch_inference_console.Models.{Job, BillingRecord}
use batch_inference_console.Table.{option_map}
use batch_inference_console.Database.{Schema, Db}
use batch_inference_console.Billing.Cut.{
  plan, commit, record_of, advance, has_unbilled, plan_job, is_current,
}

-- The tokens that a record charges to a job.
abbrev pub is_of : ℕ → Option ℕ → Bool
is_of k none = false
is_of k (some j) = j == k

abbrev pub charged : ℕ → BillingRecord → ℕ
charged k r = if is_of k r.job_id then r.prompt_tokens else 0

-- What the other writes to a job leave alone, all but a switch of its billing: the billed counter and
-- the sequence number.
pub record KeepsBilling (f : Job → Job) : Type 0 where
  pub keeps_id : (r : Job) → (f r).id ≡ r.id
  pub keeps_billed : (r : Job) → (f r).billed_prompt_tokens ≡ r.billed_prompt_tokens
  pub keeps_seq : (r : Job) → (f r).billing_seq ≡ r.billing_seq

abbrev pub prompt_of : Option Job → ℕ
prompt_of none = 0
prompt_of (some r) = r.prompt_tokens

abbrev pub billed_of : Option Job → ℕ
billed_of none = 0
billed_of (some r) = r.billed_prompt_tokens

module _ (S : Schema) where
  -- The database, what each session has read and not yet committed, and the highest usage that a
  -- job was ever seen to have.
  pub record World : Type 0 where
    pub db : Db S
    pub reads : ℕ → Option (ℕ × Job)
    pub peak : ℕ → ℕ

  abbrev pub put {ℓ} : {A : Type ℓ} → ℕ → A → (ℕ → A) → ℕ → A
  put k v f j = if j == k then v else f j

  abbrev pub has_read : ℕ → Option Job → Option (ℕ × Job)
  has_read k none = none
  has_read k (some job) = some (k, job)

  -- A write to job `k` by a runner or a handler that switches no billing; a session's read; its commit.
  pub data Step : World → World → Type 0 where
    write :
        (w : World) (k : ℕ) (f : Job → Job)
        → KeepsBilling f
        → Step w (record w {
          db = record (w.db) { jobs = S.jobs.update k f w.db.jobs };
          peak = put k (max (w.peak k) (prompt_of (option_map f (S.jobs.get k w.db.jobs)))) w.peak;
        })
    read :
        (w : World) (session k : ℕ)
        → Step w (record w { reads = put session (has_read k (plan S w.db k)) w.reads })
    transact :
        (w : World) (session k : ℕ) (job : Job) (memo : Option Text)
        → w.reads session ≡ some (k, job)
        → Step w (record w { db = (commit S w.db k memo job).0; reads = put session none w.reads })

  pub data Steps (w : World) : World → Type 0 where
    here : Steps w w
    next : {v u : World} → Steps w v → Step v u → Steps w u

  -- What holds at every moment: a read is never ahead of its row, and at the same sequence number
  -- it shows the same billed counter.
  pub record Inv (w : World) : Type 0 where
    pub keyed : (j : ℕ) (row : Job) → S.jobs.get j w.db.jobs ≡ some row → row.id ≡ j
    pub usage_seen : (j : ℕ) → prompt_of (S.jobs.get j w.db.jobs) ≤ w.peak j
    pub billed_seen : (j : ℕ) → billed_of (S.jobs.get j w.db.jobs) ≤ w.peak j
    pub read_id :
        (s j : ℕ) (job : Job)
        → w.reads s ≡ some (j, job)
        → (job.id ≡ j) × (job.prompt_tokens ≤ w.peak j)
    pub read_fresh :
        (s j : ℕ) (job row : Job)
        → w.reads s ≡ some (j, job)
        → S.jobs.get j w.db.jobs ≡ some row
        → (job.billing_seq ≤ row.billing_seq)
          × (job.billing_seq ≡ row.billing_seq
              → job.billed_prompt_tokens ≡ row.billed_prompt_tokens)

  -- The rows after an update of one of them.
  updated_cases :
      (j k : ℕ) (f : Job → Job) (t : S.jobs.Rows) (row' : Job)
      → S.jobs.get j (S.jobs.update k f t) ≡ some row'
      → (row : Job) × (S.jobs.get j t ≡ some row)
        × (((j ≡ k) × (row' ≡ f row)) ⊎ ((j ≢ k) × (row' ≡ row)))
  updated_cases j k f t row' e =
      let e' = rw (S.jobs.get-update j k f t) at e in
      elim (Option-cases (S.jobs.get j t)) [
        | inl gone ↦ absurd (ground (arith, e'))
        | inr (row, found) ↦ (row, found, ground (arith, e'))
      ]

  write-Inv :
      (w : World) (k : ℕ) (f : Job → Job)
      → KeepsBilling f
      → Inv w
      → Inv (record w {
        db = record (w.db) { jobs = S.jobs.update k f w.db.jobs };
        peak = put k (max (w.peak k) (prompt_of (option_map f (S.jobs.get k w.db.jobs)))) w.peak;
      })
  write-Inv w k f kb h = record {
    keyed = λ j row' e.
        let (row, found, how) = updated_cases j k f w.db.jobs row' e in
        elim how [
          | inl (same, eq) ↦ rw eq (kb.keeps_id row ∙ h.keyed j row found)
          | inr (other, eq) ↦ rw eq (h.keyed j row found)
        ];
    usage_seen = λ j. rw (S.jobs.get-update j k f w.db.jobs) (ground (arith, h.usage_seen j));
    billed_seen = λ j.
        rw (S.jobs.get-update j k f w.db.jobs) (elim (Option-cases (S.jobs.get j w.db.jobs)) [
          | inl gone ↦ rw gone (ground arith)
          | inr (row, found) ↦ rw found (ground (arith, kb.keeps_billed row, h.billed_seen j))
        ]);
    read_id = λ s j job e. ((h.read_id s j job e).0, ground (arith, h.read_id s j job e));
    read_fresh = λ s j job row' e g.
        let (row, found, how) = updated_cases j k f w.db.jobs row' g in
        elim how [
          | inl (same, eq) ↦
              rw eq (rw (kb.keeps_seq row, kb.keeps_billed row) (h.read_fresh s j job row e found))
          | inr (other, eq) ↦ rw eq (h.read_fresh s j job row e found)
        ];
  }

  plan_job_found : (o : Option Job) (job : Job) → plan_job o ≡ some job → o ≡ some job
  plan_job_found none job e = cc
  plan_job_found (some row) job e = elim (Bool-cases (has_unbilled row)) [
    | inl due ↦ rw (plan_job, due) at e
    | inr idle ↦ let e' : none ≡ some job = rw (plan_job, idle) at e in cc
  ]

  plan_found :
      (db : Db S) (k : ℕ) (job : Job) → plan S db k ≡ some job → S.jobs.get k db.jobs ≡ some job
  unfolding plan
  plan_found db k job e = plan_job_found (S.jobs.get k db.jobs) job e

  read_cases :
      (k j : ℕ) (o : Option Job) (job : Job)
      → has_read k o ≡ some (j, job)
      → (k ≡ j) × (o ≡ some job)
  read_cases k j none job e = cc
  read_cases k j (some row) job e = (cc, cc)

  read-Inv :
      (w : World) (session k : ℕ)
      → Inv w
      → Inv (record w { reads = put session (has_read k (plan S w.db k)) w.reads })
  read-Inv w session k h = record {
    keyed = h.keyed;
    usage_seen = h.usage_seen;
    billed_seen = h.billed_seen;
    read_id = λ s j job e. elim (Bool-cases (s == session)) [
      | inl mine ↦
          let (kj, p) = read_cases k j (plan S w.db k) job (rw mine at e) in
          let found = plan_found w.db k job p in
          (h.keyed k job found ∙ kj, ground (arith, found, h.usage_seen k))
      | inr other ↦ h.read_id s j job (rw other at e)
    ];
    read_fresh = λ s j job row e g. elim (Bool-cases (s == session)) [
      | inl mine ↦
          let (kj, p) = read_cases k j (plan S w.db k) job (rw mine at e) in
          let found = plan_found w.db k job p in
          let same : some job ≡ some row = cc in
          let eq : job ≡ row = cc in rw eq (omega arith, λ _. refl)
      | inr other ↦ h.read_fresh s j job row (rw other at e) g
    ];
  }

  -- A commit rolls back, or finds the row at the sequence number that was read.
  commit_cases :
      (db : Db S) (k : ℕ) (memo : Option Text) (job : Job)
      → ((commit S db k memo job).0 ≡ db)
        ⊎ ((row : Job) × (S.jobs.get k db.jobs ≡ some row)
            × (row.billing_seq ≡ job.billing_seq)
            × ((commit S db k memo job).0 ≡ record db {
              jobs = S.jobs.update k (advance job) db.jobs;
              records =
                  S.records.insert
                    (record_of job (S.users.get job.user_id db.users) memo)
                    db.records;
            }))
  unfolding commit
  commit_cases db k memo job = elim (Option-cases (S.jobs.get k db.jobs)) [
    | inl gone ↦ inl (rw gone)
    | inr (row, found) ↦ elim (Bool-cases (row.billing_seq == job.billing_seq)) [
      | inl current ↦ inr (row, found, ==_eq _ _ current, rw (found, is_current, current))
      | inr stale ↦ inl (rw (found, is_current, stale))
    ]
  ]

  -- A session that gives up what it read.
  forget : (w : World) (session : ℕ) → Inv w → Inv (record w { reads = put session none w.reads })
  forget w session h = record {
    keyed = h.keyed;
    usage_seen = h.usage_seen;
    billed_seen = h.billed_seen;
    read_id = λ s j job e. ground (arith, h.read_id s j job);
    read_fresh = λ s j job row e g. ground (arith, h.read_fresh s j job row);
  }

  advance_id : (job row : Job) → (advance job row).id ≡ row.id
  unfolding advance
  advance_id job row = refl

  still_read :
      (s session : ℕ) (reads : ℕ → Option (ℕ × Job)) (r : ℕ × Job)
      → put session none reads s ≡ some r
      → reads s ≡ some r
  still_read s session reads r e = elim (Bool-cases (s == session)) [
    | inl mine ↦ let e' : none ≡ some r = rw mine at e in cc
    | inr other ↦ rw other at e
  ]

  -- Once the row has advanced, an earlier read is behind it.
  behind :
      (job old : Job) (seq billed : ℕ)
      → job.billing_seq ≡ old.billing_seq
      → seq ≤ old.billing_seq
      → (seq ≤ (advance job old).billing_seq)
        × (seq ≡ (advance job old).billing_seq → billed ≡ (advance job old).billed_prompt_tokens)
  unfolding advance
  behind job old seq billed e le = (omega arith, λ eq. absurd (omega arith))

  transact-Inv :
      (w : World) (session k : ℕ) (job : Job) (memo : Option Text)
      → w.reads session ≡ some (k, job)
      → Inv w
      → Inv (record w { db = (commit S w.db k memo job).0; reads = put session none w.reads })
  transact-Inv w session k job memo e h = elim (commit_cases w.db k memo job) [
    | inl same ↦ rw same (forget w session h)
    | inr (row, found, current, eq) ↦ rw eq (record {
      keyed = λ j row' g.
          let (old, was, how) = updated_cases j k (advance job) w.db.jobs row' g in
          elim how [
            | inl (_, eq') ↦ rw eq' (advance_id job old ∙ h.keyed j old was)
            | inr (_, eq') ↦ rw eq' (h.keyed j old was)
          ];
      usage_seen = λ j.
          rw (S.jobs.get-update j k (advance job) w.db.jobs)
            (elim (Option-cases (S.jobs.get j w.db.jobs)) [
              | inl gone ↦ rw gone (ground arith)
              | inr (old, was) ↦ rw was (unfold advance in ground (arith, h.usage_seen j))
            ]);
      billed_seen = λ j.
          rw (S.jobs.get-update j k (advance job) w.db.jobs)
            (elim (Option-cases (S.jobs.get j w.db.jobs)) [
              | inl gone ↦ rw gone (ground arith)
              | inr (old, was) ↦ rw was (
                  unfold advance in
                  ground (
                    arith,
                    h.billed_seen j,
                    h.read_id session k job e,
                    h.read_fresh session k job row e found,
                  ))
            ]);
      read_id = λ s j job' g. ground (arith, h.read_id s j job');
      read_fresh = λ s j job' row' g g'.
          let kept = still_read s session (λ t. w.reads t) (j, job') g in
          let (old, was, how) = updated_cases j k (advance job) w.db.jobs row' g' in
          let before = h.read_fresh s j job' old kept was in
          elim how [
            | inl (jk, eq') ↦
                let same : some old ≡ some row = sym was ∙ (rw jk found) in
                let same_row : old ≡ row = cc in
                rw eq' (
                  behind job old job'.billing_seq job'.billed_prompt_tokens
                    (rw same_row (sym current)) before.0)
            | inr (other, eq') ↦ rw eq' before
          ];
    })
  ]

  pub Step-Inv : {w u : World} → Step w u → Inv w → Inv u
  Step-Inv (write w k f kb) h = write-Inv w k f kb h
  Step-Inv (read w session k) h = read-Inv w session k h
  Step-Inv (transact w session k job memo e) h = transact-Inv w session k job memo e h

  pub Steps-Inv : {w u : World} → Steps w u → Inv w → Inv u
  Steps-Inv here h = h
  Steps-Inv (next r st) h = Step-Inv st (Steps-Inv r h)

  abbrev pub billed : ℕ → World → ℕ
  billed k w = billed_of (S.jobs.get k w.db.jobs)

  abbrev pub total_charged : ℕ → World → ℕ
  total_charged k w = S.records.sum (charged k) w.db.records

  -- A step adds to the records of a job exactly what it adds to its billed counter.
  Step-conserves :
      {w u : World} (k : ℕ)
      → Step w u
      → Inv w
      → total_charged k u + billed k w ≡ total_charged k w + billed k u
  Step-conserves k (write w j f kb) h =
      rw (S.jobs.get-update k j f w.db.jobs) (elim (Option-cases (S.jobs.get k w.db.jobs)) [
        | inl gone ↦ rw gone (ground arith)
        | inr (row, found) ↦ rw found (ground (arith, kb.keeps_billed row))
      ])
  Step-conserves k (read w session j) h = refl
  Step-conserves k (transact w session j job memo e) h = elim (commit_cases w.db j memo job) [
    | inl same ↦ rw same
    | inr (row, found, current, eq) ↦ rw eq (
        rw
          (
            S.records.sum-insert (charged k)
                (record_of job (S.users.get job.user_id w.db.users) memo) w.db.records,
            S.jobs.get-update k j (advance job) w.db.jobs,
          )
          (elim (Option-cases (S.jobs.get k w.db.jobs)) [
            | inl gone ↦
                rw gone (unfold record_of in ground (arith, h.read_id session j job e, found, gone))
            | inr (old, was) ↦ rw was (
                unfold record_of advance in
                ground (
                  arith,
                  h.read_id session j job e,
                  h.read_fresh session j job row e found,
                  found,
                  was,
                ))
          ]))
  ]

  -- From a state where the invariant holds, under any interleaving of reads and commits of cuts and of
  -- writes that leave the billed counters and sequence numbers alone, so without a `rebase`, the prompt
  -- tokens of a job's records grow by exactly what its billed counter gains, and that counter
  -- and this growth stay within the highest usage that the job was seen to have.
  pub never_overcharged :
      {w u : World} (k : ℕ)
      → Steps w u
      → Inv w
      → (total_charged k u + billed k w ≡ total_charged k w + billed k u)
        × (billed k u ≤ u.peak k)
        × (total_charged k u + billed k w ≤ total_charged k w + u.peak k)
  never_overcharged k here h = (refl, h.billed_seen k, omega (arith, h.billed_seen k))
  never_overcharged {w} {u} k (next {v = v} r st) h =
      let before = Steps-Inv r h in
      let after = Step-Inv st before in
      let ih = never_overcharged k r h in
      let kept = Step-conserves k st before in
      (
        omega (arith, ih.0, kept),
        after.billed_seen k,
        omega (arith, ih.0, kept, after.billed_seen k),
      )
