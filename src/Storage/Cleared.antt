-- ===== src/Storage/Cleared.antt =====
-- What `sweep` of backend/app/services/retention.py may do to a row.
use batch_inference_console.Prelude.{
  ℕ, zero, suc, ◌≡◌, ◌⊎◌, inl, inr, refl, ap, sym, ◌∙◌, true, Option, none, some, List, [], ◌∷◌,
  ◌==◌, ==_self, ==_eq, elem, take, arith, Bool-cases,
}
use batch_inference_console.Models.{Job}
use batch_inference_console.Table.{holds, option_map}
use batch_inference_console.Database.{Schema, Db}
use batch_inference_console.Storage.Retention.{
  Policy, Order, is_candidate, is_expired, purge_row, Sweep, purge_one, purge_each, sweep,
  batch_limit,
}

-- A row stays as it is, or an ended job whose files are there and past their time is marked as cleared.
abbrev pub IsCleared : ℕ → ℕ → Option Job → Option Job → Type 0
IsCleared days now before after =
    (after ≡ before)
    ⊎ ((job : Job) × (before ≡ some job)
        × (is_candidate job ≡ true)
        × (is_expired days now job ≡ true)
        × (after ≡ some (purge_row now job)))

elem-take : (k n : ℕ) (ids : List ℕ) → elem k (take n ids) ≡ true → elem k ids ≡ true
elem-take k zero ids h = cc
elem-take k (suc n) [] h = h
elem-take k (suc n) (x ∷ ids) h = ground (arith, elem-take k n ids)

again :
    (days now : ℕ) (before after : Option Job) (job : Job)
    → before ≡ some job
    → is_candidate job ≡ true
    → is_expired days now job ≡ true
    → IsCleared days now before after
    → IsCleared days now before (option_map (purge_row now) after)
unfolding purge_row
again days now before after job e c x (inl same) =
    inr (job, e, c, x, ap (option_map (purge_row now)) (same ∙ e))
again days now before after job e c x (inr (old, f, c', x', done)) =
    inr (old, f, c', x', ap (option_map (purge_row now)) done)

module _ (S : Schema) (policy : Policy) (now : ℕ) (result_bytes : ℕ → ℕ) (start : Db S) where
  abbrev rows : ℕ → Option Job
  rows id = S.jobs.get id start.jobs

  abbrev Cleared : ℕ → Sweep S → Type 0
  Cleared j st = IsCleared policy.retention_days now (rows j) (S.jobs.get j st.db.jobs)

  one-IsCleared :
      (j id : ℕ) (o : Option Job) (st : Sweep S)
      → rows id ≡ o
      → holds is_candidate o ≡ true
      → Cleared j st
      → Cleared j (purge_one S policy now result_bytes rows id o st)
  unfolding purge_one
  one-IsCleared j id none st e c h = h
  one-IsCleared j id (some job) st e c h =
      elim (Bool-cases (is_expired policy.retention_days now job)) [
        | inr fresh ↦ rw fresh h
        | inl past ↦ rw past (
            rw (S.jobs.get-update j id (purge_row now) st.db.jobs) (elim (Bool-cases (j == id)) [
              | inr other ↦ rw other h
              | inl same ↦ rw same (
                  again policy.retention_days now (rows j) _ job (ap rows (==_eq j id same) ∙ e) c
                    past h)
            ]))
      ]

  each-IsCleared :
      (j : ℕ) (ids : List ℕ) (st : Sweep S)
      → ((i : ℕ) → elem i ids ≡ true → holds is_candidate (rows i) ≡ true)
      → Cleared j st
      → Cleared j (purge_each S policy now result_bytes rows ids st)
  unfolding purge_each
  each-IsCleared j [] st all h = h
  each-IsCleared j (id ∷ ids) st all h =
      each-IsCleared j ids (purge_one S policy now result_bytes rows id (rows id) st)
        (λ i m. all i (ground arith))
        (one-IsCleared j id (rows id) st refl (all id (rw (==_self id))) h)

-- A sweep leaves every row as it is, but for jobs that have ended, whose files are there and whose time
-- is past: these may be marked as cleared now, and nothing else in their rows changes.
pub sweep-IsCleared :
    (S : Schema) (policy : Policy) (order : Order) (now : ℕ) (result_bytes : ℕ → ℕ) (db : Db S)
    (j : ℕ)
    → IsCleared policy.retention_days now
        (S.jobs.get j db.jobs)
        (S.jobs.get j (sweep S policy order now result_bytes db).db.jobs)
unfolding sweep
sweep-IsCleared S policy order now result_bytes db j =
    elim (Bool-cases (policy.retention_days == 0)) [
      | inl off ↦ rw off (inl refl)
      | inr on ↦ rw on (
          each-IsCleared S policy now result_bytes db j
            (take batch_limit (order.sort (S.jobs.select is_candidate db.jobs)))
            record { db = db; purged = 0; freed = 0 }
            (λ i m.
              sym (S.jobs.elem-select i is_candidate db.jobs)
              ∙ sym (order.elem-sort i (S.jobs.select is_candidate db.jobs))
              ∙ elem-take i batch_limit _ m)
            (inl refl))
    ]
