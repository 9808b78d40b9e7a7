-- ===== src/Billing/Delivery.antt =====
-- What the claim and the delivery of a record do (backend/app/services/billing.py `_claim`, `send`):
-- a claim shuts other senders out, a paid record is final, and a delivery never changes what is
-- charged or under which id.
use batch_inference_console.Prelude.{
  ℕ, zero, suc, List, [], ◌∷◌, ap, if◌then◌else◌, ◌+◌, ◌-◌, ◌≤◌, ◌<◌, ◌≡◌, ◌≢◌, refl, Bool, true,
  false, Option, none, some, Text, ==_self, inl, inr, Bool-cases, Option-cases, arith,
}
use batch_inference_console.Json.{Json}
use batch_inference_console.Models.{BillingRecord, BillingStatus}
use batch_inference_console.Table.{holds}
use batch_inference_console.Database.{Schema, Db}
use batch_inference_console.Gateway.Settings.{Runtime}
use batch_inference_console.Billing.Outcome.{Outcome, backoff, max_backoff_seconds}
use batch_inference_console.Billing.Send.{
  Net, claim, send, deliver, claimed, can_claim, outcome_of, save_outcome, in_flight_seconds,
}
use native.Mathlib.Nat.{pow-suc}

-- When a record is tried again, by the status that a delivery left it in.
abbrev pub IsScheduled : ℕ → BillingRecord → BillingStatus → Type 0
IsScheduled later r BillingStatus.pending = r.next_attempt_at ≡ some (later + backoff r.attempts)
IsScheduled later r BillingStatus.succeeded =
    (r.next_attempt_at ≡ none) × (r.billed_at ≡ some later)
IsScheduled later r BillingStatus.failed = r.next_attempt_at ≡ none

pub record IsDelivered (later : ℕ) (r r' : BillingRecord) : Type 0 where
  pub same_request : r'.request_id ≡ r.request_id
  pub same_key : r'.key_encrypted ≡ r.key_encrypted
  pub same_usage :
      (r'.prompt_tokens ≡ r.prompt_tokens)
      × (r'.completion_tokens ≡ r.completion_tokens)
      × (r'.cached_tokens ≡ r.cached_tokens)
  pub one_more : r'.attempts ≡ r.attempts + 1
  pub scheduled : IsScheduled later r' r'.status

save_outcome-IsDelivered :
    (repr : Json → Text) (now later : ℕ) (out : Outcome) (r : BillingRecord)
    → IsDelivered later r (save_outcome repr later out (claimed now r))
unfolding save_outcome claimed
save_outcome-IsDelivered repr now later out r = elim (Bool-cases out.ok) [
  | inl paid ↦ rw paid (record {
    same_request = refl;
    same_key = refl;
    same_usage = (refl, refl, refl);
    one_more = refl;
    scheduled = (refl, refl);
  })
  | inr unpaid ↦ rw unpaid (elim (Bool-cases out.retriable) [
    | inl soft ↦ rw soft (record {
      same_request = refl;
      same_key = refl;
      same_usage = (refl, refl, refl);
      one_more = refl;
      scheduled = refl;
    })
    | inr hard ↦ rw hard (record {
      same_request = refl;
      same_key = refl;
      same_usage = (refl, refl, refl);
      one_more = refl;
      scheduled = refl;
    })
  ])
]

-- The wait before the next try never shrinks and never passes ten minutes.
pub backoff_grows : (n : ℕ) → (backoff n ≤ backoff (suc n)) × (backoff n ≤ max_backoff_seconds)
unfolding backoff
backoff_grows zero = omega arith
backoff_grows (suc n) =
    let here : suc n - 1 ≡ n = omega arith in
    let next : suc (suc n) - 1 ≡ suc n = omega arith in rw (here, next) (omega (arith, pow-suc 2 n))

module _ (S : Schema) where
  get_record :
      (id : ℕ) (f : BillingRecord → BillingRecord) (db : Db S) {r : BillingRecord}
      → S.records.get id db.records ≡ some r
      → S.records.get id (S.records.update id f db.records) ≡ some (f r)
  get_record id f db h = rw (S.records.get-update id id f db.records, ==_self id, h)

  claimed_shut :
      (failed_too : Bool) (now later : ℕ) (r : BillingRecord)
      → later < now + in_flight_seconds
      → can_claim failed_too later (claimed now r) ≡ false
  unfolding claimed
  claimed_shut failed_too now later r soon = ground arith

  -- Sends of one record, one after the other: each with its network, what it asks for, and the times of
  -- its claim and of its reply.
  pub record Call : Type 0 where
    pub net : Net
    pub runtime : Runtime
    pub failed_too : Bool
    pub now : ℕ
    pub later : ℕ

  unfoldable pub send_each : ℕ → List Call → Db S → Db S
  unfolding send
  send_each id [] db = db
  send_each id (c ∷ calls) db =
      send_each id calls (send S c.net c.runtime db id c.failed_too c.now c.later).0

  -- All of them start before a time.
  abbrev pub AllBefore : ℕ → List Call → Type 0
  AllBefore end [] = Unit
  AllBefore end (c ∷ calls) = (c.now < end) × AllBefore end calls

  send_each-shut :
      (id : ℕ) (now : ℕ) (r : BillingRecord) (calls : List Call) (db : Db S)
      → S.records.get id db.records ≡ some (claimed now r)
      → AllBefore (now + in_flight_seconds) calls
      → send_each id calls db ≡ db
  unfolding send_each send claim
  send_each-shut id now r [] db found soon = refl
  send_each-shut id now r (c ∷ calls) db found soon =
      rw (found, holds, claimed_shut c.failed_too now c.now r soon.0)
        (send_each-shut id now r calls db found soon.1)

  -- Whatever other sends of the record start between a claim and the save of its reply, within two
  -- minutes of the claim, the outcome is as if they had not been: none of them sends the record or
  -- changes anything. If the claim fails, the send does nothing.
  pub claim_excludes :
      (net : Net) (runtime : Runtime) (db : Db S) (id : ℕ) (failed_too : Bool) (now later : ℕ)
      (calls : List Call)
      → AllBefore (now + in_flight_seconds) calls
      → let (db', taken) = claim S db id failed_too now in
        let others = if taken then send_each id calls db' else db' in
        (if taken
          then deliver S net runtime others id later (S.records.get id others.records)
          else (others, none))
        ≡ send S net runtime db id failed_too now later
  unfolding claim send deliver
  claim_excludes net runtime db id failed_too now later calls soon =
      elim (Option-cases (S.records.get id db.records)) [
        | inl gone ↦ rw (gone, holds)
        | inr (r, found) ↦ elim (Bool-cases (can_claim failed_too now r)) [
          | inl free ↦
              rw (found, holds, free)
                (ap (λ (d : Db S). deliver S net runtime d id later (S.records.get id d.records))
                  (send_each-shut id now r calls
                    (record db { records = S.records.update id (claimed now) db.records })
                    (get_record id (claimed now) db found) soon))
          | inr held ↦ rw (found, holds, held)
        ]
      ]

  -- A record that was paid for is final: no call sends it again or changes anything.
  pub send_succeeded :
      (net : Net) (runtime : Runtime) (db : Db S) (id : ℕ) (failed_too : Bool) (now later : ℕ)
      {r : BillingRecord}
      → S.records.get id db.records ≡ some r
      → r.status ≡ BillingStatus.succeeded
      → send S net runtime db id failed_too now later ≡ (db, none)
  unfolding send
  send_succeeded net runtime db id failed_too now later {r = r} found paid =
      let shut : can_claim failed_too now r ≡ false = ground arith in rw (found, holds, shut)

  -- What a call of `send` has done, by its result: nothing, or one delivery of a record that could
  -- be claimed, with the other records as they were.
  abbrev pub HasSent : Db S → ℕ → Bool → ℕ → ℕ → Db S × Option BillingRecord → Type 0
  HasSent db id failed_too now later (db', none) = db' ≡ db
  HasSent db id failed_too now later (db', some r') =
      (r : BillingRecord) × (S.records.get id db.records ≡ some r)
      × (can_claim failed_too now r ≡ true)
      × (S.records.get id db'.records ≡ some r')
      × IsDelivered later r r'
      × ((j : ℕ) → j ≢ id → S.records.get j db'.records ≡ S.records.get j db.records)

  -- A call of `send` either changes nothing, or delivers one record that it could claim: its request id,
  -- key and usage stay, its attempts grow by one, its next time fits its status, and the other
  -- records are as they were.
  pub send_delivers :
      (net : Net) (runtime : Runtime) (db : Db S) (id : ℕ) (failed_too : Bool) (now later : ℕ)
      → HasSent db id failed_too now later (send S net runtime db id failed_too now later)
  unfolding send
  send_delivers net runtime db id failed_too now later =
      elim (Option-cases (S.records.get id db.records)) [
        | inl gone ↦ rw (gone, holds)
        | inr (r, found) ↦ elim (Bool-cases (can_claim failed_too now r)) [
          | inr held ↦ rw (found, holds, held)
          | inl free ↦
              rw (found, holds, free)
                (rw (get_record id (claimed now) db found) (
                  r,
                  found,
                  free,
                  get_saved r found,
                  save_outcome-IsDelivered net.repr now later
                      (outcome_of net runtime (claimed now r)) r,
                  λ j ne. others j ne (claimed now) _ db,
                ))
        ]
      ]
    where
      others :
          (j : ℕ)
          → j ≢ id
          → (f g : BillingRecord → BillingRecord) (db : Db S)
          → S.records.get j (S.records.update id g (S.records.update id f db.records))
            ≡ S.records.get j db.records
      others j ne f g db =
          rw
            (
              S.records.get-update j id g (S.records.update id f db.records),
              S.records.get-update j id f db.records,
            )
            (ground arith)

      get_saved :
          (r : BillingRecord)
          → S.records.get id db.records ≡ some r
          → S.records.get id (
              S.records.update id
                (save_outcome net.repr later (outcome_of net runtime (claimed now r)))
                (S.records.update id (claimed now) db.records))
            ≡ some (
                save_outcome net.repr later
                  (outcome_of net runtime (claimed now r))
                  (claimed now r))
      get_saved r found = rw (
        S.records.get-update id id
            (save_outcome net.repr later (outcome_of net runtime (claimed now r)))
            (S.records.update id (claimed now) db.records),
        ==_self id,
        get_record id (claimed now) db found,
      )
