-- ===== src/Gateway/Store/Valid/Calls.antt =====
-- Proofs on single methods of okxquant_gateway/store.py under the whole invariant.
use okxquant.Prelude.{
  ℕ, ◌+◌, String, Text, Bool, ◌≡◌, refl, inl, inr, none, some, [], ◌==◌, Bool-cases, map, take,
  Option,
}
use okxquant.Prelude.Table.{update, fetch_one, IsKeyed, IsKeyed-update, IsKeyed-insert}
use okxquant.Gateway.Schema.{Delivery, DeliveryStatus, JobRun, Request, Recovery, Db, is_running}
use okxquant.Gateway.Store.Deliveries.{
  claim_locked, complete, set_completed, set_retry, is_processing, claim_id, due_rows,
}
use okxquant.Gateway.Store.Jobs.{
  is_manual, is_open, clean_actor, open_request, request_job, start_request, claim_job_request,
  is_claimable, new_run, begin_job, finish_job, set_finished, set_abandoned,
}
use okxquant.Gateway.Store.Recoveries.{
  cancel_ai_recovery, claim_ai_recovery, start_recovery, is_unclaimed, finish_ai_recovery,
  close_recovery, is_recovering, is_run,
}
use okxquant.Gateway.Store.Operations.{recover_processing, or_rollback, result_db, run}
use okxquant.Gateway.Store.Valid.{run_key, RequestsValid, RecoveriesValid, IsValid}
use okxquant.Gateway.Store.Valid.Queue.{update-QueueValid, mark_processing-QueueValid}
use okxquant.Gateway.Store.Valid.Requests.{
  finish-RequestsValid, recover-RequestsValid, open_request-RequestsValid,
  claim_job_request-RequestsValid,
}
use okxquant.Gateway.Store.Valid.Recoveries.{
  cancel-RecoveriesValid, claim-RecoveriesValid, finish-RecoveriesValid, recover-RecoveriesValid,
}

-- A transaction that changes only deliveries, by an update that keeps what identifies a row.
pub update_deliveries-IsValid :
    (p : Delivery → Bool) (f : Delivery → Delivery)
    → ((d : Delivery) → (f d).id ≡ d.id)
    → ((d : Delivery) → (f d).event_id ≡ d.event_id)
    → ((d : Delivery) → (f d).channel ≡ d.channel)
    → (db : Db) → IsValid db
    → IsValid (record db { deliveries = update p f db.deliveries })
update_deliveries-IsValid p f a b c db v = record {
  queue = update-QueueValid p f a b c db.events db.deliveries db.delivery_seq v.queue;
  runs = v.runs;
  requests = v.requests;
  recoveries = v.recoveries;
}

pub claim_locked-IsValid :
    (now limit : ℕ) (db : Db) → IsValid db → IsValid (claim_locked now limit db).1
unfolding claim_locked
claim_locked-IsValid now limit db v = record {
  queue =
      mark_processing-QueueValid (map claim_id (take limit (due_rows now db))) db.events
        db.deliveries db.delivery_seq v.queue;
  runs = v.runs;
  requests = v.requests;
  recoveries = v.recoveries;
}

pub complete-IsValid :
    (now i : ℕ) (status : DeliveryStatus) (detail : Text) (db : Db)
    → IsValid db
    → IsValid (or_rollback db (complete now i status detail db))
unfolding complete
complete-IsValid now i DeliveryStatus.delivered detail db v =
    update_deliveries-IsValid (λ d. d.id == i) (set_completed now DeliveryStatus.delivered [])
      (λ d. refl) (λ d. refl) (λ d. refl) db v
complete-IsValid now i DeliveryStatus.accepted detail db v =
    update_deliveries-IsValid (λ d. d.id == i)
      (set_completed now DeliveryStatus.accepted (take 1000 detail)) (λ d. refl) (λ d. refl)
      (λ d. refl) db v
complete-IsValid now i _ detail db v = v

pub request_job-IsValid :
    (now : ℕ) (name : String) (actor : Text) (db : Db)
    → IsValid db
    → IsValid (result_db db (request_job now name actor db))
unfolding request_job
request_job-IsValid now name actor db v = elim (Bool-cases (is_manual name)) [
  | inr e ↦ rw e v
  | inl e ↦
      let requests = open_request-RequestsValid now name (clean_actor actor) db e v.requests in
      rw e (opened (fetch_one (is_open name) db.requests) requests)
]
  where
    opened :
        (found : Option Request)
        → (let db' = (open_request now name (clean_actor actor) db found).1 in
            RequestsValid db'.requests db'.request_seq)
        → IsValid (open_request now name (clean_actor actor) db found).1
    opened none h = record {
      queue = v.queue;
      runs = v.runs;
      requests = h;
      recoveries = v.recoveries;
    }
    opened (some row) h = v

pub claim_job_request-IsValid :
    (now i : ℕ) (db : Db) → IsValid db → IsValid (claim_job_request now i db).1
unfolding claim_job_request
claim_job_request-IsValid now i db v =
    started (fetch_one (is_claimable i) db.requests)
      (claim_job_request-RequestsValid now i db v.requests)
  where
    started :
        (found : Option Request)
        → (let db' = (start_request now db found).1 in RequestsValid db'.requests db'.request_seq)
        → IsValid (start_request now db found).1
    started none h = v
    started (some row) h = elim (Bool-cases (is_manual row.job_name)) [
      | inr e ↦ rw e v
      | inl e ↦ rw e record {
        queue = v.queue;
        runs =
            IsKeyed-insert run_key db.run_seq (new_run (db.run_seq + 1) now row.job_name)
              db.job_runs refl v.runs;
        requests = rw e at h;
        recoveries = v.recoveries;
      }
    ]

update_runs-keys :
    (p : JobRun → Bool) (f : JobRun → JobRun)
    → ((r : JobRun) → (f r).id ≡ r.id)
    → (db : Db) → IsValid db
    → IsKeyed run_key db.run_seq (update p f db.job_runs)
update_runs-keys p f keep db v = IsKeyed-update run_key p f keep db.run_seq db.job_runs v.runs

pub finish_job-IsValid :
    (now run code : ℕ) (detail : Text) (db : Db)
    → IsValid db
    → IsValid (finish_job now run code detail db)
unfolding finish_job
finish_job-IsValid now run code detail db v = record {
  queue = v.queue;
  runs = update_runs-keys (λ r. r.id == run) (set_finished now code detail) (λ r. refl) db v;
  requests = finish-RequestsValid now run code db.requests db.request_seq v.requests;
  recoveries = v.recoveries;
}

pub claim_ai_recovery-IsValid :
    (now i : ℕ) (db : Db) → IsValid db → IsValid (claim_ai_recovery now i db).1
unfolding claim_ai_recovery
claim_ai_recovery-IsValid now i db v =
    started (fetch_one (is_unclaimed i) db.recoveries) (claim-RecoveriesValid now i db v.recoveries)
  where
    started :
        (found : Option Recovery)
        → (let db' = (start_recovery now i db found).1 in
            RecoveriesValid db'.recoveries db'.recovery_seq)
        → IsValid (start_recovery now i db found).1
    started none h = v
    started (some row) h = record {
      queue = v.queue;
      runs =
          IsKeyed-insert run_key db.run_seq (new_run (db.run_seq + 1) now "trader_recovery")
            db.job_runs refl v.runs;
      requests = v.requests;
      recoveries = h;
    }

pub finish_ai_recovery-IsValid :
    (now i code : ℕ) (detail : Text) (db : Db)
    → IsValid db
    → IsValid (finish_ai_recovery now i code detail db)
unfolding finish_ai_recovery
finish_ai_recovery-IsValid now i code detail db v =
    closed (fetch_one (is_recovering i) db.recoveries)
      (finish-RecoveriesValid now i code detail db v.recoveries)
  where
    closed :
        (found : Option Recovery)
        → (let db' = close_recovery now i code detail db found in
            RecoveriesValid db'.recoveries db'.recovery_seq)
        → IsValid (close_recovery now i code detail db found)
    closed none h = v
    closed (some row) h = record {
      queue = v.queue;
      runs = update_runs-keys (is_run row.run_id) (set_finished now code detail) (λ r. refl) db v;
      requests = v.requests;
      recoveries = h;
    }

pub recover_processing-IsValid :
    (now : ℕ) (lost unknown : Text) (db : Db)
    → IsValid db
    → IsValid (recover_processing now lost unknown db)
unfolding recover_processing
recover_processing-IsValid now lost unknown db v = record {
  queue =
      update-QueueValid (λ d. is_processing d.status) set_retry (λ d. refl) (λ d. refl) (λ d. refl)
        db.events db.deliveries db.delivery_seq v.queue;
  runs = update_runs-keys (λ r. is_running r.status) (set_abandoned now lost) (λ r. refl) db v;
  requests = recover-RequestsValid now db.requests db.request_seq v.requests;
  recoveries = recover-RecoveriesValid now unknown db.recoveries db.recovery_seq v.recoveries;
}

pub begin_job-IsValid :
    (now : ℕ) (name : String) (db : Db) → IsValid db → IsValid (begin_job now name db).1
unfolding begin_job
begin_job-IsValid now name db v = record {
  queue = v.queue;
  runs =
      IsKeyed-insert run_key db.run_seq (new_run (db.run_seq + 1) now name) db.job_runs refl v.runs;
  requests = v.requests;
  recoveries = v.recoveries;
}

pub cancel_ai_recovery-IsValid :
    (now i : ℕ) (detail : Text) (db : Db)
    → IsValid db
    → IsValid (cancel_ai_recovery now i detail db)
unfolding cancel_ai_recovery
cancel_ai_recovery-IsValid now i detail db v = record {
  queue = v.queue;
  runs = v.runs;
  requests = v.requests;
  recoveries = cancel-RecoveriesValid now i detail db.recoveries db.recovery_seq v.recoveries;
}
