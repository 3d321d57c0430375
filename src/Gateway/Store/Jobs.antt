-- ===== src/Gateway/Store/Jobs.antt =====
-- GatewayStore.request_job, pending_job_requests, claim_job_request, begin_job, finish_job, and the
-- job part of recover_processing.
use okxquant.Prelude.{
  ℕ, ◌+◌, String, Text, Bool, true, false, ◌&&◌, ◌||◌, Option, none, some, List, [], map, ◌==◌,
  str_eq, if◌then◌else◌, take, take_last, Result, ok, err, value_error,
}
use okxquant.Prelude.Table.{select, update, insert, fetch_one}
use okxquant.Gateway.Schema.{JobRun, Request, JobStatus, Db, is_pending, is_running, is_active}

-- job_name in MANUAL_JOBS
unfoldable pub is_manual : String → Bool
is_manual name = str_eq name "self_improvement"

-- str(actor).replace("\r", " ").replace("\n", " ")[:160]
unfoldable pub clean_actor : Text → Text
clean_actor actor = take 160 (map (λ c. if c == 13 || c == 10 then 32 else c) actor)

-- job_name=? AND status IN ('pending','running')
unfoldable pub is_open : String → Request → Bool
unfolding is_active
is_open name r = str_eq r.job_name name && is_active r.status

unfoldable pub new_request : ℕ → ℕ → String → Text → Request
new_request id now name actor = record {
  request_id = id;
  job_name = name;
  actor = actor;
  status = JobStatus.pending;
  created_at = now;
  finished_at = none;
  run_id = none;
}

-- The row, and `deduplicated`.
unfoldable pub open_request : ℕ → String → Text → Db → Option Request → (Request × Bool) × Db
unfolding new_request insert
open_request now name actor db (some row) = ((row, true), db)
open_request now name actor db none =
    let row = new_request (db.request_seq + 1) now name actor in
    (
      (row, false),
      record db { requests = insert row db.requests; request_seq = db.request_seq + 1 },
    )

unfoldable pub request_job : ℕ → String → Text → Db → Result ((Request × Bool) × Db)
unfolding is_manual clean_actor is_open open_request fetch_one
request_job now name actor db =
    if is_manual name
    then ok (open_request now name (clean_actor actor) db (fetch_one (is_open name) db.requests))
    else err value_error

unfoldable pub pending_job_requests : Db → List Request
unfolding select is_pending
pending_job_requests db = select (λ r. is_pending r.status) db.requests

unfoldable pub new_run : ℕ → ℕ → String → JobRun
new_run id now name = record {
  id = id;
  job_name = name;
  status = JobStatus.running;
  started_at = now;
  finished_at = none;
  return_code = none;
  detail = [];
}

-- begin_job: the new run's id.
unfoldable pub begin_job : ℕ → String → Db → ℕ × Db
unfolding new_run insert
begin_job now name db = (
  db.run_seq + 1,
  record db {
    job_runs = insert (new_run (db.run_seq + 1) now name) db.job_runs;
    run_seq = db.run_seq + 1;
  },
)

-- request_id=? AND status='pending'
unfoldable pub is_claimable : ℕ → Request → Bool
unfolding is_pending
is_claimable i r = r.request_id == i && is_pending r.status

abbrev pub set_started : ℕ → Request → Request
set_started run r = record r { status = JobStatus.running; run_id = some run }

unfoldable pub start_request : ℕ → Db → Option Request → Option Request × Db
unfolding is_manual new_run insert update
start_request now db none = (none, db)
start_request now db (some row) =
    if is_manual row.job_name
    then (
      some (set_started (db.run_seq + 1) row),
      record db {
        job_runs = insert (new_run (db.run_seq + 1) now row.job_name) db.job_runs;
        run_seq = db.run_seq + 1;
        requests =
            update (λ r. r.request_id == row.request_id) (set_started (db.run_seq + 1)) db.requests;
      },
    )
    else (none, db)

unfoldable pub claim_job_request : ℕ → ℕ → Db → Option Request × Db
unfolding is_claimable start_request fetch_one
claim_job_request now i db = start_request now db (fetch_one (is_claimable i) db.requests)

unfoldable pub result_status : ℕ → JobStatus
result_status code = if code == 0 then JobStatus.success else JobStatus.failed

abbrev pub set_finished : ℕ → ℕ → Text → JobRun → JobRun
set_finished now code detail r = record r {
  status = result_status code;
  finished_at = some now;
  return_code = some code;
  detail = take_last 2000 detail;
}

unfoldable pub opt_eq : Option ℕ → ℕ → Bool
opt_eq none n = false
opt_eq (some m) n = m == n

-- run_id=? AND status='running'
unfoldable pub is_run_of : ℕ → Request → Bool
unfolding opt_eq is_running
is_run_of run r = opt_eq r.run_id run && is_running r.status

abbrev pub set_closed : ℕ → JobStatus → Request → Request
set_closed now status r = record r { status = status; finished_at = some now }

-- finish_job; return codes are taken as numbers, a negative one as any code that is not 0.
unfoldable pub finish_job : ℕ → ℕ → ℕ → Text → Db → Db
unfolding result_status take_last is_run_of update
finish_job now run code detail db = record db {
  job_runs = update (λ r. r.id == run) (set_finished now code detail) db.job_runs;
  requests = update (is_run_of run) (set_closed now (result_status code)) db.requests;
}

abbrev pub set_abandoned : ℕ → Text → JobRun → JobRun
set_abandoned now detail r = record r {
  status = JobStatus.failed;
  finished_at = some now;
  return_code = some 125;
  detail = detail;
}

-- The job_runs and manual_job_requests parts of recover_processing; `detail` is its fixed text.
unfoldable pub recover_jobs : ℕ → Text → Db → Db
unfolding is_running update
recover_jobs now detail db = record db {
  job_runs = update (λ r. is_running r.status) (set_abandoned now detail) db.job_runs;
  requests = update (λ r. is_running r.status) (set_closed now JobStatus.failed) db.requests;
}
