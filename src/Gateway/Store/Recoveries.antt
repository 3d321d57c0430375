-- ===== src/Gateway/Store/Recoveries.antt =====
-- GatewayStore.enqueue_ai_recovery, due_ai_recoveries, cancel_ai_recovery, claim_ai_recovery,
-- finish_ai_recovery, and the recovery part of recover_processing.
use okxquant.Prelude.{
  ℕ, ◌+◌, Text, Bool, true, ◌&&◌, ◌||◌, not, Option, none, some, List, [], leb, ◌==◌, if◌then◌else◌,
  take, any_of,
}
use okxquant.Prelude.{text_eq}
use okxquant.Prelude.Table.{select, update, insert, fetch_one}
use okxquant.Gateway.Schema.{ModelCall, JobRun, Recovery, JobStatus, Db, is_pending, is_running}
use okxquant.Gateway.Store.Jobs.{new_run, result_status, opt_eq, set_finished}

-- UNIQUE(account_scope, slot_start)
unfoldable pub same_slot : Recovery → Recovery → Bool
unfolding text_eq
same_slot a b = text_eq a.account_scope b.account_scope && a.slot_start == b.slot_start

unfoldable pub new_recovery : ℕ → ℕ → Text → ℕ → ℕ → ℕ → Text → Option ℕ → Recovery
new_recovery id now scope slot scheduled expires fingerprint call = record {
  id = id;
  account_scope = scope;
  slot_start = slot;
  status = JobStatus.pending;
  scheduled_at = scheduled;
  expires_at = expires;
  created_at = now;
  started_at = none;
  finished_at = none;
  attempts = 0;
  failure_fingerprint = fingerprint;
  original_model_call_id = call;
  run_id = none;
  detail = [];
}

-- original_model_call_id INTEGER REFERENCES model_calls(id)
unfoldable pub is_recorded : Option ℕ → Db → Bool
is_recorded none db = true
is_recorded (some call) db = any_of (λ (c : ModelCall). c.id == call) db.model_calls

-- INSERT OR IGNORE INTO ai_recovery_jobs: the slot is taken, so the row is ignored; or the call is
-- unknown, so the foreign key raises IntegrityError and the transaction is rolled back. Either way
-- nothing is inserted and no sequence number is used up.
unfoldable pub add_recovery : Recovery → Db → Db
unfolding same_slot is_recorded insert
add_recovery row db =
    if any_of (λ r. same_slot r row) db.recoveries
      || not (is_recorded row.original_model_call_id db)
    then db
    else record db { recoveries = insert row db.recoveries; recovery_seq = db.recovery_seq + 1 }

-- The row that stands for the slot afterwards, and the database; `none` stands for the exception,
-- after which the slot has no row.
unfoldable pub enqueue_ai_recovery :
    ℕ → Text → ℕ → ℕ → ℕ → Text → Option ℕ → Db → Option Recovery × Db
unfolding new_recovery add_recovery fetch_one
enqueue_ai_recovery now scope slot scheduled expires fingerprint call db =
    let row =
      new_recovery (db.recovery_seq + 1) now scope slot scheduled expires fingerprint call in
    let db' = add_recovery row db in (fetch_one (λ r. same_slot r row) db'.recoveries, db')

unfoldable pub ai_recovery : ℕ → Db → Option Recovery
unfolding fetch_one
ai_recovery i db = fetch_one (λ r. r.id == i) db.recoveries

-- status='pending' AND scheduled_at<=?
unfoldable pub is_due_recovery : ℕ → Recovery → Bool
unfolding is_pending
is_due_recovery now r = is_pending r.status && leb r.scheduled_at now

unfoldable pub due_ai_recoveries : ℕ → Db → List Recovery
unfolding is_due_recovery select
due_ai_recoveries now db = select (is_due_recovery now) db.recoveries

-- id=? AND status='pending'
unfoldable pub is_cancellable : ℕ → Recovery → Bool
unfolding is_pending
is_cancellable i r = r.id == i && is_pending r.status

abbrev pub set_cancelled : ℕ → Text → Recovery → Recovery
set_cancelled now detail r = record r {
  status = JobStatus.cancelled;
  finished_at = some now;
  detail = take 1000 detail;
}

unfoldable pub cancel_ai_recovery : ℕ → ℕ → Text → Db → Db
unfolding is_cancellable update
cancel_ai_recovery now i detail db = record db {
  recoveries = update (is_cancellable i) (set_cancelled now detail) db.recoveries;
}

-- id=? AND status='pending' AND attempts=0
unfoldable pub is_unclaimed : ℕ → Recovery → Bool
unfolding is_pending
is_unclaimed i r = r.id == i && (is_pending r.status && r.attempts == 0)

abbrev pub set_recovering : ℕ → ℕ → Recovery → Recovery
set_recovering now run r = record r {
  status = JobStatus.running;
  started_at = some now;
  attempts = 1;
  run_id = some run;
}

unfoldable pub start_recovery : ℕ → ℕ → Db → Option Recovery → Option Recovery × Db
unfolding new_run insert update fetch_one
start_recovery now i db none = (none, db)
start_recovery now i db (some row) =
    let claimed = update (λ r. r.id == i) (set_recovering now (db.run_seq + 1)) db.recoveries in
    (
      fetch_one (λ r. r.id == i) claimed,
      record db {
        job_runs = insert (new_run (db.run_seq + 1) now "trader_recovery") db.job_runs;
        run_seq = db.run_seq + 1;
        recoveries = claimed;
      },
    )

unfoldable pub claim_ai_recovery : ℕ → ℕ → Db → Option Recovery × Db
unfolding is_unclaimed start_recovery fetch_one
claim_ai_recovery now i db = start_recovery now i db (fetch_one (is_unclaimed i) db.recoveries)

-- id=? AND status='running'
unfoldable pub is_recovering : ℕ → Recovery → Bool
unfolding is_running
is_recovering i r = r.id == i && is_running r.status

abbrev pub set_recovered : ℕ → ℕ → Text → Recovery → Recovery
set_recovered now code detail r = record r {
  status = result_status code;
  finished_at = some now;
  detail = take 1000 detail;
}

-- WHERE id=row["run_id"]
unfoldable pub is_run : Option ℕ → JobRun → Bool
unfolding opt_eq
is_run run r = opt_eq run r.id

unfoldable pub close_recovery : ℕ → ℕ → ℕ → Text → Db → Option Recovery → Db
unfolding is_run result_status update
close_recovery now i code detail db none = db
close_recovery now i code detail db (some row) = record db {
  recoveries = update (λ r. r.id == i) (set_recovered now code detail) db.recoveries;
  job_runs = update (is_run row.run_id) (set_finished now code detail) db.job_runs;
}

unfoldable pub finish_ai_recovery : ℕ → ℕ → ℕ → Text → Db → Db
unfolding is_recovering close_recovery fetch_one
finish_ai_recovery now i code detail db =
    close_recovery now i code detail db (fetch_one (is_recovering i) db.recoveries)

abbrev pub set_lost : ℕ → Text → Recovery → Recovery
set_lost now detail r = record r {
  status = JobStatus.failed;
  finished_at = some now;
  detail = detail;
}

-- The ai_recovery_jobs part of recover_processing; `detail` is its fixed text.
unfoldable pub recover_recoveries : ℕ → Text → Db → Db
unfolding is_running update
recover_recoveries now detail db = record db {
  recoveries = update (λ r. is_running r.status) (set_lost now detail) db.recoveries;
}
