-- ===== src/Gateway/Store/Valid.antt =====
-- The constraints of SCHEMA in okxquant_gateway/store.py, and the shape of the rows that the
-- methods write, as an invariant of the database.
pub mod Queue
pub mod Requests
pub mod Recoveries
pub mod Calls
pub mod Run
use okxquant.Prelude.{
  ℕ, ◌≤◌, Bool, true, false, ◌&&◌, ◌≡◌, Option, List, str_eq, All, any_of, is_some,
}
use okxquant.Prelude.Table.{Distinct, IsKeyed}
use okxquant.Gateway.Schema.{Event, Delivery, JobRun, Request, Recovery, JobStatus, Db, is_active}
use okxquant.Gateway.Store.Deliveries.{same_event, same_delivery}
use okxquant.Gateway.Store.Jobs.{is_manual}
use okxquant.Gateway.Store.Recoveries.{same_slot}

abbrev pub delivery_id : Delivery → ℕ
delivery_id d = d.id

abbrev pub run_key : JobRun → ℕ
run_key r = r.id

abbrev pub request_key : Request → ℕ
request_key r = r.request_id

abbrev pub recovery_key : Recovery → ℕ
recovery_key r = r.id

-- deliveries.event_id REFERENCES events
abbrev pub IsRouted : List Event → Delivery → Type 0
IsRouted events d = any_of (λ e. str_eq e.event_id d.event_id) events ≡ true

pub record QueueValid (events : List Event) (deliveries : List Delivery) (seq : ℕ) : Type 0 where
  pub keys : IsKeyed delivery_id seq deliveries
  pub events_once : Distinct same_event events
  pub routes_once : Distinct same_delivery deliveries
  pub routed : All (IsRouted events) deliveries

-- UNIQUE INDEX ON manual_job_requests(job_name) WHERE status IN ('pending','running')
unfoldable pub same_open : Request → Request → Bool
unfolding is_active
same_open a b = is_active a.status && (is_active b.status && str_eq a.job_name b.job_name)

pub record RequestsValid (requests : List Request) (seq : ℕ) : Type 0 where
  pub keys : IsKeyed request_key seq requests
  pub open_once : Distinct same_open requests
  pub manual : All (λ r. is_manual r.job_name ≡ true) requests

-- How far a recovery row has come: it is attempted once at most, and only by a run.
abbrev pub IsStage : JobStatus → ℕ → Option ℕ → Type 0
IsStage JobStatus.pending attempts run = (attempts ≡ 0) × (is_some run ≡ false)
IsStage JobStatus.cancelled attempts run = (attempts ≡ 0) × (is_some run ≡ false)
IsStage JobStatus.running attempts run = (attempts ≡ 1) × (is_some run ≡ true)
IsStage JobStatus.success attempts run = (attempts ≡ 1) × (is_some run ≡ true)
IsStage JobStatus.failed attempts run = (attempts ≡ 1) × (is_some run ≡ true)

abbrev pub HasStage : Recovery → Type 0
HasStage r = IsStage r.status r.attempts r.run_id

pub record RecoveriesValid (recoveries : List Recovery) (seq : ℕ) : Type 0 where
  pub keys : IsKeyed recovery_key seq recoveries
  pub slots_once : Distinct same_slot recoveries
  pub stages : All HasStage recoveries

pub record IsValid (db : Db) : Type 0 where
  pub queue : QueueValid db.events db.deliveries db.delivery_seq
  pub runs : IsKeyed run_key db.run_seq db.job_runs
  pub requests : RequestsValid db.requests db.request_seq
  pub recoveries : RecoveriesValid db.recoveries db.recovery_seq
