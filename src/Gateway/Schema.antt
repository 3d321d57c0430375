-- ===== src/Gateway/Schema.antt =====
-- okxquant_gateway/store.py, SCHEMA: a row type for each table, and the database.
-- A time is the number of seconds since the epoch: the columns hold '%Y-%m-%d %H:%M:%S' in a fixed
-- zone, whose order as text is the order in time. An empty time is `none`, and so is NULL.
use okxquant.Prelude.{ℕ, String, Text, Bool, true, false, Option, List, []}

-- deliveries.status
pub data DeliveryStatus : Type 0 where
  pending processing retry delivered accepted dead : DeliveryStatus

-- The status column of job_runs, manual_job_requests and ai_recovery_jobs.
pub data JobStatus : Type 0 where
  pending running success failed cancelled : JobStatus

unfoldable pub is_pending : JobStatus → Bool
is_pending JobStatus.pending = true
is_pending _ = false

unfoldable pub is_running : JobStatus → Bool
is_running JobStatus.running = true
is_running _ = false

-- status IN ('pending','running')
unfoldable pub is_active : JobStatus → Bool
is_active JobStatus.pending = true
is_active JobStatus.running = true
is_active _ = false

-- GatewayEvent, a row of events. Priorities are not negative.
pub record Event : Type 0 where
  pub event_id : String
  pub event_type : String
  pub title : Text
  pub message : Text
  pub payload_json : Text
  pub priority : ℕ
  pub created_at : ℕ

pub record Delivery : Type 0 where
  pub id : ℕ
  pub event_id : String
  pub channel : String
  pub status : DeliveryStatus
  pub attempts : ℕ
  pub next_attempt_at : ℕ
  pub last_error : Text
  pub delivered_at : Option ℕ
  pub created_at : ℕ

pub record JobRun : Type 0 where
  pub id : ℕ
  pub job_name : String
  pub status : JobStatus
  pub started_at : ℕ
  pub finished_at : Option ℕ
  pub return_code : Option ℕ
  pub detail : Text

pub record Request : Type 0 where
  pub request_id : ℕ
  pub job_name : String
  pub actor : Text
  pub status : JobStatus
  pub created_at : ℕ
  pub finished_at : Option ℕ
  pub run_id : Option ℕ

pub record ModelCall : Type 0 where
  pub id : ℕ
  pub caller : String
  pub model : String
  pub reasoning_effort : String
  pub succeeded : Bool
  pub started_at : ℕ
  pub duration_ms : ℕ
  pub input_chars : ℕ
  pub output_chars : ℕ
  pub prompt_fingerprint : String
  pub prompt_transport : String
  pub input_tokens : Option ℕ
  pub output_tokens : Option ℕ
  pub total_tokens : Option ℕ
  pub error_type : String

pub record Recovery : Type 0 where
  pub id : ℕ
  pub account_scope : Text
  pub slot_start : ℕ
  pub status : JobStatus
  pub scheduled_at : ℕ
  pub expires_at : ℕ
  pub created_at : ℕ
  pub started_at : Option ℕ
  pub finished_at : Option ℕ
  pub attempts : ℕ
  pub failure_fingerprint : Text
  pub original_model_call_id : Option ℕ
  pub run_id : Option ℕ
  pub detail : Text

-- A runtime_state row.
pub record Setting : Type 0 where
  pub key : String
  pub value : Text

-- The tables, and the sequence number of each AUTOINCREMENT key.
pub record Db : Type 0 where
  pub events : List Event
  pub deliveries : List Delivery
  pub delivery_seq : ℕ
  pub job_runs : List JobRun
  pub run_seq : ℕ
  pub requests : List Request
  pub request_seq : ℕ
  pub settings : List Setting
  pub model_calls : List ModelCall
  pub call_seq : ℕ
  pub transports : List (ℕ × Text)
  pub recoveries : List Recovery
  pub recovery_seq : ℕ

-- GatewayStore(path) on a new file.
abbrev pub empty : Db
empty = record {
  events = [];
  deliveries = [];
  delivery_seq = 0;
  job_runs = [];
  run_seq = 0;
  requests = [];
  request_seq = 0;
  settings = [];
  model_calls = [];
  call_seq = 0;
  transports = [];
  recoveries = [];
  recovery_seq = 0;
}
