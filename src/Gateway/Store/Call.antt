-- ===== src/Gateway/Store/Call.antt =====
-- The calls of GatewayStore that change the database, as data. `now` is not part of a call.
use okxquant.Prelude.{ℕ, String, Text, Option, List}
use okxquant.Gateway.Schema.{Event, DeliveryStatus, ModelCall}

pub data Call : Type 0 where
  publish : Event → List String → Call
  claim_due : ℕ → Call
  complete : ℕ → DeliveryStatus → Text → Call
  fail : ℕ → ℕ → Text → ℕ → Call
  replay_dead : ℕ → Call
  recover_processing : Text → Text → Call
  request_job : String → Text → Call
  claim_job_request : ℕ → Call
  begin_job : String → Call
  finish_job : ℕ → ℕ → Text → Call
  enqueue_ai_recovery : Text → ℕ → ℕ → ℕ → Text → Option ℕ → Call
  cancel_ai_recovery : ℕ → Text → Call
  claim_ai_recovery : ℕ → Call
  finish_ai_recovery : ℕ → ℕ → Text → Call
  set_state : String → Text → Call
  record_model_call : ModelCall → Option Text → Call
