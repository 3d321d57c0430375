-- ===== src/Gateway/AiRecovery/Tests.antt =====
-- Runs of okxquant_gateway/ai_recovery.py at concrete inputs: a decision that was refused with 503
-- one minute into the slot that begins at 1800000000 seconds.
use okxquant.Prelude.{ℕ, Text, true, false, ◌≡◌, refl, Option, none, some, [], ◌∷◌, All}
use okxquant.Prelude.Table.{fetch_one, update}
use okxquant.Gateway.Schema.{ModelCall, Recovery, JobStatus, Db, empty}
use okxquant.Gateway.Store.Recoveries.{
  claim_ai_recovery, start_recovery, is_unclaimed, finish_ai_recovery,
}
use okxquant.Gateway.Store.Settings.{number, digits}
use okxquant.Gateway.AiRecovery.{
  Failure, Context, World, is_empty, slot_start, schedule, authorized_environment,
}
use okxquant.Gateway.AiRecovery.Window.{IsPlanned, schedule-IsPlanned}
use okxquant.Gateway.AiRecovery.Authority.{issued, authorized-finished, authorized-claimed}

abbrev rejected : Failure
rejected = record {
  category = "http_error";
  http_status = some 503;
  provider_error_code = "system_cpu_overloaded";
  attempts = some 1;
}

abbrev first_code : Text → Option ℕ
first_code [] = none
first_code (c ∷ rest) = some c

abbrev spelled : ℕ → Text
spelled t = t ∷ []

abbrev world_at : ℕ → World
world_at t = record {
  now = t;
  clock = 1800000060;
  parse = first_code;
  random_delay = 60;
  fingerprint = λ f. 102 ∷ [];
  write_allowed = true;
}

abbrev demo : Context
demo = record { account_scope = 100 ∷ []; slot_start = spelled 1800000000 }

abbrev planned : Recovery
planned = record {
  id = 1;
  account_scope = 100 ∷ [];
  slot_start = 1800000000;
  status = JobStatus.pending;
  scheduled_at = 1800000120;
  expires_at = 1800000660;
  created_at = 1800000060;
  started_at = none;
  finished_at = none;
  attempts = 0;
  failure_fingerprint = 102 ∷ [];
  original_model_call_id = some 7;
  run_id = none;
  detail = [];
}

-- The refused call, as it was recorded.
abbrev refused_call : ModelCall
refused_call = record {
  id = 7;
  caller = "trader";
  model = "";
  reasoning_effort = "";
  succeeded = false;
  started_at = 1800000030;
  duration_ms = 900;
  input_chars = 10;
  output_chars = 0;
  prompt_fingerprint = "";
  prompt_transport = "";
  input_tokens = none;
  output_tokens = none;
  total_tokens = none;
  error_type = "";
}

abbrev called_db : Db
called_db = record empty { model_calls = refused_call ∷ []; call_seq = 7 }

abbrev planned_db : Db
planned_db = record empty { recoveries = planned ∷ []; recovery_seq = 1 }

schedule-IsPlanned_example :
    All IsPlanned
      (schedule
        (world_at 1800000060000000)
        (some rejected)
        900
        (some demo)
        (some 7)
        none
        called_db).1.recoveries
schedule-IsPlanned_example =
    schedule-IsPlanned (world_at 1800000060000000) (some rejected) 900 (some demo) (some 7) none
      called_db tt

authorized-finished_example :
    authorized_environment spelled
      (issued spelled (49 ∷ []) planned)
      (finish_ai_recovery 1800000200 1 0 [] planned_db)
    ≡ none
unfolding number digits
authorized-finished_example =
    authorized-finished spelled (issued spelled (49 ∷ []) planned) 1800000200 1 0 [] planned_db refl

abbrev claimed : Recovery
claimed = record planned {
  status = JobStatus.running;
  started_at = some 1800000120;
  attempts = 1;
  run_id = some 1;
}

authorized-claimed_example :
    authorized_environment spelled
      (issued spelled (49 ∷ []) claimed)
      (claim_ai_recovery 1800000120 1 planned_db).1
    ≡ some claimed
unfolding number digits claim_ai_recovery start_recovery is_unclaimed fetch_one update is_empty
authorized-claimed_example =
    authorized-claimed spelled (49 ∷ []) 1800000120 1 planned_db claimed refl refl refl refl
