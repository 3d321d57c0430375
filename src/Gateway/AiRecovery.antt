-- ===== src/Gateway/AiRecovery.antt =====
-- okxquant_gateway/ai_recovery.py: which failed decisions of the AI are tried again, and when.
pub mod Window
pub mod Once
pub mod Authority
mod Tests
use okxquant.Prelude.{
  ℕ, ◌+◌, ◌-◌, ◌*◌, ◌%◌, min, max, String, Text, Bool, true, false, ◌&&◌, ◌||◌, not, Option, none,
  some, [], ◌∷◌, ltb, leb, ◌==◌, str_eq, if◌then◌else◌, take,
}
use okxquant.Gateway.Schema.{Recovery, Db, is_running}
use okxquant.Gateway.Store.Recoveries.{enqueue_ai_recovery, ai_recovery}
use okxquant.Prelude.{text_eq}
use okxquant.Gateway.Store.Settings.{number}
use okxquant.Gateway.Scheduler.Due.{seconds}

-- What the code reads of a failure; a missing or empty provider_error_code is "".
pub record Failure : Type 0 where
  pub category : String
  pub http_status : Option ℕ
  pub provider_error_code : String
  pub attempts : Option ℕ

unfoldable pub is_some_of : ℕ → Option ℕ → Bool
is_some_of n none = false
is_some_of n (some k) = k == n

unfoldable pub cpu_rejected : Failure → ℕ → Bool
unfolding is_some_of
cpu_rejected f elapsed =
    str_eq f.category "http_error"
    && (is_some_of 503 f.http_status
        && (str_eq f.provider_error_code "system_cpu_overloaded" && ltb elapsed 10000))

unfoldable pub empty_completion : Failure → ℕ → Bool
unfolding is_some_of
empty_completion f elapsed =
    str_eq f.category "empty_model_output"
    && (is_some_of 200 f.http_status && (str_eq f.provider_error_code "" && ltb elapsed 90000))

unfoldable pub truncated_completion : Failure → ℕ → Bool
unfolding is_some_of
truncated_completion f elapsed =
    str_eq f.category "truncated_model_output"
    && (is_some_of 200 f.http_status && (str_eq f.provider_error_code "" && ltb elapsed 180000))

-- A duration is not negative; `none` is a failure that is no dict.
unfoldable pub eligible_failure : Option Failure → ℕ → Bool
unfolding cpu_rejected empty_completion truncated_completion
eligible_failure none duration_ms = false
eligible_failure (some f) duration_ms =
    is_some_of 1 f.attempts
    && (cpu_rejected f duration_ms
        || (empty_completion f duration_ms || truncated_completion f duration_ms))

-- Of an instant in microseconds: the start of its slot in seconds.
unfoldable pub slot_start : ℕ → ℕ
slot_start now = seconds now - seconds now % (15 * 60)

pub record Context : Type 0 where
  pub account_scope : Text
  pub slot_start : Text

-- context; `format` is strftime.
unfoldable pub context : (ℕ → Text) → Text → ℕ → Context
context format scope now = record {
  account_scope = take 160 scope;
  slot_start = format (slot_start now);
}

-- What schedule takes from outside: the clock, the store's own reading of it, strptime (`none` for
-- ValueError), the random delay, the hash of the failure, and _test_write_allowed.
pub record World : Type 0 where
  pub now : ℕ
  pub clock : ℕ
  pub parse : Text → Option ℕ
  pub random_delay : ℕ
  pub fingerprint : Option Failure → Text
  pub write_allowed : Bool

unfoldable pub expiry : ℕ → ℕ
expiry start = start + (15 * 60 - 4 * 60)

unfoldable pub clamped_delay : World → Option ℕ → ℕ
clamped_delay world none = max 45 (min 90 world.random_delay)
clamped_delay world (some delay) = max 45 (min 90 delay)

unfoldable pub is_empty : Text → Bool
is_empty [] = true
is_empty (c ∷ rest) = false

-- From the parsed start of the slot on.
unfoldable pub schedule_at :
    World → Option Failure → Text → Option ℕ → Option ℕ → Db → Option ℕ → Option Recovery × Db
unfolding expiry clamped_delay enqueue_ai_recovery
schedule_at world failure scope call delay db none = (none, db)
schedule_at world failure scope call delay db (some start) =
    let scheduled = world.now + clamped_delay world delay * 1000000 in
    if leb (expiry start * 1000000) world.now || not (slot_start world.now == start)
    then (none, db)
    else if leb (expiry start * 1000000) scheduled
    then (none, db)
    else enqueue_ai_recovery world.clock scope start (seconds scheduled) (expiry start)
        (world.fingerprint failure) call db

-- schedule; `none` is a recovery_context that is no dict.
unfoldable pub schedule :
    World → Option Failure → ℕ → Option Context → Option ℕ → Option ℕ → Db → Option Recovery × Db
unfolding eligible_failure schedule_at is_empty
schedule world failure duration_ms none call delay db = (none, db)
schedule world failure duration_ms (some c) call delay db =
    let scope = take 160 c.account_scope in
    if not (eligible_failure failure duration_ms)
    then (none, db)
    else if not world.write_allowed
    then (none, db)
    else if is_empty scope || is_empty c.slot_start
    then (none, db)
    else schedule_at world failure scope call delay db (world.parse c.slot_start)

-- The variables that authorized_environment reads; a missing one is empty.
pub record Variables : Type 0 where
  pub ai_recovery : String
  pub recovery_id : Text
  pub account_scope : Text
  pub slot_start : Text

unfoldable pub matches : (ℕ → Text) → Variables → Recovery → Bool
matches format vars r =
    is_running r.status
    && (text_eq r.account_scope vars.account_scope && text_eq (format r.slot_start) vars.slot_start)

unfoldable pub if_matches : (ℕ → Text) → Variables → Option Recovery → Option Recovery
unfolding matches
if_matches format vars none = none
if_matches format vars (some r) = if matches format vars r then some r else none

unfoldable pub authorized_row : (ℕ → Text) → Variables → Db → Option ℕ → Option Recovery
unfolding if_matches ai_recovery
authorized_row format vars db none = none
authorized_row format vars db (some i) = if_matches format vars (ai_recovery i db)

-- authorized_environment; `format` spells a stored slot. A store that cannot be read gives none too.
unfoldable pub authorized_environment : (ℕ → Text) → Variables → Db → Option Recovery
unfolding authorized_row number is_empty
authorized_environment format vars db =
    if not (str_eq vars.ai_recovery "1")
      || (is_empty vars.account_scope || is_empty vars.slot_start)
    then none
    else authorized_row format vars db (number vars.recovery_id)
