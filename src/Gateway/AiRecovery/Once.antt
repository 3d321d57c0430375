-- ===== src/Gateway/AiRecovery/Once.antt =====
-- Proofs on schedule of okxquant_gateway/ai_recovery.py: which failures it takes, and a second call.
use okxquant.Prelude.{
  ℕ, ◌<◌, Text, Bool, true, false, ◌≡◌, refl, sym, ap, ◌∙◌, ◌⊎◌, Option, none, some, arith, take,
  ◌==◌, not, ◌&&◌, ◌||◌, any_of, if◌then◌else◌,
}
use okxquant.Gateway.Schema.{Recovery, Db}
use okxquant.Prelude.{text_eq}
use okxquant.Gateway.AiRecovery.{
  Failure, Context, World, eligible_failure, cpu_rejected, empty_completion, truncated_completion,
  is_some_of, slot_start, is_empty, schedule_at, schedule,
}

-- The slot of an account is taken.
abbrev taken : Text → ℕ → Db → Bool
taken scope slot db =
    any_of (λ r. text_eq r.account_scope scope && r.slot_start == slot) db.recoveries

-- What an early return of `(none, db)` leaves.
passed :
    (b : Bool) (db : Db) (r : Option Recovery × Db) (row : Recovery)
    → (if b then (none, db) else r).0 ≡ some row
    → (b ≡ false) × ((if b then (none, db) else r) ≡ r)
passed true db r row h = cc
passed false db r row h = (refl, refl)

schedule_passed :
    (world : World) (failure : Option Failure) (duration_ms : ℕ) (c : Context)
    (call delay : Option ℕ) (db : Db) (row : Recovery)
    → (schedule world failure duration_ms (some c) call delay db).0 ≡ some row
    → (eligible_failure failure duration_ms ≡ true)
      × (schedule world failure duration_ms (some c) call delay db
          ≡ schedule_at world failure
              (take 160 c.account_scope)
              call
              delay
              db
              (world.parse c.slot_start))
unfolding schedule
schedule_passed world failure duration_ms c call delay db row h =
    let scope = take 160 c.account_scope in
    let planned = schedule_at world failure scope call delay db (world.parse c.slot_start) in
    let named : Option Recovery × Db =
      if is_empty scope || is_empty c.slot_start then (none, db) else planned in
    let allowed : Option Recovery × Db = if not world.write_allowed then (none, db) else named in
    let e = passed (not (eligible_failure failure duration_ms)) db allowed row h in
    let w = passed (not world.write_allowed) db named row (ap (λ r. r.0) (sym e.1) ∙ h) in
    let m =
      passed (is_empty scope || is_empty c.slot_start) db planned row
        (ap (λ r. r.0) (sym (e.1 ∙ w.1)) ∙ h) in
    (ground (arith, e.0), e.1 ∙ w.1 ∙ m.1)

-- Only a failure of a single attempt that took less than three minutes and was answered with 503 or
-- 200 gets a recovery.
pub schedule_safe :
    (world : World) (f : Failure) (duration_ms : ℕ) (c : Context) (call delay : Option ℕ) (db : Db)
    (row : Recovery)
    → (schedule world (some f) duration_ms (some c) call delay db).0 ≡ some row
    → (is_some_of 1 f.attempts ≡ true)
      × (duration_ms < 180000)
      × ((is_some_of 503 f.http_status ≡ true) ⊎ (is_some_of 200 f.http_status ≡ true))
unfolding eligible_failure cpu_rejected empty_completion truncated_completion
schedule_safe world f duration_ms c call delay db row h =
    let e = (schedule_passed world (some f) duration_ms c call delay db row h).0 in
    (ground (arith, e), ground (arith, e), ground (arith, e))
