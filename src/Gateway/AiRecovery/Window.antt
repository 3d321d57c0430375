-- ===== src/Gateway/AiRecovery/Window.antt =====
-- Proofs on schedule of okxquant_gateway/ai_recovery.py: when it plans a recovery.
use okxquant.Prelude.{
  ℕ, ◌+◌, ◌*◌, ◌%◌, ◌≤◌, ◌<◌, Text, ◌≡◌, inl, inr, Option, none, some, arith, Bool-cases, All,
  length, take, length-take, leb, ◌==◌, not, ◌||◌, any_of,
}
use okxquant.Prelude.Table.{All-insert}
use okxquant.Gateway.Schema.{Recovery, Db}
use okxquant.Gateway.Store.Recoveries.{
  new_recovery, add_recovery, is_recorded, enqueue_ai_recovery, same_slot,
}
use okxquant.Gateway.Scheduler.Due.{seconds}
use okxquant.Gateway.AiRecovery.{
  Failure, Context, World, eligible_failure, slot_start, expiry, clamped_delay, is_empty,
  schedule_at, schedule,
}

-- A planned recovery: it begins 45 seconds into its slot at the earliest, and both its times leave
-- four minutes before the next slot, which begins 900 seconds after this one.
pub record IsPlanned (r : Recovery) : Type 0 where
  pub aligned : r.slot_start % 900 ≡ 0
  pub early : r.slot_start + 45 ≤ r.scheduled_at
  pub late : r.scheduled_at < r.expires_at
  pub margin : r.expires_at + 240 ≡ r.slot_start + 900
  pub scoped : length r.account_scope ≤ 160

clamped_delay_bounds :
    (world : World) (delay : Option ℕ)
    → (45 ≤ clamped_delay world delay) × (clamped_delay world delay ≤ 90)
unfolding clamped_delay
clamped_delay_bounds world none = (omega arith, omega arith)
clamped_delay_bounds world (some d) = (omega arith, omega arith)

enqueue-IsPlanned :
    (clock : ℕ) (scope : Text) (slot scheduled expires : ℕ) (fingerprint : Text) (call : Option ℕ)
    (db : Db)
    → IsPlanned
        (new_recovery (db.recovery_seq + 1) clock scope slot scheduled expires fingerprint call)
    → All IsPlanned db.recoveries
    → All IsPlanned
        (enqueue_ai_recovery clock scope slot scheduled expires fingerprint call db).1.recoveries
unfolding enqueue_ai_recovery add_recovery
enqueue-IsPlanned clock scope slot scheduled expires fingerprint call db new h =
    let row =
      new_recovery (db.recovery_seq + 1) clock scope slot scheduled expires fingerprint call in
    elim (Bool-cases (any_of (λ r. same_slot r row) db.recoveries || not (is_recorded call db))) [
      | inl e ↦ rw e h
      | inr e ↦ rw e (All-insert IsPlanned row db.recoveries h new)
    ]

slot_aligned : (now start : ℕ) → slot_start now ≡ start → start % 900 ≡ 0
unfolding slot_start
slot_aligned now start h = omega arith

slot_begun : (now start : ℕ) → slot_start now ≡ start → start ≤ seconds now
unfolding slot_start
slot_begun now start h = omega arith

schedule_at-IsPlanned :
    (world : World) (failure : Option Failure) (scope : Text) (call delay start : Option ℕ)
    (db : Db)
    → length scope ≤ 160
    → All IsPlanned db.recoveries
    → All IsPlanned (schedule_at world failure scope call delay db start).1.recoveries
unfolding schedule_at
schedule_at-IsPlanned world failure scope call delay none db short h = h
schedule_at-IsPlanned world failure scope call delay (some start) db short h =
    let scheduled = world.now + clamped_delay world delay * 1000000 in
    elim (Bool-cases
      (leb (expiry start * 1000000) world.now || not (slot_start world.now == start))) [
        | inl e ↦ rw e h
        | inr e ↦ rw e (elim (Bool-cases (leb (expiry start * 1000000) scheduled)) [
          | inl k ↦ rw k h
          | inr k ↦
              let same : slot_start world.now ≡ start = ground arith in
              let before : scheduled < expiry start * 1000000 = ground arith in
              let begun = slot_begun world.now start same in
              let delayed = clamped_delay_bounds world delay in
              rw k (
                enqueue-IsPlanned world.clock scope start (seconds scheduled) (expiry start)
                  (world.fingerprint failure) call db
                  (unfold new_recovery in
                    record {
                      aligned = slot_aligned world.now start same;
                      early = omega (arith, begun, delayed.0);
                      late = omega (arith, before);
                      margin = unfold expiry in omega arith;
                      scoped = short;
                    })
                  h)
        ])
      ]

-- Every recovery that schedule writes is planned within its slot: if all recoveries of the database
-- are, then all are afterwards, whatever failed and whatever delay was asked for.
pub schedule-IsPlanned :
    (world : World) (failure : Option Failure) (duration_ms : ℕ) (c : Option Context)
    (call delay : Option ℕ) (db : Db)
    → All IsPlanned db.recoveries
    → All IsPlanned (schedule world failure duration_ms c call delay db).1.recoveries
unfolding schedule
schedule-IsPlanned world failure duration_ms none call delay db h = h
schedule-IsPlanned world failure duration_ms (some c) call delay db h =
    let scope = take 160 c.account_scope in
    let planned =
      schedule_at-IsPlanned world failure scope call delay (world.parse c.slot_start) db
        (omega (arith, length-take {0} 160 c.account_scope)) h in
    elim (Bool-cases (eligible_failure failure duration_ms)) [
      | inr e ↦ rw e h
      | inl e ↦ rw e (elim (Bool-cases world.write_allowed) [
        | inr w ↦ rw w h
        | inl w ↦ rw w (elim (Bool-cases (is_empty scope || is_empty c.slot_start)) [
          | inl m ↦ rw m h
          | inr m ↦ rw m planned
        ])
      ])
    ]
