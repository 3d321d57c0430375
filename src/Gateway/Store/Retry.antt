-- ===== src/Gateway/Store/Retry.antt =====
-- fail and recover_processing: the retry schedule, and what a restart leaves behind.
use okxquant.Prelude.{
  ℕ, zero, suc, ◌+◌, ◌-◌, ◌*◌, ◌≤◌, ◌<◌, min, Text, false, ◌≡◌, ◌≢◌, refl, List, [], ◌∷◌, arith,
  ◌==◌, if◌then◌else◌, Bool-cases, inl, inr, All, take, length, length-take,
}
use native.Mathlib.Numerals.{add-one}
use okxquant.Prelude.Table.{update, All-updated, Pointwise}
use okxquant.Gateway.Schema.{Delivery, DeliveryStatus, JobStatus, Db, is_running}
use okxquant.Gateway.Store.Deliveries.{
  retry_delay, failed_status, set_failed, fail, is_processing, set_retry, recover_deliveries,
}
use okxquant.Gateway.Store.Jobs.{set_abandoned, set_closed, recover_jobs}
use okxquant.Gateway.Store.Recoveries.{set_lost, recover_recoveries}
use okxquant.Gateway.Store.Operations.{recover_processing}

-- The delays in seconds, after the first failure and so on.
delay_table : ℕ → ℕ
delay_table zero = 30
delay_table (suc zero) = 60
delay_table (suc (suc zero)) = 120
delay_table (suc (suc (suc zero))) = 240
delay_table (suc (suc (suc (suc zero)))) = 480
delay_table (suc (suc (suc (suc (suc zero))))) = 960
delay_table (suc (suc (suc (suc (suc (suc zero)))))) = 1920
delay_table _ = 3600

capped : (k : ℕ) → min (suc (suc (suc (suc (suc (suc (suc (suc k))))))) - 1) 7 ≡ 7
capped k = omega arith

retry_delay-eq-delay_table : (k : ℕ) → retry_delay (suc k) ≡ delay_table k
unfolding retry_delay delay_table
retry_delay-eq-delay_table zero = refl
retry_delay-eq-delay_table (suc zero) = refl
retry_delay-eq-delay_table (suc (suc zero)) = refl
retry_delay-eq-delay_table (suc (suc (suc zero))) = refl
retry_delay-eq-delay_table (suc (suc (suc (suc zero)))) = refl
retry_delay-eq-delay_table (suc (suc (suc (suc (suc zero))))) = refl
retry_delay-eq-delay_table (suc (suc (suc (suc (suc (suc zero)))))) = refl
retry_delay-eq-delay_table (suc (suc (suc (suc (suc (suc (suc k))))))) = rw (capped k)

delay_table_step :
    (k : ℕ)
    → (30 ≤ delay_table k)
      × (delay_table k ≤ delay_table (suc k))
      × (delay_table k ≤ 3600)
      × (delay_table (suc k) ≡ min 3600 (2 * delay_table k))
unfolding delay_table
delay_table_step zero = omega arith
delay_table_step (suc zero) = omega arith
delay_table_step (suc (suc zero)) = omega arith
delay_table_step (suc (suc (suc zero))) = omega arith
delay_table_step (suc (suc (suc (suc zero)))) = omega arith
delay_table_step (suc (suc (suc (suc (suc zero))))) = omega arith
delay_table_step (suc (suc (suc (suc (suc (suc zero)))))) = omega arith
delay_table_step _ = omega arith

-- The delay after a failure is between 30 seconds and an hour; after the next failure it is twice
-- as long, or an hour, and so never shorter.
pub retry_delay_bounds :
    (k : ℕ)
    → (30 ≤ retry_delay (suc k))
      × (retry_delay (suc k) ≤ retry_delay (suc (suc k)))
      × (retry_delay (suc k) ≤ 3600)
      × (retry_delay (suc (suc k)) ≡ min 3600 (2 * retry_delay (suc k)))
retry_delay_bounds k =
    rw (retry_delay-eq-delay_table k, retry_delay-eq-delay_table (suc k)) (delay_table_step k)

-- What fail makes of each row `d`: another delivery stays as it is; this one counts one more
-- attempt, is dead exactly when that reaches the maximum, is otherwise due again after 30 seconds
-- at the earliest and an hour at the latest, and keeps at most 1000 characters of the error.
pub record AfterFail (now i attempts most : ℕ) (d d' : Delivery) : Type 0 where
  pub others : d.id ≢ i → d' ≡ d
  pub counted : d.id ≡ i → d'.attempts ≡ attempts + 1
  pub dies : d.id ≡ i → most ≤ attempts + 1 → d'.status ≡ DeliveryStatus.dead
  pub retries : d.id ≡ i → attempts + 1 < most → d'.status ≡ DeliveryStatus.retry
  pub later : d.id ≡ i → now + 30 ≤ d'.next_attempt_at
  pub soon : d.id ≡ i → d'.next_attempt_at ≤ now + 3600
  pub short : d.id ≡ i → length d'.last_error ≤ 1000

failed_dies :
    (attempts most : ℕ)
    → most ≤ attempts + 1
    → failed_status most (attempts + 1) ≡ DeliveryStatus.dead
unfolding failed_status
failed_dies attempts most m = ground arith

failed_retries :
    (attempts most : ℕ)
    → attempts + 1 < most
    → failed_status most (attempts + 1) ≡ DeliveryStatus.retry
unfolding failed_status
failed_retries attempts most m = ground arith

fail_row :
    (now i attempts most : ℕ) (error : Text) (d : Delivery)
    → AfterFail now i attempts most d (
        if d.id == i
        then set_failed
            (failed_status most (attempts + 1))
            (attempts + 1)
            (now + retry_delay (attempts + 1))
            (take 1000 error)
            d
        else d)
fail_row now i attempts most error d = elim (Bool-cases (d.id == i)) [
  | inl e ↦
      let here : d.id ≡ i = ground arith in
      let bounds : (30 ≤ retry_delay (attempts + 1)) × (retry_delay (attempts + 1) ≤ 3600) =
        rw add-one (let b = retry_delay_bounds attempts in (b.0, b.2)) in
      rw e record {
        others = λ away. absurd (away here);
        counted = λ _. refl;
        dies = λ _ m. failed_dies attempts most m;
        retries = λ _ m. failed_retries attempts most m;
        later = λ _. omega (arith, bounds.0);
        soon = λ _. omega (arith, bounds.1);
        short = λ _. omega (arith, length-take {0} 1000 error);
      }
  | inr e ↦
      let away : d.id ≢ i = ground arith in
      rw e record {
        others = λ _. refl;
        counted = λ here. absurd (away here);
        dies = λ here _. absurd (away here);
        retries = λ here _. absurd (away here);
        later = λ here. absurd (away here);
        soon = λ here. absurd (away here);
        short = λ here. absurd (away here);
      }
]

-- fail over the whole table, row by row: the delivery counts one attempt more than was claimed, is
-- dead from the maximum on and otherwise retried, not before half a minute nor later than an hour,
-- with at most 1,000 characters of the error; every other row is as it was.
pub fail-AfterFail :
    (now i attempts most : ℕ) (error : Text) (db : Db)
    → Pointwise
        (AfterFail now i attempts most)
        db.deliveries
        (fail now i attempts error most db).deliveries
unfolding fail
fail-AfterFail now i attempts most error db = go db.deliveries
  where
    go :
        (ds : List Delivery)
        → Pointwise (AfterFail now i attempts most) ds (
            update
              (λ d. d.id == i)
              (set_failed
                (failed_status most (attempts + 1))
                (attempts + 1)
                (now + retry_delay (attempts + 1))
                (take 1000 error))
              ds)
    go [] = tt
    go (d ∷ ds) = unfold update in (fail_row now i attempts most error d, go ds)

-- What a restart leaves behind.
pub record Recovered (db : Db) : Type 0 where
  pub deliveries : All (λ d. is_processing d.status ≡ false) db.deliveries
  pub job_runs : All (λ r. is_running r.status ≡ false) db.job_runs
  pub requests : All (λ r. is_running r.status ≡ false) db.requests
  pub recoveries : All (λ r. is_running r.status ≡ false) db.recoveries

-- After recover_processing nothing is left in progress, in any table: no delivery is being
-- processed, and no run, request or recovery is running.
pub recover_processing-Recovered :
    (now : ℕ) (lost unknown : Text) (db : Db) → Recovered (recover_processing now lost unknown db)
unfolding recover_processing recover_deliveries recover_jobs recover_recoveries is_processing
    is_running
recover_processing-Recovered now lost unknown db = record {
  deliveries =
      All-updated (λ d. is_processing d.status ≡ false) (λ d. is_processing d.status) set_retry
        (λ d _. refl) (λ d e. e) db.deliveries;
  job_runs =
      All-updated (λ r. is_running r.status ≡ false) (λ r. is_running r.status)
        (set_abandoned now lost) (λ r _. refl) (λ r e. e) db.job_runs;
  requests =
      All-updated (λ r. is_running r.status ≡ false) (λ r. is_running r.status)
        (set_closed now JobStatus.failed) (λ r _. refl) (λ r e. e) db.requests;
  recoveries =
      All-updated (λ r. is_running r.status ≡ false) (λ r. is_running r.status)
        (set_lost now unknown) (λ r _. refl) (λ r e. e) db.recoveries;
}
