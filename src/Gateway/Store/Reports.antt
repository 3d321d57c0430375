-- ===== src/Gateway/Store/Reports.antt =====
-- GatewayStore.job_requests, job_runs, ai_recoveries, recent, model_stats, event_health and stats.
pub mod Totals
use okxquant.Prelude.{
  ℕ, ◌+◌, ◌*◌, ◌/◌, min, max, Bool, true, false, ◌&&◌, none, some, List, [], ◌∷◌, ltb, leb, ◌==◌,
  str_eq, take, length, map, String, Text, Option,
}
use okxquant.Prelude.Table.{count_where, order_by}
use okxquant.Gateway.Schema.{
  Event, Delivery, DeliveryStatus, JobRun, Request, ModelCall, Recovery, Db,
}
use okxquant.Gateway.Store.Deliveries.{is_dead, Claim, join}

-- max(1, min(limit, 200))
unfoldable pub row_limit : ℕ → ℕ
row_limit limit = max 1 (min limit 200)

-- ORDER BY request_id DESC LIMIT ?
unfoldable pub job_requests : ℕ → Db → List Request
unfolding row_limit order_by
job_requests limit db =
    take (row_limit limit) (order_by (λ a b. leb b.request_id a.request_id) db.requests)

-- ORDER BY id DESC LIMIT ?
unfoldable pub job_runs : ℕ → Db → List JobRun
unfolding row_limit order_by
job_runs limit db = take (row_limit limit) (order_by (λ a b. leb b.id a.id) db.job_runs)

unfoldable pub ai_recoveries : ℕ → Db → List Recovery
unfolding row_limit order_by
ai_recoveries limit db = take (row_limit limit) (order_by (λ a b. leb b.id a.id) db.recoveries)

-- The columns that recent selects.
pub record RecentRow : Type 0 where
  pub id : ℕ
  pub channel : String
  pub status : DeliveryStatus
  pub attempts : ℕ
  pub last_error : Text
  pub delivered_at : Option ℕ
  pub event_id : String
  pub event_type : String
  pub title : Text
  pub message : Text
  pub priority : ℕ
  pub created_at : ℕ

unfoldable pub recent_row : Claim → RecentRow
recent_row c = record {
  id = c.delivery.id;
  channel = c.delivery.channel;
  status = c.delivery.status;
  attempts = c.delivery.attempts;
  last_error = c.delivery.last_error;
  delivered_at = c.delivery.delivered_at;
  event_id = c.event.event_id;
  event_type = c.event.event_type;
  title = c.event.title;
  message = c.event.message;
  priority = c.event.priority;
  created_at = c.event.created_at;
}

-- ORDER BY d.id DESC LIMIT ?
unfoldable pub recent : ℕ → Db → List RecentRow
unfolding row_limit order_by join recent_row
recent limit db = map recent_row (
    take (row_limit limit)
      (order_by (λ a b. leb b.delivery.id a.delivery.id) (join db.events db.deliveries)))

unfoldable pub sum_of {ℓ} : {A : Type ℓ} → (A → ℕ) → List A → ℕ
sum_of f [] = 0
sum_of f (x ∷ xs) = f x + sum_of f xs

abbrev pub tokens : ModelCall → ℕ
tokens c = elim c.total_tokens [ none ↦ 0 | some n ↦ n ]

pub record ModelStats : Type 0 where
  pub total_calls : ℕ
  pub successful_calls : ℕ
  pub avg_duration_ms : ℕ
  pub total_tokens : ℕ

-- model_stats; ROUND rounds a half up, and the average of no rows is 0.
unfoldable pub model_stats : Db → ModelStats
unfolding count_where sum_of
model_stats db =
    let n = length db.model_calls in
    record {
      total_calls = n;
      successful_calls = count_where (λ c. c.succeeded) db.model_calls;
      avg_duration_ms = (2 * sum_of (λ c. c.duration_ms) db.model_calls + n) / (2 * n);
      total_tokens = sum_of tokens db.model_calls;
    }

-- status IN ('delivered','accepted')
unfoldable pub is_accepted : DeliveryStatus → Bool
is_accepted DeliveryStatus.delivered = true
is_accepted DeliveryStatus.accepted = true
is_accepted _ = false

abbrev pub belongs_to : Event → Delivery → Bool
belongs_to e d = str_eq d.event_id e.event_id

-- A row of the subquery of event_health, GROUP BY e.event_id.
unfoldable pub delivery_count : Db → Event → ℕ
unfolding count_where
delivery_count db e = count_where (belongs_to e) db.deliveries

unfoldable pub accepted_count : Db → Event → ℕ
unfolding count_where is_accepted
accepted_count db e = count_where (λ d. belongs_to e d && is_accepted d.status) db.deliveries

unfoldable pub dead_count : Db → Event → ℕ
unfolding count_where is_dead
dead_count db e = count_where (λ d. belongs_to e d && is_dead d.status) db.deliveries

-- accepted=0 AND delivery_count>0, where SUM over no delivery is 0.
unfoldable pub is_unmet : Db → Event → Bool
unfolding accepted_count delivery_count
is_unmet db e = accepted_count db e == 0 && ltb 0 (delivery_count db e)

pub record EventHealth : Type 0 where
  pub critical_total : ℕ
  pub critical_unmet : ℕ
  pub critical_failed : ℕ
  pub critical_unroutable : ℕ

abbrev pub is_critical : Event → Bool
is_critical e = leb 90 e.priority

unfoldable pub event_health : Db → EventHealth
unfolding count_where is_unmet dead_count delivery_count
event_health db = record {
  critical_total = count_where is_critical db.events;
  critical_unmet = count_where (λ e. is_critical e && is_unmet db e) db.events;
  critical_failed =
      count_where (λ e. is_critical e && (is_unmet db e && dead_count db e == delivery_count db e))
        db.events;
  critical_unroutable = count_where (λ e. is_critical e && delivery_count db e == 0) db.events;
}

pub record Stats : Type 0 where
  pub pending : ℕ
  pub processing : ℕ
  pub retry : ℕ
  pub accepted : ℕ
  pub delivered : ℕ
  pub dead : ℕ

unfoldable pub code : DeliveryStatus → ℕ
code DeliveryStatus.pending = 0
code DeliveryStatus.processing = 1
code DeliveryStatus.retry = 2
code DeliveryStatus.accepted = 3
code DeliveryStatus.delivered = 4
code DeliveryStatus.dead = 5

unfoldable pub with_status : ℕ → Db → ℕ
unfolding count_where code
with_status k db = count_where (λ d. code d.status == k) db.deliveries

-- SELECT status, COUNT(*) GROUP BY status, over a default of 0 for each status.
unfoldable pub stats : Db → Stats
unfolding with_status
stats db = record {
  pending = with_status 0 db;
  processing = with_status 1 db;
  retry = with_status 2 db;
  accepted = with_status 3 db;
  delivered = with_status 4 db;
  dead = with_status 5 db;
}
