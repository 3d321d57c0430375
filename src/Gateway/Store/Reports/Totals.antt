-- ===== src/Gateway/Store/Reports/Totals.antt =====
-- Proofs on the counts that stats and event_health of okxquant_gateway/store.py report.
use okxquant.Prelude.{
  ℕ, ◌+◌, ◌≤◌, Bool, true, ◌&&◌, ◌≡◌, refl, List, [], ◌∷◌, arith, ◌==◌, length, inl, inr,
  Bool-cases, if◌then◌else◌,
}
use okxquant.Prelude.Table.{count_where}
use okxquant.Gateway.Schema.{Event, Delivery, DeliveryStatus, Db}
use okxquant.Gateway.Store.Reports.{
  code, stats, event_health, is_critical, is_unmet, dead_count, delivery_count,
}

count_mono :
    (p q : Event → Bool)
    → ((e : Event) → p e ≡ true → q e ≡ true)
    → (es : List Event) → count_where p es ≤ count_where q es
unfolding count_where
count_mono p q h [] = omega arith
count_mono p q h (e ∷ es) = elim (Bool-cases (p e)) [
  | inl t ↦ rw (t, h e t) (omega (arith, count_mono p q h es))
  | inr f ↦ rw f (omega (arith, count_mono p q h es))
]

counted_once : (s : DeliveryStatus) → (k : ℕ) × (code s ≡ k) × (k ≤ 5)
unfolding code
counted_once DeliveryStatus.pending = (0, refl, omega arith)
counted_once DeliveryStatus.processing = (1, refl, omega arith)
counted_once DeliveryStatus.retry = (2, refl, omega arith)
counted_once DeliveryStatus.accepted = (3, refl, omega arith)
counted_once DeliveryStatus.delivered = (4, refl, omega arith)
counted_once DeliveryStatus.dead = (5, refl, omega arith)

total : List Delivery → ℕ → ℕ
unfolding count_where
total ds k = count_where (λ d. code d.status == k) ds

total-eq-length :
    (ds : List Delivery)
    → total ds 0 + total ds 1 + total ds 2 + total ds 3 + total ds 4 + total ds 5 ≡ length ds
unfolding total
total-eq-length [] = refl
total-eq-length (d ∷ ds) =
    let ih = total-eq-length ds in let (k, e, le) = counted_once d.status in ground arith

-- The six counts of stats add up to the number of deliveries.
pub stats_total :
    (db : Db)
    → let s = stats db in
      s.pending + s.processing + s.retry + s.accepted + s.delivered + s.dead ≡ length db.deliveries
unfolding stats
stats_total db = unfold total in total-eq-length db.deliveries

both-left : (a b : Bool) → (a && b) ≡ true → a ≡ true
both-left a b h = ground arith

failed-unmet :
    (db : Db) (e : Event)
    → (is_critical e && (is_unmet db e && dead_count db e == delivery_count db e)) ≡ true
    → (is_critical e && is_unmet db e) ≡ true
failed-unmet db e h = ground arith

-- Among the critical events, those whose every delivery died are among the unmet ones; and an
-- unmet event has a delivery, so that the unmet and the unroutable ones together are at most all.
pub event_health_bounds :
    (db : Db)
    → let h = event_health db in
      (h.critical_failed ≤ h.critical_unmet)
      × (h.critical_unmet + h.critical_unroutable ≤ h.critical_total)
unfolding event_health
event_health_bounds db = (
  count_mono (λ e. is_critical e && (is_unmet db e && dead_count db e == delivery_count db e))
      (λ e. is_critical e && is_unmet db e) (failed-unmet db) db.events,
  go db.events,
)
  where
    disjoint :
        (e : Event)
        → (if is_critical e && is_unmet db e then 1 else 0)
            + (if is_critical e && delivery_count db e == 0 then 1 else 0)
          ≤ (if is_critical e then 1 else 0)
    disjoint e = unfold is_unmet in ground arith

    go :
        (es : List Event)
        → count_where (λ e. is_critical e && is_unmet db e) es
            + count_where (λ e. is_critical e && delivery_count db e == 0) es
          ≤ count_where is_critical es
    go [] = unfold count_where in omega arith
    go (e ∷ es) = unfold count_where in omega (arith, go es, disjoint e)
