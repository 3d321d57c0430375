-- ===== src/Gateway/Store/Claims/Queue.antt =====
-- Proofs on claim_due of okxquant_gateway/store.py: what it returns, and in which order.
use okxquant.Prelude.{
  ℕ, ◌≤◌, Bool, true, false, ◌≡◌, refl, inl, inr, some, List, [], ◌∷◌, arith, str_eq, Bool-cases,
  Option-cases, All, All-map, All-take, length, length-take, min,
}
use okxquant.Prelude.Table.{
  select, fetch_one, count_where, order_by, IsOrdered, IsOrdered-take, order_by-IsOrdered,
  All-order_by, All-select, length-order_by,
}
use okxquant.Gateway.Schema.{Event, Delivery, Db}
use okxquant.Gateway.Store.Deliveries.{Claim, is_due, join, before, due_rows, claim_locked}
use okxquant.Gateway.Store.Valid.{IsRouted, IsValid}

abbrev pub IsDue : ℕ → Claim → Type 0
IsDue now c = is_due now c.delivery ≡ true

All-join :
    (P : Delivery → Type 0) (events : List Event) (ds : List Delivery)
    → All P ds
    → All (λ c. P c.delivery) (join events ds)
unfolding join
All-join P events [] h = tt
All-join P events (d ∷ ds) h =
    elim (Option-cases (fetch_one (λ e. str_eq e.event_id d.event_id) events)) [
      | inl e ↦ rw e (All-join P events ds h.1)
      | inr (ev, e) ↦ rw e (h.0, All-join P events ds h.1)
    ]

pub All-true : (ds : List Delivery) → All (λ d. Unit {0}) ds
All-true [] = tt
All-true (d ∷ ds) = (tt, All-true ds)

-- What holds of every due delivery of the table holds of every row that is read.
pub due_rows-All :
    (P : Delivery → Type 0) (now : ℕ) (db : Db)
    → All P (select (is_due now) db.deliveries)
    → All (λ c. P c.delivery) (due_rows now db)
unfolding due_rows
due_rows-All P now db h =
    All-order_by (λ c. P c.delivery) before (join db.events (select (is_due now) db.deliveries))
      (All-join P db.events (select (is_due now) db.deliveries) h)

before_total : (a b : Claim) → before a b ≡ false → before b a ≡ true
unfolding before
before_total a b h = ground arith

before_trans : (a b c : Claim) → before a b ≡ true → before b c ≡ true → before a c ≡ true
unfolding before
before_trans a b c h k = ground arith

-- claim_locked returns at most `limit` rows, each waiting and due at `now`, in the order of falling
-- priority and, within a priority, of rising id.
pub claim_locked_sound :
    (now limit : ℕ) (db : Db)
    → let rows = (claim_locked now limit db).0 in
      (length rows ≤ limit) × All (IsDue now) rows × IsOrdered before rows
unfolding claim_locked
claim_locked_sound now limit db = (
  omega (arith, length-take limit (due_rows now db)),
  All-take (IsDue now) limit (due_rows now db) (
      due_rows-All (λ d. is_due now d ≡ true) now db
        (All-map (λ d. Unit {0} × (is_due now d ≡ true)) (λ d. is_due now d ≡ true) (λ d h. h.1)
          (select (is_due now) db.deliveries)
          (All-select (λ d. Unit {0}) (is_due now) db.deliveries (All-true db.deliveries)))),
  IsOrdered-take before limit (due_rows now db) (
      unfold due_rows in
      order_by-IsOrdered before_total before_trans
        (join db.events (select (is_due now) db.deliveries))),
)

fetch_routed :
    (events : List Event) (d : Delivery)
    → IsRouted events d
    → (e : Event) × (fetch_one (λ e. str_eq e.event_id d.event_id) events ≡ some e)
unfolding fetch_one
fetch_routed [] d h = cc
fetch_routed (x ∷ xs) d h = elim (Bool-cases (str_eq x.event_id d.event_id)) [
  | inl e ↦ (x, rw e)
  | inr e ↦ rw e (fetch_routed xs d (rw e at h))
]

length-join :
    (events : List Event) (ds : List Delivery)
    → All (IsRouted events) ds
    → length (join events ds) ≡ length ds
unfolding join
length-join events [] h = refl
length-join events (d ∷ ds) h =
    let found = fetch_routed events d h.0 in rw found.1 (omega (arith, length-join events ds h.1))

length-select : (p : Delivery → Bool) (ds : List Delivery) → length (select p ds) ≡ count_where p ds
unfolding select count_where
length-select p [] = refl
length-select p (d ∷ ds) = ground (arith, length-select p ds)

-- In a database that satisfies the constraints a claim leaves no due delivery behind but for the
-- limit: it returns all of them, or as many as the limit says.
pub claim_locked-length :
    (now limit : ℕ) (db : Db)
    → IsValid db
    → length (claim_locked now limit db).0 ≡ min limit (count_where (is_due now) db.deliveries)
unfolding claim_locked due_rows
claim_locked-length now limit db v =
    let due = select (is_due now) db.deliveries in
    let routed : All (IsRouted db.events) due =
      All-map (λ d. IsRouted db.events d × (is_due now d ≡ true)) (IsRouted db.events) (λ d h. h.0)
        due (All-select (IsRouted db.events) (is_due now) db.deliveries v.queue.routed) in
    omega (
      arith,
      length-take limit (order_by before (join db.events due)),
      length-order_by {0} before (join db.events due),
      length-join db.events due routed,
      length-select (is_due now) db.deliveries,
    )
