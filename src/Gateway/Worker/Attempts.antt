-- ===== src/Gateway/Worker/Attempts.antt =====
-- How often the worker tries a delivery, over any number of rounds.
use okxquant.Prelude.{
  ℕ, ◌+◌, ◌-◌, ◌≤◌, String, Text, Bool, true, false, ◌≡◌, refl, inl, inr, List, [], ◌∷◌, arith,
  Bool-cases, Option-cases, is_some, any_of, All, All-map, map, ◌==◌, Error, take, str_eq, ◌∙◌, ◌⊎◌,
}
use okxquant.Prelude.Table.{
  fetch_one, select, count_where, count_where-Distinct, count_where-order_by, count_where-take,
  same_id, All-insert, order_by, insert_or_ignore,
}
use okxquant.Gateway.Schema.{Event, Delivery, DeliveryStatus, Db}
use okxquant.Gateway.Store.Call.{Call}
use okxquant.Gateway.Store.Operations.{apply, run}
use okxquant.Gateway.Store.Deliveries.{
  Claim, claim_id, before, join, is_in, is_due, due_rows, mark_processing, claim_locked, claim_due,
  complete, fail, same_event, same_delivery, new_delivery, publish_to, publish_all, publish,
}
use okxquant.Gateway.Store.Valid.{IsValid, delivery_id}
use okxquant.Gateway.Store.Valid.Run.{run-IsValid}
use okxquant.Gateway.Store.Claims.Queue.{All-true}
use okxquant.Gateway.Worker.{
  Sent, success, failure, raised, Channel, give_up, settle, deliver, deliver_all, round,
}
use okxquant.Gateway.Worker.Refines.{round-IsValid}
use okxquant.Gateway.Worker.Tries.{
  IsLeft, deliver_all-IsLeft, mark_processing-IsLeft, marked-IsLeft, due_rows-IsLeft, claimed_left,
  unclaimed-IsSpent,
}

-- What happens to the queue: an event is published, or the worker makes a round.
pub data Step : Type 0 where
  published : Event → List String → Step
  worked : Channel → ℕ → Step

-- How often delivery i is handed to the channel.
abbrev pub tries : ℕ → List Step → Db → ℕ
tries i [] db = 0
tries i (published event channels ∷ steps) db = tries i steps (publish event channels db)
tries i (worked channel now ∷ steps) db =
    count_where (λ c. claim_id c == i) (claim_due now 20 (λ d. d) db).0
    + tries i steps (round channel now (λ d. d) db)

count_where-join :
    (i : ℕ) (events : List Event) (ds : List Delivery)
    → count_where (λ c. claim_id c == i) (join events ds) ≤ count_where (λ d. d.id == i) ds
unfolding join count_where
count_where-join i events [] = omega arith
count_where-join i events (d ∷ ds) =
    let h = count_where-join i events ds in
    elim (Option-cases (fetch_one (λ e. str_eq e.event_id d.event_id) events)) [
      | inl e ↦ rw e (ground (arith, h))
      | inr (ev, e) ↦ rw e (ground (arith, h))
    ]

count_where-select :
    (i : ℕ) (p : Delivery → Bool) (ds : List Delivery)
    → count_where (λ d. d.id == i) (select p ds) ≤ count_where (λ d. d.id == i) ds
unfolding select count_where
count_where-select i p [] = omega arith
count_where-select i p (d ∷ ds) = ground (arith, count_where-select i p ds)

-- One claim of a delivery in a round at most.
claimed_once :
    (i now : ℕ) (db : Db)
    → IsValid db
    → count_where (λ c. claim_id c == i) (take 20 (due_rows now db)) ≤ 1
claimed_once i now db v =
    let due = select (is_due now) db.deliveries in
    let q : Claim → Bool = λ c. claim_id c == i in
    let ordered = count_where-order_by before q (join db.events due) in
    let one =
      count_where-Distinct (λ d. Unit {0}) (same_id delivery_id) (λ d. d.id == i)
        (λ x y _ _ e k. ground arith) db.deliveries (All-true db.deliveries)
        v.queue.keys.distinct in
    unfold due_rows in
    omega (
      arith,
      count_where-take q 20 (order_by before (join db.events due)),
      ordered,
      count_where-join i db.events due,
      count_where-select i (is_due now) db.deliveries,
      one,
    )

unclaimed_none :
    (i : ℕ) (cs : List Claim)
    → is_in (map claim_id cs) i ≡ false
    → count_where (λ c. claim_id c == i) cs ≡ 0
unfolding is_in count_where
unclaimed_none i [] miss = refl
unclaimed_none i (c ∷ cs) miss = ground (arith, unclaimed_none i cs)

-- A round, for the tries left: those that it makes are taken off.
record IsRound (i n count : ℕ) (db : Db) : Type 0 where
  left : ℕ
  counted : count + left ≤ n
  rows : All (IsLeft i left) db.deliveries

round-IsRound :
    (i n now : ℕ) (channel : Channel) (db : Db)
    → IsValid db
    → All (IsLeft i n) db.deliveries
    → IsRound i n
        (count_where (λ c. claim_id c == i) (claim_due now 20 (λ d. d) db).0)
        (round channel now (λ d. d) db)
unfolding round claim_due claim_locked
round-IsRound i n now channel db v h =
    elim (Bool-cases (is_some (fetch_one (is_due now) db.deliveries))) [
      | inr e ↦
          rw (e, deliver_all)
            (record { left = n; counted = unfold count_where in omega arith; rows = h })
      | inl e ↦ rw e (by_claim (Bool-cases (is_in (map claim_id rows) i)))
    ]
  where
    rows : List Claim
    rows = take 20 (due_rows now db)

    marked : Db
    marked = record db { deliveries = mark_processing (map claim_id rows) db.deliveries }

    due : All (λ c. claim_id c ≡ i → (c.delivery.attempts ≤ 5) × (6 ≤ c.delivery.attempts + n)) rows
    due = due_rows-IsLeft i n now db h

    by_claim :
        (is_in (map claim_id rows) i ≡ true) ⊎ (is_in (map claim_id rows) i ≡ false)
        → IsRound i n (count_where (λ c. claim_id c == i) rows) (deliver_all channel rows marked)
    by_claim (inr miss) = record {
      left = n;
      counted = let none_here = unclaimed_none i rows miss in omega (arith, none_here);
      rows =
          deliver_all-IsLeft i n channel rows marked (unclaimed-IsSpent i n rows miss)
            (mark_processing-IsLeft i n (map claim_id rows) db.deliveries h);
    }
    by_claim (inl hit) =
        let some_left = claimed_left i n rows due hit in
        let once = claimed_once i now db v in
        record {
          left = n - 1;
          counted = omega (arith, some_left, once);
          rows =
              deliver_all-IsLeft i (n - 1) channel rows marked
                (All-map
                  (λ c. claim_id c ≡ i → (c.delivery.attempts ≤ 5) × (6 ≤ c.delivery.attempts + n))
                  (λ c.
                    claim_id c ≡ i
                    → (c.delivery.attempts ≤ 5) × (6 ≤ c.delivery.attempts + (n - 1 + 1)))
                  (λ c k own. let (few, more) = k own in (few, omega (arith, more, some_left))) rows
                  due)
                (marked-IsLeft i (n - 1) (map claim_id rows) db.deliveries hit);
        }

deliver_seq :
    (spell : Error → Text) (now : ℕ) (c : Claim) (s : Sent) (db : Db)
    → (deliver spell now c s db).delivery_seq ≡ db.delivery_seq
unfolding deliver settle give_up complete fail
deliver_seq spell now c (success DeliveryStatus.delivered detail) db = refl
deliver_seq spell now c (success DeliveryStatus.accepted detail) db = refl
deliver_seq spell now c (success _ detail) db = refl
deliver_seq spell now c (failure detail) db = refl
deliver_seq spell now c (raised detail) db = refl

deliver_all_seq :
    (channel : Channel) (cs : List Claim) (db : Db)
    → (deliver_all channel cs db).delivery_seq ≡ db.delivery_seq
unfolding deliver_all
deliver_all_seq channel [] db = refl
deliver_all_seq channel (c ∷ cs) db =
    deliver_all_seq channel cs (deliver channel.spell (channel.clock c) c (channel.send c) db)
    ∙ deliver_seq channel.spell (channel.clock c) c (channel.send c) db

round_seq :
    (channel : Channel) (now : ℕ) (db : Db)
    → (round channel now (λ d. d) db).delivery_seq ≡ db.delivery_seq
unfolding round claim_due claim_locked
round_seq channel now db = elim (Bool-cases (is_some (fetch_one (is_due now) db.deliveries))) [
  | inr e ↦ rw (e, deliver_all) refl
  | inl e ↦ rw e (deliver_all_seq channel (take 20 (due_rows now db)) _)
]

-- What publishing keeps: a new row is another delivery's.
abbrev HasLeft : ℕ → ℕ → Db → Type 0
HasLeft i n db = All (IsLeft i n) db.deliveries × (i ≤ db.delivery_seq)

publish_to-HasLeft :
    (i n : ℕ) (event : Event) (channel : String) (db : Db)
    → HasLeft i n db
    → HasLeft i n (publish_to event channel db)
unfolding publish_to
publish_to-HasLeft i n event channel db (h, below) =
    let row = new_delivery (db.delivery_seq + 1) event channel in
    elim (Bool-cases (any_of (λ d. same_delivery d row) db.deliveries)) [
      | inl e ↦ rw e (h, below)
      | inr e ↦ rw e (
        All-insert (IsLeft i n) row db.deliveries h (λ own w. absurd (other own)),
        omega (arith, below),
      )
    ]
  where
    other : (new_delivery (db.delivery_seq + 1) event channel).id ≡ i → ⊥
    other own = unfold new_delivery in omega (arith, own, below)

publish_all-HasLeft :
    (i n : ℕ) (event : Event) (channels : List String) (db : Db)
    → HasLeft i n db
    → HasLeft i n (publish_all event channels db)
unfolding publish_all
publish_all-HasLeft i n event [] db h = h
publish_all-HasLeft i n event (channel ∷ channels) db h =
    publish_all-HasLeft i n event channels (publish_to event channel db)
      (publish_to-HasLeft i n event channel db h)

-- Whatever the channel answers, at whatever times and however many events are published between the
-- rounds: a delivery with n tries left is handed to the channel n times at most, where a delivery
-- whose row counts a attempts has 6 - a tries left. (Neither a restart nor a replay by hand, which
-- retries a row on purpose, happens in between, and nobody else writes.)
pub tries_bounded :
    (i n : ℕ) (steps : List Step) (db : Db)
    → IsValid db
    → i ≤ db.delivery_seq
    → All (IsLeft i n) db.deliveries
    → tries i steps db ≤ n
tries_bounded i n [] db v below h = omega arith
tries_bounded i n (published event channels ∷ steps) db v below h =
    let (kept, above) =
      publish_all-HasLeft i n event channels
        (record db { events = insert_or_ignore same_event event db.events }) (h, below) in
    tries_bounded i n steps (publish event channels db)
      (unfold run apply in run-IsValid ((0, Call.publish event channels) ∷ []) db v)
      (unfold publish in above) (unfold publish in kept)
tries_bounded i n (worked channel now ∷ steps) db v below h =
    let one = round-IsRound i n now channel db v h in
    let rest =
      tries_bounded i one.left steps (round channel now (λ d. d) db)
        (round-IsValid channel now (λ d. d) db v v) (rw (round_seq channel now db) below)
        one.rows in
    omega (arith, one.counted, rest)
