-- ===== src/Gateway/Worker/Tries.antt =====
-- How often the worker tries a delivery: the tries that it has left.
use okxquant.Prelude.{
  ℕ, ◌+◌, ◌≤◌, Text, true, false, ◌≡◌, inl, inr, List, [], ◌∷◌, arith, Bool-cases, All, All-map,
  All-take, map, ◌==◌, Error, take,
}
use okxquant.Prelude.Table.{All-update, All-updated, All-select, select}
use okxquant.Gateway.Schema.{Delivery, DeliveryStatus, Db}
use okxquant.Gateway.Store.Deliveries.{
  Claim, claim_id, is_in, is_waiting, is_due, due_rows, mark_processing, set_processing, complete,
  fail, failed_status, set_failed, set_completed, retry_delay,
}
use okxquant.Gateway.Store.Claims.Queue.{due_rows-All}
use okxquant.Gateway.Worker.{
  Sent, success, failure, raised, Channel, give_up, settle, deliver, deliver_all,
}

-- Delivery i, where it waits, has n tries left at most.
abbrev pub IsLeft : ℕ → ℕ → Delivery → Type 0
IsLeft i n d = d.id ≡ i → is_waiting d.status ≡ true → (d.attempts ≤ 5) × (6 ≤ d.attempts + n)

-- A claim of delivery i was made with one try more.
abbrev IsSpent : ℕ → ℕ → Claim → Type 0
IsSpent i n c = claim_id c ≡ i → (c.delivery.attempts ≤ 5) × (6 ≤ c.delivery.attempts + (n + 1))

failed_waiting : (k : ℕ) → is_waiting (failed_status 6 (k + 1)) ≡ true → k + 1 ≤ 5
unfolding is_waiting failed_status
failed_waiting k h = ground arith

module _ (i n : ℕ) where
  give_up-IsLeft :
      (now : ℕ) (c : Claim) (detail : Text) (db : Db)
      → IsSpent i n c
      → All (IsLeft i n) db.deliveries
      → All (IsLeft i n) (give_up now c detail db).deliveries
  unfolding give_up fail
  give_up-IsLeft now c detail db spent h =
      All-update (IsLeft i n) (λ d. d.id == claim_id c)
        (set_failed (failed_status 6 (c.delivery.attempts + 1)) (c.delivery.attempts + 1)
          (now + retry_delay (c.delivery.attempts + 1)) (take 1000 detail))
        (λ d hit _ own waits.
          let few = failed_waiting c.delivery.attempts waits in
          let one : claim_id c ≡ i = ground arith in
          let more = (spent one).1 in (few, omega (arith, more)))
        db.deliveries h

  deliver-IsLeft :
      (spell : Error → Text) (now : ℕ) (c : Claim) (s : Sent) (db : Db)
      → IsSpent i n c
      → All (IsLeft i n) db.deliveries
      → All (IsLeft i n) (deliver spell now c s db).deliveries
  unfolding deliver settle complete is_waiting
  deliver-IsLeft spell now c (success DeliveryStatus.delivered detail) db spent h =
      All-update (IsLeft i n) (λ d. d.id == claim_id c)
        (set_completed now DeliveryStatus.delivered []) (λ d _ k own w. absurd (cc w)) db.deliveries
        h
  deliver-IsLeft spell now c (success DeliveryStatus.accepted detail) db spent h =
      All-update (IsLeft i n) (λ d. d.id == claim_id c)
        (set_completed now DeliveryStatus.accepted (take 1000 detail))
        (λ d _ k own w. absurd (cc w)) db.deliveries h
  deliver-IsLeft spell now c (success _ detail) db spent h = give_up-IsLeft now c _ db spent h
  deliver-IsLeft spell now c (failure detail) db spent h = give_up-IsLeft now c detail db spent h
  deliver-IsLeft spell now c (raised detail) db spent h = give_up-IsLeft now c detail db spent h

  pub deliver_all-IsLeft :
      (channel : Channel) (cs : List Claim) (db : Db)
      → All (IsSpent i n) cs
      → All (IsLeft i n) db.deliveries
      → All (IsLeft i n) (deliver_all channel cs db).deliveries
  unfolding deliver_all
  deliver_all-IsLeft channel [] db spent h = h
  deliver_all-IsLeft channel (c ∷ cs) db spent h =
      deliver_all-IsLeft channel cs (deliver channel.spell (channel.clock c) c (channel.send c) db)
        spent.1 (deliver-IsLeft channel.spell (channel.clock c) c (channel.send c) db spent.0 h)

  pub mark_processing-IsLeft :
      (ids : List ℕ) (ds : List Delivery)
      → All (IsLeft i n) ds
      → All (IsLeft i n) (mark_processing ids ds)
  unfolding mark_processing is_waiting
  mark_processing-IsLeft [] ds h = h
  mark_processing-IsLeft (j ∷ ids) ds h =
      All-update (IsLeft i n) (λ d. is_in (j ∷ ids) d.id) set_processing
        (λ d _ k own w. absurd (cc w)) ds h

  -- A delivery that was claimed does not wait.
  pub marked-IsLeft :
      (ids : List ℕ) (ds : List Delivery)
      → is_in ids i ≡ true
      → All (IsLeft i n) (mark_processing ids ds)
  unfolding mark_processing is_waiting
  marked-IsLeft [] ds hit = absurd (unfold is_in in cc hit)
  marked-IsLeft (j ∷ ids) ds hit =
      All-updated (IsLeft i n) (λ d. is_in (j ∷ ids) d.id) set_processing
        (λ d _ own w. absurd (cc w)) (λ d miss own w. absurd (cc (own, miss, hit))) ds

-- What was claimed was left over.
pub due_rows-IsLeft :
    (i n now : ℕ) (db : Db)
    → All (IsLeft i n) db.deliveries
    → All
        (λ c. claim_id c ≡ i → (c.delivery.attempts ≤ 5) × (6 ≤ c.delivery.attempts + n))
        (take 20 (due_rows now db))
due_rows-IsLeft i n now db h = All-take _ 20 (due_rows now db) (
    due_rows-All (λ d. d.id ≡ i → (d.attempts ≤ 5) × (6 ≤ d.attempts + n)) now db
      (All-map (λ d. IsLeft i n d × (is_due now d ≡ true))
        (λ d. d.id ≡ i → (d.attempts ≤ 5) × (6 ≤ d.attempts + n))
        (λ d k own. k.0 own (unfold is_due in ground (arith, k.1)))
        (select (is_due now) db.deliveries) (All-select (IsLeft i n) (is_due now) db.deliveries h)))

-- A delivery that is among the claims had a try left.
pub claimed_left :
    (i n : ℕ) (cs : List Claim)
    → All (λ c. claim_id c ≡ i → (c.delivery.attempts ≤ 5) × (6 ≤ c.delivery.attempts + n)) cs
    → is_in (map claim_id cs) i ≡ true
    → 1 ≤ n
unfolding is_in
claimed_left i n [] h hit = absurd (cc hit)
claimed_left i n (c ∷ cs) h hit = elim (Bool-cases (claim_id c == i)) [
  | inl e ↦
      let one : claim_id c ≡ i = ground arith in
      let (few, more) = h.0 one in omega (arith, few, more)
  | inr e ↦ claimed_left i n cs h.1 (rw e at hit)
]

-- Claims of other deliveries use up nothing.
pub unclaimed-IsSpent :
    (i n : ℕ) (cs : List Claim) → is_in (map claim_id cs) i ≡ false → All (IsSpent i n) cs
unfolding is_in
unclaimed-IsSpent i n [] miss = tt
unclaimed-IsSpent i n (c ∷ cs) miss =
    (λ one. absurd (ground (arith, one)), unclaimed-IsSpent i n cs (ground arith))
