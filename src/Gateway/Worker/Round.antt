-- ===== src/Gateway/Worker/Round.antt =====
-- What a round of the worker leaves behind.
use okxquant.Prelude.{
  ℕ, ◌+◌, Text, true, false, ◌≡◌, refl, inl, inr, List, [], ◌∷◌, arith, Bool-cases, is_some, All,
  All-map, map, ◌==◌, Error, take,
}
use okxquant.Prelude.Table.{update, fetch_one, All-update}
use okxquant.Gateway.Schema.{Delivery, DeliveryStatus, Db}
use okxquant.Gateway.Store.Deliveries.{
  Claim, claim_id, is_in, is_processing, is_due, due_rows, mark_processing, set_processing,
  claim_locked, claim_due, complete, fail, failed_status, set_failed, set_completed, retry_delay,
}
use okxquant.Gateway.Worker.{
  Sent, success, failure, raised, Channel, give_up, settle, deliver, deliver_all, round,
}

-- A delivery in progress is one of these.
abbrev pub IsAwaited : List ℕ → Delivery → Type 0
IsAwaited ids d = is_processing d.status ≡ true → is_in ids d.id ≡ true

abbrev IsIdle : Delivery → Type 0
IsIdle d = is_processing d.status ≡ false

-- A delivery leaves the list once its row is no longer in progress.
settled :
    (i : ℕ) (ids : List ℕ) (f : Delivery → Delivery)
    → ((d : Delivery) → is_processing (f d).status ≡ false)
    → (ds : List Delivery) → All (IsAwaited (i ∷ ids)) ds
    → All (IsAwaited ids) (update (λ d. d.id == i) f ds)
unfolding update is_in
settled i ids f done [] h = tt
settled i ids f done (d ∷ ds) h = elim (Bool-cases (d.id == i)) [
  | inl e ↦ rw e (λ p. absurd (cc (done d)), settled i ids f done ds h.1)
  | inr e ↦ rw e (λ p. ground (arith, h.0 p), settled i ids f done ds h.1)
]

idle_failed : (most attempts : ℕ) → is_processing (failed_status most attempts) ≡ false
unfolding is_processing failed_status
idle_failed most attempts = ground arith

give_up-IsAwaited :
    (now : ℕ) (c : Claim) (detail : Text) (ids : List ℕ) (db : Db)
    → All (IsAwaited (claim_id c ∷ ids)) db.deliveries
    → All (IsAwaited ids) (give_up now c detail db).deliveries
unfolding give_up fail
give_up-IsAwaited now c detail ids db h =
    settled (claim_id c) ids
      (set_failed (failed_status 6 (c.delivery.attempts + 1)) (c.delivery.attempts + 1)
        (now + retry_delay (c.delivery.attempts + 1)) (take 1000 detail))
      (λ d. idle_failed 6 (c.delivery.attempts + 1)) db.deliveries h

deliver-IsAwaited :
    (spell : Error → Text) (now : ℕ) (c : Claim) (s : Sent) (ids : List ℕ) (db : Db)
    → All (IsAwaited (claim_id c ∷ ids)) db.deliveries
    → All (IsAwaited ids) (deliver spell now c s db).deliveries
unfolding deliver settle complete
deliver-IsAwaited spell now c (success DeliveryStatus.delivered detail) ids db h =
    settled (claim_id c) ids (set_completed now DeliveryStatus.delivered [])
      (λ d. unfold is_processing in refl) db.deliveries h
deliver-IsAwaited spell now c (success DeliveryStatus.accepted detail) ids db h =
    settled (claim_id c) ids (set_completed now DeliveryStatus.accepted (take 1000 detail))
      (λ d. unfold is_processing in refl) db.deliveries h
deliver-IsAwaited spell now c (success _ detail) ids db h = give_up-IsAwaited now c _ ids db h
deliver-IsAwaited spell now c (failure detail) ids db h = give_up-IsAwaited now c detail ids db h
deliver-IsAwaited spell now c (raised detail) ids db h = give_up-IsAwaited now c detail ids db h

awaited_none : (ds : List Delivery) → All (IsAwaited []) ds → All IsIdle ds
unfolding is_in
awaited_none ds h =
    All-map (IsAwaited []) IsIdle
      (λ d k. elim (Bool-cases (is_processing d.status)) [ inl e ↦ absurd (cc (k e)) | inr e ↦ e ])
      ds h

deliver_all-IsIdle :
    (channel : Channel) (cs : List Claim) (db : Db)
    → All (IsAwaited (map claim_id cs)) db.deliveries
    → All IsIdle (deliver_all channel cs db).deliveries
unfolding deliver_all
deliver_all-IsIdle channel [] db h = awaited_none db.deliveries h
deliver_all-IsIdle channel (c ∷ cs) db h =
    deliver_all-IsIdle channel cs (deliver channel.spell (channel.clock c) c (channel.send c) db)
      (deliver-IsAwaited channel.spell (channel.clock c) c (channel.send c) (map claim_id cs) db h)

mark_processing-IsAwaited :
    (ids : List ℕ) (ds : List Delivery)
    → All IsIdle ds
    → All (IsAwaited ids) (mark_processing ids ds)
unfolding mark_processing
mark_processing-IsAwaited [] ds h = All-map IsIdle (IsAwaited []) (λ d k p. absurd (cc)) ds h
mark_processing-IsAwaited (i ∷ ids) ds h =
    All-update (IsAwaited (i ∷ ids)) (λ d. is_in (i ∷ ids) d.id) set_processing (λ d e _ p. e) ds
      (All-map IsIdle (IsAwaited (i ∷ ids)) (λ d k p. absurd (cc)) ds h)

-- Whatever the channel answers or raises, a round leaves no delivery in progress, if none was and
-- what others commit within claim_due leaves none either.
pub round-IsIdle :
    (channel : Channel) (now : ℕ) (others : Db → Db) (db : Db)
    → All (λ d. is_processing d.status ≡ false) db.deliveries
    → All (λ d. is_processing d.status ≡ false) (others db).deliveries
    → All (λ d. is_processing d.status ≡ false) (round channel now others db).deliveries
unfolding round claim_due
round-IsIdle channel now others db h k =
    elim (Bool-cases (is_some (fetch_one (is_due now) db.deliveries))) [
      | inr e ↦ rw (e, deliver_all) h
      | inl e ↦
          let rows = take 20 (due_rows now (others db)) in
          rw e (
            deliver_all-IsIdle channel rows (claim_locked now 20 (others db)).1 (
              unfold claim_locked in
              mark_processing-IsAwaited (map claim_id rows) (others db).deliveries k))
    ]
