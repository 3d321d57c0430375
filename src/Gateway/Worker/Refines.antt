-- ===== src/Gateway/Worker/Refines.antt =====
-- Proofs on a round of the worker as a sequence of calls of the store.
use okxquant.Prelude.{
  ℕ, Text, ◌≡◌, refl, inl, inr, List, [], ◌∷◌, Bool-cases, is_some, Error, value_error,
}
use okxquant.Prelude.Table.{fetch_one}
use okxquant.Gateway.Schema.{DeliveryStatus, Db}
use okxquant.Gateway.Store.Call.{Call}
use okxquant.Gateway.Store.Deliveries.{Claim, claim_id, is_due, claim_locked, claim_due, complete}
use okxquant.Gateway.Store.Operations.{apply, run}
use okxquant.Gateway.Store.Valid.{IsValid}
use okxquant.Gateway.Store.Valid.Run.{run-IsValid}
use okxquant.Gateway.Worker.{
  Sent, success, failure, raised, Channel, give_up, settle, deliver, deliver_all, round,
}

failing : ℕ → Claim → Text → ℕ × Call
failing now c detail = (now, Call.fail (claim_id c) c.delivery.attempts detail 6)

completing : ℕ → Claim → DeliveryStatus → Text → ℕ × Call
completing now c status detail = (now, Call.complete (claim_id c) status detail)

-- The calls of the store that one answer of the channel leads to.
unfoldable calls_for : (Error → Text) → ℕ → Claim → Sent → List (ℕ × Call)
unfolding failing completing
calls_for spell now c (success DeliveryStatus.delivered detail) =
    completing now c DeliveryStatus.delivered detail ∷ []
calls_for spell now c (success DeliveryStatus.accepted detail) =
    completing now c DeliveryStatus.accepted detail ∷ []
calls_for spell now c (success status detail) =
    completing now c status detail ∷ failing now c (spell value_error) ∷ []
calls_for spell now c (failure detail) = failing now c detail ∷ []
calls_for spell now c (raised detail) = failing now c detail ∷ []

deliver-run :
    (spell : Error → Text) (now : ℕ) (c : Claim) (s : Sent) (db : Db)
    → deliver spell now c s db ≡ run (calls_for spell now c s) db
unfolding deliver settle give_up complete calls_for run apply
deliver-run spell now c (success DeliveryStatus.delivered detail) db = refl
deliver-run spell now c (success DeliveryStatus.accepted detail) db = refl
deliver-run spell now c (success _ detail) db = refl
deliver-run spell now c (failure detail) db = refl
deliver-run spell now c (raised detail) db = refl

deliver-IsValid :
    (spell : Error → Text) (now : ℕ) (c : Claim) (s : Sent) (db : Db)
    → IsValid db
    → IsValid (deliver spell now c s db)
deliver-IsValid spell now c s db v =
    rw (deliver-run spell now c s db) (run-IsValid (calls_for spell now c s) db v)

deliver_all-IsValid :
    (channel : Channel) (cs : List Claim) (db : Db)
    → IsValid db
    → IsValid (deliver_all channel cs db)
unfolding deliver_all
deliver_all-IsValid channel [] db v = v
deliver_all-IsValid channel (c ∷ cs) db v =
    deliver_all-IsValid channel cs (deliver channel.spell (channel.clock c) c (channel.send c) db)
      (deliver-IsValid channel.spell (channel.clock c) c (channel.send c) db v)

-- A round keeps the constraints of the database, if what others commit within claim_due does.
pub round-IsValid :
    (channel : Channel) (now : ℕ) (others : Db → Db) (db : Db)
    → IsValid db
    → IsValid (others db)
    → IsValid (round channel now others db)
unfolding round claim_due
round-IsValid channel now others db v w =
    elim (Bool-cases (is_some (fetch_one (is_due now) db.deliveries))) [
      | inr e ↦ rw (e, deliver_all) v
      | inl e ↦
          let (rows, db') = claim_locked now 20 (others db) in
          rw e (
            deliver_all-IsValid channel rows db'
              (unfold run apply in run-IsValid ((now, Call.claim_due 20) ∷ []) (others db) w))
    ]
