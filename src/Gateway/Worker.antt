-- ===== src/Gateway/Worker.antt =====
-- okxquant_gateway/worker.py: the delivery loop of run. A channel is an argument: what its send
-- answers for a claimed row.
pub mod Round
pub mod Tries
pub mod Attempts
pub mod Refines
mod Tests
use okxquant.Prelude.{ℕ, Text, List, [], ◌∷◌, Result, ok, err, Error}
use okxquant.Gateway.Schema.{DeliveryStatus, Db}
use okxquant.Gateway.Store.Deliveries.{Claim, claim_due, claim_id, complete, fail}

-- The result of NotificationChannelAdapter(...).send: delivered or accepted with a detail; not; or
-- an exception, as a text.
pub data Sent : Type 0 where
  success : DeliveryStatus → Text → Sent
  failure : Text → Sent
  raised : Text → Sent

-- What a channel and the clock do in one round; `spell` is str of an exception.
pub record Channel : Type 0 where
  pub send : Claim → Sent
  pub clock : Claim → ℕ
  pub spell : Error → Text

-- store.fail with its default maximum.
unfoldable pub give_up : ℕ → Claim → Text → Db → Db
unfolding fail
give_up now c detail db = fail now (claim_id c) c.delivery.attempts detail 6 db

-- The inner try: an exception of store.complete is caught as one of the channel is.
unfoldable pub settle : (Error → Text) → ℕ → Claim → Db → Result Db → Db
unfolding give_up
settle spell now c db (ok db') = db'
settle spell now c db (err e) = give_up now c (spell e) db

unfoldable pub deliver : (Error → Text) → ℕ → Claim → Sent → Db → Db
unfolding settle give_up complete
deliver spell now c (success status detail) db =
    settle spell now c db (complete now (claim_id c) status detail db)
deliver spell now c (failure detail) db = give_up now c detail db
deliver spell now c (raised detail) db = give_up now c detail db

unfoldable pub deliver_all : Channel → List Claim → Db → Db
unfolding deliver
deliver_all channel [] db = db
deliver_all channel (c ∷ rest) db =
    deliver_all channel rest (deliver channel.spell (channel.clock c) c (channel.send c) db)

-- One round of `while RUNNING`: store.claim_due(20) and the loop over what it returned. `others` is
-- what other processes commit within claim_due.
unfoldable pub round : Channel → ℕ → (Db → Db) → Db → Db
unfolding deliver_all claim_due
round channel now others db =
    let (claims, db') = claim_due now 20 others db in deliver_all channel claims db'
