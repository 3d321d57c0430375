-- ===== src/Gateway/Worker/Tests.antt =====
-- Runs of okxquant_gateway/worker.py at concrete inputs: an alert for a channel that is down.
use okxquant.Prelude.{List, ◌≤◌, arith, false, ◌≡◌, refl, [], ◌∷◌, All, none}
use okxquant.Gateway.Schema.{Event, Delivery, DeliveryStatus, Db, empty}
use okxquant.Gateway.Store.Deliveries.{is_processing}
use okxquant.Gateway.Worker.{Channel, failure, round}
use okxquant.Prelude.Table.{insert, insert_or_ignore, count_where}
use okxquant.Gateway.Store.Call.{Call}
use okxquant.Gateway.Store.Operations.{apply, run}
use okxquant.Gateway.Store.Deliveries.{
  publish, publish_all, publish_to, new_delivery, same_delivery, same_event,
}
use okxquant.Gateway.Store.Valid.Run.{empty-IsValid, run-IsValid}
use okxquant.Gateway.Worker.Attempts.{Step, published, worked, tries, tries_bounded}
use okxquant.Gateway.Worker.Round.{round-IsIdle}

abbrev down : Channel
down = record { send = λ c. failure (116 ∷ []); clock = λ c. 210; spell = λ e. 86 ∷ [] }

abbrev alert : Event
alert = record {
  event_id = "e1";
  event_type = "order_failed";
  title = [];
  message = [];
  payload_json = [];
  priority = 90;
  created_at = 100;
}

abbrev unsent : Delivery
unsent = record {
  id = 1;
  event_id = "e1";
  channel = "qq";
  status = DeliveryStatus.retry;
  attempts = 5;
  next_attempt_at = 150;
  last_error = [];
  delivered_at = none;
  created_at = 100;
}

abbrev queued : Db
queued = record empty { events = alert ∷ []; deliveries = unsent ∷ []; delivery_seq = 1 }

abbrev alone : Db → Db
alone db = db

round-IsIdle_example :
    All (λ d. is_processing d.status ≡ false) (round down 200 alone queued).deliveries
unfolding is_processing
round-IsIdle_example = round-IsIdle down 200 alone queued (refl, tt) (refl, tt)

-- A new alert: two rounds with a channel that is down, and another event between them.
abbrev raised_alert : Db
raised_alert = run ((100, Call.publish alert ("qq" ∷ [])) ∷ []) empty

abbrev rounds : List Step
rounds =
    worked down 200
    ∷ published (record alert { event_id = "e2" }) ("qq" ∷ [])
    ∷ worked down 400
    ∷ []

tries_bounded_example : tries 1 rounds raised_alert ≤ 6
unfolding run apply publish publish_all publish_to new_delivery same_delivery same_event insert
    insert_or_ignore
tries_bounded_example =
    tries_bounded 1 6 rounds raised_alert
      (run-IsValid ((100, Call.publish alert ("qq" ∷ [])) ∷ []) empty empty-IsValid) (omega arith)
      ((λ own w. (omega arith, omega arith)), tt)

-- It is tried in each of the two rounds.
tried_twice : tries 1 rounds raised_alert ≡ 2
unfolding run apply publish publish_all publish_to new_delivery same_delivery same_event insert
    insert_or_ignore round count_where
tried_twice = refl
