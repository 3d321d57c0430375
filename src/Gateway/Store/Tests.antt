-- ===== src/Gateway/Store/Tests.antt =====
-- Runs of okxquant_gateway/store.py at concrete inputs.
use okxquant.Prelude.{
  ℕ, ◌≤◌, min, true, false, ◌≡◌, refl, none, List, [], ◌∷◌, arith, All, length, ok, map,
}
use okxquant.Prelude.Table.{
  select, update, fetch_one, insert, insert_or_ignore, count_where, order_by, Grows, Pointwise,
  IsOrdered,
}
use okxquant.Gateway.Schema.{Event, Db, DeliveryStatus, empty}
use okxquant.Gateway.Store.Call.{Call}
use okxquant.Gateway.Store.Deliveries.{
  publish, publish_all, publish_to, claim_locked, claim_id, is_in, due_rows, join, join_row, before,
  is_due, is_waiting, mark_processing, same_event, same_delivery, fail,
}
use okxquant.Gateway.Store.Jobs.{
  finish_job, is_run_of, open_request, is_open, clean_actor, request_job, claim_job_request,
  is_manual,
}
use okxquant.Gateway.Store.Recoveries.{enqueue_ai_recovery, claim_ai_recovery}
use okxquant.Gateway.Store.Operations.{apply, run, recover_processing}
use okxquant.Gateway.Store.Retry.{
  AfterFail, fail-AfterFail, Recovered, recover_processing-Recovered,
}
use okxquant.Gateway.Store.Valid.{IsValid}
use okxquant.Gateway.Store.Valid.Run.{empty-IsValid, run-IsValid}
use okxquant.Gateway.Store.Claims.Held.{releases}
use okxquant.Gateway.Store.Claims.Exclusive.{claim_locked-exclusive}
use okxquant.Gateway.Store.Claims.Follows.{Follows}
use okxquant.Gateway.Store.Claims.Lifecycle.{run-Moved}
use okxquant.Gateway.Store.Claims.Recovery.{claim_ai_recovery-once}
use okxquant.Gateway.Store.Claims.Queue.{IsDue, claim_locked_sound, claim_locked-length}
use okxquant.Gateway.Store.Claims.Request.{request_job-again, finish_job-closes}

abbrev alert : Event
alert = record {
  event_id = "e1";
  event_type = "order_failed";
  title = [];
  message = [];
  payload_json = [];
  priority = 2;
  created_at = 100;
}

-- An alert for two channels.
abbrev published : List (ℕ × Call)
published = (100, Call.publish alert ("wechat" ∷ "email" ∷ [])) ∷ []

-- Then a request that has begun to run, and the recovery of a slot.
abbrev setup : List (ℕ × Call)
setup =
    (100, Call.publish alert ("wechat" ∷ "email" ∷ []))
    ∷ (101, Call.request_job "self_improvement" [])
    ∷ (102, Call.claim_job_request 1)
    ∷ (103, Call.enqueue_ai_recovery [] 900 960 1500 [] none)
    ∷ []

abbrev busy_db : Db
busy_db = run setup empty

busy_db-IsValid : IsValid busy_db
busy_db-IsValid = run-IsValid setup empty empty-IsValid

run-IsValid_example : IsValid busy_db
run-IsValid_example = run-IsValid setup empty empty-IsValid

-- The other delivery is completed, and then the queue is claimed again.
claim_locked-exclusive_example :
    let db = run published empty in
    let first = claim_locked 200 1 db in
    All
      (λ c. is_in (map claim_id first.0) (claim_id c) ≡ false)
      (claim_locked 300 5 (run ((250, Call.complete 2 DeliveryStatus.delivered []) ∷ []) first.1)).0
unfolding run apply publish publish_all publish_to claim_locked due_rows is_in releases join
    join_row select update insert insert_or_ignore order_by before is_due is_waiting mark_processing
    same_event same_delivery
claim_locked-exclusive_example =
    claim_locked-exclusive 200 1 300 5 ((250, Call.complete 2 DeliveryStatus.delivered []) ∷ [])
      (run published empty) (run-IsValid published empty empty-IsValid) (refl, tt)

run-Moved_example :
    let calls : List (ℕ × Call) =
      (960, Call.claim_ai_recovery 1)
      ∷ (970, Call.finish_ai_recovery 1 0 [])
      ∷ (980, Call.cancel_ai_recovery 1 [])
      ∷ [] in
    Grows Follows busy_db.recoveries (run calls busy_db).recoveries
run-Moved_example =
    run-Moved
      ((960, Call.claim_ai_recovery 1)
        ∷ (970, Call.finish_ai_recovery 1 0 [])
        ∷ (980, Call.cancel_ai_recovery 1 [])
        ∷ [])
      busy_db busy_db-IsValid

claim_ai_recovery-once_example :
    (claim_ai_recovery 970 1
      (run ((965, Call.recover_processing [] []) ∷ []) (claim_ai_recovery 960 1 busy_db).1)).0
    ≡ none
unfolding run apply publish publish_all publish_to select update insert insert_or_ignore
    enqueue_ai_recovery claim_job_request request_job
claim_ai_recovery-once_example =
    claim_ai_recovery-once 960 970 1 ((965, Call.recover_processing [] []) ∷ []) busy_db
      (omega arith)

claim_locked-length_example :
    length (claim_locked 200 1 busy_db).0 ≡ min 1 (count_where (is_due 200) busy_db.deliveries)
claim_locked-length_example = claim_locked-length 200 1 busy_db busy_db-IsValid

claim_locked_sound_example :
    let rows = (claim_locked 200 1 busy_db).0 in
    (length rows ≤ 1) × All (IsDue 200) rows × IsOrdered before rows
claim_locked_sound_example = claim_locked_sound 200 1 busy_db

fail-AfterFail_example :
    Pointwise
      (AfterFail 300 1 0 6)
      busy_db.deliveries
      (fail 300 1 0 (116 ∷ []) 6 busy_db).deliveries
fail-AfterFail_example = fail-AfterFail 300 1 0 6 (116 ∷ []) busy_db

recover_processing-Recovered_example :
    Recovered (recover_processing 400 (108 ∷ []) (117 ∷ []) busy_db)
recover_processing-Recovered_example =
    recover_processing-Recovered 400 (108 ∷ []) (117 ∷ []) busy_db

request_job-again_example :
    let (reply, db') =
      open_request 100 "self_improvement"
        (clean_actor (97 ∷ []))
        empty
        (fetch_one (is_open "self_improvement") empty.requests) in
    (request_job 100 "self_improvement" (97 ∷ []) empty ≡ ok (reply, db'))
    × (request_job 105 "self_improvement" (98 ∷ []) db' ≡ ok ((reply.0, true), db'))
unfolding is_manual
request_job-again_example =
    request_job-again 100 105 "self_improvement" (97 ∷ []) (98 ∷ []) empty refl

finish_job-closes_example :
    All (λ r. is_run_of 1 r ≡ false) (finish_job 300 1 1 (101 ∷ []) busy_db).requests
finish_job-closes_example = finish_job-closes 300 1 1 (101 ∷ []) busy_db
