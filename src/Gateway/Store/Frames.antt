-- ===== src/Gateway/Store/Frames.antt =====
-- Which tables a method of the store leaves alone, for the methods that branch.
use okxquant.Prelude.{ℕ, String, Text, ◌≡◌, refl, ◌∙◌, List, [], ◌∷◌, arith}
use okxquant.Gateway.Schema.{Event, Delivery, Request, Recovery, Db, DeliveryStatus}
use okxquant.Gateway.Store.Deliveries.{publish_to, publish_all, publish, complete}
use okxquant.Gateway.Store.Jobs.{open_request, request_job, start_request, claim_job_request}
use okxquant.Gateway.Store.Recoveries.{
  add_recovery, start_recovery, claim_ai_recovery, close_recovery, finish_ai_recovery,
}
use okxquant.Gateway.Store.Operations.{or_rollback, result_db}

-- The deliveries, the requests and the recoveries, each with its sequence number.
abbrev pub queue_of : Db → List Delivery × ℕ
queue_of db = (db.deliveries, db.delivery_seq)

abbrev pub requests_of : Db → List Request × ℕ
requests_of db = (db.requests, db.request_seq)

abbrev pub recoveries_of : Db → List Recovery × ℕ
recoveries_of db = (db.recoveries, db.recovery_seq)

module _ (event : Event) where
  requests-publish_to :
      (channel : String) (db : Db) → requests_of (publish_to event channel db) ≡ requests_of db
  unfolding publish_to
  requests-publish_to channel db = ground arith

  recoveries-publish_to :
      (channel : String) (db : Db) → recoveries_of (publish_to event channel db) ≡ recoveries_of db
  unfolding publish_to
  recoveries-publish_to channel db = ground arith

  requests-publish_all :
      (channels : List String) (db : Db)
      → requests_of (publish_all event channels db) ≡ requests_of db
  unfolding publish_all
  requests-publish_all [] db = refl
  requests-publish_all (c ∷ cs) db =
      requests-publish_all cs (publish_to event c db) ∙ requests-publish_to c db

  recoveries-publish_all :
      (channels : List String) (db : Db)
      → recoveries_of (publish_all event channels db) ≡ recoveries_of db
  unfolding publish_all
  recoveries-publish_all [] db = refl
  recoveries-publish_all (c ∷ cs) db =
      recoveries-publish_all cs (publish_to event c db) ∙ recoveries-publish_to c db

  pub requests-publish :
      (channels : List String) (db : Db) → requests_of (publish event channels db) ≡ requests_of db
  unfolding publish
  requests-publish channels db = requests-publish_all channels _

  pub recoveries-publish :
      (channels : List String) (db : Db)
      → recoveries_of (publish event channels db) ≡ recoveries_of db
  unfolding publish
  recoveries-publish channels db = recoveries-publish_all channels _

module _ (now i : ℕ) (detail : Text) (db : Db) where
  pub requests-complete :
      (status : DeliveryStatus)
      → requests_of (or_rollback db (complete now i status detail db)) ≡ requests_of db
  unfolding complete
  requests-complete DeliveryStatus.delivered = refl
  requests-complete _ = refl

  pub recoveries-complete :
      (status : DeliveryStatus)
      → recoveries_of (or_rollback db (complete now i status detail db)) ≡ recoveries_of db
  unfolding complete
  recoveries-complete DeliveryStatus.delivered = refl
  recoveries-complete _ = refl

module _ (now : ℕ) (name : String) (actor : Text) (db : Db) where
  pub queue-request_job : queue_of (result_db db (request_job now name actor db)) ≡ queue_of db
  unfolding request_job open_request
  queue-request_job = ground arith

  pub recoveries-request_job :
      recoveries_of (result_db db (request_job now name actor db)) ≡ recoveries_of db
  unfolding request_job open_request
  recoveries-request_job = ground arith

module _ (now i : ℕ) (db : Db) where
  pub queue-claim_job_request : queue_of (claim_job_request now i db).1 ≡ queue_of db
  unfolding claim_job_request start_request
  queue-claim_job_request = ground arith

  pub recoveries-claim_job_request : recoveries_of (claim_job_request now i db).1 ≡ recoveries_of db
  unfolding claim_job_request start_request
  recoveries-claim_job_request = ground arith

  pub queue-claim_ai_recovery : queue_of (claim_ai_recovery now i db).1 ≡ queue_of db
  unfolding claim_ai_recovery start_recovery
  queue-claim_ai_recovery = ground arith

  pub requests-claim_ai_recovery : requests_of (claim_ai_recovery now i db).1 ≡ requests_of db
  unfolding claim_ai_recovery start_recovery
  requests-claim_ai_recovery = ground arith

module _ (now i code : ℕ) (detail : Text) (db : Db) where
  pub queue-finish_ai_recovery : queue_of (finish_ai_recovery now i code detail db) ≡ queue_of db
  unfolding finish_ai_recovery close_recovery
  queue-finish_ai_recovery = ground arith

  pub requests-finish_ai_recovery :
      requests_of (finish_ai_recovery now i code detail db) ≡ requests_of db
  unfolding finish_ai_recovery close_recovery
  requests-finish_ai_recovery = ground arith

module _ (row : Recovery) (db : Db) where
  pub queue-add_recovery : queue_of (add_recovery row db) ≡ queue_of db
  unfolding add_recovery
  queue-add_recovery = ground arith

  pub requests-add_recovery : requests_of (add_recovery row db) ≡ requests_of db
  unfolding add_recovery
  requests-add_recovery = ground arith
