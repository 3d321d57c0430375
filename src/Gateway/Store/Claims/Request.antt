-- ===== src/Gateway/Store/Claims/Request.antt =====
-- Proofs on the manual requests of okxquant_gateway/store.py.
use okxquant.Prelude.{
  ℕ, ◌+◌, String, Text, true, false, ◌≡◌, ◌≢◌, refl, inl, inr, Option, none, some, arith, eq_iff,
  str_eq, Bool-cases, Option-cases, Result, ok, err, value_error, All,
}
use okxquant.Prelude.Table.{fetch_one-insert, fetch_one, insert, All-updated}
use okxquant.Gateway.Schema.{Request, Db, is_active, is_running}
use okxquant.Gateway.Store.Jobs.{
  is_manual, clean_actor, is_open, new_request, open_request, request_job, finish_job, is_run_of,
  set_closed, result_status,
}

-- The row that a request got, and whether it was there before.
abbrev pub answer {ℓ} : {A : Type ℓ} {B : Type 0} → Result (A × B) → Option A
answer (ok (a, b)) = some a
answer (err e) = none

new_is_open :
    (id now : ℕ) (name : String) (actor : Text)
    → is_open name (new_request id now name actor) ≡ true
unfolding is_open is_active new_request
new_is_open id now name actor = rw ((eq_iff name name).1 refl)

-- The open request of a name after request_job is the row that it returned.
opened_found :
    (now : ℕ) (name : String) (actor : Text) (db : Db)
    → let (reply, db') = open_request now name actor db (fetch_one (is_open name) db.requests) in
      fetch_one (is_open name) db'.requests ≡ some reply.0
opened_found now name actor db = elim (Option-cases (fetch_one (is_open name) db.requests)) [
  | inr (row, e) ↦ rw e (unfold open_request in e)
  | inl e ↦ rw e (
      unfold open_request insert in
      fetch_one-insert (is_open name) db.requests (new_request (db.request_seq + 1) now name actor)
        e (new_is_open (db.request_seq + 1) now name actor))
]

-- Two requests for a manual job with no call of the store between them, by anybody and at any two
-- times: the second changes nothing and answers with the row of the first, marked as deduplicated.
pub request_job-again :
    (now later : ℕ) (name : String) (actor other : Text) (db : Db)
    → is_manual name ≡ true
    → let (reply, db') =
        open_request now name (clean_actor actor) db (fetch_one (is_open name) db.requests) in
      (request_job now name actor db ≡ ok (reply, db'))
      × (request_job later name other db' ≡ ok ((reply.0, true), db'))
request_job-again now later name actor other db manual =
    let found = opened_found now name (clean_actor actor) db in
    (
      unfold request_job in rw manual,
      unfold request_job in rw (manual, found) (unfold open_request in refl),
    )

-- Only the manual job may be requested: any other name raises ValueError.
pub request_job-refused :
    (now : ℕ) (name : String) (actor : Text) (db : Db)
    → name ≢ "self_improvement"
    → request_job now name actor db ≡ err value_error
unfolding request_job is_manual
request_job-refused now name actor db other = elim (Bool-cases (str_eq name "self_improvement")) [
  | inl e ↦ absurd (other ((eq_iff name "self_improvement").0 e))
  | inr e ↦ rw e
]

closed_not_run_of :
    (run now code : ℕ) (r : Request) → is_run_of run (set_closed now (result_status code) r) ≡ false
unfolding is_run_of is_running result_status
closed_not_run_of run now code r = ground arith

-- finish_job leaves no running request that belongs to the run, whatever its return code.
pub finish_job-closes :
    (now run code : ℕ) (detail : Text) (db : Db)
    → All (λ r. is_run_of run r ≡ false) (finish_job now run code detail db).requests
unfolding finish_job
finish_job-closes now run code detail db =
    All-updated (λ r. is_run_of run r ≡ false) (is_run_of run) (set_closed now (result_status code))
      (λ r _. closed_not_run_of run now code r) (λ r e. e) db.requests
