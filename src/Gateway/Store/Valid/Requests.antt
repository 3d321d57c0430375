-- ===== src/Gateway/Store/Valid/Requests.antt =====
-- The manual_job_requests part of the invariant under each method on requests and runs.
use okxquant.Prelude.{
  ℕ, ◌+◌, String, Text, Bool, true, false, ◌≡◌, refl, inl, inr, List, arith, eq_iff, Option-cases,
  All-map,
}
use okxquant.Prelude.Table.{
  update, fetch_one, All-update, All-insert, fetch_one-holds, fetch_one-none, update-found,
  Distinct-update, Distinct-insert, IsKeyed-update, IsKeyed-insert,
}
use okxquant.Gateway.Schema.{Request, JobStatus, Db, is_active, is_running}
use okxquant.Gateway.Store.Jobs.{
  is_manual, is_open, new_request, open_request, is_claimable, set_started, start_request,
  claim_job_request, result_status, is_run_of, set_closed,
}
use okxquant.Gateway.Store.Valid.{request_key, same_open, RequestsValid}

-- Rows that an update closes or keeps open can break no uniqueness among the open ones.
module _ (p : Request → Bool) (f : Request → Request)
    (keep_id : (r : Request) → (f r).request_id ≡ r.request_id)
    (keep_name : (r : Request) → (f r).job_name ≡ r.job_name)
    (not_opened : (r : Request)
      → p r ≡ true
      → is_active r.status ≡ false
      → is_active (f r).status ≡ false) where
  pub update-RequestsValid :
      (rows : List Request) (seq : ℕ) → RequestsValid rows seq → RequestsValid (update p f rows) seq
  unfolding same_open
  update-RequestsValid rows seq h = record {
    keys = IsKeyed-update request_key p f keep_id seq rows h.keys;
    open_once =
        Distinct-update same_open p f (λ x y e d. ground (arith, keep_name y, not_opened y e))
          (λ x y e d. ground (arith, keep_name x, not_opened x e)) rows h.open_once;
    manual =
        All-update (λ r. is_manual r.job_name ≡ true) p f (λ r _ m. rw (keep_name r) m) rows
          h.manual;
  }

closed-not_active : (code : ℕ) → is_active (result_status code) ≡ false
unfolding is_active result_status
closed-not_active code = ground arith

pub finish-RequestsValid :
    (now run code : ℕ) (rows : List Request) (seq : ℕ)
    → RequestsValid rows seq
    → RequestsValid (update (is_run_of run) (set_closed now (result_status code)) rows) seq
finish-RequestsValid now run code =
    update-RequestsValid (is_run_of run) (set_closed now (result_status code)) (λ r. refl)
      (λ r. refl) (λ r _ _. closed-not_active code)

failed-not_active : is_active JobStatus.failed ≡ false
unfolding is_active
failed-not_active = refl

pub recover-RequestsValid :
    (now : ℕ) (rows : List Request) (seq : ℕ)
    → RequestsValid rows seq
    → RequestsValid (update (λ r. is_running r.status) (set_closed now JobStatus.failed) rows) seq
recover-RequestsValid now =
    update-RequestsValid (λ r. is_running r.status) (set_closed now JobStatus.failed) (λ r. refl)
      (λ r. refl) (λ r _ _. failed-not_active)

-- A new request comes only where no open one of its name was found.
open_differs :
    (name : String) (x row : Request)
    → row.job_name ≡ name
    → is_open name x ≡ false
    → same_open x row ≡ false
unfolding is_open same_open
open_differs name x row e h = rw e (ground (arith, eq_iff x.job_name name))

pub open_request-RequestsValid :
    (now : ℕ) (name : String) (actor : Text) (db : Db)
    → is_manual name ≡ true
    → RequestsValid db.requests db.request_seq
    → let db' = (open_request now name actor db (fetch_one (is_open name) db.requests)).1 in
      RequestsValid db'.requests db'.request_seq
open_request-RequestsValid now name actor db manual h =
    elim (Option-cases (fetch_one (is_open name) db.requests)) [
      | inr (row, e) ↦ rw e (unfold open_request in h)
      | inl e ↦
          let row = new_request (db.request_seq + 1) now name actor in
          rw e (
            unfold open_request in
            record {
              keys = IsKeyed-insert request_key db.request_seq row db.requests refl h.keys;
              open_once = Distinct-insert same_open row db.requests h.open_once (
                  All-map (λ x. is_open name x ≡ false) (λ x. same_open x row ≡ false)
                    (λ x. open_differs name x row refl) db.requests
                    (fetch_one-none (is_open name) db.requests e));
              manual =
                  All-insert (λ r. is_manual r.job_name ≡ true) row db.requests h.manual manual;
            })
    ]

starts_active :
    (i run : ℕ) (r : Request)
    → is_claimable i r ≡ true
    → is_active r.status ≡ false
    → is_active (set_started run r).status ≡ false
unfolding is_claimable is_active
starts_active i run r e k = ground arith

claimable_id :
    (i : ℕ) (r row : Request)
    → is_claimable i row ≡ true
    → is_claimable i r ≡ true
    → r.request_id ≡ row.request_id
unfolding is_claimable
claimable_id i r row e k = ground arith

pub claim_job_request-RequestsValid :
    (now i : ℕ) (db : Db)
    → RequestsValid db.requests db.request_seq
    → let db' = (claim_job_request now i db).1 in RequestsValid db'.requests db'.request_seq
unfolding claim_job_request
claim_job_request-RequestsValid now i db h =
    elim (Option-cases (fetch_one (is_claimable i) db.requests)) [
      | inl e ↦ rw e (unfold start_request in h)
      | inr (row, e) ↦
          let run = db.run_seq + 1 in
          let found =
            fetch_one-holds (λ r. is_manual r.job_name ≡ true) (is_claimable i) db.requests h.manual
              e in
          let same =
            update-found request_key (is_claimable i) (set_started run) row.request_id db.requests
              (λ r. claimable_id i r row found.1) h.keys.distinct e in
          rw e (
            unfold start_request in
            rw (found.0, same)
              (update-RequestsValid (is_claimable i) (set_started run) (λ r. refl) (λ r. refl)
                (starts_active i run) db.requests db.request_seq h))
    ]
