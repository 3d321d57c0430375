-- ===== src/Gateway/Store/Valid/Recoveries.antt =====
-- The ai_recovery_jobs part of the invariant under each method on recoveries.
use okxquant.Prelude.{
  ◌||◌, not, ℕ, ◌+◌, Text, Bool, true, false, ◌≡◌, refl, inl, inr, Option, List, arith, ◌==◌,
  Bool-cases, Option-cases, All-any_of, any_of,
}
use okxquant.Prelude.Table.{
  update, insert, fetch_one, All-update, All-insert, update-found, Distinct-update, Distinct-insert,
  IsKeyed-update, IsKeyed-insert,
}
use okxquant.Gateway.Schema.{Recovery, Db, is_pending, is_running}
use okxquant.Gateway.Store.Jobs.{result_status}
use okxquant.Gateway.Store.Recoveries.{
  same_slot, new_recovery, add_recovery, is_recorded, enqueue_ai_recovery, is_cancellable,
  set_cancelled, is_unclaimed, set_recovering, start_recovery, claim_ai_recovery, is_recovering,
  set_recovered, close_recovery, finish_ai_recovery, set_lost,
}
use okxquant.Gateway.Store.Valid.{recovery_key, HasStage, RecoveriesValid, IsValid}

-- An update that keeps the id and the slot of a row, and a stage where it had one.
module _ (p : Recovery → Bool) (f : Recovery → Recovery)
    (keep_id : (r : Recovery) → (f r).id ≡ r.id)
    (keep_scope : (r : Recovery) → (f r).account_scope ≡ r.account_scope)
    (keep_slot : (r : Recovery) → (f r).slot_start ≡ r.slot_start)
    (stage : (r : Recovery) → p r ≡ true → HasStage r → HasStage (f r)) where
  pub update-RecoveriesValid :
      (rows : List Recovery) (seq : ℕ)
      → RecoveriesValid rows seq
      → RecoveriesValid (update p f rows) seq
  unfolding same_slot
  update-RecoveriesValid rows seq h = record {
    keys = IsKeyed-update recovery_key p f keep_id seq rows h.keys;
    slots_once =
        Distinct-update same_slot p f (λ x y _ d. rw (keep_scope y, keep_slot y) d)
          (λ x y _ d. rw (keep_scope x, keep_slot x) d) rows h.slots_once;
    stages = All-update HasStage p f stage rows h.stages;
  }

-- A new row for a slot that has none.
insert-RecoveriesValid :
    (row : Recovery) (rows : List Recovery) (seq : ℕ)
    → row.id ≡ seq + 1
    → HasStage row
    → any_of (λ r. same_slot r row) rows ≡ false
    → RecoveriesValid rows seq
    → RecoveriesValid (insert row rows) (seq + 1)
insert-RecoveriesValid row rows seq fresh stage unused h = record {
  keys = IsKeyed-insert recovery_key seq row rows fresh h.keys;
  slots_once =
      Distinct-insert same_slot row rows h.slots_once
        (All-any_of (λ r. same_slot r row) rows unused);
  stages = All-insert HasStage row rows h.stages stage;
}

pub enqueue-IsValid :
    (now : ℕ) (scope : Text) (slot scheduled expires : ℕ) (fingerprint : Text) (call : Option ℕ)
    (db : Db)
    → IsValid db
    → IsValid (enqueue_ai_recovery now scope slot scheduled expires fingerprint call db).1
unfolding enqueue_ai_recovery add_recovery
enqueue-IsValid now scope slot scheduled expires fingerprint call db v =
    let row =
      new_recovery (db.recovery_seq + 1) now scope slot scheduled expires fingerprint call in
    elim (Bool-cases (any_of (λ r. same_slot r row) db.recoveries || not (is_recorded call db))) [
      | inl e ↦ rw e v
      | inr e ↦ rw e record {
        queue = v.queue;
        runs = v.runs;
        requests = v.requests;
        recoveries =
            insert-RecoveriesValid row db.recoveries db.recovery_seq refl (refl, refl)
              (ground (arith, e)) v.recoveries;
      }
    ]

cancel_stage :
    (now i : ℕ) (detail : Text) (r : Recovery)
    → is_cancellable i r ≡ true
    → HasStage r
    → HasStage (set_cancelled now detail r)
unfolding is_cancellable is_pending
cancel_stage now i detail r e h = ground arith

pub cancel-RecoveriesValid :
    (now i : ℕ) (detail : Text) (rows : List Recovery) (seq : ℕ)
    → RecoveriesValid rows seq
    → RecoveriesValid (update (is_cancellable i) (set_cancelled now detail) rows) seq
cancel-RecoveriesValid now i detail =
    update-RecoveriesValid (is_cancellable i) (set_cancelled now detail) (λ r. refl) (λ r. refl)
      (λ r. refl) (cancel_stage now i detail)

unclaimed_id : (i : ℕ) (r : Recovery) → is_unclaimed i r ≡ true → r.id ≡ i
unfolding is_unclaimed
unclaimed_id i r e = ground arith

pub claim-RecoveriesValid :
    (now i : ℕ) (db : Db)
    → RecoveriesValid db.recoveries db.recovery_seq
    → let db' = (claim_ai_recovery now i db).1 in RecoveriesValid db'.recoveries db'.recovery_seq
unfolding claim_ai_recovery
claim-RecoveriesValid now i db h = elim (Option-cases (fetch_one (is_unclaimed i) db.recoveries)) [
  | inl e ↦ rw e (unfold start_recovery in h)
  | inr (row, e) ↦ rw e (
      unfold start_recovery in
      update-RecoveriesValid (λ r. r.id == i) (set_recovering now (db.run_seq + 1)) (λ r. refl)
        (λ r. refl) (λ r. refl) (λ r _ _. (refl, refl)) db.recoveries db.recovery_seq h)
]

finish_stage :
    (now i code : ℕ) (detail : Text) (r : Recovery)
    → is_recovering i r ≡ true
    → HasStage r
    → HasStage (set_recovered now code detail r)
unfolding is_recovering is_running result_status
finish_stage now i code detail r e h = ground arith

recovering_id : (i : ℕ) (r : Recovery) → is_recovering i r ≡ true → r.id ≡ i
unfolding is_recovering
recovering_id i r e = ground arith

pub finish-RecoveriesValid :
    (now i code : ℕ) (detail : Text) (db : Db)
    → RecoveriesValid db.recoveries db.recovery_seq
    → let db' = finish_ai_recovery now i code detail db in
      RecoveriesValid db'.recoveries db'.recovery_seq
unfolding finish_ai_recovery
finish-RecoveriesValid now i code detail db h =
    elim (Option-cases (fetch_one (is_recovering i) db.recoveries)) [
      | inl e ↦ rw e (unfold close_recovery in h)
      | inr (row, e) ↦
          let same =
            update-found recovery_key (is_recovering i) (set_recovered now code detail) i
              db.recoveries (recovering_id i) h.keys.distinct e in
          rw e (
            unfold close_recovery in
            rw same (
              update-RecoveriesValid (is_recovering i) (set_recovered now code detail) (λ r. refl)
                (λ r. refl) (λ r. refl) (finish_stage now i code detail) db.recoveries
                db.recovery_seq h))
    ]

lost_stage :
    (now : ℕ) (detail : Text) (r : Recovery)
    → is_running r.status ≡ true
    → HasStage r
    → HasStage (set_lost now detail r)
unfolding is_running
lost_stage now detail r e h = ground arith

pub recover-RecoveriesValid :
    (now : ℕ) (detail : Text) (rows : List Recovery) (seq : ℕ)
    → RecoveriesValid rows seq
    → RecoveriesValid (update (λ r. is_running r.status) (set_lost now detail) rows) seq
recover-RecoveriesValid now detail =
    update-RecoveriesValid (λ r. is_running r.status) (set_lost now detail) (λ r. refl) (λ r. refl)
      (λ r. refl) (lost_stage now detail)
