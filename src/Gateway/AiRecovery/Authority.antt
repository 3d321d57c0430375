-- ===== src/Gateway/AiRecovery/Authority.antt =====
-- Proofs on authorized_environment of okxquant_gateway/ai_recovery.py against the store.
use okxquant.Prelude.{
  ℕ, ◌+◌, Text, true, false, ◌≡◌, refl, inl, inr, Option, none, some, arith, Option-cases, ◌==◌,
  All,
}
use okxquant.Prelude.{text_eq_refl}
use okxquant.Prelude.Table.{fetch_one, fetch_one-holds, fetch_one-none, update, All-updated}
use okxquant.Gateway.Schema.{Recovery, Db, is_running}
use okxquant.Gateway.Store.Jobs.{result_status}
use okxquant.Gateway.Store.Recoveries.{
  ai_recovery, claim_ai_recovery, is_unclaimed, start_recovery, set_recovering, finish_ai_recovery,
  close_recovery, is_recovering, set_recovered,
}
use okxquant.Gateway.Store.Settings.{number}
use okxquant.Gateway.AiRecovery.{
  Variables, is_empty, matches, if_matches, authorized_row, authorized_environment,
}

pub finished_stopped :
    (now i code : ℕ) (detail : Text) (db : Db)
    → All (λ r. is_recovering i r ≡ false) (finish_ai_recovery now i code detail db).recoveries
unfolding finish_ai_recovery close_recovery
finished_stopped now i code detail db =
    elim (Option-cases (fetch_one (is_recovering i) db.recoveries)) [
      | inl e ↦ rw e (fetch_one-none (is_recovering i) db.recoveries e)
      | inr (row, e) ↦ rw e (
          All-updated (λ r. is_recovering i r ≡ false) (λ r. r.id == i)
            (set_recovered now code detail)
            (λ r _. unfold is_recovering is_running result_status in ground arith)
            (λ r k. unfold is_recovering in rw k refl) db.recoveries)
    ]

row_refused :
    (format : ℕ → Text) (vars : Variables) (i : ℕ) (db : Db)
    → All (λ r. is_recovering i r ≡ false) db.recoveries
    → if_matches format vars (ai_recovery i db) ≡ none
unfolding if_matches ai_recovery
row_refused format vars i db h = elim (Option-cases (fetch_one (λ r. r.id == i) db.recoveries)) [
  | inl e ↦ rw e
  | inr (row, e) ↦
      let found =
        fetch_one-holds (λ r. is_recovering i r ≡ false) (λ r. r.id == i) db.recoveries h e in
      let refused : matches format vars row ≡ false =
        unfold matches is_recovering in ground (arith, found.0, found.1) in
      rw (e, refused)
]

-- Whatever the environment holds: a recovery that finish_ai_recovery was called for is no longer
-- authorized.
pub authorized-finished :
    (format : ℕ → Text) (vars : Variables) (now i code : ℕ) (detail : Text) (db : Db)
    → number vars.recovery_id ≡ some i
    → authorized_environment format vars (finish_ai_recovery now i code detail db) ≡ none
unfolding authorized_environment authorized_row
authorized-finished format vars now i code detail db h =
    let refused =
      row_refused format vars i (finish_ai_recovery now i code detail db)
        (finished_stopped now i code detail db) in
    rw (h, refused) (ground arith)

-- The environment that _execute_recovery gives to the process of a claimed recovery.
abbrev pub issued : (ℕ → Text) → Text → Recovery → Variables
issued format id row = record {
  ai_recovery = "1";
  recovery_id = id;
  account_scope = row.account_scope;
  slot_start = format row.slot_start;
}

abbrev Runs : ℕ → Recovery → Type 0
Runs i r = r.id == i ≡ true → is_running r.status ≡ true

claimed_row :
    (now i : ℕ) (db : Db) (row : Recovery)
    → (claim_ai_recovery now i db).0 ≡ some row
    → (ai_recovery i (claim_ai_recovery now i db).1 ≡ some row) × (is_running row.status ≡ true)
unfolding claim_ai_recovery
claimed_row now i db row h = go (fetch_one (is_unclaimed i) db.recoveries) h
  where
    go :
        (o : Option Recovery)
        → (start_recovery now i db o).0 ≡ some row
        → (ai_recovery i (start_recovery now i db o).1 ≡ some row) × (is_running row.status ≡ true)
    go none k = unfold start_recovery in cc
    go (some r) k =
        unfold start_recovery ai_recovery in
        let marked =
          All-updated (Runs i) (λ x. x.id == i) (set_recovering now (db.run_seq + 1))
            (λ x _ _. unfold is_running in refl) (λ x e t. cc) db.recoveries in
        let found =
          fetch_one-holds (Runs i) (λ x. x.id == i)
            (update (λ x. x.id == i) (set_recovering now (db.run_seq + 1)) db.recoveries) marked
            k in
        (k, found.0 found.1)

-- The process of a claimed recovery is authorized, and reads the row that was claimed. (The number
-- of the recovery is spelled so that it reads back, and neither its account nor its slot is empty.)
pub authorized-claimed :
    (format : ℕ → Text) (id : Text) (now i : ℕ) (db : Db) (row : Recovery)
    → number id ≡ some i
    → (claim_ai_recovery now i db).0 ≡ some row
    → is_empty row.account_scope ≡ false
    → is_empty (format row.slot_start) ≡ false
    → authorized_environment format (issued format id row) (claim_ai_recovery now i db).1 ≡ some row
unfolding authorized_environment authorized_row if_matches matches
authorized-claimed format id now i db row reads h scope slot =
    let (stored, running) = claimed_row now i db row h in
    rw (
      scope,
      slot,
      reads,
      stored,
      running,
      text_eq_refl row.account_scope,
      text_eq_refl (format row.slot_start),
    )
