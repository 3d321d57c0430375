-- ===== src/Gateway/Store/Claims/Follows.antt =====
-- Proofs on one row of ai_recovery_jobs: what may become of it.
use okxquant.Prelude.{ℕ, ◌≤◌, Text, true, ◌≡◌, refl, inl, inr, Option, arith, ◌∙◌, ◌⊎◌}
use okxquant.Gateway.Schema.{Recovery, JobStatus, is_pending, is_running}
use okxquant.Gateway.Store.Jobs.{result_status}
use okxquant.Gateway.Store.Recoveries.{
  is_cancellable, set_cancelled, is_unclaimed, set_recovering, is_recovering,
}
use okxquant.Gateway.Store.Operations.{run}

-- How far a recovery has come: 0 pending, 1 running, 2 closed.
abbrev pub rank : JobStatus → ℕ
rank JobStatus.pending = 0
rank JobStatus.running = 1
rank _ = 2

-- The row `s` later on, where `r` stood: it is the same recovery of the same slot; it never goes
-- back; a closed row never changes; the run of a running one stays.
pub record Follows (r s : Recovery) : Type 0 where
  pub same_id : s.id ≡ r.id
  pub same_scope : s.account_scope ≡ r.account_scope
  pub same_slot : s.slot_start ≡ r.slot_start
  pub forward : rank r.status ≤ rank s.status
  pub attempted : r.attempts ≤ s.attempts
  pub closed : rank r.status ≡ 2 → s ≡ r
  pub bound : rank r.status ≡ 1 → s.run_id ≡ r.run_id

pub Follows-refl : (r : Recovery) → Follows r r
Follows-refl r = record {
  same_id = refl;
  same_scope = refl;
  same_slot = refl;
  forward = omega arith;
  attempted = omega arith;
  closed = λ _. refl;
  bound = λ _. refl;
}

rank_cases : (s : JobStatus) → 1 ≤ rank s → (rank s ≡ 1) ⊎ (rank s ≡ 2)
rank_cases JobStatus.pending h = absurd (omega arith)
rank_cases JobStatus.running h = inl refl
rank_cases _ h = inr refl

pub Follows-trans : (r s t : Recovery) → Follows r s → Follows s t → Follows r t
Follows-trans r s t a b = record {
  same_id = b.same_id ∙ a.same_id;
  same_scope = b.same_scope ∙ a.same_scope;
  same_slot = b.same_slot ∙ a.same_slot;
  forward = omega (arith, a.forward, b.forward);
  attempted = omega (arith, a.attempted, b.attempted);
  closed = λ c. let same : s ≡ r = a.closed c in b.closed (rw same c) ∙ same;
  bound = λ c. bound_on c (a.bound c);
}
  where
    -- If the row was closed in between, it did not change afterwards.
    split : (rank r.status ≡ 1) → (rank s.status ≡ 1) ⊎ (rank s.status ≡ 2)
    split c =
        let up : rank r.status ≤ rank s.status = a.forward in rank_cases s.status (omega arith)

    bound_on : rank r.status ≡ 1 → s.run_id ≡ r.run_id → t.run_id ≡ r.run_id
    bound_on c e = elim (split c) [
      | inl running ↦ b.bound running ∙ e
      | inr done ↦ rw (b.closed done) e
    ]

pub cancel-Follows :
    (now i : ℕ) (detail : Text) (r : Recovery)
    → is_cancellable i r ≡ true
    → Follows r (set_cancelled now detail r)
unfolding is_cancellable is_pending
cancel-Follows now i detail r e = record {
  same_id = refl;
  same_scope = refl;
  same_slot = refl;
  forward = ground arith;
  attempted = omega arith;
  closed = λ c. absurd (ground arith);
  bound = λ c. refl;
}

pub claim-Follows :
    (now i run : ℕ) (r : Recovery) → is_unclaimed i r ≡ true → Follows r (set_recovering now run r)
unfolding is_unclaimed is_pending
claim-Follows now i run r e = record {
  same_id = refl;
  same_scope = refl;
  same_slot = refl;
  forward = ground arith;
  attempted = ground arith;
  closed = λ c. absurd (ground arith);
  bound = λ c. absurd (ground arith);
}

-- A running row that is closed by a result or by a restart.
pub close-Follows :
    (r : Recovery) (status : JobStatus) (finished : Option ℕ) (detail : Text)
    → is_running r.status ≡ true
    → rank status ≡ 2
    → Follows r (record r { status = status; finished_at = finished; detail = detail })
unfolding is_running
close-Follows r status finished detail e done = record {
  same_id = refl;
  same_scope = refl;
  same_slot = refl;
  forward = ground arith;
  attempted = omega arith;
  closed = λ c. absurd (ground arith);
  bound = λ c. refl;
}

pub rank-result : (code : ℕ) → rank (result_status code) ≡ 2
unfolding result_status
rank-result code = ground arith

pub recovering_running :
    (i : ℕ) (r : Recovery) → is_recovering i r ≡ true → is_running r.status ≡ true
unfolding is_recovering
recovering_running i r e = ground arith

pub recovering_id : (i : ℕ) (r : Recovery) → is_recovering i r ≡ true → r.id ≡ i
unfolding is_recovering
recovering_id i r e = ground arith

pub unclaimed_id : (i : ℕ) (r : Recovery) → is_unclaimed i r ≡ true → r.id ≡ i
unfolding is_unclaimed
unclaimed_id i r e = ground arith
