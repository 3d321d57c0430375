-- ===== src/Gateway/Scheduler/Fresh.antt =====
-- Proofs on tick: it launches only what is not running.
use okxquant.Prelude.{
  ℕ, String, Bool, true, false, ◌&&◌, not, ◌≡◌, refl, inl, inr, ◌⊎◌, Option, List, [], ◌∷◌, ◌++◌,
  arith, str_eq, Bool-cases, ◌∙◌,
}
use okxquant.Gateway.Schema.{Recovery, Request}
use okxquant.Gateway.Store.Recoveries.{cancel_ai_recovery, due_ai_recoveries}
use okxquant.Gateway.Store.Jobs.{is_manual, pending_job_requests}
use okxquant.Gateway.Scheduler.Jobs.{JobSpec, all_jobs}
use okxquant.Gateway.Scheduler.Due.{seconds, due}
use okxquant.Gateway.Scheduler.State.{
  general, trader, Scheduler, Env, has_key, flush_completions, last_at, find_job,
}
use okxquant.Gateway.Scheduler.Tick.{
  Texts, note_failure, reap, is_blocked, review_may_start, lane_of, submit, launch_job, launch_jobs,
  Verdict, cancel, wait, launch, judge, follow, launch_recoveries, trader_enabled,
  launch_due_recovery, manual_spec_starts, launch_requests, recovery_names, tick,
}
use okxquant.Gateway.Scheduler.Launch.{judge-launch}
use okxquant.Gateway.Scheduler.Reaped.{StaysBusy, flushed-StaysBusy}
use okxquant.Gateway.Scheduler.Launches.{Launches, Launches-none, Launches-append, submit-Launches}

-- One round of the loop over the jobs.
launch_job-Launches :
    (env : Env) (texts : Texts) (lasts : String → Option ℕ) (spec : JobSpec) (s : Scheduler)
    → ((launch_job env texts lasts spec s).0 ≡ true)
        × Launches (spec.name ∷ []) s.running (launch_job env texts lasts spec s).1.running
      ⊎ ((launch_job env texts lasts spec s).0 ≡ false)
        × ((launch_job env texts lasts spec s).1.running ≡ s.running)
unfolding launch_job is_blocked note_failure
launch_job-Launches env texts lasts spec s = elim (Bool-cases (is_blocked env spec.name s)) [
  | inl a ↦ rw a (inr (refl, refl))
  | inr a ↦ elim (Bool-cases (env.raises spec.name)) [
    | inl b ↦ rw (a, b) (inr (refl, refl))
    | inr b ↦ elim (Bool-cases (due env.probes env.schedule spec env.now (lasts spec.name))) [
      | inr c ↦ rw (a, b, c) (inr (refl, refl))
      | inl c ↦
          elim (Bool-cases
            (str_eq spec.name "self_improvement" && not (review_may_start env spec s))) [
              | inl d ↦ rw (a, b, c, d) (inr (refl, refl))
              | inr d ↦
                  rw (a, b, c, d)
                    (inl (
                      refl,
                      submit-Launches spec.name spec.name (lane_of spec) s (inl refl)
                          (ground arith),
                    ))
            ]
    ]
  ]
]

launch_jobs-Launches :
    (env : Env) (texts : Texts) (lasts : String → Option ℕ) (specs : List JobSpec) (s : Scheduler)
    → Launches
        (launch_jobs env texts lasts specs s).0
        s.running
        (launch_jobs env texts lasts specs s).1.running
unfolding launch_jobs
launch_jobs-Launches env texts lasts [] s = Launches-none s.running
launch_jobs-Launches env texts lasts (spec ∷ specs) s =
    let r = launch_job env texts lasts spec s in
    let rest = launch_jobs env texts lasts specs r.1 in
    let after = launch_jobs-Launches env texts lasts specs r.1 in
    elim (launch_job-Launches env texts lasts spec s) [
      | inl (e, one) ↦
          rw e
            (Launches-append (spec.name ∷ []) rest.0 s.running r.1.running rest.1.running one after)
      | inr (e, same) ↦ rw e (rw same at after)
    ]

launch_recoveries-Launches :
    (env : Env) (texts : Texts) (enabled taken : Bool) (rs : List Recovery) (s : Scheduler)
    → has_key "trader" s.running ≡ taken
    → Launches
        (recovery_names (launch_recoveries env texts enabled taken rs s).0)
        s.running
        (launch_recoveries env texts enabled taken rs s).1.running
unfolding launch_recoveries
launch_recoveries-Launches env texts enabled taken [] s h = Launches-none s.running
launch_recoveries-Launches env texts enabled taken (r ∷ rs) s h =
    by_verdict (judge env texts enabled taken r s.db) refl
      (launch_recoveries-Launches env texts enabled taken rs)
  where
    next : Scheduler → Option ℕ × Scheduler
    next = launch_recoveries env texts enabled taken rs

    by_verdict :
        (v : Verdict)
        → judge env texts enabled taken r s.db ≡ v
        → ((t : Scheduler)
            → has_key "trader" t.running ≡ taken
            → Launches (recovery_names (next t).0) t.running (next t).1.running)
        → Launches
            (recovery_names (follow env r next v s).0)
            s.running
            (follow env r next v s).1.running
    by_verdict (cancel reason) e ih =
        ih (record s { db = cancel_ai_recovery (seconds env.now) r.id reason s.db }) h
    by_verdict wait e ih = ih s h
    by_verdict launch e ih =
        let (_, free, _, _) = judge-launch env texts enabled taken r s.db e in
        submit-Launches "trader_recovery" "trader" trader s (inr (refl, refl)) (h ∙ free)

launch_due_recovery-Launches :
    (env : Env) (texts : Texts) (s : Scheduler)
    → Launches
        (recovery_names (launch_due_recovery env texts s).0)
        s.running
        (launch_due_recovery env texts s).1.running
unfolding launch_due_recovery
launch_due_recovery-Launches env texts s =
    launch_recoveries-Launches env texts (trader_enabled env) (has_key "trader" s.running)
      (due_ai_recoveries (seconds env.now) s.db) s refl

launch_requests-Launches :
    (env : Env) (rs : List Request) (s : Scheduler)
    → Launches (launch_requests env rs s).0 s.running (launch_requests env rs s).1.running
unfolding launch_requests
launch_requests-Launches env [] s = Launches-none s.running
launch_requests-Launches env (r ∷ rs) s =
    elim (Bool-cases (
      is_manual r.job_name
      && (not (has_key r.job_name s.running)
          && manual_spec_starts env (find_job r.job_name all_jobs) s))) [
            | inr e ↦ rw e (launch_requests-Launches env rs s)
            | inl e ↦
                let t = submit r.job_name general s in
                rw e (
                  Launches-append (r.job_name ∷ []) (launch_requests env rs t).0 s.running t.running
                    (launch_requests env rs t).1.running
                    (submit-Launches r.job_name r.job_name general s (inl refl) (ground arith))
                    (launch_requests-Launches env rs t))
          ]

-- A tick launches, by its schedule, for a recovery and for the manual requests together, only under
-- keys that are free once the ended tasks are taken away, each under another key (so self.running
-- grows by the number of names that it returns), and leaves what is running as it was; and a task
-- that was busy before the tick is still there, the same, afterwards.
pub tick-Launches :
    (env : Env) (texts : Texts) (s0 : Scheduler)
    → let before = (reap env texts (flush_completions env s0)).running in
      let (names, after) = tick env texts s0 in
      Launches names before after.running × StaysBusy s0.running after.running
unfolding tick
tick-Launches env texts s0 =
    let s1 = reap env texts (flush_completions env s0) in
    let a = launch_jobs env texts (last_at env s1.db) env.jobs s1 in
    let b = launch_due_recovery env texts a.1 in
    let c = launch_requests env (pending_job_requests b.1.db) b.1 in
    let all : Launches (a.0 ++ (recovery_names b.0 ++ c.0)) s1.running c.1.running =
      Launches-append a.0 (recovery_names b.0 ++ c.0) s1.running a.1.running c.1.running
        (launch_jobs-Launches env texts (last_at env s1.db) env.jobs s1)
        (Launches-append (recovery_names b.0) c.0 a.1.running b.1.running c.1.running
          (launch_due_recovery-Launches env texts a.1)
          (launch_requests-Launches env (pending_job_requests b.1.db) b.1)) in
    (all, λ k x found still. all.kept k x (flushed-StaysBusy env texts s0 k x found still))
