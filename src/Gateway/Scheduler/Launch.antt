-- ===== src/Gateway/Scheduler/Launch.antt =====
-- Proofs on _launch_due_recovery: which recovery it launches.
use okxquant.Prelude.{
  ℕ, ◌+◌, ◌*◌, Text, Bool, true, false, ◌&&◌, not, ◌≡◌, refl, ◌∙◌, some, List, [], ◌∷◌, arith, ◌==◌,
  any_of,
}
use okxquant.Gateway.Schema.{Db, Recovery}
use okxquant.Gateway.Store.Recoveries.{due_ai_recoveries, cancel_ai_recovery}
use okxquant.Gateway.Store.Settings.{successful_model_call_in_slot}
use okxquant.Gateway.Scheduler.Due.{seconds}
use okxquant.Gateway.Scheduler.State.{Scheduler, Env, has_key}
use okxquant.Gateway.Scheduler.Tick.{
  Texts, Verdict, cancel, wait, launch, in_window, judge, follow, launch_recoveries, trader_enabled,
  launch_due_recovery,
}

-- The slot of a recovery already has a successful decision of the model.
abbrev pub is_decided : Db → Recovery → Bool
is_decided db r = successful_model_call_in_slot r.slot_start (r.slot_start + 15 * 60) db

is_decided-cancel :
    (now i : ℕ) (reason : Text) (db : Db) (r : Recovery)
    → is_decided (cancel_ai_recovery now i reason db) r ≡ is_decided db r
unfolding successful_model_call_in_slot cancel_ai_recovery
is_decided-cancel now i reason db r = refl

-- What makes a recovery fit to be launched at the environment's time.
abbrev pub is_fit : Env → Db → ℕ → Recovery → Bool
is_fit env db i r = r.id == i && (in_window env.now r && not (is_decided db r))

pub judge-launch :
    (env : Env) (texts : Texts) (enabled taken : Bool) (r : Recovery) (db : Db)
    → judge env texts enabled taken r db ≡ launch
    → (enabled ≡ true) × (taken ≡ false) × (in_window env.now r ≡ true) × (is_decided db r ≡ false)
unfolding judge
judge-launch env texts enabled taken r db h = ground arith

module _ (env : Env) (texts : Texts) (enabled taken : Bool) (i : ℕ) where
  launch_recoveries-fit :
      (rs : List Recovery) (s : Scheduler) (base : Db)
      → ((r : Recovery) → is_decided s.db r ≡ is_decided base r)
      → (launch_recoveries env texts enabled taken rs s).0 ≡ some i
      → (enabled ≡ true) × (taken ≡ false) × (any_of (is_fit env base i) rs ≡ true)
  unfolding launch_recoveries
  launch_recoveries-fit [] s base same h = cc
  launch_recoveries-fit (r ∷ rs) s base same h =
      by_verdict (judge env texts enabled taken r s.db) refl (launch_recoveries-fit rs) h
    where
      later :
          (enabled ≡ true) × (taken ≡ false) × (any_of (is_fit env base i) rs ≡ true)
          → (enabled ≡ true) × (taken ≡ false) × (any_of (is_fit env base i) (r ∷ rs) ≡ true)
      later k = (k.0, k.1, ground arith)

      here :
          (enabled ≡ true)
            × (taken ≡ false)
            × (in_window env.now r ≡ true)
            × (is_decided s.db r ≡ false)
          → some r.id ≡ some i
          → (enabled ≡ true) × (taken ≡ false) × (any_of (is_fit env base i) (r ∷ rs) ≡ true)
      here k e = (k.0, k.1, ground (arith, same r))

      by_verdict :
          (v : Verdict)
          → judge env texts enabled taken r s.db ≡ v
          → ((t : Scheduler) (b : Db)
              → ((x : Recovery) → is_decided t.db x ≡ is_decided b x)
              → (launch_recoveries env texts enabled taken rs t).0 ≡ some i
              → (enabled ≡ true) × (taken ≡ false) × (any_of (is_fit env b i) rs ≡ true))
          → (follow env r (launch_recoveries env texts enabled taken rs) v s).0 ≡ some i
          → (enabled ≡ true) × (taken ≡ false) × (any_of (is_fit env base i) (r ∷ rs) ≡ true)
      by_verdict (cancel reason) e ih k =
          let t : Scheduler = record s {
            db = cancel_ai_recovery (seconds env.now) r.id reason s.db;
          } in
          later (ih t base (λ x. is_decided-cancel (seconds env.now) r.id reason s.db x ∙ same x) k)
      by_verdict wait e ih k = later (ih s base same k)
      by_verdict launch e ih k =
          let found = judge-launch env texts enabled taken r s.db e in here found k

-- A recovery is launched only if the trader is enabled and its lane is free, and only a recovery
-- that is due, whose safety window has not closed, and whose slot is the running one and has no
-- successful decision yet.
pub launch_due_recovery-safe :
    (env : Env) (texts : Texts) (i : ℕ) (s : Scheduler)
    → (launch_due_recovery env texts s).0 ≡ some i
    → (trader_enabled env ≡ true)
      × (has_key "trader" s.running ≡ false)
      × (any_of (is_fit env s.db i) (due_ai_recoveries (seconds env.now) s.db) ≡ true)
unfolding launch_due_recovery
launch_due_recovery-safe env texts i s h =
    launch_recoveries-fit env texts (trader_enabled env) (has_key "trader" s.running) i
      (due_ai_recoveries (seconds env.now) s.db) s s.db (λ r. refl) h
