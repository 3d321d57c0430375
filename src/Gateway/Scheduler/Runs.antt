-- ===== src/Gateway/Scheduler/Runs.antt =====
-- What execute, run_job and flush_completions of Gateway/Scheduler/State record.
use okxquant.Prelude.{
  ℕ, ◌/◌, String, Text, Bool, true, false, ◌&&◌, ◌≡◌, refl, ap, ◌∙◌, inl, inr, Option, some, List,
  [], ◌∷◌, arith, ◌==◌, str_eq, eq_iff, if◌then◌else◌, Bool-cases, take_last, All, any_of,
}
use okxquant.Gateway.Schema.{Db, Setting}
use okxquant.Gateway.Store.Jobs.{finish_job}
use okxquant.Gateway.Store.Settings.{put, set_state, look_up, or_default, get_state}
use okxquant.Gateway.Scheduler.Jobs.{JobSpec, trader_job}
use okxquant.Gateway.Scheduler.Due.{due, seconds}
use okxquant.Gateway.Scheduler.Timing.{trader_once}
use okxquant.Gateway.Scheduler.State.{
  Scheduler, Env, last_key, parse_last, last_at, without_run, finish_run, flush_each,
  flush_completions, Outcome, completed, timed_out, not_started, lost_contact, run_job, find_job,
  is_current, start_job, may_start, execute, store_key, retry_at,
}

look_up-put :
    (key : String) (value : Text) (rows : List Setting)
    → look_up key (put key value rows) ≡ some value
unfolding look_up put
look_up-put key value [] = rw ((eq_iff key key).1 refl)
look_up-put key value (row ∷ rows) = elim (Bool-cases (str_eq row.key key)) [
  | inl e ↦ rw e (rw ((eq_iff key key).1 refl))
  | inr e ↦ rw (e, e) (look_up-put key value rows)
]

-- A setting reads back as it was written.
pub get_state-set_state :
    (key : String) (value d : Text) (db : Db) → get_state key d (set_state key value db) ≡ value
unfolding get_state set_state
get_state-set_state key value d db =
    rw (look_up-put key value db.settings) (unfold or_default in refl)

settings-finish_run :
    (env : Env) (run code : ℕ) (detail : Text) (s : Scheduler)
    → (finish_run env run code detail s).db.settings ≡ s.db.settings
unfolding finish_run finish_job
settings-finish_run env run code detail s = ground arith

-- The ways in which a process that was started can end.
unfoldable pub was_started : Outcome → Bool
was_started (not_started detail) = false
was_started _ = true

settings-run_job :
    (env : Env) (spec : JobSpec) (run : ℕ) (manual : Bool) (previous : Text) (o : Outcome)
    (s : Scheduler)
    → was_started o ≡ true
    → (run_job env spec run manual previous o s).db.settings ≡ s.db.settings
unfolding was_started run_job
settings-run_job env spec run manual previous (completed code out errors) s h =
    settings-finish_run env run code (take_last 2000 (if code == 0 then out else errors)) s
settings-run_job env spec run manual previous (timed_out detail) s h =
    settings-finish_run env run 124 detail s
settings-run_job env spec run manual previous (not_started detail) s h = cc
settings-run_job env spec run manual previous (lost_contact detail) s h =
    settings-finish_run env run 1 detail s

get_state-settings :
    (key : String) (d : Text) (a b : Db)
    → a.settings ≡ b.settings
    → get_state key d a ≡ get_state key d b
unfolding get_state
get_state-settings key d a b e = ap (λ (rows : List Setting). or_default d (look_up key rows)) e

last-start_job :
    (env : Env) (spec : JobSpec) (s : Scheduler)
    → get_state (last_key spec.name) [] (start_job env spec s).1.db ≡ env.iso env.now
unfolding start_job
last-start_job env spec s = get_state-set_state (last_key spec.name) (env.iso env.now) [] _

and-false : (a : Bool) {b : Bool} → b ≡ false → (a && b) ≡ false
and-false a e = ground arith

-- The condition under which _execute starts the trader.
abbrev pub trader_starts : Env → Scheduler → Bool
trader_starts env s =
    is_current trader_job (find_job "trader" env.jobs)
    && due env.probes env.schedule trader_job env.now (last_at env s.db "trader")

execute-last :
    (env : Env) (at : Option ℕ) (o : Outcome) (s : Scheduler)
    → was_started o ≡ true
    → trader_starts env s ≡ true
    → get_state (last_key "trader") [] (execute env trader_job at o s).db ≡ env.iso env.now
unfolding execute
execute-last env at o s started starts =
    let (run, s') = start_job env trader_job s in
    rw starts (
      get_state-settings (last_key "trader") []
        (run_job env trader_job run false (get_state (last_key "trader") [] s.db) o s').db s'.db
        (settings-run_job env trader_job run false (get_state (last_key "trader") [] s.db) o s'
          started)
      ∙ last-start_job env trader_job s)

execute-skipped :
    (env : Env) (at : Option ℕ) (o : Outcome) (s : Scheduler)
    → trader_starts env s ≡ false
    → execute env trader_job at o s ≡ s
unfolding execute
execute-skipped env at o s skipped = rw skipped

-- The trader runs at most once in a slot. Where _execute has started it, however that run ended, a
-- second _execute in the same 15-minute slot changes nothing at all: no run is begun and no process
-- is started. (The recorded time must read back, as isoformat and fromisoformat do.)
pub execute_once :
    (env later : Env) (at at' : Option ℕ) (o o' : Outcome) (s : Scheduler)
    → was_started o ≡ true
    → trader_starts env s ≡ true
    → parse_last later.parse_iso (env.iso env.now) ≡ some env.now
    → seconds later.now / 900 ≡ seconds env.now / 900
    → execute later trader_job at' o' (execute env trader_job at o s)
      ≡ execute env trader_job at o s
execute_once env later at at' o o' s started starts reads slot =
    let s' = execute env trader_job at o s in
    let last : last_at later s'.db "trader" ≡ some env.now =
      unfold last_at in rw (execute-last env at o s started starts) reads in
    execute-skipped later at' o' s'
      (rw last (and-false _ (trader_once later.probes later.schedule env.now later.now slot)))

last-not_started :
    (env : Env) (spec : JobSpec) (run : ℕ) (previous detail : Text) (s : Scheduler)
    → get_state
        (last_key spec.name)
        []
        (run_job env spec run false previous (not_started detail) s).db
      ≡ previous
unfolding run_job
last-not_started env spec run previous detail s =
    let rolled : Scheduler = record s {
      db = set_state (last_key spec.name) previous s.db;
      retry_after = store_key spec.name (retry_at env.monotonic) s.retry_after;
    } in
    get_state-settings (last_key spec.name) [] (finish_run env run 1 detail rolled).db rolled.db
      (settings-finish_run env run 1 detail rolled)
    ∙ get_state-set_state (last_key spec.name) previous [] s.db

-- Where no process could be started, the recorded time of the last run is the one of before.
pub execute_rolled_back :
    (env : Env) (spec : JobSpec) (at : Option ℕ) (detail : Text) (s : Scheduler)
    → last_at env (execute env spec at (not_started detail) s).db spec.name
      ≡ last_at env s.db spec.name
execute_rolled_back env spec at detail s = elim (Bool-cases (may_start env spec at s)) [
  | inr e ↦ unfold execute in rw e
  | inl e ↦
      let previous = get_state (last_key spec.name) [] s.db in
      let (run, s') = start_job env spec s in
      let kept : get_state (last_key spec.name) [] (execute env spec at (not_started detail) s).db
          ≡ previous =
        unfold execute in rw e (last-not_started env spec run previous detail s') in
      unfold last_at in rw kept
]

-- Finishing each of these runs in the store, in order.
unfoldable pub finish_all : ℕ → List (ℕ × ℕ × Text) → Db → Db
finish_all now [] db = db
finish_all now ((run, code, detail) ∷ rest) db =
    finish_all now rest (finish_job now run code detail db)

Covered : List (ℕ × ℕ × Text) → List (ℕ × ℕ × Text) → Type 0
Covered cs ps = All (λ p. any_of (λ c. c.0 == p.0) cs ≡ true) ps

without_run-Covered :
    (run code : ℕ) (detail : Text) (cs ps : List (ℕ × ℕ × Text))
    → Covered ((run, code, detail) ∷ cs) ps
    → Covered cs (without_run run ps)
unfolding without_run Covered
without_run-Covered run code detail cs [] h = tt
without_run-Covered run code detail cs ((i, c, t) ∷ ps) h = elim (Bool-cases (i == run)) [
  | inl e ↦ rw e (without_run-Covered run code detail cs ps h.1)
  | inr e ↦ rw e (ground arith, without_run-Covered run code detail cs ps h.1)
]

none-Covered : (ps : List (ℕ × ℕ × Text)) → Covered [] ps → ps ≡ []
unfolding Covered
none-Covered [] h = refl
none-Covered (p ∷ ps) h = cc (h.0)

flush_each-all :
    (env : Env) (cs : List (ℕ × ℕ × Text)) (s : Scheduler)
    → ((run : ℕ) → env.can_finish run ≡ true)
    → Covered cs s.pending_completions
    → ((flush_each env cs s).pending_completions ≡ [])
      × ((flush_each env cs s).db ≡ finish_all (seconds env.now) cs s.db)
unfolding flush_each finish_all finish_run
flush_each-all env [] s can h = (none-Covered s.pending_completions h, refl)
flush_each-all env ((run, code, detail) ∷ cs) s can h =
    let done : Scheduler = record s {
      db = finish_job (seconds env.now) run code detail s.db;
      pending_completions = without_run run s.pending_completions;
    } in
    rw (can run, flush_each)
      (flush_each-all env cs done can
        (without_run-Covered run code detail cs s.pending_completions h))

Covered-more :
    (p : ℕ × ℕ × Text) (cs ps : List (ℕ × ℕ × Text)) → Covered cs ps → Covered (p ∷ cs) ps
unfolding Covered
Covered-more p cs [] h = tt
Covered-more p cs (q ∷ ps) h = (ground arith, Covered-more p cs ps h.1)

Covered-self : (ps : List (ℕ × ℕ × Text)) → Covered ps ps
unfolding Covered
Covered-self [] = tt
Covered-self (p ∷ ps) = (ground arith, Covered-more p ps ps (Covered-self ps))

-- Once the store takes writes again, the next tick hands every retained completion to it, in the
-- order in which they were retained, and retains none.
pub flush_completions-all :
    (env : Env) (s : Scheduler)
    → ((run : ℕ) → env.can_finish run ≡ true)
    → ((flush_completions env s).pending_completions ≡ [])
      × ((flush_completions env s).db ≡ finish_all (seconds env.now) s.pending_completions s.db)
unfolding flush_completions
flush_completions-all env s can =
    flush_each-all env s.pending_completions s can (Covered-self s.pending_completions)
