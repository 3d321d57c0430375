-- ===== src/Gateway/Scheduler/Reaped.antt =====
-- Proofs on the first half of tick: the tasks that are left when the ended ones are taken away.
use okxquant.Prelude.{
  ℕ, String, Text, true, false, ◌≡◌, refl, ap, inl, inr, none, some, List, [], ◌∷◌, ◌++◌, str_eq,
  Bool-cases, ◌∙◌,
}
use okxquant.Gateway.Scheduler.State.{
  Future, busy, finished, broken, Task, Scheduler, Env, look, finish_run, flush_each,
  flush_completions,
}
use okxquant.Gateway.Scheduler.Tick.{Texts, note_failure, reaped, reap_each, reap}

-- A task that is busy in the first map is the same in the second.
abbrev pub StaysBusy : List (String × Task) → List (String × Task) → Type 0
StaysBusy a b = (k : String) (x : Task) → look k a ≡ some x → x.future ≡ busy → look k b ≡ some x

look-append :
    (k : String) (x : Task) (xs ys : List (String × Task))
    → look k xs ≡ some x
    → look k (xs ++ ys) ≡ some x
unfolding look
look-append k x [] ys h = absurd (cc h)
look-append k x ((j, y) ∷ xs) ys h = elim (Bool-cases (str_eq j k)) [
  | inl e ↦ rw e (rw e at h)
  | inr e ↦ rw e (look-append k x xs ys (rw e at h))
]

look-append_none :
    (k : String) (xs ys : List (String × Task)) → look k xs ≡ none → look k (xs ++ ys) ≡ look k ys
unfolding look
look-append_none k [] ys h = refl
look-append_none k ((j, y) ∷ xs) ys h = elim (Bool-cases (str_eq j k)) [
  | inl e ↦ absurd (cc (rw e at h))
  | inr e ↦ rw e (look-append_none k xs ys (rw e at h))
]

module _ (env : Env) (texts : Texts) (k : String) (x : Task) where
  reaped_kept :
      (name : String) (task : Task) (s : Scheduler)
      → look k s.running ≡ some x
      → look k (reaped env texts name task s).running ≡ some x
  unfolding reaped note_failure
  reaped_kept name task s h = go task.future
    where
      go :
          (f : Future)
          → look k (
              (elim f as (λ _. Scheduler) [
                | busy ↦ record s { running = s.running ++ ((name, task) ∷ []) }
                | finished ↦ s
                | broken ↦ note_failure env texts name s
              ]).running)
            ≡ some x
      go busy = look-append k x s.running ((name, task) ∷ []) h
      go finished = h
      go broken = h

  reap_each_kept :
      (rest : List (String × Task)) (s : Scheduler)
      → look k s.running ≡ some x
      → look k (reap_each env texts rest s).running ≡ some x
  unfolding reap_each
  reap_each_kept [] s h = h
  reap_each_kept ((name, task) ∷ rest) s h =
      reap_each_kept rest (reaped env texts name task s) (reaped_kept name task s h)

  reaped_other :
      (name : String) (task : Task) (s : Scheduler)
      → str_eq name k ≡ false
      → look k s.running ≡ none
      → look k (reaped env texts name task s).running ≡ none
  unfolding reaped note_failure look
  reaped_other name task s other h = go task.future
    where
      go :
          (f : Future)
          → look k (
              (elim f as (λ _. Scheduler) [
                | busy ↦ record s { running = s.running ++ ((name, task) ∷ []) }
                | finished ↦ s
                | broken ↦ note_failure env texts name s
              ]).running)
            ≡ none
      go busy = rw (look-append_none k s.running ((name, task) ∷ []) h) (rw other refl)
      go finished = h
      go broken = h

  reaped_busy :
      (name : String) (task : Task) (s : Scheduler)
      → str_eq name k ≡ true
      → task ≡ x
      → x.future ≡ busy
      → look k s.running ≡ none
      → look k (reaped env texts name task s).running ≡ some x
  unfolding reaped look
  reaped_busy name task s same one still h =
      go task.future (ap (λ (y : Task). y.future) one ∙ still)
    where
      go :
          (f : Future)
          → f ≡ busy
          → look k (
              (elim f as (λ _. Scheduler) [
                | busy ↦ record s { running = s.running ++ ((name, task) ∷ []) }
                | finished ↦ s
                | broken ↦ note_failure env texts name s
              ]).running)
            ≡ some x
      go busy e = look-append_none k s.running ((name, task) ∷ []) h ∙ rw same (ap some one)
      go finished e = absurd (cc e)
      go broken e = absurd (cc e)

  reap_each_busy :
      (rest : List (String × Task)) (s : Scheduler)
      → look k s.running ≡ none
      → look k rest ≡ some x
      → x.future ≡ busy
      → look k (reap_each env texts rest s).running ≡ some x
  unfolding reap_each look
  reap_each_busy [] s h found still = absurd (cc found)
  reap_each_busy ((name, task) ∷ rest) s h found still = elim (Bool-cases (str_eq name k)) [
    | inl e ↦
        let one : task ≡ x = cc (rw e at found) in
        reap_each_kept rest (reaped env texts name task s) (reaped_busy name task s e one still h)
    | inr e ↦
        reap_each_busy rest (reaped env texts name task s) (reaped_other name task s e h)
          (rw e at found) still
  ]

finish_run_running :
    (env : Env) (run code : ℕ) (detail : Text) (s : Scheduler)
    → (finish_run env run code detail s).running ≡ s.running
unfolding finish_run
finish_run_running env run code detail s = elim (Bool-cases (env.can_finish run)) [
  | inl e ↦ rw e refl
  | inr e ↦ rw e refl
]

flush_each_running :
    (env : Env) (items : List (ℕ × ℕ × Text)) (s : Scheduler)
    → (flush_each env items s).running ≡ s.running
unfolding flush_each
flush_each_running env [] s = refl
flush_each_running env ((run, code, detail) ∷ items) s =
    flush_each_running env items (finish_run env run code detail s)
    ∙ finish_run_running env run code detail s

pub flushed-StaysBusy :
    (env : Env) (texts : Texts) (s0 : Scheduler)
    → StaysBusy s0.running (reap env texts (flush_completions env s0)).running
unfolding reap flush_completions look
flushed-StaysBusy env texts s0 k x found still =
    let same = flush_each_running env s0.pending_completions s0 in
    let s = flush_each env s0.pending_completions s0 in
    reap_each_busy env texts k x s.running (record s { running = [] }) refl (rw same found) still
