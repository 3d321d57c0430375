-- ===== src/Scripts/Entry/Coherent.antt =====
-- Proofs on scripts/strategy_evidence.py: what the events and the intents agree on, and an event more.
pub mod Intents
pub mod Links
pub mod Calls
use okxquant.Prelude.{
  ℕ, ◌≤◌, String, Bool, true, false, ◌≡◌, refl, sym, ap, subst, ◌∙◌, inl, inr, Option, none, some,
  List, [], ◌∷◌, arith, ◌&&◌, ◌||◌, not, Bool-cases, All, All-map, any_of, All-any_of, All-always,
  str_eq, eq_iff, Result, ok, err, other_error, is_some, if◌then◌else◌,
}
use okxquant.Prelude.Table.{
  update, insert, insert_or_ignore, fetch_one, count_where, Distinct, Distinct-update,
  Distinct-insert, fetch_one-append, fetch_one-insert_or_ignore, All-insert_or_ignore, All-update,
  All-insert, count_where-Distinct, fetch_one-update, updated, fetch_one-holds,
}
use okxquant.Scripts.Entry.Evidence.{
  Proof, Link, Payload, Evidence, Plan, Intent, EvidenceDb, Codec, scrubbed, same_evidence,
  collides, put_evidence, append, append_batch, best_effort, same_attempt, same_intent, new_intent,
  begin_intent, set_intent_state, finish_found, finish_intent,
}
use okxquant.Scripts.Entry.Fallback.{
  is_attempt, is_maker, is_proven, is_decision, linked, create_from, create_decision, validate_from,
  validated_parent,
}
use okxquant.Scripts.Entry.Calls.{
  check_route, prepare_from, prepare, EntryCall, decide, mention, archive, prepare_entry, finish,
  fall_back, kept_db, kept_pair, leaves_decisions, make, make_all,
}

-- The record of a fallback decision: its name is that of its Maker attempt, which has an original
-- decision.
pub record IsChild (c : Codec) (db : EvidenceDb) (scope id : String) (l : Link) : Type 0 where
  pub named : id ≡ c.child scope l.decision_id l.inst_id
  pub parent : Intent
  pub found : fetch_one (λ i. str_eq i.id l.client_id) db.intents ≡ some parent
  pub attempt : is_attempt scope l.decision_id l.inst_id parent ≡ true
  pub origin : Evidence
  pub recorded : fetch_one (is_decision l.decision_id scope) db.events ≡ some origin
  pub original : origin.payload.fallback_parent ≡ none

pub record IsRooted (db : EvidenceDb) (i : Intent) : Type 0 where
  pub event : Evidence
  pub found : fetch_one (is_decision i.decision_id i.scope) db.events ≡ some event
  pub inst : (l : Link) → event.payload.fallback_parent ≡ some l → l.inst_id ≡ i.inst_id

abbrev pub IsLinked : Codec → EvidenceDb → Evidence → Type 0
IsLinked c db e =
    (l : Link)
    → str_eq e.kind "decision" ≡ true
    → e.payload.fallback_parent ≡ some l
    → IsChild c db e.scope e.id l

pub record IsCoherent (c : Codec) (db : EvidenceDb) : Type 0 where
  pub attempts : Distinct same_attempt db.intents
  pub links : All (IsLinked c db) db.events
  pub rooted : All (IsRooted db) db.intents

-- A later database: what a query found it still finds, and an intent keeps its attempt.
pub record Extends (db db' : EvidenceDb) : Type 0 where
  pub events :
      (p : Evidence → Bool) (e : Evidence)
      → fetch_one p db.events ≡ some e
      → fetch_one p db'.events ≡ some e
  pub intents :
      (id : String) (i : Intent)
      → fetch_one (λ r. str_eq r.id id) db.intents ≡ some i
      → (j : Intent) × (fetch_one (λ r. str_eq r.id id) db'.intents ≡ some j)
        × ((scope decision inst : String)
            → is_attempt scope decision inst j ≡ is_attempt scope decision inst i)

pub extended-IsChild :
    (c : Codec) (db db' : EvidenceDb) (scope id : String) (l : Link)
    → Extends db db'
    → IsChild c db scope id l
    → IsChild c db' scope id l
extended-IsChild c db db' scope id l x h =
    let (j, found, same) = x.intents l.client_id h.parent h.found in
    record {
      named = h.named;
      parent = j;
      found = found;
      attempt = same scope l.decision_id l.inst_id ∙ h.attempt;
      origin = h.origin;
      recorded = x.events (is_decision l.decision_id scope) h.origin h.recorded;
      original = h.original;
    }

pub extended-IsRooted :
    (db db' : EvidenceDb) (i : Intent) → Extends db db' → IsRooted db i → IsRooted db' i
extended-IsRooted db db' i x h = record {
  event = h.event;
  found = x.events (is_decision i.decision_id i.scope) h.event h.found;
  inst = h.inst;
}

-- One more event.
put_row-IsCoherent :
    (c : Codec) (row : Evidence) (db : EvidenceDb)
    → IsLinked c db row
    → IsCoherent c db
    → IsCoherent c (record db { events = insert_or_ignore same_evidence row db.events })
put_row-IsCoherent c row db new h =
    let db' = record db { events = insert_or_ignore same_evidence row db.events } in
    let x : Extends db db' = record {
      events = λ p e k. fetch_one-insert_or_ignore p same_evidence row db.events k;
      intents = λ id i k. (i, k, λ s d t. refl);
    } in
    let keep : (e : Evidence) → IsLinked c db e → IsLinked c db' e =
      λ e k l kind link. extended-IsChild c db db' e.scope e.id l x (k l kind link) in
    record {
      attempts = h.attempts;
      links =
          All-insert_or_ignore (IsLinked c db') same_evidence row db.events
            (All-map (IsLinked c db) (IsLinked c db') keep db.events h.links) (keep row new);
      rooted =
          All-map (IsRooted db) (IsRooted db') (λ i. extended-IsRooted db db' i x) db.intents
            h.rooted;
    }

-- What a new event must satisfy.
abbrev MayAppend : Codec → EvidenceDb → String → String → Payload → String → Type 0
MayAppend c db scope kind payload id =
    (l : Link)
    → str_eq kind "decision" ≡ true
    → payload.fallback_parent ≡ some l
    → IsChild c db scope id l

-- Of a call that may raise: the database that it leaves, if it leaves one.
abbrev pub Leaves : (EvidenceDb → Type 0) → Result EvidenceDb → Type 0
Leaves P (ok db) = P db
Leaves P (err e) = Unit

abbrev pub LeavesPair : (EvidenceDb → Type 0) → Result (String × EvidenceDb) → Type 0
LeavesPair P (ok (id, db)) = P db
LeavesPair P (err e) = Unit

put_evidence-IsCoherent :
    (c : Codec) (now : ℕ) (scope kind : String) (payload : Payload) (id : String) (db : EvidenceDb)
    → MayAppend c db scope kind payload id
    → IsCoherent c db
    → Leaves (IsCoherent c) (put_evidence c now scope kind payload id db)
unfolding put_evidence
put_evidence-IsCoherent c now scope kind payload id db new h =
    elim (Bool-cases (
      collides scope kind (c.digest (scrubbed c payload))
        (fetch_one (λ e. str_eq e.id id) db.events))) [
          | inl e ↦ rw e tt
          | inr e ↦ rw e (
              put_row-IsCoherent c
                (record {
                  id = id;
                  scope = scope;
                  kind = kind;
                  at = now;
                  payload = scrubbed c payload;
                  digest = c.digest (scrubbed c payload);
                })
                db (unfold scrubbed in new) h)
        ]

pub append_batch-IsCoherent :
    (c : Codec) (now : ℕ) (scope kind : String) (items : List (String × Payload)) (db : EvidenceDb)
    → str_eq kind "decision" ≡ false
    → IsCoherent c db
    → Leaves (IsCoherent c) (append_batch c now scope kind items db)
unfolding append_batch
append_batch-IsCoherent c now scope kind [] db other h = h
append_batch-IsCoherent c now scope kind ((id, payload) ∷ rest) db other h =
    go (λ db' k. append_batch-IsCoherent c now scope kind rest db' other k)
      (put_evidence c now scope kind payload id db)
      (put_evidence-IsCoherent c now scope kind payload id db (λ l e. absurd (cc (other, e))) h)
  where
    go :
        ((db' : EvidenceDb)
          → IsCoherent c db'
          → Leaves (IsCoherent c) (append_batch c now scope kind rest db'))
        → (r : Result EvidenceDb) → Leaves (IsCoherent c) r
        → Leaves
            (IsCoherent c)
            (elim r [ ok db' ↦ append_batch c now scope kind rest db' | err e ↦ err e ])
    go next (ok db') k = next db' k
    go next (err e) k = tt

pub append-IsCoherent :
    (c : Codec) (now : ℕ) (scope kind : String) (payload : Payload) (id : String) (db : EvidenceDb)
    → MayAppend c db scope kind payload id
    → IsCoherent c db
    → LeavesPair (IsCoherent c) (append c now scope kind payload id db)
unfolding append
append-IsCoherent c now scope kind payload id db new h =
    go (put_evidence c now scope kind payload id db)
      (put_evidence-IsCoherent c now scope kind payload id db new h)
  where
    go :
        (r : Result EvidenceDb)
        → Leaves (IsCoherent c) r
        → LeavesPair (IsCoherent c) (elim r as (λ _. Result (String × EvidenceDb)) [
          | ok db' ↦ ok (id, db')
          | err e ↦ err e
        ])
    go (ok db') k = k
    go (err e) k = tt

pub best_effort-IsCoherent :
    (c : Codec) (now : ℕ) (scope kind : String) (payload : Payload) (id : String) (db : EvidenceDb)
    → MayAppend c db scope kind payload id
    → IsCoherent c db
    → IsCoherent c (best_effort c now scope kind payload id db)
unfolding best_effort
best_effort-IsCoherent c now scope kind payload id db new h =
    go (put_evidence c now scope kind payload id db)
      (put_evidence-IsCoherent c now scope kind payload id db new h)
  where
    go :
        (r : Result EvidenceDb)
        → Leaves (IsCoherent c) r
        → IsCoherent c (elim r as (λ _. EvidenceDb) [ ok db' ↦ db' | err e ↦ db ])
    go (ok db') k = k
    go (err e) k = h
