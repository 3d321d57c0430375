-- ===== src/Scripts/Entry/Coherent/Calls.antt =====
-- Proofs on scripts/entry_gateway.py and create_decision of scripts/maker_fallback.py: any calls.
use okxquant.Prelude.{
  ℕ, String, Bool, true, false, ◌≡◌, refl, sym, subst, inl, inr, Option, none, some, List, [], ◌∷◌,
  arith, ◌||◌, not, Bool-cases, All, any_of, All-always, str_eq, eq_iff, Result, ok, err,
  other_error, is_some, if◌then◌else◌,
}
use okxquant.Prelude.Table.{fetch_one, fetch_one-holds}
use okxquant.Scripts.Entry.Evidence.{
  Proof, Link, Evidence, Plan, Intent, EvidenceDb, Codec, append, same_attempt, same_intent,
  new_intent, begin_intent,
}
use okxquant.Scripts.Entry.Fallback.{
  is_attempt, is_maker, is_proven, is_decision, linked, create_from, create_decision,
}
use okxquant.Scripts.Entry.Calls.{
  check_route, prepare_from, prepare, EntryCall, decide, mention, archive, prepare_entry, finish,
  fall_back, kept_db, kept_pair, leaves_decisions, make, make_all,
}
use okxquant.Scripts.Entry.Coherent.{
  IsChild, IsCoherent, Leaves, LeavesPair, append_batch-IsCoherent, append-IsCoherent,
}
use okxquant.Scripts.Entry.Coherent.Intents.{finish_intent-IsCoherent, begin-IsCoherent}
use okxquant.Scripts.Entry.Coherent.Links.{attempt_eqs, routed_inst}

begin_intent-IsCoherent :
    (c : Codec) (now : ℕ) (uuid scope decision_id inst_id : String) (plan : Plan) (e : Evidence)
    (db : EvidenceDb)
    → fetch_one (is_decision decision_id scope) db.events ≡ some e
    → ((l : Link) → e.payload.fallback_parent ≡ some l → l.inst_id ≡ inst_id)
    → IsCoherent c db
    → LeavesPair (IsCoherent c) (begin_intent c now uuid scope decision_id inst_id plan db)
unfolding begin_intent new_intent
begin_intent-IsCoherent c now uuid scope decision_id inst_id plan e db found inst h =
    let row = new_intent c now uuid scope decision_id inst_id plan in
    elim (Bool-cases (str_eq decision_id "")) [
      | inl t ↦ rw t tt
      | inr t ↦
          rw t
            (elim (Bool-cases (any_of (λ i. same_intent i row || same_attempt i row) db.intents)) [
              | inl k ↦ rw k tt
              | inr k ↦
                  rw k (
                    begin-IsCoherent c row db k (record { event = e; found = found; inst = inst })
                      h)
            ])
    ]

prepare-IsCoherent :
    (c : Codec) (now : ℕ) (uuid scope decision_id inst_id side mode : String) (allowed : Bool)
    (plan : Plan) (db : EvidenceDb)
    → IsCoherent c db
    → LeavesPair
        (IsCoherent c)
        (prepare c now uuid scope decision_id inst_id side mode allowed plan db)
unfolding prepare prepare_from
prepare-IsCoherent c now uuid scope decision_id inst_id side mode allowed plan db h =
    go (fetch_one (is_decision decision_id scope) db.events) refl
  where
    routed :
        (a : Bool) (e : Evidence) (r : Result (Option String))
        → fetch_one (is_decision decision_id scope) db.events ≡ some e
        → check_route scope (str_eq mode "bounded_fallback") inst_id side e.payload db ≡ r
        → LeavesPair (IsCoherent c) (elim r as (λ _. Result (String × EvidenceDb)) [
          | err f ↦ err f
          | ok parent ↦
              if a
              then begin_intent c now uuid scope decision_id inst_id
                  (record plan { entry_execution_mode = some mode })
                  db
              else err other_error
        ])
    routed a e (err f) found route = tt
    routed false e (ok parent) found route = tt
    routed true e (ok parent) found route =
        begin_intent-IsCoherent c now uuid scope decision_id inst_id
          (record plan { entry_execution_mode = some mode }) e db found
          (routed_inst c db decision_id scope inst_id side (str_eq mode "bounded_fallback") parent e
            h found route)
          h

    go :
        (o : Option Evidence)
        → fetch_one (is_decision decision_id scope) db.events ≡ o
        → LeavesPair
            (IsCoherent c)
            (prepare_from c now uuid scope decision_id inst_id side mode allowed plan db o)
    go none found = tt
    go (some e) found =
        routed allowed e
          (check_route scope (str_eq mode "bounded_fallback") inst_id side e.payload db) found refl

abbrev link_to : Intent → String → Proof → Link
link_to p side proof = record {
  client_id = p.id;
  decision_id = p.decision_id;
  inst_id = p.inst_id;
  side = side;
  state = p.state;
  proof = proof;
}

no_parent : (o : Option Link) → is_some o ≡ false → o ≡ none
no_parent none h = refl
no_parent (some l) h = absurd (cc h)

new_child :
    (c : Codec) (db : EvidenceDb) (scope parent decision_id inst_id side : String) (proof : Proof)
    (p : Intent) (e : Evidence)
    → fetch_one (λ i. str_eq i.id parent) db.intents ≡ some p
    → fetch_one (is_decision decision_id scope) db.events ≡ some e
    → is_attempt scope decision_id inst_id p ≡ true
    → e.payload.fallback_parent ≡ none
    → IsChild c db scope (c.child scope decision_id inst_id) (link_to p side proof)
new_child c db scope parent decision_id inst_id side proof p e at found attempt original =
    let (_, d, t) = attempt_eqs scope decision_id inst_id p attempt in
    let (_, test) =
      fetch_one-holds {0, 0} (λ _. Unit) (λ i. str_eq i.id parent) db.intents
        (All-always (λ _. Unit) (λ _. tt) db.intents) at in
    let named : p.id ≡ parent = (eq_iff p.id parent).0 test in
    record {
      named = rw (d, t) refl;
      parent = p;
      found = subst (λ t. fetch_one (λ i. str_eq i.id t) db.intents ≡ some p) (sym named) at;
      attempt =
          subst (λ a. is_attempt scope a p.inst_id p ≡ true) (sym d)
            (subst (λ a. is_attempt scope decision_id a p ≡ true) (sym t) attempt);
      origin = e;
      recorded = rw d found;
      original = original;
    }

create_decision-IsCoherent :
    (c : Codec) (now : ℕ) (scope parent decision_id inst_id side : String) (proof : Proof)
    (db : EvidenceDb)
    → IsCoherent c db
    → LeavesPair
        (IsCoherent c)
        (create_decision c now scope parent decision_id inst_id side proof db)
unfolding create_decision create_from
create_decision-IsCoherent c now scope parent decision_id inst_id side proof db h =
    go (fetch_one (λ i. str_eq i.id parent) db.intents)
      (fetch_one (is_decision decision_id scope) db.events) refl refl
  where
    appended :
        (p : Intent) (e : Evidence)
        → fetch_one (λ i. str_eq i.id parent) db.intents ≡ some p
        → fetch_one (is_decision decision_id scope) db.events ≡ some e
        → is_attempt scope decision_id inst_id p ≡ true
        → is_some e.payload.fallback_parent ≡ false
        → LeavesPair (IsCoherent c) (
            append c now scope "decision"
              (linked p side proof e.payload)
              (c.child scope decision_id inst_id)
              db)
    appended p e at found attempt original =
        append-IsCoherent c now scope "decision" (linked p side proof e.payload)
          (c.child scope decision_id inst_id) db
          (λ l kind k.
            let same : link_to p side proof ≡ l = unfold linked in cc k in
            subst (IsChild c db scope (c.child scope decision_id inst_id)) same (
              new_child c db scope parent decision_id inst_id side proof p e at found attempt
                (no_parent e.payload.fallback_parent original)))
          h

    go :
        (o : Option Intent) (u : Option Evidence)
        → fetch_one (λ i. str_eq i.id parent) db.intents ≡ o
        → fetch_one (is_decision decision_id scope) db.events ≡ u
        → LeavesPair (IsCoherent c) (create_from c now scope decision_id inst_id side proof db o u)
    go none u at found = tt
    go (some p) none at found = tt
    go (some p) (some e) at found = elim (Bool-cases (is_attempt scope decision_id inst_id p)) [
      | inr a ↦ rw a tt
      | inl a ↦
          rw a (elim (Bool-cases (not (is_maker side p) || is_some e.payload.fallback_parent)) [
            | inl m ↦ rw m tt
            | inr m ↦ rw m (elim (Bool-cases (is_proven proof inst_id p.id p.state)) [
              | inr k ↦ rw k tt
              | inl k ↦ rw k (appended p e at found a (ground arith))
            ])
          ])
    ]

pair_kept :
    (c : Codec) (db : EvidenceDb) (r : Result (String × EvidenceDb))
    → IsCoherent c db
    → LeavesPair (IsCoherent c) r
    → IsCoherent c (kept_pair db r)
pair_kept c db (ok (id, db')) h k = k
pair_kept c db (err e) h k = h

db_kept :
    (c : Codec) (db : EvidenceDb) (r : Result EvidenceDb)
    → IsCoherent c db
    → Leaves (IsCoherent c) r
    → IsCoherent c (kept_db db r)
db_kept c db (ok db') h k = k
db_kept c db (err e) h k = h

make-IsCoherent :
    (c : Codec) (now : ℕ) (call : EntryCall) (db : EvidenceDb)
    → leaves_decisions call ≡ true
    → IsCoherent c db
    → IsCoherent c (make c now call db)
unfolding make leaves_decisions
make-IsCoherent c now (decide scope uuid body) db other h = pair_kept c db _ h (
    append-IsCoherent c now scope "decision" (record { body = body; fallback_parent = none }) uuid
      db (λ l kind e. absurd (cc e)) h)
make-IsCoherent c now (mention scope kind payload id) db other h =
    pair_kept c db _ h
      (append-IsCoherent c now scope kind payload id db (λ l e k. absurd (cc (rw e at other))) h)
make-IsCoherent c now (archive scope kind items) db other h =
    db_kept c db _ h (append_batch-IsCoherent c now scope kind items db (ground arith) h)
make-IsCoherent c now (prepare_entry uuid scope decision_id inst_id side mode allowed plan) db other
      h =
    pair_kept c db _ h
      (prepare-IsCoherent c now uuid scope decision_id inst_id side mode allowed plan db h)
make-IsCoherent c now (finish id state uuid note) db other h =
    finish_intent-IsCoherent c now id state uuid note db h
make-IsCoherent c now (fall_back scope parent decision_id inst_id side proof) db other h =
    pair_kept c db _ h
      (create_decision-IsCoherent c now scope parent decision_id inst_id side proof db h)

pub make_all-IsCoherent :
    (c : Codec) (calls : List (ℕ × EntryCall)) (db : EvidenceDb)
    → All (λ call. leaves_decisions call.1 ≡ true) calls
    → IsCoherent c db
    → IsCoherent c (make_all c calls db)
unfolding make_all
make_all-IsCoherent c [] db other h = h
make_all-IsCoherent c ((now, call) ∷ calls) db other h =
    make_all-IsCoherent c calls (make c now call db) other.1
      (make-IsCoherent c now call db other.0 h)
