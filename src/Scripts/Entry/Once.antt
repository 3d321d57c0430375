-- ===== src/Scripts/Entry/Once.antt =====
-- Proofs on scripts/maker_fallback.py under any calls of scripts/strategy_evidence.py: the fallbacks of
-- one Maker order.
use okxquant.Prelude.{
  ℕ, ◌≤◌, String, Bool, true, false, ◌≡◌, refl, sym, ap, subst, ◌∙◌, Option, none, some, List, All,
  All-map, str_eq, eq_iff,
}
use okxquant.Prelude.Table.{fetch_one, count_where, count_where-Distinct}
use okxquant.Scripts.Entry.Evidence.{Link, Evidence, Intent, EvidenceDb, Codec, same_attempt}
use okxquant.Scripts.Entry.Fallback.{is_decision}
use okxquant.Scripts.Entry.Calls.{EntryCall, leaves_decisions, make_all}
use okxquant.Scripts.Entry.Coherent.{IsRooted, IsCoherent}
use okxquant.Scripts.Entry.Coherent.Links.{attempt_eqs, linked-IsChild}
use okxquant.Scripts.Entry.Coherent.Calls.{make_all-IsCoherent}

-- Whether an intent is the fallback of the intent of an id, by the record of its decision.
unfoldable names_parent : String → Option Evidence → Bool
names_parent id none = false
names_parent id (some e) = elim e.payload.fallback_parent [
  | none ↦ false
  | some l ↦ str_eq l.client_id id
]

unfoldable pub is_fallback_of : EvidenceDb → String → Intent → Bool
unfolding names_parent
is_fallback_of db id i = names_parent id (fetch_one (is_decision i.decision_id i.scope) db.events)

fallback_link :
    (db : EvidenceDb) (id : String) (i : Intent) (e : Evidence)
    → fetch_one (is_decision i.decision_id i.scope) db.events ≡ some e
    → is_fallback_of db id i ≡ true
    → (l : Link) × (e.payload.fallback_parent ≡ some l) × (l.client_id ≡ id)
unfolding is_fallback_of
fallback_link db id i e found h = named (ap (names_parent id) (sym found) ∙ h)
  where
    named :
        names_parent id (some e) ≡ true
        → (l : Link) × (e.payload.fallback_parent ≡ some l) × (l.client_id ≡ id)
    named k = go e.payload.fallback_parent refl (unfold names_parent in k)
      where
        go :
            (o : Option Link)
            → e.payload.fallback_parent ≡ o
            → elim o as (λ _. Bool) [ none ↦ false | some l ↦ str_eq l.client_id id ] ≡ true
            → (l : Link) × (e.payload.fallback_parent ≡ some l) × (l.client_id ≡ id)
        go none at q = absurd (cc q)
        go (some l) at q = (l, at, (eq_iff l.client_id id).0 q)

child_eq :
    (c : Codec) {s s' d d' t t' : String}
    → s ≡ s'
    → d ≡ d'
    → t ≡ t'
    → c.child s d t ≡ c.child s' d' t'
child_eq c e f g = cc (e, f, g)

-- Two fallbacks of one Maker order are one attempt.
same_fallback :
    (c : Codec) (db : EvidenceDb) (id : String) (a b : Intent)
    → IsCoherent c db
    → IsRooted db a
    → IsRooted db b
    → is_fallback_of db id a ≡ true
    → is_fallback_of db id b ≡ true
    → same_attempt a b ≡ true
same_fallback c db id a b h ra rb fa fb =
    let (la, linka, ida) = fallback_link db id a ra.event ra.found fa in
    let (lb, linkb, idb) = fallback_link db id b rb.event rb.found fb in
    let x = linked-IsChild c db a.decision_id a.scope ra.event la h ra.found linka in
    let y = linked-IsChild c db b.decision_id b.scope rb.event lb h rb.found linkb in
    let found : fetch_one (λ i. str_eq i.id id) db.intents ≡ some x.parent =
      subst (λ t. fetch_one (λ i. str_eq i.id t) db.intents ≡ some x.parent) ida x.found in
    let found' : fetch_one (λ i. str_eq i.id id) db.intents ≡ some y.parent =
      subst (λ t. fetch_one (λ i. str_eq i.id t) db.intents ≡ some y.parent) idb y.found in
    let one : x.parent ≡ y.parent =
      let both : some x.parent ≡ some y.parent = sym found ∙ found' in cc both in
    let (s, d, t) = attempt_eqs a.scope la.decision_id la.inst_id x.parent x.attempt in
    let (s', d', t') = attempt_eqs b.scope lb.decision_id lb.inst_id y.parent y.attempt in
    let scopes : a.scope ≡ b.scope = sym s ∙ ap (λ (i : Intent). i.scope) one ∙ s' in
    let decisions : la.decision_id ≡ lb.decision_id =
      sym d ∙ ap (λ (i : Intent). i.decision_id) one ∙ d' in
    let insts : la.inst_id ≡ lb.inst_id = sym t ∙ ap (λ (i : Intent). i.inst_id) one ∙ t' in
    let names : a.decision_id ≡ b.decision_id =
      x.named ∙ child_eq c scopes decisions insts ∙ sym y.named in
    let places : a.inst_id ≡ b.inst_id = sym (ra.inst la linka) ∙ insts ∙ rb.inst lb linkb in
    unfold same_attempt in
    rw
      (
        (eq_iff a.scope b.scope).1 scopes,
        (eq_iff a.decision_id b.decision_id).1 names,
        (eq_iff a.inst_id b.inst_id).1 places,
      )
      refl

original_named :
    (id : String) (e : Evidence)
    → e.payload.fallback_parent ≡ none
    → names_parent id (some e) ≡ false
unfolding names_parent
original_named id e h = rw h refl

originated :
    (c : Codec) (db : EvidenceDb) (id : String) (i : Intent)
    → IsCoherent c db
    → IsRooted db i
    → is_fallback_of db id i ≡ true
    → (p : Intent) × (fetch_one (λ r. str_eq r.id id) db.intents ≡ some p)
      × (p.scope ≡ i.scope)
      × (p.inst_id ≡ i.inst_id)
      × ((other : String) → is_fallback_of db other p ≡ false)
originated c db id i h r f =
    let (l, link, named) = fallback_link db id i r.event r.found f in
    let x = linked-IsChild c db i.decision_id i.scope r.event l h r.found link in
    let (s, d, t) = attempt_eqs i.scope l.decision_id l.inst_id x.parent x.attempt in
    let recorded : fetch_one (is_decision x.parent.decision_id x.parent.scope) db.events
        ≡ some x.origin =
      subst (λ v. fetch_one (is_decision v x.parent.scope) db.events ≡ some x.origin) (sym d)
        (subst (λ v. fetch_one (is_decision l.decision_id v) db.events ≡ some x.origin) (sym s)
          x.recorded) in
    (
      x.parent,
      subst (λ v. fetch_one (λ r. str_eq r.id v) db.intents ≡ some x.parent) named x.found,
      s,
      t ∙ r.inst l link,
      λ other.
          unfold is_fallback_of in
          ap (names_parent other) recorded ∙ original_named other x.origin x.original,
    )

-- From a file whose fallback decisions and intents agree, as those of an empty file do, and
-- after any calls in any order, where only record_decisions and create_decision append
-- decisions: at most one intent is a fallback of a given Maker intent.
pub make_all-one_fallback :
    (c : Codec) (calls : List (ℕ × EntryCall)) (id : String) (db : EvidenceDb)
    → All (λ call. leaves_decisions call.1 ≡ true) calls
    → IsCoherent c db
    → let db' = make_all c calls db in count_where (is_fallback_of db' id) db'.intents ≤ 1
make_all-one_fallback c calls id db other h =
    let db' = make_all c calls db in
    let k = make_all-IsCoherent c calls db other h in
    count_where-Distinct (IsRooted db') same_attempt (is_fallback_of db' id)
      (λ a b ra rb fa fb. same_fallback c db' id a b k ra rb fa fb) db'.intents k.rooted k.attempts

-- From a file whose fallback decisions and intents agree, and after any calls in any order,
-- where only record_decisions and create_decision append decisions: the Maker intent of a
-- fallback is there, for the same account and the same instrument, and is no fallback itself.
pub make_all-original :
    (c : Codec) (calls : List (ℕ × EntryCall)) (id : String) (db : EvidenceDb)
    → All (λ call. leaves_decisions call.1 ≡ true) calls
    → IsCoherent c db
    → let db' = make_all c calls db in
      All
        (λ i.
          is_fallback_of db' id i ≡ true
          → (p : Intent) × (fetch_one (λ r. str_eq r.id id) db'.intents ≡ some p)
            × (p.scope ≡ i.scope)
            × (p.inst_id ≡ i.inst_id)
            × ((other : String) → is_fallback_of db' other p ≡ false))
        db'.intents
make_all-original c calls id db other h =
    let db' = make_all c calls db in
    let k = make_all-IsCoherent c calls db other h in
    All-map (IsRooted db') _ (λ i r f. originated c db' id i k r f) db'.intents k.rooted
