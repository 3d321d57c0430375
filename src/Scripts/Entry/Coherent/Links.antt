-- ===== src/Scripts/Entry/Coherent/Links.antt =====
-- Proofs on validated_parent of scripts/maker_fallback.py: the decision that it reads.
use okxquant.Prelude.{
  String, Bool, true, false, ◌≡◌, refl, sym, ap, ◌∙◌, Option, none, some, arith, str_eq, eq_iff,
  Result, ok, err,
}
use okxquant.Prelude.Table.{fetch_one, fetch_one-holds}
use okxquant.Scripts.Entry.Evidence.{Link, Evidence, Intent, EvidenceDb, Codec}
use okxquant.Scripts.Entry.Fallback.{is_attempt, is_decision, validate_from, validated_parent}
use okxquant.Scripts.Entry.Calls.{check_route}
use okxquant.Scripts.Entry.Coherent.{IsChild, IsLinked, IsCoherent}

-- What the tests of an attempt say.
pub attempt_eqs :
    (scope decision inst : String) (i : Intent)
    → is_attempt scope decision inst i ≡ true
    → (i.scope ≡ scope) × (i.decision_id ≡ decision) × (i.inst_id ≡ inst)
unfolding is_attempt
attempt_eqs scope decision inst i h =
    let s : str_eq i.scope scope ≡ true = ground arith in
    let d : str_eq i.decision_id decision ≡ true = ground arith in
    let t : str_eq i.inst_id inst ≡ true = ground arith in
    ((eq_iff i.scope scope).0 s, (eq_iff i.decision_id decision).0 d, (eq_iff i.inst_id inst).0 t)

recorded_kind :
    (id scope : String) (e : Evidence)
    → is_decision id scope e ≡ true
    → (e.id ≡ id) × (e.scope ≡ scope) × (str_eq e.kind "decision" ≡ true)
unfolding is_decision
recorded_kind id scope e h =
    let a : str_eq e.id id ≡ true = ground arith in
    let b : str_eq e.scope scope ≡ true = ground arith in
    ((eq_iff e.id id).0 a, (eq_iff e.scope scope).0 b, ground arith)

-- The decision that a caller read, with what is known of it.
pub linked-IsChild :
    (c : Codec) (db : EvidenceDb) (id scope : String) (e : Evidence) (l : Link)
    → IsCoherent c db
    → fetch_one (is_decision id scope) db.events ≡ some e
    → e.payload.fallback_parent ≡ some l
    → IsChild c db scope id l
linked-IsChild c db id scope e l h found link =
    let (known, test) =
      fetch_one-holds (IsLinked c db) (is_decision id scope) db.events h.links found in
    let (at, of, kind) = recorded_kind id scope e test in rw (← at, ← of) (known l kind link)

validated :
    (l : Link) (scope inst_id side client : String) (o : Option Intent)
    → validate_from l scope inst_id side o ≡ ok client
    → (p : Intent) × (o ≡ some p) × (is_attempt scope l.decision_id inst_id p ≡ true)
unfolding validate_from
validated l scope inst_id side client none h = absurd (cc h)
validated l scope inst_id side client (some p) h = (p, refl, ground arith)

-- A fallback goes to the instrument of its Maker order.
validated_inst :
    (c : Codec) (db : EvidenceDb) (id scope inst_id side client : String) (e : Evidence)
    → IsCoherent c db
    → fetch_one (is_decision id scope) db.events ≡ some e
    → validated_parent e.payload scope inst_id side db ≡ ok client
    → (l : Link) → e.payload.fallback_parent ≡ some l
    → l.inst_id ≡ inst_id
unfolding validated_parent
validated_inst c db id scope inst_id side client e h found valid l link =
    let (p, at, attempt) =
      validated l scope inst_id side client (fetch_one (λ i. str_eq i.id l.client_id) db.intents)
        (rw link at valid) in
    let child = linked-IsChild c db id scope e l h found link in
    let same : p ≡ child.parent =
      let both : some p ≡ some child.parent = sym at ∙ child.found in cc both in
    let (_, _, mine) = attempt_eqs scope l.decision_id inst_id p attempt in
    let (_, _, theirs) = attempt_eqs scope l.decision_id l.inst_id child.parent child.attempt in
    sym theirs ∙ sym (ap (λ (i : Intent). i.inst_id) same) ∙ mine

pub routed_inst :
    (c : Codec) (db : EvidenceDb) (id scope inst_id side : String) (bounded : Bool)
    (parent : Option String) (e : Evidence)
    → IsCoherent c db
    → fetch_one (is_decision id scope) db.events ≡ some e
    → check_route scope bounded inst_id side e.payload db ≡ ok parent
    → (l : Link) → e.payload.fallback_parent ≡ some l
    → l.inst_id ≡ inst_id
unfolding check_route
routed_inst c db id scope inst_id side false parent e h found route l link =
    absurd (cc (rw link at route))
routed_inst c db id scope inst_id side true parent e h found route l link =
    go (validated_parent e.payload scope inst_id side db) refl route
  where
    go :
        (r : Result String)
        → validated_parent e.payload scope inst_id side db ≡ r
        → elim r as (λ _. Result (Option String)) [ ok client ↦ ok (some client) | err f ↦ err f ]
          ≡ ok parent
        → l.inst_id ≡ inst_id
    go (ok client) eq k = validated_inst c db id scope inst_id side client e h found eq l link
    go (err f) eq k = absurd (cc k)
