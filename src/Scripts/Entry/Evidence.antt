-- ===== src/Scripts/Entry/Evidence.antt =====
-- scripts/strategy_evidence.py: the events and the intents of a SQLite file. A payload is the value of
-- its key fallback_parent, and the rest as a text; an intent's plan is taken apart in the same way.
use okxquant.Prelude.{
  ℕ, String, Bool, false, ◌&&◌, ◌||◌, not, Option, none, some, List, [], ◌∷◌, leb, str_eq, any_of,
  if◌then◌else◌, Result, ok, err, value_error, other_error,
}
use okxquant.Prelude.Table.{select, update, insert, insert_or_ignore, fetch_one, order_by}

-- risk_policy.number of a JSON value: what raises, what is below zero, and the multiples of a unit.
pub data Size : Type 0 where
  unreadable : Size
  negative : Size
  amount : ℕ → Size

-- What the exchange said of the Maker order: the keys that create_decision reads.
pub record Proof : Type 0 where
  pub inst_id : Option String
  pub client_id : Option String
  pub order_id : Option String
  pub state : Option String
  pub acc_fill : Size
  pub kind : Option String
  pub exchange_code : Option String

-- fallback_parent
pub record Link : Type 0 where
  pub client_id : String
  pub decision_id : String
  pub inst_id : String
  pub side : String
  pub state : String
  pub proof : Proof

pub record Payload : Type 0 where
  pub body : String
  pub fallback_parent : Option Link

-- events
pub record Evidence : Type 0 where
  pub id : String
  pub scope : String
  pub kind : String
  pub at : ℕ
  pub payload : Payload
  pub digest : String

pub record Plan : Type 0 where
  pub side : Option String
  pub entry_execution_mode : Option String
  pub intent_created_at : Option ℕ
  pub body : String

-- intents
pub record Intent : Type 0 where
  pub id : String
  pub scope : String
  pub decision_id : String
  pub inst_id : String
  pub state : String
  pub at : ℕ
  pub payload : Plan

pub record EvidenceDb : Type 0 where
  pub events : List Evidence
  pub intents : List Intent

-- _scrub of the rest of a payload, sha256 of the canonical JSON, and the same for the name of a child
-- decision, of its scope, decision and instrument.
pub record Codec : Type 0 where
  pub scrub : String → String
  pub digest : Payload → String
  pub child : String → String → String → String

unfoldable pub scrubbed : Codec → Payload → Payload
scrubbed c payload = record payload { body = c.scrub payload.body }

unfoldable pub same_evidence : Evidence → Evidence → Bool
same_evidence a b = str_eq a.id b.id

-- old != (scope, kind, digest)
unfoldable pub collides : String → String → String → Option Evidence → Bool
collides scope kind digest none = false
collides scope kind digest (some old) =
    not (str_eq old.scope scope && (str_eq old.kind kind && str_eq old.digest digest))

unfoldable pub put_evidence :
    Codec → ℕ → String → String → Payload → String → EvidenceDb → Result EvidenceDb
unfolding scrubbed same_evidence collides insert_or_ignore fetch_one
put_evidence c now scope kind payload id db =
    let clean = scrubbed c payload in
    if collides scope kind (c.digest clean) (fetch_one (λ e. str_eq e.id id) db.events)
    then err value_error
    else ok (record db {
      events =
          insert_or_ignore same_evidence
            record {
              id = id;
              scope = scope;
              kind = kind;
              at = now;
              payload = clean;
              digest = c.digest clean;
            }
            db.events;
    })

-- append; the identity is the caller's, or a uuid.
unfoldable pub append :
    Codec → ℕ → String → String → Payload → String → EvidenceDb → Result (String × EvidenceDb)
unfolding put_evidence
append c now scope kind payload id db = elim (put_evidence c now scope kind payload id db) [
  | ok db' ↦ ok (id, db')
  | err e ↦ err e
]

-- append_batch: one transaction.
unfoldable pub append_batch :
    Codec → ℕ → String → String → List (String × Payload) → EvidenceDb → Result EvidenceDb
unfolding put_evidence
append_batch c now scope kind [] db = ok db
append_batch c now scope kind ((id, payload) ∷ rest) db =
    elim (put_evidence c now scope kind payload id db) [
      | ok db' ↦ append_batch c now scope kind rest db'
      | err e ↦ err e
    ]

unfoldable pub best_effort :
    Codec → ℕ → String → String → Payload → String → EvidenceDb → EvidenceDb
unfolding put_evidence
best_effort c now scope kind payload id db = elim (put_evidence c now scope kind payload id db) [
  | ok db' ↦ db'
  | err e ↦ db
]

-- UNIQUE(scope,decision_id,inst_id)
unfoldable pub same_attempt : Intent → Intent → Bool
same_attempt a b =
    str_eq a.scope b.scope && (str_eq a.decision_id b.decision_id && str_eq a.inst_id b.inst_id)

unfoldable pub same_intent : Intent → Intent → Bool
same_intent a b = str_eq a.id b.id

unfoldable pub or_now : ℕ → Option ℕ → Option ℕ
or_now now none = some now
or_now now (some t) = some t

unfoldable pub new_intent : Codec → ℕ → String → String → String → String → Plan → Intent
unfolding or_now
new_intent c now uuid scope decision_id inst_id plan = record {
  id = uuid;
  scope = scope;
  decision_id = decision_id;
  inst_id = inst_id;
  state = "unknown";
  at = now;
  payload = record plan {
    intent_created_at = or_now now plan.intent_created_at;
    body = c.scrub plan.body;
  };
}

-- begin_intent with the uuid that it draws; the constraints refuse an id or an attempt that is there.
unfoldable pub begin_intent :
    Codec → ℕ → String → String → String → String → Plan → EvidenceDb → Result (String × EvidenceDb)
unfolding new_intent same_attempt same_intent insert
begin_intent c now uuid scope decision_id inst_id plan db =
    let row = new_intent c now uuid scope decision_id inst_id plan in
    if str_eq decision_id ""
    then err value_error
    else if any_of (λ i. same_intent i row || same_attempt i row) db.intents
    then err other_error
    else ok (uuid, record db { intents = insert row db.intents })

abbrev pub set_intent_state : String → Intent → Intent
set_intent_state state i = record i { state = state }

unfoldable pub finish_found :
    Codec → ℕ → String → String → String → String → EvidenceDb → Option Intent → EvidenceDb
unfolding best_effort update
finish_found c now id state uuid note db none = db
finish_found c now id state uuid note db (some row) =
    best_effort c now row.scope "order_status" (record { body = note; fallback_parent = none }) uuid
      (record db { intents = update (λ i. str_eq i.id id) (set_intent_state state) db.intents })

-- finish_intent; `note` is the payload of the event order_status, under the uuid that append draws.
unfoldable pub finish_intent :
    Codec → ℕ → String → String → String → String → EvidenceDb → EvidenceDb
unfolding finish_found fetch_one
finish_intent c now id state uuid note db =
    finish_found c now id state uuid note db (fetch_one (λ i. str_eq i.id id) db.intents)

unfoldable pub is_unresolved : String → Intent → Bool
is_unresolved scope i =
    str_eq i.scope scope
    && (str_eq i.state "unknown" || (str_eq i.state "acknowledged" || str_eq i.state "pending"))

unfoldable pub is_earlier : Intent → Intent → Bool
is_earlier a b = leb a.at b.at

unfoldable pub unresolved : String → EvidenceDb → List Intent
unfolding is_unresolved is_earlier select order_by
unresolved scope db = order_by is_earlier (select (is_unresolved scope) db.intents)
