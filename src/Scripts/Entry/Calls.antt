-- ===== src/Scripts/Entry/Calls.antt =====
-- The callers of the evidence: record_decisions of scripts/strategy_evidence.py, the gate of
-- scripts/entry_gateway.py, and any sequence of calls.
use okxquant.Prelude.{
  ℕ, String, Bool, true, not, Option, none, some, List, [], ◌∷◌, str_eq, if◌then◌else◌, Result, ok,
  err, other_error, is_some,
}
use okxquant.Prelude.Table.{fetch_one}
use okxquant.Scripts.Entry.Evidence.{
  Proof, Payload, Evidence, Plan, EvidenceDb, Codec, append, append_batch, begin_intent,
  finish_intent,
}
use okxquant.Scripts.Entry.Fallback.{is_decision, create_decision, validated_parent}

-- The decision's record and the route it may take.
unfoldable pub check_route :
    String → Bool → String → String → Payload → EvidenceDb → Result (Option String)
unfolding validated_parent
check_route scope bounded inst_id side payload db =
    if bounded
    then elim (validated_parent payload scope inst_id side db) [
      | ok client ↦ ok (some client)
      | err e ↦ err e
    ]
    else if is_some payload.fallback_parent
    then err other_error
    else ok none

unfoldable pub prepare_from :
    Codec
    → ℕ
    → String
    → String
    → String
    → String
    → String
    → String
    → Bool
    → Plan
    → EvidenceDb
    → Option Evidence
    → Result (String × EvidenceDb)
unfolding check_route begin_intent
prepare_from c now uuid scope decision_id inst_id side mode allowed plan db none = err other_error
prepare_from c now uuid scope decision_id inst_id side mode allowed plan db (some recorded) =
    elim (check_route scope (str_eq mode "bounded_fallback") inst_id side recorded.payload db) [
      | err e ↦ err e
      | ok parent ↦
          if allowed
          then begin_intent c now uuid scope decision_id inst_id
              (record plan { entry_execution_mode = some mode }) db
          else err other_error
    ]

-- _prepare, from the read of the decision on: `allowed` says that no other check of it refuses, and
-- `plan` is the plan those checks build.
unfoldable pub prepare :
    Codec
    → ℕ
    → String
    → String
    → String
    → String
    → String
    → String
    → Bool
    → Plan
    → EvidenceDb
    → Result (String × EvidenceDb)
unfolding prepare_from is_decision fetch_one
prepare c now uuid scope decision_id inst_id side mode allowed plan db =
    prepare_from c now uuid scope decision_id inst_id side mode allowed plan db
      (fetch_one (is_decision decision_id scope) db.events)

-- record_decisions appends decisions without a parent; other events have other kinds.
pub data EntryCall : Type 0 where
  decide : String → String → String → EntryCall
  mention : String → String → Payload → String → EntryCall
  archive : String → String → List (String × Payload) → EntryCall
  prepare_entry : String → String → String → String → String → String → Bool → Plan → EntryCall
  finish : String → String → String → String → EntryCall
  fall_back : String → String → String → String → String → Proof → EntryCall

-- An exception leaves the file as it was.
abbrev pub kept_db : EvidenceDb → Result EvidenceDb → EvidenceDb
kept_db db (ok db') = db'
kept_db db (err e) = db

abbrev pub kept_pair : EvidenceDb → Result (String × EvidenceDb) → EvidenceDb
kept_pair db (ok (id, db')) = db'
kept_pair db (err e) = db

-- Only record_decisions and create_decision append events of the kind 'decision'.
unfoldable pub leaves_decisions : EntryCall → Bool
leaves_decisions (mention scope kind payload id) = not (str_eq kind "decision")
leaves_decisions (archive scope kind items) = not (str_eq kind "decision")
leaves_decisions _ = true

unfoldable pub make : Codec → ℕ → EntryCall → EvidenceDb → EvidenceDb
make c now (decide scope uuid body) db =
    kept_pair db
      (append c now scope "decision" (record { body = body; fallback_parent = none }) uuid db)
make c now (mention scope kind payload id) db = kept_pair db (append c now scope kind payload id db)
make c now (archive scope kind items) db = kept_db db (append_batch c now scope kind items db)
make c now (prepare_entry uuid scope decision_id inst_id side mode allowed plan) db =
    kept_pair db (prepare c now uuid scope decision_id inst_id side mode allowed plan db)
make c now (finish id state uuid note) db = finish_intent c now id state uuid note db
make c now (fall_back scope parent decision_id inst_id side proof) db =
    kept_pair db (create_decision c now scope parent decision_id inst_id side proof db)

unfoldable pub make_all : Codec → List (ℕ × EntryCall) → EvidenceDb → EvidenceDb
make_all c [] db = db
make_all c ((now, call) ∷ rest) db = make_all c rest (make c now call db)
