-- ===== src/Scripts/Entry/Fallback.antt =====
-- scripts/maker_fallback.py: when a Maker order may be followed by one fallback.
use okxquant.Prelude.{
  ℕ, String, Bool, true, false, ◌&&◌, ◌||◌, not, Option, none, some, List, [], ◌∷◌, str_eq, ◌==◌,
  if◌then◌else◌, Result, ok, err, other_error, is_some,
}
use okxquant.Prelude.Table.{fetch_one}
use okxquant.Scripts.Entry.Evidence.{
  Size, unreadable, negative, amount, Proof, Link, Payload, Evidence, Intent, EvidenceDb, Codec,
  append,
}

-- value == text, where value may be missing.
unfoldable pub is_text : Option String → String → Bool
is_text none t = false
is_text (some s) t = str_eq s t

-- value in (None, '', '0')
unfoldable pub no_code : Option String → Bool
no_code none = true
no_code (some s) = str_eq s "" || str_eq s "0"

unfoldable pub is_given : Option String → Bool
is_given none = false
is_given (some s) = not (str_eq s "")

-- explicit_exchange_rejection: the return code, whether there are data, and the exchange's code.
unfoldable pub explicit_exchange_rejection : ℕ → Bool → Option String → Bool
unfolding no_code
explicit_exchange_rejection returncode has_data code =
    returncode == 0 && (has_data && not (no_code code))

-- What a request answers: no list, or a list whose rows are dicts or not.
pub data Cell : Type 0 where
  not_dict : Cell
  dict : Proof → Cell

pub data Answer : Type 0 where
  no_list : Answer
  rows : List Cell → Answer

-- str(value or '') == text
unfoldable pub is_or_blank : Option String → String → Bool
is_or_blank none t = str_eq "" t
is_or_blank (some s) t = str_eq s t

unfoldable pub status_row : Answer → String → String → Result Proof
unfolding is_or_blank
status_row no_list inst_id order_id = err other_error
status_row (rows []) inst_id order_id = err other_error
status_row (rows (not_dict ∷ [])) inst_id order_id = err other_error
status_row (rows (dict row ∷ [])) inst_id order_id =
    if is_or_blank row.inst_id inst_id && is_or_blank row.order_id order_id
    then ok row
    else err other_error
status_row (rows (x ∷ y ∷ rest)) inst_id order_id = err other_error

unfoldable pub cancel : Answer → Result (List Cell)
cancel no_list = err other_error
cancel (rows cells) = ok cells

unfoldable pub size_of : Size → Result ℕ
size_of unreadable = err other_error
size_of negative = err other_error
size_of (amount n) = ok n

unfoldable pub canceled_fill_size : Proof → Result ℕ
unfolding is_text size_of
canceled_fill_size row =
    if is_text row.state "canceled" || is_text row.state "mmp_canceled"
    then size_of row.acc_fill
    else err other_error

unfoldable pub is_zero : Result ℕ → Bool
is_zero (ok n) = n == 0
is_zero (err e) = false

-- A terminal receipt of the Maker order itself that shows no fill.
unfoldable pub zero_fill : Proof → String → String → Bool
unfolding is_text is_given canceled_fill_size is_zero
zero_fill proof inst_id client_id =
    is_text proof.inst_id inst_id
    && (is_text proof.client_id client_id
        && (is_given proof.order_id && is_zero (canceled_fill_size proof)))

unfoldable pub business_rejection : Proof → Bool
unfolding is_text no_code
business_rejection proof =
    is_text proof.kind "explicit_business_rejection" && not (no_code proof.exchange_code)

-- The evidence that the state of the Maker intent asks for.
unfoldable pub is_proven : Proof → String → String → String → Bool
unfolding zero_fill business_rejection
is_proven proof inst_id client_id state =
    if str_eq state "canceled"
    then zero_fill proof inst_id client_id
    else str_eq state "not_submitted" && business_rejection proof

unfoldable pub is_attempt : String → String → String → Intent → Bool
is_attempt scope decision_id inst_id i =
    str_eq i.scope scope && (str_eq i.decision_id decision_id && str_eq i.inst_id inst_id)

-- plan.get('side') == side and plan.get('entry_execution_mode') == 'maker_first'
unfoldable pub is_maker : String → Intent → Bool
unfolding is_text
is_maker side i =
    is_text i.payload.side side && is_text i.payload.entry_execution_mode "maker_first"

unfoldable pub is_decision : String → String → Evidence → Bool
is_decision id scope e = str_eq e.id id && (str_eq e.scope scope && str_eq e.kind "decision")

unfoldable pub linked : Intent → String → Proof → Payload → Payload
linked parent side proof payload = record payload {
  fallback_parent = some record {
    client_id = parent.id;
    decision_id = parent.decision_id;
    inst_id = parent.inst_id;
    side = side;
    state = parent.state;
    proof = proof;
  };
}

unfoldable pub create_from :
    Codec
    → ℕ
    → String
    → String
    → String
    → String
    → Proof
    → EvidenceDb
    → Option Intent
    → Option Evidence
    → Result (String × EvidenceDb)
unfolding is_attempt is_maker is_proven linked append
create_from c now scope decision_id inst_id side proof db none original = err other_error
create_from c now scope decision_id inst_id side proof db (some parent) none = err other_error
create_from c now scope decision_id inst_id side proof db (some parent) (some original) =
    if not (is_attempt scope decision_id inst_id parent)
    then err other_error
    else if not (is_maker side parent) || is_some original.payload.fallback_parent
    then err other_error
    else if is_proven proof inst_id parent.id parent.state
    then append c now scope "decision" (linked parent side proof original.payload)
        (c.child scope decision_id inst_id) db
    else err other_error

-- create_decision
unfoldable pub create_decision :
    Codec
    → ℕ
    → String
    → String
    → String
    → String
    → String
    → Proof
    → EvidenceDb
    → Result (String × EvidenceDb)
unfolding create_from is_decision fetch_one
create_decision c now scope parent_client_id decision_id inst_id side proof db =
    create_from c now scope decision_id inst_id side proof db
      (fetch_one (λ i. str_eq i.id parent_client_id) db.intents)
      (fetch_one (is_decision decision_id scope) db.events)

unfoldable pub validate_from : Link → String → String → String → Option Intent → Result String
unfolding is_attempt is_maker is_proven
validate_from link scope inst_id side none = err other_error
validate_from link scope inst_id side (some parent) =
    if not (is_attempt scope link.decision_id inst_id parent && str_eq parent.state link.state)
    then err other_error
    else if not (is_maker side parent && str_eq link.side side)
    then err other_error
    else if is_proven link.proof inst_id link.client_id parent.state
    then ok link.client_id
    else err other_error

-- validated_parent
unfoldable pub validated_parent : Payload → String → String → String → EvidenceDb → Result String
unfolding validate_from fetch_one
validated_parent payload scope inst_id side db = elim payload.fallback_parent [
  | none ↦ err other_error
  | some link ↦
      validate_from link scope inst_id side (fetch_one (λ i. str_eq i.id link.client_id) db.intents)
]
