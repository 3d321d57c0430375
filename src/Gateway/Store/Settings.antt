-- ===== src/Gateway/Store/Settings.antt =====
-- GatewayStore.set_state, get_state, get_states, record_model_call, successful_model_call_in_slot
-- and successful_recovery_call.
use okxquant.Prelude.{
  ℕ, ◌+◌, ◌-◌, ◌*◌, String, Text, Bool, false, ◌&&◌, ◌||◌, Option, none, some, List, [], ◌∷◌, ◌++◌,
  ltb, leb, ◌==◌, str_eq, if◌then◌else◌, is_some,
}
use okxquant.Prelude.Table.{insert, fetch_one}
use okxquant.Gateway.Schema.{Setting, ModelCall, Db}

unfoldable pub put : String → Text → List Setting → List Setting
put key value [] = record { key = key; value = value } ∷ []
put key value (row ∷ rest) =
    if str_eq row.key key
    then record { key = key; value = value } ∷ rest
    else row ∷ put key value rest

-- set_state: INSERT … ON CONFLICT(key) DO UPDATE.
unfoldable pub set_state : String → Text → Db → Db
unfolding put
set_state key value db = record db { settings = put key value db.settings }

unfoldable pub look_up : String → List Setting → Option Text
look_up key [] = none
look_up key (row ∷ rest) = if str_eq row.key key then some row.value else look_up key rest

unfoldable pub or_default : Text → Option Text → Text
or_default d none = d
or_default d (some value) = value

-- get_state
unfoldable pub get_state : String → Text → Db → Text
unfolding look_up or_default
get_state key d db = or_default d (look_up key db.settings)

unfoldable pub found_setting : String → Option Text → List Setting → List Setting
found_setting key none rest = rest
found_setting key (some value) rest = record { key = key; value = value } ∷ rest

-- get_states: the dict of the keys that are stored; empty keys are dropped.
unfoldable pub get_states : List String → Db → List Setting
unfolding look_up found_setting
get_states [] db = []
get_states (key ∷ keys) db =
    let rest = get_states keys db in
    if str_eq key "" then rest else found_setting key (look_up key db.settings) rest

-- record_model_call: `diagnostics` is what safe_transport_diagnostics made of the transport, if it
-- is not empty.
unfoldable pub record_model_call : ModelCall → Option Text → Db → ℕ × Db
unfolding insert
record_model_call call diagnostics db =
    let id = db.call_seq + 1 in
    (
      id,
      record db {
        model_calls = insert (record call { id = id }) db.model_calls;
        call_seq = id;
        transports = elim diagnostics [
          | none ↦ db.transports
          | some d ↦ db.transports ++ ((id, d) ∷ [])
        ];
      },
    )

-- caller IN ('trading_brain','trading_brain_recovery')
unfoldable pub is_trading_call : String → Bool
is_trading_call caller = str_eq caller "trading_brain" || str_eq caller "trading_brain_recovery"

unfoldable pub succeeded_between : ℕ → ℕ → ModelCall → Bool
unfolding is_trading_call
succeeded_between slot_start slot_end c =
    is_trading_call c.caller
    && (c.succeeded && (leb slot_start c.started_at && ltb c.started_at slot_end))

unfoldable pub successful_model_call_in_slot : ℕ → ℕ → Db → Bool
unfolding succeeded_between fetch_one
successful_model_call_in_slot slot_start slot_end db =
    is_some (fetch_one (succeeded_between slot_start slot_end) db.model_calls)

-- raw.isdigit() on ASCII digits, and int(raw).
unfoldable pub digits : ℕ → Text → Option ℕ
digits n [] = some n
digits n (c ∷ rest) =
    let others = digits (n * 10 + (c - 48)) rest in if leb 48 c && leb c 57 then others else none

unfoldable pub number : Text → Option ℕ
unfolding digits
number [] = none
number (c ∷ rest) = digits 0 (c ∷ rest)

unfoldable pub is_recovery_success : ℕ → ModelCall → Bool
is_recovery_success id c = c.id == id && (str_eq c.caller "trading_brain_recovery" && c.succeeded)

unfoldable pub has_recovery_call : Option ℕ → Db → Bool
unfolding is_recovery_success fetch_one
has_recovery_call none db = false
has_recovery_call (some id) db = is_some (fetch_one (is_recovery_success id) db.model_calls)

-- successful_recovery_call: `key` spells 'ai_recovery.model_success.{recovery_id}'.
unfoldable pub successful_recovery_call : (ℕ → String) → ℕ → Db → Bool
unfolding get_state number has_recovery_call
successful_recovery_call key recovery_id db =
    has_recovery_call (number (get_state (key recovery_id) [] db)) db
