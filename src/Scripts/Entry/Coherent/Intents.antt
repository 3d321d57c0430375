-- ===== src/Scripts/Entry/Coherent/Intents.antt =====
-- Proofs on begin_intent and finish_intent of scripts/strategy_evidence.py: the rows of the intents.
use okxquant.Prelude.{
  ℕ, String, false, ◌≡◌, refl, ◌∙◌, inl, inr, Option, none, some, [], ◌∷◌, arith, ◌||◌, Bool-cases,
  All-map, any_of, All-any_of, str_eq, if◌then◌else◌,
}
use okxquant.Prelude.Table.{
  update, insert, fetch_one, Distinct-update, Distinct-insert, fetch_one-append, All-update,
  All-insert, fetch_one-update,
}
use okxquant.Scripts.Entry.Evidence.{
  Intent, EvidenceDb, Codec, same_attempt, same_intent, set_intent_state, finish_found,
  finish_intent,
}
use okxquant.Scripts.Entry.Fallback.{is_attempt}
use okxquant.Scripts.Entry.Coherent.{
  IsRooted, IsLinked, IsCoherent, Extends, extended-IsChild, extended-IsRooted,
  best_effort-IsCoherent,
}

-- The state of an intent changes, and nothing else of it.
finish-Extends :
    (id state : String) (db : EvidenceDb)
    → Extends db
        (record db { intents = update (λ i. str_eq i.id id) (set_intent_state state) db.intents })
finish-Extends id state db = record {
  events = λ p e k. k;
  intents = λ other i k.
      let kept_row =
        fetch_one-update (λ r. str_eq r.id other) (λ r. str_eq r.id id) (set_intent_state state)
          (λ r. refl) db.intents in
      (
        (if str_eq i.id id then set_intent_state state i else i),
        kept_row ∙ rw k refl,
        λ s d t. elim (Bool-cases (str_eq i.id id)) [
          | inl e ↦ unfold is_attempt in rw e refl
          | inr e ↦ rw e refl
        ],
      );
}

finish-IsCoherent :
    (c : Codec) (id state : String) (db : EvidenceDb)
    → IsCoherent c db
    → IsCoherent c
        (record db { intents = update (λ i. str_eq i.id id) (set_intent_state state) db.intents })
finish-IsCoherent c id state db h =
    let db' = record db {
      intents = update (λ i. str_eq i.id id) (set_intent_state state) db.intents;
    } in
    let x = finish-Extends id state db in
    record {
      attempts =
          Distinct-update same_attempt (λ i. str_eq i.id id) (set_intent_state state)
            (λ a b _ e. unfold same_attempt in e) (λ a b _ e. unfold same_attempt in e) db.intents
            h.attempts;
      links =
          All-map (IsLinked c db) (IsLinked c db')
            (λ e k l kind link. extended-IsChild c db db' e.scope e.id l x (k l kind link))
            db.events h.links;
      rooted =
          All-update (IsRooted db') (λ i. str_eq i.id id) (set_intent_state state)
            (λ i _ k. record { event = k.event; found = k.found; inst = k.inst }) db.intents
            (All-map (IsRooted db) (IsRooted db') (λ i. extended-IsRooted db db' i x) db.intents
              h.rooted);
    }

pub finish_intent-IsCoherent :
    (c : Codec) (now : ℕ) (id state uuid note : String) (db : EvidenceDb)
    → IsCoherent c db
    → IsCoherent c (finish_intent c now id state uuid note db)
unfolding finish_intent
finish_intent-IsCoherent c now id state uuid note db h =
    go (fetch_one (λ i. str_eq i.id id) db.intents)
  where
    go : (o : Option Intent) → IsCoherent c (finish_found c now id state uuid note db o)
    go none = unfold finish_found in h
    go (some row) =
        unfold finish_found in
        best_effort-IsCoherent c now row.scope "order_status"
          (record { body = note; fallback_parent = none }) uuid
          (record db { intents = update (λ i. str_eq i.id id) (set_intent_state state) db.intents })
          (λ l kind e. absurd (cc e)) (finish-IsCoherent c id state db h)

-- One more intent, for an attempt that has none.
pub begin-IsCoherent :
    (c : Codec) (row : Intent) (db : EvidenceDb)
    → any_of (λ i. same_intent i row || same_attempt i row) db.intents ≡ false
    → IsRooted db row
    → IsCoherent c db
    → IsCoherent c (record db { intents = insert row db.intents })
begin-IsCoherent c row db fresh new h =
    let db' = record db { intents = insert row db.intents } in
    let x : Extends db db' = record {
      events = λ p e k. k;
      intents = λ id i k. (
        i,
        unfold insert in fetch_one-append (λ r. str_eq r.id id) db.intents (row ∷ []) k,
        λ s d t. refl,
      );
    } in
    record {
      attempts = Distinct-insert same_attempt row db.intents h.attempts (
          All-map (λ i. (same_intent i row || same_attempt i row) ≡ false)
            (λ i. same_attempt i row ≡ false) (λ i k. ground arith) db.intents
            (All-any_of (λ i. same_intent i row || same_attempt i row) db.intents fresh));
      links =
          All-map (IsLinked c db) (IsLinked c db')
            (λ e k l kind link. extended-IsChild c db db' e.scope e.id l x (k l kind link))
            db.events h.links;
      rooted =
          All-insert (IsRooted db') row db.intents
            (All-map (IsRooted db) (IsRooted db') (λ i. extended-IsRooted db db' i x) db.intents
              h.rooted)
            (extended-IsRooted db db' row x new);
    }
