-- ===== src/Scripts/Entry/Tests.antt =====
-- Runs of scripts/maker_fallback.py at concrete inputs: a Maker order that is canceled unfilled.
use okxquant.Prelude.{
  ℕ, ◌≤◌, String, true, false, ◌≡◌, refl, none, some, List, [], ◌∷◌, All, str_eq,
}
use okxquant.Prelude.Table.{fetch_one, count_where}
use okxquant.Scripts.Entry.Evidence.{amount, Proof, Plan, Intent, EvidenceDb, Codec, finish_intent}
use okxquant.Scripts.Entry.Calls.{
  EntryCall, decide, prepare_entry, finish, fall_back, leaves_decisions, make, make_all, prepare,
}
use okxquant.Scripts.Entry.Fallback.{create_decision}
use okxquant.Scripts.Entry.Coherent.{IsCoherent}
use okxquant.Scripts.Entry.Once.{is_fallback_of, make_all-one_fallback, make_all-original}

abbrev codec : Codec
codec = record { scrub = λ s. s; digest = λ p. p.body; child = λ s d i. "child" }

abbrev no_evidence : EvidenceDb
no_evidence = record { events = []; intents = [] }

no_evidence-IsCoherent : IsCoherent codec no_evidence
no_evidence-IsCoherent = record { attempts = tt; links = tt; rooted = tt }

abbrev long_plan : Plan
long_plan = record {
  side = some "long";
  entry_execution_mode = none;
  intent_created_at = none;
  body = "";
}

abbrev canceled : Proof
canceled = record {
  inst_id = some "BTC";
  client_id = some "maker";
  order_id = some "7";
  state = some "canceled";
  acc_fill = amount 0;
  kind = none;
  exchange_code = none;
}

-- The Maker order, its cancellation, the fallback, and both of its steps once more.
abbrev calls : List (ℕ × EntryCall)
calls =
    (1, decide "main" "first" "features")
    ∷ (2, prepare_entry "maker" "main" "first" "BTC" "long" "maker_first" true long_plan)
    ∷ (3, finish "maker" "canceled" "e1" "receipt")
    ∷ (4, fall_back "main" "maker" "first" "BTC" "long" canceled)
    ∷ (5, prepare_entry "second" "main" "child" "BTC" "long" "bounded_fallback" true long_plan)
    ∷ (6, fall_back "main" "maker" "first" "BTC" "long" canceled)
    ∷ (7, prepare_entry "third" "main" "child" "BTC" "long" "bounded_fallback" true long_plan)
    ∷ []

calls_quiet : All (λ call. leaves_decisions call.1 ≡ true) calls
unfolding leaves_decisions
calls_quiet = (refl, (refl, (refl, (refl, (refl, (refl, (refl, tt)))))))

-- The fallback is there.
calls_fallback :
    count_where
      (is_fallback_of (make_all codec calls no_evidence) "maker")
      (make_all codec calls no_evidence).intents
    ≡ 1
unfolding make_all count_where make prepare create_decision finish_intent is_fallback_of
calls_fallback = refl

make_all-one_fallback_example :
    count_where
      (is_fallback_of (make_all codec calls no_evidence) "maker")
      (make_all codec calls no_evidence).intents
    ≤ 1
make_all-one_fallback_example =
    make_all-one_fallback codec calls "maker" no_evidence calls_quiet no_evidence-IsCoherent

make_all-original_example :
    All
      (λ i.
        is_fallback_of (make_all codec calls no_evidence) "maker" i ≡ true
        → (p : Intent) × (fetch_one
              (λ r. str_eq r.id "maker")
              (make_all codec calls no_evidence).intents
            ≡ some p)
          × (p.scope ≡ i.scope)
          × (p.inst_id ≡ i.inst_id)
          × ((other : String) → is_fallback_of (make_all codec calls no_evidence) other p ≡ false))
      (make_all codec calls no_evidence).intents
make_all-original_example =
    make_all-original codec calls "maker" no_evidence calls_quiet no_evidence-IsCoherent
