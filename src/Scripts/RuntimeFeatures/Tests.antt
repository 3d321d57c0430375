-- ===== src/Scripts/RuntimeFeatures/Tests.antt =====
-- Runs of scripts/runtime_features.py at concrete inputs.
use okxquant.Prelude.{true, false, some, [], ◌∷◌}
use okxquant.Scripts.RuntimeFeatures.{ReadOutcome, document, dict}

-- Settings that would turn a feature on, beside one that does not exist.
abbrev unknown_feature : ReadOutcome
unknown_feature =
    document (some "standard")
      (dict (("entry_research", some true) ∷ ("position_guard", some false) ∷ []))
