-- ===== src/Examples/Assessments.antt =====
-- The assessment of a case whose only event carries instructions.
use ai_decision_firewall.Prelude.{
  String, Dict, inl, ℕ, ◌+◌, ◌-◌, ◌*◌, ◌/◌, string_eq, ◌≡◌, refl, false, true, not, List, [], ◌∷◌,
  map, keep, is_empty, some, Result, ok, err, lookup, IsWithin,
}
use ai_decision_firewall.Prelude.Float.{FloatMath, pos}
use ai_decision_firewall.Contract.Context.{
  AllAgree, check_inventories, validate_canonical_case_feature_context,
  validate_canonical_case_feature_context-AllAgree,
}
use ai_decision_firewall.Contract.Authority.{Raises, select_modeled_attributes-Raises}
use ai_decision_firewall.Schemas.{Value, text, float, boolean, IdentityCase, EvidenceAssessment}
use ai_decision_firewall.Verifier.{known_ids}
use ai_decision_firewall.Contract.{
  modeled_boolean_sources, is_identifier, all_identifier_codes, select_loop,
  select_modeled_attributes, select_evidence_attributes,
}
use ai_decision_firewall.Evidence.{
  TextServices, EvidenceFault, no_evidence, is_instructional, scan_event, scan_events,
  assess_findings, assess_evidence,
}
use ai_decision_firewall.Evidence.Traces.{assess_evidence-IsWithin, assess_evidence-poisoned}
use ai_decision_firewall.Examples.{decimals, login_event, stolen_session}

abbrev sum_of : List ℕ → ℕ
sum_of [] = 0
sum_of (n ∷ ns) = n + sum_of ns

-- Arithmetic in thousandths.
abbrev pub decimal_math : FloatMath ℕ
decimal_math = record {
  add = λ a b. a + b;
  sub = λ a b. a - b;
  mul = λ a b. a * b / 1000;
  div = λ a b. a * 1000 / b;
  fsum = λ values. some (sum_of values);
  round6 = λ a. a;
  is_finite = λ a. true;
  integer_value = λ a. some (pos (a / 1000));
}

abbrev pub texts : TextServices ℕ
texts = record { search = λ pattern t. false; seconds_between = λ a b. some 60000 }

abbrev pub injected : IdentityCase ℕ
injected = record stolen_session {
  events = record login_event { contains_instructional_content = true } ∷ [];
}

abbrev pub value : Result EvidenceFault (EvidenceAssessment ℕ) → EvidenceAssessment ℕ
value (ok a) = a
value (err _) = no_evidence decimal_math texts

abbrev pub summary : EvidenceAssessment ℕ
summary = value (assess_evidence decimal_math texts injected)

pub summary-assessed : assess_evidence decimal_math texts injected ≡ ok summary
unfolding assess_evidence scan_events scan_event assess_findings select_modeled_attributes
    select_evidence_attributes select_loop is_identifier all_identifier_codes lookup
summary-assessed = refl

assess_evidence-IsWithin_example :
    IsWithin summary.positive_event_ids (known_ids injected)
    × IsWithin summary.benign_event_ids (known_ids injected)
    × IsWithin summary.poisoned_event_ids (known_ids injected)
assess_evidence-IsWithin_example =
    assess_evidence-IsWithin decimal_math texts injected summary summary-assessed

assess_evidence-poisoned_example :
    (summary.poisoned_event_ids
      ≡ map (λ event. event.event_id) (keep (is_instructional decimal_math texts) injected.events))
    × (summary.poisoned_evidence
        ≡ not (is_empty (keep (is_instructional decimal_math texts) injected.events)))
assess_evidence-poisoned_example =
    assess_evidence-poisoned decimal_math texts injected summary summary-assessed

-- A network event may not carry an attribute of an identity source.
abbrev misplaced : Dict String (Value ℕ)
misplaced = ("token_reuse", boolean true) ∷ []

misplaced-found : lookup "token_reuse" misplaced ≡ some (boolean true)
unfolding lookup
misplaced-found = refl

token_reuse-declared : lookup "token_reuse" modeled_boolean_sources ≡ some ("identity" ∷ [])
unfolding lookup
token_reuse-declared = refl

select_modeled_attributes-Raises_example :
    Raises (select_modeled_attributes decimal_math "network" misplaced)
select_modeled_attributes-Raises_example =
    select_modeled_attributes-Raises decimal_math "network" "token_reuse" misplaced (boolean true)
      misplaced-found ("identity" ∷ []) (inl token_reuse-declared) refl

abbrev inventory : Dict String (Value ℕ)
inventory =
    ("asset_id", text "host-1")
    ∷ ("privilege_level", text "standard")
    ∷ ("break_glass", boolean false)
    ∷ ("asset_criticality", float 400)
    ∷ []

inventory-accepted :
    validate_canonical_case_feature_context decimal_math "host-1" "standard" false 400
      (inventory ∷ [])
    ≡ ok 400
unfolding decimals validate_canonical_case_feature_context check_inventories is_identifier
    all_identifier_codes lookup
inventory-accepted = refl

validate_canonical_case_feature_context-AllAgree_example :
    AllAgree decimal_math "host-1" "standard" false (inventory ∷ [])
    × (is_empty (inventory ∷ []) ≡ false)
validate_canonical_case_feature_context-AllAgree_example =
    validate_canonical_case_feature_context-AllAgree decimal_math "host-1" "standard" false 400
      (inventory ∷ []) 400 inventory-accepted
