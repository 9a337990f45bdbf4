-- ===== src/Phase3/Rules.antt =====
-- The decision rules that src/adf_poc/phase3/config.py accepts, and what they select.
use ai_decision_firewall.Prelude.{
  String, string_eq, pair_eq, ◌==◌, ◌≡◌, refl, ap, ◌∙◌, Bool, true, false, not, ◌&&◌, ◌||◌, List,
  [], ◌∷◌, map, Dict, lookup, Option, none, some, Result, ok, err, contains, arith, if◌then◌else◌,
  pair_equals_iff,
}
use ai_decision_firewall.Phase3.{DecisionRule}
use ai_decision_firewall.Phase3.Decision.{
  DecisionFault, choose, no_rule, select_rule, conditions_of,
}

-- `required_rule_sequence`
abbrev pub required_rule_sequence : List (String × String)
required_rule_sequence =
    ("IDENTITY_FATAL", "DENY")
    ∷ ("EVIDENCE_FATAL", "DENY")
    ∷ ("TARGET_TYPE_PROHIBITED", "DENY")
    ∷ ("TARGET_TIER_0", "ESCALATE")
    ∷ ("CONSEQUENCE_REQUIRES_APPROVAL", "ESCALATE")
    ∷ ("AUTHORITY_INSUFFICIENT", "DENY")
    ∷ ("EVIDENCE_NOT_AUTOMATION_GRADE", "ESCALATE")
    ∷ ("PARAMETER_CONSTRAINTS_PRESENT", "ALLOW_CONSTRAINED")
    ∷ ("DEFAULT", "ALLOW")
    ∷ []

abbrev pub rule_row : DecisionRule → String × String
rule_row rule = (rule.condition, rule.outcome)

abbrev rule_id : DecisionRule → String
rule_id rule = rule.id

abbrev pub same_rows : List (String × String) → List (String × String) → Bool
same_rows [] [] = true
same_rows [] (_ ∷ _) = false
same_rows (_ ∷ _) [] = false
same_rows (a ∷ rows) (b ∷ others) = a == b && same_rows rows others

abbrev all_distinct : List String → Bool
all_distinct [] = true
all_distinct (x ∷ xs) = not (contains xs x) && all_distinct xs

-- The part of `_validate_policy_safety_invariants` on the decision rules.
unfoldable pub closed_rules : List DecisionRule → Bool
closed_rules rules =
    same_rows (map rule_row rules) required_rule_sequence && all_distinct (map rule_id rules)

same_rows-≡ : (rows others : List (String × String)) → same_rows rows others ≡ true → rows ≡ others
same_rows-≡ [] [] h = refl
same_rows-≡ [] (b ∷ others) h = cc
same_rows-≡ (a ∷ rows) [] h = cc
same_rows-≡ (a ∷ rows) (b ∷ others) h =
    let first = (pair_equals_iff a b).0 (ground (arith, h)) in
    let tails = same_rows-≡ rows others (ground (arith, h)) in
    ap (λ x. x ∷ rows) first ∙ ap (λ xs. b ∷ xs) tails

-- What a list of conditions and outcomes selects.
abbrev outcome_in : Dict String Bool → List (String × String) → Result DecisionFault String
outcome_in conditions [] = err no_rule
outcome_in conditions (row ∷ rows) =
    choose (lookup row.0 conditions) row.0 row.1 (outcome_in conditions rows)

abbrev pub outcome_of : Result DecisionFault DecisionRule → Result DecisionFault String
outcome_of (ok rule) = ok rule.outcome
outcome_of (err e) = err e

outcome_of-choose :
    (holds : Option Bool) (rule : DecisionRule) (rest : Result DecisionFault DecisionRule)
    → outcome_of (choose holds rule.condition rule rest)
      ≡ choose holds rule.condition rule.outcome (outcome_of rest)
outcome_of-choose none rule rest = refl
outcome_of-choose (some true) rule rest = refl
outcome_of-choose (some false) rule rest = refl

outcome_of-select_rule :
    (conditions : Dict String Bool) (rules : List DecisionRule)
    → outcome_of (select_rule conditions rules) ≡ outcome_in conditions (map rule_row rules)
unfolding select_rule
outcome_of-select_rule conditions [] = refl
outcome_of-select_rule conditions (rule ∷ rules) =
    outcome_of-choose (lookup rule.condition conditions) rule (select_rule conditions rules)
    ∙ ap (choose (lookup rule.condition conditions) rule.condition rule.outcome)
        (outcome_of-select_rule conditions rules)

-- The precedence of the conditions, as one expression.
abbrev pub precedence : (a b c d e f g h : Bool) → String
precedence a b c d e f g h =
    if a || b || c
    then "DENY"
    else if d || e
    then "ESCALATE"
    else if f
    then "DENY"
    else if g
    then "ESCALATE"
    else if h
    then "ALLOW_CONSTRAINED"
    else "ALLOW"

outcome_in-required :
    (a b c d e f g h : Bool)
    → outcome_in (conditions_of a b c d e f g h) required_rule_sequence
      ≡ ok (precedence a b c d e f g h)
unfolding lookup
outcome_in-required a b c d e f g h = ground arith

-- Under rules that the validation accepts, one rule is selected, and its outcome follows the precedence.
pub select_rule-precedence :
    (rules : List DecisionRule) (a b c d e f g h : Bool)
    → closed_rules rules ≡ true
    → outcome_of (select_rule (conditions_of a b c d e f g h) rules)
      ≡ ok (precedence a b c d e f g h)
unfolding closed_rules
select_rule-precedence rules a b c d e f g h closed =
    let same = same_rows-≡ (map rule_row rules) required_rule_sequence (ground (arith, closed)) in
    outcome_of-select_rule (conditions_of a b c d e f g h) rules
    ∙ ap (outcome_in (conditions_of a b c d e f g h)) same
    ∙ outcome_in-required a b c d e f g h
