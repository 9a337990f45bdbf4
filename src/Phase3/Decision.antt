-- ===== src/Phase3/Decision.antt =====
-- src/adf_poc/phase3/decision.py: the decision. A time is a number of microseconds.
use ai_decision_firewall.Prelude.{
  ℕ, ◌-◌, ◌%◌, String, string_eq, nat_eq, ◌==◌, Bool, true, false, not, ◌&&◌, ◌||◌, List, [], ◌∷◌,
  ◌++◌, Dict, lookup, Option, none, some, Result, ok, err, ltb, is_empty, contains, if◌then◌else◌,
}
use ai_decision_firewall.Phase3.{
  AuthenticatedPrincipal, ActionParameters, EvidenceItem, DecisionRequest, action_type_value,
  DecisionRule, ActionPolicy, TargetRecord, Phase3PolicyConfig,
}
use ai_decision_firewall.Phase3.Records.{
  AuthorityAssessment, EvidenceAssessment, ConsequenceAssessment, ApprovalRequirement, Constraint,
  duration_seconds, preserve_management, PermittedAction, DecisionRecord, AuthorizedProjection,
}
use ai_decision_firewall.Phase3.Consequence.{when}
use ai_decision_firewall.Phase3.Authority.{
  ordered_reasons, target_claims_match, assess_authority, identity_fatal,
}

-- `permitted_parameters`
abbrev pub permitted_parameters : ActionPolicy → ActionParameters → ActionParameters
permitted_parameters action requested = record {
  duration_seconds =
      if ltb action.maximum_duration_seconds requested.duration_seconds
      then action.maximum_duration_seconds
      else requested.duration_seconds;
  preserve_management = action.preserve_management_required || requested.preserve_management;
}

-- `constraints`
abbrev pub constraints_of : ActionPolicy → ActionParameters → List Constraint
constraints_of action requested =
    when (ltb action.maximum_duration_seconds requested.duration_seconds)
      (duration_seconds requested.duration_seconds action.maximum_duration_seconds)
    ++ when (action.preserve_management_required && not requested.preserve_management)
        (preserve_management false true)

abbrev pub constraint_reason : Constraint → String
constraint_reason (duration_seconds _ _) = "DURATION_CONSTRAINED"
constraint_reason (preserve_management _ _) = "MANAGEMENT_ACCESS_CONSTRAINED"

pub data DecisionFault : Type 0 where
  -- `conditions[rule.condition]` raises
  unknown_condition : String → DecisionFault
  -- `next` finds no rule
  no_rule : DecisionFault
  no_approval_issuer : DecisionFault
  -- `sha256_json` of the context raises for a float that is not finite
  context_not_finite : DecisionFault
  approval_refused : String → DecisionFault

-- One candidate of `next`: `holds` is `conditions.get(condition)`, and `rest` what the others give.
abbrev pub choose :
    {A : Type 0} → Option Bool → String → A → Result DecisionFault A → Result DecisionFault A
choose none condition candidate rest = err (unknown_condition condition)
choose (some true) condition candidate rest = ok candidate
choose (some false) condition candidate rest = rest

-- `next(rule for rule in rules if conditions[rule.condition])`
unfoldable pub select_rule :
    Dict String Bool → List DecisionRule → Result DecisionFault DecisionRule
select_rule conditions [] = err no_rule
select_rule conditions (rule ∷ rules) =
    choose (lookup rule.condition conditions) rule.condition rule (select_rule conditions rules)

-- `conditions`
abbrev pub conditions_of : (a b c d e f g h : Bool) → Dict String Bool
conditions_of a b c d e f g h =
    ("IDENTITY_FATAL", a)
    ∷ ("EVIDENCE_FATAL", b)
    ∷ ("TARGET_TYPE_PROHIBITED", c)
    ∷ ("TARGET_TIER_0", d)
    ∷ ("CONSEQUENCE_REQUIRES_APPROVAL", e)
    ∷ ("AUTHORITY_INSUFFICIENT", f)
    ∷ ("EVIDENCE_NOT_AUTOMATION_GRADE", g)
    ∷ ("PARAMETER_CONSTRAINTS_PRESENT", h)
    ∷ ("DEFAULT", true)
    ∷ []

-- What is digested as the context of a decision.
pub record DecisionContext (F : Type 0) : Type 0 where
  pub request_sha256 : String
  pub policy_id : String
  pub policy_version : String
  pub policy_sha256 : String
  pub principal : AuthenticatedPrincipal
  pub trusted_target : TargetRecord
  pub authority : AuthorityAssessment
  pub evidence : EvidenceAssessment F
  pub consequence : ConsequenceAssessment F
  pub outcome : String
  pub reason_codes : List String
  pub applicable_rules : List String
  pub constraints : List Constraint
  pub permitted_action : Option PermittedAction

-- `sha256_json` on the values that the code digests, and `isoformat` of a time. The digest of a context
-- is `none` where a float of its assessments is not finite; the other values are built from ones that
-- were validated as finite, or digested before.
pub record Digests (F J : Type 0) : Type 0 where
  pub request_sha256 : DecisionRequest F J → String
  pub policy_sha256 : Phase3PolicyConfig F → String
  pub context_sha256 : DecisionContext F → Option String
  pub evidence_sha256 : List (EvidenceItem F J) → String
  pub parameters_sha256 : ActionParameters → String
  pub projection_sha256 : AuthorizedProjection F → String
  pub isoformat : ℕ → String

-- `t.replace(microsecond=0)`
abbrev pub whole_seconds : ℕ → ℕ
whole_seconds t = t - t % 1000000

-- The outcomes that permit an action.
abbrev pub permits : String → Bool
permits outcome = contains ("ALLOW" ∷ "ALLOW_CONSTRAINED" ∷ []) outcome

abbrev pub required_authority_of : TargetRecord → ActionPolicy → String
required_authority_of target action =
    if target.criticality == "TIER_0"
    then action.tier_0_required_authority
    else action.required_authority

-- The arguments of `build_decision` behind the assessments.
pub record DecisionInput (F J : Type 0) : Type 0 where
  pub request : DecisionRequest F J
  pub principal : AuthenticatedPrincipal
  pub policy : Phase3PolicyConfig F
  pub evidence : EvidenceAssessment F
  pub consequence : ConsequenceAssessment F
  pub target : TargetRecord
  pub action_policy : ActionPolicy
  pub decided_at : ℕ
  pub decision_id : String

-- The arguments of `approval_requirement_factory`.
pub record IssueArgs (F : Type 0) : Type 0 where
  pub decision : DecisionRecord F
  pub action_type : String
  pub target_id : String
  pub parameters : ActionParameters
  pub evidence_sha256 : String
  pub required_approving_authority : String
  pub reason_codes : List String

module _ {F J : Type 0} (i : DecisionInput F J) where
  abbrev pub authority_of : AuthorityAssessment
  authority_of =
      assess_authority i.request i.principal (required_authority_of i.target i.action_policy)

  abbrev pub evidence_fatal : Bool
  evidence_fatal =
      not (is_empty i.evidence.invalid_evidence_ids && is_empty i.evidence.poisoned_evidence_ids)

  abbrev pub target_type_prohibited : Bool
  target_type_prohibited = not (contains i.action_policy.allowed_target_types i.target.type)

  abbrev pub input_constraints : List Constraint
  input_constraints = constraints_of i.action_policy i.request.action.parameters

  abbrev pub input_conditions : Dict String Bool
  input_conditions =
      conditions_of (identity_fatal authority_of) evidence_fatal target_type_prohibited
        (i.target.criticality == "TIER_0") i.consequence.human_approval_required
        (not authority_of.authorized) (not i.evidence.automation_grade)
        (not (is_empty input_constraints))

  -- `reasons`, once all are gathered
  unfoldable pub decision_reasons : List String
  unfolding target_claims_match
  decision_reasons =
      authority_of.reason_codes
      ++ i.evidence.reason_codes
      ++ i.consequence.reason_codes
      ++ when (not (target_claims_match i.request i.target)) "TARGET_CLAIM_MISMATCH"
      ++ map_reasons input_constraints
      ++ when target_type_prohibited "ACTION_TARGET_TYPE_PROHIBITED"
      ++ when (authority_of.authorized && not (identity_fatal authority_of)) "AUTHORIZED_AGENT"
      ++ when i.evidence.automation_grade "DECISION_GRADE_EVIDENCE"
      ++ when (contains ("LOW" ∷ "MEDIUM" ∷ []) i.consequence.level)
          "ACCEPTABLE_OPERATIONAL_CONSEQUENCE"
    where
      map_reasons : List Constraint → List String
      map_reasons [] = []
      map_reasons (c ∷ cs) = constraint_reason c ∷ map_reasons cs

  -- The command that an outcome which permits comes with.
  abbrev pub command_of : PermittedAction
  command_of = record {
    type = action_type_value i.request.action.type;
    target = i.target.id;
    parameters = permitted_parameters i.action_policy i.request.action.parameters;
  }

  -- `permitted_action`
  abbrev pub permitted_action_of : String → Option PermittedAction
  permitted_action_of outcome = if permits outcome then some command_of else none

module _ {F J : Type 0} (digests : Digests F J) where
  abbrev pub context_of : DecisionInput F J → DecisionRule → DecisionContext F
  context_of i rule = record {
    request_sha256 = digests.request_sha256 i.request;
    policy_id = i.policy.policy_id;
    policy_version = i.policy.version;
    policy_sha256 = digests.policy_sha256 i.policy;
    principal = i.principal;
    trusted_target = i.target;
    authority = authority_of i;
    evidence = i.evidence;
    consequence = i.consequence;
    outcome = rule.outcome;
    reason_codes = ordered_reasons (decision_reasons i);
    applicable_rules = rule.id ∷ [];
    constraints = input_constraints i;
    permitted_action = permitted_action_of i rule.outcome;
  }

  -- `preliminary`, for the selected rule and `context_sha256`. The floats that the record checks are
  -- those of the context.
  abbrev pub preliminary : DecisionInput F J → DecisionRule → String → DecisionRecord F
  preliminary i rule context_sha256 = record {
    decision_id = i.decision_id;
    request_id = i.request.request_id;
    decided_at = digests.isoformat (whole_seconds i.decided_at);
    policy_id = i.policy.policy_id;
    policy_version = i.policy.version;
    policy_sha256 = digests.policy_sha256 i.policy;
    outcome = rule.outcome;
    reason_codes = ordered_reasons (decision_reasons i);
    applicable_rules = rule.id ∷ [];
    requested_action = i.request.action;
    permitted_action = permitted_action_of i rule.outcome;
    authority = authority_of i;
    evidence = i.evidence;
    consequence = i.consequence;
    constraints = input_constraints i;
    explanation = record {
      decision = rule.outcome;
      reason_codes = ordered_reasons (decision_reasons i);
      evidence_assessment = i.evidence;
      applicable_policies = rule.id ∷ [];
      agent_authority = authority_of i;
      target_criticality = i.target.criticality;
      risk_and_consequence = i.consequence;
      conflicting_evidence = i.evidence.conflict_count;
      missing_evidence = i.evidence.missing_expected_sources;
      constraints = input_constraints i;
      human_approval_requirement = none;
      agent_recommendation_is_authoritative = false;
      agent_confidence_is_authoritative = false;
    };
    request_sha256 = digests.request_sha256 i.request;
    decision_context_sha256 = context_sha256;
    approval_requirement = none;
  }

  -- `replace(preliminary, ...)`, with the requirement that the factory issued
  abbrev pub with_approval : DecisionRecord F → ApprovalRequirement → DecisionRecord F
  with_approval decision requirement = record decision {
    approval_requirement = some requirement;
    explanation = record (decision.explanation) {
      human_approval_requirement = some (requirement.scope, requirement.scope_sha256);
    };
  }

  abbrev pub issue_args : DecisionInput F J → DecisionRecord F → IssueArgs F
  issue_args i decision = record {
    decision = decision;
    action_type = action_type_value i.request.action.type;
    target_id = i.target.id;
    parameters = i.request.action.parameters;
    evidence_sha256 = digests.evidence_sha256 i.request.evidence;
    required_approving_authority = required_authority_of i.target i.action_policy;
    reason_codes = decision.reason_codes;
  }

  -- The factory works on a state `S`, which it leaves beside its result.
  module _ {S : Type 0} where
    abbrev pub escalated :
        DecisionRecord F
        → Result String ApprovalRequirement × S
        → Result DecisionFault (DecisionRecord F) × S
    escalated decision (ok requirement, s) = (ok (with_approval decision requirement), s)
    escalated decision (err reason, s) = (err (approval_refused reason), s)

    abbrev pub escalate_with :
        Option (IssueArgs F → S → Result String ApprovalRequirement × S)
        → DecisionInput F J
        → DecisionRecord F
        → S
        → Result DecisionFault (DecisionRecord F) × S
    escalate_with none i decision s = (err no_approval_issuer, s)
    escalate_with (some issue) i decision s = escalated decision (issue (issue_args i decision) s)

    -- What follows the digest of the context.
    abbrev pub decide_digested :
        Option (IssueArgs F → S → Result String ApprovalRequirement × S)
        → DecisionInput F J
        → DecisionRule
        → Option String
        → S
        → Result DecisionFault (DecisionRecord F) × S
    decide_digested issuer i rule none s = (err context_not_finite, s)
    decide_digested issuer i rule (some context_sha256) s =
        if rule.outcome == "ESCALATE"
        then escalate_with issuer i (preliminary i rule context_sha256) s
        else (ok (preliminary i rule context_sha256), s)

    abbrev pub decide_by :
        Option (IssueArgs F → S → Result String ApprovalRequirement × S)
        → DecisionInput F J
        → Result DecisionFault DecisionRule
        → S
        → Result DecisionFault (DecisionRecord F) × S
    decide_by issuer i (err e) s = (err e, s)
    decide_by issuer i (ok rule) s =
        decide_digested issuer i rule (digests.context_sha256 (context_of i rule)) s

    -- `build_decision`
    unfoldable pub build_decision :
        Option (IssueArgs F → S → Result String ApprovalRequirement × S)
        → DecisionInput F J
        → S
        → Result DecisionFault (DecisionRecord F) × S
    unfolding assess_authority select_rule decision_reasons
    build_decision issuer i s =
        decide_by issuer i (select_rule (input_conditions i) i.policy.decision_rules) s
