-- ===== src/Examples/Control.antt =====
-- A request to isolate a workstation, from its decision to its token and its approval.
use ai_decision_firewall.Prelude.{
  ℕ, ◌+◌, ◌*◌, ◌≤◌, ◌<◌, arith, String, string_eq, nat_eq, ◌==◌, ◌≡◌, ◌≢◌, refl, true, false, List,
  [], ◌∷◌, Option, none, some, Result, ok, lookup, insert, sorted_set, if◌then◌else◌,
}
use ai_decision_firewall.Ledger.{new_ledger, require_identifier, require_timestamp}
use ai_decision_firewall.Ledger.Ops.{
  register, register_valid, consume_once, check_reservation, state,
}
use ai_decision_firewall.Ledger.Steps.{op_recover, run}
use ai_decision_firewall.Phase3.{
  trusted, network_isolate, workstation, low, internal, isolate, AuthenticatedPrincipal,
  DecisionRequest, DecisionRule, ActionPolicy, TargetRecord, Phase3PolicyConfig,
}
use ai_decision_firewall.Phase3.Records.{
  PermittedAction, ApprovalRequirement, EvidenceAssessment, ConsequenceAssessment, DecisionRecord,
  AuthorizationToken, DecisionVerification,
}
use ai_decision_firewall.Phase3.Authority.{assess_authority, ordered_reasons, authority_reasons}
use ai_decision_firewall.Phase3.Decision.{
  Digests, DecisionInput, IssueArgs, permits, select_rule, build_decision, preliminary,
}
use ai_decision_firewall.Phase3.Rules.{closed_rules}
use ai_decision_firewall.Phase3.Permission.{
  meets_conditions, has_action, IsBounded, build_decision-permits, build_decision-IsBounded,
}
use ai_decision_firewall.Phase3.Metrics.{Metrics}
use ai_decision_firewall.Phase3.Gate.{
  GateConfig, GateState, IssueInput, ParsedTime, aware, malformed, GateFault, token_of,
  accepts_config, verification_bound, issue, validate, check_bindings, validate_and_consume,
}
use ai_decision_firewall.Phase3.Tokens.{scope_of}
use ai_decision_firewall.Phase3.Issue.{command_in, issue-build_decision}
use ai_decision_firewall.Phase3.Use.{validate_and_consume-run}
use ai_decision_firewall.Phase3.Lifetime.{
  ReadsBack, no_attempt, opening_of, validate_and_consume-issue, validate_and_consume-IsBounded,
}
use ai_decision_firewall.Examples.Ledgers.{platform}

abbrev pub operator : AuthenticatedPrincipal
operator = record {
  id = "agent-1";
  type = "AI_AGENT";
  authenticated = true;
  roles = [];
  authority = "ISOLATE" ∷ [];
  security_status = trusted;
  identity_source = "registry";
  human_session = false;
  authentication_reason_code = "";
}

abbrev pub request : DecisionRequest ℕ Unit
request = record {
  schema_version = "0.3.0";
  request_id = "request-1";
  timestamp = "t";
  agent = record {
    id = "agent-1";
    type = "AI_AGENT";
    authenticated = true;
    roles = [];
    authority = "ISOLATE" ∷ [];
    security_status = trusted;
  };
  action = record {
    type = network_isolate;
    target = "WORKSTATION_042";
    parameters = record { duration_seconds = 7200; preserve_management = true };
  };
  target = record {
    id = "WORKSTATION_042";
    type = workstation;
    criticality = low;
    classification = internal;
    dependencies = [];
  };
  evidence = [];
  agent_recommendation = isolate;
  agent_confidence = 900;
  context = tt;
}

abbrev pub workstation_record : TargetRecord
workstation_record = record {
  id = "WORKSTATION_042";
  type = "WORKSTATION";
  criticality = "LOW";
  classification = "INTERNAL";
  dependencies = [];
  isolation_consequence = "LOW";
  estimated_downtime_minutes = 10;
  blast_radius = "LOCAL";
  mission_impact = "LOW";
  safety_impact = "NONE";
  availability_impact = "LOW";
  human_approval_required = false;
}

abbrev pub isolation : ActionPolicy
isolation = record {
  action_type = network_isolate;
  reversible = true;
  allowed_target_types = "WORKSTATION" ∷ [];
  required_authority = "ISOLATE";
  tier_0_required_authority = "ISOLATE_TIER_0";
  maximum_duration_seconds = 3600;
  preserve_management_required = true;
  human_approval_criticalities = "HIGH" ∷ "TIER_0" ∷ [];
}

abbrev pub rule : String → String → String → DecisionRule
rule id condition outcome = record { id = id; condition = condition; outcome = outcome }

abbrev rules : List DecisionRule
rules =
    rule "R1" "IDENTITY_FATAL" "DENY"
    ∷ rule "R2" "EVIDENCE_FATAL" "DENY"
    ∷ rule "R3" "TARGET_TYPE_PROHIBITED" "DENY"
    ∷ rule "R4" "TARGET_TIER_0" "ESCALATE"
    ∷ rule "R5" "CONSEQUENCE_REQUIRES_APPROVAL" "ESCALATE"
    ∷ rule "R6" "AUTHORITY_INSUFFICIENT" "DENY"
    ∷ rule "R7" "EVIDENCE_NOT_AUTOMATION_GRADE" "ESCALATE"
    ∷ rule "R8" "PARAMETER_CONSTRAINTS_PRESENT" "ALLOW_CONSTRAINED"
    ∷ rule "R9" "DEFAULT" "ALLOW"
    ∷ []

abbrev pub policy : Phase3PolicyConfig ℕ
policy = record {
  schema_version = "0.3.0";
  policy_id = "phase3";
  version = "1";
  evidence = record {
    hypothesis_claim = "COMPROMISED";
    maximum_age_seconds = 900;
    minimum_reliability = 500;
    minimum_relevance = 500;
    minimum_overall_strength_for_allow = 500;
    minimum_corroborating_sources = 2;
    maximum_conflicts_for_allow = 0;
    trust_weights = [];
    required_source_types_by_action = [];
    trusted_sources = [];
  };
  consequence = record {
    factor_weights = [];
    criticality_weights = [];
    blast_radius_weights = [];
    impact_weights = [];
    downtime_reference_minutes = 60;
    dependency_reference_count = 4;
    irreversible_penalty = 200;
    high_threshold = 500;
    critical_threshold = 750;
    approval_levels = "HIGH" ∷ "CRITICAL" ∷ [];
    approval_isolation_consequences = "HIGH" ∷ "CRITICAL" ∷ [];
    approval_mission_impacts = "CRITICAL" ∷ [];
    approval_safety_impacts = "HIGH" ∷ [];
    approval_availability_impacts = "CRITICAL" ∷ [];
    approval_blast_radii = "ENTERPRISE" ∷ [];
    approval_downtime_minutes = 60;
    cascading_requires_approval = true;
  };
  decision_rules = rules;
  action_catalog = ("NETWORK_ISOLATE", isolation) ∷ [];
  target_inventory = ("WORKSTATION_042", workstation_record) ∷ [];
  authorization_ttl_seconds = 300;
  authorization_single_use = true;
  approval_ttl_seconds = 900;
}

abbrev strong : EvidenceAssessment ℕ
strong = record {
  overall_strength = 900;
  decision_grade = true;
  automation_grade = true;
  corroborating_sources = 2;
  conflict_count = 0;
  stale_evidence_ids = [];
  missing_expected_sources = [];
  invalid_evidence_ids = [];
  poisoned_evidence_ids = [];
  assessed_items = [];
  reason_codes = [];
}

abbrev mild : ConsequenceAssessment ℕ
mild = record {
  score = 100;
  level = "LOW";
  reversible = true;
  blast_radius = "LOCAL";
  downtime_minutes = 59;
  privilege_impact = "MEDIUM";
  mission_impact = "LOW";
  safety_impact = "NONE";
  availability_impact = "LOW";
  dependency_count = 0;
  cascading_effect_possible = false;
  human_approval_required = false;
  reason_codes = "REVERSIBLE_ACTION" ∷ [];
}

abbrev pub digests : Digests ℕ Unit
digests = record {
  request_sha256 = λ r. r.request_id;
  policy_sha256 = λ p. p.policy_id;
  context_sha256 = λ c. some c.outcome;
  evidence_sha256 = λ e. "evidence";
  parameters_sha256 = λ p. "parameters";
  projection_sha256 = λ p. p.decision_id;
  isoformat = λ t. if t == 5000000 then "opening" else "closing";
}

abbrev pub input : DecisionInput ℕ Unit
input = record {
  request = request;
  principal = operator;
  policy = policy;
  evidence = strong;
  consequence = mild;
  target = workstation_record;
  action_policy = isolation;
  decided_at = 5000000;
  decision_id = "decision-1";
}

abbrev constrained : DecisionRecord ℕ
constrained =
    preliminary digests input (rule "R8" "PARAMETER_CONSTRAINTS_PRESENT" "ALLOW_CONSTRAINED")
      "ALLOW_CONSTRAINED"

abbrev no_issuer : Option (IssueArgs ℕ → ℕ → Result String ApprovalRequirement × ℕ)
no_issuer = none

rules-closed : closed_rules rules ≡ true
unfolding closed_rules
rules-closed = refl

decided : (build_decision digests no_issuer input 0).0 ≡ ok constrained
unfolding build_decision select_rule assess_authority ordered_reasons authority_reasons sorted_set
    lookup
decided = refl

build_decision-permits_example :
    (permits constrained.outcome ≡ meets_conditions input)
    × (has_action constrained.permitted_action ≡ meets_conditions input)
build_decision-permits_example =
    build_decision-permits digests no_issuer input 0 constrained rules-closed decided

build_decision-IsBounded_example : IsBounded input (record {
  type = "NETWORK_ISOLATE";
  target = "WORKSTATION_042";
  parameters = record { duration_seconds = 3600; preserve_management = true };
})
build_decision-IsBounded_example =
    build_decision-IsBounded digests no_issuer input 0 constrained _ decided refl

abbrev pub times : String → ParsedTime
times t =
    if t == "opening" then aware 5000000 else if t == "closing" then aware 305000000 else malformed

abbrev gate : GateConfig
gate = record {
  sign = λ u. u.token_id;
  sign_verification = λ v. v.verification_id;
  verifier_instance_id = "verifier-1";
  issuer_instance_id = "issuer-1";
  ttl_seconds = 300;
  fromisoformat = times;
}

abbrev verification : DecisionVerification
verification = record {
  unsigned = record {
    verification_id = "verification-1";
    verifier_instance_id = "verifier-1";
    decision_id = "decision-1";
    decision_context_sha256 = "ALLOW_CONSTRAINED";
    decision_sha256 = "decision-1";
    request_sha256 = "request-1";
    principal_id = "agent-1";
    principal_resolution_sha256 = "r";
    policy_sha256 = "phase3";
    passed = true;
    checks = [];
    blocking_reason_codes = [];
    verified_at = "opening";
  };
  signature = "verification-1";
}

abbrev issue_input : IssueInput
issue_input = record {
  agent_id = "agent-1";
  target_state_sha256 = "state";
  clock = 5000000;
  token_id = "token-1";
  nonce = "nonce-1";
}

abbrev pub no_metrics : Metrics ℕ
no_metrics = record {
  dispositions = [];
  policy_rule_matches = [];
  evidence_conflicts = 0;
  authorization_failures = 0;
  broker_rejections = 0;
  verification_failures = 0;
  decision_latencies_ms = [];
}

abbrev start : GateState ℕ
start = record { ledger = new_ledger; metrics = no_metrics }

abbrev issued : Result GateFault AuthorizationToken × GateState ℕ
issued = issue digests platform gate constrained issue_input verification start

abbrev permitted_command : PermittedAction
permitted_command = record {
  type = "NETWORK_ISOLATE";
  target = "WORKSTATION_042";
  parameters = record { duration_seconds = 3600; preserve_management = true };
}

abbrev token : AuthorizationToken
token = token_of digests gate constrained issue_input permitted_command 5000000

abbrev after : GateState ℕ
after = issued.1

token-issued :
    issue digests platform gate constrained issue_input verification start ≡ (ok token, after)
unfolding issue verification_bound register register_valid require_identifier lookup
    assess_authority require_timestamp
token-issued = refl

issue-build_decision_example : (meets_conditions input ≡ true) × IsBounded input (command_in token)
issue-build_decision_example =
    issue-build_decision digests platform gate no_issuer input 0 constrained issue_input
      verification start after token rules-closed decided token-issued

times-read : ReadsBack digests platform gate 5000000
times-read = record { reads_opening = refl; reads_closing = refl }

validate_and_consume-issue_example :
    (validate_and_consume platform gate token
      (scope_of token.unsigned)
      no_attempt
      304999999
      "now"
      after).0
    ≡ ok tt
validate_and_consume-issue_example =
    validate_and_consume-issue digests platform gate constrained issue_input verification start
      after token times-read token-issued 304999999 "now" (omega arith) (omega arith)

token-used :
    (validate_and_consume platform gate token
      (scope_of token.unsigned)
      no_attempt
      6000000
      "now"
      after).0
    ≡ ok tt
unfolding issue verification_bound register register_valid require_identifier lookup
    validate_and_consume validate check_bindings consume_once check_reservation state insert
    assess_authority require_timestamp
token-used = refl

config-accepted : accepts_config 32 32 gate ≡ true
unfolding accepts_config
config-accepted = refl

validate_and_consume-IsBounded_example :
    (scope_of token.unsigned ≡ scope_of token.unsigned)
    × (opening_of digests platform gate 5000000 ≤ 6000000)
    × (6000000 < opening_of digests platform gate 5000000 + 3600 * 1000000)
validate_and_consume-IsBounded_example =
    validate_and_consume-IsBounded digests platform gate constrained issue_input verification start
      after token times-read token-issued 32 32 (scope_of token.unsigned) no_attempt 6000000 "now"
      after config-accepted token-used

abbrev used : GateState ℕ
used =
    (validate_and_consume platform gate token (scope_of token.unsigned) no_attempt 6000000 "now"
      after).1

abbrev later : GateState ℕ
later = record used { ledger = run platform (op_recover true ∷ []) used.ledger }

validate_and_consume-run_example :
    (validate_and_consume platform gate token
      (scope_of token.unsigned)
      no_attempt
      6000001
      "then"
      later).0
    ≢ ok tt
validate_and_consume-run_example =
    validate_and_consume-run platform gate token token (scope_of token.unsigned)
      (scope_of token.unsigned) no_attempt no_attempt 6000000 6000001 "now" "then" after later
      (op_recover true ∷ []) token-used refl refl
