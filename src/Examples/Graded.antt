-- ===== src/Examples/Graded.antt =====
-- An isolation that rests on evidence of two sources, from its evidence to its token.
use ai_decision_firewall.Prelude.{
  ℕ, ◌/◌, String, string_eq, nat_eq, ◌==◌, ◌≡◌, refl, true, false, [], ◌∷◌, some, Result, ok, err,
  lookup, insert, sorted_set,
}
use ai_decision_firewall.Prelude.Float.{pos, negsuc}
use ai_decision_firewall.Ledger.{new_ledger, require_identifier, require_timestamp}
use ai_decision_firewall.Ledger.Ops.{register, register_valid}
use ai_decision_firewall.Phase3.{
  verified, high_trust, EvidenceItem, DecisionRequest, TrustedSourcePolicy, Phase3PolicyConfig,
}
use ai_decision_firewall.Phase3.Records.{
  PermittedAction, EvidenceAssessment, ConsequenceAssessment, DecisionRecord, AuthorizationToken,
  DecisionVerification,
}
use ai_decision_firewall.Phase3.Authority.{assess_authority, ordered_reasons, authority_reasons}
use ai_decision_firewall.Phase3.Consequence.{
  assess_consequence, raw_score, level_of, assessment_of, requires_approval,
}
use ai_decision_firewall.Phase3.Decision.{DecisionInput, select_rule, build_decision, preliminary}
use ai_decision_firewall.Phase3.Rules.{closed_rules}
use ai_decision_firewall.Phase3.Gate.{
  project, token_of, GateConfig, GateState, IssueInput, verification_bound, issue,
}
use ai_decision_firewall.Phase3.Identity.{Resolver, verify_resolution}
use ai_decision_firewall.Phase3.Approval.{ApprovalState, ApprovalGate}
use ai_decision_firewall.Phase3.Attestation.{AttestationKeys, is_attested}
use ai_decision_firewall.Phase3.Evidence.{
  EvidenceServices, item_reasons, assess_item, assess_items, assessment_from, assess_evidence,
}
use ai_decision_firewall.Phase3.Support.{IsSupported, assess_evidence-IsSupported}
use ai_decision_firewall.Phase3.Verify.{VerifierConfig, VerifyInput, VerifyFault, checks_of, verify}
use ai_decision_firewall.Phase3.Verified.{IsRecomputed, verify-IsRecomputed, issue-verify}
use ai_decision_firewall.Examples.{decimals}
use ai_decision_firewall.Examples.Assessments.{decimal_math}
use ai_decision_firewall.Examples.Ledgers.{platform}
use ai_decision_firewall.Examples.Control.{
  operator, request, policy, workstation_record, isolation, digests, input, rule, times, no_metrics,
}

abbrev services : EvidenceServices ℕ Unit
services = record {
  observed_time = λ t. some 4000000;
  total_seconds = λ z. elim z [ pos n ↦ n / 1000 | negsuc n ↦ 0 ];
  content_sha256 = λ payload content. content;
  canonical_json = λ payload. "{}";
  search = λ pattern content. false;
  is_close = λ a b. a == b;
}

abbrev attestation : AttestationKeys ℕ String
attestation = record { keys = ("edr-1", "k1") ∷ ("siem-1", "k2") ∷ []; sign = λ key payload. key }

abbrev item : String → String → String → String → EvidenceItem ℕ Unit
item id type source key = record {
  id = id;
  subject_target_id = "WORKSTATION_042";
  source_type = type;
  source_instance = source;
  provenance = record { id = "provenance"; verified = true; signature = key };
  integrity = record { status = verified; content_sha256 = "beacon" };
  observed_at = "t";
  reliability = 900;
  trust_level = high_trust;
  supports = "COMPROMISED" ∷ [];
  contradicts = [];
  relevance = 1000;
  payload = tt;
  untrusted_text = "beacon";
}

abbrev graded_request : DecisionRequest ℕ Unit
graded_request = record request {
  evidence = item "e1" "EDR" "edr-1" "k1" ∷ item "e2" "SIEM" "siem-1" "k2" ∷ [];
}

abbrev source : String → String → TrustedSourcePolicy ℕ
source type instance_name = record {
  source_instance = instance_name;
  source_type = type;
  reliability = 900;
  trust_level = "HIGH";
}

abbrev graded_policy : Phase3PolicyConfig ℕ
graded_policy = record policy {
  evidence = record policy.evidence {
    trust_weights = ("HIGH", 1000) ∷ [];
    required_source_types_by_action = ("NETWORK_ISOLATE", "EDR" ∷ []) ∷ [];
    trusted_sources = ("edr-1", source "EDR" "edr-1") ∷ ("siem-1", source "SIEM" "siem-1") ∷ [];
  };
  consequence = record policy.consequence {
    factor_weights =
        ("criticality", 100)
        ∷ ("blast_radius", 100)
        ∷ ("downtime", 100)
        ∷ ("mission_impact", 100)
        ∷ ("safety_impact", 100)
        ∷ ("availability_impact", 100)
        ∷ ("dependency", 100)
        ∷ ("isolation_consequence", 100)
        ∷ [];
    criticality_weights = ("LOW", 100) ∷ [];
    blast_radius_weights = ("LOCAL", 100) ∷ [];
    impact_weights = ("NONE", 0) ∷ ("LOW", 100) ∷ [];
    approval_downtime_minutes = 120;
  };
}

abbrev or_else : {E A : Type 0} → Result E A → A → A
or_else (ok a) b = a
or_else (err e) b = b

abbrev assessment : EvidenceAssessment ℕ
assessment =
    or_else
      (assess_evidence decimal_math services attestation graded_request graded_policy.evidence
        5000000)
      input.evidence

assessed :
    assess_evidence decimal_math services attestation graded_request graded_policy.evidence 5000000
    ≡ ok assessment
unfolding assess_evidence assess_items assess_item item_reasons assessment_from is_attested lookup
    insert sorted_set decimals
assessed = refl

grade : assessment.automation_grade ≡ true
unfolding assess_evidence assess_items assess_item item_reasons assessment_from is_attested lookup
    insert sorted_set decimals
grade = refl

assess_evidence-IsSupported_example :
    IsSupported decimal_math services attestation graded_request graded_policy.evidence 5000000
assess_evidence-IsSupported_example =
    assess_evidence-IsSupported decimal_math services attestation graded_request
      graded_policy.evidence 5000000 assessment assessed grade

abbrev consequence : ConsequenceAssessment ℕ
consequence =
    or_else
      (assess_consequence decimal_math (λ s. s / 60) workstation_record isolation
        graded_policy.consequence graded_request.action.parameters)
      input.consequence

abbrev graded_input : DecisionInput ℕ Unit
graded_input = record input {
  request = graded_request;
  policy = graded_policy;
  evidence = assessment;
  consequence = consequence;
}

abbrev graded_decision : DecisionRecord ℕ
graded_decision =
    preliminary digests graded_input (rule "R8" "PARAMETER_CONSTRAINTS_PRESENT" "ALLOW_CONSTRAINED")
      "ALLOW_CONSTRAINED"

abbrev resolver : Resolver
resolver = record {
  records = ("credential-1", operator) ∷ [];
  sign = λ u. u.resolution_id;
  instance_id = "resolver-1";
}

abbrev config : VerifierConfig
config = record {
  sign = λ u. u.verification_id;
  resolution_sha256 = λ r. r.signature;
  instance_id = "verifier-1";
  resolver = resolver;
}

abbrev approvals : ApprovalGate
approvals = record {
  sign_scope = λ s. s.1;
  sign_receipt = λ r. r.receipt_id;
  scope_sha256 = λ s. s.approval_id;
  fromisoformat = times;
  ttl_seconds = 300;
  issuer_instance_id = "approvals-1";
  resolver = resolver;
}

abbrev no_approvals : ApprovalState
no_approvals = record {
  requirements = [];
  issued_decision_ids = [];
  used = [];
  pending_receipts = [];
}

abbrev verify_input : VerifyInput ℕ Unit
verify_input = record {
  request = graded_request;
  principal = operator;
  principal_resolution = record {
    unsigned = record {
      resolution_id = "resolution-1";
      resolver_instance_id = "resolver-1";
      credential_sha256 = "credential-1";
      principal = operator;
    };
    signature = "resolution-1";
  };
  policy = graded_policy;
  target = workstation_record;
  decision = graded_decision;
  evaluated_at = 5000000;
  verifier_now = 5000000;
  verified_at = 5000000;
  verification_id = "verification-1";
}

abbrev outcome : Result VerifyFault DecisionVerification
outcome =
    verify decimal_math (λ s. s / 60) services attestation digests approvals config verify_input
      no_approvals

abbrev verification : DecisionVerification
verification = record {
  unsigned = record {
    verification_id = "verification-1";
    verifier_instance_id = "verifier-1";
    decision_id = "decision-1";
    decision_context_sha256 = "ALLOW_CONSTRAINED";
    decision_sha256 = "decision-1";
    request_sha256 = "request-1";
    principal_id = "agent-1";
    principal_resolution_sha256 = "resolution-1";
    policy_sha256 = "phase3";
    passed = true;
    checks =
        ("P3-VERIFY-REQUEST-BINDING", true)
        ∷ ("P3-VERIFY-POLICY-BINDING", true)
        ∷ ("P3-VERIFY-PRINCIPAL-BINDING", true)
        ∷ ("P3-VERIFY-TARGET-BINDING", true)
        ∷ ("P3-VERIFY-EVIDENCE-RECOMPUTATION", true)
        ∷ ("P3-VERIFY-CONSEQUENCE-RECOMPUTATION", true)
        ∷ ("P3-VERIFY-DECISION-RECOMPUTATION", true)
        ∷ ("P3-VERIFY-APPROVAL-ORIGIN", true)
        ∷ [];
    blocking_reason_codes = [];
    verified_at = "opening";
  };
  signature = "verification-1";
}

verification-returned : outcome ≡ ok verification
unfolding verify checks_of verify_resolution assess_evidence assess_items assess_item item_reasons
    assessment_from is_attested lookup insert sorted_set decimals assess_consequence raw_score
    level_of assessment_of requires_approval build_decision select_rule assess_authority
    ordered_reasons authority_reasons
verification-returned = refl

abbrev gate : GateConfig
gate = record {
  sign = λ u. u.token_id;
  sign_verification = λ v. v.verification_id;
  verifier_instance_id = "verifier-1";
  issuer_instance_id = "issuer-1";
  ttl_seconds = 300;
  fromisoformat = times;
}

abbrev issue_input : IssueInput
issue_input = record {
  agent_id = "agent-1";
  target_state_sha256 = "state";
  clock = 5000000;
  token_id = "token-1";
  nonce = "nonce-1";
}

abbrev start : GateState ℕ
start = record { ledger = new_ledger; metrics = no_metrics }

abbrev command : PermittedAction
command = record {
  type = "NETWORK_ISOLATE";
  target = "WORKSTATION_042";
  parameters = record { duration_seconds = 3600; preserve_management = true };
}

abbrev token : AuthorizationToken
token = token_of digests gate graded_decision issue_input command 5000000

abbrev after : GateState ℕ
after = (issue digests platform gate graded_decision issue_input verification start).1

token-issued :
    issue digests platform gate graded_decision issue_input verification start ≡ (ok token, after)
unfolding issue verification_bound register register_valid require_identifier lookup
    assess_authority require_timestamp
token-issued = refl

rules-closed : closed_rules graded_policy.decision_rules ≡ true
unfolding closed_rules
rules-closed = refl

issue-verify_example :
    (project graded_decision ≡ project graded_decision)
    × IsSupported decimal_math services attestation graded_request graded_policy.evidence 5000000
issue-verify_example =
    issue-verify decimal_math (λ s. s / 60) services attestation digests approvals config
      verify_input no_approvals verification platform gate graded_decision issue_input start after
      token (λ same. refl) rules-closed verification-returned token-issued

verify-IsRecomputed_example :
    IsRecomputed decimal_math
      (λ s. s / 60)
      services
      attestation
      digests
      approvals
      config
      verify_input
      verification
verify-IsRecomputed_example =
    verify-IsRecomputed decimal_math (λ s. s / 60) services attestation digests approvals config
      verify_input no_approvals verification verification-returned refl
