-- ===== src/Phase3/Records.antt =====
-- src/adf_poc/phase3/models.py: the assessments, the decision and what is signed after it.
use ai_decision_firewall.Prelude.{ℕ, String, Bool, List, Option}
use ai_decision_firewall.Phase3.{ActionParameters, ActionRequest}

pub record AuthorityAssessment : Type 0 where
  pub authenticated : Bool
  pub principal_id : String
  pub claimed_agent_id : String
  pub attributes_match : Bool
  pub trusted_roles : List String
  pub trusted_authority : List String
  pub required_authority : String
  pub authorized : Bool
  pub reason_codes : List String

pub record EvidenceItemAssessment (F : Type 0) : Type 0 where
  pub evidence_id : String
  pub subject_target_id : String
  pub source_type : String
  pub source_instance : String
  pub provenance_verified : Bool
  pub integrity_verified : Bool
  pub content_digest_matches : Bool
  pub freshness : String
  pub age_seconds : F
  pub reliability : F
  pub trust_weight : F
  pub relevance : F
  pub supports : List String
  pub contradicts : List String
  pub poisoned : Bool
  pub score : F
  pub reason_codes : List String

pub record EvidenceAssessment (F : Type 0) : Type 0 where
  pub overall_strength : F
  pub decision_grade : Bool
  pub automation_grade : Bool
  pub corroborating_sources : ℕ
  pub conflict_count : ℕ
  pub stale_evidence_ids : List String
  pub missing_expected_sources : List String
  pub invalid_evidence_ids : List String
  pub poisoned_evidence_ids : List String
  pub assessed_items : List (EvidenceItemAssessment F)
  pub reason_codes : List String

pub record ConsequenceAssessment (F : Type 0) : Type 0 where
  pub score : F
  pub level : String
  pub reversible : Bool
  pub blast_radius : String
  pub downtime_minutes : ℕ
  pub privilege_impact : String
  pub mission_impact : String
  pub safety_impact : String
  pub availability_impact : String
  pub dependency_count : ℕ
  pub cascading_effect_possible : Bool
  pub human_approval_required : Bool
  pub reason_codes : List String

-- What is digested as the scope of an approval requirement.
pub record ApprovalScope : Type 0 where
  pub approval_id : String
  pub issuer_instance_id : String
  pub request_id : String
  pub decision_id : String
  pub decision_context_sha256 : String
  pub policy_id : String
  pub policy_version : String
  pub policy_sha256 : String
  pub action_type : String
  pub target_id : String
  pub parameters_sha256 : String
  pub evidence_sha256 : String
  pub reason_codes : List String
  pub required_approving_authority : String
  pub created_at : String
  pub expires_at : String
  pub status : String

pub record ApprovalRequirement : Type 0 where
  pub scope : ApprovalScope
  pub scope_sha256 : String
  pub signature : String

-- What is signed as an approval receipt.
pub record UnsignedReceipt : Type 0 where
  pub receipt_id : String
  pub issuer_instance_id : String
  pub approval_id : String
  pub request_id : String
  pub decision_id : String
  pub approver_id : String
  pub approving_authority : String
  pub action_type : String
  pub target_id : String
  pub parameters_sha256 : String
  pub evidence_sha256 : String
  pub requirement_scope_sha256 : String
  pub approved_at : String
  pub status : String

pub record ApprovalReceipt : Type 0 where
  pub unsigned : UnsignedReceipt
  pub signature : String

-- A row of the constraints of a decision, with what was requested and what is permitted.
pub data Constraint : Type 0 where
  duration_seconds : (requested permitted : ℕ) → Constraint
  preserve_management : (requested permitted : Bool) → Constraint

-- The action that a decision permits.
pub record PermittedAction : Type 0 where
  pub type : String
  pub target : String
  pub parameters : ActionParameters

-- The explanation of a decision; `human_approval_requirement` is without its signature.
pub record Explanation (F : Type 0) : Type 0 where
  pub decision : String
  pub reason_codes : List String
  pub evidence_assessment : EvidenceAssessment F
  pub applicable_policies : List String
  pub agent_authority : AuthorityAssessment
  pub target_criticality : String
  pub risk_and_consequence : ConsequenceAssessment F
  pub conflicting_evidence : ℕ
  pub missing_evidence : List String
  pub constraints : List Constraint
  pub human_approval_requirement : Option (ApprovalScope × String)
  pub agent_recommendation_is_authoritative : Bool
  pub agent_confidence_is_authoritative : Bool

pub record DecisionRecord (F : Type 0) : Type 0 where
  pub decision_id : String
  pub request_id : String
  pub decided_at : String
  pub policy_id : String
  pub policy_version : String
  pub policy_sha256 : String
  pub outcome : String
  pub reason_codes : List String
  pub applicable_rules : List String
  pub requested_action : ActionRequest
  pub permitted_action : Option PermittedAction
  pub authority : AuthorityAssessment
  pub evidence : EvidenceAssessment F
  pub consequence : ConsequenceAssessment F
  pub constraints : List Constraint
  pub explanation : Explanation F
  pub request_sha256 : String
  pub decision_context_sha256 : String
  pub approval_requirement : Option ApprovalRequirement

-- The decision as `authorization_sha256` projects it: without latency, explanation and approval.
pub record AuthorizedProjection (F : Type 0) : Type 0 where
  pub decision_id : String
  pub request_id : String
  pub decided_at : String
  pub policy_id : String
  pub policy_version : String
  pub policy_sha256 : String
  pub outcome : String
  pub reason_codes : List String
  pub applicable_rules : List String
  pub requested_action : ActionRequest
  pub permitted_action : Option PermittedAction
  pub authority : AuthorityAssessment
  pub evidence : EvidenceAssessment F
  pub consequence : ConsequenceAssessment F
  pub constraints : List Constraint
  pub request_sha256 : String
  pub decision_context_sha256 : String

-- An authorization token without its signature.
pub record UnsignedToken : Type 0 where
  pub token_id : String
  pub issuer_instance_id : String
  pub request_id : String
  pub decision_id : String
  pub agent_id : String
  pub action_type : String
  pub target_id : String
  pub permitted_parameters : ActionParameters
  pub issued_at : String
  pub expires_at : String
  pub policy_id : String
  pub policy_version : String
  pub policy_sha256 : String
  pub decision_context_sha256 : String
  pub target_state_sha256 : String
  pub nonce : String

pub record AuthorizationToken : Type 0 where
  pub unsigned : UnsignedToken
  pub signature : String

-- A decision verification without its signature.
pub record UnsignedVerification : Type 0 where
  pub verification_id : String
  pub verifier_instance_id : String
  pub decision_id : String
  pub decision_context_sha256 : String
  pub decision_sha256 : String
  pub request_sha256 : String
  pub principal_id : String
  pub principal_resolution_sha256 : String
  pub policy_sha256 : String
  pub passed : Bool
  pub checks : List (String × Bool)
  pub blocking_reason_codes : List String
  pub verified_at : String

pub record DecisionVerification : Type 0 where
  pub unsigned : UnsignedVerification
  pub signature : String

-- The fields of a decision in `core_fields`.
pub record CoreFields : Type 0 where
  pub outcome : String
  pub reason_codes : List String
  pub applicable_rules : List String
  pub requested_action : ActionRequest
  pub permitted_action : Option PermittedAction
  pub constraints : List Constraint
  pub request_sha256 : String
  pub decision_context_sha256 : String

abbrev pub core_of : {F : Type 0} → DecisionRecord F → CoreFields
core_of d = record {
  outcome = d.outcome;
  reason_codes = d.reason_codes;
  applicable_rules = d.applicable_rules;
  requested_action = d.requested_action;
  permitted_action = d.permitted_action;
  constraints = d.constraints;
  request_sha256 = d.request_sha256;
  decision_context_sha256 = d.decision_context_sha256;
}
