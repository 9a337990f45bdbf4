-- ===== src/Phase3/Authority.antt =====
-- src/adf_poc/phase3/decision.py: the ordering of reasons and `assess_authority`.
use ai_decision_firewall.Prelude.{
  ℕ, String, string_eq, nat_eq, ◌==◌, Bool, true, false, not, ◌&&◌, List, [], ◌∷◌, ◌++◌, keep,
  is_blank, contains, subset, disjoint, sorted_set,
}
use ai_decision_firewall.Phase3.{
  AgentSecurityStatus, trusted, degraded, compromised, unknown, AuthenticatedPrincipal,
  DecisionRequest, target_type_value, criticality_value, classification_value, TargetRecord,
}
use ai_decision_firewall.Phase3.Records.{AuthorityAssessment}
use ai_decision_firewall.Phase3.Consequence.{when}

-- `_REASON_PRIORITY`
abbrev pub reason_priority : List String
reason_priority =
    "INVALID_REQUEST" ∷ "AGENT_NOT_AUTHENTICATED" ∷ "INVOCATION_CREDENTIAL_INVALID"
    ∷ "INVOCATION_CREDENTIAL_REJECTED" ∷ "AGENT_IDENTITY_MISMATCH" ∷ "AGENT_ATTRIBUTE_MISMATCH"
    ∷ "AGENT_SECURITY_STATUS_INVALID" ∷ "TARGET_UNKNOWN" ∷ "TARGET_CLAIM_MISMATCH"
    ∷ "ACTION_TARGET_TYPE_PROHIBITED" ∷ "PROTECTED_ASSET" ∷ "INSUFFICIENT_AUTHORITY"
    ∷ "EVIDENCE_SOURCE_UNTRUSTED" ∷ "EVIDENCE_SUBJECT_MISMATCH" ∷ "EVIDENCE_SOURCE_TYPE_MISMATCH"
    ∷ "EVIDENCE_TRUST_CLAIM_MISMATCH" ∷ "EVIDENCE_PROVENANCE_INVALID" ∷ "EVIDENCE_INTEGRITY_INVALID"
    ∷ "EVIDENCE_CONTENT_DIGEST_MISMATCH" ∷ "PROMPT_INJECTION_DETECTED" ∷ "FUTURE_EVIDENCE"
    ∷ "STALE_EVIDENCE" ∷ "CONFLICTING_EVIDENCE" ∷ "MISSING_EXPECTED_EVIDENCE"
    ∷ "INSUFFICIENT_CORROBORATION" ∷ "INSUFFICIENT_EVIDENCE_STRENGTH"
    ∷ "AUTHENTICATION_SERVICE_DEPENDENCY" ∷ "CASCADING_EFFECT_POSSIBLE"
    ∷ "HIGH_OPERATIONAL_CONSEQUENCE" ∷ "HIGH_ISOLATION_CONSEQUENCE" ∷ "HUMAN_APPROVAL_REQUIRED"
    ∷ "DURATION_CONSTRAINED" ∷ "MANAGEMENT_ACCESS_CONSTRAINED" ∷ "AUTHORIZED_AGENT"
    ∷ "DECISION_GRADE_EVIDENCE" ∷ "ACCEPTABLE_OPERATIONAL_CONSEQUENCE" ∷ "REVERSIBLE_ACTION" ∷ []

-- The order of `_ordered_reasons`, for any list of priorities.
abbrev pub order_by : List String → List String → List String
order_by priority values =
    keep (contains values) priority
    ++ sorted_set (keep (λ value. not (contains priority value)) values)

-- `_ordered_reasons`
unfoldable pub ordered_reasons : List String → List String
ordered_reasons values = order_by reason_priority values

-- `set(xs) == set(ys)`
abbrev pub same_set : List String → List String → Bool
same_set xs ys = subset xs ys && subset ys xs

abbrev status_rank : AgentSecurityStatus → ℕ
status_rank trusted = 0
status_rank degraded = 1
status_rank compromised = 2
status_rank unknown = 3

abbrev pub same_status : AgentSecurityStatus → AgentSecurityStatus → Bool
same_status a b = status_rank a == status_rank b

abbrev pub bool_equals : Bool → Bool → Bool
bool_equals true b = b
bool_equals false b = not b

module _ {F J : Type 0} where
  -- `_target_claims_match`
  unfoldable pub target_claims_match : DecisionRequest F J → TargetRecord → Bool
  target_claims_match request target =
      request.target.id == target.id
      && target_type_value request.target.type == target.type
      && criticality_value request.target.criticality == target.criticality
      && classification_value request.target.classification == target.classification
      && same_set request.target.dependencies target.dependencies

  -- `attributes_match`
  abbrev pub attributes_match : DecisionRequest F J → AuthenticatedPrincipal → Bool
  attributes_match request principal =
      principal.type == request.agent.type
      && bool_equals principal.authenticated request.agent.authenticated
      && same_set principal.roles request.agent.roles
      && same_set principal.authority request.agent.authority
      && same_status principal.security_status request.agent.security_status

  -- `reasons` of `assess_authority`
  unfoldable pub authority_reasons :
      DecisionRequest F J → AuthenticatedPrincipal → String → List String
  authority_reasons request principal required_authority =
      when (not (is_blank principal.authentication_reason_code))
        principal.authentication_reason_code
      ++ when (not principal.authenticated) "AGENT_NOT_AUTHENTICATED"
      ++ when (not (principal.id == request.agent.id)) "AGENT_IDENTITY_MISMATCH"
      ++ when (not (attributes_match request principal)) "AGENT_ATTRIBUTE_MISMATCH"
      ++ when (not (same_status principal.security_status trusted)) "AGENT_SECURITY_STATUS_INVALID"
      ++ when (not (contains principal.authority required_authority)) "INSUFFICIENT_AUTHORITY"

  -- `assess_authority`
  unfoldable pub assess_authority :
      DecisionRequest F J → AuthenticatedPrincipal → String → AuthorityAssessment
  unfolding ordered_reasons authority_reasons
  assess_authority request principal required_authority = record {
    authenticated = principal.authenticated;
    principal_id = principal.id;
    claimed_agent_id = request.agent.id;
    attributes_match = attributes_match request principal;
    trusted_roles = sorted_set principal.roles;
    trusted_authority = sorted_set principal.authority;
    required_authority = required_authority;
    authorized = contains principal.authority required_authority;
    reason_codes = ordered_reasons (authority_reasons request principal required_authority);
  }

-- The codes that make `identity_fatal`.
abbrev pub identity_codes : List String
identity_codes =
    "AGENT_NOT_AUTHENTICATED" ∷ "AGENT_IDENTITY_MISMATCH" ∷ "AGENT_ATTRIBUTE_MISMATCH"
    ∷ "AGENT_SECURITY_STATUS_INVALID" ∷ []

abbrev pub identity_fatal : AuthorityAssessment → Bool
identity_fatal authority = not (disjoint identity_codes authority.reason_codes)
