-- ===== src/Phase3/Verify.antt =====
-- src/adf_poc/phase3/verifier.py: `verify`, from the request that it has validated again to the signed
-- verification.
use ai_decision_firewall.Prelude.{
  ℕ, ◌+◌, ◌*◌, String, string_eq, nat_eq, ◌==◌, Bool, true, false, ◌&&◌, List, [], ◌∷◌, lookup,
  Option, none, some, Result, ok, err, leb, is_empty, ◌>>=◌, if◌then◌else◌,
}
use ai_decision_firewall.Prelude.Float.{FloatOps, FloatMath}
use ai_decision_firewall.Phase3.{
  AuthenticatedPrincipal, ActionPolicy, TargetRecord, DecisionRequest, Phase3PolicyConfig,
  action_type_value,
}
use ai_decision_firewall.Phase3.Records.{
  EvidenceAssessment, ConsequenceAssessment, ApprovalRequirement, DecisionRecord,
  UnsignedVerification, DecisionVerification,
}
use ai_decision_firewall.Phase3.Records.{core_of}
use ai_decision_firewall.Phase3.Equality.Requests.{authenticated_principal_eq, target_record_eq}
use ai_decision_firewall.Phase3.Equality.Assessments.{
  authority_assessment_eq, same_consequence_assessment,
}
use ai_decision_firewall.Phase3.Equality.Evidence.{same_evidence_assessment}
use ai_decision_firewall.Phase3.Equality.Decisions.{core_fields_eq}
use ai_decision_firewall.Phase3.Authority.{bool_equals}
use ai_decision_firewall.Phase3.Consequence.{ConsequenceFault, assess_consequence}
use ai_decision_firewall.Phase3.Decision.{
  DecisionFault, Digests, DecisionInput, IssueArgs, build_decision, whole_seconds,
}
use ai_decision_firewall.Phase3.Gate.{project}
use ai_decision_firewall.Phase3.Attestation.{AttestationKeys}
use ai_decision_firewall.Phase3.Evidence.{EvidenceServices, EvidenceFault, assess_evidence}
use ai_decision_firewall.Phase3.Identity.{
  Resolver, ResolvedPrincipal, IdentityFault, verify_resolution,
}
use ai_decision_firewall.Phase3.Approval.{
  ApprovalState, ApprovalGate, ApprovalFault, approval_error, time_error, same_texts,
  verify_requirement,
}

-- What `verify` raises.
pub data VerifyFault : Type 0 where
  unknown_target unknown_action request_time_error approval_time_error : VerifyFault
  evidence_fault : EvidenceFault → VerifyFault
  consequence_fault : ConsequenceFault → VerifyFault
  decision_fault : DecisionFault → VerifyFault

-- The configuration of the verifier; `sign` is HMAC under its key.
pub record VerifierConfig : Type 0 where
  pub sign : UnsignedVerification → String
  pub resolution_sha256 : ResolvedPrincipal → String
  pub instance_id : String
  pub resolver : Resolver

-- The arguments of `verify`; the request is the one that it validated again, and the last four fields
-- are what it reads of its clock, twice, and draws.
pub record VerifyInput (F J : Type 0) : Type 0 where
  pub request : DecisionRequest F J
  pub principal : AuthenticatedPrincipal
  pub principal_resolution : ResolvedPrincipal
  pub policy : Phase3PolicyConfig F
  pub target : TargetRecord
  pub decision : DecisionRecord F
  pub evaluated_at : ℕ
  pub verifier_now : ℕ
  pub verified_at : ℕ
  pub verification_id : String

abbrev pub or_raise : {E A : Type 0} → (E → VerifyFault) → Result E A → Result VerifyFault A
or_raise f (ok a) = ok a
or_raise f (err e) = err (f e)

abbrev pub found_or : {A : Type 0} → VerifyFault → Option A → Result VerifyFault A
found_or e none = err e
found_or e (some a) = ok a

abbrev pub has_requirement : Option ApprovalRequirement → Bool
has_requirement none = false
has_requirement (some _) = true

-- `lambda **_: decision.approval_requirement`; without one the use of its result raises.
abbrev pub given_requirement :
    {F : Type 0}
    → Option ApprovalRequirement
    → IssueArgs F
    → Unit {0}
    → Result String ApprovalRequirement × Unit {0}
given_requirement none args s = (err "AttributeError", s)
given_requirement (some requirement) args s = (ok requirement, s)

abbrev pub blocking : List (String × Bool) → List String
blocking [] = []
blocking ((name, passed) ∷ rows) = let rest = blocking rows in if passed then rest else name ∷ rest

module _ {F J K : Type 0} (m : FloatMath F) (ceil_minutes : ℕ → ℕ) (services : EvidenceServices F J)
    (attestation : AttestationKeys F K) (digests : Digests F J) (approvals : ApprovalGate)
    (config : VerifierConfig) ⦃o : FloatOps F⦄ where
  -- The principal that the verification goes on with, and `resolution_valid`.
  abbrev pub resolved :
      AuthenticatedPrincipal
      → Result IdentityFault AuthenticatedPrincipal
      → AuthenticatedPrincipal × Bool
  resolved principal (ok p) = (p, p == principal)
  resolved principal (err _) = (principal, false)

  -- `chronology_valid`
  abbrev pub chronology_valid : VerifyInput F J → ℕ → Bool
  chronology_valid v request_time =
      let at = whole_seconds v.evaluated_at in
      leb request_time at
      && leb v.verifier_now (at + 5 * 1000000)
      && leb at (v.verifier_now + 5 * 1000000)
      && v.decision.decided_at == digests.isoformat at

  -- The bindings of the approval requirement of the decision.
  abbrev pub approval_binds :
      VerifyInput F J → TargetRecord → DecisionRecord F → ApprovalRequirement → Bool
  approval_binds v target expected approval =
      let scope = approval.scope in
      let d = v.decision in
      d.outcome == "ESCALATE"
      && scope.request_id == v.request.request_id
      && scope.decision_id == d.decision_id
      && scope.decision_context_sha256 == d.decision_context_sha256
      && scope.policy_sha256 == d.policy_sha256
      && scope.policy_id == d.policy_id
      && scope.policy_version == d.policy_version
      && scope.action_type == action_type_value v.request.action.type
      && scope.target_id == target.id
      && scope.parameters_sha256 == digests.parameters_sha256 v.request.action.parameters
      && scope.evidence_sha256 == digests.evidence_sha256 v.request.evidence
      && scope.required_approving_authority == expected.authority.required_authority
      && same_texts scope.reason_codes expected.reason_codes

  abbrev pub requirement_valid : Result ApprovalFault Unit → Bool → Result VerifyFault Bool
  requirement_valid (ok _) binds = ok binds
  requirement_valid (err (approval_error _)) binds = ok false
  requirement_valid (err time_error) binds = err approval_time_error

  -- `approval_valid`
  abbrev pub approval_valid :
      VerifyInput F J
      → ApprovalState
      → TargetRecord
      → DecisionRecord F
      → Option ApprovalRequirement
      → Result VerifyFault Bool
  approval_valid v s target expected none = ok true
  approval_valid v s target expected (some approval) =
      requirement_valid (verify_requirement approvals approval none s)
        (approval_binds v target expected approval)

  abbrev pub request_bound : VerifyInput F J → ℕ → Bool
  request_bound v request_time =
      chronology_valid v request_time
      && v.decision.request_id == v.request.request_id
      && v.decision.request_sha256 == digests.request_sha256 v.request

  abbrev pub policy_bound : VerifyInput F J → Bool
  policy_bound v =
      v.decision.policy_id == v.policy.policy_id
      && v.decision.policy_version == v.policy.version
      && v.decision.policy_sha256 == digests.policy_sha256 v.policy

  abbrev pub target_bound : VerifyInput F J → TargetRecord → Bool
  target_bound v target =
      v.target == target
      && v.decision.requested_action.target == v.request.action.target
      && v.request.action.target == target.id

  abbrev pub approval_origin : VerifyInput F J → Bool → Bool
  approval_origin v approval_ok =
      approval_ok
      && bool_equals (v.decision.outcome == "ESCALATE")
          (has_requirement v.decision.approval_requirement)

  -- `checks`, with their names.
  unfoldable pub checks_of :
      VerifyInput F J
      → ℕ
      → Bool
      → TargetRecord
      → DecisionRecord F
      → EvidenceAssessment F
      → ConsequenceAssessment F
      → Bool
      → List (String × Bool)
  checks_of v request_time resolution_valid target expected evidence consequence approval_ok =
      let d = v.decision in
      ("P3-VERIFY-REQUEST-BINDING", request_bound v request_time)
      ∷ ("P3-VERIFY-POLICY-BINDING", policy_bound v)
      ∷ ("P3-VERIFY-PRINCIPAL-BINDING", resolution_valid && d.authority == expected.authority)
      ∷ ("P3-VERIFY-TARGET-BINDING", target_bound v target)
      ∷ ("P3-VERIFY-EVIDENCE-RECOMPUTATION", same_evidence_assessment d.evidence evidence)
      ∷ (
        "P3-VERIFY-CONSEQUENCE-RECOMPUTATION",
        same_consequence_assessment d.consequence consequence,
      )
      ∷ ("P3-VERIFY-DECISION-RECOMPUTATION", core_of d == core_of expected)
      ∷ ("P3-VERIFY-APPROVAL-ORIGIN", approval_origin v approval_ok)
      ∷ []

  -- `unsigned`, with its signature
  abbrev pub verification_of :
      VerifyInput F J → AuthenticatedPrincipal → List (String × Bool) → DecisionVerification
  verification_of v principal checks =
      let unsigned : UnsignedVerification = record {
        verification_id = v.verification_id;
        verifier_instance_id = config.instance_id;
        decision_id = v.decision.decision_id;
        decision_context_sha256 = v.decision.decision_context_sha256;
        decision_sha256 = digests.projection_sha256 (project v.decision);
        request_sha256 = digests.request_sha256 v.request;
        principal_id = principal.id;
        principal_resolution_sha256 = config.resolution_sha256 v.principal_resolution;
        policy_sha256 = digests.policy_sha256 v.policy;
        passed = is_empty (blocking checks);
        checks = checks;
        blocking_reason_codes = blocking checks;
        verified_at = digests.isoformat (whole_seconds v.verified_at);
      } in
      record { unsigned = unsigned; signature = config.sign unsigned }

  -- The arguments with which the verifier builds the decision again.
  abbrev pub expected_input :
      VerifyInput F J
      → TargetRecord
      → ActionPolicy
      → EvidenceAssessment F
      → ConsequenceAssessment F
      → DecisionInput F J
  expected_input v target action evidence consequence = record {
    request = v.request;
    principal = (resolved v.principal (verify_resolution config.resolver v.principal_resolution)).0;
    policy = v.policy;
    evidence = evidence;
    consequence = consequence;
    target = target;
    action_policy = action;
    decided_at = whole_seconds v.evaluated_at;
    decision_id = v.decision.decision_id;
  }

  -- `verify`
  unfoldable pub verify : VerifyInput F J → ApprovalState → Result VerifyFault DecisionVerification
  unfolding checks_of verify_resolution
  verify v s = do
    let at = whole_seconds v.evaluated_at
    let (principal, resolution_valid) =
        resolved v.principal (verify_resolution config.resolver v.principal_resolution)
    target ← found_or unknown_target (lookup v.request.action.target v.policy.target_inventory)
    action ←
        found_or unknown_action
          (lookup (action_type_value v.request.action.type) v.policy.action_catalog)
    request_time ← found_or request_time_error (services.observed_time v.request.timestamp)
    evidence ←
        or_raise evidence_fault
          (assess_evidence m services attestation v.request v.policy.evidence at)
    consequence ← or_raise consequence_fault (
        assess_consequence m ceil_minutes target action v.policy.consequence
          v.request.action.parameters)
    expected ←
        or_raise decision_fault
          (build_decision digests (some (given_requirement v.decision.approval_requirement))
            (expected_input v target action evidence consequence) tt).0
    approval_ok ← approval_valid v s target expected v.decision.approval_requirement
    ok (
        verification_of v principal (
          checks_of v request_time resolution_valid target expected evidence consequence
            approval_ok))
