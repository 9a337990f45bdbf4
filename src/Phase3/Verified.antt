-- ===== src/Phase3/Verified.antt =====
-- What a decision that src/adf_poc/phase3/verifier.py verifies stands on.
use ai_decision_firewall.Prelude.{
  ℕ, String, string_eq, nat_eq, ◌==◌, ◌≡◌, refl, sym, ap, ◌∙◌, Bool, true, false, ◌&&◌, List, [],
  ◌∷◌, lookup, Option, none, some, Result, ok, err, is_empty, all_of, arith, eq_iff, ◌>>=◌,
  if◌then◌else◌,
}
use ai_decision_firewall.Prelude.Float.{FloatOps, FloatMath}
use ai_decision_firewall.Evidence.Traces.{ok_injective}
use ai_decision_firewall.Ledger.{Platform}
use ai_decision_firewall.Phase3.{
  AuthenticatedPrincipal, ActionPolicy, TargetRecord, action_type_value,
}
use ai_decision_firewall.Phase3.Records.{
  EvidenceAssessment, ConsequenceAssessment, DecisionRecord, AuthorizationToken,
  DecisionVerification, AuthorizedProjection,
}
use ai_decision_firewall.Phase3.Records.{CoreFields, core_of}
use ai_decision_firewall.Phase3.Equality.Assessments.{
  authority_assessment_eq, same_consequence_assessment,
}
use ai_decision_firewall.Phase3.Equality.Evidence.{same_evidence_assessment}
use ai_decision_firewall.Phase3.Equality.Decisions.{core_fields_eq}
use ai_decision_firewall.Phase3.Consequence.{assess_consequence}
use ai_decision_firewall.Phase3.Decision.{Digests, permits, build_decision, whole_seconds}
use ai_decision_firewall.Phase3.Rules.{closed_rules}
use ai_decision_firewall.Phase3.Permission.{meets_conditions, build_decision-permits}
use ai_decision_firewall.Phase3.Gate.{
  GateConfig, GateState, IssueInput, project, verification_bound, issue,
}
use ai_decision_firewall.Phase3.Issue.{err-ok, issue-IsIssued}
use ai_decision_firewall.Phase3.Attestation.{AttestationKeys}
use ai_decision_firewall.Phase3.Evidence.{EvidenceServices, assess_evidence}
use ai_decision_firewall.Phase3.Support.{IsSupported, assess_evidence-IsSupported}
use ai_decision_firewall.Phase3.Identity.{verify_resolution}
use ai_decision_firewall.Phase3.Approval.{ApprovalState, ApprovalGate}
use ai_decision_firewall.Phase3.Verify.{
  VerifyFault, unknown_target, unknown_action, request_time_error, evidence_fault,
  consequence_fault, decision_fault, VerifierConfig, VerifyInput, or_raise, found_or,
  given_requirement, blocking, resolved, approval_valid, request_bound, policy_bound, target_bound,
  approval_origin, checks_of, verification_of, expected_input, verify,
}

unbind :
    {A B : Type 0} (r : Result VerifyFault A) (k : A → Result VerifyFault B) (b : B)
    → (r >>= k) ≡ ok b
    → (a : A) × (r ≡ ok a) × (k a ≡ ok b)
unbind (ok a) k b h = (a, refl, h)
unbind (err e) k b h = absurd (err-ok h)

or_raise-ok :
    {E A : Type 0} (f : E → VerifyFault) (r : Result E A) (a : A) → or_raise f r ≡ ok a → r ≡ ok a
or_raise-ok f (ok b) a h = ap ok (ok_injective h)
or_raise-ok f (err e) a h = absurd (err-ok h)

found_or-ok :
    {A : Type 0} (e : VerifyFault) (r : Option A) (a : A) → found_or e r ≡ ok a → r ≡ some a
found_or-ok e (some b) a h = ap some (ok_injective h)
found_or-ok e none a h = absurd (err-ok h)

one-passed :
    (b : Bool) (name : String) (rest : List String)
    → is_empty (if b then rest else name ∷ rest) ≡ true
    → (b ≡ true) × (is_empty rest ≡ true)
one-passed true name rest h = (refl, h)
one-passed false name rest h = absurd (let no_names : false ≡ true = h in cc)

blocking-all :
    (rows : List (String × Bool)) → is_empty (blocking rows) ≡ true → all_of (λ r. r.1) rows ≡ true
blocking-all [] h = refl
blocking-all ((name, b) ∷ rows) h =
    let (e, rest) = one-passed b name (blocking rows) h in rw e (blocking-all rows rest)

bound-parts :
    {F J : Type 0} (digests : Digests F J) (gate : GateConfig) (d : DecisionRecord F)
    (agent : String) (w : DecisionVerification) (now : ℕ)
    → verification_bound digests gate d agent w now ≡ true
    → (w.unsigned.passed ≡ true)
      × (w.unsigned.decision_sha256 ≡ digests.projection_sha256 (project d))
unfolding verification_bound
bound-parts digests gate d agent w now h = (
  ground (arith, h),
  (eq_iff w.unsigned.decision_sha256 (digests.projection_sha256 (project d))).0 (ground (arith, h)),
)

last-condition : (a b : Bool) → (a && b) ≡ true → b ≡ true
last-condition a b h = ground (arith, h)

module _ {F J K : Type 0} (m : FloatMath F) (ceil_minutes : ℕ → ℕ) (services : EvidenceServices F J)
    (attestation : AttestationKeys F K) (digests : Digests F J) (approvals : ApprovalGate)
    (config : VerifierConfig) ⦃o : FloatOps F⦄ where
  -- What the verifier has computed again, and found in the decision.
  pub record IsRecomputed (v : VerifyInput F J) (w : DecisionVerification) : Type 0 where
    pub decision_digest :
        w.unsigned.decision_sha256 ≡ digests.projection_sha256 (project v.decision)
    pub target : TargetRecord
    pub in_inventory : lookup v.request.action.target v.policy.target_inventory ≡ some target
    pub action : ActionPolicy
    pub in_catalog :
        lookup (action_type_value v.request.action.type) v.policy.action_catalog ≡ some action
    pub evidence : EvidenceAssessment F
    pub assessed :
        assess_evidence m services attestation v.request v.policy.evidence
          (whole_seconds v.evaluated_at)
        ≡ ok evidence
    pub same_assessment : same_evidence_assessment v.decision.evidence evidence ≡ true
    pub consequence : ConsequenceAssessment F
    pub weighed :
        assess_consequence m ceil_minutes target action v.policy.consequence
          v.request.action.parameters
        ≡ ok consequence
    pub same_weight : same_consequence_assessment v.decision.consequence consequence ≡ true
    pub expected : DecisionRecord F
    pub built :
        (build_decision digests
          (some (given_requirement v.decision.approval_requirement))
          (expected_input m ceil_minutes services attestation digests approvals config v target
            action evidence consequence)
          tt).0
        ≡ ok expected
    pub same_authorities : v.decision.authority ≡ expected.authority
    pub same_cores : core_of v.decision ≡ core_of expected

  eight :
      (a b c d e f g h : Bool) (x : Bool)
      → (a && (b && ((c && x) && (d && (e && (f && (g && (h && true)))))))) ≡ true
      → (x ≡ true) × (e ≡ true) × (f ≡ true) × (g ≡ true)
  eight a b c d e f g h x all =
      (ground (arith, all), ground (arith, all), ground (arith, all), ground (arith, all))

  module _ (v : VerifyInput F J) (s : ApprovalState) (w : DecisionVerification) where
    finish :
        (principal : AuthenticatedPrincipal × Bool) (target : TargetRecord) (action : ActionPolicy)
        (request_time : ℕ) (evidence : EvidenceAssessment F) (consequence : ConsequenceAssessment F)
        (expected : DecisionRecord F) (approval_ok : Bool)
        → lookup v.request.action.target v.policy.target_inventory ≡ some target
        → lookup (action_type_value v.request.action.type) v.policy.action_catalog ≡ some action
        → assess_evidence m services attestation v.request v.policy.evidence
            (whole_seconds v.evaluated_at)
          ≡ ok evidence
        → assess_consequence m ceil_minutes target action v.policy.consequence
            v.request.action.parameters
          ≡ ok consequence
        → (build_decision digests
            (some (given_requirement v.decision.approval_requirement))
            (expected_input m ceil_minutes services attestation digests approvals config v target
              action evidence consequence)
            tt).0
          ≡ ok expected
        → verification_of m ceil_minutes services attestation digests approvals config v principal.0
            (checks_of m ceil_minutes services attestation digests approvals config v request_time
              principal.1 target expected evidence consequence approval_ok)
          ≡ w
        → w.unsigned.passed ≡ true
        → IsRecomputed v w
    unfolding checks_of
    finish principal target action request_time evidence consequence expected approval_ok h0 h1 h2
          h3 h4 made passed =
        let all =
          blocking-all
            (checks_of m ceil_minutes services attestation digests approvals config v request_time
              principal.1 target expected evidence consequence approval_ok)
            (ap (λ u. u.unsigned.passed) made ∙ passed) in
        let (authority, evidences, consequences, cores) =
          eight
            (request_bound m ceil_minutes services attestation digests approvals config v
              request_time)
            (policy_bound m ceil_minutes services attestation digests approvals config v)
            principal.1
            (target_bound m ceil_minutes services attestation digests approvals config v target)
            (same_evidence_assessment v.decision.evidence evidence)
            (same_consequence_assessment v.decision.consequence consequence)
            (core_of v.decision == core_of expected)
            (approval_origin m ceil_minutes services attestation digests approvals config v
              approval_ok)
            (v.decision.authority == expected.authority) all in
        record {
          decision_digest = ap (λ u. u.unsigned.decision_sha256) (sym made);
          target = target;
          in_inventory = h0;
          action = action;
          in_catalog = h1;
          evidence = evidence;
          assessed = h2;
          same_assessment = evidences;
          consequence = consequence;
          weighed = h3;
          same_weight = consequences;
          expected = expected;
          built = h4;
          same_authorities =
              (authority_assessment_eq.equals_iff v.decision.authority expected.authority).0
                authority;
          same_cores = (core_fields_eq.equals_iff (core_of v.decision) (core_of expected)).0 cores;
        }

    -- A verification that is returned as passed has found in the decision the authority and the core
    -- fields that it computed again, and an evidence and a consequence that are `==` to those it
    -- computed again.
    pub verify-IsRecomputed :
        verify m ceil_minutes services attestation digests approvals config v s ≡ ok w
        → w.unsigned.passed ≡ true
        → IsRecomputed v w
    unfolding verify
    verify-IsRecomputed h passed =
        let (target, h0, h1) =
          unbind
            (found_or unknown_target (lookup v.request.action.target v.policy.target_inventory)) _ w
            h in
        let (action, h2, h3) =
          unbind
            (found_or unknown_action
              (lookup (action_type_value v.request.action.type) v.policy.action_catalog))
            _ w h1 in
        let (request_time, _, h4) =
          unbind (found_or request_time_error (services.observed_time v.request.timestamp)) _ w
            h3 in
        let (evidence, h5, h6) =
          unbind
            (or_raise evidence_fault (
              assess_evidence m services attestation v.request v.policy.evidence
                (whole_seconds v.evaluated_at)))
            _ w h4 in
        let (consequence, h7, h8) =
          unbind
            (or_raise consequence_fault (
              assess_consequence m ceil_minutes target action v.policy.consequence
                v.request.action.parameters))
            _ w h6 in
        let (expected, h9, h10) =
          unbind
            (or_raise decision_fault
              (build_decision digests (some (given_requirement v.decision.approval_requirement))
                (expected_input m ceil_minutes services attestation digests approvals config v
                  target action evidence consequence)
                tt).0)
            _ w h8 in
        let (approval_ok, _, h11) =
          unbind
            (approval_valid m ceil_minutes services attestation digests approvals config v s target
              expected v.decision.approval_requirement)
            _ w h10 in
        finish
          (resolved m ceil_minutes services attestation digests approvals config v.principal
            (verify_resolution config.resolver v.principal_resolution))
          target action request_time evidence consequence expected approval_ok
          (found_or-ok unknown_target _ target h0) (found_or-ok unknown_action _ action h2)
          (or_raise-ok evidence_fault _ evidence h5)
          (or_raise-ok consequence_fault _ consequence h7)
          (or_raise-ok decision_fault _ expected h9) (ok_injective h11) passed

    -- A decision that permits an action, and that the verifier passes under validated rules, rests on
    -- evidence of automation grade that the verifier has assessed itself.
    pub verify-IsSupported :
        verify m ceil_minutes services attestation digests approvals config v s ≡ ok w
        → w.unsigned.passed ≡ true
        → closed_rules v.policy.decision_rules ≡ true
        → permits v.decision.outcome ≡ true
        → IsSupported m services attestation v.request v.policy.evidence
            (whole_seconds v.evaluated_at)
    verify-IsSupported h passed closed permitted =
        let r = verify-IsRecomputed h passed in
        let again =
          expected_input m ceil_minutes services attestation digests approvals config v r.target
            r.action r.evidence r.consequence in
        let met : meets_conditions again ≡ true =
          sym
            (build_decision-permits digests
              (some (given_requirement v.decision.approval_requirement)) again tt r.expected closed
              r.built).0
          ∙ sym (ap (λ (c : CoreFields). permits c.outcome) r.same_cores)
          ∙ permitted in
        assess_evidence-IsSupported m services attestation v.request v.policy.evidence
          (whole_seconds v.evaluated_at) r.evidence r.assessed (last-condition _ _ met)

    -- A token is issued, with a verification that the verifier returned, only for a decision that the
    -- verifier passed on sound evidence, if the digest of the decision is that of no other decision:
    -- `IsSupported` says what the evidence of the verified request is.
    pub issue-verify :
        (platform : Platform) (gate : GateConfig) (d : DecisionRecord F) (input : IssueInput)
        (st after : GateState F) (token : AuthorizationToken)
        → (digests.projection_sha256 (project d) ≡ digests.projection_sha256 (project v.decision)
            → project d ≡ project v.decision)
        → closed_rules v.policy.decision_rules ≡ true
        → verify m ceil_minutes services attestation digests approvals config v s ≡ ok w
        → issue digests platform gate d input w st ≡ (ok token, after)
        → (project d ≡ project v.decision)
          × IsSupported m services attestation v.request v.policy.evidence
              (whole_seconds v.evaluated_at)
    issue-verify platform gate d input st after token unique closed h done =
        let issued = issue-IsIssued digests platform gate d input w st token after done in
        let (passed, digest) =
          bound-parts digests gate d input.agent_id w (whole_seconds input.clock) issued.verified in
        let r = verify-IsRecomputed h passed in
        let same = unique (sym digest ∙ r.decision_digest) in
        (
          same,
          verify-IsSupported h passed closed
              (sym (ap (λ (p : AuthorizedProjection F). permits p.outcome) same) ∙ issued.allowed),
        )
