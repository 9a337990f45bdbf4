-- ===== src/Phase3/Permission.antt =====
-- What a decision of src/adf_poc/phase3/decision.py permits, and under which conditions.
use ai_decision_firewall.Prelude.{
  ◌≤◌, String, string_eq, ◌==◌, ◌≡◌, refl, sym, ap, ◌∙◌, subst, Bool, true, false, not, ◌&&◌, ◌||◌,
  [], ◌∷◌, Option, none, some, Result, ok, err, contains, disjoint, is_empty, arith, if◌then◌else◌,
  Bool-cases, inl, inr,
}
use ai_decision_firewall.Evidence.Traces.{ok_injective}
use ai_decision_firewall.Phase3.{trusted, DecisionRule, action_type_value}
use ai_decision_firewall.Phase3.Records.{ApprovalRequirement, PermittedAction, DecisionRecord}
use ai_decision_firewall.Phase3.Authority.{
  identity_codes, identity_fatal, assess_authority, attributes_match, same_status,
}
use ai_decision_firewall.Phase3.Reasons.{identity_fatal-split}
use ai_decision_firewall.Phase3.Decision.{
  DecisionFault, select_rule, Digests, permits, required_authority_of, DecisionInput, IssueArgs,
  authority_of, evidence_fatal, command_of, target_type_prohibited, input_constraints,
  input_conditions, permitted_action_of, preliminary, issue_args, escalated, escalate_with,
  context_of, decide_digested, decide_by, build_decision,
}
use ai_decision_firewall.Phase3.Rules.{closed_rules, outcome_of, precedence, select_rule-precedence}

-- A decision without its approval requirement.
abbrev pub strip : {F : Type 0} → DecisionRecord F → DecisionRecord F
strip d = record d {
  approval_requirement = none;
  explanation = record (d.explanation) { human_approval_requirement = none };
}

-- What the request, the principal, the catalogs and the assessments must be for an action to be
-- permitted without a human.
abbrev pub meets_conditions : {F J : Type 0} → DecisionInput F J → Bool
meets_conditions i =
    disjoint identity_codes (i.principal.authentication_reason_code ∷ [])
    && i.principal.authenticated
    && i.principal.id == i.request.agent.id
    && attributes_match i.request i.principal
    && same_status i.principal.security_status trusted
    && is_empty i.evidence.invalid_evidence_ids
    && is_empty i.evidence.poisoned_evidence_ids
    && contains i.action_policy.allowed_target_types i.target.type
    && not (i.target.criticality == "TIER_0")
    && not i.consequence.human_approval_required
    && contains i.principal.authority (required_authority_of i.target i.action_policy)
    && i.evidence.automation_grade

abbrev pub has_action : Option PermittedAction → Bool
has_action none = false
has_action (some _) = true

-- The bounds on a permitted action.
pub record IsBounded {F J : Type 0} (i : DecisionInput F J) (a : PermittedAction) : Type 0 where
  pub same_type : a.type ≡ action_type_value i.request.action.type
  pub catalog_target : a.target ≡ i.target.id
  pub within_policy : a.parameters.duration_seconds ≤ i.action_policy.maximum_duration_seconds
  pub within_request : a.parameters.duration_seconds ≤ i.request.action.parameters.duration_seconds
  pub keeps_access : a.parameters.preserve_management ≡ (
      i.action_policy.preserve_management_required
      || i.request.action.parameters.preserve_management)

some_injective : {A : Type 0} {a b : A} → some a ≡ some b → a ≡ b
some_injective h = cc

permits-precedence :
    (a b c d e f g h : Bool)
    → permits (precedence a b c d e f g h) ≡ not (a || b || c || d || e || f || g)
permits-precedence true b c d e f g h = refl
permits-precedence false true c d e f g h = refl
permits-precedence false false true d e f g h = refl
permits-precedence false false false true e f g h = refl
permits-precedence false false false false true f g h = refl
permits-precedence false false false false false true g h = refl
permits-precedence false false false false false false true h = refl
permits-precedence false false false false false false false true = refl
permits-precedence false false false false false false false false = refl

conditions-Bool :
    (a b c d e f g h i j k l : Bool)
    → not (not (a && b && c && d && e) || not (f && g) || not h || i || j || not k || not l)
      ≡ (a && b && c && d && e && f && g && h && not i && not j && k && l)
conditions-Bool a b c d e f g h i j k l = ground arith

module _ {F J S : Type 0} (digests : Digests F J) where
  with_approval-strip :
      (decision : DecisionRecord F) (out : Result String ApprovalRequirement × S)
      (d : DecisionRecord F)
      → (escalated digests decision out).0 ≡ ok d
      → strip d ≡ strip decision
  with_approval-strip decision (ok r, s) d h = ap strip (sym (ok_injective h))
  with_approval-strip decision (err r, s) d h = cc

  module _ (issuer : Option (IssueArgs F → S → Result String ApprovalRequirement × S))
      (i : DecisionInput F J) (s : S) where
    escalate_with-strip :
        (o : Option (IssueArgs F → S → Result String ApprovalRequirement × S)) (rule : DecisionRule)
        (c : String) (d : DecisionRecord F)
        → (escalate_with digests o i (preliminary digests i rule c) s).0 ≡ ok d
        → strip d ≡ preliminary digests i rule c
    escalate_with-strip none rule c d h = cc
    escalate_with-strip (some issue) rule c d h =
        with_approval-strip (preliminary digests i rule c)
          (issue (issue_args digests i (preliminary digests i rule c)) s) d h

    branch-strip :
        (b : Bool) (rule : DecisionRule) (c : String) (d : DecisionRecord F)
        → (if b
            then escalate_with digests issuer i (preliminary digests i rule c) s
            else (ok (preliminary digests i rule c), s)).0
          ≡ ok d
        → strip d ≡ preliminary digests i rule c
    branch-strip true rule c d h = escalate_with-strip issuer rule c d h
    branch-strip false rule c d h = ap strip (sym (ok_injective h))

    decide_digested-strip :
        (digest : Option String) (rule : DecisionRule) (d : DecisionRecord F)
        → (decide_digested digests issuer i rule digest s).0 ≡ ok d
        → (c : String) × (strip d ≡ preliminary digests i rule c)
    decide_digested-strip none rule d h = cc
    decide_digested-strip (some c) rule d h =
        (c, branch-strip (rule.outcome == "ESCALATE") rule c d h)

    decide_by-strip :
        (selected : Result DecisionFault DecisionRule) (d : DecisionRecord F)
        → (decide_by digests issuer i selected s).0 ≡ ok d
        → (rule : DecisionRule) × (selected ≡ ok rule)
          × (c : String) × (strip d ≡ preliminary digests i rule c)
    decide_by-strip (err e) d h = cc
    decide_by-strip (ok rule) d h =
        let (c, same) =
          decide_digested-strip (digests.context_sha256 (context_of digests i rule)) rule d h in
        (rule, refl, c, same)

    -- A decision that is returned is the preliminary one of the selected rule, but for its approval.
    pub build_decision-strip :
        (d : DecisionRecord F)
        → (build_decision digests issuer i s).0 ≡ ok d
        → (rule : DecisionRule) × (select_rule (input_conditions i) i.policy.decision_rules
            ≡ ok rule)
          × (c : String) × (strip d ≡ preliminary digests i rule c)
    unfolding build_decision
    build_decision-strip d h =
        decide_by-strip (select_rule (input_conditions i) i.policy.decision_rules) d h

    -- The outcome of a decision follows the precedence of the conditions.
    pub build_decision-precedence :
        (d : DecisionRecord F)
        → closed_rules i.policy.decision_rules ≡ true
        → (build_decision digests issuer i s).0 ≡ ok d
        → d.outcome
          ≡ precedence
              (identity_fatal (authority_of i))
              (evidence_fatal i)
              (target_type_prohibited i)
              (i.target.criticality == "TIER_0")
              i.consequence.human_approval_required
              (not (authority_of i).authorized)
              (not i.evidence.automation_grade)
              (not (is_empty (input_constraints i)))
    build_decision-precedence d closed h =
        let (rule, chosen, _, same) = build_decision-strip d h in
        ap (λ r. r.outcome) same
        ∙ ok_injective (
            sym (ap outcome_of chosen)
            ∙ select_rule-precedence i.policy.decision_rules _ _ _ _ _ _ _ _ closed)

    outcome-conditions :
        (d : DecisionRecord F)
        → closed_rules i.policy.decision_rules ≡ true
        → (build_decision digests issuer i s).0 ≡ ok d
        → permits d.outcome ≡ meets_conditions i
    unfolding assess_authority
    outcome-conditions d closed h =
        ap permits (build_decision-precedence d closed h)
        ∙ permits-precedence (identity_fatal (authority_of i)) (evidence_fatal i)
            (target_type_prohibited i) (i.target.criticality == "TIER_0")
            i.consequence.human_approval_required (not (authority_of i).authorized)
            (not i.evidence.automation_grade) (not (is_empty (input_constraints i)))
        ∙ ap
            (λ fatal. not (
              fatal
              || evidence_fatal i
              || target_type_prohibited i
              || i.target.criticality == "TIER_0"
              || i.consequence.human_approval_required
              || not (authority_of i).authorized
              || not i.evidence.automation_grade))
            (identity_fatal-split i.request i.principal
              (required_authority_of i.target i.action_policy))
        ∙ conditions-Bool (disjoint identity_codes (i.principal.authentication_reason_code ∷ []))
            i.principal.authenticated (i.principal.id == i.request.agent.id)
            (attributes_match i.request i.principal)
            (same_status i.principal.security_status trusted)
            (is_empty i.evidence.invalid_evidence_ids) (is_empty i.evidence.poisoned_evidence_ids)
            (contains i.action_policy.allowed_target_types i.target.type)
            (i.target.criticality == "TIER_0") i.consequence.human_approval_required
            (contains i.principal.authority (required_authority_of i.target i.action_policy))
            i.evidence.automation_grade

    has_action-permits :
        (outcome : String) → has_action (permitted_action_of i outcome) ≡ permits outcome
    has_action-permits outcome = elim (Bool-cases (permits outcome)) [
      | inl e ↦ rw e refl
      | inr e ↦ rw e refl
    ]

    -- Under rules that the validation of the policy accepts, a decision that is returned has an
    -- outcome that permits, and an action that it permits, exactly when the principal is authenticated
    -- and trusted, is the claimed agent with the claimed attributes and holds the required authority,
    -- no fatal code came from its authentication, no evidence is invalid or poisoned and the evidence
    -- is automation grade, the type of the target is allowed, the target is not TIER_0, and no human
    -- approval is required.
    pub build_decision-permits :
        (d : DecisionRecord F)
        → closed_rules i.policy.decision_rules ≡ true
        → (build_decision digests issuer i s).0 ≡ ok d
        → (permits d.outcome ≡ meets_conditions i)
          × (has_action d.permitted_action ≡ meets_conditions i)
    build_decision-permits d closed h =
        let (rule, chosen, _, same) = build_decision-strip d h in
        let permitted = outcome-conditions d closed h in
        (
          permitted,
          ap (λ r. has_action r.permitted_action) same
              ∙ has_action-permits rule.outcome
              ∙ sym (ap (λ r. permits r.outcome) same)
              ∙ permitted,
        )

    command_of-IsBounded : IsBounded i (command_of i)
    command_of-IsBounded = record {
      same_type = refl;
      catalog_target = refl;
      within_policy = ground arith;
      within_request = ground arith;
      keeps_access = refl;
    }

    action-IsBounded :
        (b : Bool) (a : PermittedAction)
        → (if b then some (command_of i) else none) ≡ some a
        → IsBounded i a
    action-IsBounded true a h = subst (IsBounded i) (some_injective h) command_of-IsBounded
    action-IsBounded false a h = cc

    -- An action that a decision permits is the requested one on the target of the catalog, lasts at
    -- most as long as the policy allows and as was requested, and keeps the management access where the
    -- policy requires it or the request asks for it.
    pub build_decision-IsBounded :
        (d : DecisionRecord F) (a : PermittedAction)
        → (build_decision digests issuer i s).0 ≡ ok d
        → d.permitted_action ≡ some a
        → IsBounded i a
    build_decision-IsBounded d a h permitted =
        let (rule, chosen, _, same) = build_decision-strip d h in
        action-IsBounded (permits rule.outcome) a
          (sym (ap (λ r. r.permitted_action) same) ∙ permitted)
