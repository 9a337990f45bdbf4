-- ===== src/Phase3/Issue.antt =====
-- When the gate of src/adf_poc/phase3/authorization.py issues a token, and for what.
use ai_decision_firewall.Prelude.{
  String, string_eq, ◌≡◌, ◌≢◌, refl, sym, ap, ◌∙◌, subst, Bool, true, false, not, Option, none,
  some, Result, ok, err, if◌then◌else◌,
}
use mathlib.Core.Path.{Path}
use ai_decision_firewall.Evidence.Traces.{ok_injective}
use ai_decision_firewall.Ledger.{Reason, text_not_encodable, ControlLedger, Platform}
use ai_decision_firewall.Ledger.Ops.{register}
use ai_decision_firewall.Phase3.Records.{
  PermittedAction, DecisionRecord, AuthorizationToken, DecisionVerification,
}
use ai_decision_firewall.Phase3.Decision.{
  Digests, permits, whole_seconds, DecisionInput, IssueArgs, build_decision,
}
use ai_decision_firewall.Phase3.Records.{ApprovalRequirement}
use ai_decision_firewall.Phase3.Rules.{closed_rules}
use ai_decision_firewall.Phase3.Permission.{
  meets_conditions, build_decision-permits, build_decision-IsBounded, IsBounded,
}
use ai_decision_firewall.Phase3.Gate.{
  GateFault, GateConfig, GateState, IssueInput, verification_bound, token_of, refuse,
  ledger_refused, registered, issue_scope, issue, is_malformed, value_error, outcome_prohibited,
  decision_not_verified,
}

pub err-ok : {E A : Type 0} {e : E} {a : A} → Path (Result E A) (err e) (ok a) → ⊥
err-ok h = cc

-- A refusal of the ledger is an error of the gate.
pub ledger_refused-err :
    {F A : Type 0} (reason : Reason) (s : GateState F) (a : A) → (ledger_refused reason s).0 ≢ ok a
ledger_refused-err text_not_encodable s a h = err-ok h
ledger_refused-err reason s a h = err-ok h

-- The conditions under which a token is issued, and what it is.
module _ {F J : Type 0} (digests : Digests F J) (platform : Platform) (gate : GateConfig) where
  abbrev pub registration :
      DecisionRecord F
      → IssueInput
      → DecisionVerification
      → GateState F
      → Result Reason Unit × ControlLedger
  registration d input verification s =
      register platform input.token_id (some verification.unsigned.verification_id)
        (some d.decision_id) (some (digests.isoformat (whole_seconds input.clock))) s.ledger

  pub record IsIssued (d : DecisionRecord F) (input : IssueInput)
      (verification : DecisionVerification) (s : GateState F) (token : AuthorizationToken)
      (after : GateState F) : Type 0 where
    pub allowed : permits d.outcome ≡ true
    pub verified :
        verification_bound digests gate d input.agent_id verification (whole_seconds input.clock)
        ≡ true
    pub permitted : PermittedAction
    pub command : d.permitted_action ≡ some permitted
    pub issued_for : token_of digests gate d input permitted (whole_seconds input.clock) ≡ token
    pub recorded : (registration d input verification s).0 ≡ ok tt
    pub leaves : after.ledger ≡ (registration d input verification s).1

  module _ (d : DecisionRecord F) (input : IssueInput) (verification : DecisionVerification)
      (s : GateState F) (token : AuthorizationToken) (after : GateState F) where
    registered-ok :
        (built : AuthorizationToken) (out : Result Reason Unit × ControlLedger)
        → registered built s out ≡ (ok token, after)
        → (built ≡ token) × (out.0 ≡ ok tt) × (after.ledger ≡ out.1)
    registered-ok built (ok _, l) h =
        (ok_injective (ap (λ o. o.0) h), refl, sym (ap (λ o. o.1.ledger) h))
    registered-ok built (err e, l) h =
        absurd (ledger_refused-err e (record s { ledger = l }) token (ap (λ o. o.0) h))

    branches :
        (p m b : Bool) (out : Result GateFault AuthorizationToken × GateState F)
        → (if not p
            then refuse outcome_prohibited s
            else if m
            then (err value_error, s)
            else if not b
            then refuse decision_not_verified s
            else out)
          ≡ (ok token, after)
        → (p ≡ true) × (b ≡ true) × (out ≡ (ok token, after))
    branches false m b out h = absurd (err-ok (ap (λ o. o.0) h))
    branches true true b out h = absurd (err-ok (ap (λ o. o.0) h))
    branches true false false out h = absurd (err-ok (ap (λ o. o.0) h))
    branches true false true out h = (refl, refl, h)

    issue_scope-IsIssued :
        (found : Option PermittedAction)
        → d.permitted_action ≡ found
        → permits d.outcome ≡ true
        → verification_bound digests gate d input.agent_id verification (whole_seconds input.clock)
          ≡ true
        → issue_scope digests platform gate d input verification found s ≡ (ok token, after)
        → IsIssued d input verification s token after
    issue_scope-IsIssued none e p b h = absurd (err-ok (ap (λ o. o.0) h))
    issue_scope-IsIssued (some permitted) e p b h =
        let (built, recorded, leaves) =
          registered-ok (token_of digests gate d input permitted (whole_seconds input.clock))
            (registration d input verification s) h in
        record {
          allowed = p;
          verified = b;
          permitted = permitted;
          command = e;
          issued_for = built;
          recorded = recorded;
          leaves = leaves;
        }

    -- A token is issued only for an outcome that permits, under a bound verification of the decision,
    -- for exactly the permitted command, and if the ledger registers it.
    pub issue-IsIssued :
        issue digests platform gate d input verification s ≡ (ok token, after)
        → IsIssued d input verification s token after
    unfolding issue
    issue-IsIssued h =
        let (p, b, out) =
          branches (permits d.outcome)
            (is_malformed (gate.fromisoformat verification.unsigned.verified_at))
            (verification_bound digests gate d input.agent_id verification
              (whole_seconds input.clock))
            (issue_scope digests platform gate d input verification d.permitted_action s) h in
        issue_scope-IsIssued d.permitted_action refl p b out

-- The command that a token carries.
abbrev pub command_in : AuthorizationToken → PermittedAction
command_in token = record {
  type = token.unsigned.action_type;
  target = token.unsigned.target_id;
  parameters = token.unsigned.permitted_parameters;
}

module _ {F J S : Type 0} (digests : Digests F J) (platform : Platform) (gate : GateConfig) where
  -- For a decision that was built under validated rules, a token is issued only if the conditions for
  -- permitting without a human hold, and its command is within the bounds of the policy and of the
  -- request.
  pub issue-build_decision :
      (issuer : Option (IssueArgs F → S → Result String ApprovalRequirement × S))
      (i : DecisionInput F J) (approvals : S) (d : DecisionRecord F) (input : IssueInput)
      (verification : DecisionVerification) (s after : GateState F) (token : AuthorizationToken)
      → closed_rules i.policy.decision_rules ≡ true
      → (build_decision digests issuer i approvals).0 ≡ ok d
      → issue digests platform gate d input verification s ≡ (ok token, after)
      → (meets_conditions i ≡ true) × IsBounded i (command_in token)
  issue-build_decision issuer i approvals d input verification s after token closed built h =
      let issued = issue-IsIssued digests platform gate d input verification s token after h in
      (
        sym (build_decision-permits digests issuer i approvals d closed built).0 ∙ issued.allowed,
        subst (λ t. IsBounded i (command_in t)) issued.issued_for
            (build_decision-IsBounded digests issuer i approvals d issued.permitted built
              issued.command),
      )
