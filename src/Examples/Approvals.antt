-- ===== src/Examples/Approvals.antt =====
-- An escalated request and its human approval.
use ai_decision_firewall.Prelude.{
  List, ℕ, String, string_eq, ◌≡◌, ◌≢◌, refl, true, false, Bool, [], ◌∷◌, some, ok, err, lookup,
  insert, sorted_set,
}
use ai_decision_firewall.Phase3.{trusted, AuthenticatedPrincipal}
use ai_decision_firewall.Phase3.Records.{ApprovalRequirement, ApprovalReceipt}
use ai_decision_firewall.Phase3.Authority.{assess_authority, ordered_reasons, authority_reasons}
use ai_decision_firewall.Phase3.Decision.{decision_reasons, preliminary, issue_args, IssueArgs}
use ai_decision_firewall.Phase3.Identity.{CredentialServices, Resolver, resolve, verify_resolution}
use ai_decision_firewall.Phase3.Approval.{
  ApprovalState, ApprovalGate, issue_requirement, requirement_for, verify_requirement,
  same_requirement,
}
use ai_decision_firewall.Phase3.Approve.{
  ApproveArgs, commit_error, check_approver, review, new_receipt, pending_receipt, grant, approve,
}
use ai_decision_firewall.Phase3.Approvals.{
  ApprovalOp, op_approve, op_issue, approval_run, approve-approval_run,
}
use ai_decision_firewall.Phase3.Retry.{approve-retry}
use ai_decision_firewall.Examples.Control.{digests, input, rule, times}

abbrev analyst : AuthenticatedPrincipal
analyst = record {
  id = "human-1";
  type = "HUMAN_ANALYST";
  authenticated = true;
  roles = "HUMAN_APPROVER" ∷ [];
  authority = "ISOLATE" ∷ [];
  security_status = trusted;
  identity_source = "registry";
  human_session = true;
  authentication_reason_code = "";
}

abbrev services : CredentialServices String
services = record { bytes = λ c. 32; digest = λ c. c; hexdigest = λ c. c }

abbrev resolver : Resolver
resolver = record {
  records = ("credential-1", analyst) ∷ [];
  sign = λ u. u.resolution_id;
  instance_id = "resolver-1";
}

abbrev gate : ApprovalGate
gate = record {
  sign_scope = λ s. s.1;
  sign_receipt = λ r. r.receipt_id;
  scope_sha256 = λ s. s.approval_id;
  fromisoformat = times;
  ttl_seconds = 300;
  issuer_instance_id = "approvals-1";
  resolver = resolver;
}

abbrev args : IssueArgs ℕ
args =
    issue_args digests input
      (preliminary digests input (rule "R5" "CONSEQUENCE_REQUIRES_APPROVAL" "ESCALATE") "ESCALATE")

abbrev requirement : ApprovalRequirement
requirement = requirement_for digests gate args "approval-1" 5000000

-- The state after the requirement was issued.
abbrev issued : ApprovalState
issued = record {
  requirements = ("approval-1", requirement) ∷ [];
  issued_decision_ids = "decision-1" ∷ [];
  used = [];
  pending_receipts = [];
}

requirement-issued :
    issue_requirement digests gate 5000000 "approval-1" args
      (record { requirements = []; issued_decision_ids = []; used = []; pending_receipts = [] })
    ≡ (ok requirement, issued)
unfolding issue_requirement assess_authority ordered_reasons authority_reasons sorted_set lookup
    insert decision_reasons
requirement-issued = refl

abbrev approval : ApproveArgs String
approval = record {
  requirement = requirement;
  credential = "credential-1";
  action_type = "NETWORK_ISOLATE";
  target_id = "WORKSTATION_042";
  parameters = input.request.action.parameters;
  evidence_sha256 = "evidence";
  clock = 6000000;
  resolution_id = "resolution-1";
  receipt_id = "receipt-1";
}

abbrev later : ApproveArgs String
later = record approval { clock = 7000000; receipt_id = "receipt-2" }

abbrev commits : ApprovalReceipt → Bool
commits r = true

abbrev fails : ApprovalReceipt → Bool
fails r = false

abbrev receipt : ApprovalReceipt
receipt = new_receipt digests services gate approval analyst

approved : (approve digests services gate approval commits issued).0 ≡ ok receipt
unfolding approve review grant pending_receipt check_approver verify_requirement same_requirement
    resolve verify_resolution lookup assess_authority ordered_reasons authority_reasons sorted_set
    insert decision_reasons
approved = refl

approve-approval_run_example :
    (approve digests services gate later commits (
      approval_run digests services gate
        (op_issue 8000000 "approval-2" args ∷ [])
        (approve digests services gate approval commits issued).1)).0
    ≢ ok receipt
approve-approval_run_example =
    approve-approval_run digests services gate approval later commits commits issued
      (op_issue 8000000 "approval-2" args ∷ []) receipt receipt approved refl

abbrev pending : ApprovalState
pending = record issued { pending_receipts = ("approval-1", receipt) ∷ [] }

commit-failed : approve digests services gate approval fails issued ≡ (err commit_error, pending)
unfolding approve review grant pending_receipt check_approver verify_requirement same_requirement
    resolve verify_resolution lookup assess_authority ordered_reasons authority_reasons sorted_set
    insert decision_reasons
commit-failed = refl

-- In between, a call with other evidence is refused and another requirement is issued.
abbrev between : List (ApprovalOp digests services gate)
between =
    op_approve (record later { evidence_sha256 = "other" }) commits
    ∷ op_issue 8000000 "approval-2" args
    ∷ []

retried :
    (approve digests services gate later commits
      (approval_run digests services gate between pending)).0
    ≡ ok receipt
unfolding approve review grant pending_receipt check_approver verify_requirement same_requirement
    resolve verify_resolution lookup assess_authority ordered_reasons authority_reasons sorted_set
    insert decision_reasons issue_requirement
retried = refl

approve-retry_example :
    (lookup "approval-1" pending.pending_receipts ≡ some receipt) × (fails receipt ≡ false)
approve-retry_example =
    approve-retry digests services gate approval later fails commits issued pending between receipt
      commit-failed refl retried
