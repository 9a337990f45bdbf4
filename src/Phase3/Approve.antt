-- ===== src/Phase3/Approve.antt =====
-- src/adf_poc/phase3/approval.py: `approve`. The reviewed parameters are of the closed shape of
-- `ActionParameters`, of which `_copy_exact_json` is the identity.
use ai_decision_firewall.Prelude.{
  ℕ, String, string_eq, ◌==◌, Bool, true, false, not, ◌&&◌, [], ◌∷◌, lookup, insert, remove, Option,
  none, some, Result, ok, err, is_blank, contains, ◌>>=◌, ◌>>◌, if◌then◌else◌,
}
use ai_decision_firewall.Phase3.{AuthenticatedPrincipal, ActionParameters, trusted}
use ai_decision_firewall.Phase3.Records.{ApprovalRequirement, UnsignedReceipt, ApprovalReceipt}
use ai_decision_firewall.Phase3.Authority.{same_status}
use ai_decision_firewall.Phase3.Decision.{Digests, whole_seconds}
use ai_decision_firewall.Phase3.Identity.{
  CredentialServices, IdentityFault, resolve, verify_resolution,
}
use ai_decision_firewall.Phase3.Approval.{
  ApprovalState, ApprovalGate, ApprovalFault, approval_error, demand, is_registered,
  verify_requirement,
}

-- The arguments of `approve`, with the clock and the identifiers that the call draws.
pub record ApproveArgs (C : Type 0) : Type 0 where
  pub requirement : ApprovalRequirement
  pub credential : C
  pub action_type : String
  pub target_id : String
  pub parameters : ActionParameters
  pub evidence_sha256 : String
  pub clock : ℕ
  pub resolution_id : String
  pub receipt_id : String

abbrev of_identity : {A : Type 0} → Result IdentityFault A → Result ApprovalFault A
of_identity (ok a) = ok a
of_identity (err _) = err (approval_error "APPROVER_CREDENTIAL_REJECTED")

-- The tests on the approver.
unfoldable pub check_approver : String → AuthenticatedPrincipal → Result ApprovalFault Unit
check_approver required_authority approver = do
  demand (approver.authenticated && same_status approver.security_status trusted)
      "APPROVER_NOT_AUTHENTICATED"
  demand
      (approver.human_session
        && contains ("HUMAN_ANALYST" ∷ "HUMAN_OPERATOR" ∷ []) approver.type
        && contains approver.roles "HUMAN_APPROVER")
      "APPROVER_NOT_HUMAN"
  demand (contains approver.authority required_authority) "APPROVER_AUTHORITY_INSUFFICIENT"

-- What `approve` raises: what the gate raises, or what the callback raises.
pub data ApproveFault : Type 0 where
  refused : ApprovalFault → ApproveFault
  commit_error : ApproveFault

-- What follows the callback, if it returns.
abbrev pub settled :
    String
    → Bool
    → ApprovalReceipt
    → ApprovalState
    → Result ApproveFault ApprovalReceipt × ApprovalState
settled approval_id true receipt s = (
  ok receipt,
  record s {
    used = approval_id ∷ s.used;
    pending_receipts = remove approval_id s.pending_receipts;
  },
)
settled approval_id false receipt s = (err commit_error, s)

-- `commit_receipt` and what follows it; `commit` tells whether the callback returns.
abbrev pub commit_pending :
    String
    → (ApprovalReceipt → Bool)
    → Result ApprovalFault ApprovalReceipt × ApprovalState
    → Result ApproveFault ApprovalReceipt × ApprovalState
commit_pending approval_id commit (err e, s) = (err (refused e), s)
commit_pending approval_id commit (ok receipt, s) = settled approval_id (commit receipt) receipt s

module _ {F J C : Type 0} (digests : Digests F J) (services : CredentialServices C)
    (gate : ApprovalGate) where
  -- `approve` up to its lock: the approver of a valid requirement and scope.
  unfoldable pub review :
      ApproveArgs C → ApprovalState → Result ApprovalFault AuthenticatedPrincipal
  unfolding check_approver verify_requirement resolve verify_resolution
  review args s = do
    let scope = args.requirement.scope
    demand
        (not (is_blank args.action_type)
          && not (is_blank args.target_id)
          && not (is_blank args.evidence_sha256))
        "APPROVAL_SCOPE_TYPE_INVALID"
    verify_requirement gate args.requirement (some (whole_seconds args.clock)) s
    resolved ← of_identity (resolve services gate.resolver args.credential args.resolution_id)
    approver ← of_identity (verify_resolution gate.resolver resolved)
    check_approver scope.required_approving_authority approver
    demand (scope.action_type == args.action_type) "APPROVAL_ACTION_MISMATCH"
    demand (scope.target_id == args.target_id) "APPROVAL_TARGET_MISMATCH"
    demand (scope.parameters_sha256 == digests.parameters_sha256 args.parameters)
        "APPROVAL_PARAMETERS_MISMATCH"
    demand (scope.evidence_sha256 == args.evidence_sha256) "APPROVAL_EVIDENCE_MISMATCH"
    ok approver

  -- `base`
  abbrev pub receipt_base : ApproveArgs C → AuthenticatedPrincipal → UnsignedReceipt
  receipt_base args approver = record {
    receipt_id = args.receipt_id;
    issuer_instance_id = gate.issuer_instance_id;
    approval_id = args.requirement.scope.approval_id;
    request_id = args.requirement.scope.request_id;
    decision_id = args.requirement.scope.decision_id;
    approver_id = approver.id;
    approving_authority = args.requirement.scope.required_approving_authority;
    action_type = args.action_type;
    target_id = args.target_id;
    parameters_sha256 = args.requirement.scope.parameters_sha256;
    evidence_sha256 = args.evidence_sha256;
    requirement_scope_sha256 = args.requirement.scope_sha256;
    approved_at = digests.isoformat (whole_seconds args.clock);
    status = "APPROVED_FOR_REEVALUATION";
  }

  abbrev pub new_receipt : ApproveArgs C → AuthenticatedPrincipal → ApprovalReceipt
  new_receipt args approver = record {
    unsigned = receipt_base args approver;
    signature = gate.sign_receipt (receipt_base args approver);
  }

  -- Whether a pending receipt has the bindings of this call.
  abbrev pub same_bindings : ApproveArgs C → AuthenticatedPrincipal → ApprovalReceipt → Bool
  same_bindings args approver receipt =
      receipt.unsigned.approver_id == approver.id
      && receipt.unsigned.approving_authority == args.requirement.scope.required_approving_authority
      && receipt.unsigned.action_type == args.action_type
      && receipt.unsigned.target_id == args.target_id
      && receipt.unsigned.parameters_sha256 == args.requirement.scope.parameters_sha256
      && receipt.unsigned.evidence_sha256 == args.evidence_sha256
      && receipt.unsigned.requirement_scope_sha256 == args.requirement.scope_sha256

  -- The receipt that is committed, and the state that has it as pending.
  unfoldable pub pending_receipt :
      ApproveArgs C
      → AuthenticatedPrincipal
      → Option ApprovalReceipt
      → ApprovalState
      → Result ApprovalFault ApprovalReceipt × ApprovalState
  pending_receipt args approver none s =
      if is_blank args.receipt_id
      then (err (approval_error "APPROVAL_RECEIPT_ID_INVALID"), s)
      else (
        ok (new_receipt args approver),
        record s {
          pending_receipts =
              insert args.requirement.scope.approval_id (new_receipt args approver)
                s.pending_receipts;
        },
      )
  pending_receipt args approver (some receipt) s =
      if same_bindings args approver receipt
      then (ok receipt, s)
      else (err (approval_error "APPROVAL_PENDING_CONFLICT"), s)

  -- The section of `approve` under the lock.
  unfoldable pub grant :
      ApproveArgs C
      → (ApprovalReceipt → Bool)
      → AuthenticatedPrincipal
      → ApprovalState
      → Result ApproveFault ApprovalReceipt × ApprovalState
  unfolding pending_receipt
  grant args commit approver s =
      let approval_id = args.requirement.scope.approval_id in
      if contains s.used approval_id
      then (err (refused (approval_error "APPROVAL_REPLAY")), s)
      else if not (is_registered args.requirement s)
      then (err (refused (approval_error "APPROVAL_NOT_REGISTERED")), s)
      else commit_pending approval_id commit
          (pending_receipt args approver (lookup approval_id s.pending_receipts) s)

  abbrev pub grant_reviewed :
      ApproveArgs C
      → (ApprovalReceipt → Bool)
      → Result ApprovalFault AuthenticatedPrincipal
      → ApprovalState
      → Result ApproveFault ApprovalReceipt × ApprovalState
  grant_reviewed args commit (err e) s = (err (refused e), s)
  grant_reviewed args commit (ok approver) s = grant args commit approver s

  -- `approve`
  unfoldable pub approve :
      ApproveArgs C
      → (ApprovalReceipt → Bool)
      → ApprovalState
      → Result ApproveFault ApprovalReceipt × ApprovalState
  unfolding review grant
  approve args commit s = grant_reviewed args commit (review args s) s
