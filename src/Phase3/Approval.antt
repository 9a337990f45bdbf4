-- ===== src/Phase3/Approval.antt =====
-- src/adf_poc/phase3/approval.py: the state of `HumanApprovalGate`, `issue_requirement` and
-- `verify_requirement`. Its lock is not modelled.
use ai_decision_firewall.Prelude.{
  ℕ, ◌+◌, ◌*◌, String, string_eq, ◌==◌, Bool, true, false, not, ◌&&◌, ◌||◌, List, [], ◌∷◌, Dict,
  lookup, insert, Option, none, some, Result, ok, err, ltb, leb, is_empty, contains, ◌>>=◌, ◌>>◌,
  if◌then◌else◌,
}
use ai_decision_firewall.Ledger.Ops.{has_key}
use ai_decision_firewall.Phase3.Records.{
  ApprovalScope, ApprovalRequirement, UnsignedReceipt, ApprovalReceipt, PermittedAction,
}
use ai_decision_firewall.Phase3.Decision.{Digests, IssueArgs, whole_seconds}
use ai_decision_firewall.Phase3.Gate.{ParsedTime, aware, naive, malformed}
use ai_decision_firewall.Phase3.Identity.{Resolver}

pub record ApprovalState : Type 0 where
  pub requirements : Dict String ApprovalRequirement
  pub issued_decision_ids : List String
  pub used : List String
  pub pending_receipts : Dict String ApprovalReceipt

-- The configuration of the gate; the two functions `sign` are HMAC under its key.
pub record ApprovalGate : Type 0 where
  pub sign_scope : ApprovalScope × String → String
  pub sign_receipt : UnsignedReceipt → String
  pub scope_sha256 : ApprovalScope → String
  pub fromisoformat : String → ParsedTime
  pub ttl_seconds : ℕ
  pub issuer_instance_id : String
  pub resolver : Resolver

-- The checks of `__init__`.
unfoldable pub accepts_approval_config : (signing_key_bytes : ℕ) → ApprovalGate → Bool
accepts_approval_config signing_key_bytes gate =
    leb 32 signing_key_bytes && leb 60 gate.ttl_seconds && leb gate.ttl_seconds 86400

-- What the gate raises: an `ApprovalError` by its reason code, or the `ValueError` of
-- `fromisoformat`.
pub data ApprovalFault : Type 0 where
  approval_error : String → ApprovalFault
  time_error : ApprovalFault

abbrev pub demand : Bool → String → Result ApprovalFault Unit
demand true reason = ok tt
demand false reason = err (approval_error reason)

-- `_parse_timestamp`
abbrev pub approval_time : ParsedTime → Result ApprovalFault ℕ
approval_time (aware t) = ok t
approval_time naive = err (approval_error "APPROVAL_TIME_INVALID")
approval_time malformed = err time_error

abbrev pub same_texts : List String → List String → Bool
same_texts [] [] = true
same_texts [] (_ ∷ _) = false
same_texts (_ ∷ _) [] = false
same_texts (x ∷ xs) (y ∷ ys) = x == y && same_texts xs ys

-- `==` on requirements
unfoldable pub same_requirement : ApprovalRequirement → ApprovalRequirement → Bool
same_requirement x y =
    let a = x.scope in
    let b = y.scope in
    a.approval_id == b.approval_id
    && a.issuer_instance_id == b.issuer_instance_id
    && a.request_id == b.request_id
    && a.decision_id == b.decision_id
    && a.decision_context_sha256 == b.decision_context_sha256
    && a.policy_id == b.policy_id
    && a.policy_version == b.policy_version
    && a.policy_sha256 == b.policy_sha256
    && a.action_type == b.action_type
    && a.target_id == b.target_id
    && a.parameters_sha256 == b.parameters_sha256
    && a.evidence_sha256 == b.evidence_sha256
    && same_texts a.reason_codes b.reason_codes
    && a.required_approving_authority == b.required_approving_authority
    && a.created_at == b.created_at
    && a.expires_at == b.expires_at
    && a.status == b.status
    && x.scope_sha256 == y.scope_sha256
    && x.signature == y.signature

abbrev pub is_registered : ApprovalRequirement → ApprovalState → Bool
is_registered requirement s = elim (lookup requirement.scope.approval_id s.requirements) [
  | none ↦ false
  | some registered ↦ same_requirement registered requirement
]

abbrev no_action : Option PermittedAction → Bool
no_action none = true
no_action (some _) = false

abbrev no_requirement : Option ApprovalRequirement → Bool
no_requirement none = true
no_requirement (some _) = false

module _ {F J : Type 0} (digests : Digests F J) (gate : ApprovalGate) where
  -- `base`, for the drawn identifier and the whole seconds of the clock
  abbrev pub scope_for : IssueArgs F → String → ℕ → ApprovalScope
  scope_for args approval_id now = record {
    approval_id = approval_id;
    issuer_instance_id = gate.issuer_instance_id;
    request_id = args.decision.request_id;
    decision_id = args.decision.decision_id;
    decision_context_sha256 = args.decision.decision_context_sha256;
    policy_id = args.decision.policy_id;
    policy_version = args.decision.policy_version;
    policy_sha256 = args.decision.policy_sha256;
    action_type = args.action_type;
    target_id = args.target_id;
    parameters_sha256 = digests.parameters_sha256 args.parameters;
    evidence_sha256 = args.evidence_sha256;
    reason_codes = args.reason_codes;
    required_approving_authority = args.required_approving_authority;
    created_at = digests.isoformat now;
    expires_at = digests.isoformat (now + gate.ttl_seconds * 1000000);
    status = "PENDING";
  }

  abbrev pub requirement_for : IssueArgs F → String → ℕ → ApprovalRequirement
  requirement_for args approval_id now =
      let scope = scope_for args approval_id now in
      record {
        scope = scope;
        scope_sha256 = gate.scope_sha256 scope;
        signature = gate.sign_scope (scope, gate.scope_sha256 scope);
      }

  -- The section under the lock.
  abbrev pub register_requirement :
      ApprovalRequirement → ApprovalState → Result String ApprovalRequirement × ApprovalState
  register_requirement requirement s =
      if has_key requirement.scope.approval_id s.requirements
        || contains s.issued_decision_ids requirement.scope.decision_id
      then (err "APPROVAL_ID_COLLISION", s)
      else (
        ok requirement,
        record s {
          requirements = insert requirement.scope.approval_id requirement s.requirements;
          issued_decision_ids = requirement.scope.decision_id ∷ s.issued_decision_ids;
        },
      )

  -- `issue_requirement`
  unfoldable pub issue_requirement :
      ℕ → String → IssueArgs F → ApprovalState → Result String ApprovalRequirement × ApprovalState
  issue_requirement clock approval_id args s =
      let d = args.decision in
      if not (
        d.outcome == "ESCALATE"
        && no_action d.permitted_action
        && no_requirement d.approval_requirement)
      then (err "APPROVAL_OUTCOME_INVALID", s)
      else if is_empty args.reason_codes
          || not (args.required_approving_authority == d.authority.required_authority)
          || not (same_texts args.reason_codes d.reason_codes)
      then (err "APPROVAL_SCOPE_INCOMPLETE", s)
      else register_requirement (requirement_for args approval_id (whole_seconds clock)) s

module _ (gate : ApprovalGate) where
  abbrev pub check_window : Option ℕ → ℕ → ℕ → Result ApprovalFault Unit
  check_window none created expires = ok tt
  check_window (some now) created expires =
      demand (leb created now) "APPROVAL_NOT_YET_VALID"
      >> demand (ltb now expires) "APPROVAL_EXPIRED"

  -- `verify_requirement`; `at` is the time that is checked, if it is.
  unfoldable pub verify_requirement :
      ApprovalRequirement → Option ℕ → ApprovalState → Result ApprovalFault Unit
  unfolding same_requirement
  verify_requirement requirement at s = do
    let scope = requirement.scope
    demand (gate.scope_sha256 scope == requirement.scope_sha256) "APPROVAL_SCOPE_DIGEST_INVALID"
    demand (gate.sign_scope (scope, requirement.scope_sha256) == requirement.signature)
        "APPROVAL_SIGNATURE_INVALID"
    demand (scope.issuer_instance_id == gate.issuer_instance_id) "APPROVAL_ISSUER_MISMATCH"
    demand (is_registered requirement s) "APPROVAL_NOT_REGISTERED"
    demand (scope.status == "PENDING" && not (is_empty scope.reason_codes))
        "APPROVAL_STATUS_INVALID"
    created ← approval_time (gate.fromisoformat scope.created_at)
    expires ← approval_time (gate.fromisoformat scope.expires_at)
    demand (ltb created expires) "APPROVAL_TIME_INVALID"
    check_window at created expires
