-- ===== src/Phase3/Pending.antt =====
-- A pending receipt is kept until its approval is used: src/adf_poc/phase3/approval.py.
use ai_decision_firewall.Prelude.{
  ℕ, String, string_eq, ◌==◌, ◌≡◌, refl, sym, ap, ◌∙◌, Bool, true, false, List, [], ◌∷◌, lookup,
  insert, lookup-insert, lookup-remove, Option, none, some, Result, ok, err, is_blank, contains,
  arith, eq_iff, if◌then◌else◌, Bool-cases, inl, inr,
}
use ai_decision_firewall.Phase3.{AuthenticatedPrincipal}
use ai_decision_firewall.Phase3.Records.{ApprovalReceipt}
use ai_decision_firewall.Phase3.Decision.{Digests, IssueArgs}
use ai_decision_firewall.Phase3.Identity.{CredentialServices}
use ai_decision_firewall.Phase3.Approval.{
  ApprovalState, ApprovalGate, ApprovalFault, is_registered, issue_requirement,
}
use ai_decision_firewall.Phase3.Approve.{
  settled, ApproveArgs, review, same_bindings, new_receipt, pending_receipt, commit_pending, grant,
  grant_reviewed, approve,
}
use ai_decision_firewall.Phase3.Approvals.{
  ApprovalOp, op_issue, op_approve, approval_step, approval_run, pending,
}

-- The receipt is pending for the approval, or the approval is used.
pub data IsHeld (id : String) (r : ApprovalReceipt) (s : ApprovalState) : Type 0 where
  used_up : contains s.used id ≡ true → IsHeld id r s
  held : lookup id s.pending_receipts ≡ some r → IsHeld id r s

some-none : {r : ApprovalReceipt} → none ≡ some r → ⊥
some-none h = cc

settled-IsHeld :
    (own id : String) (b : Bool) (receipt r : ApprovalReceipt) (s : ApprovalState)
    → IsHeld id r s
    → IsHeld id r (settled own b receipt s).1
settled-IsHeld own id false receipt r s h = h
settled-IsHeld own id true receipt r s (used_up u) = used_up (ground (arith, u))
settled-IsHeld own id true receipt r s (held p) = elim (Bool-cases (own == id)) [
  | inl e ↦ used_up (ground (arith, e))
  | inr e ↦ held (lookup-remove own id s.pending_receipts e ∙ p)
]

commit_pending-IsHeld :
    (own id : String) (commit : ApprovalReceipt → Bool) (r : ApprovalReceipt)
    (out : Result ApprovalFault ApprovalReceipt × ApprovalState)
    → IsHeld id r out.1
    → IsHeld id r (commit_pending own commit out).1
commit_pending-IsHeld own id commit r (err e, s) h = h
commit_pending-IsHeld own id commit r (ok receipt, s) h =
    settled-IsHeld own id (commit receipt) receipt r s h

module _ {F J C : Type 0} (digests : Digests F J) (services : CredentialServices C)
    (gate : ApprovalGate) where
  inserted-IsHeld :
      (own id : String) (new r : ApprovalReceipt) (s : ApprovalState)
      → lookup own s.pending_receipts ≡ none
      → IsHeld id r s
      → IsHeld id r (record s { pending_receipts = insert own new s.pending_receipts })
  inserted-IsHeld own id new r s free (used_up u) = used_up u
  inserted-IsHeld own id new r s free (held p) = elim (Bool-cases (own == id)) [
    | inl e ↦
        absurd
          (some-none (sym free ∙ ap (λ i. lookup i s.pending_receipts) ((eq_iff own id).0 e) ∙ p))
    | inr e ↦ held (
        lookup-insert own id new s.pending_receipts
        ∙ ap (λ b. if b then some new else lookup id s.pending_receipts) e
        ∙ p)
  ]

  pending_receipt-IsHeld :
      (args : ApproveArgs C) (approver : AuthenticatedPrincipal) (id : String) (r : ApprovalReceipt)
      (s : ApprovalState) (found : Option ApprovalReceipt)
      → lookup args.requirement.scope.approval_id s.pending_receipts ≡ found
      → IsHeld id r s
      → IsHeld id r (pending_receipt digests services gate args approver found s).1
  unfolding pending_receipt
  pending_receipt-IsHeld args approver id r s none free h =
      elim (Bool-cases (is_blank args.receipt_id)) [
        | inl e ↦ rw e h
        | inr e ↦ rw e (
            inserted-IsHeld args.requirement.scope.approval_id id
              (new_receipt digests services gate args approver) r s free h)
      ]
  pending_receipt-IsHeld args approver id r s (some receipt) e h =
      elim (Bool-cases (same_bindings digests services gate args approver receipt)) [
        | inl e ↦ rw e h
        | inr e ↦ rw e h
      ]

  grant-IsHeld :
      (args : ApproveArgs C) (commit : ApprovalReceipt → Bool) (approver : AuthenticatedPrincipal)
      (id : String) (r : ApprovalReceipt) (s : ApprovalState)
      → IsHeld id r s
      → IsHeld id r (grant digests services gate args commit approver s).1
  unfolding grant
  grant-IsHeld args commit approver id r s h =
      let own = args.requirement.scope.approval_id in
      let kept =
        commit_pending-IsHeld own id commit r (pending digests services gate args commit s approver)
          (pending_receipt-IsHeld args approver id r s (lookup own s.pending_receipts) refl h) in
      elim (Bool-cases (contains s.used own)) [
        | inl e ↦ rw e h
        | inr e ↦ rw e (elim (Bool-cases (is_registered args.requirement s)) [
          | inl f ↦ rw f kept
          | inr f ↦ rw f h
        ])
      ]

  reviewed-IsHeld :
      (args : ApproveArgs C) (commit : ApprovalReceipt → Bool)
      (found : Result ApprovalFault AuthenticatedPrincipal) (id : String) (r : ApprovalReceipt)
      (s : ApprovalState)
      → IsHeld id r s
      → IsHeld id r (grant_reviewed digests services gate args commit found s).1
  reviewed-IsHeld args commit (err e) id r s h = h
  reviewed-IsHeld args commit (ok approver) id r s h = grant-IsHeld args commit approver id r s h

  issue_requirement-IsHeld :
      (clock : ℕ) (new : String) (args : IssueArgs F) (id : String) (r : ApprovalReceipt)
      (s : ApprovalState)
      → IsHeld id r s
      → IsHeld id r (issue_requirement digests gate clock new args s).1
  unfolding issue_requirement
  issue_requirement-IsHeld clock new args id r s (used_up u) = used_up (ground (arith, u))
  issue_requirement-IsHeld clock new args id r s (held p) = held (ground (arith, p))

  -- No call of the gate loses a pending receipt.
  approval_step-IsHeld :
      (op : ApprovalOp digests services gate) (id : String) (r : ApprovalReceipt)
      (s : ApprovalState)
      → IsHeld id r s
      → IsHeld id r (approval_step digests services gate op s)
  unfolding approve
  approval_step-IsHeld (op_issue clock new args) id r s h =
      issue_requirement-IsHeld clock new args id r s h
  approval_step-IsHeld (op_approve args commit) id r s h =
      reviewed-IsHeld args commit (review digests services gate args s) id r s h

  pub approval_run-IsHeld :
      (ops : List (ApprovalOp digests services gate)) (id : String) (r : ApprovalReceipt)
      (s : ApprovalState)
      → IsHeld id r s
      → IsHeld id r (approval_run digests services gate ops s)
  approval_run-IsHeld [] id r s h = h
  approval_run-IsHeld (op ∷ ops) id r s h =
      approval_run-IsHeld ops id r (approval_step digests services gate op s)
        (approval_step-IsHeld op id r s h)
