-- ===== src/Phase3/Retry.antt =====
-- The retry of an approval of src/adf_poc/phase3/approval.py whose commit raised.
use mathlib.Core.Path.{Path}
use ai_decision_firewall.Prelude.{
  List, String, string_eq, ◌≡◌, refl, sym, ap, ◌∙◌, subst, Bool, true, false, not, lookup, insert,
  lookup-insert, Option, none, some, Result, ok, err, is_blank, contains, eq_iff, if◌then◌else◌,
  Bool-cases, inl, inr,
}
use ai_decision_firewall.Evidence.Traces.{ok_injective}
use ai_decision_firewall.Phase3.{AuthenticatedPrincipal}
use ai_decision_firewall.Phase3.Records.{ApprovalReceipt}
use ai_decision_firewall.Phase3.Decision.{Digests}
use ai_decision_firewall.Phase3.Identity.{CredentialServices}
use ai_decision_firewall.Phase3.Issue.{err-ok}
use ai_decision_firewall.Phase3.Approval.{
  ApprovalState, ApprovalGate, ApprovalFault, approval_error, is_registered,
}
use ai_decision_firewall.Phase3.Approve.{
  ApproveFault, refused, commit_error, ApproveArgs, review, same_bindings, new_receipt,
  pending_receipt, commit_pending, grant, grant_reviewed, approve,
}
use ai_decision_firewall.Phase3.Approvals.{
  ApprovalOp, approval_run, pending, approve-ok, settled-err,
}
use ai_decision_firewall.Phase3.Pending.{IsHeld, used_up, held, approval_run-IsHeld}

refused-commit : {e : ApprovalFault} → refused e ≡ commit_error → ⊥
refused-commit h = cc

err_injective :
    {e f : ApproveFault} → Path (Result ApproveFault ApprovalReceipt) (err e) (err f) → e ≡ f
err_injective h = cc

held-lookup :
    (id : String) (r : ApprovalReceipt) (s : ApprovalState)
    → contains s.used id ≡ false
    → IsHeld id r s
    → lookup id s.pending_receipts ≡ some r
held-lookup id r s fresh (used_up u) = absurd (let no : true ≡ false = sym u ∙ fresh in cc)
held-lookup id r s fresh (held p) = p

module _ {F J C : Type 0} (digests : Digests F J) (services : CredentialServices C)
    (gate : ApprovalGate) where
  -- The receipt that a callback refused is left as pending.
  commit_pending-err :
      (id : String) (commit : ApprovalReceipt → Bool)
      (out : Result ApprovalFault ApprovalReceipt × ApprovalState) (s' : ApprovalState)
      → commit_pending id commit out ≡ (err commit_error, s')
      → (r : ApprovalReceipt) × (out ≡ (ok r, s')) × (commit r ≡ false)
  commit_pending-err id commit (err e, s) s' h =
      absurd (refused-commit (err_injective (ap (λ o. o.0) h)))
  commit_pending-err id commit (ok r, s) s' h =
      let (declined, same) = settled-err id (commit r) r s s' h in
      (r, ap (λ t. (ok r, t)) same, declined)

  made-lookup :
      (b : Bool) (id : String) (e : ApprovalFault) (new r : ApprovalReceipt) (s s' : ApprovalState)
      → Path
          (Result ApprovalFault ApprovalReceipt × ApprovalState)
          (if b
            then (err e, s)
            else (ok new, record s { pending_receipts = insert id new s.pending_receipts }))
          (ok r, s')
      → lookup id s'.pending_receipts ≡ some r
  made-lookup true id e new r s s' h = absurd (err-ok (ap (λ o. o.0) h))
  made-lookup false id e new r s s' h =
      ap (λ o. lookup id o.1.pending_receipts) (sym h)
      ∙ lookup-insert id id new s.pending_receipts
      ∙ ap (λ b. if b then some new else lookup id s.pending_receipts) ((eq_iff id id).1 refl)
      ∙ ap some (ok_injective (ap (λ o. o.0) h))

  kept-lookup :
      (b : Bool) (id : String) (e : ApprovalFault) (receipt r : ApprovalReceipt)
      (s s' : ApprovalState)
      → lookup id s.pending_receipts ≡ some receipt
      → Path
          (Result ApprovalFault ApprovalReceipt × ApprovalState)
          (if b then (ok receipt, s) else (err e, s))
          (ok r, s')
      → lookup id s'.pending_receipts ≡ some r
  kept-lookup true id e receipt r s s' found h =
      ap (λ o. lookup id o.1.pending_receipts) (sym h)
      ∙ found
      ∙ ap some (ok_injective (ap (λ o. o.0) h))
  kept-lookup false id e receipt r s s' found h = absurd (err-ok (ap (λ o. o.0) h))

  pending_receipt-lookup :
      (args : ApproveArgs C) (approver : AuthenticatedPrincipal) (s s' : ApprovalState)
      (found : Option ApprovalReceipt) (r : ApprovalReceipt)
      → lookup args.requirement.scope.approval_id s.pending_receipts ≡ found
      → pending_receipt digests services gate args approver found s ≡ (ok r, s')
      → lookup args.requirement.scope.approval_id s'.pending_receipts ≡ some r
  unfolding pending_receipt
  pending_receipt-lookup args approver s s' none r e h =
      made-lookup (is_blank args.receipt_id) args.requirement.scope.approval_id
        (approval_error "APPROVAL_RECEIPT_ID_INVALID")
        (new_receipt digests services gate args approver) r s s' h
  pending_receipt-lookup args approver s s' (some receipt) r e h =
      kept-lookup (same_bindings digests services gate args approver receipt)
        args.requirement.scope.approval_id (approval_error "APPROVAL_PENDING_CONFLICT") receipt r s
        s' e h

  grant-pending :
      (args : ApproveArgs C) (commit : ApprovalReceipt → Bool) (approver : AuthenticatedPrincipal)
      (s s' : ApprovalState) (used registered : Bool)
      → (if used
          then (err (refused (approval_error "APPROVAL_REPLAY")), s)
          else if not registered
          then (err (refused (approval_error "APPROVAL_NOT_REGISTERED")), s)
          else commit_pending args.requirement.scope.approval_id commit
              (pending digests services gate args commit s approver))
        ≡ (err commit_error, s')
      → (r : ApprovalReceipt) × (lookup args.requirement.scope.approval_id s'.pending_receipts
          ≡ some r)
        × (commit r ≡ false)
  grant-pending args commit approver s s' true registered h =
      absurd (refused-commit (err_injective (ap (λ o. o.0) h)))
  grant-pending args commit approver s s' false false h =
      absurd (refused-commit (err_injective (ap (λ o. o.0) h)))
  grant-pending args commit approver s s' false true h =
      let (r, made, declined) =
        commit_pending-err args.requirement.scope.approval_id commit
          (pending digests services gate args commit s approver) s' h in
      (
        r,
        pending_receipt-lookup args approver s s'
            (lookup args.requirement.scope.approval_id s.pending_receipts) r refl made,
        declined,
      )

  reviewed-pending :
      (args : ApproveArgs C) (commit : ApprovalReceipt → Bool) (s s' : ApprovalState)
      (r : Result ApprovalFault AuthenticatedPrincipal)
      → grant_reviewed digests services gate args commit r s ≡ (err commit_error, s')
      → (r : ApprovalReceipt) × (lookup args.requirement.scope.approval_id s'.pending_receipts
          ≡ some r)
        × (commit r ≡ false)
  unfolding grant
  reviewed-pending args commit s s' (err e) h =
      absurd (refused-commit (err_injective (ap (λ o. o.0) h)))
  reviewed-pending args commit s s' (ok approver) h =
      grant-pending args commit approver s s' (contains s.used args.requirement.scope.approval_id)
        (is_registered args.requirement s) h

  approve-pending :
      (args : ApproveArgs C) (commit : ApprovalReceipt → Bool) (s s' : ApprovalState)
      → approve digests services gate args commit s ≡ (err commit_error, s')
      → (r : ApprovalReceipt) × (lookup args.requirement.scope.approval_id s'.pending_receipts
          ≡ some r)
        × (commit r ≡ false)
  unfolding approve
  approve-pending args commit s s' h =
      reviewed-pending args commit s s' (review digests services gate args s) h

  found-receipt :
      (args : ApproveArgs C) (approver : AuthenticatedPrincipal) (s : ApprovalState)
      (r receipt : ApprovalReceipt)
      → (pending_receipt digests services gate args approver (some r) s).0 ≡ ok receipt
      → r ≡ receipt
  unfolding pending_receipt
  found-receipt args approver s r receipt =
      elim (Bool-cases (same_bindings digests services gate args approver r)) [
        | inl e ↦ rw e (λ h. ok_injective h)
        | inr e ↦ rw e (λ h. absurd (err-ok h))
      ]

  -- When the commit of a receipt raised, the receipt is pending, and whatever calls of the gate follow,
  -- each approval of the requirement that returns a receipt returns that one: whatever its time, its
  -- identifiers and its callback are, no second receipt is made.
  pub approve-retry :
      (args later : ApproveArgs C) (commit commit' : ApprovalReceipt → Bool) (s s' : ApprovalState)
      (ops : List (ApprovalOp digests services gate)) (receipt : ApprovalReceipt)
      → approve digests services gate args commit s ≡ (err commit_error, s')
      → later.requirement.scope.approval_id ≡ args.requirement.scope.approval_id
      → (approve digests services gate later commit' (approval_run digests services gate ops s')).0
        ≡ ok receipt
      → (lookup args.requirement.scope.approval_id s'.pending_receipts ≡ some receipt)
        × (commit receipt ≡ false)
  approve-retry args later commit commit' s s' ops receipt failed same again =
      let id = args.requirement.scope.approval_id in
      let after = approval_run digests services gate ops s' in
      let (r, found, declined) = approve-pending args commit s s' failed in
      let (approver, _, fresh, made, _) =
        approve-ok digests services gate later commit' after receipt again in
      let still =
        held-lookup id r after (sym (ap (λ i. contains after.used i) same) ∙ fresh)
          (approval_run-IsHeld digests services gate ops id r s' (held found)) in
      let kept : r ≡ receipt = found-receipt later approver after r receipt (
        subst (λ o. (pending_receipt digests services gate later approver o after).0 ≡ ok receipt)
          (ap (λ i. lookup i after.pending_receipts) same ∙ still) made) in
      (found ∙ ap some kept, ap commit (sym kept) ∙ declined)
