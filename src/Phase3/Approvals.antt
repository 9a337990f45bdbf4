-- ===== src/Phase3/Approvals.antt =====
-- An approval of src/adf_poc/phase3/approval.py is used once, and its retry gives the same receipt.
use mathlib.Core.Path.{Path}
use ai_decision_firewall.Prelude.{
  ℕ, String, string_eq, ◌≡◌, ◌≢◌, refl, sym, ap, ◌∙◌, subst, Bool, true, false, List, [], ◌∷◌,
  lookup, Option, none, some, Result, ok, err, contains, arith, eq_iff, Bool-cases, inl, inr,
}
use ai_decision_firewall.Evidence.Traces.{ok_injective}
use ai_decision_firewall.Phase3.{AuthenticatedPrincipal}
use ai_decision_firewall.Phase3.Records.{ApprovalReceipt}
use ai_decision_firewall.Phase3.Decision.{Digests, IssueArgs}
use ai_decision_firewall.Phase3.Identity.{CredentialServices}
use ai_decision_firewall.Phase3.Issue.{err-ok}
use ai_decision_firewall.Phase3.Approval.{
  ApprovalState, ApprovalGate, ApprovalFault, is_registered, issue_requirement,
}
use ai_decision_firewall.Phase3.Approve.{
  commit_error, settled, ApproveArgs, review, pending_receipt, commit_pending, grant,
  grant_reviewed, approve,
}

abbrev pub IsUsed : String → ApprovalState → Type 0
IsUsed id s = contains s.used id ≡ true

settled-IsUsed :
    (id approval_id : String) (b : Bool) (receipt : ApprovalReceipt) (s : ApprovalState)
    → IsUsed id s
    → IsUsed id (settled approval_id b receipt s).1
settled-IsUsed id approval_id true receipt s h = ground (arith, h)
settled-IsUsed id approval_id false receipt s h = h

commit_pending-IsUsed :
    (id approval_id : String) (commit : ApprovalReceipt → Bool)
    (out : Result ApprovalFault ApprovalReceipt × ApprovalState)
    → IsUsed id out.1
    → IsUsed id (commit_pending approval_id commit out).1
commit_pending-IsUsed id approval_id commit (err e, s) h = h
commit_pending-IsUsed id approval_id commit (ok receipt, s) h =
    settled-IsUsed id approval_id (commit receipt) receipt s h

settled-ok :
    (approval_id : String) (b : Bool) (receipt r : ApprovalReceipt) (s : ApprovalState)
    → (settled approval_id b r s).0 ≡ ok receipt
    → (Path (Result ApprovalFault ApprovalReceipt) (ok r) (ok receipt))
      × IsUsed approval_id (settled approval_id b r s).1
settled-ok approval_id true receipt r s h =
    (ap ok (ok_injective h), ground (arith, eq_iff approval_id approval_id))
settled-ok approval_id false receipt r s h = absurd (err-ok h)

commit_pending-ok :
    (approval_id : String) (commit : ApprovalReceipt → Bool)
    (out : Result ApprovalFault ApprovalReceipt × ApprovalState) (receipt : ApprovalReceipt)
    → (commit_pending approval_id commit out).0 ≡ ok receipt
    → (out.0 ≡ ok receipt) × IsUsed approval_id (commit_pending approval_id commit out).1
commit_pending-ok approval_id commit (err e, s) receipt h = absurd (err-ok h)
commit_pending-ok approval_id commit (ok r, s) receipt h =
    settled-ok approval_id (commit r) receipt r s h

-- A commit that raises leaves the state that has the receipt as pending.
pub settled-err :
    (approval_id : String) (b : Bool) (r : ApprovalReceipt) (s s' : ApprovalState)
    → settled approval_id b r s ≡ (err commit_error, s')
    → (b ≡ false) × (s ≡ s')
settled-err approval_id true r s s' h = absurd (err-ok (sym (ap (λ o. o.0) h)))
settled-err approval_id false r s s' h = (refl, ap (λ o. o.1) h)

module _ {F J C : Type 0} (digests : Digests F J) (services : CredentialServices C)
    (gate : ApprovalGate) where
  -- A call of one of the two operations that change the state.
  pub data ApprovalOp : Type 0 where
    op_issue : ℕ → String → IssueArgs F → ApprovalOp
    op_approve : ApproveArgs C → (ApprovalReceipt → Bool) → ApprovalOp

  abbrev pub approval_step : ApprovalOp → ApprovalState → ApprovalState
  approval_step (op_issue clock id args) s = (issue_requirement digests gate clock id args s).1
  approval_step (op_approve args commit) s = (approve digests services gate args commit s).1

  -- The state after a history of calls, of which some may have raised.
  abbrev pub approval_run : List ApprovalOp → ApprovalState → ApprovalState
  approval_run [] s = s
  approval_run (op ∷ ops) s = approval_run ops (approval_step op s)

  issue_requirement-used :
      (clock : ℕ) (id : String) (args : IssueArgs F) (s : ApprovalState)
      → (issue_requirement digests gate clock id args s).1.used ≡ s.used
  unfolding issue_requirement
  issue_requirement-used clock id args s = ground arith

  pending_receipt-used :
      (args : ApproveArgs C) (approver : AuthenticatedPrincipal) (found : Option ApprovalReceipt)
      (s : ApprovalState)
      → (pending_receipt digests services gate args approver found s).1.used ≡ s.used
  unfolding pending_receipt
  pending_receipt-used args approver none s = ground arith
  pending_receipt-used args approver (some receipt) s = ground arith

  module _ (args : ApproveArgs C) (commit : ApprovalReceipt → Bool) (s : ApprovalState) where
    abbrev pub own_id : String
    own_id = args.requirement.scope.approval_id

    abbrev pub pending :
        AuthenticatedPrincipal → Result ApprovalFault ApprovalReceipt × ApprovalState
    pending approver =
        pending_receipt digests services gate args approver (lookup own_id s.pending_receipts) s

    grant-IsUsed :
        (other : String) (approver : AuthenticatedPrincipal)
        → IsUsed other s
        → IsUsed other (grant digests services gate args commit approver s).1
    unfolding grant
    grant-IsUsed other approver h =
        let kept = commit_pending-IsUsed other own_id commit (pending approver) (
          subst (λ xs. contains xs other ≡ true)
            (sym (pending_receipt-used args approver (lookup own_id s.pending_receipts) s)) h) in
        elim (Bool-cases (contains s.used own_id)) [
          | inl e ↦ rw e h
          | inr e ↦ rw e (elim (Bool-cases (is_registered args.requirement s)) [
            | inl f ↦ rw f kept
            | inr f ↦ rw f h
          ])
        ]

    pub grant-ok :
        (approver : AuthenticatedPrincipal) (receipt : ApprovalReceipt)
        → (grant digests services gate args commit approver s).0 ≡ ok receipt
        → (contains s.used own_id ≡ false)
          × ((pending approver).0 ≡ ok receipt)
          × IsUsed own_id (grant digests services gate args commit approver s).1
    unfolding grant
    grant-ok approver receipt = elim (Bool-cases (contains s.used own_id)) [
      | inl e ↦ rw e (λ h. absurd (err-ok h))
      | inr e ↦ rw e (elim (Bool-cases (is_registered args.requirement s)) [
        | inl f ↦ rw f (λ h.
            let (made, used) = commit_pending-ok own_id commit (pending approver) receipt h in
            (refl, made, used))
        | inr f ↦ rw f (λ h. absurd (err-ok h))
      ])
    ]

    reviewed-ok :
        (r : Result ApprovalFault AuthenticatedPrincipal) (receipt : ApprovalReceipt)
        → (grant_reviewed digests services gate args commit r s).0 ≡ ok receipt
        → (approver : AuthenticatedPrincipal) × (r ≡ ok approver)
          × (contains s.used own_id ≡ false)
          × ((pending approver).0 ≡ ok receipt)
          × IsUsed own_id (grant_reviewed digests services gate args commit r s).1
    reviewed-ok (err e) receipt h = absurd (err-ok h)
    reviewed-ok (ok approver) receipt h =
        let (fresh, made, used) = grant-ok approver receipt h in (approver, refl, fresh, made, used)

    reviewed-IsUsed :
        (other : String) (r : Result ApprovalFault AuthenticatedPrincipal)
        → IsUsed other s
        → IsUsed other (grant_reviewed digests services gate args commit r s).1
    reviewed-IsUsed other (err e) h = h
    reviewed-IsUsed other (ok approver) h = grant-IsUsed other approver h

    -- What an approval that returns its receipt has passed, and that its requirement is used then.
    pub approve-ok :
        (receipt : ApprovalReceipt)
        → (approve digests services gate args commit s).0 ≡ ok receipt
        → (approver : AuthenticatedPrincipal) × (review digests services gate args s ≡ ok approver)
          × (contains s.used own_id ≡ false)
          × ((pending approver).0 ≡ ok receipt)
          × IsUsed own_id (approve digests services gate args commit s).1
    unfolding approve
    approve-ok receipt h = reviewed-ok (review digests services gate args s) receipt h

    approve-IsUsed :
        (other : String)
        → IsUsed other s
        → IsUsed other (approve digests services gate args commit s).1
    unfolding approve
    approve-IsUsed other h = reviewed-IsUsed other (review digests services gate args s) h

  approval_step-IsUsed :
      (op : ApprovalOp) (id : String) (s : ApprovalState)
      → IsUsed id s
      → IsUsed id (approval_step op s)
  approval_step-IsUsed (op_issue clock a args) id s h =
      subst (λ xs. contains xs id ≡ true) (sym (issue_requirement-used clock a args s)) h
  approval_step-IsUsed (op_approve args commit) id s h = approve-IsUsed args commit s id h

  approval_run-IsUsed :
      (ops : List ApprovalOp) (id : String) (s : ApprovalState)
      → IsUsed id s
      → IsUsed id (approval_run ops s)
  approval_run-IsUsed [] id s h = h
  approval_run-IsUsed (op ∷ ops) id s h =
      approval_run-IsUsed ops id (approval_step op s) (approval_step-IsUsed op id s h)

  -- After an approval that returned its receipt, and any further history of calls, no approval of a
  -- requirement with that identifier returns a receipt again.
  pub approve-approval_run :
      (args later : ApproveArgs C) (commit commit' : ApprovalReceipt → Bool) (s : ApprovalState)
      (ops : List ApprovalOp) (receipt again : ApprovalReceipt)
      → (approve digests services gate args commit s).0 ≡ ok receipt
      → later.requirement.scope.approval_id ≡ args.requirement.scope.approval_id
      → (approve digests services gate later commit'
          (approval_run ops (approve digests services gate args commit s).1)).0
        ≢ ok again
  approve-approval_run args later commit commit' s ops receipt again h same h' =
      let (_, _, _, _, used) = approve-ok args commit s receipt h in
      let after = (approve digests services gate args commit s).1 in
      let still = approval_run-IsUsed ops args.requirement.scope.approval_id after used in
      let (_, _, fresh, _, _) = approve-ok later commit' (approval_run ops after) again h' in
      let no : true ≡ false =
        sym still ∙ ap (λ i. contains (approval_run ops after).used i) (sym same) ∙ fresh in
      cc
