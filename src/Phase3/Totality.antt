-- ===== src/Phase3/Totality.antt =====
-- The decision of src/adf_poc/phase3/decision.py always comes to an outcome.
use ai_decision_firewall.Prelude.{String, string_eq, ◌≡◌, Option, none, Result, ok, err}
use ai_decision_firewall.Phase3.{DecisionRule}
use ai_decision_firewall.Phase3.Records.{ApprovalRequirement, DecisionRecord}
use ai_decision_firewall.Phase3.Decision.{
  DecisionFault, no_approval_issuer, approval_refused, Digests, DecisionInput, IssueArgs,
  context_not_finite, context_of,
}

-- How `build_decision` may end: with a decision, with a context that has no digest, or without the
-- approval requirement that it needs.
pub data IsDecided {F J S : Type 0} (digests : Digests F J)
    (issuer : Option (IssueArgs F → S → Result String ApprovalRequirement × S))
    (i : DecisionInput F J) : Result DecisionFault (DecisionRecord F) → Type 0 where
  decided : (d : DecisionRecord F) → IsDecided digests issuer i (ok d)
  without_digest :
      (rule : DecisionRule)
      → digests.context_sha256 (context_of digests i rule) ≡ none
      → IsDecided digests issuer i (err context_not_finite)
  without_issuer : issuer ≡ none → IsDecided digests issuer i (err no_approval_issuer)
  without_requirement :
      (reason : String) → IsDecided digests issuer i (err (approval_refused reason))
