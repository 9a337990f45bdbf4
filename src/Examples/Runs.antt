-- ===== src/Examples/Runs.antt =====
-- Whole transactions and their audit log, on the concrete case.
use ai_decision_firewall.Prelude.{
  ℕ, string_eq, ◌≡◌, ◌≢◌, refl, ap, is_empty, true, false, [], ◌∷◌, lookup, insert, sorted_set,
}
use ai_decision_firewall.Policy.{
  propose, is_decision_grade, can_auto_contain, is_automation_grade, containment_proposal, severe,
  cited_ids,
}
use ai_decision_firewall.Verifier.{
  verify, all_checks, common_checks, disposition_checks, containment_checks,
}
use ai_decision_firewall.Verifier.Eligible.{IsEligible}
use ai_decision_firewall.Actions.{
  authorize, execute, apply, downstream_failure, effect, initialize_case, issue_token, sign,
  validate, check_result, check_results, expected_state, get_field, verify_results,
}
use ai_decision_firewall.Actions.Accounts.{AllEnabled}
use ai_decision_firewall.Audit.{
  AuditLogger, synced, sync_failed, append, empty_logger, memory, verify_rows,
}
use ai_decision_firewall.Audit.Chain.{
  IsChained, append_all, append-IsChained, empty-IsChained, verify_rows-append_all,
}
use ai_decision_firewall.Audit.Tamper.{NoCollision, verify_from_injective}
use ai_decision_firewall.Engine.{
  shadow_read_only, synthetic_simulation, process, with_evidence, with_model, decide, decide_under,
  downgrade, log, authorize_stage, require_wiring, action_stage, finalize, finalize_at, run_actions,
  record_action, is_read_only, new_engine, decision_of, post_action,
}
use ai_decision_firewall.Engine.ReadOnly.{Observes, process-Observes}
use ai_decision_firewall.Engine.Safety.{Refrains, process-Refrains, process-IsEligible}
use ai_decision_firewall.Engine.Batch.{process_all, process_all-audited, lookup-process_ne}
use ai_decision_firewall.Examples.{
  decimals, policy_file, stolen_session, good_evidence, high_risk, broken_risk, services, reads,
  stages, hash_body, hash_decision, engine,
}
use ai_decision_firewall.Examples.Decisions.{cases_ne}

process-Observes_example :
    Observes hash_body reads services hash_decision stolen_session (engine shadow_read_only) (
      process hash_body reads services hash_decision
        (stages good_evidence high_risk)
        stolen_session
        (engine shadow_read_only))
unfolding is_read_only new_engine
process-Observes_example =
    process-Observes hash_body reads services hash_decision stolen_session
      (stages good_evidence high_risk) (engine shadow_read_only) refl

broken_risk-refused :
    (verify policy_file stolen_session broken_risk good_evidence
      (propose policy_file stolen_session broken_risk good_evidence)).passed
    ≡ false
unfolding decimals verify all_checks common_checks
broken_risk-refused = refl

process-Refrains_example :
    Refrains hash_body reads services hash_decision stolen_session (engine synthetic_simulation) (
      process hash_body reads services hash_decision
        (stages good_evidence broken_risk)
        stolen_session
        (engine synthetic_simulation))
unfolding new_engine
process-Refrains_example =
    process-Refrains hash_body reads services hash_decision stolen_session
      (stages good_evidence broken_risk) (engine synthetic_simulation) good_evidence broken_risk
      refl refl broken_risk-refused

states-changed :
    (process hash_body reads services hash_decision
      (stages good_evidence high_risk)
      stolen_session
      (engine synthetic_simulation)).1.states
    ≢ (engine synthetic_simulation).states
unfolding decimals append process with_evidence with_model decide decide_under downgrade log
    authorize_stage require_wiring action_stage finalize finalize_at run_actions record_action
    is_read_only new_engine decision_of post_action authorize execute apply downstream_failure
    effect initialize_case issue_token sign validate check_result check_results expected_state
    get_field verify_results propose is_decision_grade can_auto_contain is_automation_grade
    containment_proposal severe cited_ids verify all_checks common_checks disposition_checks
    containment_checks lookup insert sorted_set
states-changed e = let no : false ≡ true = ap is_empty e in cc

process-IsEligible_example :
    IsEligible policy_file stolen_session high_risk good_evidence
      (propose policy_file stolen_session high_risk good_evidence)
unfolding new_engine
process-IsEligible_example =
    process-IsEligible hash_body reads services hash_decision stolen_session
      (stages good_evidence high_risk) (engine synthetic_simulation) good_evidence high_risk refl
      refl states-changed

process_all-audited_example :
    let e =
      (process_all hash_body services hash_decision
        (stages good_evidence high_risk)
        ((reads, stolen_session) ∷ [])
        (engine synthetic_simulation)).1 in
    (verify_rows hash_body e.audit.rows ≡ (true, [])) × AllEnabled e.states
process_all-audited_example =
    process_all-audited hash_body services hash_decision (stages good_evidence high_risk)
      policy_file synthetic_simulation memory "key:" ((reads, stolen_session) ∷ [])

lookup-process_ne_example :
    lookup "case-2"
      (process hash_body reads services hash_decision
        (stages good_evidence high_risk)
        stolen_session
        (engine synthetic_simulation)).1.states
    ≡ lookup "case-2" (engine synthetic_simulation).states
lookup-process_ne_example =
    lookup-process_ne hash_body services hash_decision (stages good_evidence high_risk) reads
      stolen_session (engine synthetic_simulation) "case-2" cases_ne

verify_rows-append_all_example :
    verify_rows {P = ℕ} hash_body
      (append_all hash_body
        (empty_logger ℕ memory)
        ((synced, "t1", "A", 5) ∷ (sync_failed, "t2", "B", 6) ∷ [])).rows
    ≡ (true, [])
verify_rows-append_all_example =
    verify_rows-append_all hash_body memory
      ((synced, "t1", "A", 5) ∷ (sync_failed, "t2", "B", 6) ∷ [])

-- A log of one row.
abbrev noted : AuditLogger ℕ
noted = (append hash_body (empty_logger ℕ memory) synced "t1" "A" 5).1

noted-IsChained : IsChained hash_body noted
noted-IsChained =
    append-IsChained hash_body (empty_logger ℕ memory) synced "t1" "A" 5
      (empty-IsChained hash_body memory)

noted-NoCollision : NoCollision hash_body noted.rows noted.rows
unfolding append
noted-NoCollision = (λ e. refl, tt)

verify_from_injective_example : noted.rows ≡ noted.rows
verify_from_injective_example =
    verify_from_injective hash_body noted.rows noted.rows noted-IsChained.verified
      noted-IsChained.verified refl noted-NoCollision refl
