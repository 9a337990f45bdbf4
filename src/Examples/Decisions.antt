-- ===== src/Examples/Decisions.antt =====
-- Proposals, their verification and the authorization gate, on the concrete case.
use ai_decision_firewall.Prelude.{
  string_eq, ◌≡◌, ◌≢◌, ◌↔◌, refl, ap, is_empty, true, false, [], some, ok, contains, lookup, arith,
  disjoint-IsDisjoint, eq_iff,
}
use ai_decision_firewall.Policy.{
  propose, can_auto_contain, is_automation_grade, is_decision_grade, severe, containment_proposal,
}
use ai_decision_firewall.Verifier.{verify}
use ai_decision_firewall.Verifier.Eligible.{IsContainable, IsEligible, verify-passed_iff}
use ai_decision_firewall.Verifier.Agreement.{
  IsWellConfigured, IsGrounded, verify-propose, propose-IsContainable,
}
use ai_decision_firewall.Actions.{issue_token, sign, validate, authorize, apply}
use ai_decision_firewall.Actions.Gate.{
  IsValidFor, validate_iff, validate-authorize, validate-unsigned_eq,
}
use ai_decision_firewall.Actions.Target.{Faithful, apply-Faithful}
use ai_decision_firewall.Evidence.Proposals.{verify-propose-assess_evidence}
use ai_decision_firewall.Examples.Assessments.{
  decimal_math, texts, injected, summary, summary-assessed,
}
use ai_decision_firewall.Examples.{
  decimals, policy_file, stolen_session, good_evidence, high_risk, containment, accepted, services,
  gate, token, target,
}

policy_file-IsWellConfigured : IsWellConfigured policy_file
unfolding lookup
policy_file-IsWellConfigured = record {
  poison_blocks = refl;
  break_glass_blocks = refl;
  present = λ e. cc;
  apart =
      disjoint-IsDisjoint policy_file.authority.autonomous_actions
        policy_file.authority.human_only_actions refl;
  reversible = refl;
}

good_evidence-IsGrounded : IsGrounded policy_file stolen_session high_risk good_evidence
unfolding decimals
good_evidence-IsGrounded = record {
  probability_low = refl;
  probability_high = refl;
  traces = λ a h. ground arith;
  positive = λ a h. h;
  benign = λ a h. ground arith;
  poisoned = λ a h. ground arith;
}

verify-passed_iff_example :
    ((verify policy_file stolen_session high_risk good_evidence containment).passed ≡ true)
    ↔ IsEligible policy_file stolen_session high_risk good_evidence containment
verify-passed_iff_example =
    verify-passed_iff policy_file stolen_session high_risk good_evidence containment

verify-propose_example :
    (verify policy_file stolen_session high_risk good_evidence
      (propose policy_file stolen_session high_risk good_evidence)).passed
    ≡ true
verify-propose_example =
    verify-propose policy_file stolen_session high_risk good_evidence policy_file-IsWellConfigured
      good_evidence-IsGrounded

containment-acts :
    (propose policy_file stolen_session high_risk good_evidence).executable_actions ≢ []
unfolding decimals propose can_auto_contain is_automation_grade is_decision_grade severe
    containment_proposal lookup
containment-acts e = let no : false ≡ true = ap is_empty e in cc

propose-IsContainable_example :
    IsContainable policy_file stolen_session high_risk good_evidence
      (propose policy_file stolen_session high_risk good_evidence)
propose-IsContainable_example =
    propose-IsContainable policy_file stolen_session high_risk good_evidence
      policy_file-IsWellConfigured containment-acts

token-IsValidFor : IsValidFor services gate 1300000000 token "case-1" "force_step_up_auth"
unfolding issue_token sign decimals propose can_auto_contain is_automation_grade is_decision_grade
    severe containment_proposal lookup
token-IsValidFor = record {
  signed = refl;
  bound = refl;
  permitted = refl;
  expires = 1300000000;
  expiry = refl;
  in_time = omega arith;
}

validate_iff_example :
    (validate services gate 1300000000 token "case-1" "force_step_up_auth" ≡ ok tt)
    ↔ IsValidFor services gate 1300000000 token "case-1" "force_step_up_auth"
validate_iff_example = validate_iff services gate 1300000000 token "case-1" "force_step_up_auth"

token-issued :
    authorize services gate 1000000000 "uuid-1" stolen_session containment accepted
    ≡ ok (some token)
unfolding authorize decimals propose can_auto_contain is_automation_grade is_decision_grade severe
    containment_proposal lookup
token-issued = rw verify-propose_example refl

containment-permits : contains containment.executable_actions "force_step_up_auth" ≡ true
unfolding decimals propose can_auto_contain is_automation_grade is_decision_grade severe
    containment_proposal lookup
containment-permits = refl

validate-authorize_example :
    validate services gate 1299000000 token "case-1" "force_step_up_auth" ≡ ok tt
validate-authorize_example =
    validate-authorize services gate 1000000000 1299000000 "uuid-1" stolen_session containment
      accepted token "force_step_up_auth" refl token-issued containment-permits (omega arith)

token-signed : token.signature ≡ services.hmac_token gate.signing_key token.unsigned
unfolding issue_token sign
token-signed = refl

validate-unsigned_eq_example :
    (token.unsigned ≡ token.unsigned)
    × (token.unsigned.case_id ≡ "case-1")
    × (contains token.unsigned.permitted_actions "force_step_up_auth" ≡ true)
validate-unsigned_eq_example =
    validate-unsigned_eq services gate token token 1299000000 "case-1" "force_step_up_auth"
      (λ e. refl) token-signed refl validate-authorize_example

pub cases_ne : stolen_session.case_id ≢ "case-2"
cases_ne e = let no : false ≡ true = (eq_iff "case-1" "case-2").1 e in cc

apply-Faithful_example :
    Faithful services "case-2" target (apply services "case-2" "revoke_active_sessions" target)
apply-Faithful_example = apply-Faithful services "case-2" "revoke_active_sessions" target

verify-propose-assess_evidence_example :
    (verify policy_file injected high_risk summary
      (propose policy_file injected high_risk summary)).passed
    ≡ true
unfolding decimals
verify-propose-assess_evidence_example =
    verify-propose-assess_evidence decimal_math texts policy_file injected high_risk summary
      policy_file-IsWellConfigured summary-assessed refl refl (λ a h. ground arith)
