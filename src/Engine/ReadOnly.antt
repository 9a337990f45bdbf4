-- ===== src/Engine/ReadOnly.antt =====
-- The read-only modes of engine.py: historical replay and shadow processing observe only.
use ai_decision_firewall.Prelude.{
  String, ◌≡◌, refl, ap, sym, subst, ◌∙◌, true, false, List, [], ◌∷◌, none, some, Result, ok, err,
}
use ai_decision_firewall.Prelude.Float.{FloatOps}
use ai_decision_firewall.Schemas.{IdentityCase, EvidenceAssessment, ModelAssessment}
use ai_decision_firewall.Actions.{Services, Fault}
use ai_decision_firewall.Audit.{Body, Row}
use ai_decision_firewall.Policy.{PolicyConfig, DecisionProposal, propose}
use ai_decision_firewall.Verifier.{VerificationResult, verify}
use ai_decision_firewall.Engine.{
  Payload, Decision, Stages, Reads, Engine, EngineFault, execution_suppressed, log, is_read_only,
  authorize_stage, action_stage, finalize, finalize_at, decision_of, decide, decide_under,
  with_model, with_evidence, process, post_action, downgrade, suppress, ExecutionMode, then_act,
  PostAction, not_applicable, Ready,
}
use ai_decision_firewall.Engine.Log.{mode-log, states-log, config-log}

abbrev pub record_types : {P : Type 0} → List (Row P) → List String
record_types [] = []
record_types (row ∷ rows) = row.record_type ∷ record_types rows

module _ {F : Type 0} (sha256_body : Body (Payload F) → String) (reads : Reads) (s : Services)
    ⦃o : FloatOps F⦄ (sha256_decision : Decision F → String) (case : IdentityCase F) where
  -- A decision that did nothing: no authorization was tried, and no action was brokered. What
  -- would have been done is listed as counterfactual.
  pub record IsObservation (e : Engine F) (d : Decision F) : Type 0 where
    pub no_token : d.token ≡ none
    pub not_attempted : d.execution_control.authorization_attempted ≡ false
    pub no_invocation : d.execution_control.broker_invocations ≡ 0
    pub no_effect : d.execution_control.operational_effects ≡ 0
    pub no_result : d.action_results ≡ []
    pub not_executable : d.proposal.executable_actions ≡ []
    pub counterfactual :
        let original = propose e.policy_config case d.model_assessment d.evidence_assessment in
        d.counterfactual_actions
        ≡ (downgrade original (
            verify e.policy_config case d.model_assessment d.evidence_assessment
              original)).executable_actions

  abbrev quiet_post : PostAction
  quiet_post = record { applicable = false; status = not_applicable; passed = none; checks = [] }

  -- What a read-only mode makes of the proposal that the verifier left.
  abbrev observed : Engine F → EvidenceAssessment F → ModelAssessment F → Ready F
  observed e evidence model =
      let original = propose e.policy_config case model evidence in
      let final = downgrade original (verify e.policy_config case model evidence original) in
      record {
        proposal = suppress final;
        counterfactual_actions = final.executable_actions;
        token = none;
        authorization_error = "";
        attempted = false;
      }

  abbrev pub Observes : Engine F → Result EngineFault (Decision F) × Engine F → Type 0
  Observes e (ok d, e') = IsObservation e d × (e'.states ≡ e.states)
  Observes e (err _, e') = e'.states ≡ e.states

  finalize_at-Observes :
      (evidence : EvidenceAssessment F) (model : ModelAssessment F) (e e' : Engine F)
      → is_read_only e.execution_mode ≡ true
      → e'.execution_mode ≡ e.execution_mode
      → e'.states ≡ e.states
      → Observes e (
          finalize_at sha256_body reads s sha256_decision case
            (propose e.policy_config case model evidence)
            evidence
            model
            (verify e.policy_config case model evidence
              (propose e.policy_config case model evidence))
            (observed e evidence model)
            (record { results = []; invocations = 0 })
            e'
            (some quiet_post))
  unfolding finalize_at decision_of log suppress
  finalize_at-Observes evidence model e e' ro mode states = (
    record {
      no_token = refl;
      not_attempted = refl;
      no_invocation = refl;
      no_effect = rw (mode, ro);
      no_result = refl;
      not_executable = refl;
      counterfactual = refl;
    },
    states,
  )

  post_action-quiet :
      (mode : ExecutionMode) → is_read_only mode ≡ true → post_action mode [] ≡ some quiet_post
  unfolding post_action
  post_action-quiet mode ro = rw ro

  module _ (evidence : EvidenceAssessment F) (model : ModelAssessment F) (e : Engine F)
      (ro : is_read_only e.execution_mode ≡ true) where
    abbrev original : DecisionProposal F
    original = propose e.policy_config case model evidence

    abbrev verification : VerificationResult F
    verification = verify e.policy_config case model evidence original

    finalize-Observes :
        (e' : Engine F)
        → e'.execution_mode ≡ e.execution_mode
        → e'.states ≡ e.states
        → Observes e (
            finalize sha256_body reads s sha256_decision case original evidence model verification
              (observed e evidence model)
              (record { results = []; invocations = 0 })
              e')
    unfolding finalize
    finalize-Observes e' mode states =
        rw (post_action-quiet e'.execution_mode (ap is_read_only mode ∙ ro))
          (finalize_at-Observes evidence model e e' ro mode states)

    then_act-Observes :
        (e' : Engine F)
        → e'.execution_mode ≡ e.execution_mode
        → e'.states ≡ e.states
        → Observes e (
            then_act sha256_body reads s sha256_decision case original evidence model verification
              (ok (observed e evidence model), e'))
    unfolding action_stage
    then_act-Observes e' mode states =
        finalize-Observes _ (mode-log sha256_body reads _ _ e' ∙ mode)
          (states-log sha256_body reads _ _ e' ∙ states)

    authorize_stage-observed :
        (e' : Engine F)
        → is_read_only e'.execution_mode ≡ true
        → authorize_stage sha256_body reads s case (downgrade original verification) verification e'
          ≡ (
            ok (observed e evidence model),
            log sha256_body reads "EXECUTION_SUPPRESSED"
                (execution_suppressed case.case_id e'.execution_mode
                  (downgrade original verification).executable_actions)
                e',
          )
    unfolding authorize_stage
    authorize_stage-observed e' ro' = rw ro'

    decide-Observes :
        (e' : Engine F)
        → e'.execution_mode ≡ e.execution_mode
        → e'.states ≡ e.states
        → Observes e (
            then_act sha256_body reads s sha256_decision case original evidence model verification (
              authorize_stage sha256_body reads s case
                (downgrade original verification)
                verification
                e'))
    decide-Observes e' mode states = rw (authorize_stage-observed e' (ap is_read_only mode ∙ ro)) (
        then_act-Observes _ (mode-log sha256_body reads _ _ e' ∙ mode)
          (states-log sha256_body reads _ _ e' ∙ states))

  module _ (stages : Stages F) (e : Engine F) (ro : is_read_only e.execution_mode ≡ true) where
    -- The engine with other audit rows.
    abbrev SameBut : Engine F → Type 0
    SameBut e' =
        (e'.execution_mode ≡ e.execution_mode)
        × (e'.states ≡ e.states)
        × (e'.policy_config ≡ e.policy_config)

    log-SameBut :
        (t : String) (p : Payload F) (e' : Engine F)
        → SameBut e'
        → SameBut (log sha256_body reads t p e')
    log-SameBut t p e' (m, st, c) = (
      mode-log sha256_body reads t p e' ∙ m,
      states-log sha256_body reads t p e' ∙ st,
      config-log sha256_body reads t p e' ∙ c,
    )

    decide_from-Observes :
        (evidence : EvidenceAssessment F) (model : ModelAssessment F) (e' : Engine F)
        → SameBut e'
        → Observes e (decide sha256_body reads s sha256_decision case evidence model e')
    unfolding decide
    decide_from-Observes evidence model e' same =
        let (m1, s1, _) = log-SameBut _ _ _ (log-SameBut _ _ e' same) in
        subst
          (λ (c : PolicyConfig F).
            Observes e (decide_under sha256_body reads s sha256_decision c case evidence model e'))
          (sym same.2) (decide-Observes evidence model e ro _ m1 s1)

    with_model-Observes :
        (evidence : EvidenceAssessment F) (e' : Engine F) (r : Result Fault (ModelAssessment F))
        → SameBut e'
        → Observes e (with_model sha256_body reads s sha256_decision stages case evidence e' r)
    unfolding with_model
    with_model-Observes evidence e' (ok model) same =
        decide_from-Observes evidence model _ (log-SameBut _ _ e' same)
    with_model-Observes evidence e' (err f) same = same.1

    with_evidence-Observes :
        (e' : Engine F) (r : Result Fault (EvidenceAssessment F))
        → SameBut e'
        → Observes e (with_evidence sha256_body reads s sha256_decision stages case e' r)
    unfolding with_evidence
    with_evidence-Observes e' (ok evidence) same =
        with_model-Observes evidence _ _ (log-SameBut _ _ e' same)
    with_evidence-Observes e' (err f) same = same.1

    -- In a read-only mode a transaction leaves the target as it was, on every path. If it returns,
    -- nothing was authorized, brokered or effected, the proposal executes nothing, and the actions
    -- that the verified proposal would have executed are listed as counterfactual.
    pub process-Observes : Observes e (process sha256_body reads s sha256_decision stages case e)
    unfolding process
    process-Observes = with_evidence-Observes _ _ (log-SameBut _ _ e (refl, refl, refl))
