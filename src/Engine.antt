-- ===== src/Engine.antt =====
-- src/adf_poc/engine.py and execution.py: one decision transaction, from the case to the finalized
-- decision record.
pub mod Log
pub mod Keeps
pub mod ReadOnly
pub mod Safety
pub mod Batch
use ai_decision_firewall.Prelude.{
  ℕ, suc, ◌+◌, String, Bool, true, false, not, ◌&&◌, List, [], ◌∷◌, ◌++◌, Option, none, some,
  Result, ok, err, is_empty, map, if◌then◌else◌,
}
use ai_decision_firewall.Prelude.Float.{FloatOps}
use ai_decision_firewall.Schemas.{
  Disposition, investigate, IdentityCase, EvidenceAssessment, ModelAssessment,
}
use ai_decision_firewall.Policy.{
  PolicyConfig, DecisionProposal, Rationale, verification_downgrade, propose,
}
use ai_decision_firewall.Verifier.{VerificationResult, verify, known_ids}
use ai_decision_firewall.Actions.{
  Services, AuthorizationToken, AuthorizationGate, Fault, authorization, value_error, key_error,
  States, ActionResult, PostCheck, authorize, execute, verify_results,
}
use ai_decision_firewall.Audit.{AuditLogger, Body, synced, append, empty_logger, memory}

-- execution.py `ExecutionMode`
pub data ExecutionMode : Type 0 where
  synthetic_simulation historical_replay shadow_read_only : ExecutionMode

-- `ExecutionMode.is_read_only`
unfoldable pub is_read_only : ExecutionMode → Bool
is_read_only synthetic_simulation = false
is_read_only historical_replay = true
is_read_only shadow_read_only = true

-- What `process` raises: the wiring is prohibited or incomplete, or a stage raised.
pub data EngineFault : Type 0 where
  wiring_prohibited wiring_incomplete : EngineFault
  stage : Fault → EngineFault

pub data PostStatus : Type 0 where
  not_applicable verified_status failed_status : PostStatus

pub record PostAction : Type 0 where
  pub applicable : Bool
  pub status : PostStatus
  pub passed : Option Bool
  pub checks : List PostCheck

-- The audit payloads of `process`, by record type.
pub data Payload (F : Type 0) : Type 0 where
  case_received : (case_id subject_id : String) → List String → Payload F
  evidence_assessed : String → EvidenceAssessment F → Payload F
  model_assessed : String → ModelAssessment F → Payload F
  -- the proposal, and in a read-only mode the counterfactual actions
  policy_proposed : String → DecisionProposal F → Option (List String) → Payload F
  independently_verified : String → VerificationResult F → Payload F
  execution_suppressed : String → ExecutionMode → List String → Payload F
  authorization_evaluated :
      String → ExecutionMode → (attempted : Bool) → Option AuthorizationToken → String → Payload F
  action_executed : String → ActionResult → Payload F
  action_rejected : String → ActionResult → Payload F
  post_action_verified : String → PostAction → Payload F
  decision_finalized : (case_id decision_id : String) → Disposition → String → Payload F

-- `execution_control`
pub record ExecutionControl : Type 0 where
  pub mode : ExecutionMode
  pub read_only : Bool
  pub authorization_attempted : Bool
  pub broker_invocations : ℕ
  pub operational_effects : ℕ

-- The decision record, without what it copies from the case, the policy and the clock.
pub record Decision (F : Type 0) : Type 0 where
  pub decision_id : String
  pub original_disposition : Disposition
  pub final_disposition : Disposition
  pub counterfactual_actions : List String
  pub evidence_assessment : EvidenceAssessment F
  pub model_assessment : ModelAssessment F
  pub proposal : DecisionProposal F
  pub independent_verification : VerificationResult F
  pub token : Option AuthorizationToken
  pub authorization_error : String
  pub action_results : List ActionResult
  pub post_action_verification : PostAction
  pub execution_control : ExecutionControl

-- The gate and the target exist only outside the read-only modes.
pub record Engine (F : Type 0) : Type 0 where
  pub policy_config : PolicyConfig F
  pub execution_mode : ExecutionMode
  pub audit : AuditLogger (Payload F)
  pub gate : Option (AuthorizationGate F)
  pub states : States

-- What one call reads from outside: new UUIDs, the clock at the authorization and at each broker
-- call, and the time text of each audit row, by its sequence number.
pub record Reads : Type 0 where
  pub token_uuid : String
  pub decision_uuid : String
  pub authorize_now : ℕ
  pub broker_now : ℕ → ℕ
  pub row_time : ℕ → String

-- The stages that come before the policy; each may raise.
pub record Stages (F : Type 0) : Type 0 where
  pub assess_evidence : IdentityCase F → Result Fault (EvidenceAssessment F)
  pub assess_model : IdentityCase F → Result Fault (ModelAssessment F)

module _ {F : Type 0} where
  -- `DecisionFirewallEngine.__init__`
  unfoldable pub new_engine :
      PolicyConfig F → ExecutionMode → AuditLogger (Payload F) → (signing_key : String) → Engine F
  new_engine config mode audit signing_key = record {
    policy_config = config;
    execution_mode = mode;
    audit = audit;
    gate =
        if is_read_only mode
        then none
        else some (record { config = config; signing_key = signing_key });
    states = [];
  }

  -- The fail-safe downgrade of a proposal that the verifier refused.
  unfoldable pub downgrade : DecisionProposal F → VerificationResult F → DecisionProposal F
  downgrade proposal verification =
      if not (is_empty proposal.executable_actions) && not verification.passed
      then record {
        disposition = investigate;
        executable_actions = [];
        recommended_human_actions = [];
        investigation_actions =
            "resolve_independent_verifier_failure" ∷ "collect_additional_evidence" ∷ [];
        rationale = proposal.rationale ++ verification_downgrade ∷ [];
        policy_rules_applied = proposal.policy_rules_applied ++ "FAIL-SAFE-VERIFIER-DOWNGRADE" ∷ [];
        evidence_event_ids = proposal.evidence_event_ids;
        required_authority = "read_only_automation";
        rollback_plan = [];
      }
      else proposal

  -- The proposal of a read-only mode, which executes nothing.
  unfoldable pub suppress : DecisionProposal F → DecisionProposal F
  suppress proposal = record proposal {
    executable_actions = [];
    required_authority = "read_only_observation";
    rollback_plan = [];
  }

-- The row of an action that the gate or the simulator rejected.
unfoldable pub rejected : String → String → ActionResult
rejected action message = record {
  action = action;
  success = false;
  state_before = none;
  state_after = none;
  message = message;
  rollback_reference = "none";
}

-- `sum(1 for result in action_results if result.get("success") is True)`
abbrev pub successes : List ActionResult → ℕ
successes [] = 0
successes (r ∷ rs) = if r.success then suc (successes rs) else successes rs

abbrev post_action_of : List ActionResult → Bool × List PostCheck → PostAction
post_action_of results (passed, checks) = record {
  applicable = not (is_empty results);
  status =
      if is_empty results
      then not_applicable
      else if passed
      then verified_status
      else failed_status;
  passed = some passed;
  checks = checks;
}

-- The post-action part of the record; `none` is the KeyError of an action with no expected state.
unfoldable pub post_action : ExecutionMode → List ActionResult → Option PostAction
post_action mode results =
    if is_read_only mode
    then some (record { applicable = false; status = not_applicable; passed = none; checks = [] })
    else elim (verify_results results) [ none ↦ none | some r ↦ some (post_action_of results r) ]

-- What the loop over the executable actions carries.
pub record Progress : Type 0 where
  pub results : List ActionResult
  pub invocations : ℕ

-- What the authorization leaves to the rest of the transaction.
pub record Ready (F : Type 0) : Type 0 where
  pub proposal : DecisionProposal F
  pub counterfactual_actions : List String
  pub token : Option AuthorizationToken
  pub authorization_error : String
  pub attempted : Bool

module _ {F : Type 0} (sha256_body : Body (Payload F) → String) (reads : Reads) where
  -- `self.audit.append(record_type, payload)`
  unfoldable pub log : String → Payload F → Engine F → Engine F
  unfolding append
  log record_type payload e = record e {
    audit =
        (append sha256_body e.audit synced (reads.row_time e.audit.sequence) record_type payload).1;
  }

  -- One round of the loop, at what the broker returned.
  unfoldable pub record_action :
      IdentityCase F
      → String
      → Progress
      → Engine F
      → Result Fault ActionResult × States
      → Result EngineFault Progress × Engine F
  record_action case action p e (ok result, states) = (
    ok (record { results = p.results ++ result ∷ []; invocations = p.invocations + 1 }),
    log "ACTION_EXECUTED" (action_executed case.case_id result) (record e { states = states }),
  )
  record_action case action p e (err (authorization message), states) = (
    ok (record {
      results = p.results ++ rejected action message ∷ [];
      invocations = p.invocations + 1;
    }),
    log "ACTION_REJECTED" (action_rejected case.case_id (rejected action message))
        (record e { states = states }),
  )
  record_action case action p e (err value_error, states) =
      (err (stage value_error), record e { states = states })
  record_action case action p e (err key_error, states) =
      (err (stage key_error), record e { states = states })

  module _ (s : Services) where
    -- The loop over the executable actions.
    unfoldable pub run_actions :
        IdentityCase F
        → AuthorizationGate F
        → AuthorizationToken
        → List String
        → Progress
        → Engine F
        → Result EngineFault Progress × Engine F
    run_actions case gate token [] p e = (ok p, e)
    run_actions case gate token (action ∷ actions) p e =
        let (r, e') =
          record_action case action p e
            (execute s gate (reads.broker_now p.invocations) case action (some token) e.states) in
        elim r [ err f ↦ (err f, e') | ok p' ↦ run_actions case gate token actions p' e' ]

    -- `_require_simulation_wiring`
    unfoldable pub require_wiring : Engine F → Result EngineFault (AuthorizationGate F)
    require_wiring e =
        if is_read_only e.execution_mode
        then err wiring_prohibited
        else elim e.gate [ none ↦ err wiring_incomplete | some gate ↦ ok gate ]

    abbrev authorized :
        DecisionProposal F → Result Fault (Option AuthorizationToken) → Result EngineFault (Ready F)
    authorized proposal (ok token) = ok (record {
      proposal = proposal;
      counterfactual_actions = [];
      token = token;
      authorization_error = "";
      attempted = true;
    })
    authorized proposal (err (authorization message)) = ok (record {
      proposal = proposal;
      counterfactual_actions = [];
      token = none;
      authorization_error = message;
      attempted = true;
    })
    authorized proposal (err value_error) = err (stage value_error)
    authorized proposal (err key_error) = err (stage key_error)

    abbrev pub authorize_at :
        IdentityCase F
        → DecisionProposal F
        → VerificationResult F
        → Result EngineFault (AuthorizationGate F)
        → Result EngineFault (Ready F)
    authorize_at case proposal verification (err f) = err f
    authorize_at case proposal verification (ok gate) =
        authorized proposal
          (authorize s gate reads.authorize_now reads.token_uuid case proposal verification)

    -- The branch on the execution mode: suppression, or the authorization.
    unfoldable pub authorize_stage :
        IdentityCase F
        → DecisionProposal F
        → VerificationResult F
        → Engine F
        → Result EngineFault (Ready F) × Engine F
    authorize_stage case proposal verification e =
        if is_read_only e.execution_mode
        then (
          ok (record {
            proposal = suppress proposal;
            counterfactual_actions = proposal.executable_actions;
            token = none;
            authorization_error = "";
            attempted = false;
          }),
          log "EXECUTION_SUPPRESSED"
              (execution_suppressed case.case_id e.execution_mode proposal.executable_actions) e,
        )
        else (authorize_at case proposal verification (require_wiring e), e)

    abbrev start : Progress
    start = record { results = []; invocations = 0 }

    -- The broker calls, if there is a token.
    unfoldable pub action_stage :
        IdentityCase F → Ready F → Engine F → Result EngineFault Progress × Engine F
    unfolding require_wiring
    action_stage case ready e = elim ready.token [
      | none ↦ (ok start, e)
      | some token ↦ elim (require_wiring e) [
        | err f ↦ (err f, e)
        | ok gate ↦ run_actions case gate token ready.proposal.executable_actions start e
      ]
    ]

    module _ ⦃o : FloatOps F⦄ (sha256_decision : Decision F → String) where
      unfoldable pub decision_of :
          DecisionProposal F
          → EvidenceAssessment F
          → ModelAssessment F
          → VerificationResult F
          → Ready F
          → Progress
          → PostAction
          → ExecutionMode
          → Decision F
      decision_of original evidence model verification ready p post mode = record {
        decision_id = reads.decision_uuid;
        original_disposition = original.disposition;
        final_disposition = ready.proposal.disposition;
        counterfactual_actions = ready.counterfactual_actions;
        evidence_assessment = evidence;
        model_assessment = model;
        proposal = ready.proposal;
        independent_verification = verification;
        token = ready.token;
        authorization_error = ready.authorization_error;
        action_results = p.results;
        post_action_verification = post;
        execution_control = record {
          mode = mode;
          read_only = is_read_only mode;
          authorization_attempted = ready.attempted;
          broker_invocations = p.invocations;
          operational_effects = if is_read_only mode then 0 else successes p.results;
        };
      }

      -- The end of the transaction, at the post-action part; `none` is the KeyError.
      unfoldable pub finalize_at :
          IdentityCase F
          → DecisionProposal F
          → EvidenceAssessment F
          → ModelAssessment F
          → VerificationResult F
          → Ready F
          → Progress
          → Engine F
          → Option PostAction
          → Result EngineFault (Decision F) × Engine F
      unfolding decision_of
      finalize_at case original evidence model verification ready p e none =
          (err (stage key_error), e)
      finalize_at case original evidence model verification ready p e (some post) =
          let d = decision_of original evidence model verification ready p post e.execution_mode in
          let e' =
            if is_empty p.results
            then e
            else log "POST_ACTION_VERIFIED" (post_action_verified case.case_id post) e in
          (
            ok d,
            log "DECISION_FINALIZED"
                (decision_finalized case.case_id d.decision_id d.final_disposition
                  (sha256_decision d))
                e',
          )

      -- From the results of the actions to the decision record.
      unfoldable pub finalize :
          IdentityCase F
          → DecisionProposal F
          → EvidenceAssessment F
          → ModelAssessment F
          → VerificationResult F
          → Ready F
          → Progress
          → Engine F
          → Result EngineFault (Decision F) × Engine F
      finalize case original evidence model verification ready p e =
          finalize_at case original evidence model verification ready p e
            (post_action e.execution_mode p.results)

      abbrev pub then_finalize :
          IdentityCase F
          → DecisionProposal F
          → EvidenceAssessment F
          → ModelAssessment F
          → VerificationResult F
          → Ready F
          → Result EngineFault Progress × Engine F
          → Result EngineFault (Decision F) × Engine F
      then_finalize case original evidence model verification ready (err f, e) = (err f, e)
      then_finalize case original evidence model verification ready (ok p, e) =
          finalize case original evidence model verification ready p e

      abbrev pub then_act :
          IdentityCase F
          → DecisionProposal F
          → EvidenceAssessment F
          → ModelAssessment F
          → VerificationResult F
          → Result EngineFault (Ready F) × Engine F
          → Result EngineFault (Decision F) × Engine F
      then_act case original evidence model verification (err f, e) = (err f, e)
      then_act case original evidence model verification (ok ready, e) =
          then_finalize case original evidence model verification ready (
            action_stage case ready (
              log "AUTHORIZATION_EVALUATED"
                (authorization_evaluated case.case_id e.execution_mode ready.attempted ready.token
                  ready.authorization_error)
                e))

      -- What the audit shows of the proposal: in a read-only mode its actions are counterfactual.
      unfoldable pub proposal_payload :
          IdentityCase F → ExecutionMode → DecisionProposal F → Payload F
      proposal_payload case mode proposal =
          if is_read_only mode
          then policy_proposed case.case_id (record proposal { executable_actions = [] })
              (some proposal.executable_actions)
          else policy_proposed case.case_id proposal none

      -- `process`, from the assessments on, under the policy of the engine.
      unfoldable pub decide_under :
          PolicyConfig F
          → IdentityCase F
          → EvidenceAssessment F
          → ModelAssessment F
          → Engine F
          → Result EngineFault (Decision F) × Engine F
      unfolding proposal_payload
      decide_under config case evidence model e =
          let original = propose config case model evidence in
          let e1 = log "POLICY_PROPOSED" (proposal_payload case e.execution_mode original) e in
          let verification = verify config case model evidence original in
          let e2 =
            log "INDEPENDENTLY_VERIFIED" (independently_verified case.case_id verification) e1 in
          then_act case original evidence model verification
            (authorize_stage case (downgrade original verification) verification e2)

      unfoldable pub decide :
          IdentityCase F
          → EvidenceAssessment F
          → ModelAssessment F
          → Engine F
          → Result EngineFault (Decision F) × Engine F
      unfolding decide_under
      decide case evidence model e = decide_under e.policy_config case evidence model e

      module _ (stages : Stages F) where
        unfoldable pub with_model :
            IdentityCase F
            → EvidenceAssessment F
            → Engine F
            → Result Fault (ModelAssessment F)
            → Result EngineFault (Decision F) × Engine F
        with_model case evidence e (err f) = (err (stage f), e)
        with_model case evidence e (ok model) =
            decide case evidence model (log "MODEL_ASSESSED" (model_assessed case.case_id model) e)

        unfoldable pub with_evidence :
            IdentityCase F
            → Engine F
            → Result Fault (EvidenceAssessment F)
            → Result EngineFault (Decision F) × Engine F
        unfolding with_model
        with_evidence case e (err f) = (err (stage f), e)
        with_evidence case e (ok evidence) =
            with_model case evidence
              (log "EVIDENCE_ASSESSED" (evidence_assessed case.case_id evidence) e)
              (stages.assess_model case)

        -- `DecisionFirewallEngine.process`
        unfoldable pub process :
            IdentityCase F → Engine F → Result EngineFault (Decision F) × Engine F
        unfolding with_evidence
        process case e =
            with_evidence case
              (log "CASE_RECEIVED" (case_received case.case_id case.subject_id (known_ids case)) e)
              (stages.assess_evidence case)
