-- ===== src/Engine/Keeps.antt =====
-- A property of the engine that logging and the broker's calls keep is kept by a whole
-- transaction of engine.py, on every path, exceptions included.
use ai_decision_firewall.Prelude.{
  ℕ, String, List, [], ◌∷◌, Option, none, some, Result, ok, err, is_empty, Bool-cases, inl, inr,
}
use ai_decision_firewall.Prelude.Float.{FloatOps}
use ai_decision_firewall.Schemas.{IdentityCase, EvidenceAssessment, ModelAssessment}
use ai_decision_firewall.Policy.{DecisionProposal}
use ai_decision_firewall.Verifier.{VerificationResult}
use ai_decision_firewall.Actions.{
  Services, AuthorizationToken, AuthorizationGate, Fault, authorization, value_error, key_error,
  States, ActionResult, execute,
}
use ai_decision_firewall.Audit.{Body}
use ai_decision_firewall.Engine.{
  Payload, Decision, Stages, Reads, Engine, Progress, Ready, PostAction, EngineFault, log,
  record_action, run_actions, require_wiring, is_read_only, authorize_stage, action_stage, finalize,
  finalize_at, then_finalize, with_model, with_evidence, then_act, decide, process,
}

module _ {F : Type 0} (sha256_body : Body (Payload F) → String) (reads : Reads) (s : Services)
    (case : IdentityCase F) (P : Engine F → Type 0)
    (keep_log : (t : String) (p : Payload F) (e : Engine F) → P e → P (log sha256_body reads t p e))
    (keep_execute : (gate : AuthorizationGate F) (now : ℕ) (action : String)
        (token : AuthorizationToken) (e : Engine F)
      → P e
      → P (record e { states = (execute s gate now case action (some token) e.states).1 })) where
  record_action-keeps :
      (action : String) (p : Progress) (e : Engine F) (out : Result Fault ActionResult × States)
      → P (record e { states = out.1 })
      → P (record_action sha256_body reads case action p e out).1
  unfolding record_action
  record_action-keeps action p e (ok result, st) h = keep_log _ _ _ h
  record_action-keeps action p e (err (authorization message), st) h = keep_log _ _ _ h
  record_action-keeps action p e (err value_error, st) h = h
  record_action-keeps action p e (err key_error, st) h = h

  -- The loop goes on only from a round that did not raise.
  next-keeps :
      (r : Result EngineFault Progress) (e : Engine F)
      (k : Progress → Result EngineFault Progress × Engine F)
      → P e
      → ((p : Progress) → P (k p).1)
      → P
          (elim r as (λ _. Result EngineFault Progress × Engine F) [
            | err f ↦ (err f, e)
            | ok p' ↦ k p'
          ]).1
  next-keeps (ok p) e k h step = step p
  next-keeps (err f) e k h step = h

  run_actions-keeps :
      (gate : AuthorizationGate F) (token : AuthorizationToken) (actions : List String)
      (p : Progress) (e : Engine F)
      → P e
      → P (run_actions sha256_body reads s case gate token actions p e).1
  unfolding run_actions
  run_actions-keeps gate token [] p e h = h
  run_actions-keeps gate token (action ∷ actions) p e h =
      let out = execute s gate (reads.broker_now p.invocations) case action (some token) e.states in
      let step = record_action sha256_body reads case action p e out in
      let kept : P step.1 =
        record_action-keeps action p e out
          (keep_execute gate (reads.broker_now p.invocations) action token e h) in
      next-keeps step.0 step.1
        (λ p'. run_actions sha256_body reads s case gate token actions p' step.1) kept
        (λ p'. run_actions-keeps gate token actions p' step.1 kept)

  authorize_stage-keeps :
      (proposal : DecisionProposal F) (verification : VerificationResult F) (e : Engine F)
      → P e
      → P (authorize_stage sha256_body reads s case proposal verification e).1
  unfolding authorize_stage
  authorize_stage-keeps proposal verification e h =
      elim (Bool-cases (is_read_only e.execution_mode)) [
        | inl ro ↦ rw ro (keep_log _ _ _ h)
        | inr sim ↦ rw sim h
      ]

  action_stage-keeps :
      (ready : Ready F) (e : Engine F) → P e → P (action_stage sha256_body reads s case ready e).1
  unfolding action_stage
  action_stage-keeps ready e h = at_token ready.token
    where
      at_gate :
          (token : AuthorizationToken) (r : Result EngineFault (AuthorizationGate F))
          → P
              (elim r as (λ _. Result EngineFault Progress × Engine F) [
                | err f ↦ (err f, e)
                | ok gate ↦
                    run_actions sha256_body reads s case gate token
                      ready.proposal.executable_actions
                      (record { results = []; invocations = 0 })
                      e
              ]).1
      at_gate token (ok gate) = run_actions-keeps gate token ready.proposal.executable_actions _ e h
      at_gate token (err f) = h

      at_token :
          (t : Option AuthorizationToken)
          → P
              (elim t as (λ _. Result EngineFault Progress × Engine F) [
                | none ↦ (ok (record { results = []; invocations = 0 }), e)
                | some token ↦ elim (require_wiring sha256_body reads s e) [
                  | err f ↦ (err f, e)
                  | ok gate ↦
                      run_actions sha256_body reads s case gate token
                        ready.proposal.executable_actions
                        (record { results = []; invocations = 0 })
                        e
                ]
              ]).1
      at_token none = h
      at_token (some token) = at_gate token (require_wiring sha256_body reads s e)

  module _ ⦃o : FloatOps F⦄ (sha256_decision : Decision F → String) where
    module _ (original : DecisionProposal F) (evidence : EvidenceAssessment F)
        (model : ModelAssessment F) (verification : VerificationResult F) where
      finalize_at-keeps :
          (ready : Ready F) (p : Progress) (e : Engine F) (post : Option PostAction)
          → P e
          → P
              (finalize_at sha256_body reads s sha256_decision case original evidence model
                verification ready p e post).1
      unfolding finalize_at
      finalize_at-keeps ready p e none h = h
      finalize_at-keeps ready p e (some post) h = elim (Bool-cases (is_empty p.results)) [
        | inl none_run ↦ rw none_run (keep_log _ _ _ h)
        | inr some_run ↦ rw some_run (keep_log _ _ _ (keep_log _ _ _ h))
      ]

      then_finalize-keeps :
          (ready : Ready F) (out : Result EngineFault Progress × Engine F)
          → P out.1
          → P
              (then_finalize sha256_body reads s sha256_decision case original evidence model
                verification ready out).1
      unfolding finalize
      then_finalize-keeps ready (ok p, e) h = finalize_at-keeps ready p e _ h
      then_finalize-keeps ready (err f, e) h = h

      then_act-keeps :
          (out : Result EngineFault (Ready F) × Engine F)
          → P out.1
          → P
              (then_act sha256_body reads s sha256_decision case original evidence model
                verification out).1
      then_act-keeps (ok ready, e) h =
          then_finalize-keeps ready _ (action_stage-keeps ready _ (keep_log _ _ _ h))
      then_act-keeps (err f, e) h = h

    decide-keeps :
        (evidence : EvidenceAssessment F) (model : ModelAssessment F) (e : Engine F)
        → P e
        → P (decide sha256_body reads s sha256_decision case evidence model e).1
    unfolding decide
    decide-keeps evidence model e h =
        then_act-keeps _ evidence model _ _
          (authorize_stage-keeps _ _ _ (keep_log _ _ _ (keep_log _ _ _ h)))

    module _ (stages : Stages F) where
      with_model-keeps :
          (evidence : EvidenceAssessment F) (e : Engine F) (r : Result Fault (ModelAssessment F))
          → P e
          → P (with_model sha256_body reads s sha256_decision stages case evidence e r).1
      unfolding with_model
      with_model-keeps evidence e (ok model) h = decide-keeps evidence model _ (keep_log _ _ _ h)
      with_model-keeps evidence e (err f) h = h

      with_evidence-keeps :
          (e : Engine F) (r : Result Fault (EvidenceAssessment F))
          → P e
          → P (with_evidence sha256_body reads s sha256_decision stages case e r).1
      unfolding with_evidence
      with_evidence-keeps e (ok evidence) h = with_model-keeps evidence _ _ (keep_log _ _ _ h)
      with_evidence-keeps e (err f) h = h

      -- The whole transaction keeps the property, whether it returns or raises.
      pub process-keeps :
          (e : Engine F) → P e → P (process sha256_body reads s sha256_decision stages case e).1
      unfolding process
      process-keeps e h = with_evidence-keeps _ _ (keep_log _ _ _ h)
