-- ===== src/Engine/Safety.antt =====
-- What a transaction of engine.py may do to the target: nothing without an eligible proposal.
use ai_decision_firewall.Prelude.{
  String, string_eq, ◌≡◌, ◌≢◌, refl, ◌∙◌, false, [], Option, none, some, Result, ok, err, arith,
  Bool-cases, inl, inr,
}
use ai_decision_firewall.Prelude.Float.{FloatOps}
use ai_decision_firewall.Schemas.{IdentityCase, EvidenceAssessment, ModelAssessment}
use ai_decision_firewall.Policy.{PolicyConfig, DecisionProposal, propose}
use ai_decision_firewall.Verifier.{VerificationResult, verify}
use ai_decision_firewall.Verifier.Eligible.{IsEligible, verify-passed_iff}
use ai_decision_firewall.Actions.{Services, AuthorizationGate, authorize}
use ai_decision_firewall.Audit.{Body}
use ai_decision_firewall.Engine.{
  Payload, Decision, Stages, Reads, Engine, EngineFault, Progress, Ready, PostAction, is_read_only,
  authorize_at, require_wiring, authorize_stage, action_stage, finalize, finalize_at, decision_of,
  then_act, then_finalize, decide, decide_under, with_model, with_evidence, process, downgrade,
  suppress, log,
}
use ai_decision_firewall.Engine.Log.{states-log}

module _ {F : Type 0} where
  -- What the verifier refused executes nothing any more.
  downgrade-refused :
      (p : DecisionProposal F) (v : VerificationResult F)
      → v.passed ≡ false
      → (downgrade p v).executable_actions ≡ []
  unfolding downgrade
  downgrade-refused p v h = ground arith

module _ {F : Type 0} (sha256_body : Body (Payload F) → String) (reads : Reads) (s : Services)
    ⦃o : FloatOps F⦄ (sha256_decision : Decision F → String) (case : IdentityCase F) where
  -- No authorization was issued, nothing was brokered, and the target is as it was.
  pub record HasRefrained (e : Engine F) (d : Decision F) (e' : Engine F) : Type 0 where
    pub no_token : d.token ≡ none
    pub no_result : d.action_results ≡ []
    pub no_invocation : d.execution_control.broker_invocations ≡ 0
    pub not_executable : d.proposal.executable_actions ≡ []
    pub same_states : e'.states ≡ e.states

  abbrev pub Refrains : Engine F → Result EngineFault (Decision F) × Engine F → Type 0
  Refrains e (ok d, e') = HasRefrained e d e'
  Refrains e (err _, e') = e'.states ≡ e.states

  Refrains-same :
      (e : Engine F) (out : Result EngineFault (Decision F) × Engine F)
      → Refrains e out
      → out.1.states ≡ e.states
  Refrains-same e (ok d, e') r = r.same_states
  Refrains-same e (err f, e') r = r

  abbrev IsIdle : Engine F → Result EngineFault (Ready F) × Engine F → Type 0
  IsIdle e (ok ready, e') =
      (ready.token ≡ none) × (ready.proposal.executable_actions ≡ []) × (e'.states ≡ e.states)
  IsIdle e (err _, e') = e'.states ≡ e.states

  authorize-idle :
      (gate : AuthorizationGate F) (p : DecisionProposal F) (v : VerificationResult F)
      → p.executable_actions ≡ []
      → authorize s gate reads.authorize_now reads.token_uuid case p v ≡ ok none
  unfolding authorize
  authorize-idle gate p v h = rw h

  authorize_at-IsIdle :
      (p : DecisionProposal F) (v : VerificationResult F) (e e' : Engine F)
      → p.executable_actions ≡ []
      → e'.states ≡ e.states
      → (w : Result EngineFault (AuthorizationGate F))
      → IsIdle e (authorize_at sha256_body reads s case p v w, e')
  authorize_at-IsIdle p v e e' idle st (err f) = st
  authorize_at-IsIdle p v e e' idle st (ok gate) =
      rw (authorize-idle gate p v idle) (refl, idle, st)

  authorize_stage-IsIdle :
      (p : DecisionProposal F) (v : VerificationResult F) (e e' : Engine F)
      → p.executable_actions ≡ []
      → e'.states ≡ e.states
      → IsIdle e (authorize_stage sha256_body reads s case p v e')
  unfolding authorize_stage suppress
  authorize_stage-IsIdle p v e e' idle st = elim (Bool-cases (is_read_only e'.execution_mode)) [
    | inl ro ↦ rw ro (refl, refl, states-log sha256_body reads _ _ e' ∙ st)
    | inr sim ↦
        rw sim (authorize_at-IsIdle p v e e' idle st (require_wiring sha256_body reads s e'))
  ]

  action_stage-idle :
      (ready : Ready F) (e : Engine F)
      → ready.token ≡ none
      → action_stage sha256_body reads s case ready e
        ≡ (ok (record { results = []; invocations = 0 }), e)
  unfolding action_stage
  action_stage-idle ready e h = rw h

  finalize_at-Refrains :
      (original : DecisionProposal F) (evidence : EvidenceAssessment F) (model : ModelAssessment F)
      (v : VerificationResult F) (ready : Ready F) (e e' : Engine F) (post : Option PostAction)
      → ready.token ≡ none
      → ready.proposal.executable_actions ≡ []
      → e'.states ≡ e.states
      → Refrains e (
          finalize_at sha256_body reads s sha256_decision case original evidence model v ready
            (record { results = []; invocations = 0 })
            e'
            post)
  unfolding finalize_at decision_of
  finalize_at-Refrains original evidence model v ready e e' none tok idle st = st
  finalize_at-Refrains original evidence model v ready e e' (some post) tok idle st = record {
    no_token = tok;
    no_result = refl;
    no_invocation = refl;
    not_executable = idle;
    same_states = states-log sha256_body reads _ _ e' ∙ st;
  }

  module _ (original : DecisionProposal F) (evidence : EvidenceAssessment F)
      (model : ModelAssessment F) (v : VerificationResult F) (e : Engine F) where
    then_finalize-Refrains :
        (ready : Ready F) (e' : Engine F) (out : Result EngineFault Progress × Engine F)
        → out ≡ (ok (record { results = []; invocations = 0 }), e')
        → ready.token ≡ none
        → ready.proposal.executable_actions ≡ []
        → e'.states ≡ e.states
        → Refrains e (
            then_finalize sha256_body reads s sha256_decision case original evidence model v ready
              out)
    unfolding finalize
    then_finalize-Refrains ready e' out same tok idle st =
        rw same (finalize_at-Refrains original evidence model v ready e e' _ tok idle st)

    then_act-Refrains :
        (out : Result EngineFault (Ready F) × Engine F)
        → IsIdle e out
        → Refrains e
            (then_act sha256_body reads s sha256_decision case original evidence model v out)
    then_act-Refrains (err f, e') st = st
    then_act-Refrains (ok ready, e') (tok, idle, st) =
        then_finalize-Refrains ready _ _ (action_stage-idle ready _ tok) tok idle
          (states-log sha256_body reads _ _ e' ∙ st)

  decide_under-Refrains :
      (evidence : EvidenceAssessment F) (model : ModelAssessment F) (e e' : Engine F)
      → e'.states ≡ e.states
      → (config : PolicyConfig F)
      → (verify config case model evidence (propose config case model evidence)).passed ≡ false
      → Refrains e (decide_under sha256_body reads s sha256_decision config case evidence model e')
  unfolding decide_under
  decide_under-Refrains evidence model e e' st config refused =
      then_act-Refrains _ evidence model _ e _ (
        authorize_stage-IsIdle _ _ e _
          (downgrade-refused (propose config case model evidence)
            (verify config case model evidence (propose config case model evidence)) refused)
          (states-log sha256_body reads _ _ _ ∙ (states-log sha256_body reads _ _ e' ∙ st)))

  module _ (stages : Stages F) (e : Engine F) (evidence : EvidenceAssessment F)
      (model : ModelAssessment F) (assessed : stages.assess_evidence case ≡ ok evidence)
      (estimated : stages.assess_model case ≡ ok model) where
    -- A transaction whose proposal the verifier refuses issues no authorization, calls the broker
    -- for nothing, executes nothing and leaves the target as it was; if it raises, it leaves the
    -- target as it was too.
    pub process-Refrains :
        (verify e.policy_config case model evidence
            (propose e.policy_config case model evidence)).passed
          ≡ false
        → Refrains e (process sha256_body reads s sha256_decision stages case e)
    unfolding process with_evidence with_model decide log
    process-Refrains refused =
        rw (assessed, estimated)
          (decide_under-Refrains evidence model e _ refl e.policy_config refused)

    -- The target changes only for a proposal that keeps every limit: if a transaction, whether it
    -- returns or raises, leaves other states than it found, the proposal of the policy engine was
    -- eligible.
    pub process-IsEligible :
        (process sha256_body reads s sha256_decision stages case e).1.states ≢ e.states
        → IsEligible e.policy_config case model evidence
            (propose e.policy_config case model evidence)
    process-IsEligible changed =
        let p = propose e.policy_config case model evidence in
        elim (Bool-cases (verify e.policy_config case model evidence p).passed) [
          | inl accepted ↦ (verify-passed_iff e.policy_config case model evidence p).0 accepted
          | inr refused ↦ absurd (changed (Refrains-same e _ (process-Refrains refused)))
        ]
