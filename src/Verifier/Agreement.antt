-- ===== src/Verifier/Agreement.antt =====
-- The policy engine and the verifier agree: under a policy file that is set up soundly, the
-- verifier accepts whatever the engine proposes, so an honest proposal is never downgraded.
use ai_decision_firewall.Prelude.{
  String, ◌≡◌, ◌≢◌, refl, sym, ◌∙◌, ◌⊎◌, inl, inr, true, false, ◌&&◌, List, [], ◌++◌, arith, all_of,
  contains-append, contains-sorted_set, string_eq, IsWithin, IsDisjoint,
}
use ai_decision_firewall.Prelude.Float.{FloatOps}
use ai_decision_firewall.Schemas.{
  Disposition, contain_reversible, no_action, investigate, escalate_human, IdentityCase,
  EvidenceAssessment, ModelAssessment,
}
use ai_decision_firewall.Policy.{
  PolicyConfig, DecisionProposal, propose, cited_ids, rollback_instructions, containment_proposal,
  can_auto_contain, is_automation_grade, is_decision_grade, investigate_proposal,
  break_glass_proposal, no_action_proposal, human_escalation_proposal,
}
use ai_decision_firewall.Verifier.{known_ids, traced_ids, has_key, verify}
use ai_decision_firewall.Verifier.Eligible.{IsContainable, IsEligible, verify-passed_iff}

contain_or_not : (d : Disposition) → (d ≡ contain_reversible) ⊎ (d ≢ contain_reversible)
contain_or_not contain_reversible = inl refl
contain_or_not no_action = inr (λ e. cc)
contain_or_not investigate = inr (λ e. cc)
contain_or_not escalate_human = inr (λ e. cc)

-- The safety switches are on, and the automated actions are present, allowed and reversible.
pub record IsWellConfigured {F : Type 0} (config : PolicyConfig F) : Type 0 where
  pub poison_blocks : config.safety.poisoned_evidence_blocks_automation ≡ true
  pub break_glass_blocks : config.authority.break_glass_requires_human ≡ true
  pub present : config.authority.autonomous_actions ≢ []
  pub apart : IsDisjoint config.authority.autonomous_actions config.authority.human_only_actions
  pub reversible : all_of (has_key rollback_instructions) config.authority.autonomous_actions ≡ true

cited_ids-IsWithin :
    {F : Type 0} (known : List String) (evidence : EvidenceAssessment F)
    → IsWithin evidence.positive_event_ids known
    → IsWithin evidence.benign_event_ids known
    → IsWithin evidence.poisoned_event_ids known
    → IsWithin (cited_ids evidence) known
unfolding cited_ids
cited_ids-IsWithin known evidence p b q a h =
    let ids = evidence.benign_event_ids ++ evidence.poisoned_event_ids in
    ground (
      arith,
      p a,
      b a,
      q a,
      contains-sorted_set (evidence.positive_event_ids ++ ids) a,
      contains-append evidence.positive_event_ids ids a,
      contains-append evidence.benign_event_ids evidence.poisoned_event_ids a,
    )

module _ {F : Type 0} ⦃o : FloatOps F⦄ (config : PolicyConfig F) (case : IdentityCase F)
    (model : ModelAssessment F) (evidence : EvidenceAssessment F) where
  -- The estimate is a probability, and whatever is cited or traced is an event of the case.
  pub record IsGrounded : Type 0 where
    pub probability_low : o.le (o.lit 0 0) model.compromise_probability ≡ true
    pub probability_high : o.le model.compromise_probability (o.lit 1 0) ≡ true
    pub traces : IsWithin (traced_ids model.feature_trace) (known_ids case)
    pub positive : IsWithin evidence.positive_event_ids (known_ids case)
    pub benign : IsWithin evidence.benign_event_ids (known_ids case)
    pub poisoned : IsWithin evidence.poisoned_event_ids (known_ids case)

  -- What a containment proposal of the engine rests on.
  record IsContained (p : DecisionProposal F) : Type 0 where
    actions : p.executable_actions ≡ config.authority.autonomous_actions
    plan : p.rollback_plan ≡ rollback_instructions
    clean :
        (evidence.poisoned_evidence && config.safety.poisoned_evidence_blocks_automation) ≡ false
    ordinary : (case.break_glass && config.authority.break_glass_requires_human) ≡ false
    grade : can_auto_contain config case model evidence ≡ true

  -- What each proposal of the engine has, whatever branch it comes from.
  record IsProposed (p : DecisionProposal F) : Type 0 where
    cites : p.evidence_event_ids ≡ cited_ids evidence
    idle : p.disposition ≢ contain_reversible → p.executable_actions ≡ []
    contained : p.disposition ≡ contain_reversible → IsContained p

  propose-IsProposed : IsProposed (propose config case model evidence)
  unfolding propose investigate_proposal break_glass_proposal no_action_proposal
      containment_proposal human_escalation_proposal
  propose-IsProposed = record {
    cites = ground arith;
    idle = λ e. ground arith;
    contained = λ e. record {
      actions = ground arith;
      plan = ground arith;
      clean = ground arith;
      ordinary = ground arith;
      grade = ground arith;
    };
  }

  module _ (wc : IsWellConfigured config) (p : DecisionProposal F) (made : IsProposed p) where
    contained-IsContainable : IsContained p → IsContainable config case model evidence p
    unfolding can_auto_contain is_automation_grade is_decision_grade
    contained-IsContainable c = record {
      risk = ground (arith, c.grade);
      quality = ground (arith, c.grade);
      provenance = ground (arith, c.grade);
      integrity = ground (arith, c.grade);
      corroboration = ground (arith, c.grade);
      conflicts = ground (arith, c.grade);
      not_poisoned = ground (arith, c.clean, wc.poison_blocks);
      not_break_glass = ground (arith, c.ordinary, wc.break_glass_blocks);
      asset = ground (arith, c.grade);
      rollback = rw (c.plan, c.actions) wc.reversible;
      present = λ e. wc.present (sym c.actions ∙ e);
    }

    actions_apart : IsDisjoint p.executable_actions config.authority.human_only_actions
    actions_apart = elim (contain_or_not p.disposition) [
      | inl e ↦ rw (made.contained e).actions wc.apart
      | inr n ↦ rw (made.idle n) (λ a h. cc)
    ]

    actions_allowed : IsWithin p.executable_actions config.authority.autonomous_actions
    actions_allowed = elim (contain_or_not p.disposition) [
      | inl e ↦ rw (made.contained e).actions (λ a h. h)
      | inr n ↦ rw (made.idle n) (λ a h. cc)
    ]

    proposed-IsEligible : IsGrounded → IsEligible config case model evidence p
    proposed-IsEligible g = record {
      traceable = record {
        probability_low = g.probability_low;
        probability_high = g.probability_high;
        citations =
            rw made.cites
              (cited_ids-IsWithin (known_ids case) evidence g.positive g.benign g.poisoned);
        traces = g.traces;
        no_human_only = actions_apart;
        allowlisted = actions_allowed;
      };
      containment = λ e. contained-IsContainable (made.contained e);
      otherwise = made.idle;
    }

  -- Under a sound policy file, for a case whose assessments cite only its own events and whose
  -- estimate lies between 0 and 1, the verifier accepts what the policy engine proposes.
  pub verify-propose :
      IsWellConfigured config
      → IsGrounded
      → (verify config case model evidence (propose config case model evidence)).passed ≡ true
  verify-propose wc g =
      (verify-passed_iff config case model evidence (propose config case model evidence)).1
        (proposed-IsEligible wc (propose config case model evidence) propose-IsProposed g)

  -- Under a sound policy file, a proposal of the policy engine that executes anything keeps every
  -- limit of automated containment, whatever the assessments say.
  pub propose-IsContainable :
      IsWellConfigured config
      → (propose config case model evidence).executable_actions ≢ []
      → IsContainable config case model evidence (propose config case model evidence)
  propose-IsContainable wc acts =
      elim (contain_or_not (propose config case model evidence).disposition) [
        | inl e ↦
            contained-IsContainable wc (propose config case model evidence) propose-IsProposed
              (propose-IsProposed.contained e)
        | inr n ↦ absurd (acts (propose-IsProposed.idle n))
      ]
