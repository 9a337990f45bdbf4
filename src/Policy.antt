-- ===== src/Policy.antt =====
-- src/adf_poc/policy.py: the deterministic policy that turns a risk estimate and an evidence
-- assessment into a proposal.
use ai_decision_firewall.Prelude.{
  ℕ, String, Bool, false, not, ◌&&◌, ◌||◌, List, [], ◌∷◌, ◌++◌, map, Dict, lookup, string_eq, none,
  some, leb, length, sorted_set, if◌then◌else◌,
}
use ai_decision_firewall.Prelude.Float.{FloatOps}
use ai_decision_firewall.Schemas.{
  Disposition, no_action, investigate, contain_reversible, escalate_human, IdentityCase,
  EvidenceAssessment, ModelAssessment,
}

-- `thresholds`, `evidence`, `authority` and `safety`, with the keys that the program reads.
pub record Thresholds (F : Type 0) : Type 0 where
  pub no_action_max_probability : F
  pub human_escalation_min_probability : F
  pub autonomous_containment_min_probability : F

pub record EvidenceLimits (F : Type 0) : Type 0 where
  pub minimum_quality : F
  pub minimum_provenance_ratio : F
  pub minimum_integrity_verified_ratio : F
  pub minimum_independent_supporting_sources : ℕ
  pub maximum_missing_expected_sources_for_decision : ℕ
  pub maximum_conflicts_for_automation : ℕ

pub record Authority (F : Type 0) : Type 0 where
  pub maximum_asset_criticality_for_automation : F
  pub break_glass_requires_human : Bool
  pub autonomous_actions : List String
  pub human_only_actions : List String

pub record Safety : Type 0 where
  pub poisoned_evidence_blocks_automation : Bool
  pub authorization_token_ttl_seconds : ℕ

pub record PolicyConfig (F : Type 0) : Type 0 where
  pub policy_id : String
  pub version : String
  pub thresholds : Thresholds F
  pub evidence : EvidenceLimits F
  pub authority : Authority F
  pub safety : Safety

-- A line of the rationale. The texts with numbers in them are constructors that hold the numbers.
pub data Rationale (F : Type 0) : Type 0 where
  poison_prohibits_action : Rationale F
  break_glass_identity : Rationale F
  evidence_reason : String → Rationale F
  firewall_abstains : Rationale F
  below_no_action_threshold : F → Rationale F
  containment_satisfied : F → F → F → Rationale F
  asset_criticality_exceeded : Rationale F
  human_authority_required : F → Rationale F
  uncertain_probability : F → Rationale F
  verification_downgrade : Rationale F

pub record DecisionProposal (F : Type 0) : Type 0 where
  pub disposition : Disposition
  pub executable_actions : List String
  pub recommended_human_actions : List String
  pub investigation_actions : List String
  pub rationale : List (Rationale F)
  pub policy_rules_applied : List String
  pub evidence_event_ids : List String
  pub required_authority : String
  pub rollback_plan : Dict String String

abbrev pub rollback_instructions : Dict String String
rollback_instructions =
    (
      "revoke_active_sessions",
      "restore only through normal reauthentication; no session token is reinstated",
    )
    ∷ ("force_step_up_auth", "remove temporary step-up requirement after analyst review")
    ∷ ("increase_monitoring", "return telemetry policy to baseline after closure")
    ∷ []

abbrev pub severe_features : List String
severe_features = "credential_dumping" ∷ "lateral_movement" ∷ "token_reuse" ∷ "oauth_grant" ∷ []

module _ {F : Type 0} where
  -- `_investigate`
  unfoldable pub investigate_proposal :
      List (Rationale F) → List String → List String → DecisionProposal F
  investigate_proposal rationale rules evidence_ids = record {
    disposition = investigate;
    executable_actions = [];
    recommended_human_actions = [];
    investigation_actions =
        "query_identity_history" ∷ "query_endpoint_telemetry" ∷ "validate_change_and_travel_context"
        ∷ [];
    rationale = rationale;
    policy_rules_applied = rules;
    evidence_event_ids = evidence_ids;
    required_authority = "read_only_automation";
    rollback_plan = [];
  }

  -- The identifiers that a proposal cites.
  unfoldable pub cited_ids : EvidenceAssessment F → List String
  cited_ids evidence =
      sorted_set
        (evidence.positive_event_ids ++ (evidence.benign_event_ids ++ evidence.poisoned_event_ids))

module _ {F : Type 0} ⦃o : FloatOps F⦄ where
  -- `model.feature_values.get(name, 0.0) >= 1.0`
  abbrev severe_feature : ModelAssessment F → String → Bool
  severe_feature model name = elim (lookup name model.feature_values) [
    | none ↦ o.le (o.lit 1 0) (o.lit 0 0)
    | some v ↦ o.le (o.lit 1 0) v
  ]

  abbrev any_severe : ModelAssessment F → List String → Bool
  any_severe model [] = false
  any_severe model (name ∷ names) = severe_feature model name || any_severe model names

  unfoldable pub severe : ModelAssessment F → Bool
  severe model = any_severe model severe_features

  unfoldable pub is_decision_grade : PolicyConfig F → EvidenceAssessment F → Bool
  is_decision_grade config evidence =
      o.le config.evidence.minimum_quality evidence.evidence_quality
      && o.le config.evidence.minimum_provenance_ratio evidence.provenance_valid_ratio
      && o.le config.evidence.minimum_integrity_verified_ratio evidence.integrity_verified_ratio
      && leb evidence.conflict_count config.evidence.maximum_conflicts_for_automation
      && leb (length evidence.missing_expected_sources)
          config.evidence.maximum_missing_expected_sources_for_decision
      && not (config.safety.poisoned_evidence_blocks_automation && evidence.poisoned_evidence)

  unfoldable pub is_automation_grade : PolicyConfig F → EvidenceAssessment F → Bool
  unfolding is_decision_grade
  is_automation_grade config evidence =
      is_decision_grade config evidence
      && leb config.evidence.minimum_independent_supporting_sources
          evidence.independent_supporting_sources

  unfoldable pub can_auto_contain :
      PolicyConfig F → IdentityCase F → ModelAssessment F → EvidenceAssessment F → Bool
  can_auto_contain config case model evidence =
      o.le config.thresholds.autonomous_containment_min_probability model.compromise_probability
      && o.le case.asset_criticality config.authority.maximum_asset_criticality_for_automation
      && is_automation_grade config evidence

  -- The branch for a break-glass identity.
  unfoldable pub break_glass_proposal : List String → DecisionProposal F
  break_glass_proposal evidence_ids = record {
    disposition = escalate_human;
    executable_actions = [];
    recommended_human_actions =
        "disable_account" ∷ "revoke_active_sessions" ∷ "validate_emergency_use" ∷ [];
    investigation_actions = "validate_emergency_use" ∷ "contact_incident_commander" ∷ [];
    rationale = break_glass_identity ∷ [];
    policy_rules_applied = "AUTH-BREAK-GLASS-HUMAN" ∷ [];
    evidence_event_ids = evidence_ids;
    required_authority = "incident_commander_or_identity_owner";
    rollback_plan = [];
  }

  unfoldable pub no_action_proposal : F → List String → DecisionProposal F
  no_action_proposal probability evidence_ids = record {
    disposition = no_action;
    executable_actions = [];
    recommended_human_actions = [];
    investigation_actions = [];
    rationale = below_no_action_threshold probability ∷ [];
    policy_rules_applied = "RISK-BELOW-NO-ACTION-THRESHOLD" ∷ [];
    evidence_event_ids = evidence_ids;
    required_authority = "none";
    rollback_plan = [];
  }

  unfoldable pub containment_proposal :
      PolicyConfig F
      → IdentityCase F
      → ModelAssessment F
      → EvidenceAssessment F
      → List String
      → DecisionProposal F
  containment_proposal config case model evidence evidence_ids = record {
    disposition = contain_reversible;
    executable_actions = config.authority.autonomous_actions;
    recommended_human_actions = [];
    investigation_actions = [];
    rationale =
        containment_satisfied model.compromise_probability evidence.evidence_quality
          case.asset_criticality
        ∷ [];
    policy_rules_applied = "RISK-AUTO-CONTAIN-THRESHOLD" ∷ "AUTH-REVERSIBLE-ACTIONS-ONLY" ∷ [];
    evidence_event_ids = evidence_ids;
    required_authority = "deterministic_policy_gate";
    rollback_plan = rollback_instructions;
  }

  unfoldable pub human_escalation_proposal :
      PolicyConfig F → IdentityCase F → ModelAssessment F → List String → DecisionProposal F
  human_escalation_proposal config case model evidence_ids =
      let beyond =
        o.lt config.authority.maximum_asset_criticality_for_automation case.asset_criticality in
      record {
        disposition = escalate_human;
        executable_actions = [];
        recommended_human_actions =
            "disable_account" ∷ "revoke_active_sessions" ∷ "isolate_endpoint" ∷ [];
        investigation_actions = "confirm_business_owner" ∷ "validate_blast_radius" ∷ [];
        rationale =
            (if beyond then asset_criticality_exceeded ∷ [] else [])
            ++ human_authority_required model.compromise_probability ∷ [];
        policy_rules_applied =
            "RISK-HUMAN-ESCALATION" ∷ (if beyond then "AUTH-ASSET-CRITICALITY-HUMAN" ∷ [] else []);
        evidence_event_ids = evidence_ids;
        required_authority = "soc_shift_lead_or_identity_owner";
        rollback_plan = [];
      }

  -- `PolicyEngine.propose`
  unfoldable pub propose :
      PolicyConfig F
      → IdentityCase F
      → ModelAssessment F
      → EvidenceAssessment F
      → DecisionProposal F
  propose config case model evidence =
      let probability = model.compromise_probability in
      let ids = cited_ids evidence in
      if evidence.poisoned_evidence && config.safety.poisoned_evidence_blocks_automation
      then investigate_proposal (poison_prohibits_action ∷ []) ("SAFETY-POISON-ABSTAIN" ∷ []) ids
      else if case.break_glass && config.authority.break_glass_requires_human
      then break_glass_proposal ids
      else if not (is_decision_grade config evidence)
      then investigate_proposal (map evidence_reason evidence.reasons ++ firewall_abstains ∷ [])
          ("EVIDENCE-NOT-DECISION-GRADE" ∷ []) ids
      else if o.le probability config.thresholds.no_action_max_probability && not (severe model)
      then no_action_proposal probability ids
      else if can_auto_contain config case model evidence
      then containment_proposal config case model evidence ids
      else if o.le config.thresholds.human_escalation_min_probability probability || severe model
      then human_escalation_proposal config case model ids
      else investigate_proposal (uncertain_probability probability ∷ [])
          ("RISK-UNCERTAIN-INVESTIGATE" ∷ []) ids
