-- ===== src/Verifier.antt =====
-- src/adf_poc/verifier.py: the deterministic verifier that checks a proposal before authorization.
pub mod Eligible
pub mod Agreement
use ai_decision_firewall.Prelude.{
  String, string_eq, Bool, true, false, not, ◌&&◌, List, [], ◌∷◌, ◌++◌, map, Dict, lookup, none,
  some, leb, is_empty, all_of, subset, disjoint, if◌then◌else◌,
}
use ai_decision_firewall.Prelude.Float.{FloatOps}
use ai_decision_firewall.Schemas.{
  Disposition, contain_reversible, IdentityCase, EvidenceAssessment, ModelAssessment,
}
use ai_decision_firewall.Policy.{PolicyConfig, DecisionProposal}

-- The text of a check. One of them shows a number.
pub data Detail (F : Type 0) : Type 0 where
  plain : String → Detail F
  probability_at_least : F → Detail F

pub record CheckRow (F : Type 0) : Type 0 where
  pub check : String
  pub passed : Bool
  pub detail : Detail F

-- A blocking reason is the text "name: detail", kept as its two parts.
pub record VerificationResult (F : Type 0) : Type 0 where
  pub passed : Bool
  pub checks : List (CheckRow F)
  pub blocking_reasons : List (String × Detail F)

abbrev pub is_containment : Disposition → Bool
is_containment contain_reversible = true
is_containment _ = false

-- `action in proposal.rollback_plan`
abbrev pub has_key : Dict String String → String → Bool
has_key plan action = elim (lookup action plan) [ none ↦ false | some _ ↦ true ]

-- `{event_id for rows in feature_trace.values() for event_id in rows}`
abbrev pub traced_ids : Dict String (List String) → List String
traced_ids [] = []
traced_ids ((_, ids) ∷ trace) = ids ++ traced_ids trace

module _ {F : Type 0} where
  abbrev pub row : String → Bool → String → CheckRow F
  row name passed detail = record { check = name; passed = passed; detail = plain detail }

  -- What the closure `check` appends to `blockers`.
  abbrev pub blockers : List (CheckRow F) → List (String × Detail F)
  blockers [] = []
  blockers (r ∷ rows) =
      let rest = blockers rows in if r.passed then rest else (r.check, r.detail) ∷ rest

  abbrev pub known_ids : IdentityCase F → List String
  known_ids case = map (λ event. event.event_id) case.events

module _ {F : Type 0} ⦃o : FloatOps F⦄ where
  -- The checks that every proposal gets.
  unfoldable pub common_checks :
      PolicyConfig F → IdentityCase F → ModelAssessment F → DecisionProposal F → List (CheckRow F)
  common_checks config case model proposal =
      row "MODEL-PROBABILITY-RANGE"
        (o.le (o.lit 0 0) model.compromise_probability
          && o.le model.compromise_probability (o.lit 1 0))
        "Probability must be within [0,1]."
      ∷ row "TRACE-EVENTS-EXIST" (subset proposal.evidence_event_ids (known_ids case))
          "All cited evidence IDs must exist in the case."
      ∷ row "MODEL-FEATURE-TRACE" (subset (traced_ids model.feature_trace) (known_ids case))
          "Every model feature trace must resolve to a case event."
      ∷ row "NO-HUMAN-ONLY-EXECUTION"
          (disjoint proposal.executable_actions config.authority.human_only_actions)
          "Human-only actions cannot appear in the executable action set."
      ∷ row "EXECUTABLE-ACTIONS-ALLOWLISTED"
          (subset proposal.executable_actions config.authority.autonomous_actions)
          "Executable actions must be on the autonomous allowlist."
      ∷ []

  -- The checks of a CONTAIN_REVERSIBLE proposal.
  unfoldable pub containment_checks :
      PolicyConfig F
      → IdentityCase F
      → ModelAssessment F
      → EvidenceAssessment F
      → DecisionProposal F
      → List (CheckRow F)
  containment_checks config case model evidence proposal =
      let threshold = config.thresholds.autonomous_containment_min_probability in
      record {
        check = "CONTAIN-RISK-THRESHOLD";
        passed = o.le threshold model.compromise_probability;
        detail = probability_at_least threshold;
      }
      ∷ row "CONTAIN-EVIDENCE-QUALITY"
          (o.le config.evidence.minimum_quality evidence.evidence_quality)
          "Evidence quality must meet the automation threshold."
      ∷ row "CONTAIN-PROVENANCE"
          (o.le config.evidence.minimum_provenance_ratio evidence.provenance_valid_ratio)
          "Evidence provenance ratio is insufficient."
      ∷ row "CONTAIN-INTEGRITY"
          (o.le config.evidence.minimum_integrity_verified_ratio evidence.integrity_verified_ratio)
          "Evidence integrity ratio is insufficient."
      ∷ row "CONTAIN-CORROBORATION"
          (leb config.evidence.minimum_independent_supporting_sources
            evidence.independent_supporting_sources)
          "Independent source corroboration is insufficient."
      ∷ row "CONTAIN-NO-CONFLICT"
          (leb evidence.conflict_count config.evidence.maximum_conflicts_for_automation)
          "Conflicting sources prohibit automation."
      ∷ row "CONTAIN-NO-POISON" (not evidence.poisoned_evidence)
          "Instructional or poisoned evidence prohibits automation."
      ∷ row "CONTAIN-NOT-BREAK-GLASS" (not case.break_glass)
          "Break-glass identities require human authorization."
      ∷ row "CONTAIN-ASSET-BOUNDARY"
          (o.le case.asset_criticality config.authority.maximum_asset_criticality_for_automation)
          "Asset criticality exceeds the autonomous boundary."
      ∷ row "CONTAIN-ROLLBACK" (all_of (has_key proposal.rollback_plan) proposal.executable_actions)
          "Every autonomous action requires a rollback plan."
      ∷ row "CONTAIN-ACTIONS-PRESENT" (not (is_empty proposal.executable_actions))
          "Containment disposition requires at least one executable action."
      ∷ []

  -- The checks that depend on the disposition.
  unfoldable pub disposition_checks :
      PolicyConfig F
      → IdentityCase F
      → ModelAssessment F
      → EvidenceAssessment F
      → DecisionProposal F
      → Disposition
      → List (CheckRow F)
  disposition_checks config case model evidence proposal disposition =
      if is_containment disposition
      then containment_checks config case model evidence proposal
      else row "NON-CONTAIN-NO-EXECUTION" (is_empty proposal.executable_actions)
          "Non-containment dispositions cannot execute production actions."
        ∷ []

  unfoldable pub all_checks :
      PolicyConfig F
      → IdentityCase F
      → ModelAssessment F
      → EvidenceAssessment F
      → DecisionProposal F
      → List (CheckRow F)
  all_checks config case model evidence proposal =
      common_checks config case model proposal
      ++ disposition_checks config case model evidence proposal proposal.disposition

  -- `IndependentVerifier.verify`
  unfoldable pub verify :
      PolicyConfig F
      → IdentityCase F
      → ModelAssessment F
      → EvidenceAssessment F
      → DecisionProposal F
      → VerificationResult F
  verify config case model evidence proposal =
      let checks = all_checks config case model evidence proposal in
      record {
        passed = is_empty (blockers checks);
        checks = checks;
        blocking_reasons = blockers checks;
      }
