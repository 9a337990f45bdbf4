-- ===== src/Verifier/Eligible.antt =====
-- What an accepted proposal satisfies, stated without the verifier's rows, and that `verify`
-- accepts exactly the proposals that satisfy it.
use ai_decision_firewall.Prelude.{
  ◌≤◌, ◌≡◌, ◌≢◌, ◌↔◌, refl, Bool, true, false, ◌&&◌, List, [], ◌∷◌, arith, is_empty, all_of, sym,
  ◌∙◌, and-true, all_of-append, string_eq, subset-IsWithin, subset-of-within, disjoint-IsDisjoint,
  disjoint-of-disjoint, IsWithin, IsDisjoint,
}
use ai_decision_firewall.Prelude.Float.{FloatOps}
use ai_decision_firewall.Schemas.{
  contain_reversible, no_action, investigate, escalate_human, Disposition, IdentityCase,
  EvidenceAssessment, ModelAssessment,
}
use ai_decision_firewall.Policy.{PolicyConfig, DecisionProposal}
use ai_decision_firewall.Verifier.{
  CheckRow, blockers, known_ids, traced_ids, has_key, verify, all_checks, common_checks,
  containment_checks, disposition_checks,
}

abbrev passing : {F : Type 0} → CheckRow F → Bool
passing r = r.passed

is_empty-blockers :
    {F : Type 0} (rows : List (CheckRow F)) → is_empty (blockers rows) ≡ all_of passing rows
is_empty-blockers [] = refl
is_empty-blockers (r ∷ rows) = ground (arith, is_empty-blockers rows)

module _ {F : Type 0} ⦃o : FloatOps F⦄ (config : PolicyConfig F) (case : IdentityCase F)
    (model : ModelAssessment F) (evidence : EvidenceAssessment F)
    (proposal : DecisionProposal F) where
  -- The limits that automated containment keeps.
  pub record IsContainable : Type 0 where
    pub risk :
        o.le config.thresholds.autonomous_containment_min_probability model.compromise_probability
        ≡ true
    pub quality : o.le config.evidence.minimum_quality evidence.evidence_quality ≡ true
    pub provenance :
        o.le config.evidence.minimum_provenance_ratio evidence.provenance_valid_ratio ≡ true
    pub integrity :
        o.le config.evidence.minimum_integrity_verified_ratio evidence.integrity_verified_ratio
        ≡ true
    pub corroboration :
        config.evidence.minimum_independent_supporting_sources
        ≤ evidence.independent_supporting_sources
    pub conflicts : evidence.conflict_count ≤ config.evidence.maximum_conflicts_for_automation
    pub not_poisoned : evidence.poisoned_evidence ≡ false
    pub not_break_glass : case.break_glass ≡ false
    pub asset :
        o.le case.asset_criticality config.authority.maximum_asset_criticality_for_automation ≡ true
    pub rollback : all_of (has_key proposal.rollback_plan) proposal.executable_actions ≡ true
    pub present : proposal.executable_actions ≢ []

  -- What is asked of every proposal.
  pub record IsTraceable : Type 0 where
    pub probability_low : o.le (o.lit 0 0) model.compromise_probability ≡ true
    pub probability_high : o.le model.compromise_probability (o.lit 1 0) ≡ true
    pub citations : IsWithin proposal.evidence_event_ids (known_ids case)
    pub traces : IsWithin (traced_ids model.feature_trace) (known_ids case)
    pub no_human_only : IsDisjoint proposal.executable_actions config.authority.human_only_actions
    pub allowlisted : IsWithin proposal.executable_actions config.authority.autonomous_actions

  pub record IsEligible : Type 0 where
    pub traceable : IsTraceable
    pub containment : proposal.disposition ≡ contain_reversible → IsContainable
    pub otherwise : proposal.disposition ≢ contain_reversible → proposal.executable_actions ≡ []

  accepts-containment :
      all_of passing (containment_checks config case model evidence proposal) ≡ true → IsContainable
  unfolding containment_checks
  accepts-containment h = ground arith

  containment-accepts :
      IsContainable → all_of passing (containment_checks config case model evidence proposal) ≡ true
  unfolding containment_checks
  containment-accepts c = ground arith

  abbrev ExecutesNothing : Type 0
  ExecutesNothing = proposal.executable_actions ≡ []

  -- The rows after the common ones.
  rest_accepts :
      (d : Disposition)
      → (d ≡ contain_reversible → IsContainable)
      → (d ≢ contain_reversible → ExecutesNothing)
      → all_of passing (disposition_checks config case model evidence proposal d) ≡ true
  unfolding disposition_checks
  rest_accepts contain_reversible c n = containment-accepts (c refl)
  rest_accepts no_action c n = rw (n (λ e. cc))
  rest_accepts investigate c n = rw (n (λ e. cc))
  rest_accepts escalate_human c n = rw (n (λ e. cc))

  accepts_rest :
      (d : Disposition)
      → all_of passing (disposition_checks config case model evidence proposal d) ≡ true
      → (d ≡ contain_reversible → IsContainable) × (d ≢ contain_reversible → ExecutesNothing)
  unfolding disposition_checks
  accepts_rest contain_reversible h = (λ e. accepts-containment h, λ n. absurd (n refl))
  accepts_rest no_action h = (λ e. cc, λ n. ground arith)
  accepts_rest investigate h = (λ e. cc, λ n. ground arith)
  accepts_rest escalate_human h = (λ e. cc, λ n. ground arith)

  verify-passed : (verify config case model evidence proposal).passed ≡ (
      all_of passing (common_checks config case model proposal)
      && all_of passing
          (disposition_checks config case model evidence proposal proposal.disposition))
  unfolding verify all_checks
  verify-passed =
      is_empty-blockers (all_checks config case model evidence proposal)
      ∙ all_of-append (passing {F = F}) (common_checks config case model proposal)
          (disposition_checks config case model evidence proposal proposal.disposition)

  accepts-common : all_of passing (common_checks config case model proposal) ≡ true → IsTraceable
  unfolding common_checks
  accepts-common h = record {
    probability_low = ground arith;
    probability_high = ground arith;
    citations = subset-IsWithin _ _ (ground arith);
    traces = subset-IsWithin _ _ (ground arith);
    no_human_only = disjoint-IsDisjoint _ _ (ground arith);
    allowlisted = subset-IsWithin _ _ (ground arith);
  }

  common-accepts : IsTraceable → all_of passing (common_checks config case model proposal) ≡ true
  unfolding common_checks
  common-accepts h = ground (
    arith,
    h.probability_low,
    h.probability_high,
    subset-of-within proposal.evidence_event_ids (known_ids case) h.citations,
    subset-of-within (traced_ids model.feature_trace) (known_ids case) h.traces,
    disjoint-of-disjoint proposal.executable_actions config.authority.human_only_actions
        h.no_human_only,
    subset-of-within proposal.executable_actions config.authority.autonomous_actions h.allowlisted,
  )

  IsEligible-of-checks :
      all_of passing (common_checks config case model proposal) ≡ true
      → all_of passing (disposition_checks config case model evidence proposal proposal.disposition)
        ≡ true
      → IsEligible
  IsEligible-of-checks common rest =
      let (contain, other) = accepts_rest proposal.disposition rest in
      record { traceable = accepts-common common; containment = contain; otherwise = other }

  -- The verifier accepts a proposal exactly when the proposal is eligible.
  pub verify-passed_iff : ((verify config case model evidence proposal).passed ≡ true) ↔ IsEligible
  verify-passed_iff = (
    λ h.
        let both =
          and-true (all_of passing (common_checks config case model proposal))
            (all_of passing
              (disposition_checks config case model evidence proposal proposal.disposition))
            (sym verify-passed ∙ h) in
        IsEligible-of-checks both.0 both.1,
    λ h.
        verify-passed
        ∙ ground (
          arith,
          common-accepts h.traceable,
          rest_accepts proposal.disposition h.containment h.otherwise,
        ),
  )
