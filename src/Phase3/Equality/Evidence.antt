-- ===== src/Phase3/Equality/Evidence.antt =====
-- `==` on EvidenceItemAssessment and EvidenceAssessment of src/adf_poc/phase3/models.py, with the `==`
-- of floats, which need not be reflexive.
use ai_decision_firewall.Prelude.{string_eq, nat_eq, ◌==◌, Bool, true, false, ◌&&◌, List, [], ◌∷◌}
use ai_decision_firewall.Prelude.Float.{FloatOps}
use ai_decision_firewall.Phase3.Records.{EvidenceItemAssessment, EvidenceAssessment}
use ai_decision_firewall.Phase3.Equality.{bool_eq, list_eq}

module _ {F : Type 0} ⦃o : FloatOps F⦄ where
  -- `==` on `EvidenceItemAssessment`
  abbrev pub same_evidence_item_assessment :
      EvidenceItemAssessment F → EvidenceItemAssessment F → Bool
  same_evidence_item_assessment a b =
      a.evidence_id == b.evidence_id
      && a.subject_target_id == b.subject_target_id
      && a.source_type == b.source_type
      && a.source_instance == b.source_instance
      && a.provenance_verified == b.provenance_verified
      && a.integrity_verified == b.integrity_verified
      && a.content_digest_matches == b.content_digest_matches
      && a.freshness == b.freshness
      && o.eq a.age_seconds b.age_seconds
      && o.eq a.reliability b.reliability
      && o.eq a.trust_weight b.trust_weight
      && o.eq a.relevance b.relevance
      && a.supports == b.supports
      && a.contradicts == b.contradicts
      && a.poisoned == b.poisoned
      && o.eq a.score b.score
      && a.reason_codes == b.reason_codes

  abbrev same_items : List (EvidenceItemAssessment F) → List (EvidenceItemAssessment F) → Bool
  same_items [] [] = true
  same_items [] (b ∷ bs) = false
  same_items (a ∷ items) [] = false
  same_items (a ∷ items) (b ∷ bs) = same_evidence_item_assessment a b && same_items items bs

  -- `==` on `EvidenceAssessment`
  abbrev pub same_evidence_assessment : EvidenceAssessment F → EvidenceAssessment F → Bool
  same_evidence_assessment a b =
      o.eq a.overall_strength b.overall_strength
      && a.decision_grade == b.decision_grade
      && a.automation_grade == b.automation_grade
      && a.corroborating_sources == b.corroborating_sources
      && a.conflict_count == b.conflict_count
      && a.stale_evidence_ids == b.stale_evidence_ids
      && a.missing_expected_sources == b.missing_expected_sources
      && a.invalid_evidence_ids == b.invalid_evidence_ids
      && a.poisoned_evidence_ids == b.poisoned_evidence_ids
      && same_items a.assessed_items b.assessed_items
      && a.reason_codes == b.reason_codes
