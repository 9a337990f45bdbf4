-- ===== src/Schemas.antt =====
-- src/adf_poc/schemas.py and the assessments that the policy reads (evidence.py, model.py,
-- policy.py, verifier.py): the data that the stages of a decision hand to one another.
use ai_decision_firewall.Prelude.{ℕ, String, Bool, List, Dict}
use ai_decision_firewall.Prelude.Float.{ℤ}

-- schemas.py `IntegrityStatus`; `other` is any other text that an event carries.
pub data IntegrityStatus : Type 0 where
  verified unverified failed : IntegrityStatus
  other : String → IntegrityStatus

pub data Disposition : Type 0 where
  no_action investigate contain_reversible escalate_human : Disposition

-- A JSON value of `attributes`. `composite` is null, an array or an object, which the code refuses.
pub data Value (F : Type 0) : Type 0 where
  boolean : Bool → Value F
  integer : ℤ → Value F
  float : F → Value F
  text : String → Value F
  composite : Value F

pub record EvidenceEvent (F : Type 0) : Type 0 where
  pub event_id : String
  pub case_id : String
  pub source_type : String
  pub source_instance : String
  pub observed_at : String
  pub collected_at : String
  pub integrity : IntegrityStatus
  pub provenance_id : String
  pub trust_score : F
  pub entity_refs : List String
  pub attributes : Dict String (Value F)
  pub untrusted_text : String
  pub contains_instructional_content : Bool

pub record IdentityCase (F : Type 0) : Type 0 where
  pub case_id : String
  pub opened_at : String
  pub subject_id : String
  pub privilege_level : String
  pub break_glass : Bool
  pub asset_id : String
  pub asset_criticality : F
  pub events : List (EvidenceEvent F)

-- evidence.py `EvidenceAssessment`
pub record EvidenceAssessment (F : Type 0) : Type 0 where
  pub evidence_quality : F
  pub provenance_valid_ratio : F
  pub integrity_verified_ratio : F
  pub freshness_score : F
  pub source_diversity_score : F
  pub mean_source_trust : F
  pub independent_supporting_sources : ℕ
  pub positive_event_ids : List String
  pub benign_event_ids : List String
  pub missing_expected_sources : List String
  pub conflict_count : ℕ
  pub poisoned_evidence : Bool
  pub poisoned_event_ids : List String
  pub reasons : List String

-- model.py `FactorRow`
pub record FactorRow (F : Type 0) : Type 0 where
  pub feature : String
  pub contribution : F
  pub factor_value : F

-- model.py `ModelAssessment`
pub record ModelAssessment (F : Type 0) : Type 0 where
  pub compromise_probability : F
  pub model_version : String
  pub top_positive_factors : List (FactorRow F)
  pub top_negative_factors : List (FactorRow F)
  pub feature_values : Dict String F
  pub feature_trace : Dict String (List String)
