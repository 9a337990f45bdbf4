-- ===== src/Phase3.antt =====
-- src/adf_poc/phase3: the data of a request (contracts.py) and of the policy (config.py). `F` is the
-- type of floats, and `J` that of JSON values that the code only passes on. The schemas bound every
-- integer of a request and of a policy from below by zero or more.
pub mod Records
pub mod Consequence
pub mod Authority
pub mod Reasons
pub mod Decision
pub mod Rules
pub mod Permission
pub mod Totality
pub mod Metrics
pub mod Gate
pub mod Tokens
pub mod Issue
pub mod Use
pub mod Lifetime
pub mod Attestation
pub mod Evidence
pub mod Grade
pub mod Sources
pub mod Support
pub mod Identity
pub mod Approval
pub mod Approve
pub mod Verify
pub mod Verified
pub mod Equality
pub mod Simulation
pub mod Effect
pub mod Approvals
pub mod Pending
pub mod Retry
use ai_decision_firewall.Prelude.{ℕ, String, Bool, List, Dict}

pub data AgentSecurityStatus : Type 0 where
  trusted degraded compromised unknown : AgentSecurityStatus

-- The claims of the request on the identity of its agent.
pub record AgentClaims : Type 0 where
  pub id : String
  pub type : String
  pub authenticated : Bool
  pub roles : List String
  pub authority : List String
  pub security_status : AgentSecurityStatus

pub record AuthenticatedPrincipal : Type 0 where
  pub id : String
  pub type : String
  pub authenticated : Bool
  pub roles : List String
  pub authority : List String
  pub security_status : AgentSecurityStatus
  pub identity_source : String
  pub human_session : Bool
  pub authentication_reason_code : String

pub record ActionParameters : Type 0 where
  pub duration_seconds : ℕ
  pub preserve_management : Bool

pub data ActionType : Type 0 where
  network_isolate : ActionType

pub data TargetType : Type 0 where
  domain_controller workstation : TargetType

pub data TargetCriticality : Type 0 where
  low medium high tier_0 : TargetCriticality

pub data TargetClassification : Type 0 where
  public internal confidential restricted : TargetClassification

pub data EvidenceIntegrityStatus : Type 0 where
  verified unverified failed : EvidenceIntegrityStatus

pub data TrustLevel : Type 0 where
  high_trust medium_trust low_trust untrusted : TrustLevel

pub data AgentRecommendation : Type 0 where
  isolate do_not_isolate escalate : AgentRecommendation

pub record ActionRequest : Type 0 where
  pub type : ActionType
  pub target : String
  pub parameters : ActionParameters

pub record TargetClaims : Type 0 where
  pub id : String
  pub type : TargetType
  pub criticality : TargetCriticality
  pub classification : TargetClassification
  pub dependencies : List String

pub record EvidenceProvenance : Type 0 where
  pub id : String
  pub verified : Bool
  pub signature : String

pub record EvidenceIntegrity : Type 0 where
  pub status : EvidenceIntegrityStatus
  pub content_sha256 : String

pub record EvidenceItem (F J : Type 0) : Type 0 where
  pub id : String
  pub subject_target_id : String
  pub source_type : String
  pub source_instance : String
  pub provenance : EvidenceProvenance
  pub integrity : EvidenceIntegrity
  pub observed_at : String
  pub reliability : F
  pub trust_level : TrustLevel
  pub supports : List String
  pub contradicts : List String
  pub relevance : F
  pub payload : J
  pub untrusted_text : String

pub record DecisionRequest (F J : Type 0) : Type 0 where
  pub schema_version : String
  pub request_id : String
  pub timestamp : String
  pub agent : AgentClaims
  pub action : ActionRequest
  pub target : TargetClaims
  pub evidence : List (EvidenceItem F J)
  pub agent_recommendation : AgentRecommendation
  pub agent_confidence : F
  pub context : J

-- The `value` of each enumeration.
abbrev pub action_type_value : ActionType → String
action_type_value network_isolate = "NETWORK_ISOLATE"

abbrev pub target_type_value : TargetType → String
target_type_value domain_controller = "DOMAIN_CONTROLLER"
target_type_value workstation = "WORKSTATION"

abbrev pub criticality_value : TargetCriticality → String
criticality_value low = "LOW"
criticality_value medium = "MEDIUM"
criticality_value high = "HIGH"
criticality_value tier_0 = "TIER_0"

abbrev pub classification_value : TargetClassification → String
classification_value public = "PUBLIC"
classification_value internal = "INTERNAL"
classification_value confidential = "CONFIDENTIAL"
classification_value restricted = "RESTRICTED"

abbrev pub trust_level_value : TrustLevel → String
trust_level_value high_trust = "HIGH"
trust_level_value medium_trust = "MEDIUM"
trust_level_value low_trust = "LOW"
trust_level_value untrusted = "UNTRUSTED"

pub record TrustedSourcePolicy (F : Type 0) : Type 0 where
  pub source_instance : String
  pub source_type : String
  pub reliability : F
  pub trust_level : String

pub record EvidencePolicyRules (F : Type 0) : Type 0 where
  pub hypothesis_claim : String
  pub maximum_age_seconds : ℕ
  pub minimum_reliability : F
  pub minimum_relevance : F
  pub minimum_overall_strength_for_allow : F
  pub minimum_corroborating_sources : ℕ
  pub maximum_conflicts_for_allow : ℕ
  pub trust_weights : Dict String F
  pub required_source_types_by_action : Dict String (List String)
  pub trusted_sources : Dict String (TrustedSourcePolicy F)

pub record ConsequencePolicy (F : Type 0) : Type 0 where
  pub factor_weights : Dict String F
  pub criticality_weights : Dict String F
  pub blast_radius_weights : Dict String F
  pub impact_weights : Dict String F
  pub downtime_reference_minutes : ℕ
  pub dependency_reference_count : ℕ
  pub irreversible_penalty : F
  pub high_threshold : F
  pub critical_threshold : F
  pub approval_levels : List String
  pub approval_isolation_consequences : List String
  pub approval_mission_impacts : List String
  pub approval_safety_impacts : List String
  pub approval_availability_impacts : List String
  pub approval_blast_radii : List String
  pub approval_downtime_minutes : ℕ
  pub cascading_requires_approval : Bool

pub record DecisionRule : Type 0 where
  pub id : String
  pub condition : String
  pub outcome : String

pub record ActionPolicy : Type 0 where
  pub action_type : ActionType
  pub reversible : Bool
  pub allowed_target_types : List String
  pub required_authority : String
  pub tier_0_required_authority : String
  pub maximum_duration_seconds : ℕ
  pub preserve_management_required : Bool
  pub human_approval_criticalities : List String

pub record TargetRecord : Type 0 where
  pub id : String
  pub type : String
  pub criticality : String
  pub classification : String
  pub dependencies : List String
  pub isolation_consequence : String
  pub estimated_downtime_minutes : ℕ
  pub blast_radius : String
  pub mission_impact : String
  pub safety_impact : String
  pub availability_impact : String
  pub human_approval_required : Bool

pub record Phase3PolicyConfig (F : Type 0) : Type 0 where
  pub schema_version : String
  pub policy_id : String
  pub version : String
  pub evidence : EvidencePolicyRules F
  pub consequence : ConsequencePolicy F
  pub decision_rules : List DecisionRule
  pub action_catalog : Dict String ActionPolicy
  pub target_inventory : Dict String TargetRecord
  pub authorization_ttl_seconds : ℕ
  pub authorization_single_use : Bool
  pub approval_ttl_seconds : ℕ
