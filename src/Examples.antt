-- ===== src/Examples.antt =====
-- A concrete case, policy file and environment, on which the properties are applied.
mod Decisions
mod Assessments
mod Runs
mod Control
mod Approvals
mod Graded
mod Effects
mod Ledgers
use ai_decision_firewall.Prelude.{
  ℕ, zero, suc, ◌/◌, ◌*◌, String, string_eq, nat_eq, ◌==◌, true, false, [], ◌∷◌, Option, none, some,
  ok, join, leb, ltb, if◌then◌else◌,
}
use ai_decision_firewall.Prelude.Float.{FloatOps}
use ai_decision_firewall.Schemas.{
  IdentityCase, EvidenceEvent, EvidenceAssessment, ModelAssessment, verified,
}
use ai_decision_firewall.Policy.{PolicyConfig, DecisionProposal, propose}
use ai_decision_firewall.Verifier.{VerificationResult, verify}
use ai_decision_firewall.Actions.{
  Services, UnsignedToken, AuthorizationGate, AuthorizationToken, TargetState, States, issue_token,
}
use ai_decision_firewall.Audit.{Body, empty_logger, memory}
use ai_decision_firewall.Engine.{
  Payload, Decision, Engine, Reads, Stages, ExecutionMode, new_engine,
}

-- Decimals in thousandths.
abbrev scale : ℕ → ℕ
scale zero = 1000
scale (suc k) = scale k / 10

abbrev pub thousandths : ℕ → ℕ → ℕ
thousandths m k = m * scale k

instance pub decimals : FloatOps ℕ
decimals = record {
  lit = thousandths;
  of_nat = λ n. n * 1000;
  le = leb;
  lt = ltb;
  eq = λ a b. a == b;
}

abbrev pub policy_file : PolicyConfig ℕ
policy_file = record {
  policy_id = "identity-response";
  version = "1.0.0";
  thresholds = record {
    no_action_max_probability = 200;
    human_escalation_min_probability = 700;
    autonomous_containment_min_probability = 880;
  };
  evidence = record {
    minimum_quality = 720;
    minimum_provenance_ratio = 950;
    minimum_integrity_verified_ratio = 900;
    minimum_independent_supporting_sources = 2;
    maximum_missing_expected_sources_for_decision = 1;
    maximum_conflicts_for_automation = 1;
  };
  authority = record {
    maximum_asset_criticality_for_automation = 750;
    break_glass_requires_human = true;
    autonomous_actions = "revoke_active_sessions" ∷ "force_step_up_auth" ∷ [];
    human_only_actions = "disable_account" ∷ [];
  };
  safety = record {
    poisoned_evidence_blocks_automation = true;
    authorization_token_ttl_seconds = 300;
  };
}

abbrev pub login_event : EvidenceEvent ℕ
login_event = record {
  event_id = "ev-1";
  case_id = "case-1";
  source_type = "identity_provider";
  source_instance = "idp-1";
  observed_at = "2026-01-01T00:00:00+00:00";
  collected_at = "2026-01-01T00:01:00+00:00";
  integrity = verified;
  provenance_id = "prov-1";
  trust_score = 950;
  entity_refs = "user-1" ∷ [];
  attributes = [];
  untrusted_text = "";
  contains_instructional_content = false;
}

abbrev pub stolen_session : IdentityCase ℕ
stolen_session = record {
  case_id = "case-1";
  opened_at = "2026-01-01T00:02:00+00:00";
  subject_id = "user-1";
  privilege_level = "standard";
  break_glass = false;
  asset_id = "host-1";
  asset_criticality = 400;
  events = login_event ∷ [];
}

abbrev pub good_evidence : EvidenceAssessment ℕ
good_evidence = record {
  evidence_quality = 900;
  provenance_valid_ratio = 1000;
  integrity_verified_ratio = 1000;
  freshness_score = 950;
  source_diversity_score = 800;
  mean_source_trust = 950;
  independent_supporting_sources = 2;
  positive_event_ids = "ev-1" ∷ [];
  benign_event_ids = [];
  missing_expected_sources = [];
  conflict_count = 0;
  poisoned_evidence = false;
  poisoned_event_ids = [];
  reasons = [];
}

abbrev pub poisoned_assessment : EvidenceAssessment ℕ
poisoned_assessment = record good_evidence {
  poisoned_evidence = true;
  poisoned_event_ids = "ev-1" ∷ [];
}

abbrev pub high_risk : ModelAssessment ℕ
high_risk = record {
  compromise_probability = 950;
  model_version = "m-1";
  top_positive_factors = [];
  top_negative_factors = [];
  feature_values = ("token_reuse", 1000) ∷ [];
  feature_trace = ("token_reuse", "ev-1" ∷ []) ∷ [];
}

-- A verifier that reads an estimate outside [0, 1] refuses the proposal.
abbrev pub broken_risk : ModelAssessment ℕ
broken_risk = record high_risk { compromise_probability = 1500 }

abbrev pub containment : DecisionProposal ℕ
containment = propose policy_file stolen_session high_risk good_evidence

abbrev pub accepted : VerificationResult ℕ
accepted = verify policy_file stolen_session high_risk good_evidence containment

abbrev pub time_text : ℕ → String
time_text t = if t == 1300000000 then "t1300" else "t"

abbrev pub text_time : String → Option ℕ
text_time t = if t == "t1300" then some 1300000000 else none

abbrev pub services : Services
services = record {
  hmac_token = λ key u. join key u.token_id;
  sha256_core = λ core. core.case_id;
  sha256_prefix = λ t. 1;
  format_time = time_text;
  parse_time = text_time;
}

abbrev pub gate : AuthorizationGate ℕ
gate = record { config = policy_file; signing_key = "key:" }

-- A token that the gate issues at second 1000.
abbrev pub token : AuthorizationToken
token = issue_token services gate 1000000000 "uuid-1" stolen_session containment

abbrev pub target : States
target =
    (
      "case-2",
      record {
        subject_id = "user-2";
        active_sessions = 4;
        step_up_required = false;
        monitoring_level = "baseline";
        account_enabled = true;
      },
    )
    ∷ []

abbrev pub reads : Reads
reads = record {
  token_uuid = "uuid-1";
  decision_uuid = "uuid-2";
  authorize_now = 1000000000;
  broker_now = λ n. 1000000000;
  row_time = λ n. "t";
}

abbrev pub stages : EvidenceAssessment ℕ → ModelAssessment ℕ → Stages ℕ
stages evidence model = record { assess_evidence = λ c. ok evidence; assess_model = λ c. ok model }

abbrev pub hash_body : {P : Type 0} → Body P → String
hash_body body = join body.record_type body.recorded_at

abbrev pub hash_decision : Decision ℕ → String
hash_decision d = d.decision_id

abbrev pub engine : ExecutionMode → Engine ℕ
engine mode = new_engine policy_file mode (empty_logger (Payload ℕ) memory) "key:"
