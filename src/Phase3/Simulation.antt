-- ===== src/Phase3/Simulation.antt =====
-- src/adf_poc/phase3/simulation.py: `observe_state` and `verify_execution` of the boundary that keeps
-- its targets in memory. The state that a caller gives has the fields of the boundary's own states. A
-- time beyond the year 9999 is not modelled.
use ai_decision_firewall.Prelude.{
  ℕ, ◌+◌, ◌*◌, String, string_eq, nat_eq, ◌==◌, Bool, true, false, not, ◌&&◌, ◌||◌, List, [], ◌∷◌,
  ◌++◌, Dict, lookup, Option, none, some, ltb, leb, keep, is_empty, is_blank, contains,
  if◌then◌else◌,
}
use ai_decision_firewall.Phase3.{ActionParameters}
use ai_decision_firewall.Phase3.Records.{PermittedAction, UnsignedToken, AuthorizationToken}
use ai_decision_firewall.Phase3.Authority.{bool_equals}
use ai_decision_firewall.Phase3.Consequence.{when}
use ai_decision_firewall.Phase3.Decision.{whole_seconds}
use ai_decision_firewall.Phase3.Evidence.{ordered_unique}
use ai_decision_firewall.Phase3.Gate.{same_parameters}
use ai_decision_firewall.Phase3.Metrics.{Metrics, record_verification_failure}

-- `VerificationStatus`, without NOT_APPLICABLE
pub data VerificationStatus : Type 0 where
  verified failed partial unexpected_effect needs_rollback : VerificationStatus

-- A row of `states`.
pub record SimulatedState : Type 0 where
  pub target_id : String
  pub target_type : String
  pub network_state : String
  pub management_channel : Bool
  pub isolation_expires_at : Option String
  pub service_health : String
  pub last_action_id : Option String

pub record BrokerResult : Type 0 where
  pub attempt_id : String
  pub token_id : String
  pub request_id : String
  pub decision_id : String
  pub action_type : String
  pub target_id : String
  pub parameters : ActionParameters
  pub executed_at : String
  pub attempted : Bool
  pub accepted : Bool
  pub reported_success : Bool
  pub message : String
  pub state_before_sha256 : String
  pub state_after_sha256 : String

-- `expected`, and the smaller one where the target cannot be observed.
pub data ExpectedState : Type 0 where
  attempt_only : String → String → String → ExpectedState
  isolated : String → String → ActionParameters → Option String → String → ExpectedState

pub record PostActionVerification : Type 0 where
  pub verification_id : String
  pub request_id : String
  pub decision_id : String
  pub attempt_id : String
  pub token_id : String
  pub action_type : String
  pub target_id : String
  pub parameters_sha256 : String
  pub status : VerificationStatus
  pub expected_state : ExpectedState
  pub observed_state : Option SimulatedState
  pub changed_fields : List String
  pub unexpected_fields : List String
  pub rollback_required : Bool
  pub reason_codes : List String

-- What the boundary keeps: `states` and `attempt_binding_digests`, where an attempt that still runs
-- has no digest.
pub record BoundaryState : Type 0 where
  pub states : Dict String SimulatedState
  pub attempt_binding_digests : Dict String (Option String)

-- The digests, and the texts of times; `utc_time` is `none` where the conversion raises.
pub record BoundaryServices : Type 0 where
  pub state_sha256 : SimulatedState → String
  pub parameters_sha256 : ActionParameters → String
  pub attempt_sha256 : AuthorizationToken → PermittedAction → BrokerResult → String
  pub utc_time : String → Option ℕ
  pub isoformat : ℕ → String

-- The arguments of `verify_execution`; `permitted_command` is what `_normalize_command` makes of it.
pub record ExecutionArgs : Type 0 where
  pub token : AuthorizationToken
  pub permitted_command : Option PermittedAction
  pub request_id : String
  pub decision_id : String
  pub broker_result : BrokerResult
  pub state_before : SimulatedState
  pub verification_id : String

abbrev pub same_text : Option String → Option String → Bool
same_text none none = true
same_text (some a) (some b) = a == b
same_text none (some b) = false
same_text (some a) none = false

-- `_changed_fields`
abbrev pub changed_fields : SimulatedState → SimulatedState → List String
changed_fields before observed =
    when (not (same_text before.isolation_expires_at observed.isolation_expires_at))
      "isolation_expires_at"
    ++ when (not (same_text before.last_action_id observed.last_action_id)) "last_action_id"
    ++ when (not (bool_equals before.management_channel observed.management_channel))
        "management_channel"
    ++ when (not (before.network_state == observed.network_state)) "network_state"
    ++ when (not (before.service_health == observed.service_health)) "service_health"
    ++ when (not (before.target_id == observed.target_id)) "target_id"
    ++ when (not (before.target_type == observed.target_type)) "target_type"

abbrev pub allowed_changes : List String
allowed_changes =
    "network_state" ∷ "management_channel" ∷ "isolation_expires_at" ∷ "last_action_id" ∷ []

abbrev pub unexpected_fields : List String → List String
unexpected_fields changed = keep (λ k. not (contains allowed_changes k)) changed

-- `observe_state`
abbrev pub observe_state : BoundaryState → String → Option SimulatedState
observe_state s target_id = lookup target_id s.states

abbrev pub command_reasons : UnsignedToken → Option PermittedAction → List String
command_reasons token none = "VERIFICATION_COMMAND_SHAPE_INVALID" ∷ []
command_reasons token (some c) =
    when (not (c.type == token.action_type)) "VERIFICATION_COMMAND_ACTION_MISMATCH"
    ++ when (not (c.target == token.target_id)) "VERIFICATION_COMMAND_TARGET_MISMATCH"
    ++ when (not (same_parameters c.parameters token.permitted_parameters))
        "VERIFICATION_COMMAND_PARAMETERS_MISMATCH"

-- The three times, if all of them are read.
abbrev pub all_times : Option ℕ → Option ℕ → Option ℕ → Option (ℕ × (ℕ × ℕ))
all_times (some a) (some b) (some c) = some (a, (b, c))
all_times (some a) (some b) none = none
all_times (some a) none c = none
all_times none b c = none

abbrev pub in_window : Option (ℕ × (ℕ × ℕ)) → Bool
in_window none = false
in_window (some (executed, (issued, expires))) = leb issued executed && ltb executed expires

abbrev pub count_true : List Bool → ℕ
count_true [] = 0
count_true (b ∷ bs) = let rest = count_true bs in if b then rest + 1 else rest

pub record Verdict : Type 0 where
  pub status : VerificationStatus
  pub rollback_required : Bool
  pub reasons : List String

abbrev with_rollback : Bool → List String → Verdict
with_rollback changed reasons = record {
  status = if changed then needs_rollback else failed;
  rollback_required = changed;
  reasons = reasons ++ when changed "ROLLBACK_REQUIRED";
}

-- The verdict on a transition with `matched` of its five checks passed.
abbrev transition_verdict : Bool → ℕ → Bool → Verdict
transition_verdict has_unexpected matched reported_success =
    if has_unexpected
    then record {
      status = unexpected_effect;
      rollback_required = true;
      reasons = "UNEXPECTED_TARGET_STATE_CHANGE" ∷ "ROLLBACK_REQUIRED" ∷ [];
    }
    else if matched == 5 && reported_success
    then record {
      status = verified;
      rollback_required = false;
      reasons = "EXPECTED_STATE_OBSERVED" ∷ [];
    }
    else if matched == 5
    then record {
      status = unexpected_effect;
      rollback_required = true;
      reasons = "BROKER_REPORT_STATE_DISAGREEMENT" ∷ "ROLLBACK_REQUIRED" ∷ [];
    }
    else if ltb 0 matched && ltb matched 5
    then record {
      status = partial;
      rollback_required = true;
      reasons = "PARTIAL_STATE_TRANSITION" ∷ "ROLLBACK_REQUIRED" ∷ [];
    }
    else record {
      status = failed;
      rollback_required = false;
      reasons = "EXPECTED_STATE_NOT_OBSERVED" ∷ [];
    }

-- The verdict, from `binding_reasons` on.
abbrev pub verdict : List String → Bool → Bool → Bool → ℕ → Bool → Verdict
verdict (r ∷ rs) changed supported has_unexpected matched reported_success =
    with_rollback changed ("POST_ACTION_BINDING_FAILED" ∷ r ∷ rs)
verdict [] changed supported has_unexpected matched reported_success =
    if not supported
    then with_rollback changed ("ACTION_VERIFICATION_UNSUPPORTED" ∷ [])
    else transition_verdict has_unexpected matched reported_success

module _ (services : BoundaryServices) where
  abbrev pub times_of : ExecutionArgs → Option (ℕ × (ℕ × ℕ))
  times_of args =
      all_times (services.utc_time args.broker_result.executed_at)
        (services.utc_time args.token.unsigned.issued_at)
        (services.utc_time args.token.unsigned.expires_at)

  -- `expected["isolation_expires_at"]`
  abbrev pub expiry_of : ExecutionArgs → Option (ℕ × (ℕ × ℕ)) → Option String
  expiry_of args none = none
  expiry_of args (some (executed, _)) = some (
      services.isoformat (
        whole_seconds
          (executed + args.token.unsigned.permitted_parameters.duration_seconds * 1000000)))

  -- The digest of the attempt is that of the broker's own.
  abbrev pub is_origin : BoundaryState → ExecutionArgs → Option PermittedAction → Bool
  is_origin s args none = false
  is_origin s args (some command) =
      elim (lookup args.broker_result.attempt_id s.attempt_binding_digests) [
        | none ↦ false
        | some none ↦ false
        | some (some digest) ↦
            digest == services.attempt_sha256 args.token command args.broker_result
      ]

  -- `binding_reasons`, before the target is observed.
  unfoldable pub argument_reasons : ExecutionArgs → List String
  argument_reasons args =
      let token = args.token.unsigned in
      let result = args.broker_result in
      when (not (args.request_id == token.request_id)) "VERIFICATION_REQUEST_MISMATCH"
      ++ when (not (args.decision_id == token.decision_id)) "VERIFICATION_DECISION_MISMATCH"
      ++ when (not (result.token_id == token.token_id)) "VERIFICATION_TOKEN_MISMATCH"
      ++ when (not (result.request_id == token.request_id)) "VERIFICATION_BROKER_REQUEST_MISMATCH"
      ++ when (not (result.decision_id == token.decision_id))
          "VERIFICATION_BROKER_DECISION_MISMATCH"
      ++ command_reasons token args.permitted_command
      ++ when (not (result.action_type == token.action_type)) "VERIFICATION_ACTION_MISMATCH"
      ++ when (not (result.target_id == token.target_id)) "VERIFICATION_TARGET_MISMATCH"
      ++ when (not (same_parameters result.parameters token.permitted_parameters))
          "VERIFICATION_PARAMETERS_MISMATCH"
      ++ when (not (in_window (times_of args))) "VERIFICATION_EXECUTION_TIME_INVALID"
      ++ when (not result.attempted || not result.accepted)
          "VERIFICATION_BROKER_DISPOSITION_INVALID"
      ++ when (is_blank result.attempt_id) "VERIFICATION_ATTEMPT_INVALID"
      ++ when (not (services.state_sha256 args.state_before == token.target_state_sha256))
          "VERIFICATION_PRESTATE_AUTHORIZATION_MISMATCH"
      ++ when (not (result.state_before_sha256 == services.state_sha256 args.state_before))
          "VERIFICATION_BROKER_PRESTATE_MISMATCH"

  -- `binding_reasons`
  unfoldable pub binding_reasons : BoundaryState → ExecutionArgs → SimulatedState → List String
  unfolding argument_reasons
  binding_reasons s args observed =
      let result = args.broker_result in
      argument_reasons args
      ++ when (not (result.state_after_sha256 == services.state_sha256 observed))
          "VERIFICATION_BROKER_POSTSTATE_MISMATCH"
      ++ when (not (same_text observed.last_action_id (some result.attempt_id)))
          "VERIFICATION_ATTEMPT_STATE_MISMATCH"
      ++ when (not (is_origin s args args.permitted_command))
          "VERIFICATION_ATTEMPT_ORIGIN_UNVERIFIED"

  -- `transition_checks`
  abbrev pub transition_checks : ExecutionArgs → SimulatedState → List Bool
  transition_checks args observed =
      (observed.network_state == "isolated")
      ∷ bool_equals observed.management_channel
          args.token.unsigned.permitted_parameters.preserve_management
      ∷ not (same_text observed.isolation_expires_at none)
      ∷ same_text observed.isolation_expires_at (expiry_of args (times_of args))
      ∷ same_text observed.last_action_id (some args.broker_result.attempt_id)
      ∷ []

  abbrev pub verdict_on : BoundaryState → ExecutionArgs → SimulatedState → Verdict
  verdict_on s args observed =
      let changed = changed_fields args.state_before observed in
      verdict (binding_reasons s args observed) (not (is_empty changed))
        (args.token.unsigned.action_type == "NETWORK_ISOLATE")
        (not (is_empty (unexpected_fields changed))) (count_true (transition_checks args observed))
        args.broker_result.reported_success

  abbrev verification_with :
      ExecutionArgs
      → ExpectedState
      → Option SimulatedState
      → List String
      → Verdict
      → PostActionVerification
  verification_with args expected observed changed v =
      let token = args.token.unsigned in
      record {
        verification_id = args.verification_id;
        request_id = token.request_id;
        decision_id = token.decision_id;
        attempt_id = args.broker_result.attempt_id;
        token_id = token.token_id;
        action_type = token.action_type;
        target_id = token.target_id;
        parameters_sha256 = services.parameters_sha256 token.permitted_parameters;
        status = v.status;
        expected_state = expected;
        observed_state = observed;
        changed_fields = changed;
        unexpected_fields = unexpected_fields changed;
        rollback_required = v.rollback_required;
        reason_codes = ordered_unique v.reasons;
      }

  abbrev pub unavailable : ExecutionArgs → PostActionVerification
  unavailable args =
      let token = args.token.unsigned in
      verification_with args
        (attempt_only token.action_type token.target_id args.broker_result.attempt_id) none []
        (record {
          status = failed;
          rollback_required = false;
          reasons = "TARGET_OBSERVATION_UNAVAILABLE" ∷ [];
        })

  abbrev pub observed_verification :
      BoundaryState → ExecutionArgs → SimulatedState → PostActionVerification
  observed_verification s args observed =
      let token = args.token.unsigned in
      verification_with args
        (isolated token.action_type token.target_id token.permitted_parameters
          (expiry_of args (times_of args)) args.broker_result.attempt_id)
        (some observed) (changed_fields args.state_before observed) (verdict_on s args observed)

  -- `metrics.record_verification_failure` unless the status is VERIFIED
  abbrev counted : {F : Type 0} → VerificationStatus → Metrics F → Metrics F
  counted verified m = m
  counted failed m = record_verification_failure m
  counted partial m = record_verification_failure m
  counted unexpected_effect m = record_verification_failure m
  counted needs_rollback m = record_verification_failure m

  abbrev pub verified_on :
      {F : Type 0}
      → BoundaryState
      → ExecutionArgs
      → Option SimulatedState
      → Metrics F
      → PostActionVerification × Metrics F
  verified_on s args none m = (unavailable args, record_verification_failure m)
  verified_on s args (some observed) m =
      (observed_verification s args observed, counted (verdict_on s args observed).status m)

  -- `verify_execution`
  unfoldable pub verify_execution :
      {F : Type 0} → BoundaryState → ExecutionArgs → Metrics F → PostActionVerification × Metrics F
  unfolding binding_reasons
  verify_execution s args m = verified_on s args (observe_state s args.token.unsigned.target_id) m
