-- ===== src/Examples/Effects.antt =====
-- An isolation that the simulation boundary verifies.
use ai_decision_firewall.Prelude.{
  string_eq, nat_eq, ◌==◌, ◌≡◌, refl, true, [], ◌∷◌, none, some, lookup, if◌then◌else◌,
}
use ai_decision_firewall.Phase3.Records.{PermittedAction, AuthorizationToken}
use ai_decision_firewall.Phase3.Simulation.{
  verified, SimulatedState, BrokerResult, BoundaryState, BoundaryServices, ExecutionArgs,
  argument_reasons, binding_reasons, verify_execution,
}
use ai_decision_firewall.Phase3.Effect.{IsConfirmed, verify_execution-IsConfirmed}
use ai_decision_firewall.Examples.Control.{no_metrics}

abbrev connected : SimulatedState
connected = record {
  target_id = "WORKSTATION_042";
  target_type = "WORKSTATION";
  network_state = "connected";
  management_channel = true;
  isolation_expires_at = none;
  service_health = "healthy";
  last_action_id = none;
}

abbrev isolated_state : SimulatedState
isolated_state = record connected {
  network_state = "isolated";
  isolation_expires_at = some "later";
  last_action_id = some "attempt-1";
}

abbrev command : PermittedAction
command = record {
  type = "NETWORK_ISOLATE";
  target = "WORKSTATION_042";
  parameters = record { duration_seconds = 3600; preserve_management = true };
}

abbrev token : AuthorizationToken
token = record {
  unsigned = record {
    token_id = "token-1";
    issuer_instance_id = "issuer-1";
    request_id = "request-1";
    decision_id = "decision-1";
    agent_id = "agent-1";
    action_type = "NETWORK_ISOLATE";
    target_id = "WORKSTATION_042";
    permitted_parameters = command.parameters;
    issued_at = "opening";
    expires_at = "closing";
    policy_id = "phase3";
    policy_version = "1";
    policy_sha256 = "phase3";
    decision_context_sha256 = "ALLOW";
    target_state_sha256 = "connected";
    nonce = "nonce-1";
  };
  signature = "token-1";
}

abbrev result : BrokerResult
result = record {
  attempt_id = "attempt-1";
  token_id = "token-1";
  request_id = "request-1";
  decision_id = "decision-1";
  action_type = "NETWORK_ISOLATE";
  target_id = "WORKSTATION_042";
  parameters = command.parameters;
  executed_at = "running";
  attempted = true;
  accepted = true;
  reported_success = true;
  message = "isolated";
  state_before_sha256 = "connected";
  state_after_sha256 = "isolated";
}

abbrev boundary : BoundaryState
boundary = record {
  states = ("WORKSTATION_042", isolated_state) ∷ [];
  attempt_binding_digests = ("attempt-1", some "attempt-1") ∷ [];
}

abbrev services : BoundaryServices
services = record {
  state_sha256 = λ s. s.network_state;
  parameters_sha256 = λ p. "parameters";
  attempt_sha256 = λ t c r. r.attempt_id;
  utc_time = λ t.
      if t == "opening"
      then some 5000000
      else if t == "running"
      then some 6000000
      else if t == "closing"
      then some 305000000
      else none;
  isoformat = λ t. if t == 3606000000 then "later" else "other";
}

abbrev args : ExecutionArgs
args = record {
  token = token;
  permitted_command = some command;
  request_id = "request-1";
  decision_id = "decision-1";
  broker_result = result;
  state_before = connected;
  verification_id = "verify-1";
}

effect-verified : (verify_execution services boundary args no_metrics).0.status ≡ verified
unfolding verify_execution binding_reasons argument_reasons lookup
effect-verified = refl

verify_execution-IsConfirmed_example :
    (observed : SimulatedState) × IsConfirmed services boundary args observed
verify_execution-IsConfirmed_example =
    verify_execution-IsConfirmed services boundary args no_metrics effect-verified
