-- ===== src/Phase3/Gate.antt =====
-- src/adf_poc/phase3/authorization.py: `AuthorizationGate` over the in-memory ledger. Times are in
-- microseconds since the year 1; what the clock and the identifier factory give is an argument.
use ai_decision_firewall.Prelude.{
  ℕ, ◌+◌, ◌*◌, String, string_eq, nat_eq, ◌==◌, Bool, true, false, not, ◌&&◌, List, [], ◌∷◌, Option,
  none, some, Result, ok, err, ltb, leb, is_blank, ◌>>=◌, ◌>>◌, if◌then◌else◌,
}
use ai_decision_firewall.Ledger.{
  text_not_encodable, Reason, TokenState, issued, consumed, revoked, RecoverySummary, ControlLedger,
  Platform,
}
use ai_decision_firewall.Ledger.Ops.{ConsumeArgs, register, consume_once, state}
use ai_decision_firewall.Phase3.{ActionParameters}
use ai_decision_firewall.Phase3.Records.{
  PermittedAction, DecisionRecord, AuthorizedProjection, UnsignedToken, AuthorizationToken,
  UnsignedVerification, DecisionVerification,
}
use ai_decision_firewall.Phase3.Authority.{bool_equals}
use ai_decision_firewall.Phase3.Decision.{Digests, permits, whole_seconds}
use ai_decision_firewall.Phase3.Metrics.{Metrics, record_authorization_failure}

-- The pairs that `_validate` compares.
pub data Binding : Type 0 where
  request decision agent action target parameters policy_id policy_version : Binding
  policy_digest decision_context target_state : Binding

-- What the gate raises: an `AuthorizationError` by its reason code, or the `ValueError` of
-- `fromisoformat`.
pub data GateFault : Type 0 where
  outcome_prohibited decision_not_verified scope_missing signature_invalid : GateFault
  issuer_mismatch replay time_invalid not_yet_valid expired : GateFault
  mismatch : Binding → GateFault
  ledger_error : Reason → GateFault
  -- the `UnicodeEncodeError` of the ledger
  encode_error : GateFault
  value_error : GateFault

-- What `fromisoformat` makes of a text: a time with an offset, a time without one, or an error.
pub data ParsedTime : Type 0 where
  aware : ℕ → ParsedTime
  naive malformed : ParsedTime

-- `_parse_timestamp`
abbrev pub parse_timestamp : ParsedTime → Result GateFault ℕ
parse_timestamp (aware t) = ok t
parse_timestamp naive = err time_invalid
parse_timestamp malformed = err value_error

-- The configuration of a gate; `sign` and `sign_verification` are HMAC under its two keys.
pub record GateConfig : Type 0 where
  pub sign : UnsignedToken → String
  pub sign_verification : UnsignedVerification → String
  pub verifier_instance_id : String
  pub issuer_instance_id : String
  pub ttl_seconds : ℕ
  pub fromisoformat : String → ParsedTime

-- The checks of `__init__` on the lengths of the keys, the time to live and the verifier.
unfoldable pub accepts_config : (signing_key_bytes verification_key_bytes : ℕ) → GateConfig → Bool
accepts_config signing_key_bytes verification_key_bytes gate =
    leb 32 signing_key_bytes
    && leb 1 gate.ttl_seconds
    && leb gate.ttl_seconds 3600
    && leb 32 verification_key_bytes
    && not (is_blank gate.verifier_instance_id)

abbrev pub same_parameters : ActionParameters → ActionParameters → Bool
same_parameters a b =
    a.duration_seconds == b.duration_seconds
    && bool_equals a.preserve_management b.preserve_management

-- The scope that a caller presents with a token.
pub record PresentedScope : Type 0 where
  pub request_id : String
  pub decision_id : String
  pub agent_id : String
  pub action_type : String
  pub target_id : String
  pub parameters : ActionParameters
  pub policy_id : String
  pub policy_version : String
  pub policy_sha256 : String
  pub decision_context_sha256 : String
  pub target_state_sha256 : String

pub record AttemptArgs : Type 0 where
  pub attempt_id : Option String
  pub attempt_binding_sha256 : Option String
  pub idempotency_key : Option String
  pub recovery_summary : Option RecoverySummary

-- The ledger and the metrics that the gate changes.
pub record GateState (F : Type 0) : Type 0 where
  pub ledger : ControlLedger
  pub metrics : Metrics F

abbrev pub require : Bool → GateFault → Result GateFault Unit
require true e = ok tt
require false e = err e

-- `bindings`, with whether the two sides agree.
abbrev pub bindings_of : UnsignedToken → PresentedScope → List (Binding × Bool)
bindings_of token scope =
    (request, token.request_id == scope.request_id)
    ∷ (decision, token.decision_id == scope.decision_id)
    ∷ (agent, token.agent_id == scope.agent_id)
    ∷ (action, token.action_type == scope.action_type)
    ∷ (target, token.target_id == scope.target_id)
    ∷ (parameters, same_parameters token.permitted_parameters scope.parameters)
    ∷ (policy_id, token.policy_id == scope.policy_id)
    ∷ (policy_version, token.policy_version == scope.policy_version)
    ∷ (policy_digest, token.policy_sha256 == scope.policy_sha256)
    ∷ (decision_context, token.decision_context_sha256 == scope.decision_context_sha256)
    ∷ (target_state, token.target_state_sha256 == scope.target_state_sha256)
    ∷ []

-- The loop over the bindings, which raises at the first that differs.
unfoldable pub check_bindings : List (Binding × Bool) → Result GateFault Unit
check_bindings [] = ok tt
check_bindings (row ∷ rows) = require row.1 (mismatch row.0) >> check_bindings rows

-- The test of `_validate` on the state that the ledger gives for the token.
abbrev pub require_issued : Result Reason (Option TokenState) → Result GateFault Unit
require_issued (err reason) = err (ledger_error reason)
require_issued (ok (some issued)) = ok tt
require_issued (ok (some consumed)) = err replay
require_issued (ok (some revoked)) = err replay
require_issued (ok none) = err replay

-- `authorization_projection`
abbrev pub project : {F : Type 0} → DecisionRecord F → AuthorizedProjection F
project d = record {
  decision_id = d.decision_id;
  request_id = d.request_id;
  decided_at = d.decided_at;
  policy_id = d.policy_id;
  policy_version = d.policy_version;
  policy_sha256 = d.policy_sha256;
  outcome = d.outcome;
  reason_codes = d.reason_codes;
  applicable_rules = d.applicable_rules;
  requested_action = d.requested_action;
  permitted_action = d.permitted_action;
  authority = d.authority;
  evidence = d.evidence;
  consequence = d.consequence;
  constraints = d.constraints;
  request_sha256 = d.request_sha256;
  decision_context_sha256 = d.decision_context_sha256;
}

-- Adds the failure to the metrics and raises.
abbrev pub refuse : {F A : Type 0} → GateFault → GateState F → Result GateFault A × GateState F
refuse e s = (err e, record s { metrics = record_authorization_failure s.metrics })

-- `except ControlLedgerError` of a call of the ledger, which lets the `UnicodeEncodeError` pass.
abbrev pub ledger_refused : {F A : Type 0} → Reason → GateState F → Result GateFault A × GateState F
ledger_refused text_not_encodable s = (err encode_error, s)
ledger_refused reason s = refuse (ledger_error reason) s

abbrev pub registered :
    {F : Type 0}
    → AuthorizationToken
    → GateState F
    → Result Reason Unit × ControlLedger
    → Result GateFault AuthorizationToken × GateState F
registered token s (ok _, l) = (ok token, record s { ledger = l })
registered token s (err reason, l) = ledger_refused reason (record s { ledger = l })

-- What `issue` takes besides the decision: the clock, and the two identifiers that it draws.
pub record IssueInput : Type 0 where
  pub agent_id : String
  pub target_state_sha256 : String
  pub clock : ℕ
  pub token_id : String
  pub nonce : String

abbrev pub is_malformed : ParsedTime → Bool
is_malformed malformed = true
is_malformed _ = false

module _ {F J : Type 0} (digests : Digests F J) (gate : GateConfig) where
  -- `0.0 <= verification_age <= 60.0`
  abbrev pub is_recent : ℕ → ParsedTime → Bool
  is_recent now (aware verified_at) = leb verified_at now && leb now (verified_at + 60 * 1000000)
  is_recent now naive = false
  is_recent now malformed = false

  -- `verification_bound`
  unfoldable pub verification_bound : DecisionRecord F → String → DecisionVerification → ℕ → Bool
  verification_bound d agent_id verification now =
      let v = verification.unsigned in
      gate.sign_verification v == verification.signature
      && v.verifier_instance_id == gate.verifier_instance_id
      && v.passed
      && v.decision_id == d.decision_id
      && v.decision_context_sha256 == d.decision_context_sha256
      && v.decision_sha256 == digests.projection_sha256 (project d)
      && v.request_sha256 == d.request_sha256
      && v.principal_id == agent_id
      && v.policy_sha256 == d.policy_sha256
      && d.authority.principal_id == agent_id
      && is_recent now (gate.fromisoformat v.verified_at)

  -- `unsigned` of `issue`, for a permitted action at `now`.
  abbrev pub unsigned_of : DecisionRecord F → IssueInput → PermittedAction → ℕ → UnsignedToken
  unsigned_of d input permitted now = record {
    token_id = input.token_id;
    issuer_instance_id = gate.issuer_instance_id;
    request_id = d.request_id;
    decision_id = d.decision_id;
    agent_id = input.agent_id;
    action_type = permitted.type;
    target_id = permitted.target;
    permitted_parameters = permitted.parameters;
    issued_at = digests.isoformat now;
    expires_at = digests.isoformat (now + gate.ttl_seconds * 1000000);
    policy_id = d.policy_id;
    policy_version = d.policy_version;
    policy_sha256 = d.policy_sha256;
    decision_context_sha256 = d.decision_context_sha256;
    target_state_sha256 = input.target_state_sha256;
    nonce = input.nonce;
  }

  abbrev pub token_of : DecisionRecord F → IssueInput → PermittedAction → ℕ → AuthorizationToken
  token_of d input permitted now = record {
    unsigned = unsigned_of d input permitted now;
    signature = gate.sign (unsigned_of d input permitted now);
  }

module _ {F J : Type 0} (digests : Digests F J) (platform : Platform) (gate : GateConfig) where
  abbrev pub issue_scope :
      DecisionRecord F
      → IssueInput
      → DecisionVerification
      → Option PermittedAction
      → GateState F
      → Result GateFault AuthorizationToken × GateState F
  issue_scope d input verification none s = refuse scope_missing s
  issue_scope d input verification (some permitted) s =
      let token = token_of digests gate d input permitted (whole_seconds input.clock) in
      registered token s (
        register platform input.token_id (some verification.unsigned.verification_id)
          (some d.decision_id) (some token.unsigned.issued_at) s.ledger)

  -- `issue`
  unfoldable pub issue :
      DecisionRecord F
      → IssueInput
      → DecisionVerification
      → GateState F
      → Result GateFault AuthorizationToken × GateState F
  unfolding verification_bound
  issue d input verification s =
      if not (permits d.outcome)
      then refuse outcome_prohibited s
      else if is_malformed (gate.fromisoformat verification.unsigned.verified_at)
      then (err value_error, s)
      else if not (
          verification_bound digests gate d input.agent_id verification (whole_seconds input.clock))
      then refuse decision_not_verified s
      else issue_scope d input verification d.permitted_action s

module _ (gate : GateConfig) where
  -- `_validate`, at the time `now`
  unfoldable pub validate :
      AuthorizationToken → PresentedScope → ℕ → ControlLedger → Result GateFault Unit
  unfolding check_bindings
  validate token scope now l = do
    require (gate.sign token.unsigned == token.signature) signature_invalid
    require (token.unsigned.issuer_instance_id == gate.issuer_instance_id) issuer_mismatch
    require_issued (state token.unsigned.token_id l)
    check_bindings (bindings_of token.unsigned scope)
    issued_at ← parse_timestamp (gate.fromisoformat token.unsigned.issued_at)
    require (leb issued_at now) not_yet_valid
    expires_at ← parse_timestamp (gate.fromisoformat token.unsigned.expires_at)
    require (ltb now expires_at) expired

-- `except AuthorizationError` counts every fault but the `ValueError`.
abbrev pub rejected : {F A : Type 0} → GateFault → GateState F → Result GateFault A × GateState F
rejected value_error s = (err value_error, s)
rejected e s = refuse e s

abbrev pub consumed_by :
    {F : Type 0}
    → GateState F
    → Result Reason Unit × ControlLedger
    → Result GateFault Unit × GateState F
consumed_by s (ok _, l) = (ok tt, record s { ledger = l })
consumed_by s (err reason, l) = ledger_refused reason (record s { ledger = l })

abbrev pub consume_args : AttemptArgs → String → ConsumeArgs
consume_args attempt consumed_at = record {
  attempt_id = attempt.attempt_id;
  attempt_binding_sha256 = attempt.attempt_binding_sha256;
  consumed_at = some consumed_at;
  idempotency_key = attempt.idempotency_key;
  recovery_summary = attempt.recovery_summary;
}

module _ (platform : Platform) (gate : GateConfig) where
  abbrev pub consume_valid :
      {F : Type 0}
      → Result GateFault Unit
      → AuthorizationToken
      → AttemptArgs
      → String
      → GateState F
      → Result GateFault Unit × GateState F
  consume_valid (err e) token attempt consumed_at s = rejected e s
  consume_valid (ok _) token attempt consumed_at s =
      consumed_by s
        (consume_once platform token.unsigned.token_id (consume_args attempt consumed_at) s.ledger)

  -- `validate_and_consume`: the token is validated at `now`, and `consumed_at` is the text of the time
  -- at which it is consumed.
  unfoldable pub validate_and_consume :
      {F : Type 0}
      → AuthorizationToken
      → PresentedScope
      → AttemptArgs
      → ℕ
      → String
      → GateState F
      → Result GateFault Unit × GateState F
  unfolding validate
  validate_and_consume token scope attempt now consumed_at s =
      consume_valid (validate gate token scope now s.ledger) token attempt consumed_at s
