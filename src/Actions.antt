-- ===== src/Actions.antt =====
-- src/adf_poc/actions.py: the signed authorization token, the simulated identity provider, the
-- broker between them, and the check after the action.
pub mod Gate
pub mod Target
pub mod Accounts
use ai_decision_firewall.Prelude.{
  ℕ, ◌+◌, ◌*◌, ◌/◌, ◌%◌, String, string_eq, nat_eq, ◌==◌, Bool, true, false, not, ◌&&◌, List, [],
  ◌∷◌, Dict, lookup, insert, Option, none, some, Result, ok, err, ltb, is_empty, all_of, contains,
  join, if◌then◌else◌,
}
use ai_decision_firewall.Schemas.{Disposition, IdentityCase}
use ai_decision_firewall.Policy.{PolicyConfig, DecisionProposal}
use ai_decision_firewall.Verifier.{VerificationResult}

-- What `unsigned_dict` signs. A time is a number of microseconds, its text an ISO 8601 text.
pub record UnsignedToken : Type 0 where
  pub token_id : String
  pub case_id : String
  pub decision_hash : String
  pub permitted_actions : List String
  pub issued_at : String
  pub expires_at : String

pub record AuthorizationToken : Type 0 where
  pub unsigned : UnsignedToken
  pub open unsigned use *
  pub signature : String

-- The dictionary whose digest is `decision_hash`.
pub record DecisionCore : Type 0 where
  pub case_id : String
  pub disposition : Disposition
  pub actions : List String
  pub rules : List String
  pub evidence_event_ids : List String

-- The standard library: HMAC and SHA-256 over canonical JSON, and ISO 8601 texts. `parse_time` is
-- `none` where `fromisoformat` raises.
pub record Services : Type 0 where
  pub hmac_token : String → UnsignedToken → String
  pub sha256_core : DecisionCore → String
  -- the number that the first eight hexadecimal digits of the text's SHA-256 spell
  pub sha256_prefix : String → ℕ
  pub format_time : ℕ → String
  pub parse_time : String → Option ℕ

-- The exceptions: `AuthorizationError` with its text, and those that nothing here catches.
pub data Fault : Type 0 where
  authorization : String → Fault
  value_error : Fault
  key_error : Fault

abbrev pub microseconds : ℕ
microseconds = 1000000

-- `replace(microsecond=0)`
abbrev pub whole_seconds : ℕ → ℕ
whole_seconds t = t / microseconds * microseconds

pub record AuthorizationGate (F : Type 0) : Type 0 where
  pub config : PolicyConfig F
  pub signing_key : String

pub record TargetState : Type 0 where
  pub subject_id : String
  pub active_sessions : ℕ
  pub step_up_required : Bool
  pub monitoring_level : String
  pub account_enabled : Bool

-- `SimulatedIdentityProvider.states`
abbrev pub States : Type 0
States = Dict String TargetState

-- The states of a rejected action are the empty dictionary, `none`.
pub record ActionResult : Type 0 where
  pub action : String
  pub success : Bool
  pub state_before : Option TargetState
  pub state_after : Option TargetState
  pub message : String
  pub rollback_reference : String

-- A value that `PostActionVerifier` compares; `absent` is the None of `dict.get`.
pub data FieldValue : Type 0 where
  number : ℕ → FieldValue
  flag : Bool → FieldValue
  label : String → FieldValue
  absent : FieldValue

pub record PostCheck : Type 0 where
  pub action : String
  pub passed : Bool
  pub field : String
  pub expected : FieldValue
  pub actual : FieldValue

-- `datetime.now(timezone.utc) > datetime.fromisoformat(token.expires_at)`
abbrev pub check_expiry : ℕ → Option ℕ → Result Fault Unit
check_expiry now none = err value_error
check_expiry now (some expires) =
    if ltb expires now then err (authorization "Authorization token has expired.") else ok tt

module _ (s : Services) {F : Type 0} where
  -- `AuthorizationGate._sign`
  unfoldable pub sign : AuthorizationGate F → UnsignedToken → String
  sign gate payload = s.hmac_token gate.signing_key payload

  unfoldable pub issue_token :
      AuthorizationGate F
      → (now : ℕ) → (fresh : String) → IdentityCase F
      → DecisionProposal F
      → AuthorizationToken
  unfolding sign
  issue_token gate now fresh case proposal =
      let unsigned : UnsignedToken = record {
        token_id = join "auth-" fresh;
        case_id = case.case_id;
        decision_hash = s.sha256_core (record {
          case_id = case.case_id;
          disposition = proposal.disposition;
          actions = proposal.executable_actions;
          rules = proposal.policy_rules_applied;
          evidence_event_ids = proposal.evidence_event_ids;
        });
        permitted_actions = proposal.executable_actions;
        issued_at = s.format_time (whole_seconds now);
        expires_at =
            s.format_time (
              whole_seconds now
              + gate.config.safety.authorization_token_ttl_seconds * microseconds);
      } in
      record { unsigned = unsigned; signature = sign gate unsigned }

  -- `AuthorizationGate.authorize`; `fresh` is the text of the new UUID.
  unfoldable pub authorize :
      AuthorizationGate F
      → (now : ℕ) → (fresh : String) → IdentityCase F
      → DecisionProposal F
      → VerificationResult F
      → Result Fault (Option AuthorizationToken)
  unfolding issue_token
  authorize gate now fresh case proposal verification =
      if is_empty proposal.executable_actions
      then ok none
      else if not verification.passed
      then err
          (authorization "Independent verification failed; authorization token cannot be issued.")
      else ok (some (issue_token gate now fresh case proposal))

  -- `AuthorizationGate.validate`
  unfoldable pub validate :
      AuthorizationGate F → (now : ℕ) → AuthorizationToken → String → String → Result Fault Unit
  unfolding sign
  validate gate now token case_id action =
      if not (sign gate token.unsigned == token.signature)
      then err (authorization "Authorization token signature is invalid.")
      else if not (token.case_id == case_id)
      then err (authorization "Authorization token does not match the case.")
      else if not (contains token.permitted_actions action)
      then err (authorization "Action is not permitted by the authorization token.")
      else check_expiry now (s.parse_time token.expires_at)

module _ {F : Type 0} where
  abbrev initial_state : IdentityCase F → TargetState
  initial_state case = record {
    subject_id = case.subject_id;
    active_sessions = 2;
    step_up_required = false;
    monitoring_level = "baseline";
    account_enabled = true;
  }

  -- `SimulatedIdentityProvider.initialize_case`
  unfoldable pub initialize_case : IdentityCase F → States → States
  initialize_case case states = elim (lookup case.case_id states) [
    | none ↦ insert case.case_id (initial_state case) states
    | some _ ↦ states
  ]

-- What a supported action does to the state, with its rollback reference.
unfoldable pub effect : String → TargetState → Option (TargetState × String)
effect action state =
    if action == "revoke_active_sessions"
    then some (record state { active_sessions = 0 }, "reauthentication_required")
    else if action == "force_step_up_auth"
    then some (record state { step_up_required = true }, "remove_temporary_step_up_policy")
    else if action == "increase_monitoring"
    then some (record state { monitoring_level = "enhanced" }, "restore_baseline_monitoring")
    else none

abbrev pub failed_downstream : String → TargetState → ActionResult
failed_downstream action state = record {
  action = action;
  success = false;
  state_before = some state;
  state_after = some state;
  message = "Synthetic downstream control-plane failure; no state change occurred.";
  rollback_reference = "not_required_no_change";
}

abbrev pub applied : String → TargetState → TargetState → String → ActionResult
applied action before after rollback = record {
  action = action;
  success = true;
  state_before = some before;
  state_after = some after;
  message = "Synthetic action applied to the in-memory identity state.";
  rollback_reference = rollback;
}

module _ (s : Services) where
  unfoldable pub downstream_failure : String → String → Bool
  downstream_failure case_id action = s.sha256_prefix (join case_id (join ":" action)) % 53 == 0

  -- The rest of `apply`, at the state of the case.
  abbrev pub apply_effect :
      String
      → String
      → States
      → TargetState
      → Option (TargetState × String)
      → Result Fault ActionResult × States
  apply_effect case_id action states state none =
      (err (authorization (join "The simulator does not implement action: " action)), states)
  apply_effect case_id action states state (some (after, rollback)) =
      (ok (applied action state after rollback), insert case_id after states)

  abbrev pub apply_at :
      String → String → States → Option TargetState → Result Fault ActionResult × States
  apply_at case_id action states none = (err key_error, states)
  apply_at case_id action states (some state) =
      if downstream_failure case_id action
      then (ok (failed_downstream action state), states)
      else apply_effect case_id action states state (effect action state)

  -- `SimulatedIdentityProvider.apply`
  unfoldable pub apply : String → String → States → Result Fault ActionResult × States
  apply case_id action states = apply_at case_id action states (lookup case_id states)

  -- `ActionBroker.execute`
  unfoldable pub execute :
      {F : Type 0}
      → AuthorizationGate F
      → (now : ℕ) → IdentityCase F
      → String
      → Option AuthorizationToken
      → States
      → Result Fault ActionResult × States
  execute gate now case action none states =
      (err (authorization "No authorization token was supplied."), states)
  execute gate now case action (some token) states =
      elim (validate s gate now token case.case_id action) [
        | err e ↦ (err e, states)
        | ok _ ↦ apply case.case_id action (initialize_case case states)
      ]

-- `EXPECTED_STATE[action]`
unfoldable pub expected_state : String → Option (String × FieldValue)
expected_state action =
    if action == "revoke_active_sessions"
    then some ("active_sessions", number 0)
    else if action == "force_step_up_auth"
    then some ("step_up_required", flag true)
    else if action == "increase_monitoring"
    then some ("monitoring_level", label "enhanced")
    else none

-- `state_after.get(field)`
unfoldable pub get_field : Option TargetState → String → FieldValue
get_field none field = absent
get_field (some state) field =
    if field == "active_sessions"
    then number state.active_sessions
    else if field == "step_up_required"
    then flag state.step_up_required
    else if field == "monitoring_level"
    then label state.monitoring_level
    else absent

abbrev bool_eq : Bool → Bool → Bool
bool_eq true b = b
bool_eq false b = not b

-- `actual == expected`: the pairs that meet here have one type, or `actual` is None.
abbrev pub same_value : FieldValue → FieldValue → Bool
same_value (number a) (number b) = a == b
same_value (flag a) (flag b) = bool_eq a b
same_value (label a) (label b) = a == b
same_value absent absent = true
same_value _ _ = false

abbrev post_check : ActionResult → Option (String × FieldValue) → Option PostCheck
post_check result none = none
post_check result (some (field, expected)) =
    let actual = get_field result.state_after field in
    some (record {
      action = result.action;
      passed = result.success && same_value actual expected;
      field = field;
      expected = expected;
      actual = actual;
    })

-- One round of the loop in `PostActionVerifier.verify`; `none` is the KeyError.
unfoldable pub check_result : ActionResult → Option PostCheck
unfolding expected_state get_field
check_result result = post_check result (expected_state result.action)

abbrev cons_check : Option PostCheck → Option (List PostCheck) → Option (List PostCheck)
cons_check (some c) (some cs) = some (c ∷ cs)
cons_check _ _ = none

unfoldable pub check_results : List ActionResult → Option (List PostCheck)
check_results [] = some []
check_results (r ∷ rs) = cons_check (check_result r) (check_results rs)

-- `PostActionVerifier.verify`: all passed, and the rows. No row at all passes.
unfoldable pub verify_results : List ActionResult → Option (Bool × List PostCheck)
unfolding check_results
verify_results results = elim (check_results results) [
  | none ↦ none
  | some checks ↦ some (all_of (λ c. c.passed) checks, checks)
]
