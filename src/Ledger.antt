-- ===== src/Ledger.antt =====
-- src/adf_poc/stage_a.py, `InMemoryControlLedger`: request claims, authorizations, attempts and
-- the outbox of control events.
pub mod Ops
pub mod Steps
pub mod Tables
pub mod Tokens
pub mod Attempts
pub mod Outbox
pub mod Decisions
pub mod Atomic
pub mod Claims
pub mod States
use Prim.Native.Char.{code}
use ai_decision_firewall.Prelude.{
  ℕ, ◌+◌, suc, String, string_eq, nat_eq, pair_eq, ◌==◌, Bool, true, false, not, ◌&&◌, ◌||◌, List,
  [], ◌∷◌, ◌++◌, Dict, lookup, insert, Option, none, some, Result, ok, err, ltb, leb, length,
  contains, ◌>>=◌, ◌>>◌, join, text_length, is_blank, if◌then◌else◌,
}

-- The reason codes of `ControlLedgerError`.
pub data Reason : Type 0 where
  binding_invalid recovery_summary_invalid authorization_id_collision : Reason
  authorization_decision_replay authorization_unknown authorization_replay : Reason
  attempt_idempotency_conflict attempt_outcome_conflict attempt_state_invalid : Reason
  attempt_unknown recovery_quiescence_required : Reason
  -- the `UnicodeEncodeError` of a text with a lone surrogate
  text_not_encodable : Reason

abbrev pub guard : Bool → Reason → Result Reason Unit
guard true e = ok tt
guard false e = err e

pub data TokenState : Type 0 where
  issued consumed revoked : TokenState

pub data AttemptState : Type 0 where
  reserved receipt_recorded verified_effect failed_no_effect recovery_required : AttemptState
  unknown_effect : AttemptState

-- `_TERMINAL_ATTEMPT_STATES`
abbrev pub is_terminal : AttemptState → Bool
is_terminal reserved = false
is_terminal receipt_recorded = false
is_terminal _ = true

-- Equality of two states, by their place in the list of states.
abbrev rank : AttemptState → ℕ
rank reserved = 0
rank receipt_recorded = 1
rank verified_effect = 2
rank failed_no_effect = 3
rank recovery_required = 4
rank unknown_effect = 5

abbrev pub same_state : AttemptState → AttemptState → Bool
same_state a b = rank a == rank b

abbrev pub is_some_text : Option String → String → Bool
is_some_text none t = false
is_some_text (some u) t = u == t

pub record Attempt : Type 0 where
  pub attempt_id : String
  pub token_id : String
  pub binding_sha256 : String
  pub state : AttemptState
  pub outcome_sha256 : Option String
  pub reserved_at : String
  pub completed_at : Option String
  pub adapter_receipt_sha256 : Option String

-- The payloads of the control events; of each the ledger keeps the digest.
pub data EventPayload : Type 0 where
  request_claimed : String → EventPayload
  authorization_issued : (verification_id_sha256 decision_id_sha256 : String) → EventPayload
  attempt_reserved : (token_id_sha256 binding_sha256 : String) → EventPayload
  authorization_consumed : Option String → EventPayload
  adapter_receipt_recorded : String → EventPayload
  attempt_terminal : AttemptState → String → EventPayload
  attempt_recovered : EventPayload
  authorization_revoked : EventPayload

pub record Event : Type 0 where
  pub event_id : ℕ
  pub event_type : String
  pub subject_id : String
  pub payload_sha256 : String
  pub created_at : String
  pub exported_at : Option String

pub record ControlLedger : Type 0 where
  pub requests : Dict (String × String) String
  pub authorization_states : Dict String TokenState
  pub verification_ids : List String
  pub decision_ids : List String
  pub attempts : Dict String Attempt
  pub token_attempts : Dict String String
  pub outbox : List Event

abbrev pub new_ledger : ControlLedger
new_ledger = record {
  requests = [];
  authorization_states = [];
  verification_ids = [];
  decision_ids = [];
  attempts = [];
  token_attempts = [];
  outbox = [];
}

-- What a recovery summary holds, in its closed shape.
pub record RecoverySummary : Type 0 where
  pub summary_version : String
  pub principal_id : String
  pub request_id : String
  pub request_sha256 : String
  pub decision_id : String
  pub decision_outcome : String
  pub decision_sha256 : String
  pub decision_context_sha256 : String
  pub policy_sha256 : String
  pub decided_at : String

-- The standard library and the clock: SHA-256 of a text, the digest of an event's canonical JSON,
-- the digest and the completion time of a recovered attempt, whether `fromisoformat` gives a time
-- with an offset, and the time text at each event.
pub record Platform : Type 0 where
  -- `none` for a text that UTF-8 does not encode
  pub sha256_text : String → Option String
  pub event_digest : String → String → EventPayload → String
  pub recovered_digest : String → String
  pub recovered_at : String → String
  pub has_offset : String → Bool
  pub now : ℕ → String

-- `_require_identifier`
unfoldable pub require_identifier : String → Result Reason Unit
require_identifier value =
    guard (not (is_blank value) && leb (text_length value) 512) binding_invalid

abbrev is_hex : ℕ → Bool
is_hex c = (leb b'0' c && leb c b'9') || (leb b'a' c && leb c b'f')

-- Every character is one of 0123456789abcdef.
unfoldable pub all_hex : String → Bool
all_hex String.[] = true
all_hex (String.◌∷◌ c rest) = is_hex (code c) && all_hex rest

-- `_require_sha256`
unfoldable pub require_sha256 : String → Result Reason Unit
unfolding require_identifier all_hex
require_sha256 value = do
  require_identifier value
  guard (text_length value == 64 && all_hex value) binding_invalid

-- `_assert_quiesced`
abbrev pub assert_quiesced : Bool → Result Reason Unit
assert_quiesced value = guard value recovery_quiescence_required

-- `value or default`, for an optional text: the empty text counts as missing.
abbrev pub or_text : Option String → String → String
or_text none d = d
or_text (some t) d = if is_blank t then d else t

module _ (platform : Platform) where
  -- `_is_offset_timestamp`
  unfoldable pub is_offset_timestamp : String → Bool
  is_offset_timestamp value =
      not (is_blank value) && leb (text_length value) 64 && platform.has_offset value

  unfoldable pub require_timestamp : Option String → Reason → Result Reason Unit
  unfolding is_offset_timestamp
  require_timestamp none reason = err reason
  require_timestamp (some value) reason = guard (is_offset_timestamp value) reason

  abbrev pub optional_timestamp : Option String → Result Reason Unit
  optional_timestamp none = ok tt
  optional_timestamp (some value) = require_timestamp (some value) binding_invalid

  -- `_validate_recovery_summary`, on a dictionary of the closed shape.
  unfoldable pub validate_recovery_summary : RecoverySummary → Result Reason Unit
  unfolding require_identifier require_sha256 require_timestamp
  validate_recovery_summary value = do
    guard (value.summary_version == "1") recovery_summary_invalid
    require_identifier value.principal_id
    require_identifier value.request_id
    require_identifier value.decision_id
    guard
        (contains ("ALLOW" ∷ "DENY" ∷ "ESCALATE" ∷ "ALLOW_CONSTRAINED" ∷ []) value.decision_outcome)
        recovery_summary_invalid
    require_timestamp (some value.decided_at) recovery_summary_invalid
    require_sha256 value.request_sha256
    require_sha256 value.decision_sha256
    require_sha256 value.decision_context_sha256
    require_sha256 value.policy_sha256

  -- The event that `_append_event` adds to an outbox.
  abbrev pub new_event : String → String → EventPayload → List Event → Event
  new_event event_type subject_id payload outbox = record {
    event_id = length outbox + 1;
    event_type = event_type;
    subject_id = subject_id;
    payload_sha256 = platform.event_digest event_type subject_id payload;
    created_at = platform.now (length outbox + 1);
    exported_at = none;
  }

  -- `_append_event`, on the outbox.
  unfoldable pub append_event : String → String → EventPayload → List Event → List Event
  append_event event_type subject_id payload outbox =
      outbox ++ new_event event_type subject_id payload outbox ∷ []
