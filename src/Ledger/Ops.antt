-- ===== src/Ledger/Ops.antt =====
-- The operations of `InMemoryControlLedger` in stage_a.py. Each returns its result, or the reason
-- for which it raises, beside the ledger that it leaves.
use ai_decision_firewall.Prelude.{
  ℕ, ◌+◌, String, string_eq, pair_eq, ◌==◌, Bool, true, false, not, ◌&&◌, ◌||◌, List, [], ◌∷◌, Dict,
  lookup, insert, Option, none, some, Result, ok, err, ◌>>◌, keep, contains, join, if◌then◌else◌,
}
use ai_decision_firewall.Ledger.{
  Reason, binding_invalid, authorization_id_collision, authorization_decision_replay,
  authorization_unknown, authorization_replay, text_not_encodable, attempt_idempotency_conflict,
  attempt_outcome_conflict, attempt_state_invalid, attempt_unknown, guard, TokenState, issued,
  consumed, revoked, AttemptState, reserved, receipt_recorded, unknown_effect, is_terminal,
  same_state, is_some_text, Attempt, request_claimed, authorization_issued, attempt_reserved,
  authorization_consumed, adapter_receipt_recorded, attempt_terminal, attempt_recovered,
  authorization_revoked, Event, ControlLedger, RecoverySummary, Platform, require_identifier,
  require_sha256, assert_quiesced, or_text, require_timestamp, validate_recovery_summary,
  append_event, optional_timestamp,
}

pub data Claim : Type 0 where
  new_claim duplicate conflict : Claim

-- What `claim_request` does to a claim that is there already, or not.
abbrev pub claim_answer : Option String → String → Claim
claim_answer none sha = new_claim
claim_answer (some existing) sha = if existing == sha then duplicate else conflict

-- The reservation that a consumption makes, once its arguments are checked.
pub record Reservation : Type 0 where
  pub attempt_id : String
  pub binding_sha256 : String
  pub reserved_at : String

-- The arguments of `consume_once` behind the token.
pub record ConsumeArgs : Type 0 where
  pub attempt_id : Option String
  pub attempt_binding_sha256 : Option String
  pub consumed_at : Option String
  pub idempotency_key : Option String
  pub recovery_summary : Option RecoverySummary

abbrev pub has_key : {V : Type 0} → String → Dict String V → Bool
has_key k d = elim (lookup k d) [ none ↦ false | some _ ↦ true ]

-- The row of an attempt under another state and outcome.
abbrev pub is_open : AttemptState → Bool
is_open s = not (is_terminal s)

abbrev pub is_reserved : AttemptState → Bool
is_reserved s = same_state s reserved

-- A call whose arguments are checked first, and which leaves the ledger alone if they fail.
abbrev pub checked :
    {A : Type 0}
    → Result Reason Unit
    → ControlLedger
    → Result Reason A × ControlLedger
    → Result Reason A × ControlLedger
checked (ok _) l out = out
checked (err e) l out = (err e, l)

module _ (platform : Platform) where
  abbrev pub after_claim :
      String → String → String → ControlLedger → Claim → Result Reason Claim × ControlLedger
  after_claim principal_id request_id sha l new_claim = (
    ok new_claim,
    record l {
      requests = insert (principal_id, request_id) sha l.requests;
      outbox =
          append_event platform "REQUEST_CLAIMED" (join principal_id (join ":" request_id))
            (request_claimed sha) l.outbox;
    },
  )
  after_claim principal_id request_id sha l other = (ok other, l)

  -- `claim_request`
  unfoldable pub claim_request :
      String → String → String → Option String → ControlLedger → Result Reason Claim × ControlLedger
  claim_request principal_id request_id sha claimed_at l =
      checked
        (do
          require_identifier principal_id
          require_identifier request_id
          require_sha256 sha
          optional_timestamp platform claimed_at)
        l
        (after_claim principal_id request_id sha l
          (claim_answer (lookup (principal_id, request_id) l.requests) sha))

  -- What follows the entries of a registration: its event, for which the digests are computed.
  abbrev pub issued_event :
      String → Option String → Option String → ControlLedger → Result Reason Unit × ControlLedger
  issued_event token_id (some verification_sha256) (some decision_sha256) l = (
    ok tt,
    record l {
      outbox =
          append_event platform "AUTHORIZATION_ISSUED" token_id
            (authorization_issued verification_sha256 decision_sha256) l.outbox;
    },
  )
  issued_event token_id (some verification_sha256) none l = (err text_not_encodable, l)
  issued_event token_id none decision_sha256 l = (err text_not_encodable, l)

  abbrev pub enter : String → String → String → ControlLedger → ControlLedger
  enter token_id verification_id decision_id l = record l {
    authorization_states = insert token_id issued l.authorization_states;
    verification_ids = verification_id ∷ l.verification_ids;
    decision_ids = decision_id ∷ l.decision_ids;
  }

  unfoldable pub register_valid :
      String → String → String → ControlLedger → Result Reason Unit × ControlLedger
  register_valid token_id verification_id decision_id l =
      if has_key token_id l.authorization_states
      then (err authorization_id_collision, l)
      else if contains l.verification_ids verification_id || contains l.decision_ids decision_id
      then (err authorization_decision_replay, l)
      else issued_event token_id (platform.sha256_text verification_id)
          (platform.sha256_text decision_id) (enter token_id verification_id decision_id l)

  -- `register`, with the arguments that it reads.
  unfoldable pub register :
      String
      → Option String
      → Option String
      → Option String
      → ControlLedger
      → Result Reason Unit × ControlLedger
  unfolding register_valid
  register token_id verification decision issued_at l =
      let verification_id = or_text verification (join "legacy:" token_id) in
      let decision_id = or_text decision (join "legacy:" token_id) in
      checked
        (do
          require_identifier token_id
          require_identifier verification_id
          require_identifier decision_id
          optional_timestamp platform issued_at)
        l (register_valid token_id verification_id decision_id l)

  abbrev summary_check : Option RecoverySummary → Result Reason Unit
  summary_check none = ok tt
  summary_check (some summary) = validate_recovery_summary platform summary

  abbrev timestamp_text : Option String → String
  timestamp_text none = ""
  timestamp_text (some t) = t

  -- The checks of `consume_once` on the arguments of the attempt, which come together or not at all.
  abbrev reservation :
      ConsumeArgs → Option String → Option String → Result Reason (Option Reservation)
  reservation args none none = ok none
  reservation args none (some _) = err binding_invalid
  reservation args (some _) none = err binding_invalid
  reservation args (some attempt_id) (some binding) = do
    require_identifier attempt_id
    require_sha256 binding
    require_sha256 (or_text args.idempotency_key binding)
    guard (or_text args.idempotency_key binding == binding) attempt_idempotency_conflict
    require_timestamp platform args.consumed_at binding_invalid
    summary_check args.recovery_summary
    ok (
        some (record {
          attempt_id = attempt_id;
          binding_sha256 = binding;
          reserved_at = timestamp_text args.consumed_at;
        }))

  unfoldable pub check_reservation : ConsumeArgs → Result Reason (Option Reservation)
  check_reservation args = reservation args args.attempt_id args.attempt_binding_sha256

  -- The consumption of an issued token, after the reservation if there is one.
  abbrev pub consume_token :
      String → Option String → ControlLedger → Result Reason Unit × ControlLedger
  consume_token token_id attempt_id l = (
    ok tt,
    record l {
      authorization_states = insert token_id consumed l.authorization_states;
      outbox =
          append_event platform "AUTHORIZATION_CONSUMED" token_id
            (authorization_consumed attempt_id) l.outbox;
    },
  )

  -- The entries of a reservation.
  abbrev pub reserve : String → Reservation → ControlLedger → ControlLedger
  reserve token_id r l = record l {
    attempts =
        insert r.attempt_id
          (record {
            attempt_id = r.attempt_id;
            token_id = token_id;
            binding_sha256 = r.binding_sha256;
            state = reserved;
            outcome_sha256 = none;
            reserved_at = r.reserved_at;
            completed_at = none;
            adapter_receipt_sha256 = none;
          })
          l.attempts;
    token_attempts = insert token_id r.attempt_id l.token_attempts;
  }

  abbrev pub reserved_event : String → Reservation → ControlLedger → ControlLedger
  reserved_event token_sha256 r l = record l {
    outbox =
        append_event platform "ATTEMPT_RESERVED" r.attempt_id
          (attempt_reserved token_sha256 r.binding_sha256) l.outbox;
  }

  -- What follows the entries of a reservation: its event, for which the digest of the token is
  -- computed.
  abbrev pub consume_reserved :
      String → Reservation → Option String → ControlLedger → Result Reason Unit × ControlLedger
  consume_reserved token_id r none l = (err text_not_encodable, l)
  consume_reserved token_id r (some token_sha256) l =
      consume_token token_id (some r.attempt_id) (reserved_event token_sha256 r l)

  abbrev pub consume_issued :
      String → Option Reservation → ControlLedger → Result Reason Unit × ControlLedger
  consume_issued token_id none l = consume_token token_id none l
  consume_issued token_id (some r) l =
      if has_key r.attempt_id l.attempts || has_key token_id l.token_attempts
      then (err attempt_idempotency_conflict, l)
      else consume_reserved token_id r (platform.sha256_text token_id) (reserve token_id r l)

  abbrev pub consume_at :
      String
      → Option Reservation
      → ControlLedger
      → Option TokenState
      → Result Reason Unit × ControlLedger
  consume_at token_id r l none = (err authorization_unknown, l)
  consume_at token_id r l (some issued) = consume_issued token_id r l
  consume_at token_id r l (some consumed) = (err authorization_replay, l)
  consume_at token_id r l (some revoked) = (err authorization_replay, l)

  abbrev pub consume_checked :
      String
      → Result Reason (Option Reservation)
      → ControlLedger
      → Result Reason Unit × ControlLedger
  consume_checked token_id (err e) l = (err e, l)
  consume_checked token_id (ok r) l =
      consume_at token_id r l (lookup token_id l.authorization_states)

  -- `consume_once`
  unfoldable pub consume_once :
      String → ConsumeArgs → ControlLedger → Result Reason Unit × ControlLedger
  consume_once token_id args l =
      consume_checked token_id (do require_identifier token_id; check_reservation args) l

  abbrev pub receive :
      String → String → String → ControlLedger → Option Attempt → Result Reason Unit × ControlLedger
  receive attempt_id receipt outcome l none = (err attempt_outcome_conflict, l)
  receive attempt_id receipt outcome l (some row) =
      if is_reserved row.state
      then (
        ok tt,
        record l {
          attempts =
              insert attempt_id
                (record row {
                  state = receipt_recorded;
                  outcome_sha256 = some outcome;
                  adapter_receipt_sha256 = some receipt;
                })
                l.attempts;
          outbox =
              append_event platform "ADAPTER_RECEIPT_RECORDED" attempt_id
                (adapter_receipt_recorded receipt) l.outbox;
        },
      )
      else (err attempt_outcome_conflict, l)

  -- `record_adapter_receipt`
  unfoldable pub record_adapter_receipt :
      String → String → String → String → ControlLedger → Result Reason Unit × ControlLedger
  record_adapter_receipt attempt_id receipt outcome recorded_at l =
      checked
        (do
          require_identifier attempt_id
          require_sha256 receipt
          require_sha256 outcome
          require_identifier recorded_at)
        l (receive attempt_id receipt outcome l (lookup attempt_id l.attempts))

  abbrev pub close :
      String
      → AttemptState
      → String
      → String
      → ControlLedger
      → Option Attempt
      → Result Reason Unit × ControlLedger
  close attempt_id state outcome completed_at l none = (err attempt_unknown, l)
  close attempt_id state outcome completed_at l (some row) =
      if is_open row.state
      then (
        ok tt,
        record l {
          attempts =
              insert attempt_id
                (record row {
                  state = state;
                  outcome_sha256 = some outcome;
                  completed_at = some completed_at;
                })
                l.attempts;
          outbox =
              append_event platform "ATTEMPT_TERMINAL" attempt_id (attempt_terminal state outcome)
                l.outbox;
        },
      )
      else if same_state row.state state && is_some_text row.outcome_sha256 outcome
      then (ok tt, l)
      else (err attempt_outcome_conflict, l)

  -- `record_attempt_outcome`
  unfoldable pub record_attempt_outcome :
      String → AttemptState → String → String → ControlLedger → Result Reason Unit × ControlLedger
  record_attempt_outcome attempt_id state outcome completed_at l =
      checked
        (do
          require_identifier attempt_id
          require_sha256 outcome
          require_identifier completed_at
          guard (is_terminal state) attempt_state_invalid)
        l (close attempt_id state outcome completed_at l (lookup attempt_id l.attempts))

  -- The loop of `recover_incomplete_attempts` over the attempts: how many it recovers, the rows that
  -- it leaves and the outbox.
  unfoldable pub recover_rows :
      Dict String Attempt → List Event → ℕ × Dict String Attempt × List Event
  recover_rows [] outbox = (0, [], outbox)
  recover_rows ((attempt_id, row) ∷ rest) outbox =
      let skipped = recover_rows rest outbox in
      let recovered =
        recover_rows rest
          (append_event platform "ATTEMPT_RECOVERED_UNKNOWN" attempt_id attempt_recovered outbox) in
      let unknown = record row {
        state = unknown_effect;
        completed_at = some (platform.recovered_at attempt_id);
        outcome_sha256 = some (platform.recovered_digest attempt_id);
      } in
      if is_reserved row.state
      then (recovered.0 + 1, (attempt_id, unknown) ∷ recovered.1, recovered.2)
      else (skipped.0, (attempt_id, row) ∷ skipped.1, skipped.2)

  -- The loop over the authorizations.
  unfoldable pub revoke_tokens :
      Dict String TokenState → List Event → Dict String TokenState × List Event
  revoke_tokens [] outbox = ([], outbox)
  revoke_tokens ((token_id, issued) ∷ rest) outbox =
      let revoking =
        revoke_tokens rest
          (append_event platform "AUTHORIZATION_REVOKED" token_id authorization_revoked outbox) in
      ((token_id, revoked) ∷ revoking.0, revoking.1)
  revoke_tokens ((token_id, state) ∷ rest) outbox =
      let kept = revoke_tokens rest outbox in ((token_id, state) ∷ kept.0, kept.1)

  -- The ledger after both loops.
  unfoldable pub recovered_ledger : ControlLedger → ℕ × ControlLedger
  unfolding recover_rows revoke_tokens
  recovered_ledger l =
      let rows = recover_rows l.attempts l.outbox in
      let tokens = revoke_tokens l.authorization_states rows.2 in
      (rows.0, record l { attempts = rows.1; authorization_states = tokens.0; outbox = tokens.1 })

  -- `recover_incomplete_attempts`
  unfoldable pub recover_incomplete_attempts :
      Bool → ControlLedger → Result Reason ℕ × ControlLedger
  unfolding recovered_ledger
  recover_incomplete_attempts operator_asserted_quiesced l =
      checked (assert_quiesced operator_asserted_quiesced) l
        (ok (recovered_ledger l).0, (recovered_ledger l).1)

-- `state`
unfoldable pub state : String → ControlLedger → Result Reason (Option TokenState)
unfolding require_identifier
state token_id l = do require_identifier token_id; ok (lookup token_id l.authorization_states)

-- `attempt_snapshot`
unfoldable pub attempt_snapshot : String → ControlLedger → Result Reason (Option Attempt)
unfolding require_identifier
attempt_snapshot attempt_id l = do require_identifier attempt_id; ok (lookup attempt_id l.attempts)

is_pending : Event → Bool
is_pending event = elim event.exported_at [ none ↦ true | some _ ↦ false ]

-- `pending_outbox`
unfoldable pub pending_outbox : ControlLedger → List Event
unfolding is_pending
pending_outbox l = keep is_pending l.outbox
