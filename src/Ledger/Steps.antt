-- ===== src/Ledger/Steps.antt =====
-- The operations of `InMemoryControlLedger` in stage_a.py as the steps of one state machine.
use ai_decision_firewall.Prelude.{
  String, string_eq, pair_eq, ◌==◌, ◌≡◌, refl, Bool, true, false, ◌&&◌, List, [], ◌∷◌, Dict, lookup,
  insert, contains, Option, none, some, Result, ok, err, inl, inr, Bool-cases, arith,
}
use ai_decision_firewall.Ledger.{
  Reason, TokenState, issued, consumed, revoked, AttemptState, is_terminal, same_state,
  is_some_text, Attempt, EventPayload, ControlLedger, Platform, append_event,
}
use ai_decision_firewall.Ledger.Ops.{
  claim_answer, checked, after_claim, claim_request, register_valid, register, ConsumeArgs,
  Reservation, issued_event, enter, reserved_event, consume_reserved, reserve, has_key,
  consume_token, consume_issued, consume_at, consume_checked, consume_once, receive,
  record_adapter_receipt, close, record_attempt_outcome, recovered_ledger,
  recover_incomplete_attempts, is_reserved,
}

-- A call of one of the operations, with its arguments.
pub data Op : Type 0 where
  op_claim : (principal_id request_id request_sha256 : String) → Option String → Op
  op_register : (token_id : String) → (verification_id decision_id issued_at : Option String) → Op
  op_consume : (token_id : String) → ConsumeArgs → Op
  op_receipt : (attempt_id receipt outcome recorded_at : String) → Op
  op_outcome : String → AttemptState → (outcome completed_at : String) → Op
  op_recover : Bool → Op

-- Whether the call raised, without its value.
abbrev pub without_value :
    {A : Type 0} → Result Reason A × ControlLedger → Result Reason Unit × ControlLedger
without_value (ok _, l) = (ok tt, l)
without_value (err e, l) = (err e, l)

has_key-none :
    {V : Type 0} (k : String) (d : Dict String V) → has_key k d ≡ false → lookup k d ≡ none
has_key-none k d h = ground arith

is_reserved-open : (s : AttemptState) → is_reserved s ≡ true → is_terminal s ≡ false
is_reserved-open s h = ground arith

module _ (platform : Platform) where
  abbrev pub step : Op → ControlLedger → Result Reason Unit × ControlLedger
  step (op_claim p r sha at) l = without_value (claim_request platform p r sha at l)
  step (op_register t v d at) l = register platform t v d at l
  step (op_consume t args) l = consume_once platform t args l
  step (op_receipt a receipt outcome at) l = record_adapter_receipt platform a receipt outcome at l
  step (op_outcome a s outcome at) l = record_attempt_outcome platform a s outcome at l
  step (op_recover quiesced) l = without_value (recover_incomplete_attempts platform quiesced l)

  -- The ledger after a history of calls, of which some may have raised.
  abbrev pub run : List Op → ControlLedger → ControlLedger
  run [] l = l
  run (op ∷ ops) l = run ops (step op l).1

  -- The transitions of the ledger, each under the condition that it needs.
  pub data Transition (l : ControlLedger) : ControlLedger → Type 0 where
    unchanged : Transition l l
    claims :
        (key : String × String) (sha t s : String) (p : EventPayload)
        → lookup key l.requests ≡ none
        → Transition l (record l {
          requests = insert key sha l.requests;
          outbox = append_event platform t s p l.outbox;
        })
    issues :
        (token v d t s : String) (p : EventPayload)
        → lookup token l.authorization_states ≡ none
        → contains l.verification_ids v ≡ false
        → contains l.decision_ids d ≡ false
        → Transition l (record l {
          authorization_states = insert token issued l.authorization_states;
          verification_ids = v ∷ l.verification_ids;
          decision_ids = d ∷ l.decision_ids;
          outbox = append_event platform t s p l.outbox;
        })
    -- a registration whose event has no digest
    enters :
        (token v d : String)
        → lookup token l.authorization_states ≡ none
        → contains l.verification_ids v ≡ false
        → contains l.decision_ids d ≡ false
        → Transition l (enter platform token v d l)
    consumes :
        (token : String)
        → lookup token l.authorization_states ≡ some issued
        → Transition l (consume_token platform token none l).1
    reserves :
        (token digest : String) (r : Reservation)
        → lookup token l.authorization_states ≡ some issued
        → lookup r.attempt_id l.attempts ≡ none
        → lookup token l.token_attempts ≡ none
        → Transition l
            (consume_token platform token
              (some r.attempt_id)
              (reserved_event platform digest r (reserve platform token r l))).1
    -- a reservation whose event has no digest
    keeps_back :
        (token : String) (r : Reservation)
        → lookup token l.authorization_states ≡ some issued
        → lookup r.attempt_id l.attempts ≡ none
        → lookup token l.token_attempts ≡ none
        → Transition l (reserve platform token r l)
    moves :
        (a : String) (row next : Attempt) (t s : String) (p : EventPayload)
        → lookup a l.attempts ≡ some row
        → is_terminal row.state ≡ false
        → Transition l (record l {
          attempts = insert a next l.attempts;
          outbox = append_event platform t s p l.outbox;
        })
    recovers : Transition l (recovered_ledger platform l).1

  module _ (l : ControlLedger) where
    checked-Transition :
        {A : Type 0} (r : Result Reason Unit) (out : Result Reason A × ControlLedger)
        → Transition l out.1
        → Transition l (checked r l out).1
    checked-Transition (ok _) out h = h
    checked-Transition (err e) out h = unchanged

    without_value-ledger :
        {A : Type 0} (out : Result Reason A × ControlLedger) → (without_value out).1 ≡ out.1
    without_value-ledger (ok _, _) = refl
    without_value-ledger (err _, _) = refl

    claim-Transition :
        (principal request sha : String) (found : Option String)
        → lookup (principal, request) l.requests ≡ found
        → Transition l (after_claim platform principal request sha l (claim_answer found sha)).1
    claim-Transition principal request sha none h = claims (principal, request) sha _ _ _ h
    claim-Transition principal request sha (some old) h = elim (Bool-cases (old == sha)) [
      | inl e ↦ rw e unchanged
      | inr e ↦ rw e unchanged
    ]

    issued_event-Transition :
        (token v d : String) (a b : Option String)
        → lookup token l.authorization_states ≡ none
        → contains l.verification_ids v ≡ false
        → contains l.decision_ids d ≡ false
        → Transition l (issued_event platform token a b (enter platform token v d l)).1
    issued_event-Transition token v d (some a) (some b) e f g = issues token v d _ _ _ e f g
    issued_event-Transition token v d (some a) none e f g = enters token v d e f g
    issued_event-Transition token v d none b e f g = enters token v d e f g

    consume_reserved-Transition :
        (token : String) (r : Reservation) (digest : Option String)
        → lookup token l.authorization_states ≡ some issued
        → lookup r.attempt_id l.attempts ≡ none
        → lookup token l.token_attempts ≡ none
        → Transition l (consume_reserved platform token r digest (reserve platform token r l)).1
    consume_reserved-Transition token r none h e f = keeps_back token r h e f
    consume_reserved-Transition token r (some digest) h e f = reserves token digest r h e f

    register-Transition :
        (token v d : String) → Transition l (register_valid platform token v d l).1
    unfolding register_valid
    register-Transition token v d = elim (Bool-cases (has_key token l.authorization_states)) [
      | inl e ↦ rw e unchanged
      | inr e ↦ rw e (elim (Bool-cases (contains l.verification_ids v)) [
        | inl f ↦ rw f unchanged
        | inr f ↦ rw f (elim (Bool-cases (contains l.decision_ids d)) [
          | inl g ↦ rw g unchanged
          | inr g ↦ rw g (issued_event-Transition token v d _ _ (has_key-none token _ e) f g)
        ])
      ])
    ]

    consume_issued-Transition :
        (token : String) (r : Option Reservation)
        → lookup token l.authorization_states ≡ some issued
        → Transition l (consume_issued platform token r l).1
    consume_issued-Transition token none h = consumes token h
    consume_issued-Transition token (some r) h =
        elim (Bool-cases (has_key r.attempt_id l.attempts)) [
          | inl e ↦ rw e unchanged
          | inr e ↦ rw e (elim (Bool-cases (has_key token l.token_attempts)) [
            | inl f ↦ rw f unchanged
            | inr f ↦ rw f (
                consume_reserved-Transition token r _ h (has_key-none r.attempt_id _ e)
                  (has_key-none token _ f))
          ])
        ]

    consume_at-Transition :
        (token : String) (r : Option Reservation) (found : Option TokenState)
        → lookup token l.authorization_states ≡ found
        → Transition l (consume_at platform token r l found).1
    consume_at-Transition token r none h = unchanged
    consume_at-Transition token r (some issued) h = consume_issued-Transition token r h
    consume_at-Transition token r (some consumed) h = unchanged
    consume_at-Transition token r (some revoked) h = unchanged

    consume_checked-Transition :
        (token : String) (r : Result Reason (Option Reservation))
        → Transition l (consume_checked platform token r l).1
    consume_checked-Transition token (ok r) = consume_at-Transition token r _ refl
    consume_checked-Transition token (err e) = unchanged

    receive-Transition :
        (a receipt outcome : String) (found : Option Attempt)
        → lookup a l.attempts ≡ found
        → Transition l (receive platform a receipt outcome l found).1
    receive-Transition a receipt outcome none h = unchanged
    receive-Transition a receipt outcome (some row) h = elim (Bool-cases (is_reserved row.state)) [
      | inl e ↦ rw e (moves a row _ _ _ _ h (is_reserved-open row.state e))
      | inr e ↦ rw e unchanged
    ]

    close-Transition :
        (a : String) (s : AttemptState) (outcome at : String) (found : Option Attempt)
        → lookup a l.attempts ≡ found
        → Transition l (close platform a s outcome at l found).1
    close-Transition a s outcome at none h = unchanged
    close-Transition a s outcome at (some row) h = elim (Bool-cases (is_terminal row.state)) [
      | inr e ↦ rw e (moves a row _ _ _ _ h e)
      | inl e ↦
          rw e
            (elim (Bool-cases (same_state row.state s && is_some_text row.outcome_sha256 outcome)) [
              | inl f ↦ rw f unchanged
              | inr f ↦ rw f unchanged
            ])
    ]

    -- Every call, also one that raises, takes the ledger to itself or along one of the transitions.
    pub step-Transition : (op : Op) → Transition l (step op l).1
    unfolding claim_request register consume_once record_adapter_receipt record_attempt_outcome
        recover_incomplete_attempts
    step-Transition (op_claim p r sha at) =
        rw (without_value-ledger (claim_request platform p r sha at l))
          (checked-Transition _ _ (claim-Transition p r sha _ refl))
    step-Transition (op_register t v d at) = checked-Transition _ _ (register-Transition t _ _)
    step-Transition (op_consume t args) = consume_checked-Transition t _
    step-Transition (op_receipt a receipt outcome at) =
        checked-Transition _ _ (receive-Transition a receipt outcome _ refl)
    step-Transition (op_outcome a s outcome at) =
        checked-Transition _ _ (close-Transition a s outcome at _ refl)
    step-Transition (op_recover quiesced) =
        rw (without_value-ledger (recover_incomplete_attempts platform quiesced l))
          (checked-Transition _ _ recovers)
