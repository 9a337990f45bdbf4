-- ===== src/Ledger/Atomic.antt =====
-- A call of the ledger of stage_a.py that raises one of the ledger's own errors changes nothing.
use ai_decision_firewall.Prelude.{
  ◌≢◌, ◌||◌, contains, Bool-cases, inl, inr, String, string_eq, pair_eq, ◌≡◌, refl, lookup, Option,
  none, some, Result, ok, err, ◌>>◌, arith,
}
use ai_decision_firewall.Ledger.{
  Reason, text_not_encodable, require_identifier, require_sha256, assert_quiesced, TokenState,
  issued, consumed, revoked, AttemptState, Attempt, ControlLedger, Platform,
}
use ai_decision_firewall.Ledger.Ops.{
  Claim, new_claim, duplicate, conflict, checked, after_claim, claim_request, register_valid,
  register, Reservation, has_key, issued_event, enter, reserve, consume_reserved, consume_issued,
  consume_at, consume_checked, consume_once, receive, record_adapter_receipt, close,
  record_attempt_outcome, recovered_ledger, recover_incomplete_attempts,
}
use ai_decision_firewall.Ledger.Steps.{
  Op, op_claim, op_register, op_consume, op_receipt, op_outcome, op_recover, step, without_value,
}

-- If the call raised an error of the ledger, it left the ledger as it was.
record LeavesAlone {A : Type 0} (l : ControlLedger) (out : Result Reason A × ControlLedger)
    : Type 0 where
  alone : (reason : Reason) → reason ≢ text_not_encodable → out.0 ≡ err reason → out.1 ≡ l

checked-LeavesAlone :
    {A : Type 0} (r : Result Reason Unit) (l : ControlLedger)
    (out : Result Reason A × ControlLedger)
    → LeavesAlone l out
    → LeavesAlone l (checked r l out)
checked-LeavesAlone (ok _) l out h = h
checked-LeavesAlone (err e) l out h = record { alone = λ reason ne same. refl }

without_value-LeavesAlone :
    {A : Type 0} (l : ControlLedger) (out : Result Reason A × ControlLedger)
    → LeavesAlone l out
    → LeavesAlone l (without_value out)
without_value-LeavesAlone l (ok _, l') h = record { alone = λ reason ne e. cc }
without_value-LeavesAlone l (err f, l') h = record { alone = λ reason ne e. h.alone reason ne (cc) }

module _ (platform : Platform) (l : ControlLedger) where
  after_claim-LeavesAlone :
      (p r sha : String) (c : Claim) → LeavesAlone l (after_claim platform p r sha l c)
  after_claim-LeavesAlone p r sha new_claim = record { alone = λ reason ne e. cc }
  after_claim-LeavesAlone p r sha duplicate = record { alone = λ reason ne e. refl }
  after_claim-LeavesAlone p r sha conflict = record { alone = λ reason ne e. refl }

  issued_event-refused :
      (token : String) (a b : Option String) (l' : ControlLedger) (reason : Reason)
      → reason ≢ text_not_encodable
      → (issued_event platform token a b l').0 ≢ err reason
  issued_event-refused token (some a) (some b) l' reason ne e = cc
  issued_event-refused token (some a) none l' reason ne e = ne (cc)
  issued_event-refused token none b l' reason ne e = ne (cc)

  consume_reserved-refused :
      (token : String) (r : Reservation) (digest : Option String) (l' : ControlLedger)
      (reason : Reason)
      → reason ≢ text_not_encodable
      → (consume_reserved platform token r digest l').0 ≢ err reason
  consume_reserved-refused token r none l' reason ne e = ne (cc)
  consume_reserved-refused token r (some digest) l' reason ne e = cc

  register_valid-LeavesAlone :
      (token v d : String) → LeavesAlone l (register_valid platform token v d l)
  unfolding register_valid
  register_valid-LeavesAlone token v d = elim (Bool-cases (has_key token l.authorization_states)) [
    | inl e ↦ rw e (record { alone = λ reason ne e. refl })
    | inr e ↦ rw e (elim (Bool-cases (contains l.verification_ids v || contains l.decision_ids d)) [
      | inl f ↦ rw f (record { alone = λ reason ne e. refl })
      | inr f ↦ rw f (record {
        alone = λ reason ne e. absurd (
            issued_event-refused token (platform.sha256_text v) (platform.sha256_text d)
              (enter platform token v d l) reason ne e);
      })
    ])
  ]

  consume_issued-LeavesAlone :
      (token : String) (r : Option Reservation) → LeavesAlone l (consume_issued platform token r l)
  consume_issued-LeavesAlone token none = record { alone = λ reason ne e. cc }
  consume_issued-LeavesAlone token (some r) =
      elim (Bool-cases (has_key r.attempt_id l.attempts || has_key token l.token_attempts)) [
        | inl e ↦ rw e (record { alone = λ reason ne e. refl })
        | inr e ↦ rw e (record {
          alone = λ reason ne e. absurd (
              consume_reserved-refused token r (platform.sha256_text token)
                (reserve platform token r l) reason ne e);
        })
      ]

  consume_at-LeavesAlone :
      (token : String) (r : Option Reservation) (found : Option TokenState)
      → LeavesAlone l (consume_at platform token r l found)
  consume_at-LeavesAlone token r none = record { alone = λ reason ne e. refl }
  consume_at-LeavesAlone token r (some issued) = consume_issued-LeavesAlone token r
  consume_at-LeavesAlone token r (some consumed) = record { alone = λ reason ne e. refl }
  consume_at-LeavesAlone token r (some revoked) = record { alone = λ reason ne e. refl }

  consume_checked-LeavesAlone :
      (token : String) (r : Result Reason (Option Reservation))
      → LeavesAlone l (consume_checked platform token r l)
  consume_checked-LeavesAlone token (ok r) = consume_at-LeavesAlone token r _
  consume_checked-LeavesAlone token (err f) = record { alone = λ reason ne e. refl }

  receive-LeavesAlone :
      (a receipt outcome : String) (found : Option Attempt)
      → LeavesAlone l (receive platform a receipt outcome l found)
  receive-LeavesAlone a receipt outcome none = record { alone = λ reason ne e. refl }
  receive-LeavesAlone a receipt outcome (some row) = record {
    alone = λ reason ne e. ground (arith, e);
  }

  close-LeavesAlone :
      (a : String) (s : AttemptState) (outcome at : String) (found : Option Attempt)
      → LeavesAlone l (close platform a s outcome at l found)
  close-LeavesAlone a s outcome at none = record { alone = λ reason ne e. refl }
  close-LeavesAlone a s outcome at (some row) = record { alone = λ reason ne e. ground (arith, e) }

  step-LeavesAlone : (op : Op) → LeavesAlone l (step platform op l)
  unfolding claim_request register consume_once record_adapter_receipt record_attempt_outcome
      recover_incomplete_attempts
  step-LeavesAlone (op_claim p r sha at) =
      without_value-LeavesAlone l (claim_request platform p r sha at l)
        (checked-LeavesAlone _ l _ (after_claim-LeavesAlone p r sha _))
  step-LeavesAlone (op_register t v d at) =
      checked-LeavesAlone _ l _ (register_valid-LeavesAlone t _ _)
  step-LeavesAlone (op_consume t args) = consume_checked-LeavesAlone t _
  step-LeavesAlone (op_receipt a receipt outcome at) =
      checked-LeavesAlone
        (do
          require_identifier a
          require_sha256 receipt
          require_sha256 outcome
          require_identifier at)
        l _ (receive-LeavesAlone a receipt outcome (lookup a l.attempts))
  step-LeavesAlone (op_outcome a s outcome at) =
      checked-LeavesAlone _ l _ (close-LeavesAlone a s outcome at _)
  step-LeavesAlone (op_recover quiesced) =
      without_value-LeavesAlone l (recover_incomplete_attempts platform quiesced l) (
        checked-LeavesAlone (assert_quiesced quiesced) l
          (ok (recovered_ledger platform l).0, (recovered_ledger platform l).1)
          (record { alone = λ reason ne e. cc }))

  -- A call of any operation that raises leaves the ledger as it was, unless what it raises is the
  -- `UnicodeEncodeError` of a text that UTF-8 does not encode.
  pub step-err :
      (op : Op) (reason : Reason)
      → reason ≢ text_not_encodable
      → (step platform op l).0 ≡ err reason
      → (step platform op l).1 ≡ l
  step-err op = (step-LeavesAlone op).alone
