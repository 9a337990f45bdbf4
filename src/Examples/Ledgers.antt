-- ===== src/Examples/Ledgers.antt =====
-- Histories of a small control ledger.
use ai_decision_firewall.Prelude.{
  String, string_eq, pair_eq, ◌==◌, ◌≡◌, ◌≢◌, refl, true, false, [], ◌∷◌, ◌++◌, List, none, some,
  ok, err, lookup, insert, join, if◌then◌else◌,
}
use ai_decision_firewall.Ledger.{
  Attempt, verified_effect, reserved, issued, ControlLedger, Platform, require_identifier,
  require_sha256, all_hex, new_ledger, recovery_quiescence_required,
}
use ai_decision_firewall.Ledger.Ops.{
  ConsumeArgs, claim_request, register, register_valid, consume_once, check_reservation,
  recover_incomplete_attempts, recovered_ledger, new_claim, duplicate, conflict,
}
use ai_decision_firewall.Ledger.Steps.{Op, op_register, op_consume, op_recover, run, step}
use ai_decision_firewall.Ledger.Tokens.{consume_once-run}
use ai_decision_firewall.Ledger.Attempts.{
  lookup-run_terminal, IsQuiet, recover_incomplete_attempts-IsQuiet,
}
use ai_decision_firewall.Ledger.Outbox.{IsGrown, run-IsGrown}
use ai_decision_firewall.Ledger.Decisions.{register-run}
use ai_decision_firewall.Ledger.Atomic.{step-err}
use ai_decision_firewall.Ledger.States.{view, TokenRun, run-TokenRun}
use ai_decision_firewall.Ledger.Claims.{claim_request-run}

abbrev pub platform : Platform
platform = record {
  sha256_text = λ t. some t;
  event_digest = λ t s p. join t s;
  recovered_digest = λ a. a;
  recovered_at = λ a. "now";
  has_offset = λ t. true;
  now = λ n. "now";
}

-- One authorization, issued and not consumed.
abbrev with_token : ControlLedger
with_token = record new_ledger {
  authorization_states = ("token-1", issued) ∷ [];
  verification_ids = "verification-1" ∷ [];
  decision_ids = "decision-1" ∷ [];
}

abbrev plain : ConsumeArgs
plain = record {
  attempt_id = none;
  attempt_binding_sha256 = none;
  consumed_at = none;
  idempotency_key = none;
  recovery_summary = none;
}

abbrev history : List Op
history = op_register "token-2" none (some "decision-2") none ∷ op_recover true ∷ []

token-consumed : (consume_once platform "token-1" plain with_token).0 ≡ ok tt
unfolding consume_once require_identifier check_reservation lookup
token-consumed = refl

consume_once-run_example :
    (consume_once platform "token-1" plain
      (run platform history (consume_once platform "token-1" plain with_token).1)).0
    ≢ ok tt
consume_once-run_example =
    consume_once-run platform "token-1" plain plain with_token history token-consumed

abbrev done : Attempt
done = record {
  attempt_id = "attempt-1";
  token_id = "token-1";
  binding_sha256 = "b";
  state = verified_effect;
  outcome_sha256 = some "o";
  reserved_at = "t1";
  completed_at = some "t2";
  adapter_receipt_sha256 = none;
}

abbrev with_attempts : ControlLedger
with_attempts = record with_token {
  attempts = ("attempt-1", done) ∷ ("attempt-2", record done { state = reserved }) ∷ [];
}

done-found : lookup "attempt-1" with_attempts.attempts ≡ some done
unfolding lookup
done-found = refl

lookup-run_terminal_example :
    lookup "attempt-1" (run platform history with_attempts).attempts ≡ some done
lookup-run_terminal_example =
    lookup-run_terminal platform "attempt-1" done refl history with_attempts done-found

recover_incomplete_attempts-IsQuiet_example :
    ((recover_incomplete_attempts platform true with_attempts).0
      ≡ ok (recovered_ledger platform with_attempts).0)
    × IsQuiet (recover_incomplete_attempts platform true with_attempts).1
recover_incomplete_attempts-IsQuiet_example =
    recover_incomplete_attempts-IsQuiet platform with_attempts

run-IsGrown_example :
    IsGrown
      (run platform history new_ledger).outbox
      (run platform (history ++ op_consume "token-2" plain ∷ []) new_ledger).outbox
run-IsGrown_example = run-IsGrown platform history (op_consume "token-2" plain ∷ [])

decision-registered :
    (register platform "token-1" none (some "decision-1") none new_ledger).0 ≡ ok tt
unfolding register register_valid require_identifier lookup
decision-registered = refl

register-run_example :
    (register platform "token-9" none (some "decision-1") none (
      run platform history
        (register platform "token-1" none (some "decision-1") none new_ledger).1)).0
    ≢ ok tt
register-run_example =
    register-run platform "token-1" "token-9" none none (some "decision-1") (some "decision-1") none
      none new_ledger history decision-registered refl

recovery-raises :
    (step platform (op_recover false) with_attempts).0 ≡ err recovery_quiescence_required
unfolding recover_incomplete_attempts
recovery-raises = refl

step-err_example : (step platform (op_recover false) with_attempts).1 ≡ with_attempts
step-err_example =
    step-err platform with_attempts (op_recover false) recovery_quiescence_required (λ e. cc)
      recovery-raises

abbrev digest : String
digest = "0123456789abcdef0123456789abcdef0123456789abcdef0123456789abcdef"

abbrev other_digest : String
other_digest = "1123456789abcdef0123456789abcdef0123456789abcdef0123456789abcdef"

request-claimed : (claim_request platform "p-1" "r-1" digest none new_ledger).0 ≡ ok new_claim
unfolding claim_request require_identifier require_sha256 all_hex lookup
request-claimed = refl

request-conflict :
    (claim_request platform "p-1" "r-1" other_digest none
      (run platform [] (claim_request platform "p-1" "r-1" digest none new_ledger).1)).0
    ≡ ok conflict
unfolding claim_request require_identifier require_sha256 all_hex lookup insert
request-conflict = refl

claim_request-run_example : conflict ≡ (if digest == other_digest then duplicate else conflict)
claim_request-run_example =
    claim_request-run platform "p-1" "r-1" digest other_digest none none new_ledger [] conflict
      request-claimed request-conflict

run-TokenRun_example :
    TokenRun (view "token-1" with_token) (view "token-1" (run platform history with_token))
run-TokenRun_example = run-TokenRun platform "token-1" history with_token
