-- ===== src/Phase3/Use.antt =====
-- The use of a token at the gate of src/adf_poc/phase3/authorization.py.
use ai_decision_firewall.Prelude.{
  ℕ, String, string_eq, ◌≡◌, ◌≢◌, refl, sym, ap, ◌∙◌, subst, List, Result, ok, err, arith,
}
use ai_decision_firewall.Ledger.{Reason, ControlLedger, Platform}
use ai_decision_firewall.Ledger.Ops.{consume_once}
use ai_decision_firewall.Ledger.Steps.{Op, run}
use ai_decision_firewall.Ledger.Tokens.{consume_once-run}
use ai_decision_firewall.Phase3.Records.{AuthorizationToken}
use ai_decision_firewall.Phase3.Issue.{err-ok, ledger_refused-err}
use ai_decision_firewall.Phase3.Gate.{
  GateFault, GateConfig, GateState, PresentedScope, AttemptArgs, rejected, consumed_by,
  consume_args, consume_valid, validate, validate_and_consume,
}

module _ {F : Type 0} (platform : Platform) (gate : GateConfig) where
  consumed_by-ok :
      (s : GateState F) (out : Result Reason Unit × ControlLedger)
      → (consumed_by s out).0 ≡ ok tt
      → (out.0 ≡ ok tt) × ((consumed_by s out).1.ledger ≡ out.1)
  consumed_by-ok s (ok _, l) h = (refl, refl)
  consumed_by-ok s (err e, l) h = absurd (ledger_refused-err e (record s { ledger = l }) tt h)

  rejected-err : (e : GateFault) (s : GateState F) → (rejected {A = Unit} e s).0 ≡ err e
  rejected-err e s = ground arith

  module _ (token : AuthorizationToken) (attempt : AttemptArgs) (consumed_at : String)
      (s : GateState F) where
    abbrev pub consumption : Result Reason Unit × ControlLedger
    consumption =
        consume_once platform token.unsigned.token_id (consume_args attempt consumed_at) s.ledger

    consume_valid-ok :
        (r : Result GateFault Unit)
        → (consume_valid platform gate r token attempt consumed_at s).0 ≡ ok tt
        → (r ≡ ok tt)
          × (consumption.0 ≡ ok tt)
          × ((consume_valid platform gate r token attempt consumed_at s).1.ledger ≡ consumption.1)
    consume_valid-ok (ok _) h = let (a, b) = consumed_by-ok s consumption h in (refl, a, b)
    consume_valid-ok (err e) h = absurd (err-ok (sym (rejected-err e s) ∙ h))

    -- What an accepted token has passed, and the ledger that it leaves.
    pub accepted :
        (scope : PresentedScope) (now : ℕ)
        → (validate_and_consume platform gate token scope attempt now consumed_at s).0 ≡ ok tt
        → (validate gate token scope now s.ledger ≡ ok tt)
          × (consumption.0 ≡ ok tt)
          × ((validate_and_consume platform gate token scope attempt now consumed_at s).1.ledger
              ≡ consumption.1)
    unfolding validate_and_consume
    accepted scope now h = consume_valid-ok (validate gate token scope now s.ledger) h

  -- After a token was accepted, and any further history of calls of the ledger, no token with its
  -- identifier is accepted again, for whatever scope and at whatever time.
  pub validate_and_consume-run :
      (token later : AuthorizationToken) (scope scope' : PresentedScope)
      (attempt attempt' : AttemptArgs) (now now' : ℕ) (at at' : String) (s s' : GateState F)
      (ops : List Op)
      → (validate_and_consume platform gate token scope attempt now at s).0 ≡ ok tt
      → later.unsigned.token_id ≡ token.unsigned.token_id
      → s'.ledger
        ≡ run platform ops
            (validate_and_consume platform gate token scope attempt now at s).1.ledger
      → (validate_and_consume platform gate later scope' attempt' now' at' s').0 ≢ ok tt
  validate_and_consume-run token later scope scope' attempt attempt' now now' at at' s s' ops h same
        history again =
      let (_, used, leaves) = accepted token attempt at s scope now h in
      let (_, reused, _) = accepted later attempt' at' s' scope' now' again in
      consume_once-run platform token.unsigned.token_id (consume_args attempt at)
        (consume_args attempt' at') s.ledger ops used
        (subst
          (λ id.
            (consume_once platform id (consume_args attempt' at')
              (run platform ops (consumption token attempt at s).1)).0
            ≡ ok tt)
          same
          (subst
            (λ l.
              (consume_once platform later.unsigned.token_id (consume_args attempt' at') l).0
              ≡ ok tt)
            (history ∙ ap (run platform ops) leaves) reused))
