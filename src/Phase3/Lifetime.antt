-- ===== src/Phase3/Lifetime.antt =====
-- From the issue of a token to its use at the gate of src/adf_poc/phase3/authorization.py.
use ai_decision_firewall.Prelude.{
  ℕ, ◌≤◌, ◌<◌, ◌+◌, ◌*◌, String, string_eq, ◌≡◌, refl, sym, ap, ◌∙◌, subst, true, Option, none,
  some, Result, ok, err, arith, eq_iff, lookup, lookup-insert, ◌>>◌,
}
use ai_decision_firewall.Ledger.{
  Reason, issued as issued_state, ControlLedger, Platform, require_identifier,
}
use ai_decision_firewall.Ledger.Ops.{
  checked, register, register_valid, consume_once, ConsumeArgs, check_reservation, state,
}
use ai_decision_firewall.Phase3.Records.{DecisionRecord, AuthorizationToken, DecisionVerification}
use ai_decision_firewall.Phase3.Decision.{Digests, whole_seconds}
use ai_decision_firewall.Phase3.Tokens.{IsValid, validate_iff, scope_of}
use ai_decision_firewall.Phase3.Issue.{IsIssued, issue-IsIssued, err-ok}
use ai_decision_firewall.Phase3.Use.{accepted}
use ai_decision_firewall.Phase3.Gate.{
  GateConfig, GateState, IssueInput, PresentedScope, AttemptArgs, aware, accepts_config,
  consumed_by, consume_args, validate, issue, validate_and_consume,
}

module _ (platform : Platform) where
  checked-ok :
      (r : Result Reason Unit) (l : ControlLedger) (out : Result Reason Unit × ControlLedger)
      → (checked r l out).0 ≡ ok tt
      → (r ≡ ok tt) × (out.0 ≡ ok tt) × ((checked r l out).1 ≡ out.1)
  checked-ok (ok _) l out h = (refl, h, refl)
  checked-ok (err e) l out h = absurd (err-ok h)

  first-ok : (r k : Result Reason Unit) → (r >> k) ≡ ok tt → r ≡ ok tt
  first-ok (ok _) k h = refl
  first-ok (err e) k h = absurd (err-ok h)

  register_valid-live :
      (token v d : String) (l : ControlLedger)
      → (register_valid platform token v d l).0 ≡ ok tt
      → lookup token (register_valid platform token v d l).1.authorization_states
        ≡ some issued_state
  unfolding register_valid
  register_valid-live token v d l h =
      ground (
        arith,
        h,
        eq_iff token token,
        lookup-insert token token issued_state l.authorization_states,
      )

  -- A token that was registered is issued, and its identifier is a valid one.
  pub register-live :
      (token : String) (v d at : Option String) (l : ControlLedger)
      → (register platform token v d at l).0 ≡ ok tt
      → (require_identifier token ≡ ok tt)
        × (lookup token (register platform token v d at l).1.authorization_states
            ≡ some issued_state)
  unfolding register
  register-live token v d at l h =
      let (valid, done, same) = checked-ok _ l _ h in
      (
        first-ok (require_identifier token) _ valid,
        ap (λ s. lookup token s.authorization_states) same ∙ register_valid-live token _ _ l done,
      )

  consume_once-live :
      (token : String) (args : ConsumeArgs) (l : ControlLedger)
      → args.attempt_id ≡ none
      → args.attempt_binding_sha256 ≡ none
      → require_identifier token ≡ ok tt
      → lookup token l.authorization_states ≡ some issued_state
      → (consume_once platform token args l).0 ≡ ok tt
  unfolding consume_once check_reservation
  consume_once-live token args l a b valid live = rw valid (rw a (rw b (rw live refl)))

  state-live :
      (token : String) (l : ControlLedger)
      → require_identifier token ≡ ok tt
      → lookup token l.authorization_states ≡ some issued_state
      → state token l ≡ ok (some issued_state)
  unfolding state
  state-live token l valid live = rw valid (rw live refl)

aware_injective : {a b : ℕ} → aware a ≡ aware b → a ≡ b
aware_injective h = cc

within :
    (now start ttl : ℕ) → now < start + ttl * 1000000 → ttl ≤ 3600 → now < start + 3600 * 1000000
within now start ttl h le = omega arith

consumed_by-live :
    {F : Type 0} (s : GateState F) (out : Result Reason Unit × ControlLedger)
    → out.0 ≡ ok tt
    → (consumed_by s out).0 ≡ ok tt
consumed_by-live s (ok _, l) h = refl
consumed_by-live s (err e, l) h = absurd (err-ok h)

-- A use of a token without a reserved attempt.
abbrev pub no_attempt : AttemptArgs
no_attempt = record {
  attempt_id = none;
  attempt_binding_sha256 = none;
  idempotency_key = none;
  recovery_summary = none;
}

module _ {F J : Type 0} (digests : Digests F J) (platform : Platform) (gate : GateConfig) where
  -- The times between which a token issued at `clock` is valid.
  abbrev pub opening_of : ℕ → ℕ
  opening_of clock = whole_seconds clock

  abbrev pub closing_of : ℕ → ℕ
  closing_of clock = whole_seconds clock + gate.ttl_seconds * 1000000

  -- `fromisoformat` reads the two texts of a token back as the times that `isoformat` wrote.
  pub record ReadsBack (clock : ℕ) : Type 0 where
    pub reads_opening :
        gate.fromisoformat (digests.isoformat (opening_of clock)) ≡ aware (opening_of clock)
    pub reads_closing :
        gate.fromisoformat (digests.isoformat (closing_of clock)) ≡ aware (closing_of clock)

  module _ (d : DecisionRecord F) (input : IssueInput) (verification : DecisionVerification)
      (s after : GateState F) (token : AuthorizationToken) (reads : ReadsBack input.clock)
      (done : issue digests platform gate d input verification s ≡ (ok token, after)) where
    issued : IsIssued digests platform gate d input verification s token after
    issued = issue-IsIssued digests platform gate d input verification s token after done

    opening : gate.fromisoformat token.unsigned.issued_at ≡ aware (opening_of input.clock)
    opening =
        ap (λ t. gate.fromisoformat t.unsigned.issued_at) (sym issued.issued_for)
        ∙ reads.reads_opening

    closing : gate.fromisoformat token.unsigned.expires_at ≡ aware (closing_of input.clock)
    closing =
        ap (λ t. gate.fromisoformat t.unsigned.expires_at) (sym issued.issued_for)
        ∙ reads.reads_closing

    named : input.token_id ≡ token.unsigned.token_id
    named = ap (λ t. t.unsigned.token_id) issued.issued_for

    identified : require_identifier token.unsigned.token_id ≡ ok tt
    identified =
        ap require_identifier (sym named)
        ∙ (register-live platform input.token_id _ _ _ s.ledger issued.recorded).0

    live : lookup token.unsigned.token_id after.ledger.authorization_states ≡ some issued_state
    live =
        ap (λ id. lookup id after.ledger.authorization_states) (sym named)
        ∙ ap (λ l. lookup input.token_id l.authorization_states) issued.leaves
        ∙ (register-live platform input.token_id _ _ _ s.ledger issued.recorded).1

    issued-IsValid :
        (now : ℕ)
        → opening_of input.clock ≤ now
        → now < closing_of input.clock
        → IsValid gate token (scope_of token.unsigned) now after.ledger
    issued-IsValid now begun in_time = record {
      signed = subst (λ t. gate.sign t.unsigned ≡ t.signature) issued.issued_for refl;
      own = ap (λ t. t.unsigned.issuer_instance_id) (sym issued.issued_for);
      live = state-live platform token.unsigned.token_id after.ledger identified live;
      bound = refl;
      opens = opening_of input.clock;
      opening = opening;
      begun = begun;
      closes = closing_of input.clock;
      closing = closing;
      in_time = in_time;
    }

    -- A token that was just issued is accepted once for its own scope, from its issue until its time
    -- to live is over.
    pub validate_and_consume-issue :
        (now : ℕ) (at : String)
        → opening_of input.clock ≤ now
        → now < closing_of input.clock
        → (validate_and_consume platform gate token
            (scope_of token.unsigned)
            no_attempt
            now
            at
            after).0
          ≡ ok tt
    unfolding validate_and_consume
    validate_and_consume-issue now at begun in_time =
        let valid : validate gate token (scope_of token.unsigned) now after.ledger ≡ ok tt =
          (validate_iff gate token (scope_of token.unsigned) now after.ledger).1
            (issued-IsValid now begun in_time) in
        rw valid (
          consumed_by-live after _ (
            consume_once-live platform token.unsigned.token_id (consume_args no_attempt at)
              after.ledger refl refl identified live))

    -- A token that the gate issued under a configuration that it accepts is used for the scope it was
    -- issued for, not before its issue and within an hour of it, whatever the state in which it is
    -- presented.
    pub validate_and_consume-IsBounded :
        (signing_key_bytes verification_key_bytes : ℕ) (scope : PresentedScope)
        (attempt : AttemptArgs) (now : ℕ) (at : String) (presented : GateState F)
        → accepts_config signing_key_bytes verification_key_bytes gate ≡ true
        → (validate_and_consume platform gate token scope attempt now at presented).0 ≡ ok tt
        → (scope_of token.unsigned ≡ scope)
          × (opening_of input.clock ≤ now)
          × (now < opening_of input.clock + 3600 * 1000000)
    unfolding accepts_config
    validate_and_consume-IsBounded key key' scope attempt now at presented config h =
        let (valid, _, _) = accepted platform gate token attempt at presented scope now h in
        let v = (validate_iff gate token scope now presented.ledger).0 valid in
        let opens = aware_injective (sym v.opening ∙ opening) in
        let closes = aware_injective (sym v.closing ∙ closing) in
        (
          v.bound,
          subst (λ t. t ≤ now) opens v.begun,
          within now (whole_seconds input.clock) gate.ttl_seconds
              (subst (λ t. now < t) closes v.in_time) (ground (arith, config)),
        )
