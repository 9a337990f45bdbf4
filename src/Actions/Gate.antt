-- ===== src/Actions/Gate.antt =====
-- The authorization gate of actions.py: what an issued token opens, and that nothing else does.
use ai_decision_firewall.Prelude.{
  ℕ, ◌+◌, ◌*◌, ◌≤◌, String, string_eq, ◌==◌, ◌≡◌, ◌↔◌, refl, sym, ap, ◌∙◌, true, Option, none, some,
  ok, arith, contains, eq_iff,
}
use ai_decision_firewall.Schemas.{IdentityCase}
use ai_decision_firewall.Policy.{DecisionProposal}
use ai_decision_firewall.Verifier.{VerificationResult}
use ai_decision_firewall.Actions.{
  Services, UnsignedToken, AuthorizationToken, AuthorizationGate, whole_seconds, microseconds, sign,
  issue_token, authorize, validate, check_expiry,
}

module _ (s : Services) {F : Type 0} (gate : AuthorizationGate F) where
  -- What a token must be for an action on a case at a time.
  pub record IsValidFor (now : ℕ) (token : AuthorizationToken) (case_id action : String)
      : Type 0 where
    pub signed : token.signature ≡ s.hmac_token gate.signing_key token.unsigned
    pub bound : token.unsigned.case_id ≡ case_id
    pub permitted : contains token.unsigned.permitted_actions action ≡ true
    pub expires : ℕ
    pub expiry : s.parse_time token.unsigned.expires_at ≡ some expires
    pub in_time : now ≤ expires

  issued-token :
      (now : ℕ) (fresh : String) (case : IdentityCase F) (proposal : DecisionProposal F)
      (verification : VerificationResult F) (token : AuthorizationToken)
      → authorize s gate now fresh case proposal verification ≡ ok (some token)
      → issue_token s gate now fresh case proposal ≡ token
  unfolding authorize
  issued-token now fresh case proposal verification token h = ground arith

  -- The last test of `validate`, at a parsed expiry.
  expiry_passes :
      (now : ℕ) (t : Option ℕ) → check_expiry now t ≡ ok tt → (e : ℕ) × (t ≡ some e) × (now ≤ e)
  expiry_passes now none h = cc
  expiry_passes now (some e) h = (e, refl, ground arith)

  passes_expiry : (now e : ℕ) (t : Option ℕ) → t ≡ some e → now ≤ e → check_expiry now t ≡ ok tt
  passes_expiry now e none h le = cc
  passes_expiry now e (some t) h le = ground arith

  module _ (now : ℕ) (token : AuthorizationToken) (case_id action : String) where
    abbrev Accepts : Type 0
    Accepts = validate s gate now token case_id action ≡ ok tt

    accepts-parts :
        Accepts
        → ((s.hmac_token gate.signing_key token.unsigned == token.signature) ≡ true)
          × ((token.unsigned.case_id == case_id) ≡ true)
          × (contains token.unsigned.permitted_actions action ≡ true)
          × (check_expiry now (s.parse_time token.unsigned.expires_at) ≡ ok tt)
    unfolding validate
    accepts-parts h = ground arith

    validate-IsValidFor : Accepts → IsValidFor now token case_id action
    validate-IsValidFor h =
        let (signed, bound, permitted, timely) = accepts-parts h in
        let (t, parsed, le) = expiry_passes now (s.parse_time token.unsigned.expires_at) timely in
        record {
          signed =
              sym
                ((eq_iff (s.hmac_token gate.signing_key token.unsigned) token.signature).0 signed);
          bound = (eq_iff token.unsigned.case_id case_id).0 bound;
          permitted = permitted;
          expires = t;
          expiry = parsed;
          in_time = le;
        }

    IsValidFor-validate : IsValidFor now token case_id action → Accepts
    unfolding validate
    IsValidFor-validate v = ground (
      arith,
      eq_iff (s.hmac_token gate.signing_key token.unsigned) token.signature,
      eq_iff token.unsigned.case_id case_id,
      passes_expiry now v.expires (s.parse_time token.unsigned.expires_at) v.expiry v.in_time,
    )

    -- The gate accepts a token for an action on a case exactly when it carries the gate's
    -- signature of its own content, names the case and the action, and has not expired.
    pub validate_iff :
        (validate s gate now token case_id action ≡ ok tt) ↔ IsValidFor now token case_id action
    validate_iff = (validate-IsValidFor, IsValidFor-validate)

  -- The time at which a token issued at `now` expires.
  abbrev pub expiry_time : ℕ → ℕ
  expiry_time now =
      whole_seconds now + gate.config.safety.authorization_token_ttl_seconds * microseconds

  issued-IsValidFor :
      (now later : ℕ) (fresh : String) (case : IdentityCase F) (proposal : DecisionProposal F)
      (action : String)
      → s.parse_time (s.format_time (expiry_time now)) ≡ some (expiry_time now)
      → contains proposal.executable_actions action ≡ true
      → later ≤ expiry_time now
      → IsValidFor later (issue_token s gate now fresh case proposal) case.case_id action
  unfolding issue_token sign
  issued-IsValidFor now later fresh case proposal action reads asked le = record {
    signed = refl;
    bound = refl;
    permitted = asked;
    expires = expiry_time now;
    expiry = reads;
    in_time = le;
  }

  -- A token that the gate issued opens each action of the proposal, for the case it was issued
  -- for, until its time to live is over. It is assumed that the text of the
  -- expiry reads back as that time.
  pub validate-authorize :
      (now later : ℕ) (fresh : String) (case : IdentityCase F) (proposal : DecisionProposal F)
      (verification : VerificationResult F) (token : AuthorizationToken) (action : String)
      → s.parse_time (s.format_time (expiry_time now)) ≡ some (expiry_time now)
      → authorize s gate now fresh case proposal verification ≡ ok (some token)
      → contains proposal.executable_actions action ≡ true
      → later ≤ expiry_time now
      → validate s gate later token case.case_id action ≡ ok tt
  validate-authorize now later fresh case proposal verification token action reads issued asked le =
      let e : issue_token s gate now fresh case proposal ≡ token =
        issued-token now fresh case proposal verification token issued in
      rw (← e) (
        IsValidFor-validate later (issue_token s gate now fresh case proposal) case.case_id action
          (issued-IsValidFor now later fresh case proposal action reads asked le))

  -- When the signatures of two different contents differ, a token accepted with the signature of an
  -- issued token has the content of the issued one: neither its case, nor its actions, nor its
  -- expiry can have been changed.
  pub validate-unsigned_eq :
      (issued token : AuthorizationToken) (now : ℕ) (case_id action : String)
      → (s.hmac_token gate.signing_key token.unsigned
            ≡ s.hmac_token gate.signing_key issued.unsigned
          → token.unsigned ≡ issued.unsigned)
      → issued.signature ≡ s.hmac_token gate.signing_key issued.unsigned
      → token.signature ≡ issued.signature
      → validate s gate now token case_id action ≡ ok tt
      → (token.unsigned ≡ issued.unsigned)
        × (issued.unsigned.case_id ≡ case_id)
        × (contains issued.unsigned.permitted_actions action ≡ true)
  validate-unsigned_eq issued token now case_id action inj signed same h =
      let v = validate-IsValidFor now token case_id action h in
      let e = inj (sym v.signed ∙ same ∙ signed) in
      (
        e,
        sym (ap (λ (u : UnsignedToken). u.case_id) e) ∙ v.bound,
        sym (ap (λ (u : UnsignedToken). contains u.permitted_actions action) e) ∙ v.permitted,
      )
