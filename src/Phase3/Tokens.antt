-- ===== src/Phase3/Tokens.antt =====
-- Which tokens the gate of src/adf_poc/phase3/authorization.py validates.
use ai_decision_firewall.Prelude.{
  ℕ, ◌≤◌, ◌<◌, string_eq, nat_eq, ◌==◌, ◌≡◌, ◌↔◌, refl, subst, Bool, true, false, ◌&&◌, List, [],
  ◌∷◌, Option, none, some, Result, ok, err, ltb, leb, arith, eq_iff, ◌>>=◌, equals_refl,
}
use ai_decision_firewall.Ledger.{Reason, TokenState, issued, consumed, revoked, ControlLedger}
use ai_decision_firewall.Ledger.Ops.{state}
use ai_decision_firewall.Phase3.{ActionParameters}
use ai_decision_firewall.Phase3.Records.{UnsignedToken, AuthorizationToken}
use ai_decision_firewall.Phase3.Gate.{
  Binding, GateFault, expired, ParsedTime, aware, naive, malformed, parse_timestamp, GateConfig,
  same_parameters, PresentedScope, require, bindings_of, check_bindings, require_issued, validate,
}

-- The scope for which a token was issued.
abbrev pub scope_of : UnsignedToken → PresentedScope
scope_of u = record {
  request_id = u.request_id;
  decision_id = u.decision_id;
  agent_id = u.agent_id;
  action_type = u.action_type;
  target_id = u.target_id;
  parameters = u.permitted_parameters;
  policy_id = u.policy_id;
  policy_version = u.policy_version;
  policy_sha256 = u.policy_sha256;
  decision_context_sha256 = u.decision_context_sha256;
  target_state_sha256 = u.target_state_sha256;
}

-- What a token must be to be valid for a scope at a time.
pub record IsValid (gate : GateConfig) (token : AuthorizationToken) (scope : PresentedScope)
    (now : ℕ) (l : ControlLedger) : Type 0 where
  pub signed : gate.sign token.unsigned ≡ token.signature
  pub own : token.unsigned.issuer_instance_id ≡ gate.issuer_instance_id
  pub live : state token.unsigned.token_id l ≡ ok (some issued)
  pub bound : scope_of token.unsigned ≡ scope
  pub opens : ℕ
  pub opening : gate.fromisoformat token.unsigned.issued_at ≡ aware opens
  pub begun : opens ≤ now
  pub closes : ℕ
  pub closing : gate.fromisoformat token.unsigned.expires_at ≡ aware closes
  pub in_time : now < closes

same_parameters-≡ : (a b : ActionParameters) → same_parameters a b ≡ true → a ≡ b
same_parameters-≡ a b h =
    let p : a.duration_seconds ≡ b.duration_seconds = ground (arith, h) in
    let q : a.preserve_management ≡ b.preserve_management = ground (arith, h) in
    λ j. record { duration_seconds = p j; preserve_management = q j }

same_parameters_refl : (a : ActionParameters) → same_parameters a a ≡ true
same_parameters_refl a = ground arith

all_agree : List (Binding × Bool) → Bool
all_agree [] = true
all_agree (row ∷ rows) = row.1 && all_agree rows

check_bindings-all :
    (rows : List (Binding × Bool)) → check_bindings rows ≡ ok tt → all_agree rows ≡ true
unfolding check_bindings all_agree
check_bindings-all [] h = refl
check_bindings-all ((name, true) ∷ rows) h = check_bindings-all rows h
check_bindings-all ((name, false) ∷ rows) h = cc

all-check_bindings :
    (rows : List (Binding × Bool)) → all_agree rows ≡ true → check_bindings rows ≡ ok tt
unfolding check_bindings all_agree
all-check_bindings [] h = refl
all-check_bindings ((name, true) ∷ rows) h = all-check_bindings rows h
all-check_bindings ((name, false) ∷ rows) h = cc

agree-scope :
    (u : UnsignedToken) (scope : PresentedScope)
    → all_agree (bindings_of u scope) ≡ true
    → scope_of u ≡ scope
unfolding all_agree
agree-scope u scope h =
    let a = (eq_iff u.request_id scope.request_id).0 (ground (arith, h)) in
    let b = (eq_iff u.decision_id scope.decision_id).0 (ground (arith, h)) in
    let c = (eq_iff u.agent_id scope.agent_id).0 (ground (arith, h)) in
    let d = (eq_iff u.action_type scope.action_type).0 (ground (arith, h)) in
    let e = (eq_iff u.target_id scope.target_id).0 (ground (arith, h)) in
    let f = same_parameters-≡ u.permitted_parameters scope.parameters (ground (arith, h)) in
    let g = (eq_iff u.policy_id scope.policy_id).0 (ground (arith, h)) in
    let k = (eq_iff u.policy_version scope.policy_version).0 (ground (arith, h)) in
    let l = (eq_iff u.policy_sha256 scope.policy_sha256).0 (ground (arith, h)) in
    let m =
      (eq_iff u.decision_context_sha256 scope.decision_context_sha256).0 (ground (arith, h)) in
    let n = (eq_iff u.target_state_sha256 scope.target_state_sha256).0 (ground (arith, h)) in
    λ j. record {
      request_id = a j;
      decision_id = b j;
      agent_id = c j;
      action_type = d j;
      target_id = e j;
      parameters = f j;
      policy_id = g j;
      policy_version = k j;
      policy_sha256 = l j;
      decision_context_sha256 = m j;
      target_state_sha256 = n j;
    }

own-agree : (u : UnsignedToken) → all_agree (bindings_of u (scope_of u)) ≡ true
unfolding all_agree
own-agree u = ground (
  arith,
  equals_refl u.request_id,
  equals_refl u.decision_id,
  equals_refl u.agent_id,
  equals_refl u.action_type,
  equals_refl u.target_id,
  same_parameters_refl u.permitted_parameters,
  equals_refl u.policy_id,
  equals_refl u.policy_version,
  equals_refl u.policy_sha256,
  equals_refl u.decision_context_sha256,
  equals_refl u.target_state_sha256,
)

require-ok :
    (b : Bool) (e : GateFault) (k : Unit → Result GateFault Unit)
    → (require b e >>= k) ≡ ok tt
    → (b ≡ true) × (k tt ≡ ok tt)
require-ok true e k h = (refl, h)
require-ok false e k h = cc

require_issued-ok :
    (found : Result Reason (Option TokenState)) (k : Unit → Result GateFault Unit)
    → (require_issued found >>= k) ≡ ok tt
    → (found ≡ ok (some issued)) × (k tt ≡ ok tt)
require_issued-ok (err reason) k h = cc
require_issued-ok (ok none) k h = cc
require_issued-ok (ok (some issued)) k h = (refl, h)
require_issued-ok (ok (some consumed)) k h = cc
require_issued-ok (ok (some revoked)) k h = cc

parse_timestamp-ok :
    (p : ParsedTime) (k : ℕ → Result GateFault Unit)
    → (parse_timestamp p >>= k) ≡ ok tt
    → (t : ℕ) × (p ≡ aware t) × (k t ≡ ok tt)
parse_timestamp-ok (aware t) k h = (t, refl, h)
parse_timestamp-ok naive k h = cc
parse_timestamp-ok malformed k h = cc

check-ok :
    (r : Result GateFault Unit) (k : Unit → Result GateFault Unit)
    → (r >>= k) ≡ ok tt
    → (r ≡ ok tt) × (k tt ≡ ok tt)
check-ok (ok tt) k h = (refl, h)
check-ok (err e) k h = cc

require-in_time : (now closes : ℕ) → require (ltb now closes) expired ≡ ok tt → now < closes
require-in_time now closes h = ground (arith, h)

module _ (gate : GateConfig) (token : AuthorizationToken) (scope : PresentedScope) (now : ℕ)
    (l : ControlLedger) where
  validate-IsValid : validate gate token scope now l ≡ ok tt → IsValid gate token scope now l
  unfolding validate
  validate-IsValid h =
      let (signed, h1) = require-ok (gate.sign token.unsigned == token.signature) _ _ h in
      let (own, h2) =
        require-ok (token.unsigned.issuer_instance_id == gate.issuer_instance_id) _ _ h1 in
      let (live, h3) = require_issued-ok (state token.unsigned.token_id l) _ h2 in
      let (agree, h4) = check-ok (check_bindings (bindings_of token.unsigned scope)) _ h3 in
      let (opens, opening, h5) =
        parse_timestamp-ok (gate.fromisoformat token.unsigned.issued_at) _ h4 in
      let (begun, h6) = require-ok (leb opens now) _ _ h5 in
      let (closes, closing, h7) =
        parse_timestamp-ok (gate.fromisoformat token.unsigned.expires_at) _ h6 in
      record {
        signed = (eq_iff (gate.sign token.unsigned) token.signature).0 signed;
        own = (eq_iff token.unsigned.issuer_instance_id gate.issuer_instance_id).0 own;
        live = live;
        bound =
            agree-scope token.unsigned scope
              (check_bindings-all (bindings_of token.unsigned scope) agree);
        opens = opens;
        opening = opening;
        begun = ground (arith, begun);
        closes = closes;
        closing = closing;
        in_time = require-in_time now closes h7;
      }

  IsValid-validate : IsValid gate token scope now l → validate gate token scope now l ≡ ok tt
  unfolding validate
  IsValid-validate v =
      let signed = (eq_iff (gate.sign token.unsigned) token.signature).1 v.signed in
      let own = (eq_iff token.unsigned.issuer_instance_id gate.issuer_instance_id).1 v.own in
      let agree : check_bindings (bindings_of token.unsigned scope) ≡ ok tt =
        all-check_bindings (bindings_of token.unsigned scope) (
          subst (λ sc. all_agree (bindings_of token.unsigned sc) ≡ true) v.bound
            (own-agree token.unsigned)) in
      let begun : leb v.opens now ≡ true = ground (arith, v.begun) in
      let in_time : ltb now v.closes ≡ true = ground (arith, v.in_time) in
      rw signed
        (rw own (rw v.live (rw agree (rw v.opening (rw begun (rw v.closing (rw in_time refl)))))))

  -- A token is accepted at a time exactly when the gate signed it and issued it, the ledger has it as
  -- issued, the presented scope is its own, and the time lies from its issue up to its expiry.
  pub validate_iff : (validate gate token scope now l ≡ ok tt) ↔ IsValid gate token scope now l
  validate_iff = (validate-IsValid, IsValid-validate)
