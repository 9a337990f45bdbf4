-- ===== src/Phase3/Reasons.antt =====
-- What the reasons of src/adf_poc/phase3/decision.py hold.
use ai_decision_firewall.Prelude.{
  String, string_eq, ◌==◌, ◌≡◌, refl, sym, subst, ◌∙◌, ap, inl, inr, Bool-cases, Bool, true, false,
  not, ◌&&◌, List, [], ◌∷◌, ◌++◌, keep, contains, disjoint, sorted_set, arith, contains-append,
  contains-keep, contains-sorted_set, is_blank, eq_iff,
}
use ai_decision_firewall.Phase3.{AuthenticatedPrincipal, DecisionRequest, trusted}
use ai_decision_firewall.Phase3.Consequence.{when}
use ai_decision_firewall.Phase3.Authority.{
  order_by, ordered_reasons, reason_priority, identity_codes, identity_fatal, assess_authority,
  authority_reasons, attributes_match, same_status,
}

contains-order_by :
    (priority values : List String) (c : String)
    → contains (order_by priority values) c ≡ contains values c
contains-order_by priority values c = ground (
  arith,
  contains-append (keep (contains values) priority)
      (sorted_set (keep (λ value. not (contains priority value)) values)) c,
  contains-keep (contains values) priority c,
  contains-sorted_set (keep (λ value. not (contains priority value)) values) c,
  contains-keep (λ value. not (contains priority value)) values c,
)

-- The ordered reasons are the given ones, in another order and each once.
pub contains-ordered_reasons :
    (values : List String) (c : String) → contains (ordered_reasons values) c ≡ contains values c
unfolding ordered_reasons
contains-ordered_reasons values c = contains-order_by reason_priority values c

disjoint-ordered_reasons :
    (xs values : List String) → disjoint xs (ordered_reasons values) ≡ disjoint xs values
disjoint-ordered_reasons [] values = refl
disjoint-ordered_reasons (x ∷ xs) values =
    ground (arith, contains-ordered_reasons values x, disjoint-ordered_reasons xs values)

contains-when : (b : Bool) (x a : String) → contains (when b x) a ≡ (b && x == a)
contains-when true x a = ground arith
contains-when false x a = refl

fatal-split :
    (code : String) (b0 b1 b2 b3 b4 b5 : Bool)
    → disjoint identity_codes (
        when b0 code
        ++ when b1 "AGENT_NOT_AUTHENTICATED"
        ++ when b2 "AGENT_IDENTITY_MISMATCH"
        ++ when b3 "AGENT_ATTRIBUTE_MISMATCH"
        ++ when b4 "AGENT_SECURITY_STATUS_INVALID"
        ++ when b5 "INSUFFICIENT_AUTHORITY")
      ≡ (disjoint identity_codes (when b0 code) && not b1 && not b2 && not b3 && not b4)
fatal-split code true b1 b2 b3 b4 b5 = ground arith
fatal-split code false b1 b2 b3 b4 b5 = ground arith

disjoint-when :
    (code : String)
    → disjoint identity_codes (when (not (is_blank code)) code)
      ≡ disjoint identity_codes (code ∷ [])
disjoint-when code = elim (Bool-cases (is_blank code)) [
  | inl blank ↦
      subst
        (λ c.
          disjoint identity_codes (when (not (is_blank c)) c) ≡ disjoint identity_codes (c ∷ []))
        (sym ((eq_iff code "").0 blank)) refl
  | inr other ↦ rw other refl
]

double_not :
    (a b c d e : Bool)
    → not (a && not (not b) && not (not c) && not (not d) && not (not e))
      ≡ not (a && b && c && d && e)
double_not a b c d e = ground arith

module _ {F J : Type 0} where
  -- The identity of the agent is no fatal objection exactly when the principal is authenticated and
  -- trusted, is the agent that the request names, has the attributes that it claims, and no fatal
  -- code came from its authentication.
  pub identity_fatal-split :
      (request : DecisionRequest F J) (principal : AuthenticatedPrincipal) (required : String)
      → identity_fatal (assess_authority request principal required)
        ≡ not (
            disjoint identity_codes (principal.authentication_reason_code ∷ [])
            && principal.authenticated
            && principal.id == request.agent.id
            && attributes_match request principal
            && same_status principal.security_status trusted)
  unfolding assess_authority authority_reasons
  identity_fatal-split request principal required =
      ap not (
        disjoint-ordered_reasons identity_codes (authority_reasons request principal required)
        ∙ fatal-split principal.authentication_reason_code
            (not (is_blank principal.authentication_reason_code)) (not principal.authenticated)
            (not (principal.id == request.agent.id)) (not (attributes_match request principal))
            (not (same_status principal.security_status trusted))
            (not (contains principal.authority required))
        ∙ ap
            (λ b.
              b
              && not (not principal.authenticated)
              && not (not (principal.id == request.agent.id))
              && not (not (attributes_match request principal))
              && not (not (same_status principal.security_status trusted)))
            (disjoint-when principal.authentication_reason_code))
      ∙ double_not _ _ _ _ _
