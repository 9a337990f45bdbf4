-- ===== src/Phase3/Equality/Decisions.antt =====
-- `==` on what src/adf_poc/phase3/decision.py permits, and on the core fields that verifier.py
-- compares.
use ai_decision_firewall.Prelude.{
  string_eq, nat_eq, Eq, ◌==◌, ◌≡◌, ◌↔◌, subst, Bool, true, ◌&&◌, arith, equals_refl,
}
use ai_decision_firewall.Phase3.Records.{PermittedAction, CoreFields}
use ai_decision_firewall.Phase3.Equality.{
  part, bool_eq, status_eq, action_type_eq, list_eq, option_eq, constraint_eq,
}
use ai_decision_firewall.Phase3.Equality.Requests.{
  authenticated_principal_eq, target_record_eq, action_parameters_eq, action_request_eq,
}

-- `==` on `PermittedAction`
abbrev pub same_permitted_action : PermittedAction → PermittedAction → Bool
same_permitted_action a b = a.type == b.type && a.target == b.target && a.parameters == b.parameters

pub same_permitted_action_iff :
    (a b : PermittedAction) → (same_permitted_action a b ≡ true) ↔ (a ≡ b)
same_permitted_action_iff a b = (to, from)
  where
    to : same_permitted_action a b ≡ true → a ≡ b
    to h =
        let p0 = part a.type b.type (ground (arith, h)) in
        let p1 = part a.target b.target (ground (arith, h)) in
        let p2 = part a.parameters b.parameters (ground (arith, h)) in
        λ j. record { type = p0 j; target = p1 j; parameters = p2 j }

    from : a ≡ b → same_permitted_action a b ≡ true
    from p =
        subst (λ c. same_permitted_action a c ≡ true) p
          (ground (arith, equals_refl a.type, equals_refl a.target, equals_refl a.parameters))

instance abbrev pub permitted_action_eq : Eq PermittedAction
permitted_action_eq = record {
  equals = same_permitted_action;
  equals_iff = same_permitted_action_iff;
}

-- `==` on `CoreFields`
abbrev pub same_core_fields : CoreFields → CoreFields → Bool
same_core_fields a b =
    a.outcome == b.outcome
    && a.reason_codes == b.reason_codes
    && a.applicable_rules == b.applicable_rules
    && a.requested_action == b.requested_action
    && a.permitted_action == b.permitted_action
    && a.constraints == b.constraints
    && a.request_sha256 == b.request_sha256
    && a.decision_context_sha256 == b.decision_context_sha256

pub same_core_fields_iff : (a b : CoreFields) → (same_core_fields a b ≡ true) ↔ (a ≡ b)
same_core_fields_iff a b = (to, from)
  where
    to : same_core_fields a b ≡ true → a ≡ b
    to h =
        let p0 = part a.outcome b.outcome (ground (arith, h)) in
        let p1 = part a.reason_codes b.reason_codes (ground (arith, h)) in
        let p2 = part a.applicable_rules b.applicable_rules (ground (arith, h)) in
        let p3 = part a.requested_action b.requested_action (ground (arith, h)) in
        let p4 = part a.permitted_action b.permitted_action (ground (arith, h)) in
        let p5 = part a.constraints b.constraints (ground (arith, h)) in
        let p6 = part a.request_sha256 b.request_sha256 (ground (arith, h)) in
        let p7 = part a.decision_context_sha256 b.decision_context_sha256 (ground (arith, h)) in
        λ j. record {
          outcome = p0 j;
          reason_codes = p1 j;
          applicable_rules = p2 j;
          requested_action = p3 j;
          permitted_action = p4 j;
          constraints = p5 j;
          request_sha256 = p6 j;
          decision_context_sha256 = p7 j;
        }

    from : a ≡ b → same_core_fields a b ≡ true
    from p =
        subst (λ c. same_core_fields a c ≡ true) p
          (ground (
            arith,
            equals_refl a.outcome,
            equals_refl a.reason_codes,
            equals_refl a.applicable_rules,
            equals_refl a.requested_action,
            equals_refl a.permitted_action,
            equals_refl a.constraints,
            equals_refl a.request_sha256,
            equals_refl a.decision_context_sha256,
          ))

instance abbrev pub core_fields_eq : Eq CoreFields
core_fields_eq = record { equals = same_core_fields; equals_iff = same_core_fields_iff }
