-- ===== src/Phase3/Equality/Requests.antt =====
-- `==` on AuthenticatedPrincipal and ActionRequest of src/adf_poc/phase3/contracts.py, and on
-- TargetRecord of config.py.
use ai_decision_firewall.Prelude.{
  string_eq, nat_eq, Eq, ◌==◌, ◌≡◌, ◌↔◌, subst, Bool, true, ◌&&◌, arith, equals_refl,
}
use ai_decision_firewall.Phase3.{
  AuthenticatedPrincipal, ActionParameters, ActionRequest, TargetRecord,
}
use ai_decision_firewall.Phase3.Equality.{
  part, bool_eq, status_eq, action_type_eq, list_eq, option_eq, constraint_eq,
}

-- `==` on `AuthenticatedPrincipal`
abbrev pub same_authenticated_principal : AuthenticatedPrincipal → AuthenticatedPrincipal → Bool
same_authenticated_principal a b =
    a.id == b.id
    && a.type == b.type
    && a.authenticated == b.authenticated
    && a.roles == b.roles
    && a.authority == b.authority
    && a.security_status == b.security_status
    && a.identity_source == b.identity_source
    && a.human_session == b.human_session
    && a.authentication_reason_code == b.authentication_reason_code

pub same_authenticated_principal_iff :
    (a b : AuthenticatedPrincipal) → (same_authenticated_principal a b ≡ true) ↔ (a ≡ b)
same_authenticated_principal_iff a b = (to, from)
  where
    to : same_authenticated_principal a b ≡ true → a ≡ b
    to h =
        let p0 = part a.id b.id (ground (arith, h)) in
        let p1 = part a.type b.type (ground (arith, h)) in
        let p2 = part a.authenticated b.authenticated (ground (arith, h)) in
        let p3 = part a.roles b.roles (ground (arith, h)) in
        let p4 = part a.authority b.authority (ground (arith, h)) in
        let p5 = part a.security_status b.security_status (ground (arith, h)) in
        let p6 = part a.identity_source b.identity_source (ground (arith, h)) in
        let p7 = part a.human_session b.human_session (ground (arith, h)) in
        let p8 =
          part a.authentication_reason_code b.authentication_reason_code (ground (arith, h)) in
        λ j. record {
          id = p0 j;
          type = p1 j;
          authenticated = p2 j;
          roles = p3 j;
          authority = p4 j;
          security_status = p5 j;
          identity_source = p6 j;
          human_session = p7 j;
          authentication_reason_code = p8 j;
        }

    from : a ≡ b → same_authenticated_principal a b ≡ true
    from p =
        subst (λ c. same_authenticated_principal a c ≡ true) p
          (ground (
            arith,
            equals_refl a.id,
            equals_refl a.type,
            equals_refl a.authenticated,
            equals_refl a.roles,
            equals_refl a.authority,
            equals_refl a.security_status,
            equals_refl a.identity_source,
            equals_refl a.human_session,
            equals_refl a.authentication_reason_code,
          ))

instance abbrev pub authenticated_principal_eq : Eq AuthenticatedPrincipal
authenticated_principal_eq = record {
  equals = same_authenticated_principal;
  equals_iff = same_authenticated_principal_iff;
}

-- `==` on `TargetRecord`
abbrev pub same_target_record : TargetRecord → TargetRecord → Bool
same_target_record a b =
    a.id == b.id
    && a.type == b.type
    && a.criticality == b.criticality
    && a.classification == b.classification
    && a.dependencies == b.dependencies
    && a.isolation_consequence == b.isolation_consequence
    && a.estimated_downtime_minutes == b.estimated_downtime_minutes
    && a.blast_radius == b.blast_radius
    && a.mission_impact == b.mission_impact
    && a.safety_impact == b.safety_impact
    && a.availability_impact == b.availability_impact
    && a.human_approval_required == b.human_approval_required

pub same_target_record_iff : (a b : TargetRecord) → (same_target_record a b ≡ true) ↔ (a ≡ b)
same_target_record_iff a b = (to, from)
  where
    to : same_target_record a b ≡ true → a ≡ b
    to h =
        let p0 = part a.id b.id (ground (arith, h)) in
        let p1 = part a.type b.type (ground (arith, h)) in
        let p2 = part a.criticality b.criticality (ground (arith, h)) in
        let p3 = part a.classification b.classification (ground (arith, h)) in
        let p4 = part a.dependencies b.dependencies (ground (arith, h)) in
        let p5 = part a.isolation_consequence b.isolation_consequence (ground (arith, h)) in
        let p6 =
          part a.estimated_downtime_minutes b.estimated_downtime_minutes (ground (arith, h)) in
        let p7 = part a.blast_radius b.blast_radius (ground (arith, h)) in
        let p8 = part a.mission_impact b.mission_impact (ground (arith, h)) in
        let p9 = part a.safety_impact b.safety_impact (ground (arith, h)) in
        let p10 = part a.availability_impact b.availability_impact (ground (arith, h)) in
        let p11 = part a.human_approval_required b.human_approval_required (ground (arith, h)) in
        λ j. record {
          id = p0 j;
          type = p1 j;
          criticality = p2 j;
          classification = p3 j;
          dependencies = p4 j;
          isolation_consequence = p5 j;
          estimated_downtime_minutes = p6 j;
          blast_radius = p7 j;
          mission_impact = p8 j;
          safety_impact = p9 j;
          availability_impact = p10 j;
          human_approval_required = p11 j;
        }

    from : a ≡ b → same_target_record a b ≡ true
    from p =
        subst (λ c. same_target_record a c ≡ true) p
          (ground (
            arith,
            equals_refl a.id,
            equals_refl a.type,
            equals_refl a.criticality,
            equals_refl a.classification,
            equals_refl a.dependencies,
            equals_refl a.isolation_consequence,
            equals_refl a.estimated_downtime_minutes,
            equals_refl a.blast_radius,
            equals_refl a.mission_impact,
            equals_refl a.safety_impact,
            equals_refl a.availability_impact,
            equals_refl a.human_approval_required,
          ))

instance abbrev pub target_record_eq : Eq TargetRecord
target_record_eq = record { equals = same_target_record; equals_iff = same_target_record_iff }

-- `==` on `ActionParameters`
abbrev pub same_action_parameters : ActionParameters → ActionParameters → Bool
same_action_parameters a b =
    a.duration_seconds == b.duration_seconds && a.preserve_management == b.preserve_management

pub same_action_parameters_iff :
    (a b : ActionParameters) → (same_action_parameters a b ≡ true) ↔ (a ≡ b)
same_action_parameters_iff a b = (to, from)
  where
    to : same_action_parameters a b ≡ true → a ≡ b
    to h =
        let p0 = part a.duration_seconds b.duration_seconds (ground (arith, h)) in
        let p1 = part a.preserve_management b.preserve_management (ground (arith, h)) in
        λ j. record { duration_seconds = p0 j; preserve_management = p1 j }

    from : a ≡ b → same_action_parameters a b ≡ true
    from p =
        subst (λ c. same_action_parameters a c ≡ true) p
          (ground (arith, equals_refl a.duration_seconds, equals_refl a.preserve_management))

instance abbrev pub action_parameters_eq : Eq ActionParameters
action_parameters_eq = record {
  equals = same_action_parameters;
  equals_iff = same_action_parameters_iff;
}

-- `==` on `ActionRequest`
abbrev pub same_action_request : ActionRequest → ActionRequest → Bool
same_action_request a b = a.type == b.type && a.target == b.target && a.parameters == b.parameters

pub same_action_request_iff : (a b : ActionRequest) → (same_action_request a b ≡ true) ↔ (a ≡ b)
same_action_request_iff a b = (to, from)
  where
    to : same_action_request a b ≡ true → a ≡ b
    to h =
        let p0 = part a.type b.type (ground (arith, h)) in
        let p1 = part a.target b.target (ground (arith, h)) in
        let p2 = part a.parameters b.parameters (ground (arith, h)) in
        λ j. record { type = p0 j; target = p1 j; parameters = p2 j }

    from : a ≡ b → same_action_request a b ≡ true
    from p =
        subst (λ c. same_action_request a c ≡ true) p
          (ground (arith, equals_refl a.type, equals_refl a.target, equals_refl a.parameters))

instance abbrev pub action_request_eq : Eq ActionRequest
action_request_eq = record { equals = same_action_request; equals_iff = same_action_request_iff }
