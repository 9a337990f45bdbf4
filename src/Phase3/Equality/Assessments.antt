-- ===== src/Phase3/Equality/Assessments.antt =====
-- `==` on AuthorityAssessment and ConsequenceAssessment of src/adf_poc/phase3/models.py.
use ai_decision_firewall.Prelude.{
  string_eq, nat_eq, Eq, ◌==◌, ◌≡◌, ◌↔◌, subst, Bool, true, ◌&&◌, arith, equals_refl,
}
use ai_decision_firewall.Prelude.Float.{FloatOps}
use ai_decision_firewall.Phase3.Records.{AuthorityAssessment, ConsequenceAssessment}
use ai_decision_firewall.Phase3.Equality.{
  part, bool_eq, status_eq, action_type_eq, list_eq, option_eq, constraint_eq,
}
use ai_decision_firewall.Phase3.Equality.Requests.{
  authenticated_principal_eq, target_record_eq, action_parameters_eq, action_request_eq,
}

-- `==` on `AuthorityAssessment`
abbrev pub same_authority_assessment : AuthorityAssessment → AuthorityAssessment → Bool
same_authority_assessment a b =
    a.authenticated == b.authenticated
    && a.principal_id == b.principal_id
    && a.claimed_agent_id == b.claimed_agent_id
    && a.attributes_match == b.attributes_match
    && a.trusted_roles == b.trusted_roles
    && a.trusted_authority == b.trusted_authority
    && a.required_authority == b.required_authority
    && a.authorized == b.authorized
    && a.reason_codes == b.reason_codes

pub same_authority_assessment_iff :
    (a b : AuthorityAssessment) → (same_authority_assessment a b ≡ true) ↔ (a ≡ b)
same_authority_assessment_iff a b = (to, from)
  where
    to : same_authority_assessment a b ≡ true → a ≡ b
    to h =
        let p0 = part a.authenticated b.authenticated (ground (arith, h)) in
        let p1 = part a.principal_id b.principal_id (ground (arith, h)) in
        let p2 = part a.claimed_agent_id b.claimed_agent_id (ground (arith, h)) in
        let p3 = part a.attributes_match b.attributes_match (ground (arith, h)) in
        let p4 = part a.trusted_roles b.trusted_roles (ground (arith, h)) in
        let p5 = part a.trusted_authority b.trusted_authority (ground (arith, h)) in
        let p6 = part a.required_authority b.required_authority (ground (arith, h)) in
        let p7 = part a.authorized b.authorized (ground (arith, h)) in
        let p8 = part a.reason_codes b.reason_codes (ground (arith, h)) in
        λ j. record {
          authenticated = p0 j;
          principal_id = p1 j;
          claimed_agent_id = p2 j;
          attributes_match = p3 j;
          trusted_roles = p4 j;
          trusted_authority = p5 j;
          required_authority = p6 j;
          authorized = p7 j;
          reason_codes = p8 j;
        }

    from : a ≡ b → same_authority_assessment a b ≡ true
    from p =
        subst (λ c. same_authority_assessment a c ≡ true) p
          (ground (
            arith,
            equals_refl a.authenticated,
            equals_refl a.principal_id,
            equals_refl a.claimed_agent_id,
            equals_refl a.attributes_match,
            equals_refl a.trusted_roles,
            equals_refl a.trusted_authority,
            equals_refl a.required_authority,
            equals_refl a.authorized,
            equals_refl a.reason_codes,
          ))

instance abbrev pub authority_assessment_eq : Eq AuthorityAssessment
authority_assessment_eq = record {
  equals = same_authority_assessment;
  equals_iff = same_authority_assessment_iff;
}

module _ {F : Type 0} ⦃o : FloatOps F⦄ where
  -- `==` on `ConsequenceAssessment`, with the `==` of floats
  abbrev pub same_consequence_assessment : ConsequenceAssessment F → ConsequenceAssessment F → Bool
  same_consequence_assessment a b =
      o.eq a.score b.score
      && a.level == b.level
      && a.reversible == b.reversible
      && a.blast_radius == b.blast_radius
      && a.downtime_minutes == b.downtime_minutes
      && a.privilege_impact == b.privilege_impact
      && a.mission_impact == b.mission_impact
      && a.safety_impact == b.safety_impact
      && a.availability_impact == b.availability_impact
      && a.dependency_count == b.dependency_count
      && a.cascading_effect_possible == b.cascading_effect_possible
      && a.human_approval_required == b.human_approval_required
      && a.reason_codes == b.reason_codes
