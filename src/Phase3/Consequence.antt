-- ===== src/Phase3/Consequence.antt =====
-- src/adf_poc/phase3/consequence.py: `assess_consequence`, on a validated target and policy. A
-- weight that a dictionary lacks and a reference of zero raise.
use ai_decision_firewall.Prelude.{
  ℕ, max, min, String, string_eq, nat_eq, ◌==◌, Bool, true, false, not, ◌&&◌, ◌||◌, List, [], ◌∷◌,
  ◌++◌, Dict, lookup, none, some, Result, ok, err, leb, length, is_empty, contains, ◌>>=◌,
  if◌then◌else◌,
}
use ai_decision_firewall.Prelude.Float.{FloatOps, FloatMath, min_of, max_of}
use ai_decision_firewall.Phase3.{ActionParameters, ActionPolicy, ConsequencePolicy, TargetRecord}
use ai_decision_firewall.Phase3.Records.{ConsequenceAssessment}

pub data ConsequenceFault : Type 0 where
  key_error : String → ConsequenceFault
  zero_division : ConsequenceFault

-- `d[k]`
abbrev pub weight_of : {F : Type 0} → Dict String F → String → Result ConsequenceFault F
weight_of d k = elim (lookup k d) [ none ↦ err (key_error k) | some w ↦ ok w ]

abbrev pub when : {A : Type 0} → Bool → A → List A
when true a = a ∷ []
when false a = []

-- `downtime`, in whole minutes: `ceil_minutes d` is `math.ceil(d / 60.0)`.
abbrev pub downtime_of : (ℕ → ℕ) → TargetRecord → ActionPolicy → ActionParameters → ℕ
downtime_of ceil_minutes target action parameters =
    max target.estimated_downtime_minutes
      (ceil_minutes (min parameters.duration_seconds action.maximum_duration_seconds))

abbrev pub is_cascading : TargetRecord → Bool
is_cascading target =
    not (is_empty target.dependencies)
    && contains ("SERVICE" ∷ "ENTERPRISE" ∷ []) target.blast_radius

module _ {F : Type 0} where
  -- `human_approval`
  unfoldable pub requires_approval :
      TargetRecord → ActionPolicy → ConsequencePolicy F → String → ℕ → Bool
  requires_approval target action policy level downtime =
      target.human_approval_required
      || contains action.human_approval_criticalities target.criticality
      || contains policy.approval_levels level
      || contains policy.approval_isolation_consequences target.isolation_consequence
      || contains policy.approval_mission_impacts target.mission_impact
      || contains policy.approval_safety_impacts target.safety_impact
      || contains policy.approval_availability_impacts target.availability_impact
      || contains policy.approval_blast_radii target.blast_radius
      || leb policy.approval_downtime_minutes downtime
      || (is_cascading target && policy.cascading_requires_approval)

-- `reasons`
abbrev pub consequence_reasons : TargetRecord → Bool → String → Bool → List String
consequence_reasons target reversible level human_approval =
    when (target.criticality == "TIER_0") "PROTECTED_ASSET"
    ++ when (contains target.dependencies "AUTHENTICATION_SERVICE")
        "AUTHENTICATION_SERVICE_DEPENDENCY"
    ++ when (is_cascading target) "CASCADING_EFFECT_POSSIBLE"
    ++ when (contains ("HIGH" ∷ "CRITICAL" ∷ []) level) "HIGH_OPERATIONAL_CONSEQUENCE"
    ++ when (contains ("HIGH" ∷ "CRITICAL" ∷ []) target.isolation_consequence)
        "HIGH_ISOLATION_CONSEQUENCE"
    ++ when human_approval "HUMAN_APPROVAL_REQUIRED"
    ++ (if reversible then "REVERSIBLE_ACTION" else "IRREVERSIBLE_ACTION") ∷ []

module _ {F : Type 0} (m : FloatMath F) (ceil_minutes : ℕ → ℕ) ⦃o : FloatOps F⦄ where
  -- `min(1.0, amount / reference)`
  abbrev pub pressure : ℕ → ℕ → Result ConsequenceFault F
  pressure amount reference =
      if reference == 0
      then err zero_division
      else ok (min_of (o.lit 1 0) (m.div (o.of_nat amount) (o.of_nat reference)))

  -- One term of the sum: the weight of the factor times the weight of the value.
  abbrev pub term :
      ConsequencePolicy F → String → Result ConsequenceFault F → Result ConsequenceFault F
  term policy factor value = do
    weight ← weight_of policy.factor_weights factor
    x ← value
    ok (m.mul weight x)

  -- `score`, before it is rounded.
  unfoldable pub raw_score :
      TargetRecord → ActionPolicy → ConsequencePolicy F → ℕ → Result ConsequenceFault F
  raw_score target action policy downtime = do
    dependency_pressure ← pressure (length target.dependencies) policy.dependency_reference_count
    downtime_pressure ← pressure downtime policy.downtime_reference_minutes
    a ← term policy "criticality" (weight_of policy.criticality_weights target.criticality)
    b ← term policy "blast_radius" (weight_of policy.blast_radius_weights target.blast_radius)
    c ← term policy "downtime" (ok downtime_pressure)
    d ← term policy "mission_impact" (weight_of policy.impact_weights target.mission_impact)
    e ← term policy "safety_impact" (weight_of policy.impact_weights target.safety_impact)
    f ←
        term policy "availability_impact"
          (weight_of policy.impact_weights target.availability_impact)
    g ← term policy "dependency" (ok dependency_pressure)
    h ←
        term policy "isolation_consequence"
          (weight_of policy.impact_weights target.isolation_consequence)
    let sum = m.add (m.add (m.add (m.add (m.add (m.add (m.add a b) c) d) e) f) g) h
    ok (if action.reversible then sum else m.add sum policy.irreversible_penalty)

  -- `round(min(1.0, max(0.0, score)), 6)`
  abbrev pub score_of : F → F
  score_of score = m.round6 (min_of (o.lit 1 0) (max_of (o.lit 0 0) score))

  -- `level`
  unfoldable pub level_of : ConsequencePolicy F → F → String
  level_of policy score =
      if o.le policy.critical_threshold score
      then "CRITICAL"
      else if o.le policy.high_threshold score
      then "HIGH"
      else if o.le (o.lit 25 2) score
      then "MEDIUM"
      else "LOW"

  -- The assessment that is returned for a score.
  unfoldable pub assessment_of :
      TargetRecord → ActionPolicy → ConsequencePolicy F → ℕ → F → ConsequenceAssessment F
  unfolding level_of requires_approval
  assessment_of target action policy downtime score =
      let level = level_of policy score in
      let human_approval = requires_approval target action policy level downtime in
      record {
        score = score;
        level = level;
        reversible = action.reversible;
        blast_radius = target.blast_radius;
        downtime_minutes = downtime;
        privilege_impact =
            if contains ("HIGH" ∷ "TIER_0" ∷ []) target.criticality then "HIGH" else "MEDIUM";
        mission_impact = target.mission_impact;
        safety_impact = target.safety_impact;
        availability_impact = target.availability_impact;
        dependency_count = length target.dependencies;
        cascading_effect_possible = is_cascading target;
        human_approval_required = human_approval;
        reason_codes = consequence_reasons target action.reversible level human_approval;
      }

  -- `assess_consequence`
  unfoldable pub assess_consequence :
      TargetRecord
      → ActionPolicy
      → ConsequencePolicy F
      → ActionParameters
      → Result ConsequenceFault (ConsequenceAssessment F)
  unfolding raw_score assessment_of
  assess_consequence target action policy parameters =
      let downtime = downtime_of ceil_minutes target action parameters in
      raw_score target action policy downtime >>= λ score.
      ok (assessment_of target action policy downtime (score_of score))
