-- ===== src/Phase3/Support.antt =====
-- Evidence of automation grade, by src/adf_poc/phase3/evidence.py, is sound item by item.
use ai_decision_firewall.Prelude.{
  ℕ, ◌≤◌, length, contains, sym, String, string_eq, nat_eq, pair_eq, ◌≡◌, refl, ap, ◌∙◌, subst,
  Bool, true, false, not, ◌&&◌, List, [], ◌∷◌, map, Option, none, some, Result, ok, err, leb, keep,
  is_empty, all_of, arith, ◌>>=◌, if◌then◌else◌,
}
use ai_decision_firewall.Prelude.Float.{FloatOps, FloatMath}
use ai_decision_firewall.Evidence.Traces.{ok_injective}
use ai_decision_firewall.Phase3.{
  EvidenceItem, DecisionRequest, EvidencePolicyRules, action_type_value,
}
use ai_decision_firewall.Phase3.Records.{EvidenceAssessment}
use ai_decision_firewall.Phase3.Issue.{err-ok}
use ai_decision_firewall.Phase3.Attestation.{AttestationKeys}
use ai_decision_firewall.Phase3.Evidence.{
  EvidenceServices, EvidenceFault, Assessed, assess_item, assess_rest, assess_items, ids_where,
  source_key, distinct_keys, required_sources, sources_where, strength_of, missing_types,
  assessment_from, assess_evidence,
}
use ai_decision_firewall.Phase3.Sources.{
  is_distinct, types_of, supporting_sources, contradicting_sources, IsMatched, IsMatched-more,
  distinct_keys-is_distinct, contains-distinct_keys, missing_types_complete,
}
use ai_decision_firewall.Phase3.Grade.{is_sound, valid-is_sound}

unbind :
    {A B : Type 0} (r : Result EvidenceFault A) (k : A → Result EvidenceFault B) (b : B)
    → (r >>= k) ≡ ok b
    → (a : A) × (r ≡ ok a) × (k a ≡ ok b)
unbind (ok a) k b h = (a, refl, h)
unbind (err e) k b h = absurd (err-ok h)

module _ {F J K : Type 0} (m : FloatMath F) (services : EvidenceServices F J)
    (attestation : AttestationKeys F K) ⦃o : FloatOps F⦄ where
  one-where :
      (b : Bool) (a : Assessed F) (rest : List (Assessed F))
      → is_empty (map (λ (x : Assessed F). x.row.evidence_id) (if b then a ∷ rest else rest)) ≡ true
      → (b ≡ false) × (is_empty (map (λ (x : Assessed F). x.row.evidence_id) rest) ≡ true)
  one-where true a rest h = absurd (let no_ids : false ≡ true = h in cc)
  one-where false a rest h = (refl, h)

  none-where :
      (p : Assessed F → Bool) (rows : List (Assessed F))
      → is_empty (ids_where m services attestation p rows) ≡ true
      → all_of (λ a. not (p a)) rows ≡ true
  none-where p [] h = refl
  none-where p (a ∷ rows) h =
      let (e, rest) = one-where (p a) a (keep p rows) h in rw e (none-where p rows rest)

  valid_and_fresh :
      (rows : List (Assessed F))
      → all_of (λ a. not (not a.valid)) rows ≡ true
      → all_of (λ a. not a.stale) rows ≡ true
      → all_of (λ a. a.valid && not a.stale) rows ≡ true
  valid_and_fresh [] h k = refl
  valid_and_fresh (a ∷ rows) h k =
      ground (arith, h, k, valid_and_fresh rows (ground (arith, h)) (ground (arith, k)))

  assess_rest-ok :
      (found : Option ℕ) (body : ℕ → Assessed F) (rest : Result EvidenceFault (List (Assessed F)))
      (rows : List (Assessed F))
      → assess_rest m services attestation found body rest ≡ ok rows
      → (observed : ℕ) × (others : List (Assessed F)) × (found ≡ some observed)
        × (rest ≡ ok others)
        × (body observed ∷ others ≡ rows)
  assess_rest-ok none body rest rows h = absurd (err-ok h)
  assess_rest-ok (some observed) body rest rows h =
      let (others, made, same) = unbind rest (λ others. ok (body observed ∷ others)) rows h in
      (observed, others, refl, made, ok_injective same)

  -- The items that the code finds valid and fresh are sound.
  items-is_sound :
      (policy : EvidencePolicyRules F) (target : String) (now : ℕ) (items : List (EvidenceItem F J))
      (rows : List (Assessed F))
      → assess_items m services attestation policy target now items ≡ ok rows
      → all_of (λ a. a.valid && not a.stale) rows ≡ true
      → (all_of (is_sound m services attestation policy target now) items ≡ true)
        × (is_empty items ≡ is_empty rows)
        × IsMatched m services attestation policy items rows
  unfolding assess_items
  items-is_sound policy target now [] rows h all = (
    refl,
    ap is_empty (ok_injective h),
    subst (IsMatched m services attestation policy []) (ok_injective h)
        (record { same_types = refl; supporting = λ k x. x; contradicting = λ k. refl }),
  )
  items-is_sound policy target now (item ∷ items) rows h all =
      let body = assess_item m services attestation policy target now item in
      let (observed, others, e, made, same) =
        assess_rest-ok (services.observed_time item.observed_at) body
          (assess_items m services attestation policy target now items) rows h in
      let all_these : all_of (λ a. a.valid && not a.stale) (body observed ∷ others) ≡ true =
        ap (all_of (λ (a : Assessed F). a.valid && not a.stale)) same ∙ all in
      let (first, rest) = three (body observed).valid (body observed).stale _ all_these in
      let sound =
        valid-is_sound m services attestation policy target now observed item e first.0 first.1 in
      let (sounds, _, matched) = items-is_sound policy target now items others made rest in
      (
        rw sound sounds,
        ap is_empty same,
        subst (IsMatched m services attestation policy (item ∷ items)) same (
            IsMatched-more m services attestation policy target now item items observed others
              first.0 matched),
      )
    where
      three : (p q r : Bool) → (p && not q && r) ≡ true → ((p ≡ true) × (q ≡ false)) × (r ≡ true)
      three true false r h = ((refl, refl), h)
      three true true r h = cc
      three false q r h = cc

  -- What an assessment of automation grade stands on.
  pub record IsSupported (request : DecisionRequest F J) (policy : EvidencePolicyRules F) (now : ℕ)
      : Type 0 where
    pub all_sound :
        all_of (is_sound m services attestation policy request.action.target now) request.evidence
        ≡ true
    pub some_evidence : is_empty request.evidence ≡ false
    -- each required type is that of an item
    pub complete :
        (type : String)
        → contains
            (required_sources m services attestation policy (action_type_value request.action.type))
            type
          ≡ true
        → contains (types_of request.evidence) type ≡ true
    -- enough different sources of items that support the claim
    pub sources : List (String × String)
    pub different : is_distinct sources ≡ true
    pub corroborated : policy.minimum_corroborating_sources ≤ length sources
    pub supporting :
        (k : String × String)
        → contains sources k ≡ true
        → contains (supporting_sources policy.hypothesis_claim request.evidence) k ≡ true
    -- few sources have all the items that contradict it
    pub conflicting : List (String × String)
    pub few_conflicts : length conflicting ≤ policy.maximum_conflicts_for_allow
    pub contradicting :
        (k : String × String)
        → contains (contradicting_sources policy.hypothesis_claim request.evidence) k ≡ true
        → contains conflicting k ≡ true

  grade-parts :
      (p q r s t u v w : Bool)
      → ((p && not q) && r && s && t && u && v && w) ≡ true
      → (p ≡ true) × (q ≡ false) × (r ≡ true) × (s ≡ true) × (t ≡ true) × (u ≡ true)
  grade-parts true false true true true true v w h = (refl, refl, refl, refl, refl, refl)
  grade-parts false q r s t u v w h = cc
  grade-parts true true r s t u v w h = cc
  grade-parts true false false s t u v w h = cc
  grade-parts true false true false t u v w h = cc
  grade-parts true false true true false u v w h = cc
  grade-parts true false true true true false v w h = cc

  assessment_from-IsSupported :
      (request : DecisionRequest F J) (policy : EvidencePolicyRules F) (now : ℕ)
      (rows : List (Assessed F)) (strength : F)
      → assess_items m services attestation policy request.action.target now request.evidence
        ≡ ok rows
      → (assessment_from m services attestation policy
          (action_type_value request.action.type)
          rows
          strength).automation_grade
        ≡ true
      → IsSupported request policy now
  unfolding assessment_from
  assessment_from-IsSupported request policy now rows strength read grade =
      let (valid, found, fresh, complete, few, enough) =
        grade-parts (is_empty (ids_where m services attestation (λ a. not a.valid) rows))
          (is_empty rows) (is_empty (ids_where m services attestation (λ a. a.stale) rows))
          (is_empty (
            missing_types m services attestation policy (action_type_value request.action.type)
              rows))
          (leb (sources_where m services attestation (λ a. a.conflicts) rows)
            policy.maximum_conflicts_for_allow)
          (leb policy.minimum_corroborating_sources
            (sources_where m services attestation (λ a. a.corroborates) rows))
          (o.lt (o.lit 0 0) strength) (o.le policy.minimum_overall_strength_for_allow strength)
          grade in
      let (sound, same, matched) =
        items-is_sound policy request.action.target now request.evidence rows read (
          valid_and_fresh rows (none-where (λ a. not a.valid) rows valid)
            (none-where (λ a. a.stale) rows fresh)) in
      let supporters =
        map (source_key m services attestation) (keep (λ (a : Assessed F). a.corroborates) rows) in
      let opponents =
        map (source_key m services attestation) (keep (λ (a : Assessed F). a.conflicts) rows) in
      record {
        all_sound = sound;
        some_evidence = same ∙ found;
        complete = λ type required.
            ap (λ types. contains types type) (sym matched.same_types)
            ∙ missing_types_complete m services attestation policy
                (action_type_value request.action.type) rows type complete required;
        sources = distinct_keys m services attestation supporters;
        different = distinct_keys-is_distinct m services attestation supporters;
        corroborated = ground (arith, enough);
        supporting = λ k h.
            matched.supporting k
              (sym (contains-distinct_keys m services attestation supporters k) ∙ h);
        conflicting = distinct_keys m services attestation opponents;
        few_conflicts = ground (arith, few);
        contradicting = λ k h.
            contains-distinct_keys m services attestation opponents k
            ∙ sym (matched.contradicting k)
            ∙ h;
      }

  -- Evidence that is assessed as of automation grade is there, and each item of it is about the target
  -- of the action, comes from a trusted source with the claims that the registry has of it, is signed
  -- with the key of the source and unchanged, was observed within the maximum age and not in the future,
  -- carries no instructions, and is reliable and relevant enough; each required type of source is that
  -- of an item, at least the minimum number of different sources have an item that supports the claim,
  -- and the items that contradict it are of at most the maximum number of sources.
  pub assess_evidence-IsSupported :
      (request : DecisionRequest F J) (policy : EvidencePolicyRules F) (now : ℕ)
      (a : EvidenceAssessment F)
      → assess_evidence m services attestation request policy now ≡ ok a
      → a.automation_grade ≡ true
      → IsSupported request policy now
  unfolding assess_evidence
  assess_evidence-IsSupported request policy now a h grade =
      let (rows, read, h1) =
        unbind
          (assess_items m services attestation policy request.action.target now request.evidence) _
          a h in
      let (strength, _, h2) = unbind (strength_of m services attestation rows) _ a h1 in
      assessment_from-IsSupported request policy now rows strength read
        (ap (λ (b : EvidenceAssessment F). b.automation_grade) (ok_injective h2) ∙ grade)
