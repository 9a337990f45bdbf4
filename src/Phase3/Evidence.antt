-- ===== src/Phase3/Evidence.antt =====
-- src/adf_poc/phase3/evidence.py: `assess_evidence`. The search for a pattern, the time parser, the
-- digest of a content and the float of a duration are parameters.
use ai_decision_firewall.Prelude.{
  ℕ, ◌-◌, ◌*◌, suc, String, string_eq, nat_eq, pair_eq, ◌==◌, Bool, false, not, ◌&&◌, ◌||◌, List,
  [], ◌∷◌, ◌++◌, map, Dict, lookup, insert, Option, none, some, Result, ok, err, ltb, leb, length,
  keep, is_empty, is_blank, contains, disjoint, sorted_set, join, ◌>>=◌, if◌then◌else◌,
}
use ai_decision_firewall.Prelude.Float.{FloatOps, FloatMath, max_of, ℤ, pos, negsuc}
use ai_decision_firewall.Phase3.{
  EvidenceIntegrityStatus, EvidenceItem, DecisionRequest, EvidencePolicyRules, TrustedSourcePolicy,
  action_type_value, trust_level_value,
}
use ai_decision_firewall.Phase3.Records.{EvidenceItemAssessment, EvidenceAssessment}
use ai_decision_firewall.Phase3.Consequence.{when}
use ai_decision_firewall.Phase3.Attestation.{sorted, AttestationKeys, is_attested, integrity_value}

-- What the assessment takes from the standard library.
pub record EvidenceServices (F J : Type 0) : Type 0 where
  -- `_parse_timestamp`, or `none` where it raises
  pub observed_time : String → Option ℕ
  -- `timedelta.total_seconds` of a number of microseconds
  pub total_seconds : ℤ → F
  pub content_sha256 : J → String → String
  pub canonical_json : J → String
  pub search : String → String → Bool
  -- `math.isclose` with an absolute tolerance of 1e-12
  pub is_close : F → F → Bool

-- `_INSTRUCTION_PATTERNS`
abbrev pub instruction_patterns : List String
instruction_patterns =
    "\\bignore\\s+(all\\s+)?(prior|previous|policy)\\b" ∷ "\\b(system|assistant|developer)\\s*:\\s*"
    ∷ "\\b(bypass|disable|override)\\s+(the\\s+)?(firewall|policy|control)\\b"
    ∷ "\\breturn\\s+(allow|approved)\\b" ∷ []

-- `fatal_reasons`
abbrev pub fatal_reasons : List String
fatal_reasons =
    "EVIDENCE_SOURCE_UNTRUSTED" ∷ "EVIDENCE_SUBJECT_MISMATCH" ∷ "EVIDENCE_SOURCE_TYPE_MISMATCH"
    ∷ "EVIDENCE_TRUST_CLAIM_MISMATCH" ∷ "EVIDENCE_PROVENANCE_INVALID"
    ∷ "EVIDENCE_PROVENANCE_SIGNATURE_INVALID" ∷ "EVIDENCE_INTEGRITY_INVALID"
    ∷ "EVIDENCE_CONTENT_DIGEST_MISMATCH" ∷ "FUTURE_EVIDENCE" ∷ "PROMPT_INJECTION_DETECTED"
    ∷ "EVIDENCE_RELIABILITY_BELOW_MINIMUM" ∷ "EVIDENCE_RELEVANCE_BELOW_MINIMUM" ∷ []

-- `_ordered_unique`, with what was seen
abbrev unique_after : List String → List String → List String
unique_after seen [] = []
unique_after seen (x ∷ xs) =
    let rest = unique_after (x ∷ seen) xs in
    let others = unique_after seen xs in if contains seen x then others else x ∷ rest

abbrev pub ordered_unique : List String → List String
ordered_unique values = unique_after [] values

pub data EvidenceFault : Type 0 where
  time_error sum_error : EvidenceFault

abbrev any_search : (String → String → Bool) → List String → String → Bool
any_search search [] content = false
any_search search (p ∷ ps) content = search p content || any_search search ps content

-- `now - observed_at`, in microseconds
abbrev pub age_of : ℕ → ℕ → ℤ
age_of now observed = if leb observed now then pos (now - observed) else negsuc (observed - suc now)

abbrev pub is_future : ℕ → ℕ → Bool
is_future now observed = ltb now observed

abbrev pub is_stale : ℕ → ℕ → ℕ → Bool
is_stale maximum_age now observed =
    not (is_future now observed) && ltb (maximum_age * 1000000) (now - observed)

abbrev pub is_verified : EvidenceIntegrityStatus → Bool
is_verified status = integrity_value status == "VERIFIED"

-- What the registry knows of the source of an item.
pub record Registered (F : Type 0) : Type 0 where
  pub reliability : F
  pub trust : String
  pub reasons : List String

-- What the loop keeps of an item.
pub record Assessed (F : Type 0) : Type 0 where
  pub row : EvidenceItemAssessment F
  pub valid : Bool
  pub stale : Bool
  pub corroborates : Bool
  pub conflicts : Bool
  pub score : F
  pub reasons : List String

module _ {F J K : Type 0} (m : FloatMath F) (services : EvidenceServices F J)
    (attestation : AttestationKeys F K) ⦃o : FloatOps F⦄ where
  -- The registry of the trusted sources on an item.
  abbrev pub registered_by : EvidenceItem F J → Option (TrustedSourcePolicy F) → Registered F
  registered_by item none = record {
    reliability = o.lit 0 0;
    trust = "UNTRUSTED";
    reasons = "EVIDENCE_SOURCE_UNTRUSTED" ∷ [];
  }
  registered_by item (some source) = record {
    reliability = source.reliability;
    trust = source.trust_level;
    reasons =
        when (not (source.source_type == item.source_type)) "EVIDENCE_SOURCE_TYPE_MISMATCH"
        ++ when
            (not (services.is_close item.reliability source.reliability)
              || not (trust_level_value item.trust_level == source.trust_level))
            "EVIDENCE_TRUST_CLAIM_MISMATCH";
  }

  abbrev pub provenance_verified : EvidenceItem F J → Bool
  provenance_verified item =
      not (is_blank item.provenance.id) && item.provenance.verified && is_attested attestation item

  abbrev pub digest_matches : EvidenceItem F J → Bool
  digest_matches item =
      services.content_sha256 item.payload item.untrusted_text == item.integrity.content_sha256

  -- `poisoned`
  abbrev pub is_poisoned : EvidenceItem F J → Bool
  is_poisoned item =
      any_search services.search instruction_patterns
        (join item.untrusted_text (join "\n" (services.canonical_json item.payload)))

  -- `item_reasons`, for an item observed at `observed`
  unfoldable pub item_reasons :
      EvidencePolicyRules F → String → ℕ → EvidenceItem F J → ℕ → List String
  unfolding is_attested
  item_reasons policy target now item observed =
      when (not (item.subject_target_id == target)) "EVIDENCE_SUBJECT_MISMATCH"
      ++ (registered_by item (lookup item.source_instance policy.trusted_sources)).reasons
      ++ when (not (provenance_verified item)) "EVIDENCE_PROVENANCE_INVALID"
      ++ when (not (is_attested attestation item)) "EVIDENCE_PROVENANCE_SIGNATURE_INVALID"
      ++ when (not (is_verified item.integrity.status)) "EVIDENCE_INTEGRITY_INVALID"
      ++ when (not (digest_matches item)) "EVIDENCE_CONTENT_DIGEST_MISMATCH"
      ++ when (is_future now observed) "FUTURE_EVIDENCE"
      ++ when (is_stale policy.maximum_age_seconds now observed) "STALE_EVIDENCE"
      ++ when (is_poisoned item) "PROMPT_INJECTION_DETECTED"
      ++ when (o.lt item.reliability policy.minimum_reliability)
          "EVIDENCE_RELIABILITY_BELOW_MINIMUM"
      ++ when (o.lt item.relevance policy.minimum_relevance) "EVIDENCE_RELEVANCE_BELOW_MINIMUM"

  abbrev pub weight_in : EvidencePolicyRules F → String → F
  weight_in policy trust = elim (lookup trust policy.trust_weights) [
    | none ↦ o.lit 0 0
    | some w ↦ w
  ]

  -- `freshness_factor`
  abbrev pub freshness_factor : EvidencePolicyRules F → ℕ → ℕ → F
  freshness_factor policy now observed =
      if is_future now observed || is_stale policy.maximum_age_seconds now observed
      then o.lit 0 0
      else m.sub (o.lit 1 0) (
          m.mul (o.lit 25 2) (
            m.div (services.total_seconds (age_of now observed))
              (o.of_nat policy.maximum_age_seconds)))

  -- The body of the loop, for an item observed at `observed`.
  unfoldable pub assess_item :
      EvidencePolicyRules F → String → ℕ → EvidenceItem F J → ℕ → Assessed F
  unfolding item_reasons
  assess_item policy target now item observed =
      let reasons = item_reasons policy target now item observed in
      let source = registered_by item (lookup item.source_instance policy.trusted_sources) in
      let future = is_future now observed in
      let stale = is_stale policy.maximum_age_seconds now observed in
      let valid = disjoint reasons fatal_reasons in
      let trust_weight = weight_in policy source.trust in
      let factor = freshness_factor policy now observed in
      let score =
        if valid
        then m.mul (m.mul (m.mul source.reliability trust_weight) item.relevance) factor
        else o.lit 0 0 in
      record {
        row = record {
          evidence_id = item.id;
          subject_target_id = item.subject_target_id;
          source_type = item.source_type;
          source_instance = item.source_instance;
          provenance_verified = provenance_verified item;
          integrity_verified = is_verified item.integrity.status;
          content_digest_matches = digest_matches item;
          freshness = if future then "FUTURE" else if stale then "STALE" else "FRESH";
          age_seconds = m.round6 (services.total_seconds (age_of now observed));
          reliability = source.reliability;
          trust_weight = trust_weight;
          relevance = item.relevance;
          supports = item.supports;
          contradicts = item.contradicts;
          poisoned = is_poisoned item;
          score = m.round6 score;
          reason_codes = ordered_unique reasons;
        };
        valid = valid;
        stale = stale;
        corroborates =
            valid
            && not future
            && not stale
            && contains item.supports policy.hypothesis_claim
            && o.lt (o.lit 0 0) score;
        conflicts = valid && contains item.contradicts policy.hypothesis_claim;
        score = score;
        reasons = reasons;
      }

  abbrev pub assess_rest :
      Option ℕ
      → (ℕ → Assessed F)
      → Result EvidenceFault (List (Assessed F))
      → Result EvidenceFault (List (Assessed F))
  assess_rest none body rest = err time_error
  assess_rest (some observed) body rest = rest >>= λ rows. ok (body observed ∷ rows)

  -- The loop over the evidence; the first item whose time cannot be read raises.
  unfoldable pub assess_items :
      EvidencePolicyRules F
      → String
      → ℕ
      → List (EvidenceItem F J)
      → Result EvidenceFault (List (Assessed F))
  unfolding assess_item
  assess_items policy target now [] = ok []
  assess_items policy target now (item ∷ items) =
      assess_rest (services.observed_time item.observed_at) (assess_item policy target now item)
        (assess_items policy target now items)

  abbrev pub source_key : Assessed F → String × String
  source_key a = (a.row.source_type, a.row.source_instance)

  abbrev pub ids_where : (Assessed F → Bool) → List (Assessed F) → List String
  ids_where p rows = map (λ a. a.row.evidence_id) (keep p rows)

  abbrev pub distinct_keys : List (String × String) → List (String × String)
  distinct_keys [] = []
  distinct_keys (k ∷ ks) = let rest = distinct_keys ks in if contains ks k then rest else k ∷ rest

  -- The size of the set of the sources of the items that `p` selects.
  abbrev pub sources_where : (Assessed F → Bool) → List (Assessed F) → ℕ
  sources_where p rows = length (distinct_keys (map source_key (keep p rows)))

  -- `supporting_scores_by_instance`, from the items in their order
  abbrev best_scores : List (Assessed F) → Dict (String × String) F → Dict (String × String) F
  best_scores [] scores = scores
  best_scores (a ∷ rows) scores =
      let known : F = elim (lookup (source_key a) scores) [ none ↦ o.lit 0 0 | some s ↦ s ] in
      let counted = best_scores rows (insert (source_key a) (max_of a.score known) scores) in
      let others = best_scores rows scores in if a.corroborates then counted else others

  abbrev second : (String × String) × F → F
  second entry = entry.1

  -- `overall_strength`
  abbrev pub strength_of : List (Assessed F) → Result EvidenceFault F
  strength_of rows =
      let scores = best_scores rows [] in
      if is_empty scores then ok (o.lit 0 0) else elim (m.fsum (map second scores)) [
        | none ↦ err sum_error
        | some total ↦ ok (m.div total (o.of_nat (length scores)))
      ]

  abbrev pub all_reasons : List (Assessed F) → List String
  all_reasons [] = []
  all_reasons (a ∷ rows) = a.reasons ++ all_reasons rows

  abbrev pub required_sources : EvidencePolicyRules F → String → List String
  required_sources policy action = elim (lookup action policy.required_source_types_by_action) [
    | none ↦ []
    | some s ↦ s
  ]

  -- `missing`
  abbrev pub missing_types : EvidencePolicyRules F → String → List (Assessed F) → List String
  missing_types policy action rows =
      let present = map (λ a. a.row.source_type) (keep (λ a. a.valid) rows) in
      sorted_set (keep (λ s. not (contains present s)) (required_sources policy action))

  -- The assessment that is returned, for the rows of the loop and the strength.
  unfoldable pub assessment_from :
      EvidencePolicyRules F → String → List (Assessed F) → F → EvidenceAssessment F
  assessment_from policy action rows strength =
      let invalid = ids_where (λ a. not a.valid) rows in
      let stale = ids_where (λ a. a.stale) rows in
      let poisoned = ids_where (λ a. a.row.poisoned) rows in
      let missing = missing_types policy action rows in
      let conflicts = sources_where (λ a. a.conflicts) rows in
      let sources = sources_where (λ a. a.corroborates) rows in
      let decision_grade = is_empty invalid && not (is_empty rows) in
      record {
        overall_strength = m.round6 strength;
        decision_grade = decision_grade;
        automation_grade =
            decision_grade
            && is_empty stale
            && is_empty missing
            && leb conflicts policy.maximum_conflicts_for_allow
            && leb policy.minimum_corroborating_sources sources
            && o.lt (o.lit 0 0) strength
            && o.le policy.minimum_overall_strength_for_allow strength;
        corroborating_sources = sources;
        conflict_count = conflicts;
        stale_evidence_ids = sorted stale;
        missing_expected_sources = missing;
        invalid_evidence_ids = sorted invalid;
        poisoned_evidence_ids = sorted poisoned;
        assessed_items = map (λ a. a.row) rows;
        reason_codes = ordered_unique (
            all_reasons rows
            ++ when (not (is_empty missing)) "MISSING_EXPECTED_EVIDENCE"
            ++ when (not (conflicts == 0)) "CONFLICTING_EVIDENCE"
            ++ when (ltb sources policy.minimum_corroborating_sources) "INSUFFICIENT_CORROBORATION"
            ++ when (o.lt strength policy.minimum_overall_strength_for_allow)
                "INSUFFICIENT_EVIDENCE_STRENGTH");
      }

  -- `assess_evidence`, at the time `now`
  unfoldable pub assess_evidence :
      DecisionRequest F J → EvidencePolicyRules F → ℕ → Result EvidenceFault (EvidenceAssessment F)
  unfolding assess_items assessment_from
  assess_evidence request policy now =
      assess_items policy request.action.target now request.evidence >>= λ rows.
      strength_of rows >>= λ strength.
      ok (assessment_from policy (action_type_value request.action.type) rows strength)
