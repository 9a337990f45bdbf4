-- ===== src/Evidence.antt =====
-- src/adf_poc/evidence.py: the assessment of the evidence of a case.
pub mod Traces
pub mod Proposals
use ai_decision_firewall.Prelude.{
  ℕ, suc, ◌+◌, String, string_eq, ◌==◌, Bool, true, false, not, ◌&&◌, ◌||◌, List, [], ◌∷◌, ◌++◌,
  map, Dict, lookup, Option, none, some, Result, ok, err, ◌>>=◌, ◌>>◌, leb, keep, is_empty,
  contains, length, join, is_blank, sorted_set, if◌then◌else◌,
}
use ai_decision_firewall.Prelude.Float.{FloatOps, FloatMath, min_of, max_of}
use ai_decision_firewall.Schemas.{
  IntegrityStatus, verified, EvidenceEvent, IdentityCase, EvidenceAssessment,
}
use ai_decision_firewall.Contract.{
  ContractError, Modeled, flag, select_modeled_attributes, select_evidence_attributes,
}

abbrev pub instruction_patterns : List String
instruction_patterns =
    "\\bignore\\s+(all\\s+)?(prior|previous)\\b" ∷ "\\b(system|assistant)\\s*:\\s*"
    ∷ "\\bdo\\s+not\\s+ask\\b" ∷ "\\bdisable\\s+(the\\s+)?account\\b" ∷ []

abbrev pub positive_indicators : List String
positive_indicators =
    "threat_ip" ∷ "token_reuse" ∷ "credential_dumping" ∷ "lateral_movement" ∷ "edr_malware"
    ∷ "mfa_fatigue" ∷ "oauth_grant" ∷ "unusual_admin_action" ∷ "new_device" ∷ "impossible_travel"
    ∷ []

abbrev pub benign_indicators : List String
benign_indicators =
    "known_vpn" ∷ "approved_travel" ∷ "maintenance_window" ∷ "service_account_baseline"
    ∷ "strong_mfa" ∷ []

abbrev pub expected_sources : List String
expected_sources =
    "asset_inventory" ∷ "identity" ∷ "network" ∷ "endpoint" ∷ "threat_intel" ∷ "change_management"
    ∷ "user_context" ∷ []

-- The standard library: `re.search` without regard to case, and the seconds from one ISO time to
-- another, `none` where parsing or subtracting raises.
pub record TextServices (F : Type 0) : Type 0 where
  pub search : String → String → Bool
  pub seconds_between : String → String → Option F

-- What `assess_evidence` raises.
pub data EvidenceFault : Type 0 where
  contract : ContractError → EvidenceFault
  time_fault sum_fault : EvidenceFault

abbrev pub or_raise {ℓ} : {E A : Type ℓ} → E → Option A → Result E A
or_raise e none = err e
or_raise e (some a) = ok a

abbrev pub by_contract : {A : Type 0} → Result ContractError A → Result EvidenceFault A
by_contract (ok a) = ok a
by_contract (err e) = err (contract e)

-- `modeled.get(key) is True`
abbrev pub is_true : Option Modeled → Bool
is_true (some (flag b)) = b
is_true _ = false

-- `any(modeled.get(key) is True for key in keys)`
abbrev pub any_true : Dict String Modeled → List String → Bool
any_true modeled [] = false
any_true modeled (key ∷ keys) = is_true (lookup key modeled) || any_true modeled keys

abbrev pub is_verified : IntegrityStatus → Bool
is_verified verified = true
is_verified _ = false

abbrev pub join_all : List String → String
join_all [] = ""
join_all (t ∷ []) = t
join_all (t ∷ ts) = join t (join ", " (join_all ts))

module _ {F : Type 0} (m : FloatMath F) (services : TextServices F) ⦃o : FloatOps F⦄ where
  -- `clamp` of utils.py, with its defaults
  abbrev pub clamp : F → F
  clamp value = max_of (o.lit 0 0) (min_of (o.lit 1 0) value)

  abbrev any_match : List String → String → Bool
  any_match [] t = false
  any_match (pattern ∷ patterns) t = services.search pattern t || any_match patterns t

  -- `text_is_instructional`
  unfoldable pub is_instructional : EvidenceEvent F → Bool
  is_instructional event =
      event.contains_instructional_content || any_match instruction_patterns event.untrusted_text

  -- `clamp(1.0 - max(0.0, delay_seconds - 300.0) / 6900.0)`
  abbrev pub freshness : F → F
  freshness delay = clamp (
      m.sub (o.lit 1 0) (
        m.div (max_of (o.lit 0 0) (m.sub (max_of (o.lit 0 0) delay) (o.lit 300 0))) (o.lit 6900 0)))

  -- What the loop over the events finds in one of them.
  pub record Finding : Type 0 where
    pub event : EvidenceEvent F
    pub fresh : F
    pub positive : Bool
    pub benign : Bool
    pub conflicting : Bool
    pub instructional : Bool

  -- The delay of an event, and its attributes under the contract.
  abbrev pub read_event :
      EvidenceEvent F → Result EvidenceFault (F × Dict String Modeled × Dict String Modeled)
  read_event event =
      or_raise time_fault (services.seconds_between event.observed_at event.collected_at)
      >>= λ delay.
          by_contract (select_modeled_attributes m event.source_type event.attributes)
          >>= λ modeled.
              by_contract (select_evidence_attributes m event.source_type event.attributes)
              >>= λ attributes. ok (delay, modeled, attributes)

  abbrev pub finding_of : EvidenceEvent F → F × Dict String Modeled × Dict String Modeled → Finding
  finding_of event (delay, modeled, attributes) = record {
    event = event;
    fresh = freshness delay;
    positive = any_true modeled positive_indicators;
    benign = any_true modeled benign_indicators;
    conflicting = is_true (lookup "source_conflict" attributes);
    instructional = is_instructional event;
  }

  -- One round of the loop over the events.
  unfoldable pub scan_event : EvidenceEvent F → Result EvidenceFault Finding
  scan_event event = read_event event >>= λ parts. ok (finding_of event parts)

  -- The loop over the events; the first that raises ends it.
  unfoldable pub scan_events : List (EvidenceEvent F) → Result EvidenceFault (List Finding)
  scan_events [] = ok []
  scan_events (event ∷ events) =
      scan_event event >>= λ found. scan_events events >>= λ rest. ok (found ∷ rest)

  abbrev pub ids_where : (Finding → Bool) → List Finding → List String
  ids_where p [] = []
  ids_where p (f ∷ fs) = let rest = ids_where p fs in if p f then f.event.event_id ∷ rest else rest

  abbrev pub count_where : (Finding → Bool) → List Finding → ℕ
  count_where p [] = 0
  count_where p (f ∷ fs) = let rest = count_where p fs in if p f then suc rest else rest

  -- `math.fsum(values) / event_count`
  abbrev pub mean : List F → ℕ → Result EvidenceFault F
  mean values count =
      or_raise sum_fault (m.fsum values) >>= λ total. ok (m.div total (o.of_nat count))

  abbrev unit_of : Bool → F
  unit_of b = if b then o.lit 1 0 else o.lit 0 0

  -- `quality`, before it is rounded.
  unfoldable pub quality : F → F → F → F → F → ℕ → Bool → ℕ → F
  quality provenance integrity fresh diversity trust conflicts poisoned missing =
      let weighted =
        m.add
          (m.add
            (m.add (m.add (m.mul (o.lit 27 2) provenance) (m.mul (o.lit 23 2) integrity))
              (m.mul (o.lit 18 2) fresh))
            (m.mul (o.lit 17 2) diversity))
          (m.mul (o.lit 15 2) trust) in
      let q1 = m.sub weighted (min_of (o.lit 25 2) (m.mul (o.lit 10 2) (o.of_nat conflicts))) in
      let q2 = if poisoned then m.sub q1 (o.lit 30 2) else q1 in
      let q3 = if leb 2 missing then m.sub q2 (o.lit 12 2) else q2 in clamp q3

  abbrev when : Bool → String → List String
  when b reason = if b then reason ∷ [] else []

  abbrev or_baseline : List String → List String
  or_baseline [] =
      "Evidence provenance, integrity, freshness, and source diversity meet the POC baseline." ∷ []
  or_baseline (r ∷ rs) = r ∷ rs

  unfoldable pub reasons_of : F → F → F → List String → ℕ → Bool → List String
  reasons_of provenance integrity fresh missing conflicts poisoned = or_baseline (
      when (o.lt provenance (o.lit 1 0)) "One or more evidence events lack verifiable provenance."
      ++ (when (o.lt integrity (o.lit 1 0))
            "One or more evidence events failed integrity verification or remain unverified."
          ++ (when (o.lt fresh (o.lit 80 2)) "One or more telemetry sources are stale."
              ++ (when (not (is_empty missing))
                    (join "Expected evidence sources are missing: " (join (join_all missing) "."))
                  ++ (when (leb 1 conflicts) "Independent telemetry sources conflict."
                      ++ when poisoned
                          "Untrusted content contains instructions directed at an AI agent; content is excluded from model input and blocks autonomous action.")))))

  -- `sorted(EXPECTED_SOURCES - sources)`
  unfoldable pub missing_sources : List (EvidenceEvent F) → List String
  missing_sources events =
      keep (λ source. not (contains (map (λ event. event.source_type) events) source))
        (sorted_set expected_sources)

  abbrev pub no_evidence : EvidenceAssessment F
  no_evidence = record {
    evidence_quality = o.lit 0 0;
    provenance_valid_ratio = o.lit 0 0;
    integrity_verified_ratio = o.lit 0 0;
    freshness_score = o.lit 0 0;
    source_diversity_score = o.lit 0 0;
    mean_source_trust = o.lit 0 0;
    independent_supporting_sources = 0;
    positive_event_ids = [];
    benign_event_ids = [];
    missing_expected_sources = sorted_set expected_sources;
    conflict_count = 0;
    poisoned_evidence = false;
    poisoned_event_ids = [];
    reasons = "No evidence events were supplied." ∷ [];
  }

  pub record Means : Type 0 where
    pub provenance : F
    pub integrity : F
    pub fresh : F
    pub trust : F

  -- The four means over the events.
  abbrev pub means : List (EvidenceEvent F) → List Finding → Result EvidenceFault Means
  means events found =
      let count = length events in
      mean (map (λ event. unit_of (not (is_blank event.provenance_id))) events) count
      >>= λ provenance.
          mean (map (λ event. unit_of (is_verified event.integrity)) events) count >>= λ integrity.
          mean (map (λ (f : Finding). f.fresh) found) count >>= λ fresh.
          mean (map (λ event. event.trust_score) events) count >>= λ trust.
          ok (record {
            provenance = provenance;
            integrity = integrity;
            fresh = fresh;
            trust = trust;
          })

  -- `diversity_score`
  abbrev diversity_of : List (EvidenceEvent F) → F
  diversity_of events = clamp (
      m.div (o.of_nat (length (sorted_set (map (λ event. event.source_type) events))))
        (o.of_nat (length expected_sources)))

  -- The assessment, with the means.
  abbrev pub assessment : List (EvidenceEvent F) → List Finding → Means → EvidenceAssessment F
  assessment events found means =
      let diversity = diversity_of events in
      let missing = missing_sources events in
      let poisoned_ids = ids_where (λ f. f.instructional) found in
      let conflicts = count_where (λ f. f.conflicting) found in
      let supporting = keep (λ (f : Finding). f.positive) found in
      record {
        evidence_quality = m.round6 (
            quality means.provenance means.integrity means.fresh diversity means.trust conflicts
              (not (is_empty poisoned_ids)) (length missing));
        provenance_valid_ratio = m.round6 means.provenance;
        integrity_verified_ratio = m.round6 means.integrity;
        freshness_score = m.round6 means.fresh;
        source_diversity_score = m.round6 diversity;
        mean_source_trust = m.round6 means.trust;
        independent_supporting_sources =
            length (sorted_set (map (λ (f : Finding). f.event.source_type) supporting));
        positive_event_ids = ids_where (λ f. f.positive) found;
        benign_event_ids = ids_where (λ f. f.benign) found;
        missing_expected_sources = missing;
        conflict_count = conflicts;
        poisoned_evidence = not (is_empty poisoned_ids);
        poisoned_event_ids = poisoned_ids;
        reasons =
            reasons_of means.provenance means.integrity means.fresh missing conflicts
              (not (is_empty poisoned_ids));
      }

  unfoldable pub assess_findings :
      List (EvidenceEvent F) → List Finding → Result EvidenceFault (EvidenceAssessment F)
  assess_findings events found = means events found >>= λ s. ok (assessment events found s)

  abbrev pub assess_events : List (EvidenceEvent F) → Result EvidenceFault (EvidenceAssessment F)
  assess_events [] = ok no_evidence
  assess_events (event ∷ events) =
      scan_events (event ∷ events) >>= λ found. assess_findings (event ∷ events) found

  -- `assess_evidence`
  unfoldable pub assess_evidence : IdentityCase F → Result EvidenceFault (EvidenceAssessment F)
  unfolding scan_events assess_findings
  assess_evidence case = assess_events case.events
