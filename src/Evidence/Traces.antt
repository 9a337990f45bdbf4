-- ===== src/Evidence/Traces.antt =====
-- What the assessment of evidence.py cites: events of the case, and every instructional one.
use ai_decision_firewall.Prelude.{
  String, string_eq, ◌==◌, ◌≡◌, refl, sym, ap, ◌∙◌, Bool, not, ◌&&◌, List, [], ◌∷◌, map, keep,
  is_empty, contains, contains-sorted_set, sorted_set, IsWithin, Result, ok, err, ◌>>=◌, arith,
  Bool-cases, inl, inr, eq_iff,
}
use ai_decision_firewall.Prelude.Float.{FloatOps, FloatMath}
use ai_decision_firewall.Schemas.{EvidenceEvent, IdentityCase, EvidenceAssessment}
use ai_decision_firewall.Verifier.{known_ids}
use ai_decision_firewall.Evidence.{
  TextServices, Finding, is_instructional, read_event, finding_of, means, assessment, scan_event,
  scan_events, ids_where, missing_sources, expected_sources, assess_findings, assess_events,
  assess_evidence,
}

pub bind-ok :
    {E A B : Type 0} (r : Result E A) (f : A → Result E B) (b : B)
    → (r >>= f) ≡ ok b
    → (a : A) × (r ≡ ok a) × (f a ≡ ok b)
bind-ok (ok a) f b h = (a, refl, h)
bind-ok (err e) f b h = cc

pub ok_injective : {E A : Type 0} {a b : A} → Path (Result E A) (ok a) (ok b) → a ≡ b
ok_injective h = cc

module _ {F : Type 0} (m : FloatMath F) (services : TextServices F) ⦃o : FloatOps F⦄ where
  abbrev Found : Type 0
  Found = Finding m services

  -- A finding is about its event.
  scan_event-parts :
      (event : EvidenceEvent F) (f : Found)
      → scan_event m services event ≡ ok f
      → (f.event ≡ event) × (f.instructional ≡ is_instructional m services event)
  unfolding scan_event
  scan_event-parts event f h =
      let (parts, _, h1) =
        bind-ok (read_event m services event) (λ parts. ok (finding_of m services event parts)) f
          h in
      let e = ok_injective h1 in
      (sym (ap (λ (g : Found). g.event) e), sym (ap (λ (g : Found). g.instructional) e))

  abbrev event_ids : List (EvidenceEvent F) → List String
  event_ids events = map (λ event. event.event_id) events

  abbrev AreFindings : List (EvidenceEvent F) → List Found → Type 0
  AreFindings events found =
      (map (λ (f : Found). f.event) found ≡ events)
      × (ids_where m services (λ f. f.instructional) found
          ≡ event_ids (keep (is_instructional m services) events))

  findings_cons :
      (f : Found) (rest found : List Found) (event : EvidenceEvent F)
      (events : List (EvidenceEvent F))
      → f ∷ rest ≡ found
      → (f.event ≡ event) × (f.instructional ≡ is_instructional m services event)
      → AreFindings events rest
      → AreFindings (event ∷ events) found
  findings_cons f rest found event events e (same, instructional) (others, poisoned) =
      rw (← e) (cc, ground (arith, same, instructional, poisoned))

  -- The findings are those of the events, in their order.
  scan_events-parts :
      (events : List (EvidenceEvent F)) (found : List Found)
      → scan_events m services events ≡ ok found
      → AreFindings events found
  unfolding scan_events
  scan_events-parts [] found h = (
    ap (map (λ (f : Found). f.event)) (sym (ok_injective h)),
    ap (ids_where m services (λ f. f.instructional)) (sym (ok_injective h)),
  )
  scan_events-parts (event ∷ events) found h =
      let (f, hf, h1) =
        bind-ok (scan_event m services event)
          (λ f. scan_events m services events >>= λ rest. ok (f ∷ rest)) found h in
      let (rest, hr, h2) =
        bind-ok (scan_events m services events) (λ rest. ok (f ∷ rest)) found h1 in
      findings_cons f rest found event events (ok_injective h2) (scan_event-parts event f hf)
        (scan_events-parts events rest hr)

  ids_where-IsWithin :
      (p : Found → Bool) (found : List Found)
      → IsWithin (ids_where m services p found) (event_ids (map (λ (f : Found). f.event) found))
  ids_where-IsWithin p [] id h = h
  ids_where-IsWithin p (f ∷ found) id h = ground (arith, ids_where-IsWithin p found id)

  assess_findings-parts :
      (events : List (EvidenceEvent F)) (found : List Found) (a : EvidenceAssessment F)
      → assess_findings m services events found ≡ ok a
      → (a.positive_event_ids ≡ ids_where m services (λ f. f.positive) found)
        × (a.benign_event_ids ≡ ids_where m services (λ f. f.benign) found)
        × (a.poisoned_event_ids ≡ ids_where m services (λ f. f.instructional) found)
        × (a.poisoned_evidence ≡ not (is_empty (ids_where m services (λ f. f.instructional) found)))
        × (a.missing_expected_sources ≡ missing_sources m services events)
  unfolding assess_findings
  assess_findings-parts events found a h =
      let (s, _, h1) =
        bind-ok (means m services events found) (λ s. ok (assessment m services events found s)) a
          h in
      let e = ok_injective h1 in
      (
        sym (ap (λ (x : EvidenceAssessment F). x.positive_event_ids) e),
        sym (ap (λ (x : EvidenceAssessment F). x.benign_event_ids) e),
        sym (ap (λ (x : EvidenceAssessment F). x.poisoned_event_ids) e),
        sym (ap (λ (x : EvidenceAssessment F). x.poisoned_evidence) e),
        sym (ap (λ (x : EvidenceAssessment F). x.missing_expected_sources) e),
      )

  -- What an assessment says of the events.
  record IsCited (events : List (EvidenceEvent F)) (a : EvidenceAssessment F) : Type 0 where
    positive : IsWithin a.positive_event_ids (event_ids events)
    benign : IsWithin a.benign_event_ids (event_ids events)
    poisoned : a.poisoned_event_ids ≡ event_ids (keep (is_instructional m services) events)
    flagged : a.poisoned_evidence ≡ not (is_empty a.poisoned_event_ids)
    missing : a.missing_expected_sources ≡ missing_sources m services events

  assess_findings-IsCited :
      (events : List (EvidenceEvent F)) (found : List Found) (a : EvidenceAssessment F)
      → AreFindings events found
      → assess_findings m services events found ≡ ok a
      → IsCited events a
  assess_findings-IsCited events found a (same, instructional) h =
      let (p, b, q, flag, lack) = assess_findings-parts events found a h in
      record {
        positive = rw (p, ← same) (ids_where-IsWithin (λ f. f.positive) found);
        benign = rw (b, ← same) (ids_where-IsWithin (λ f. f.benign) found);
        poisoned = q ∙ instructional;
        flagged = flag ∙ ap (λ ids. not (is_empty ids)) (sym q);
        missing = lack;
      }

  assess_events-IsCited :
      (events : List (EvidenceEvent F)) (a : EvidenceAssessment F)
      → assess_events m services events ≡ ok a
      → IsCited events a
  unfolding missing_sources
  assess_events-IsCited [] a h = rw (← (ok_injective h)) (record {
    positive = λ id e. e;
    benign = λ id e. e;
    poisoned = refl;
    flagged = refl;
    missing = all_kept (sorted_set expected_sources);
  })
    where
      all_kept : (xs : List String) → xs ≡ keep (λ source. not (contains [] source)) xs
      all_kept [] = refl
      all_kept (x ∷ xs) = ap (λ rest. x ∷ rest) (all_kept xs)
  assess_events-IsCited (event ∷ events) a h =
      let (found, hf, h1) =
        bind-ok (scan_events m services (event ∷ events))
          (λ found. assess_findings m services (event ∷ events) found) a h in
      assess_findings-IsCited (event ∷ events) found a (scan_events-parts (event ∷ events) found hf)
        h1

  contains-keep :
      (p : String → Bool) (xs : List String) (x : String)
      → contains (keep p xs) x ≡ (contains xs x && p x)
  contains-keep p [] x = refl
  contains-keep p (y ∷ xs) x = elim (Bool-cases (y == x)) [
    | inl e ↦ let same = (eq_iff y x).0 e in ground (arith, ap p same, e, contains-keep p xs x)
    | inr e ↦ ground (arith, e, contains-keep p xs x)
  ]

  module _ (case : IdentityCase F) (a : EvidenceAssessment F)
      (assessed : assess_evidence m services case ≡ ok a) where
    cited : IsCited case.events a
    unfolding assess_evidence
    cited = assess_events-IsCited case.events a assessed

    -- An assessment that is returned cites only events of the case, as supporting, as benign and as
    -- poisoned.
    pub assess_evidence-IsWithin :
        IsWithin a.positive_event_ids (known_ids case)
        × IsWithin a.benign_event_ids (known_ids case)
        × IsWithin a.poisoned_event_ids (known_ids case)
    assess_evidence-IsWithin =
        (cited.positive, cited.benign, rw cited.poisoned (kept-IsWithin case.events))
      where
        kept-IsWithin :
            (events : List (EvidenceEvent F))
            → IsWithin (event_ids (keep (is_instructional m services) events)) (event_ids events)
        kept-IsWithin [] id h = h
        kept-IsWithin (event ∷ events) id h = ground (arith, kept-IsWithin events id)

    -- An assessment that is returned lists as poisoned the instructional events of the case, all of
    -- them in their order, and is flagged as poisoned exactly when there is one.
    pub assess_evidence-poisoned :
        (a.poisoned_event_ids ≡ event_ids (keep (is_instructional m services) case.events))
        × (a.poisoned_evidence ≡ not (is_empty (keep (is_instructional m services) case.events)))
    assess_evidence-poisoned = (
      cited.poisoned,
      cited.flagged ∙ ap (λ ids. not (is_empty ids)) cited.poisoned ∙ map_empty _,
    )
      where
        map_empty :
            (events : List (EvidenceEvent F))
            → not (is_empty (event_ids events)) ≡ not (is_empty events)
        map_empty [] = refl
        map_empty (event ∷ events) = refl

    -- An assessment that is returned lists as missing exactly the expected sources that no event of
    -- the case has.
    assess_evidence-missing :
        (source : String)
        → contains a.missing_expected_sources source ≡ (
            contains expected_sources source
            && not (contains (map (λ event. event.source_type) case.events) source))
    unfolding missing_sources
    assess_evidence-missing source =
        ap (λ sources. contains sources source) cited.missing
        ∙ contains-keep _ (sorted_set expected_sources) source
        ∙ ap (λ b. b && not (contains (map (λ event. event.source_type) case.events) source))
            (contains-sorted_set expected_sources source)
