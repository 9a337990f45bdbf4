-- ===== src/Phase3/Grade.antt =====
-- What evidence of automation grade is, by src/adf_poc/phase3/evidence.py.
use ai_decision_firewall.Prelude.{
  ℕ, ◌*◌, ◌-◌, String, string_eq, nat_eq, pair_eq, ◌==◌, ◌≡◌, refl, Bool, true, false, not, ◌&&◌,
  ◌||◌, List, [], ◌∷◌, ◌++◌, lookup, Option, none, some, ltb, contains, disjoint, arith,
}
use ai_decision_firewall.Prelude.Float.{FloatOps, FloatMath}
use ai_decision_firewall.Phase3.{
  EvidenceItem, EvidencePolicyRules, TrustedSourcePolicy, trust_level_value,
}
use ai_decision_firewall.Phase3.Consequence.{when}
use ai_decision_firewall.Phase3.Attestation.{AttestationKeys, is_attested}
use ai_decision_firewall.Phase3.Evidence.{
  EvidenceServices, fatal_reasons, is_future, is_stale, is_verified, registered_by,
  provenance_verified, digest_matches, is_poisoned, item_reasons, assess_item,
}

disjoint-append :
    (xs ys zs : List String)
    → disjoint (xs ++ ys) zs ≡ true
    → (disjoint xs zs ≡ true) × (disjoint ys zs ≡ true)
disjoint-append [] ys zs h = (refl, h)
disjoint-append (x ∷ xs) ys zs h =
    let others = disjoint-append xs ys zs (ground (arith, h)) in
    (ground (arith, h, others.0), others.1)

-- None of the reasons is fatal.
record IsClear (reasons : List String) : Type 0 where
  none_fatal : disjoint reasons fatal_reasons ≡ true

IsClear-append : {xs ys : List String} → IsClear (xs ++ ys) → IsClear xs × IsClear ys
IsClear-append {xs} {ys} c =
    let (before, last) = disjoint-append xs ys fatal_reasons c.none_fatal in
    (record { none_fatal = before }, record { none_fatal = last })

IsClear-when :
    (b : Bool) (x : String) → contains fatal_reasons x ≡ true → IsClear (when b x) → b ≡ false
IsClear-when true x known c = let h = c.none_fatal in ground (arith, known, h)
IsClear-when false x known c = refl

-- The last of the conditional reasons is not there, if it is a fatal one.
clear :
    (b : Bool) (x : String) {xs : List String}
    → contains fatal_reasons x ≡ true
    → IsClear (xs ++ when b x)
    → (b ≡ false) × IsClear xs
clear b x known c = let (before, last) = IsClear-append c in (IsClear-when b x known last, before)

module _ {F J K : Type 0} (m : FloatMath F) (services : EvidenceServices F J)
    (attestation : AttestationKeys F K) ⦃o : FloatOps F⦄ where
  -- The claims of an item on its source are those of the registry.
  abbrev pub source_agrees : EvidenceItem F J → Option (TrustedSourcePolicy F) → Bool
  source_agrees item none = false
  source_agrees item (some source) =
      source.source_type == item.source_type
      && services.is_close item.reliability source.reliability
      && trust_level_value item.trust_level == source.trust_level

  abbrev pub fresh_at : EvidencePolicyRules F → ℕ → Option ℕ → Bool
  fresh_at policy now none = false
  fresh_at policy now (some observed) =
      not (is_future now observed) && not (is_stale policy.maximum_age_seconds now observed)

  -- An item that is valid and fresh, without the reasons of the code.
  abbrev pub is_sound : EvidencePolicyRules F → String → ℕ → EvidenceItem F J → Bool
  is_sound policy target now item =
      fresh_at policy now (services.observed_time item.observed_at)
      && item.subject_target_id == target
      && source_agrees item (lookup item.source_instance policy.trusted_sources)
      && provenance_verified m services attestation item
      && is_attested attestation item
      && is_verified item.integrity.status
      && digest_matches m services attestation item
      && not (is_poisoned m services attestation item)
      && not (o.lt item.reliability policy.minimum_reliability)
      && not (o.lt item.relevance policy.minimum_relevance)

  registered-agrees :
      (item : EvidenceItem F J) (found : Option (TrustedSourcePolicy F))
      → IsClear (registered_by m services attestation item found).reasons
      → source_agrees item found ≡ true
  registered-agrees item none h = let c = h.none_fatal in cc
  registered-agrees item (some source) h =
      let (b, h1) =
        clear
          (not (services.is_close item.reliability source.reliability)
            || not (trust_level_value item.trust_level == source.trust_level))
          "EVIDENCE_TRUST_CLAIM_MISMATCH" refl h in
      let a =
        IsClear-when (not (source.source_type == item.source_type)) "EVIDENCE_SOURCE_TYPE_MISMATCH"
          refl h1 in
      both (source.source_type == item.source_type)
        (services.is_close item.reliability source.reliability)
        (trust_level_value item.trust_level == source.trust_level) a b
    where
      both : (p q r : Bool) → not p ≡ false → (not q || not r) ≡ false → (p && q && r) ≡ true
      both p q r a b = ground (arith, a, b)

  -- An item that the code finds valid and fresh is sound.
  pub valid-is_sound :
      (policy : EvidencePolicyRules F) (target : String) (now observed : ℕ)
      (item : EvidenceItem F J)
      → services.observed_time item.observed_at ≡ some observed
      → (assess_item m services attestation policy target now item observed).valid ≡ true
      → (assess_item m services attestation policy target now item observed).stale ≡ false
      → is_sound policy target now item ≡ true
  unfolding assess_item item_reasons
  valid-is_sound policy target now observed item e h fresh =
      let h0 : IsClear (item_reasons m services attestation policy target now item observed) =
        record { none_fatal = h } in
      let (n, h1) =
        clear (o.lt item.relevance policy.minimum_relevance) "EVIDENCE_RELEVANCE_BELOW_MINIMUM" refl
          h0 in
      let (l, h2) =
        clear (o.lt item.reliability policy.minimum_reliability)
          "EVIDENCE_RELIABILITY_BELOW_MINIMUM" refl h1 in
      let (k, h3) =
        clear (is_poisoned m services attestation item) "PROMPT_INJECTION_DETECTED" refl h2 in
      let (h4, _) = IsClear-append h3 in
      let (g, h5) = clear (is_future now observed) "FUTURE_EVIDENCE" refl h4 in
      let (f, h6) =
        clear (not (digest_matches m services attestation item)) "EVIDENCE_CONTENT_DIGEST_MISMATCH"
          refl h5 in
      let (d, h7) =
        clear (not (is_verified item.integrity.status)) "EVIDENCE_INTEGRITY_INVALID" refl h6 in
      let (c, h8) =
        clear (not (is_attested attestation item)) "EVIDENCE_PROVENANCE_SIGNATURE_INVALID" refl
          h7 in
      let (b, h9) =
        clear (not (provenance_verified m services attestation item)) "EVIDENCE_PROVENANCE_INVALID"
          refl h8 in
      let (h10, r) = IsClear-append h9 in
      let a =
        IsClear-when (not (item.subject_target_id == target)) "EVIDENCE_SUBJECT_MISMATCH" refl
          h10 in
      let source = registered-agrees item (lookup item.source_instance policy.trusted_sources) r in
      let at : fresh_at policy now (services.observed_time item.observed_at) ≡ true = rw e (
        two_fresh (is_future now observed)
          (ltb (policy.maximum_age_seconds * 1000000) (now - observed)) g fresh) in
      all_ten _ _ _ _ _ _ _ _ _ _ at a source b c d f k l n
    where
      two_fresh :
          (p q : Bool) → p ≡ false → (not p && q) ≡ false → (not p && not (not p && q)) ≡ true
      two_fresh p q a b = ground (arith, a, b)

      all_ten :
          (p q r s t u v w x y : Bool)
          → p ≡ true
          → not q ≡ false
          → r ≡ true
          → not s ≡ false
          → not t ≡ false
          → not u ≡ false
          → not v ≡ false
          → w ≡ false
          → x ≡ false
          → y ≡ false
          → (p && q && r && s && t && u && v && not w && not x && not y) ≡ true
      all_ten p q r s t u v w x y a b c d e f g h i j = ground (arith, a, b, c, d, e, f, g, h, i, j)
