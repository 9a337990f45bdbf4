-- ===== src/Phase3/Sources.antt =====
-- The sources that src/adf_poc/phase3/evidence.py counts, as sources of the items of the request.
use ai_decision_firewall.Prelude.{
  ℕ, String, string_eq, nat_eq, pair_eq, Eq, ◌==◌, ◌≡◌, refl, sym, ap, ◌∙◌, subst, Bool, true,
  false, not, ◌&&◌, ◌||◌, List, [], ◌∷◌, map, keep, is_empty, contains, contains-sorted_set,
  contains-keep, arith, Bool-cases, inl, inr, if◌then◌else◌,
}
use ai_decision_firewall.Prelude.Float.{FloatOps, FloatMath}
use ai_decision_firewall.Phase3.{EvidenceItem, EvidencePolicyRules}
use ai_decision_firewall.Phase3.Attestation.{AttestationKeys}
use ai_decision_firewall.Phase3.Evidence.{
  EvidenceServices, Assessed, assess_item, is_future, is_stale, source_key, distinct_keys,
  required_sources, missing_types,
}

-- No element occurs twice.
abbrev pub is_distinct : List (String × String) → Bool
is_distinct [] = true
is_distinct (k ∷ ks) = not (contains ks k) && is_distinct ks

module _ {F J : Type 0} where
  -- The source of an item.
  abbrev pub source_of : EvidenceItem F J → String × String
  source_of item = (item.source_type, item.source_instance)

  -- The sources of the items that support the claim, and of those that contradict it.
  abbrev pub supporting_sources : String → List (EvidenceItem F J) → List (String × String)
  supporting_sources claim items = map source_of (keep (λ i. contains i.supports claim) items)

  abbrev pub contradicting_sources : String → List (EvidenceItem F J) → List (String × String)
  contradicting_sources claim items = map source_of (keep (λ i. contains i.contradicts claim) items)

  abbrev pub types_of : List (EvidenceItem F J) → List String
  types_of items = map (λ i. i.source_type) items

module _ {A B : Type 0} ⦃e : Eq B⦄ where
  -- Membership in the image of a list that may have one element more.
  contains-kept :
      (f : A → B) (b : Bool) (x : A) (rest : List A) (k : B)
      → contains (map f (if b then x ∷ rest else rest)) k
        ≡ ((b && f x == k) || contains (map f rest) k)
  contains-kept f true x rest k = refl
  contains-kept f false x rest k = refl

  contains-kept_all :
      (f : A → B) (p : A → Bool) (xs : List A) (k : B)
      → contains (map f (keep p xs)) k ≡ true
      → contains (map f xs) k ≡ true
  contains-kept_all f p [] k h = h
  contains-kept_all f p (x ∷ xs) k h =
      ground (arith, h, contains-kept f (p x) x (keep p xs) k, contains-kept_all f p xs k)

module _ {F J K : Type 0} (m : FloatMath F) (services : EvidenceServices F J)
    (attestation : AttestationKeys F K) ⦃o : FloatOps F⦄ where
  kept-distinct :
      (b : Bool) (x k : String × String) (ks rest : List (String × String))
      → contains ks x ≡ b
      → contains rest k ≡ contains ks k
      → contains (if b then rest else x ∷ rest) k ≡ (x == k || contains ks k)
  kept-distinct true x k ks rest found same = elim (Bool-cases (x == k)) [
    | inl e ↦
        let there : contains ks k ≡ true =
          subst (λ z. contains ks z ≡ true) ((pair_eq.equals_iff x k).0 e) found in
        rw e (same ∙ there)
    | inr e ↦ rw e same
  ]
  kept-distinct false x k ks rest found same = ap (λ b. x == k || b) same

  pub contains-distinct_keys :
      (ks : List (String × String)) (k : String × String)
      → contains (distinct_keys m services attestation ks) k ≡ contains ks k
  contains-distinct_keys [] k = refl
  contains-distinct_keys (x ∷ ks) k =
      kept-distinct (contains ks x) x k ks (distinct_keys m services attestation ks) refl
        (contains-distinct_keys ks k)

  added-is_distinct :
      (b : Bool) (x : String × String) (ks rest : List (String × String))
      → contains ks x ≡ b
      → contains rest x ≡ contains ks x
      → is_distinct rest ≡ true
      → is_distinct (if b then rest else x ∷ rest) ≡ true
  added-is_distinct true x ks rest found same h = h
  added-is_distinct false x ks rest found same h = rw (same ∙ found) h

  pub distinct_keys-is_distinct :
      (ks : List (String × String)) → is_distinct (distinct_keys m services attestation ks) ≡ true
  distinct_keys-is_distinct [] = refl
  distinct_keys-is_distinct (x ∷ ks) =
      added-is_distinct (contains ks x) x ks (distinct_keys m services attestation ks) refl
        (contains-distinct_keys ks x) (distinct_keys-is_distinct ks)

  -- The rows, all of them valid, have the sources of the items.
  pub record IsMatched (policy : EvidencePolicyRules F) (items : List (EvidenceItem F J))
      (rows : List (Assessed F)) : Type 0 where
    pub same_types : map (λ (a : Assessed F). a.row.source_type) rows ≡ types_of items
    pub supporting :
        (k : String × String)
        → contains (map (source_key m services attestation) (keep (λ a. a.corroborates) rows)) k
          ≡ true
        → contains (supporting_sources policy.hypothesis_claim items) k ≡ true
    pub contradicting :
        (k : String × String)
        → contains (contradicting_sources policy.hypothesis_claim items) k
          ≡ contains (map (source_key m services attestation) (keep (λ a. a.conflicts) rows)) k

  module _ (policy : EvidencePolicyRules F) (target : String) (now : ℕ) where
    corroborates-supports :
        (item : EvidenceItem F J) (observed : ℕ)
        → (assess_item m services attestation policy target now item observed).corroborates ≡ true
        → contains item.supports policy.hypothesis_claim ≡ true
    unfolding assess_item
    corroborates-supports item observed h =
        let a = assess_item m services attestation policy target now item observed in
        fourth a.valid (not (is_future now observed))
          (not (is_stale policy.maximum_age_seconds now observed))
          (contains item.supports policy.hypothesis_claim) (o.lt (o.lit 0 0) a.score) h
      where
        fourth : (a b c d e : Bool) → (a && b && c && d && e) ≡ true → d ≡ true
        fourth a b c d e h = ground (arith, h)

    conflicts-contradicts :
        (item : EvidenceItem F J) (observed : ℕ)
        → (assess_item m services attestation policy target now item observed).valid ≡ true
        → (assess_item m services attestation policy target now item observed).conflicts
          ≡ contains item.contradicts policy.hypothesis_claim
    unfolding assess_item
    conflicts-contradicts item observed h = rw h refl

    keys-assess_item :
        (item : EvidenceItem F J) (observed : ℕ)
        → (source_key m services attestation
              (assess_item m services attestation policy target now item observed)
            ≡ source_of item)
          × ((assess_item m services attestation policy target now item observed).row.source_type
              ≡ item.source_type)
    unfolding assess_item
    keys-assess_item item observed = (refl, refl)

    -- The rows of one item more.
    pub IsMatched-more :
        (item : EvidenceItem F J) (items : List (EvidenceItem F J)) (observed : ℕ)
        (rows : List (Assessed F))
        → (assess_item m services attestation policy target now item observed).valid ≡ true
        → IsMatched policy items rows
        → IsMatched policy
            (item ∷ items)
            (assess_item m services attestation policy target now item observed ∷ rows)
    IsMatched-more item items observed rows valid rest =
        let a = assess_item m services attestation policy target now item observed in
        let (key, type) = keys-assess_item item observed in
        record {
          same_types =
              ap (λ t. t ∷ map (λ (a : Assessed F). a.row.source_type) rows) type
              ∙ ap (λ ts. item.source_type ∷ ts) rest.same_types;
          supporting = λ k h.
              more a.corroborates (contains item.supports policy.hypothesis_claim)
                (source_key m services attestation a == k) (source_of item == k) _ _ _ _
                (contains-kept (source_key m services attestation) a.corroborates a
                  (keep (λ a. a.corroborates) rows) k)
                (contains-kept source_of (contains item.supports policy.hypothesis_claim) item
                  (keep (λ (i : EvidenceItem F J). contains i.supports policy.hypothesis_claim)
                    items)
                  k)
                (corroborates-supports item observed) (ap (λ z. z == k) key) (rest.supporting k) h;
          contradicting = λ k.
              contains-kept source_of (contains item.contradicts policy.hypothesis_claim) item
                (keep (λ (i : EvidenceItem F J). contains i.contradicts policy.hypothesis_claim)
                  items)
                k
              ∙ equal _ _ _ _ _ _ (conflicts-contradicts item observed valid) (ap (λ z. z == k) key)
                  (rest.contradicting k)
              ∙ sym (
                  contains-kept (source_key m services attestation) a.conflicts a
                    (keep (λ a. a.conflicts) rows) k);
        }
      where
        more :
            (p q u v x y z w : Bool)
            → x ≡ (p && u || z)
            → y ≡ (q && v || w)
            → (p ≡ true → q ≡ true)
            → u ≡ v
            → (z ≡ true → w ≡ true)
            → x ≡ true
            → y ≡ true
        more p q u v x y z w a b f g i h = ground (arith, a, b, f, g, i, h)

        equal : (p q u v z w : Bool) → p ≡ q → u ≡ v → w ≡ z → (q && v || w) ≡ (p && u || z)
        equal p q u v z w a b c = rw a (rw b (rw c refl))

  -- A required type that is not listed as missing is there.
  pub missing_types_complete :
      (policy : EvidencePolicyRules F) (action : String) (rows : List (Assessed F)) (type : String)
      → is_empty (missing_types m services attestation policy action rows) ≡ true
      → contains (required_sources m services attestation policy action) type ≡ true
      → contains (map (λ (a : Assessed F). a.row.source_type) rows) type ≡ true
  missing_types_complete policy action rows type h required =
      let present = map (λ (a : Assessed F). a.row.source_type) (keep (λ a. a.valid) rows) in
      let wanted = required_sources m services attestation policy action in
      let absent : contains (keep (λ s. not (contains present s)) wanted) type ≡ false =
        sym (contains-sorted_set (keep (λ s. not (contains present s)) wanted) type)
        ∙ nothing-in (missing_types m services attestation policy action rows) h in
      let here : contains present type ≡ true =
        both (contains wanted type) (contains present type)
          (sym (contains-keep (λ s. not (contains present s)) wanted type) ∙ absent) required in
      contains-kept_all (λ (a : Assessed F). a.row.source_type) (λ a. a.valid) rows type here
    where
      nothing-in : (xs : List String) → is_empty xs ≡ true → contains xs type ≡ false
      nothing-in [] e = refl
      nothing-in (x ∷ xs) e = cc

      both : (p q : Bool) → (p && not q) ≡ false → p ≡ true → q ≡ true
      both p q a b = ground (arith, a, b)
