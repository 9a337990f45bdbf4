-- ===== src/Phase3/Equality.antt =====
-- Python's `==` on the frozen dataclasses of src/adf_poc/phase3, which compares them field by field.
pub mod Requests
pub mod Assessments
pub mod Evidence
pub mod Decisions
use ai_decision_firewall.Prelude.{
  string_eq, nat_eq, Eq, ◌==◌, ◌≡◌, ◌↔◌, refl, ap, ◌∙◌, subst, Bool, true, false, not, ◌&&◌, List,
  [], ◌∷◌, Option, none, some, arith, equals_refl,
}
use ai_decision_firewall.Phase3.{
  AgentSecurityStatus, AuthenticatedPrincipal, ActionParameters, ActionType, network_isolate,
  ActionRequest, TargetRecord,
}
use ai_decision_firewall.Phase3.Records.{
  AuthorityAssessment, EvidenceItemAssessment, EvidenceAssessment, ConsequenceAssessment,
  PermittedAction, Constraint, duration_seconds, preserve_management,
}
use ai_decision_firewall.Phase3.Authority.{same_status}

pub part : {A : Type 0} ⦃e : Eq A⦄ (a b : A) → (a == b) ≡ true → a ≡ b
part ⦃e⦄ a b h = (e.equals_iff a b).0 h

abbrev pub same_bool : Bool → Bool → Bool
same_bool true b = b
same_bool false b = not b

pub same_bool_iff : (a b : Bool) → (same_bool a b ≡ true) ↔ (a ≡ b)
same_bool_iff a b = (λ h. ground (arith, h), λ h. ground (arith, h))

instance abbrev pub bool_eq : Eq Bool
bool_eq = record { equals = same_bool; equals_iff = same_bool_iff }

pub same_status_iff : (a b : AgentSecurityStatus) → (same_status a b ≡ true) ↔ (a ≡ b)
same_status_iff a b = (λ h. ground (arith, h), λ h. ground (arith, h))

instance abbrev pub status_eq : Eq AgentSecurityStatus
status_eq = record { equals = same_status; equals_iff = same_status_iff }

abbrev pub same_action_type : ActionType → ActionType → Bool
same_action_type a b = true

pub same_action_type_iff : (a b : ActionType) → (same_action_type a b ≡ true) ↔ (a ≡ b)
same_action_type_iff network_isolate network_isolate = (λ h. refl, λ h. refl)

instance abbrev pub action_type_eq : Eq ActionType
action_type_eq = record { equals = same_action_type; equals_iff = same_action_type_iff }

module _ {A : Type 0} ⦃e : Eq A⦄ where
  abbrev pub same_list : List A → List A → Bool
  same_list [] [] = true
  same_list [] (_ ∷ _) = false
  same_list (_ ∷ _) [] = false
  same_list (x ∷ xs) (y ∷ ys) = x == y && same_list xs ys

  same_list_refl : (xs : List A) → same_list xs xs ≡ true
  same_list_refl [] = refl
  same_list_refl (x ∷ xs) = ground (arith, equals_refl x, same_list_refl xs)

  same_list-≡ : (xs ys : List A) → same_list xs ys ≡ true → xs ≡ ys
  same_list-≡ [] [] h = refl
  same_list-≡ [] (y ∷ ys) h = cc
  same_list-≡ (x ∷ xs) [] h = cc
  same_list-≡ (x ∷ xs) (y ∷ ys) h =
      let first = part x y (ground (arith, h)) in
      let rest = same_list-≡ xs ys (ground (arith, h)) in
      ap (λ z. z ∷ xs) first ∙ ap (λ zs. y ∷ zs) rest

  pub same_list_iff : (xs ys : List A) → (same_list xs ys ≡ true) ↔ (xs ≡ ys)
  same_list_iff xs ys =
      (same_list-≡ xs ys, λ p. subst (λ zs. same_list xs zs ≡ true) p (same_list_refl xs))

  instance abbrev pub list_eq : Eq (List A)
  list_eq = record { equals = same_list; equals_iff = same_list_iff }

  abbrev pub same_option : Option A → Option A → Bool
  same_option none none = true
  same_option none (some _) = false
  same_option (some _) none = false
  same_option (some x) (some y) = x == y

  same_option-≡ : (x y : Option A) → same_option x y ≡ true → x ≡ y
  same_option-≡ none none h = refl
  same_option-≡ none (some y) h = cc
  same_option-≡ (some x) none h = cc
  same_option-≡ (some x) (some y) h = ap some (part x y h)

  same_option_refl : (x : Option A) → same_option x x ≡ true
  same_option_refl none = refl
  same_option_refl (some x) = equals_refl x

  pub same_option_iff : (x y : Option A) → (same_option x y ≡ true) ↔ (x ≡ y)
  same_option_iff x y =
      (same_option-≡ x y, λ p. subst (λ z. same_option x z ≡ true) p (same_option_refl x))

  instance abbrev pub option_eq : Eq (Option A)
  option_eq = record { equals = same_option; equals_iff = same_option_iff }

abbrev pub same_constraint : Constraint → Constraint → Bool
same_constraint (duration_seconds a b) (duration_seconds c d) = a == c && b == d
same_constraint (duration_seconds a b) (preserve_management c d) = false
same_constraint (preserve_management a b) (duration_seconds c d) = false
same_constraint (preserve_management a b) (preserve_management c d) = a == c && b == d

same_constraint-≡ : (x y : Constraint) → same_constraint x y ≡ true → x ≡ y
same_constraint-≡ (duration_seconds a b) (duration_seconds c d) h =
    ap (λ z. duration_seconds z b) (part a c (ground (arith, h)))
    ∙ ap (duration_seconds c) (part b d (ground (arith, h)))
same_constraint-≡ (duration_seconds a b) (preserve_management c d) h = cc
same_constraint-≡ (preserve_management a b) (duration_seconds c d) h = cc
same_constraint-≡ (preserve_management a b) (preserve_management c d) h =
    ap (λ z. preserve_management z b) (part a c (ground (arith, h)))
    ∙ ap (preserve_management c) (part b d (ground (arith, h)))

same_constraint_refl : (x : Constraint) → same_constraint x x ≡ true
same_constraint_refl (duration_seconds a b) = ground (arith, equals_refl a, equals_refl b)
same_constraint_refl (preserve_management a b) = ground (arith, equals_refl a, equals_refl b)

pub same_constraint_iff : (x y : Constraint) → (same_constraint x y ≡ true) ↔ (x ≡ y)
same_constraint_iff x y =
    (same_constraint-≡ x y, λ p. subst (λ z. same_constraint x z ≡ true) p (same_constraint_refl x))

instance abbrev pub constraint_eq : Eq Constraint
constraint_eq = record { equals = same_constraint; equals_iff = same_constraint_iff }
