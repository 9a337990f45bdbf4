-- ===== src/Prelude/Lists.antt =====
-- Lists measured by native numbers, and Python's `in`, `issubset`, `all` and `sorted(set(...))`.
use Prim.Native.Nat.{ℕ, suc, ◌+◌, Ordering}
use Prim.Native.String.{String, compare}
use mathlib.Core.Path.{◌≡◌, refl, ap}
use mathlib.Core.Logic.{inl, inr}
use mathlib.Core.Bool.{Bool, true, false, ◌&&◌, ◌||◌}
use mathlib.Core.List.{List, [], ◌∷◌, ◌++◌}
use native.Mathlib.Omega.{arith}
use text.Mathlib.TextEquality.{eq_iff}
use ai_decision_firewall.Prelude.Tests.{Eq, Bool-cases, ◌==◌, if◌then◌else◌, string_eq}

module _ {ℓ} {A : Type ℓ} where
  abbrev pub length : List A → ℕ
  length [] = 0
  length (x ∷ xs) = suc (length xs)

  pub length-append : (xs ys : List A) → length (xs ++ ys) ≡ length xs + length ys
  length-append [] ys = omega arith
  length-append (x ∷ xs) ys = omega (arith, length-append xs ys)

  abbrev pub is_empty : List A → Bool
  is_empty [] = true
  is_empty (_ ∷ _) = false

  -- `all(p(x) for x in xs)`
  abbrev pub all_of : (A → Bool) → List A → Bool
  all_of p [] = true
  all_of p (x ∷ xs) = p x && all_of p xs

  pub all_of-append :
      (p : A → Bool) (xs ys : List A) → all_of p (xs ++ ys) ≡ (all_of p xs && all_of p ys)
  all_of-append p [] ys = refl
  all_of-append p (x ∷ xs) ys = ground (arith, all_of-append p xs ys)

  -- `[x for x in xs if p(x)]`
  abbrev pub keep : (A → Bool) → List A → List A
  keep p [] = []
  keep p (x ∷ xs) = let rest = keep p xs in if p x then x ∷ rest else rest

module _ {ℓ} {A : Type ℓ} ⦃e : Eq A⦄ where
  -- `a in xs`
  abbrev pub contains : List A → A → Bool
  contains [] a = false
  contains (x ∷ xs) a = x == a || contains xs a

  -- `set(xs).issubset(ys)`
  abbrev pub subset : List A → List A → Bool
  subset [] ys = true
  subset (x ∷ xs) ys = contains ys x && subset xs ys

  -- `set(xs) & set(ys)` is empty
  abbrev pub disjoint : List A → List A → Bool
  disjoint [] ys = true
  disjoint (x ∷ xs) ys = (if contains ys x then false else true) && disjoint xs ys

  pub contains-of-subset :
      (xs ys : List A) (a : A) → subset xs ys ≡ true → contains xs a ≡ true → contains ys a ≡ true
  contains-of-subset [] ys a s h = ground arith
  contains-of-subset (x ∷ xs) ys a s h =
      ground (arith, e.equals_iff x a, contains-of-subset xs ys a)

  pub contains-append :
      (xs ys : List A) (a : A) → contains (xs ++ ys) a ≡ (contains xs a || contains ys a)
  contains-append [] ys a = refl
  contains-append (x ∷ xs) ys a = ground (arith, contains-append xs ys a)

  pub contains-keep :
      (p : A → Bool) (xs : List A) (a : A) → contains (keep p xs) a ≡ (contains xs a && p a)
  contains-keep p [] a = refl
  contains-keep p (x ∷ xs) a = elim (Bool-cases (x == a)) [
    | inl same ↦
        let moved = ap p ((e.equals_iff x a).0 same) in
        ground (arith, same, moved, contains-keep p xs a)
    | inr other ↦ ground (arith, other, contains-keep p xs a)
  ]

  pub subset-weaken : (xs ys : List A) (y : A) → subset xs ys ≡ true → subset xs (y ∷ ys) ≡ true
  subset-weaken [] ys y h = refl
  subset-weaken (x ∷ xs) ys y h = ground (arith, subset-weaken xs ys y)

  pub subset_refl : (xs : List A) → subset xs xs ≡ true
  subset_refl [] = refl
  subset_refl (x ∷ xs) = ground (arith, e.equals_iff x x, subset-weaken xs xs x (subset_refl xs))

module _ {ℓ} {A : Type ℓ} ⦃e : Eq A⦄ where
  -- Every element of `xs` is in `ys`.
  abbrev pub IsWithin : List A → List A → Type ℓ
  IsWithin xs ys = (a : A) → contains xs a ≡ true → contains ys a ≡ true

  abbrev pub IsDisjoint : List A → List A → Type ℓ
  IsDisjoint xs ys = (a : A) → contains xs a ≡ true → contains ys a ≡ false

  pub subset-of-within : (xs ys : List A) → IsWithin xs ys → subset xs ys ≡ true
  subset-of-within [] ys h = refl
  subset-of-within (x ∷ xs) ys h =
      ground (arith, e.equals_iff x x, h x, subset-of-within xs ys (λ a m. h a (ground (arith, m))))

  pub subset-IsWithin : (xs ys : List A) → subset xs ys ≡ true → IsWithin xs ys
  subset-IsWithin xs ys s a h = contains-of-subset xs ys a s h

  pub disjoint-IsDisjoint : (xs ys : List A) → disjoint xs ys ≡ true → IsDisjoint xs ys
  disjoint-IsDisjoint [] ys d a h = ground arith
  disjoint-IsDisjoint (x ∷ xs) ys d a h =
      ground (arith, e.equals_iff x a, disjoint-IsDisjoint xs ys (ground arith) a)

  pub disjoint-of-disjoint : (xs ys : List A) → IsDisjoint xs ys → disjoint xs ys ≡ true
  disjoint-of-disjoint [] ys h = refl
  disjoint-of-disjoint (x ∷ xs) ys h =
      ground
        (arith, e.equals_iff x x, h x, disjoint-of-disjoint xs ys (λ a m. h a (ground (arith, m))))

-- Places one value in a sorted list without duplicates.
insert_unique : String → List String → List String
insert_unique a [] = a ∷ []
insert_unique a (b ∷ bs) =
    let rest = b ∷ insert_unique a bs in
    if a == b then b ∷ bs else elim (compare a b) [ Ordering.lt ↦ a ∷ b ∷ bs | _ ↦ rest ]

-- `sorted(set(xs))`
unfoldable pub sorted_set : List String → List String
unfolding insert_unique
sorted_set [] = []
sorted_set (x ∷ xs) = insert_unique x (sorted_set xs)

contains-insert_unique :
    (a : String) (xs : List String) (c : String)
    → contains (insert_unique a xs) c ≡ (a == c || contains xs c)
unfolding insert_unique
contains-insert_unique a [] c = refl
contains-insert_unique a (b ∷ bs) c =
    ground (arith, contains-insert_unique a bs c, eq_iff a b, eq_iff a c, eq_iff b c)

pub contains-sorted_set :
    (xs : List String) (c : String) → contains (sorted_set xs) c ≡ contains xs c
unfolding sorted_set
contains-sorted_set [] c = refl
contains-sorted_set (x ∷ xs) c =
    ground (arith, contains-insert_unique x (sorted_set xs) c, contains-sorted_set xs c)
