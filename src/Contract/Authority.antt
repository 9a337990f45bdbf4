-- ===== src/Contract/Authority.antt =====
-- An attribute that feature_contract.py declares is accepted from an authorized source only.
use ai_decision_firewall.Prelude.{
  String, string_eq, ◌==◌, ◌≡◌, ◌≢◌, ◌⊎◌, refl, ap, ◌∙◌, false, List, [], ◌∷◌, ◌++◌, Dict, lookup,
  Option, none, some, Result, ok, err, ◌>>=◌, contains, Bool-cases, inl, inr, arith, eq_iff,
}
use ai_decision_firewall.Prelude.Float.{FloatMath}
use ai_decision_firewall.Schemas.{Value}
use ai_decision_firewall.Contract.{
  ContractError, Modeled, modeled_boolean_sources, modeled_integer_sources, require_name,
  accept_amount, accept_flag, select_one, select_loop, select_modeled_attributes,
}

-- The call raises.
abbrev pub Raises : {E A : Type 0} → Result E A → Type 0
Raises {A = A} r = (a : A) → r ≢ ok a

bind-Raises : {E A B : Type 0} (r : Result E A) (f : A → Result E B) → Raises r → Raises (r >>= f)
bind-Raises (ok a) f h b e = h a refl
bind-Raises (err x) f h b e = cc

then-Raises :
    {E A B : Type 0} (r : Result E A) (f : A → Result E B)
    → ((a : A) → Raises (f a))
    → Raises (r >>= f)
then-Raises (ok a) f h b e = h a b e
then-Raises (err x) f h b e = cc

module _ {F : Type 0} (m : FloatMath F) (source_type name : String)
    (attributes : Dict String (Value F)) (value : Value F)
    (present : lookup name attributes ≡ some value) where
  select_one-Raises :
      (accept : String → Value F → Result ContractError Modeled) (k : String)
      (sources : List String) (found : Option (Value F))
      → found ≡ some value
      → contains sources source_type ≡ false
      → Raises (select_one m accept source_type k sources found)
  select_one-Raises accept k sources none e unlisted d = λ h. cc
  select_one-Raises accept k sources (some v) e unlisted d = rw unlisted (λ h. cc)

  select_loop-Raises :
      (accept : String → Value F → Result ContractError Modeled)
      (declared : Dict String (List String)) (sources : List String)
      → lookup name declared ≡ some sources
      → contains sources source_type ≡ false
      → Raises (select_loop m accept source_type attributes declared)
  unfolding select_loop lookup
  select_loop-Raises accept [] sources found unlisted = λ d h. cc
  select_loop-Raises accept ((k, ks) ∷ declared) sources found unlisted =
      elim (Bool-cases (k == name)) [
        | inr e ↦
            then-Raises (select_one m accept source_type k ks (lookup k attributes))
              (λ here.
                select_loop m accept source_type attributes declared >>= λ rest. ok (here ++ rest))
              (λ here.
                bind-Raises (select_loop m accept source_type attributes declared)
                  (λ rest. ok (here ++ rest))
                  (select_loop-Raises accept declared sources (ground (arith, e, found)) unlisted))
        | inl e ↦
            bind-Raises (select_one m accept source_type k ks (lookup k attributes))
              (λ here.
                select_loop m accept source_type attributes declared >>= λ rest. ok (here ++ rest))
              (select_one-Raises accept k ks (lookup k attributes)
                (ap (λ j. lookup j attributes) ((eq_iff k name).0 e) ∙ present)
                (ground (arith, e, found, unlisted)))
      ]

  -- A declared Boolean or integer attribute in an event whose source is not authorized for it makes
  -- the selection raise.
  pub select_modeled_attributes-Raises :
      (sources : List String)
      → (lookup name modeled_boolean_sources ≡ some sources)
        ⊎ (lookup name modeled_integer_sources ≡ some sources)
      → contains sources source_type ≡ false
      → Raises (select_modeled_attributes m source_type attributes)
  unfolding select_modeled_attributes
  select_modeled_attributes-Raises sources (inl flagged) unlisted =
      then-Raises (require_name source_type) _ (λ _.
        bind-Raises (select_loop m (accept_flag m) source_type attributes modeled_boolean_sources) _
          (select_loop-Raises (accept_flag m) modeled_boolean_sources sources flagged unlisted))
  select_modeled_attributes-Raises sources (inr counted) unlisted =
      then-Raises (require_name source_type) _ (λ _.
        then-Raises (select_loop m (accept_flag m) source_type attributes modeled_boolean_sources) _
          (λ flags.
            bind-Raises
              (select_loop m (accept_amount m) source_type attributes modeled_integer_sources) _
              (select_loop-Raises (accept_amount m) modeled_integer_sources sources counted
                unlisted)))
