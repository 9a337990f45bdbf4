-- ===== src/Contract/Context.antt =====
-- `validate_canonical_case_feature_context` of src/adf_poc/feature_contract.py: the fields of the
-- case against every inventory event.
use ai_decision_firewall.Prelude.{
  zero, suc, String, string_eq, ◌==◌, ◌≡◌, refl, sym, ap, ◌∙◌, Bool, true, false, not, ◌&&◌, List,
  [], ◌∷◌, Dict, lookup, Option, none, some, Result, ok, err, ◌>>=◌, ◌>>◌, all_of, is_empty,
  if◌then◌else◌, arith, eq_iff, Bool-cases, inl, inr,
}
use ai_decision_firewall.Prelude.Float.{FloatOps, FloatMath, pos}
use ai_decision_firewall.Schemas.{Value, boolean, integer, float, text, composite}
use ai_decision_firewall.Evidence.Traces.{bind-ok, ok_injective}
use ai_decision_firewall.Contract.{
  ContractError, context, not_an_identifier, not_boolean, is_identifier, require_name,
}

abbrev same_flag : Bool → Bool → Bool
same_flag true b = b
same_flag false b = not b

abbrev require_that : Bool → String → Result ContractError Unit
require_that b label = if b then ok tt else err (context label)

module _ {F : Type 0} (m : FloatMath F) ⦃o : FloatOps F⦄ where
  -- `_require_identifier`, on a value of a dictionary
  abbrev identifier_of : Option (Value F) → Result ContractError String
  identifier_of (some (text t)) = if is_identifier t then ok t else err not_an_identifier
  identifier_of _ = err not_an_identifier

  abbrev flag_of : Option (Value F) → Result ContractError Bool
  flag_of (some (boolean b)) = ok b
  flag_of _ = err (not_boolean "break_glass")

  abbrev in_unit_interval : String → F → Result ContractError F
  in_unit_interval label x =
      if m.is_finite x && (o.le (o.lit 0 0) x && o.le x (o.lit 1 0))
      then ok x
      else err (context label)

  -- `_require_unit_interval`; of the integers, 0 and 1 lie in the interval.
  abbrev unit_interval_of : String → Option (Value F) → Result ContractError F
  unit_interval_of label (some (float x)) = in_unit_interval label x
  unit_interval_of label (some (integer (pos zero))) = ok (o.lit 0 0)
  unit_interval_of label (some (integer (pos (suc zero)))) = ok (o.lit 1 0)
  unit_interval_of label _ = err (context label)

  abbrev has_attribute : Dict String (Value F) → String → Bool
  has_attribute attributes name = elim (lookup name attributes) [ none ↦ false | some _ ↦ true ]

  abbrev required : List String
  required = "asset_id" ∷ "privilege_level" ∷ "break_glass" ∷ "asset_criticality" ∷ []

  -- The values of one inventory event, once their types are checked.
  pub record Inventory : Type 0 where
    pub asset_id : String
    pub privilege_level : String
    pub break_glass : Bool
    pub asset_criticality : F

  abbrev read_inventory : Dict String (Value F) → Result ContractError Inventory
  read_inventory attributes =
      require_that (all_of (has_attribute attributes) required) "inventory" >>= λ _.
      identifier_of (lookup "asset_id" attributes) >>= λ asset_id.
      identifier_of (lookup "privilege_level" attributes) >>= λ privilege.
      flag_of (lookup "break_glass" attributes) >>= λ break_glass.
      unit_interval_of "asset_criticality" (lookup "asset_criticality" attributes)
      >>= λ criticality. ok (record {
        asset_id = asset_id;
        privilege_level = privilege;
        break_glass = break_glass;
        asset_criticality = criticality;
      })

  -- The comparisons of one round of the loop.
  abbrev compare_inventory : Inventory → Inventory → Result ContractError Unit
  compare_inventory canonical row =
      require_that (row.asset_id == canonical.asset_id) "asset_id"
      >> (require_that (row.privilege_level == canonical.privilege_level) "privilege_level"
          >> (require_that (same_flag row.break_glass canonical.break_glass) "break_glass"
              >> require_that
                  (o.le row.asset_criticality canonical.asset_criticality
                    && o.le canonical.asset_criticality row.asset_criticality)
                  "asset_criticality"))

  unfoldable pub check_inventories :
      Inventory → List (Dict String (Value F)) → Result ContractError Unit
  check_inventories canonical [] = ok tt
  check_inventories canonical (attributes ∷ rows) =
      (read_inventory attributes >>= λ row. compare_inventory canonical row) >>= λ _.
      check_inventories canonical rows

  -- `validate_canonical_case_feature_context`
  unfoldable pub validate_canonical_case_feature_context :
      String → String → Bool → F → List (Dict String (Value F)) → Result ContractError F
  unfolding check_inventories
  validate_canonical_case_feature_context asset_id privilege break_glass criticality inventory =
      require_name asset_id >>= λ _. require_name privilege >>= λ _.
      in_unit_interval "asset_criticality" criticality >>= λ unit.
      require_that (not (is_empty inventory)) "inventory" >>= λ _.
      check_inventories
        (record {
          asset_id = asset_id;
          privilege_level = privilege;
          break_glass = break_glass;
          asset_criticality = unit;
        })
        inventory
      >>= λ _. ok unit

  identifier_of-text :
      (v : Option (Value F)) (t : String) → identifier_of v ≡ ok t → v ≡ some (text t)
  identifier_of-text none t h = cc
  identifier_of-text (some (boolean b)) t h = cc
  identifier_of-text (some (integer n)) t h = cc
  identifier_of-text (some (float x)) t h = cc
  identifier_of-text (some composite) t h = cc
  identifier_of-text (some (text u)) t h = elim (Bool-cases (is_identifier u)) [
    | inl e ↦
        let same : Path (Result ContractError String) (ok u) (ok t) = sym (identified e) ∙ h in cc
    | inr e ↦
        let same : Path (Result ContractError String) (err not_an_identifier) (ok t) =
          sym (unidentified e) ∙ h in
        cc
  ]
    where
      identified : is_identifier u ≡ true → identifier_of (some (text u)) ≡ ok u
      identified e = rw e refl

      unidentified : is_identifier u ≡ false → identifier_of (some (text u)) ≡ err not_an_identifier
      unidentified e = rw e refl

  flag_of-boolean : (v : Option (Value F)) (b : Bool) → flag_of v ≡ ok b → v ≡ some (boolean b)
  flag_of-boolean none b h = cc
  flag_of-boolean (some (boolean c)) b h = cc
  flag_of-boolean (some (integer n)) b h = cc
  flag_of-boolean (some (float x)) b h = cc
  flag_of-boolean (some (text t)) b h = cc
  flag_of-boolean (some composite) b h = cc

  require_that-true : (b : Bool) (label : String) → require_that b label ≡ ok tt → b ≡ true
  require_that-true true label h = refl
  require_that-true false label h = cc

  same_flag-eq : (a b : Bool) → same_flag a b ≡ true → a ≡ b
  same_flag-eq a b h = ground arith

  -- The attributes say of the account and the asset what the case says.
  abbrev pub Agrees : String → String → Bool → Dict String (Value F) → Type 0
  Agrees asset_id privilege break_glass attributes =
      (lookup "asset_id" attributes ≡ some (text asset_id))
      × (lookup "privilege_level" attributes ≡ some (text privilege))
      × (lookup "break_glass" attributes ≡ some (boolean break_glass))

  read_inventory-Agrees :
      (attributes : Dict String (Value F)) (row : Inventory)
      → read_inventory attributes ≡ ok row
      → Agrees row.asset_id row.privilege_level row.break_glass attributes
  read_inventory-Agrees attributes row h =
      let (u, _, h1) =
        bind-ok (require_that (all_of (has_attribute attributes) required) "inventory") _ row h in
      let (a, ha, h2) = bind-ok (identifier_of (lookup "asset_id" attributes)) _ row h1 in
      let (p, hp, h3) = bind-ok (identifier_of (lookup "privilege_level" attributes)) _ row h2 in
      let (b, hb, h4) = bind-ok (flag_of (lookup "break_glass" attributes)) _ row h3 in
      let (c, hc, h5) =
        bind-ok (unit_interval_of "asset_criticality" (lookup "asset_criticality" attributes)) _ row
          h4 in
      let e = ok_injective h5 in
      (
        identifier_of-text _ a ha ∙ ap (λ (r : Inventory). some (text r.asset_id)) e,
        identifier_of-text _ p hp ∙ ap (λ (r : Inventory). some (text r.privilege_level)) e,
        flag_of-boolean _ b hb ∙ ap (λ (r : Inventory). some (boolean r.break_glass)) e,
      )

  compare_inventory-parts :
      (canonical row : Inventory)
      → compare_inventory canonical row ≡ ok tt
      → (row.asset_id ≡ canonical.asset_id)
        × (row.privilege_level ≡ canonical.privilege_level)
        × (row.break_glass ≡ canonical.break_glass)
  compare_inventory-parts canonical row h =
      let (u, ha, h1) =
        bind-ok (require_that (row.asset_id == canonical.asset_id) "asset_id") _ tt h in
      let (v, hp, h2) =
        bind-ok (require_that (row.privilege_level == canonical.privilege_level) "privilege_level")
          _ tt h1 in
      let (w, hb, h3) =
        bind-ok (require_that (same_flag row.break_glass canonical.break_glass) "break_glass") _ tt
          h2 in
      (
        (eq_iff row.asset_id canonical.asset_id).0 (require_that-true _ "asset_id" ha),
        (eq_iff row.privilege_level canonical.privilege_level).0
            (require_that-true _ "privilege_level" hp),
        same_flag-eq row.break_glass canonical.break_glass (require_that-true _ "break_glass" hb),
      )

  Agrees-eq :
      (attributes : Dict String (Value F)) (canonical row : Inventory)
      → Agrees row.asset_id row.privilege_level row.break_glass attributes
      → (row.asset_id ≡ canonical.asset_id)
        × (row.privilege_level ≡ canonical.privilege_level)
        × (row.break_glass ≡ canonical.break_glass)
      → Agrees canonical.asset_id canonical.privilege_level canonical.break_glass attributes
  Agrees-eq attributes canonical row (a, p, b) (ea, ep, eb) = (
    a ∙ ap (λ t. some (text t)) ea,
    p ∙ ap (λ t. some (text t)) ep,
    b ∙ ap (λ c. some (boolean c)) eb,
  )

  -- Every inventory event agrees with the case.
  abbrev pub AllAgree : String → String → Bool → List (Dict String (Value F)) → Type 0
  AllAgree asset_id privilege break_glass [] = Unit
  AllAgree asset_id privilege break_glass (attributes ∷ rows) =
      Agrees asset_id privilege break_glass attributes
      × AllAgree asset_id privilege break_glass rows

  check_inventories-AllAgree :
      (canonical : Inventory) (rows : List (Dict String (Value F)))
      → check_inventories canonical rows ≡ ok tt
      → AllAgree canonical.asset_id canonical.privilege_level canonical.break_glass rows
  unfolding check_inventories
  check_inventories-AllAgree canonical [] h = tt
  check_inventories-AllAgree canonical (attributes ∷ rows) h =
      let (u, hu, h1) =
        bind-ok (read_inventory attributes >>= λ row. compare_inventory canonical row) _ tt h in
      let (row, hr, hc) =
        bind-ok (read_inventory attributes) (λ row. compare_inventory canonical row) u hu in
      (
        Agrees-eq attributes canonical row (read_inventory-Agrees attributes row hr)
            (compare_inventory-parts canonical row hc),
        check_inventories-AllAgree canonical rows h1,
      )

  -- A context that is accepted has an inventory event, and every inventory event gives the asset,
  -- the privilege level and the break-glass flag of the case.
  pub validate_canonical_case_feature_context-AllAgree :
      (asset_id privilege : String) (break_glass : Bool) (criticality : F)
      (inventory : List (Dict String (Value F))) (accepted : F)
      → validate_canonical_case_feature_context asset_id privilege break_glass criticality inventory
        ≡ ok accepted
      → AllAgree asset_id privilege break_glass inventory × (is_empty inventory ≡ false)
  unfolding validate_canonical_case_feature_context
  validate_canonical_case_feature_context-AllAgree asset_id privilege break_glass criticality
        inventory accepted h =
      let (u, _, h1) = bind-ok (require_name asset_id) _ accepted h in
      let (v, _, h2) = bind-ok (require_name privilege) _ accepted h1 in
      let (unit, _, h3) =
        bind-ok (in_unit_interval "asset_criticality" criticality) _ accepted h2 in
      let (w, hw, h4) =
        bind-ok (require_that (not (is_empty inventory)) "inventory") _ accepted h3 in
      let canonical : Inventory = record {
        asset_id = asset_id;
        privilege_level = privilege;
        break_glass = break_glass;
        asset_criticality = unit;
      } in
      let (x, hx, h5) = bind-ok (check_inventories canonical inventory) _ accepted h4 in
      (
        check_inventories-AllAgree canonical inventory hx,
        filled (is_empty inventory) (require_that-true (not (is_empty inventory)) "inventory" hw),
      )
    where
      filled : (b : Bool) → not b ≡ true → b ≡ false
      filled true n = cc
      filled false n = refl
