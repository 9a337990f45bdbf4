-- ===== src/Contract.antt =====
-- src/adf_poc/feature_contract.py: which attributes of an event may drive the model and the
-- assessment of the evidence.
pub mod Authority
pub mod Context
use Prim.Native.Char.{code}
use ai_decision_firewall.Prelude.{
  ℕ, String, string_eq, nat_eq, ◌==◌, Bool, true, false, ◌&&◌, ◌||◌, List, [], ◌∷◌, ◌++◌, Dict,
  lookup, Option, none, some, Result, ok, err, ◌>>=◌, leb, contains, text_length, if◌then◌else◌,
}
use ai_decision_firewall.Prelude.Float.{ℤ, pos, negsuc, FloatMath}
use ai_decision_firewall.Schemas.{Value, boolean, integer, float, text, composite}

-- `FeatureContractError`, by the part of its message that names the fault and the attribute.
pub data ContractError : Type 0 where
  not_an_identifier : ContractError
  context : String → ContractError
  not_authorized not_boolean not_integer out_of_range : String → ContractError

-- What `select_modeled_attributes` keeps of a value.
pub data Modeled : Type 0 where
  flag : Bool → Modeled
  amount : ℕ → Modeled

abbrev pub max_failed_logins : ℕ
max_failed_logins = 1000000

abbrev pub modeled_boolean_sources : Dict String (List String)
modeled_boolean_sources =
    ("new_device", "identity" ∷ [])
    ∷ ("impossible_travel", "identity" ∷ [])
    ∷ ("threat_ip", "network" ∷ "threat_intel" ∷ [])
    ∷ ("mfa_fatigue", "identity" ∷ [])
    ∷ ("token_reuse", "identity" ∷ [])
    ∷ ("credential_dumping", "endpoint" ∷ [])
    ∷ ("lateral_movement", "network" ∷ [])
    ∷ ("unusual_admin_action", "endpoint" ∷ [])
    ∷ ("edr_malware", "endpoint" ∷ [])
    ∷ ("after_hours", "identity" ∷ [])
    ∷ ("known_vpn", "network" ∷ [])
    ∷ ("approved_travel", "user_context" ∷ [])
    ∷ ("maintenance_window", "change_management" ∷ [])
    ∷ ("service_account_baseline", "change_management" ∷ [])
    ∷ ("strong_mfa", "identity" ∷ [])
    ∷ ("device_noncompliant", "endpoint" ∷ [])
    ∷ ("oauth_grant", "identity" ∷ [])
    ∷ []

abbrev pub modeled_integer_sources : Dict String (List String)
modeled_integer_sources = ("failed_logins", "identity" ∷ []) ∷ []

abbrev pub evidence_boolean_sources : Dict String (List String)
evidence_boolean_sources = ("source_conflict", "network" ∷ []) ∷ []

abbrev is_alphanumeric : ℕ → Bool
is_alphanumeric c =
    (leb b'0' c && leb c b'9') || (leb b'A' c && leb c b'Z') || (leb b'a' c && leb c b'z')

-- `.`, `_`, `:` and `-` beside letters and digits.
abbrev is_identifier_code : ℕ → Bool
is_identifier_code c = is_alphanumeric c || c == 46 || c == 95 || c == 58 || c == 45

unfoldable pub all_identifier_codes : String → Bool
all_identifier_codes String.[] = true
all_identifier_codes (String.◌∷◌ c rest) = is_identifier_code (code c) && all_identifier_codes rest

-- `_IDENTIFIER_PATTERN.fullmatch`
unfoldable pub is_identifier : String → Bool
unfolding all_identifier_codes
is_identifier String.[] = false
is_identifier (String.◌∷◌ c rest) =
    is_alphanumeric (code c) && all_identifier_codes rest && leb (text_length rest) 127

-- `_require_identifier`
abbrev pub require_name : String → Result ContractError Unit
require_name value = if is_identifier value then ok tt else err not_an_identifier

module _ {F : Type 0} (m : FloatMath F) where
  abbrev accept_integer : String → ℤ → Result ContractError Modeled
  accept_integer name (pos n) =
      if leb n max_failed_logins then ok (amount n) else err (out_of_range name)
  accept_integer name (negsuc n) = err (out_of_range name)

  abbrev accept_whole : String → Option ℤ → Result ContractError Modeled
  accept_whole name none = err (not_integer name)
  accept_whole name (some n) = accept_integer name n

  -- The test of a value of an integer attribute.
  abbrev pub accept_amount : String → Value F → Result ContractError Modeled
  accept_amount name (boolean b) = err (not_integer name)
  accept_amount name (integer n) = accept_integer name n
  accept_amount name (float x) =
      if m.is_finite x then accept_whole name (m.integer_value x) else err (out_of_range name)
  accept_amount name (text t) = err (not_integer name)
  accept_amount name composite = err (not_integer name)

  -- The test of a value of a boolean attribute.
  abbrev pub accept_flag : String → Value F → Result ContractError Modeled
  accept_flag name (boolean b) = ok (flag b)
  accept_flag name (integer n) = err (not_boolean name)
  accept_flag name (float x) = err (not_boolean name)
  accept_flag name (text t) = err (not_boolean name)
  accept_flag name composite = err (not_boolean name)

  -- One round of a loop over the declared attributes: nothing for one that the event does not have.
  abbrev pub select_one :
      (String → Value F → Result ContractError Modeled)
      → String
      → String
      → List String
      → Option (Value F)
      → Result ContractError (Dict String Modeled)
  select_one accept source_type name sources none = ok []
  select_one accept source_type name sources (some value) =
      if contains sources source_type
      then (accept name value >>= λ v. ok ((name, v) ∷ []))
      else err (not_authorized name)

  -- The loop; the declared names differ, so what it builds is in their order.
  unfoldable pub select_loop :
      (String → Value F → Result ContractError Modeled)
      → String
      → Dict String (Value F)
      → Dict String (List String)
      → Result ContractError (Dict String Modeled)
  select_loop accept source_type attributes [] = ok []
  select_loop accept source_type attributes ((name, sources) ∷ declared) =
      select_one accept source_type name sources (lookup name attributes) >>= λ found.
      select_loop accept source_type attributes declared >>= λ rest. ok (found ++ rest)

  -- `select_modeled_attributes`
  unfoldable pub select_modeled_attributes :
      String → Dict String (Value F) → Result ContractError (Dict String Modeled)
  unfolding select_loop
  select_modeled_attributes source_type attributes = require_name source_type >>= λ _.
      select_loop accept_flag source_type attributes modeled_boolean_sources >>= λ flags.
      select_loop accept_amount source_type attributes modeled_integer_sources >>= λ amounts.
      ok (flags ++ amounts)

  -- `select_evidence_attributes`
  unfoldable pub select_evidence_attributes :
      String → Dict String (Value F) → Result ContractError (Dict String Modeled)
  unfolding select_loop
  select_evidence_attributes source_type attributes = require_name source_type >>= λ _.
      select_loop accept_flag source_type attributes evidence_boolean_sources
