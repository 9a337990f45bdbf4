-- ===== src/Phase3/Identity.antt =====
-- src/adf_poc/phase3/identity.py: `TrustedPrincipalResolver`. `C` is the type of credentials.
use ai_decision_firewall.Prelude.{
  is_empty, ℕ, String, string_eq, ◌==◌, Bool, true, false, not, ◌&&◌, List, [], ◌∷◌, Option, none,
  some, Result, ok, err, ltb, is_blank, contains, all_of, ◌>>◌, if◌then◌else◌,
}
use ai_decision_firewall.Phase3.{AuthenticatedPrincipal}

-- What the resolver takes from outside: the length and the two digests of a credential.
pub record CredentialServices (C : Type 0) : Type 0 where
  pub bytes : C → ℕ
  pub digest : C → String
  pub hexdigest : C → String

-- What is signed as a resolution.
pub record UnsignedResolution : Type 0 where
  pub resolution_id : String
  pub resolver_instance_id : String
  pub credential_sha256 : String
  pub principal : AuthenticatedPrincipal

pub record ResolvedPrincipal : Type 0 where
  pub unsigned : UnsignedResolution
  pub signature : String

pub record Resolver : Type 0 where
  pub records : List (String × AuthenticatedPrincipal)
  pub sign : UnsignedResolution → String
  pub instance_id : String

pub data IdentityFault : Type 0 where
  credential_invalid credential_rejected resolution_invalid : IdentityFault

-- What `__init__` raises.
pub data ResolverFault : Type 0 where
  credential_short principal_untyped credential_duplicate principal_duplicate no_records :
      ResolverFault

abbrev require_that : Bool → ResolverFault → Result ResolverFault Unit
require_that true e = ok tt
require_that false e = err e

abbrev pub is_strict_principal : AuthenticatedPrincipal → Bool
is_strict_principal p =
    p.authenticated
    && not (is_blank p.id)
    && not (is_blank p.type)
    && not (is_blank p.identity_source)
    && all_of (λ row. not (is_blank row)) p.roles
    && all_of (λ row. not (is_blank row)) p.authority

abbrev digests_in : List (String × AuthenticatedPrincipal) → List String
digests_in [] = []
digests_in (row ∷ rows) = row.0 ∷ digests_in rows

abbrev ids_in : List (String × AuthenticatedPrincipal) → List String
ids_in [] = []
ids_in (row ∷ rows) = row.1.id ∷ ids_in rows

abbrev pub last_match :
    String
    → List (String × AuthenticatedPrincipal)
    → Option AuthenticatedPrincipal
    → Option AuthenticatedPrincipal
last_match observed [] matched = matched
last_match observed ((expected, principal) ∷ rows) matched =
    last_match observed rows (if expected == observed then some principal else matched)

module _ {C : Type 0} (services : CredentialServices C) where
  -- The loop of `__init__` and the check behind it; `frozen` are the rows so far, the last first.
  unfoldable pub freeze_records :
      List (C × AuthenticatedPrincipal)
      → List (String × AuthenticatedPrincipal)
      → Result ResolverFault (List (String × AuthenticatedPrincipal))
  freeze_records [] frozen = require_that (not (is_empty frozen)) no_records >> ok frozen
  freeze_records ((credential, principal) ∷ rows) frozen =
      let rest = freeze_records rows ((services.digest credential, principal) ∷ frozen) in
      require_that (not (ltb (services.bytes credential) 32)) credential_short
      >> require_that (is_strict_principal principal) principal_untyped
      >> require_that (not (contains (digests_in frozen) (services.digest credential)))
          credential_duplicate
      >> require_that (not (contains (ids_in frozen) principal.id)) principal_duplicate
      >> rest

  abbrev resolution_for : Resolver → C → String → AuthenticatedPrincipal → ResolvedPrincipal
  resolution_for resolver credential resolution_id principal =
      let unsigned : UnsignedResolution = record {
        resolution_id = resolution_id;
        resolver_instance_id = resolver.instance_id;
        credential_sha256 = services.hexdigest credential;
        principal = principal;
      } in
      record { unsigned = unsigned; signature = resolver.sign unsigned }

  abbrev resolve_matched :
      Resolver → C → String → Option AuthenticatedPrincipal → Result IdentityFault ResolvedPrincipal
  resolve_matched resolver credential resolution_id none = err credential_rejected
  resolve_matched resolver credential resolution_id (some principal) =
      ok (resolution_for resolver credential resolution_id principal)

  -- `resolve`, with the identifier that it draws
  unfoldable pub resolve : Resolver → C → String → Result IdentityFault ResolvedPrincipal
  resolve resolver credential resolution_id =
      if ltb (services.bytes credential) 32
      then err credential_invalid
      else resolve_matched resolver credential resolution_id
          (last_match (services.digest credential) resolver.records none)

-- `verify_resolution`
unfoldable pub verify_resolution :
    Resolver → ResolvedPrincipal → Result IdentityFault AuthenticatedPrincipal
verify_resolution resolver value =
    if value.unsigned.resolver_instance_id == resolver.instance_id
      && resolver.sign value.unsigned == value.signature
    then ok value.unsigned.principal
    else err resolution_invalid
