-- ===== src/Phase3/Attestation.antt =====
-- src/adf_poc/phase3/attestation.py: the signed payload of an item of evidence and its verification.
-- `K` is the type of keys.
use ai_decision_firewall.Prelude.{
  String, string_eq, ◌==◌, Bool, false, List, [], ◌∷◌, Dict, lookup, none, some,
}
use Prim.Native.Nat.{Ordering}
use Prim.Native.String.{compare}
use ai_decision_firewall.Phase3.{
  EvidenceIntegrityStatus, verified, unverified, failed, EvidenceItem,
}

abbrev pub integrity_value : EvidenceIntegrityStatus → String
integrity_value verified = "VERIFIED"
integrity_value unverified = "UNVERIFIED"
integrity_value failed = "FAILED"

abbrev place : String → List String → List String
place a [] = a ∷ []
place a (b ∷ bs) =
    let rest = place a bs in elim (compare b a) [ Ordering.lt ↦ b ∷ rest | _ ↦ a ∷ b ∷ bs ]

-- `sorted(xs)`
abbrev pub sorted : List String → List String
sorted [] = []
sorted (x ∷ xs) = place x (sorted xs)

-- `evidence_attestation_payload`
pub record AttestationPayload (F : Type 0) : Type 0 where
  pub evidence_id : String
  pub subject_target_id : String
  pub source_type : String
  pub source_instance : String
  pub provenance_id : String
  pub provenance_verified : Bool
  pub integrity_status : String
  pub observed_at : String
  pub content_sha256 : String
  pub supports : List String
  pub contradicts : List String
  pub relevance : F

abbrev pub payload_of : {F J : Type 0} → EvidenceItem F J → AttestationPayload F
payload_of item = record {
  evidence_id = item.id;
  subject_target_id = item.subject_target_id;
  source_type = item.source_type;
  source_instance = item.source_instance;
  provenance_id = item.provenance.id;
  provenance_verified = item.provenance.verified;
  integrity_status = integrity_value item.integrity.status;
  observed_at = item.observed_at;
  content_sha256 = item.integrity.content_sha256;
  supports = sorted item.supports;
  contradicts = sorted item.contradicts;
  relevance = item.relevance;
}

-- The keys of the sources, and HMAC under one of them.
pub record AttestationKeys (F K : Type 0) : Type 0 where
  pub keys : Dict String K
  pub sign : K → AttestationPayload F → String

-- `EvidenceAttestationVerifier.verify`
unfoldable pub is_attested : {F J K : Type 0} → AttestationKeys F K → EvidenceItem F J → Bool
is_attested attestation item = elim (lookup item.source_instance attestation.keys) [
  | none ↦ false
  | some key ↦ attestation.sign key (payload_of item) == item.provenance.signature
]
