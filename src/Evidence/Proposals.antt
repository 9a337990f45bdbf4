-- ===== src/Evidence/Proposals.antt =====
-- A proposal on the assessment that evidence.py itself makes of a case.
use ai_decision_firewall.Prelude.{string_eq, ◌≡◌, true, IsWithin, ok}
use ai_decision_firewall.Prelude.Float.{FloatOps, FloatMath}
use ai_decision_firewall.Schemas.{IdentityCase, EvidenceAssessment, ModelAssessment}
use ai_decision_firewall.Policy.{PolicyConfig, propose}
use ai_decision_firewall.Verifier.{known_ids, traced_ids, verify}
use ai_decision_firewall.Verifier.Agreement.{IsWellConfigured, verify-propose}
use ai_decision_firewall.Evidence.{TextServices, assess_evidence}
use ai_decision_firewall.Evidence.Traces.{assess_evidence-IsWithin}

-- Under a sound policy file, if the assessment of the evidence returns, the estimate lies between 0
-- and 1 and the model traces its features to events of the case, the verifier accepts what the
-- policy engine proposes.
pub verify-propose-assess_evidence :
    {F : Type 0} (m : FloatMath F) (services : TextServices F) ⦃o : FloatOps F⦄
    (config : PolicyConfig F) (case : IdentityCase F) (model : ModelAssessment F)
    (evidence : EvidenceAssessment F)
    → IsWellConfigured config
    → assess_evidence m services case ≡ ok evidence
    → o.le (o.lit 0 0) model.compromise_probability ≡ true
    → o.le model.compromise_probability (o.lit 1 0) ≡ true
    → IsWithin (traced_ids model.feature_trace) (known_ids case)
    → (verify config case model evidence (propose config case model evidence)).passed ≡ true
verify-propose-assess_evidence m services config case model evidence wc assessed low high traces =
    let (positive, benign, poisoned) = assess_evidence-IsWithin m services case evidence assessed in
    verify-propose config case model evidence wc (record {
      probability_low = low;
      probability_high = high;
      traces = traces;
      positive = positive;
      benign = benign;
      poisoned = poisoned;
    })
