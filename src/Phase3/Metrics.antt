-- ===== src/Phase3/Metrics.antt =====
-- src/adf_poc/phase3/metrics.py: the counters of `Phase3Metrics`. Its lock is not modelled.
use ai_decision_firewall.Prelude.{
  ℕ, ◌+◌, String, string_eq, List, [], ◌∷◌, ◌++◌, Dict, lookup, insert, none, some,
}
use ai_decision_firewall.Prelude.Float.{FloatOps, max_of}

pub record Metrics (F : Type 0) : Type 0 where
  pub dispositions : Dict String ℕ
  pub policy_rule_matches : Dict String ℕ
  pub evidence_conflicts : ℕ
  pub authorization_failures : ℕ
  pub broker_rejections : ℕ
  pub verification_failures : ℕ
  pub decision_latencies_ms : List F

-- `counter[k] += 1`
abbrev count_up : String → Dict String ℕ → Dict String ℕ
count_up k counter = insert k (elim (lookup k counter) [ none ↦ 1 | some n ↦ n + 1 ]) counter

abbrev count_all : List String → Dict String ℕ → Dict String ℕ
count_all [] counter = counter
count_all (k ∷ ks) counter = count_all ks (count_up k counter)

module _ {F : Type 0} where
  abbrev pub record_decision :
      ⦃o : FloatOps F⦄ → String → List String → ℕ → F → Metrics F → Metrics F
  record_decision ⦃o⦄ outcome policy_rules conflicts latency_ms m = record m {
    dispositions = count_up outcome m.dispositions;
    policy_rule_matches = count_all policy_rules m.policy_rule_matches;
    evidence_conflicts = m.evidence_conflicts + conflicts;
    decision_latencies_ms = m.decision_latencies_ms ++ max_of (o.lit 0 0) latency_ms ∷ [];
  }

  abbrev pub record_authorization_failure : Metrics F → Metrics F
  record_authorization_failure m = record m {
    authorization_failures = m.authorization_failures + 1;
  }

  abbrev pub record_broker_rejection : Metrics F → Metrics F
  record_broker_rejection m = record m { broker_rejections = m.broker_rejections + 1 }

  abbrev pub record_verification_failure : Metrics F → Metrics F
  record_verification_failure m = record m { verification_failures = m.verification_failures + 1 }
