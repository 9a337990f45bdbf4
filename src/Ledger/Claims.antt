-- ===== src/Ledger/Claims.antt =====
-- A request of the ledger of stage_a.py, once claimed, is answered by its first digest for ever.
use ai_decision_firewall.Prelude.{
  String, string_eq, pair_eq, ◌==◌, ◌≡◌, refl, sym, ap, ◌∙◌, List, [], ◌∷◌, lookup, lookup-insert,
  Option, none, some, Result, ok, err, inl, inr, Bool-cases, if◌then◌else◌,
}
use ai_decision_firewall.Ledger.{Reason, ControlLedger, Platform}
use ai_decision_firewall.Ledger.Ops.{
  Claim, new_claim, duplicate, conflict, claim_answer, checked, after_claim, claim_request,
  recovered_ledger,
}
use ai_decision_firewall.Ledger.Steps.{
  Op, run, step, step-Transition, Transition, unchanged, claims, issues, enters, consumes, reserves,
  keeps_back, moves, recovers,
}

module _ (platform : Platform) (principal request sha : String) where
  -- The request is claimed with the digest `sha`.
  abbrev IsClaimed : ControlLedger → Type 0
  IsClaimed l = lookup (principal, request) l.requests ≡ some sha

  Transition-IsClaimed :
      {l l' : ControlLedger} → Transition platform l l' → IsClaimed l → IsClaimed l'
  unfolding recovered_ledger
  Transition-IsClaimed unchanged h = h
  Transition-IsClaimed {l = l} (claims key other t s p free) h =
      elim (Bool-cases (key == (principal, request))) [
        | inr e ↦ lookup-insert key (principal, request) other l.requests ∙ rw e h
        | inl e ↦
            let same = (pair_eq.equals_iff key (principal, request)).0 e in
            let clash : none ≡ some sha = sym free ∙ ap (λ k. lookup k l.requests) same ∙ h in cc
      ]
  Transition-IsClaimed (issues k v d t s p _ _ _) h = h
  Transition-IsClaimed (consumes k _) h = h
  Transition-IsClaimed (reserves k x r _ _ _) h = h
  Transition-IsClaimed (keeps_back k r _ _ _) h = h
  Transition-IsClaimed (enters k v d _ _ _) h = h
  Transition-IsClaimed (moves a row next t s p _ _) h = h
  Transition-IsClaimed recovers h = h

  run-IsClaimed : (ops : List Op) (l : ControlLedger) → IsClaimed l → IsClaimed (run platform ops l)
  run-IsClaimed [] l h = h
  run-IsClaimed (op ∷ ops) l h =
      run-IsClaimed ops (step platform op l).1
        (Transition-IsClaimed (step-Transition platform l op) h)

  after_claim-IsClaimed :
      (l : ControlLedger) (c : Claim)
      → (after_claim platform principal request sha l c).0 ≡ ok new_claim
      → IsClaimed (after_claim platform principal request sha l c).1
  after_claim-IsClaimed l new_claim h =
      lookup-insert (principal, request) (principal, request) sha l.requests
      ∙ rw ((pair_eq.equals_iff (principal, request) (principal, request)).1 refl) refl
  after_claim-IsClaimed l duplicate h = cc
  after_claim-IsClaimed l conflict h = cc

  checked-IsClaimed :
      (r : Result Reason Unit) (l : ControlLedger) (out : Result Reason Claim × ControlLedger)
      → (out.0 ≡ ok new_claim → IsClaimed out.1)
      → (checked r l out).0 ≡ ok new_claim
      → IsClaimed (checked r l out).1
  checked-IsClaimed (ok _) l out f h = f h
  checked-IsClaimed (err e) l out f h = cc

  after_claim-answer :
      (later : String) (l : ControlLedger) (c answer : Claim)
      → (after_claim platform principal request later l c).0 ≡ ok answer
      → answer ≡ c
  after_claim-answer later l new_claim answer h = cc
  after_claim-answer later l duplicate answer h = cc
  after_claim-answer later l conflict answer h = cc

  checked-answer :
      (r : Result Reason Unit) (l : ControlLedger) (out : Result Reason Claim × ControlLedger)
      (answer c : Claim)
      → (out.0 ≡ ok answer → answer ≡ c)
      → (checked r l out).0 ≡ ok answer
      → answer ≡ c
  checked-answer (ok _) l out answer c f h = f h
  checked-answer (err e) l out answer c f h = cc

  -- After a claim that was answered NEW, and any further history of calls, a claim of the same
  -- request that returns is answered DUPLICATE for the same digest and CONFLICT for another.
  pub claim_request-run :
      (later : String) (at at' : Option String) (l : ControlLedger) (ops : List Op) (answer : Claim)
      → (claim_request platform principal request sha at l).0 ≡ ok new_claim
      → (claim_request platform principal request later at'
          (run platform ops (claim_request platform principal request sha at l).1)).0
        ≡ ok answer
      → answer ≡ (if sha == later then duplicate else conflict)
  unfolding claim_request
  claim_request-run later at at' l ops answer first again =
      let kept = run-IsClaimed ops _ (checked-IsClaimed _ l _ (after_claim-IsClaimed l _) first) in
      checked-answer _ _ _ answer _ (after_claim-answer later _ _ answer) again
      ∙ ap (λ found. claim_answer found later) kept
