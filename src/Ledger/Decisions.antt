-- ===== src/Ledger/Decisions.antt =====
-- A decision of the ledger of stage_a.py issues one authorization at most.
use ai_decision_firewall.Prelude.{
  String, string_eq, ◌≡◌, ◌≢◌, true, List, [], ◌∷◌, contains, Option, Result, ok, err, arith, join,
  eq_iff,
}
use ai_decision_firewall.Ledger.{Reason, ControlLedger, Platform, or_text}
use ai_decision_firewall.Ledger.Ops.{checked, register_valid, register, recovered_ledger}
use ai_decision_firewall.Ledger.Steps.{
  Op, run, step, step-Transition, Transition, unchanged, claims, issues, enters, consumes, reserves,
  keeps_back, moves, recovers,
}

-- The decision for which `register` issues an authorization.
abbrev pub decision_key : Option String → String → String
decision_key decision token_id = or_text decision (join "legacy:" token_id)

module _ (platform : Platform) (d : String) where
  abbrev IsIssued : ControlLedger → Type 0
  IsIssued l = contains l.decision_ids d ≡ true

  Transition-IsIssued : {l l' : ControlLedger} → Transition platform l l' → IsIssued l → IsIssued l'
  unfolding recovered_ledger
  Transition-IsIssued unchanged h = h
  Transition-IsIssued (claims key sha t s p _) h = h
  Transition-IsIssued {l = l} (issues k v other t s p _ _ _) h = ground arith
  Transition-IsIssued (consumes k _) h = h
  Transition-IsIssued {l = l} (enters k v other _ _ _) h = ground arith
  Transition-IsIssued (keeps_back k r _ _ _) h = h
  Transition-IsIssued (reserves k x r _ _ _) h = h
  Transition-IsIssued (moves a row next t s p _ _) h = h
  Transition-IsIssued recovers h = h

  run-IsIssued : (ops : List Op) (l : ControlLedger) → IsIssued l → IsIssued (run platform ops l)
  run-IsIssued [] l h = h
  run-IsIssued (op ∷ ops) l h =
      run-IsIssued ops (step platform op l).1
        (Transition-IsIssued (step-Transition platform l op) h)

  register_valid-IsIssued :
      (token v : String) (l : ControlLedger)
      → (register_valid platform token v d l).0 ≡ ok tt
      → IsIssued (register_valid platform token v d l).1
  unfolding register_valid
  register_valid-IsIssued token v l h = ground (arith, eq_iff d d, h)

  register_valid-refused :
      (token v : String) (l : ControlLedger)
      → IsIssued l
      → (register_valid platform token v d l).0 ≢ ok tt
  unfolding register_valid
  register_valid-refused token v l h e = ground (arith, h, e)

  checked-IsIssued :
      (r : Result Reason Unit) (l : ControlLedger) (out : Result Reason Unit × ControlLedger)
      → (out.0 ≡ ok tt → IsIssued out.1)
      → (checked r l out).0 ≡ ok tt
      → IsIssued (checked r l out).1
  checked-IsIssued (ok _) l out f h = f h
  checked-IsIssued (err e) l out f h = cc

  checked-refused :
      (r : Result Reason Unit) (l : ControlLedger) (out : Result Reason Unit × ControlLedger)
      → out.0 ≢ ok tt
      → (checked r l out).0 ≢ ok tt
  checked-refused (ok _) l out f h = f h
  checked-refused (err e) l out f h = cc

module _ (platform : Platform) where
  -- After a registration that succeeded, and any further history of calls, each registration for
  -- the same decision raises, under whatever token.
  pub register-run :
      (token later : String) (v v' d d' at at' : Option String) (l : ControlLedger) (ops : List Op)
      → (register platform token v d at l).0 ≡ ok tt
      → decision_key d' later ≡ decision_key d token
      → (register platform later v' d' at'
          (run platform ops (register platform token v d at l).1)).0
        ≢ ok tt
  unfolding register
  register-run token later v v' d d' at at' l ops h same =
      let issued_key = run-IsIssued platform (decision_key d token) ops _ (
        checked-IsIssued platform (decision_key d token) _ l _
          (register_valid-IsIssued platform (decision_key d token) token _ l) h) in
      checked-refused platform (decision_key d' later) _ _ _
        (register_valid-refused platform (decision_key d' later) later _ _ (rw same issued_key))
