-- ===== src/Ledger/States.antt =====
-- The ledger of stage_a.py implements, for each token, a small abstract automaton.
use ai_decision_firewall.Prelude.{
  String, string_eq, ◌==◌, ◌≡◌, sym, ap, ◌∙◌, subst, List, [], ◌∷◌, Dict, lookup, insert,
  lookup-insert, Option, none, some, inl, inr, Bool-cases, eq_iff,
}
use ai_decision_firewall.Ledger.{TokenState, issued, consumed, revoked, ControlLedger, Platform}
use ai_decision_firewall.Ledger.Ops.{recover_rows, recovered_ledger}
use ai_decision_firewall.Ledger.Steps.{
  Op, run, step, step-Transition, Transition, unchanged, claims, issues, enters, consumes, reserves,
  keeps_back, moves, recovers,
}
use ai_decision_firewall.Ledger.Tables.{revoke_found, lookup-revoke_tokens}

-- The abstract view of a token.
abbrev pub view : String → ControlLedger → Option TokenState
view token l = lookup token l.authorization_states

-- What may become of a token in one step.
pub data TokenStep : Option TokenState → Option TokenState → Type 0 where
  stays : (o : Option TokenState) → TokenStep o o
  is_issued : TokenStep none (some issued)
  is_consumed : TokenStep (some issued) (some consumed)
  is_revoked : TokenStep (some issued) (some revoked)

-- What may become of it in any number of steps.
pub data TokenRun : Option TokenState → Option TokenState → Type 0 where
  ends : (o : Option TokenState) → TokenRun o o
  goes : {a b c : Option TokenState} → TokenStep a b → TokenRun b c → TokenRun a c

inserted-TokenStep :
    (token k : String) (s : TokenState) (found : Option TokenState)
    (states : Dict String TokenState)
    → lookup k states ≡ found
    → TokenStep found (some s)
    → TokenStep (lookup token states) (lookup token (insert k s states))
inserted-TokenStep token k s found states e move =
    rw (lookup-insert k token s states) (elim (Bool-cases (k == token)) [
      | inr other ↦ rw other (stays (lookup token states))
      | inl same ↦ rw same (
          subst (λ o. TokenStep o (some s))
            (sym e ∙ ap (λ j. lookup j states) ((eq_iff k token).0 same)) move)
    ])

revoked-TokenStep : (o : Option TokenState) → TokenStep o (revoke_found o)
revoked-TokenStep none = stays none
revoked-TokenStep (some issued) = is_revoked
revoked-TokenStep (some consumed) = stays (some consumed)
revoked-TokenStep (some revoked) = stays (some revoked)

module _ (platform : Platform) (token : String) where
  Transition-TokenStep :
      (l l' : ControlLedger) → Transition platform l l' → TokenStep (view token l) (view token l')
  unfolding recovered_ledger
  Transition-TokenStep l l' unchanged = stays (view token l)
  Transition-TokenStep l l' (claims key sha t s p free) = stays (view token l)
  Transition-TokenStep l l' (issues k v d t s p free _ _) =
      inserted-TokenStep token k issued none l.authorization_states free is_issued
  Transition-TokenStep l l' (consumes k e) =
      inserted-TokenStep token k consumed (some issued) l.authorization_states e is_consumed
  Transition-TokenStep l l' (enters k v d free _ _) =
      inserted-TokenStep token k issued none l.authorization_states free is_issued
  Transition-TokenStep l l' (keeps_back k r e _ _) = stays (view token l)
  Transition-TokenStep l l' (reserves k x r e _ _) =
      inserted-TokenStep token k consumed (some issued) l.authorization_states e is_consumed
  Transition-TokenStep l l' (moves a row next t s p e o) = stays (view token l)
  Transition-TokenStep l l' recovers =
      rw
        (lookup-revoke_tokens platform l.authorization_states
          (recover_rows platform l.attempts l.outbox).2 token)
        (revoked-TokenStep (view token l))

  -- Along every history of calls, whether they return or raise, the abstract view of a token follows
  -- the automaton: it is issued once, and from there consumed or revoked for good.
  pub run-TokenRun :
      (ops : List Op) (l : ControlLedger)
      → TokenRun (view token l) (view token (run platform ops l))
  run-TokenRun [] l = ends (view token l)
  run-TokenRun (op ∷ ops) l =
      goes (Transition-TokenStep l (step platform op l).1 (step-Transition platform l op))
        (run-TokenRun ops (step platform op l).1)
