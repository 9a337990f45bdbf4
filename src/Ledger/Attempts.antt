-- ===== src/Ledger/Attempts.antt =====
-- An attempt of the ledger of stage_a.py keeps its terminal row, and a recovery leaves no attempt
-- and no authorization open.
use ai_decision_firewall.Prelude.{
  String, string_eq, ◌≡◌, ◌≢◌, refl, sym, ◌∙◌, ap, true, false, List, [], ◌∷◌, Dict, lookup, insert,
  lookup-insert, Option, none, some, ok, inl, inr, Bool-cases, arith, eq_iff,
}
use ai_decision_firewall.Ledger.{
  TokenState, issued, consumed, revoked, is_terminal, Attempt, ControlLedger, Platform,
}
use ai_decision_firewall.Ledger.Ops.{recovered_ledger, recover_incomplete_attempts, is_reserved}
use ai_decision_firewall.Ledger.Steps.{
  Op, run, step, step-Transition, Transition, unchanged, claims, issues, enters, consumes, reserves,
  keeps_back, moves, recovers,
}
use ai_decision_firewall.Ledger.Tables.{
  revoke_found, settle, settle_found, lookup-revoke_tokens, lookup-recover_rows,
}

-- A row under another key is the row that was there.
insert-same :
    (k j : String) (v w : Attempt) (d : Dict String Attempt)
    → lookup j d ≡ some w
    → k ≢ j
    → lookup j (insert k v d) ≡ some w
insert-same k j v w d h ne = ground (arith, lookup-insert k j v d, eq_iff k j)

settle-terminal :
    (platform : Platform) (a : String) (row : Attempt)
    → is_terminal row.state ≡ true
    → settle platform a row ≡ row
settle-terminal platform a row h = elim (Bool-cases (is_reserved row.state)) [
  | inr e ↦ rw e refl
  | inl e ↦ absurd (open_or row e h)
]
  where
    open_or : (row : Attempt) → is_reserved row.state ≡ true → is_terminal row.state ≢ true
    open_or row e h = ground arith

module _ (platform : Platform) (a : String) (row : Attempt)
    (closed : is_terminal row.state ≡ true) where
  abbrev IsKept : ControlLedger → Type 0
  IsKept l = lookup a l.attempts ≡ some row

  Transition-IsKept : {l l' : ControlLedger} → Transition platform l l' → IsKept l → IsKept l'
  unfolding recovered_ledger
  Transition-IsKept unchanged h = h
  Transition-IsKept (claims key sha t s p _) h = h
  Transition-IsKept (issues k v d t s p _ _ _) h = h
  Transition-IsKept (consumes k _) h = h
  Transition-IsKept (enters k v d _ _ _) h = h
  Transition-IsKept {l = l} (reserves k x r _ free _) h =
      insert-same r.attempt_id a _ row l.attempts h
        (λ e. let clash : none ≡ some row = sym free ∙ ap (λ j. lookup j l.attempts) e ∙ h in cc)
  Transition-IsKept {l = l} (keeps_back k r _ free _) h =
      insert-same r.attempt_id a _ row l.attempts h
        (λ e. let clash : none ≡ some row = sym free ∙ ap (λ j. lookup j l.attempts) e ∙ h in cc)
  Transition-IsKept {l = l} (moves b old next t s p found still_open) h =
      insert-same b a next row l.attempts h (λ e.
        let same : some old ≡ some row = sym found ∙ ap (λ j. lookup j l.attempts) e ∙ h in
        let clash : true ≡ false =
          sym closed
          ∙ ap (λ (r : Attempt). is_terminal r.state) (some_injective same)
          ∙ still_open in
        cc)
    where
      some_injective : {x y : Attempt} → some x ≡ some y → y ≡ x
      some_injective e = cc
  Transition-IsKept {l = l} recovers h =
      lookup-recover_rows platform l.attempts l.outbox a
      ∙ ap (settle_found platform a) h
      ∙ ap some (settle-terminal platform a row closed)

  -- The row of an attempt in a terminal state is never changed again, by no history of calls.
  pub lookup-run_terminal :
      (ops : List Op) (l : ControlLedger)
      → lookup a l.attempts ≡ some row
      → lookup a (run platform ops l).attempts ≡ some row
  lookup-run_terminal [] l h = h
  lookup-run_terminal (op ∷ ops) l h =
      lookup-run_terminal ops (step platform op l).1
        (Transition-IsKept (step-Transition platform l op) h)

-- No authorization is issued and unused, and no attempt is reserved without an outcome.
pub record IsQuiet (l : ControlLedger) : Type 0 where
  pub no_issued : (token : String) → lookup token l.authorization_states ≢ some issued
  pub no_reserved :
      (a : String) (row : Attempt) → lookup a l.attempts ≡ some row → is_reserved row.state ≡ false

revoke_found-ne : (o : Option TokenState) → revoke_found o ≢ some issued
revoke_found-ne none h = cc
revoke_found-ne (some issued) h = cc
revoke_found-ne (some consumed) h = cc
revoke_found-ne (some revoked) h = cc

module _ (platform : Platform) where
  settle_found-quiet :
      (a : String) (o : Option Attempt) (row : Attempt)
      → settle_found platform a o ≡ some row
      → is_reserved row.state ≡ false
  settle_found-quiet a none row h = cc
  settle_found-quiet a (some old) row h = elim (Bool-cases (is_reserved old.state)) [
    | inl e ↦ ground (arith, e, h)
    | inr e ↦ ground (arith, e, h)
  ]

  -- A recovery that the operator's assertion allows leaves no authorization issued and no attempt
  -- reserved; it does not raise.
  pub recover_incomplete_attempts-IsQuiet :
      (l : ControlLedger)
      → ((recover_incomplete_attempts platform true l).0 ≡ ok (recovered_ledger platform l).0)
        × IsQuiet (recover_incomplete_attempts platform true l).1
  unfolding recover_incomplete_attempts recovered_ledger
  recover_incomplete_attempts-IsQuiet l = (
    refl,
    record {
      no_issued = λ token h.
          revoke_found-ne (lookup token l.authorization_states)
            (sym (lookup-revoke_tokens platform l.authorization_states _ token) ∙ h);
      no_reserved = λ a row h.
          settle_found-quiet a (lookup a l.attempts) row
            (sym (lookup-recover_rows platform l.attempts l.outbox a) ∙ h);
    },
  )
