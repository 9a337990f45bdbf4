-- ===== src/Ledger/Tokens.antt =====
-- An authorization of the ledger of stage_a.py is used once, whatever happens in between.
use ai_decision_firewall.Prelude.{
  String, string_eq, ◌==◌, ◌≡◌, ◌≢◌, ◌⊎◌, refl, sym, ◌∙◌, ap, Bool, true, false, ◌||◌, List, [],
  ◌∷◌, Dict, lookup, insert, lookup-insert, Option, none, some, Result, ok, err, inl, inr,
  Bool-cases, arith, eq_iff,
}
use ai_decision_firewall.Ledger.{
  Reason, TokenState, issued, consumed, revoked, ControlLedger, Platform,
}
use ai_decision_firewall.Ledger.Ops.{
  ConsumeArgs, Reservation, reserve, consume_reserved, has_key, consume_issued, consume_at,
  consume_checked, consume_once, recovered_ledger,
}
use ai_decision_firewall.Ledger.Steps.{
  Op, run, step, step-Transition, Transition, unchanged, claims, issues, enters, consumes, reserves,
  keeps_back, moves, recovers,
}
use ai_decision_firewall.Ledger.Tables.{revoke_found, lookup-revoke_tokens}

-- The states that a token does not leave.
abbrev pub is_spent : Option TokenState → Bool
is_spent none = false
is_spent (some issued) = false
is_spent (some _) = true

-- The token was consumed or revoked.
abbrev pub IsSpent : String → ControlLedger → Type 0
IsSpent token l = is_spent (lookup token l.authorization_states) ≡ true

revoke_found-spent : (o : Option TokenState) → is_spent o ≡ true → is_spent (revoke_found o) ≡ true
revoke_found-spent none h = h
revoke_found-spent (some issued) h = refl
revoke_found-spent (some consumed) h = refl
revoke_found-spent (some revoked) h = refl

insert-IsSpent :
    (token k : String) (s : TokenState) (states : Dict String TokenState)
    → (is_spent (some s) ≡ true) ⊎ (is_spent (lookup k states) ≡ false)
    → is_spent (lookup token states) ≡ true
    → is_spent (lookup token (insert k s states)) ≡ true
insert-IsSpent token k s states either h =
    rw (lookup-insert k token s states) (elim (Bool-cases (k == token)) [
      | inr e ↦ rw e h
      | inl e ↦ rw e (elim either [
        | inl spent ↦ spent
        | inr not ↦ absurd (
            let same = (eq_iff k token).0 e in
            let no : true ≡ false = sym h ∙ ap (λ j. is_spent (lookup j states)) (sym same) ∙ not in
            cc)
      ])
    ])

module _ (platform : Platform) (token : String) where
  Transition-IsSpent :
      {l l' : ControlLedger} → Transition platform l l' → IsSpent token l → IsSpent token l'
  unfolding recovered_ledger
  Transition-IsSpent unchanged h = h
  Transition-IsSpent (claims key sha t s p free) h = h
  Transition-IsSpent {l = l} (issues k v d t s p free _ _) h =
      insert-IsSpent token k issued l.authorization_states (inr (ap is_spent free)) h
  Transition-IsSpent {l = l} (consumes k _) h =
      insert-IsSpent token k consumed l.authorization_states (inl refl) h
  Transition-IsSpent {l = l} (enters k v d free _ _) h =
      insert-IsSpent token k issued l.authorization_states (inr (ap is_spent free)) h
  Transition-IsSpent (keeps_back k r _ _ _) h = h
  Transition-IsSpent {l = l} (reserves k x r _ _ _) h =
      insert-IsSpent token k consumed l.authorization_states (inl refl) h
  Transition-IsSpent (moves a row next t s p _ _) h = h
  Transition-IsSpent {l = l} recovers h =
      rw (lookup-revoke_tokens platform l.authorization_states _ token)
        (revoke_found-spent (lookup token l.authorization_states) h)

  run-IsSpent :
      (ops : List Op) (l : ControlLedger) → IsSpent token l → IsSpent token (run platform ops l)
  run-IsSpent [] l h = h
  run-IsSpent (op ∷ ops) l h =
      run-IsSpent ops (step platform op l).1 (Transition-IsSpent (step-Transition platform l op) h)

  consumed-IsSpent :
      (l : ControlLedger)
      → is_spent (lookup token (insert token consumed l.authorization_states)) ≡ true
  consumed-IsSpent l =
      ground (arith, lookup-insert token token consumed l.authorization_states, eq_iff token token)

  consume_reserved-IsSpent :
      (r : Reservation) (digest : Option String) (l : ControlLedger)
      → (consume_reserved platform token r digest l).0 ≡ ok tt
      → IsSpent token (consume_reserved platform token r digest l).1
  consume_reserved-IsSpent r none l h = cc
  consume_reserved-IsSpent r (some digest) l h = consumed-IsSpent l

  consume_issued-IsSpent :
      (r : Option Reservation) (l : ControlLedger)
      → (consume_issued platform token r l).0 ≡ ok tt
      → IsSpent token (consume_issued platform token r l).1
  consume_issued-IsSpent none l = λ h. consumed-IsSpent l
  consume_issued-IsSpent (some r) l =
      elim (Bool-cases (has_key r.attempt_id l.attempts || has_key token l.token_attempts)) [
        | inl e ↦ rw e (λ h. cc)
        | inr e ↦
            rw e
              (consume_reserved-IsSpent r (platform.sha256_text token) (reserve platform token r l))
      ]

  consume_at-IsSpent :
      (r : Option Reservation) (l : ControlLedger) (found : Option TokenState)
      → (consume_at platform token r l found).0 ≡ ok tt
      → IsSpent token (consume_at platform token r l found).1
  consume_at-IsSpent r l none h = cc
  consume_at-IsSpent r l (some issued) h = consume_issued-IsSpent r l h
  consume_at-IsSpent r l (some consumed) h = cc
  consume_at-IsSpent r l (some revoked) h = cc

  consume_checked-IsSpent :
      (r : Result Reason (Option Reservation)) (l : ControlLedger)
      → (consume_checked platform token r l).0 ≡ ok tt
      → IsSpent token (consume_checked platform token r l).1
  consume_checked-IsSpent (ok r) l h =
      consume_at-IsSpent r l (lookup token l.authorization_states) h
  consume_checked-IsSpent (err e) l h = cc

  consume_at-refused :
      (r : Option Reservation) (l : ControlLedger) (found : Option TokenState)
      → is_spent found ≡ true
      → (consume_at platform token r l found).0 ≢ ok tt
  consume_at-refused r l none s h = cc
  consume_at-refused r l (some issued) s h = cc
  consume_at-refused r l (some consumed) s h = cc
  consume_at-refused r l (some revoked) s h = cc

  consume_checked-refused :
      (r : Result Reason (Option Reservation)) (l : ControlLedger)
      → IsSpent token l
      → (consume_checked platform token r l).0 ≢ ok tt
  consume_checked-refused (ok r) l s h =
      consume_at-refused r l (lookup token l.authorization_states) s h
  consume_checked-refused (err e) l s h = cc

  -- After a consumption that succeeded, and any further history of calls, each consumption of the
  -- same token raises.
  pub consume_once-run :
      (args later : ConsumeArgs) (l : ControlLedger) (ops : List Op)
      → (consume_once platform token args l).0 ≡ ok tt
      → (consume_once platform token later
          (run platform ops (consume_once platform token args l).1)).0
        ≢ ok tt
  unfolding consume_once
  consume_once-run args later l ops h =
      consume_checked-refused _ _ (run-IsSpent ops _ (consume_checked-IsSpent _ l h))
