-- ===== src/Ledger/Tables.antt =====
-- What the loops of `recover_incomplete_attempts` in stage_a.py do to the rows they go over.
use ai_decision_firewall.Prelude.{
  String, string_eq, ◌≡◌, refl, List, [], ◌∷◌, Dict, lookup, Option, none, some, arith, eq_iff,
  if◌then◌else◌, inl, inr, Bool-cases,
}
use ai_decision_firewall.Ledger.{
  TokenState, issued, consumed, revoked, unknown_effect, Attempt, Event, EventPayload,
  authorization_revoked, attempt_recovered, ControlLedger, Platform, append_event,
}
use ai_decision_firewall.Ledger.Ops.{recover_rows, revoke_tokens, recovered_ledger, is_reserved}

-- What the recovery makes of a token state.
abbrev pub revoke : TokenState → TokenState
revoke issued = revoked
revoke consumed = consumed
revoke revoked = revoked

abbrev pub revoke_found : Option TokenState → Option TokenState
revoke_found none = none
revoke_found (some state) = some (revoke state)

module _ (platform : Platform) where
  -- What the recovery makes of an attempt.
  abbrev pub settle : String → Attempt → Attempt
  settle attempt_id row =
      if is_reserved row.state
      then record row {
        state = unknown_effect;
        completed_at = some (platform.recovered_at attempt_id);
        outcome_sha256 = some (platform.recovered_digest attempt_id);
      }
      else row

  abbrev pub settle_found : String → Option Attempt → Option Attempt
  settle_found attempt_id none = none
  settle_found attempt_id (some row) = some (settle attempt_id row)

  pub lookup-revoke_tokens :
      (rows : Dict String TokenState) (outbox : List Event) (token_id : String)
      → lookup token_id (revoke_tokens platform rows outbox).0 ≡ revoke_found (lookup token_id rows)
  unfolding revoke_tokens lookup
  lookup-revoke_tokens [] outbox token_id = refl
  lookup-revoke_tokens ((k, issued) ∷ rows) outbox token_id = ground (
    arith,
    lookup-revoke_tokens rows
        (append_event platform "AUTHORIZATION_REVOKED" k authorization_revoked outbox) token_id,
  )
  lookup-revoke_tokens ((k, consumed) ∷ rows) outbox token_id =
      ground (arith, lookup-revoke_tokens rows outbox token_id)
  lookup-revoke_tokens ((k, revoked) ∷ rows) outbox token_id =
      ground (arith, lookup-revoke_tokens rows outbox token_id)

  pub lookup-recover_rows :
      (rows : Dict String Attempt) (outbox : List Event) (attempt_id : String)
      → lookup attempt_id (recover_rows platform rows outbox).1
        ≡ settle_found attempt_id (lookup attempt_id rows)
  unfolding recover_rows lookup
  lookup-recover_rows [] outbox attempt_id = refl
  lookup-recover_rows ((k, row) ∷ rows) outbox attempt_id = ground (
    arith,
    eq_iff k attempt_id,
    lookup-recover_rows rows outbox attempt_id,
    lookup-recover_rows rows
        (append_event platform "ATTEMPT_RECOVERED_UNKNOWN" k attempt_recovered outbox) attempt_id,
  )

  -- What each event keeps, the loops keep.
  module _ (P : List Event → Type 0)
      (keeps : (t s : String) (p : EventPayload) (outbox : List Event)
        → P outbox
        → P (append_event platform t s p outbox)) where
    pub revoke_tokens-keeps :
        (rows : Dict String TokenState) (outbox : List Event)
        → P outbox
        → P (revoke_tokens platform rows outbox).1
    unfolding revoke_tokens
    revoke_tokens-keeps [] outbox h = h
    revoke_tokens-keeps ((k, issued) ∷ rows) outbox h =
        revoke_tokens-keeps rows _ (keeps "AUTHORIZATION_REVOKED" k authorization_revoked outbox h)
    revoke_tokens-keeps ((k, consumed) ∷ rows) outbox h = revoke_tokens-keeps rows outbox h
    revoke_tokens-keeps ((k, revoked) ∷ rows) outbox h = revoke_tokens-keeps rows outbox h

    pub recover_rows-keeps :
        (rows : Dict String Attempt) (outbox : List Event)
        → P outbox
        → P (recover_rows platform rows outbox).2
    unfolding recover_rows
    recover_rows-keeps [] outbox h = h
    recover_rows-keeps ((k, row) ∷ rows) outbox h = elim (Bool-cases (is_reserved row.state)) [
      | inl e ↦ rw e (
          recover_rows-keeps rows _
            (keeps "ATTEMPT_RECOVERED_UNKNOWN" k attempt_recovered outbox h))
      | inr e ↦ rw e (recover_rows-keeps rows outbox h)
    ]

    pub recovered_ledger-keeps :
        (l : ControlLedger) → P l.outbox → P (recovered_ledger platform l).1.outbox
    unfolding recovered_ledger
    recovered_ledger-keeps l h =
        revoke_tokens-keeps l.authorization_states _ (recover_rows-keeps l.attempts l.outbox h)
