-- ===== src/Actions/Target.antt =====
-- The broker and the simulated identity provider of actions.py, and the check after the action.
use ai_decision_firewall.Prelude.{
  ℕ, String, string_eq, ◌==◌, ◌≡◌, ◌≢◌, refl, sym, ap, subst, Bool-cases, Bool, true, false, Option,
  none, some, Result, ok, err, arith, lookup, insert, lookup-insert, eq_iff, nat_eq, inl, inr,
}
use ai_decision_firewall.Schemas.{IdentityCase}
use ai_decision_firewall.Actions.{
  Services, AuthorizationToken, AuthorizationGate, Fault, authorization, TargetState, States,
  ActionResult, PostCheck, validate, initialize_case, initial_state, effect, downstream_failure,
  apply, apply_at, apply_effect, execute, check_result, failed_downstream, applied,
}

-- Whether the check of a result is made and passes.
abbrev pub check_passes : Option PostCheck → Bool
check_passes none = false
check_passes (some c) = c.passed

-- What no action may change: whether the account is enabled, and whose it is.
abbrev pub account : Option TargetState → Option (Bool × String)
account none = none
account (some state) = some (state.account_enabled, state.subject_id)

-- An applied effect leaves the account alone.
effect-account :
    (action : String) (state after : TargetState) (rollback : String)
    → effect action state ≡ some (after, rollback)
    → account (some after) ≡ account (some state)
unfolding effect
effect-account action state after rollback h = ground arith

module _ (state after : TargetState) (rollback : String) where
  abbrev IsChecked : String → Type 0
  IsChecked action =
      effect action state ≡ some (after, rollback)
      → check_passes (check_result (applied action state after rollback)) ≡ true

  revoke-IsChecked : IsChecked "revoke_active_sessions"
  unfolding effect check_result
  revoke-IsChecked h = ground arith

  step_up-IsChecked : IsChecked "force_step_up_auth"
  unfolding effect check_result
  step_up-IsChecked h = ground arith

  monitoring-IsChecked : IsChecked "increase_monitoring"
  unfolding effect check_result
  monitoring-IsChecked h = rw (← ap (λ (t : TargetState). t.monitoring_level) (kept h)) refl
    where
      kept :
          effect "increase_monitoring" state ≡ some (after, rollback)
          → record state { monitoring_level = "enhanced" } ≡ after
      kept h = ground arith

  other_action :
      (action : String)
      → (action == "revoke_active_sessions") ≡ false
      → (action == "force_step_up_auth") ≡ false
      → (action == "increase_monitoring") ≡ false
      → IsChecked action
  unfolding effect
  other_action action a b c h = ground arith

  -- The check after the action passes on the state that the effect leaves.
  effect-IsChecked : (action : String) → IsChecked action
  effect-IsChecked action = elim (Bool-cases (action == "revoke_active_sessions")) [
    | inl e ↦ subst IsChecked (sym ((eq_iff action "revoke_active_sessions").0 e)) revoke-IsChecked
    | inr a ↦ elim (Bool-cases (action == "force_step_up_auth")) [
      | inl e ↦ subst IsChecked (sym ((eq_iff action "force_step_up_auth").0 e)) step_up-IsChecked
      | inr b ↦ elim (Bool-cases (action == "increase_monitoring")) [
        | inl e ↦
            subst IsChecked (sym ((eq_iff action "increase_monitoring").0 e)) monitoring-IsChecked
        | inr c ↦ other_action action a b c
      ]
    ]
  ]

module _ (s : Services) where
  apply_effect-ne :
      (case_id action j : String) (states : States) (state : TargetState)
      (e : Option (TargetState × String))
      → case_id ≢ j
      → lookup j (apply_effect s case_id action states state e).1 ≡ lookup j states
  apply_effect-ne case_id action j states state none ne = refl
  apply_effect-ne case_id action j states state (some (after, rollback)) ne =
      ground (arith, lookup-insert case_id j after states, eq_iff case_id j)

  apply_at-ne :
      (case_id action j : String) (states : States) (o : Option TargetState)
      → case_id ≢ j
      → lookup j (apply_at s case_id action states o).1 ≡ lookup j states
  apply_at-ne case_id action j states none ne = refl
  apply_at-ne case_id action j states (some state) ne =
      ground (arith, apply_effect-ne case_id action j states state (effect action state) ne)

  initialize_case-ne :
      {F : Type 0} (case : IdentityCase F) (j : String) (states : States)
      → case.case_id ≢ j
      → lookup j (initialize_case case states) ≡ lookup j states
  unfolding initialize_case
  initialize_case-ne case j states ne =
      ground
        (arith, lookup-insert case.case_id j (initial_state case) states, eq_iff case.case_id j)

  module _ {F : Type 0} (gate : AuthorizationGate F) (now : ℕ) (case : IdentityCase F)
      (action : String) (states : States) where
    -- An action on one case leaves the state of every other case as it was.
    pub lookup-execute_ne :
        (token : Option AuthorizationToken) (j : String)
        → case.case_id ≢ j
        → lookup j (execute s gate now case action token states).1 ≡ lookup j states
    unfolding execute apply
    lookup-execute_ne none j ne = refl
    lookup-execute_ne (some token) j ne =
        let start = initialize_case case states in
        ground (
          arith,
          apply_at-ne case.case_id action j start (lookup case.case_id start) ne,
          initialize_case-ne case j states ne,
        )

    -- Without a token that the gate accepts for this action now, the call raises and no state
    -- changes, not even by the initialization of the case.
    execute_refused :
        (token : Option AuthorizationToken)
        → ((t : AuthorizationToken)
            → token ≡ some t
            → validate s gate now t case.case_id action ≢ ok tt)
        → (e : Fault) × (execute s gate now case action token states ≡ (err e, states))
    unfolding execute
    execute_refused none h = (authorization "No authorization token was supplied.", refl)
    execute_refused (some t) h = refused (validate s gate now t case.case_id action) refl
      where
        refused :
            (r : Result Fault Unit)
            → validate s gate now t case.case_id action ≡ r
            → (e : Fault) × (execute s gate now case action (some t) states ≡ (err e, states))
        refused (ok _) e = absurd (h t refl e)
        refused (err f) e = (f, rw (e, execute) refl)

  -- What a result that did not raise says about the states that it comes with.
  pub record IsFaithful (case_id : String) (before : States) (out : ActionResult × States)
      : Type 0 where
    pub stored : lookup case_id out.1 ≡ out.0.state_after
    pub started : lookup case_id before ≡ out.0.state_before
    pub checked : out.0.success ≡ true → check_passes (check_result out.0) ≡ true
    pub unchanged : out.0.success ≡ false → out.1 ≡ before
    pub account_kept : account out.0.state_after ≡ account out.0.state_before

  applied-IsFaithful :
      (case_id action : String) (before : States) (state next : TargetState) (rollback : String)
      → lookup case_id before ≡ some state
      → effect action state ≡ some (next, rollback)
      → IsFaithful case_id before (applied action state next rollback, insert case_id next before)
  applied-IsFaithful case_id action before state next rollback found eff = record {
    stored = ground (arith, lookup-insert case_id case_id next before, eq_iff case_id case_id);
    started = found;
    checked = λ h. effect-IsChecked state next rollback action eff;
    unchanged = λ h. cc;
    account_kept = effect-account action state next rollback eff;
  }

  failed-IsFaithful :
      (case_id action : String) (before : States) (state : TargetState)
      → lookup case_id before ≡ some state
      → IsFaithful case_id before (failed_downstream action state, before)
  failed-IsFaithful case_id action before state found = record {
    stored = found;
    started = found;
    checked = λ h. cc;
    unchanged = λ h. refl;
    account_kept = refl;
  }

  abbrev pub Faithful : String → States → Result Fault ActionResult × States → Type 0
  Faithful case_id before (ok r, after) = IsFaithful case_id before (r, after)
  Faithful case_id before (err _, after) = after ≡ before

  apply_effect-Faithful :
      (case_id action : String) (before : States) (state : TargetState)
      (e : Option (TargetState × String))
      → lookup case_id before ≡ some state
      → effect action state ≡ e
      → Faithful case_id before (apply_effect s case_id action before state e)
  apply_effect-Faithful case_id action before state none found eff = refl
  apply_effect-Faithful case_id action before state (some (next, rollback)) found eff =
      applied-IsFaithful case_id action before state next rollback found eff

  apply_at-Faithful :
      (case_id action : String) (before : States) (o : Option TargetState)
      → lookup case_id before ≡ o
      → Faithful case_id before (apply_at s case_id action before o)
  apply_at-Faithful case_id action before none found = refl
  apply_at-Faithful case_id action before (some state) found =
      elim (Bool-cases (downstream_failure s case_id action)) [
        | inl e ↦ rw e (failed-IsFaithful case_id action before state found)
        | inr e ↦
            rw e
              (apply_effect-Faithful case_id action before state (effect action state) found refl)
      ]

  -- Whatever `apply` does to the state of a case is what its result says: the result holds the
  -- states before and after; a success passes the check after the action; a failure and an
  -- exception change nothing; and the account stays enabled or disabled as it was.
  pub apply-Faithful :
      (case_id action : String) (states : States)
      → Faithful case_id states (apply s case_id action states)
  unfolding apply
  apply-Faithful case_id action states =
      apply_at-Faithful case_id action states (lookup case_id states) refl
