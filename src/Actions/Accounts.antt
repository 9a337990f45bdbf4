-- ===== src/Actions/Accounts.antt =====
-- No action of the simulated identity provider of actions.py disables an account.
use ai_decision_firewall.Prelude.{
  ℕ, String, string_eq, ◌≡◌, refl, true, Bool-cases, inl, inr, Option, none, some, Result, ok, err,
  arith, lookup, insert, lookup-insert, [],
}
use ai_decision_firewall.Schemas.{IdentityCase}
use ai_decision_firewall.Actions.{
  Services, Fault, AuthorizationToken, AuthorizationGate, TargetState, States, ActionResult,
  validate, initialize_case, initial_state, effect, downstream_failure, apply, apply_at,
  apply_effect, execute,
}

-- Every account that the provider knows is enabled.
pub record AllEnabled (states : States) : Type 0 where
  pub at :
      (case_id : String) (state : TargetState)
      → lookup case_id states ≡ some state
      → state.account_enabled ≡ true

pub empty-AllEnabled : AllEnabled []
unfolding lookup
empty-AllEnabled = record { at = λ j st h. cc }

insert-AllEnabled :
    (k : String) (v : TargetState) (states : States)
    → v.account_enabled ≡ true
    → AllEnabled states
    → AllEnabled (insert k v states)
insert-AllEnabled k v states h all = record {
  at = λ j st e. ground (arith, lookup-insert k j v states, all.at j st);
}

initialize_case-AllEnabled :
    {F : Type 0} (case : IdentityCase F) (states : States)
    → AllEnabled states
    → AllEnabled (initialize_case case states)
unfolding initialize_case
initialize_case-AllEnabled case states all = at_entry (lookup case.case_id states)
  where
    at_entry :
        (r : Option TargetState)
        → AllEnabled (elim r as (λ _. States) [
          | none ↦ insert case.case_id (initial_state case) states
          | some _ ↦ states
        ])
    at_entry none = insert-AllEnabled case.case_id (initial_state case) states refl all
    at_entry (some _) = all

effect-enabled :
    (action : String) (state after : TargetState) (rollback : String)
    → effect action state ≡ some (after, rollback)
    → state.account_enabled ≡ true
    → after.account_enabled ≡ true
unfolding effect
effect-enabled action state after rollback h e = ground arith

module _ (s : Services) where
  apply_effect-AllEnabled :
      (case_id action : String) (states : States) (state : TargetState)
      (r : Option (TargetState × String))
      → effect action state ≡ r
      → state.account_enabled ≡ true
      → AllEnabled states
      → AllEnabled (apply_effect s case_id action states state r).1
  apply_effect-AllEnabled case_id action states state none eff e all = all
  apply_effect-AllEnabled case_id action states state (some (after, rollback)) eff e all =
      insert-AllEnabled case_id after states (effect-enabled action state after rollback eff e) all

  apply_at-AllEnabled :
      (case_id action : String) (states : States) (r : Option TargetState)
      → lookup case_id states ≡ r
      → AllEnabled states
      → AllEnabled (apply_at s case_id action states r).1
  apply_at-AllEnabled case_id action states none found all = all
  apply_at-AllEnabled case_id action states (some state) found all =
      elim (Bool-cases (downstream_failure s case_id action)) [
        | inl e ↦ rw e all
        | inr e ↦ rw e (
            apply_effect-AllEnabled case_id action states state (effect action state) refl
              (all.at case_id state found) all)
      ]

  pub execute-AllEnabled :
      {F : Type 0} (gate : AuthorizationGate F) (now : ℕ) (case : IdentityCase F) (action : String)
      (token : AuthorizationToken) (states : States)
      → AllEnabled states
      → AllEnabled (execute s gate now case action (some token) states).1
  unfolding execute apply
  execute-AllEnabled gate now case action token states all =
      at_answer (validate s gate now token case.case_id action)
    where
      at_answer :
          (r : Result Fault Unit)
          → AllEnabled
              (elim r as (λ _. Result Fault ActionResult × States) [
                | err f ↦ (err f, states)
                | ok _ ↦ apply s case.case_id action (initialize_case case states)
              ]).1
      at_answer (err f) = all
      at_answer (ok _) =
          apply_at-AllEnabled case.case_id action (initialize_case case states)
            (lookup case.case_id (initialize_case case states)) refl
            (initialize_case-AllEnabled case states all)
