-- ===== src/Engine/Batch.antt =====
-- `run_engine` of engine.py: the cases one after the other on one engine.
use ai_decision_firewall.Prelude.{
  String, string_eq, ◌≡◌, ◌≢◌, refl, ◌∙◌, ap, true, List, [], ◌∷◌, some, Result, ok, err, lookup,
}
use ai_decision_firewall.Prelude.Float.{FloatOps}
use ai_decision_firewall.Schemas.{IdentityCase}
use ai_decision_firewall.Policy.{PolicyConfig}
use ai_decision_firewall.Actions.{Services}
use ai_decision_firewall.Actions.Accounts.{AllEnabled, empty-AllEnabled, execute-AllEnabled}
use ai_decision_firewall.Actions.Target.{lookup-execute_ne}
use ai_decision_firewall.Audit.{Body, Storage, empty_logger, synced, verify_rows}
use ai_decision_firewall.Audit.Chain.{IsChained, append-IsChained, empty-IsChained}
use ai_decision_firewall.Engine.{
  Payload, Decision, Stages, Reads, Engine, EngineFault, ExecutionMode, log, new_engine, process,
}
use ai_decision_firewall.Engine.Keeps.{process-keeps}
use ai_decision_firewall.Engine.Log.{states-log}

module _ {F : Type 0} (sha256_body : Body (Payload F) → String) (s : Services) ⦃o : FloatOps F⦄
    (sha256_decision : Decision F → String) (stages : Stages F) where
  abbrev cons_decision :
      Decision F
      → Result EngineFault (List (Decision F)) × Engine F
      → Result EngineFault (List (Decision F)) × Engine F
  cons_decision d (ok ds, e) = (ok (d ∷ ds), e)
  cons_decision d (err f, e) = (err f, e)

  -- What comes after one transaction: the other cases, unless it raised.
  abbrev then_next :
      Result EngineFault (Decision F) × Engine F
      → (Engine F → Result EngineFault (List (Decision F)) × Engine F)
      → Result EngineFault (List (Decision F)) × Engine F
  then_next (err f, e) next = (err f, e)
  then_next (ok d, e) next = cons_decision d (next e)

  -- `[engine.process(case) for case in cases]`, with what each call reads from outside.
  unfoldable pub process_all :
      List (Reads × IdentityCase F) → Engine F → Result EngineFault (List (Decision F)) × Engine F
  process_all [] e = (ok [], e)
  process_all ((reads, case) ∷ cases) e =
      then_next (process sha256_body reads s sha256_decision stages case e) (process_all cases)

  -- A transaction adds rows that continue the chain, and leaves every account enabled.
  pub record IsSound (e : Engine F) : Type 0 where
    pub chained : IsChained sha256_body e.audit
    pub enabled : AllEnabled e.states

  log-IsSound :
      (reads : Reads) (t : String) (p : Payload F) (e : Engine F)
      → IsSound e
      → IsSound (log sha256_body reads t p e)
  unfolding log
  log-IsSound reads t p e h = record {
    chained = append-IsChained sha256_body e.audit synced _ t p h.chained;
    enabled = h.enabled;
  }

  process-IsSound :
      (reads : Reads) (case : IdentityCase F) (e : Engine F)
      → IsSound e
      → IsSound (process sha256_body reads s sha256_decision stages case e).1
  process-IsSound reads case =
      process-keeps sha256_body reads s case IsSound (log-IsSound reads)
        (λ gate now action token e h. record {
          chained = h.chained;
          enabled = execute-AllEnabled s gate now case action token e.states h.enabled;
        })
        sha256_decision stages

  cons_decision-engine :
      (d : Decision F) (out : Result EngineFault (List (Decision F)) × Engine F)
      → (cons_decision d out).1 ≡ out.1
  cons_decision-engine d (ok ds, e) = refl
  cons_decision-engine d (err f, e) = refl

  then_next-IsSound :
      (out : Result EngineFault (Decision F) × Engine F)
      (next : Engine F → Result EngineFault (List (Decision F)) × Engine F)
      → IsSound out.1
      → ((e : Engine F) → IsSound e → IsSound (next e).1)
      → IsSound (then_next out next).1
  then_next-IsSound (err f, e) next h k = h
  then_next-IsSound (ok d, e) next h k = rw (cons_decision-engine d (next e)) (k e h)

  process_all-IsSound :
      (cases : List (Reads × IdentityCase F)) (e : Engine F)
      → IsSound e
      → IsSound (process_all cases e).1
  unfolding process_all
  process_all-IsSound [] e h = h
  process_all-IsSound ((reads, case) ∷ cases) e h =
      then_next-IsSound _ (process_all cases) (process-IsSound reads case e h)
        (process_all-IsSound cases)

  new_engine-IsSound :
      (config : PolicyConfig F) (mode : ExecutionMode) (storage : Storage) (key : String)
      → IsSound (new_engine config mode (empty_logger (Payload F) storage) key)
  unfolding new_engine
  new_engine-IsSound config mode storage key = record {
    chained = empty-IsChained sha256_body storage;
    enabled = empty-AllEnabled;
  }

  -- From a new engine, after any run of cases, also one that stops with an exception, the audit
  -- log verifies with no error, and no account of the target is disabled.
  pub process_all-audited :
      (config : PolicyConfig F) (mode : ExecutionMode) (storage : Storage) (key : String)
      (cases : List (Reads × IdentityCase F))
      → let e =
          (process_all cases (new_engine config mode (empty_logger (Payload F) storage) key)).1 in
        (verify_rows sha256_body e.audit.rows ≡ (true, [])) × AllEnabled e.states
  unfolding verify_rows
  process_all-audited config mode storage key cases =
      let sound =
        process_all-IsSound cases (new_engine config mode (empty_logger (Payload F) storage) key)
          (new_engine-IsSound config mode storage key) in
      (rw sound.chained.verified refl, sound.enabled)

  -- A transaction on one case leaves the state of every other case as it was.
  pub lookup-process_ne :
      (reads : Reads) (case : IdentityCase F) (e : Engine F) (j : String)
      → case.case_id ≢ j
      → lookup j (process sha256_body reads s sha256_decision stages case e).1.states
        ≡ lookup j e.states
  lookup-process_ne reads case e j ne =
      process-keeps sha256_body reads s case (λ e'. lookup j e'.states ≡ lookup j e.states)
        (λ t p e' h. ap (lookup j) (states-log sha256_body reads t p e') ∙ h)
        (λ gate now action token e' h.
          lookup-execute_ne s gate now case action e'.states (some token) j ne ∙ h)
        sha256_decision stages e refl
