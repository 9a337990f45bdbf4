-- ===== src/Lib.antt =====
-- AI Decision Firewall: the decision path of src/adf_poc, modelled and verified.
--
-- The program takes an identity-security case, assesses its evidence and its risk, lets a
-- deterministic policy propose a disposition, lets an independent verifier check the proposal, and
-- executes reversible actions against a simulated identity provider, only with a signed
-- authorization. Each step writes a row of a hash-chained audit log. A control ledger keeps request
-- claims, one-time authorizations and execution attempts.
--
-- Which file models which part:
--   Schemas.antt   src/adf_poc/schemas.py, and the results EvidenceAssessment (evidence.py) and
--                  ModelAssessment (model.py), as records with the fields of the source
--   Contract.antt  src/adf_poc/feature_contract.py: `select_modeled_attributes` and
--                  `select_evidence_attributes`; Contract/Context has
--                  `validate_canonical_case_feature_context`
--   Evidence.antt  src/adf_poc/evidence.py: `assess_evidence`, its loop over the events as
--                  `scan_events`, its result as `assessment`
--   Policy.antt    src/adf_poc/policy.py: PolicyEngine.propose as `propose`, its local Booleans
--                  and each proposal it builds as functions of their own
--   Verifier.antt  src/adf_poc/verifier.py: IndependentVerifier.verify as `verify`, with the rows
--                  of the checks; Verifier/Eligible states what is accepted without the rows,
--                  Verifier/Agreement relates it to the policy
--   Actions.antt   src/adf_poc/actions.py: AuthorizationGate (`authorize`, `validate`),
--                  SimulatedIdentityProvider (`initialize_case`, `apply`), ActionBroker
--                  (`execute`), PostActionVerifier (`verify_results`); the states of the provider
--                  are a dictionary that is passed along
--   Audit.antt     src/adf_poc/audit.py: AuditLogger (`append`, `verify_rows`, `open_logger`)
--   Engine.antt    src/adf_poc/engine.py and execution.py: DecisionFirewallEngine.process as
--                  `process`, cut at its stages; Engine/Batch has run_engine's loop
--   Ledger.antt    src/adf_poc/stage_a.py: InMemoryControlLedger, its operations in
--                  Ledger/Ops; Ledger/Steps has its transitions, and the files beside it what
--                  holds along every history of calls
--   Phase3.antt    src/adf_poc/phase3: the records of contracts.py and config.py, those of models.py
--                  in Phase3/Records; Phase3/Consequence, Phase3/Authority and Phase3/Decision have
--                  consequence.py and decision.py, Phase3/Rules the decision rules that config.py
--                  accepts; Phase3/Gate has AuthorizationGate of authorization.py, Phase3/Identity,
--                  Phase3/Approval and Phase3/Approve have identity.py and approval.py,
--                  Phase3/Metrics metrics.py; Phase3/Evidence and Phase3/Attestation have
--                  `assess_evidence` of evidence.py and the verification of attestation.py,
--                  Phase3/Verify has IndependentDecisionVerifier.verify of verifier.py, and
--                  Phase3/Simulation has the observation and `verify_execution` of simulation.py,
--                  Phase3/Equality Python's `==` on the frozen records; the other files below
--                  have proofs
--   Examples.antt  a concrete case on which the theorems are applied
--   Prelude.antt   dictionaries, lists, texts and results in the sense of Python's
--
-- Exceptions are results (`err`) that stand beside the state that the raising call leaves. All
-- loops are structural recursion on lists, so nothing runs on fuel and every function is total.
-- Floats are a type parameter with the literals and operations of the source and no law
-- (Prelude/Float), so what is proved holds for every float, NaN included; `==` of floats
-- is one of the operations, so records of floats are compared with a test that need not be
-- reflexive. Texts with numbers in them are constructors that hold the numbers. Parameters stand
-- for the standard library: SHA-256 and HMAC over canonical JSON, ISO 8601 texts, UUIDs and the
-- clock (Services, Reads, Platform). Where the code relies on an encoding that may raise, the
-- parameter returns an option: the digest of an identifier in the ledger, which raises after the
-- entries are made, and the digest of a decision's context, which raises on a float not finite.
--
-- `process` takes the assessments of the evidence and of the model as values that may also be
-- exceptions, so what is proved of it holds for every assessment.
--
-- In phase 3 a time is a number of microseconds since the year 1, and what a call draws from the
-- clock, from an identifier factory or from a callback is an argument of it. The factory of approval
-- requirements that `build_decision` calls works on a state of any type.
--
-- Not modelled: the numerics of model.py and its features, loading of files, the descriptor-bound
-- mode of the audit log, an audit row that the file system does not confirm inside a transaction
-- (it is modelled for the logger alone), locks, the SQLite ledger, the execution of
-- simulation.py, the audit and the engine of phase 3, its parsing of requests and policies (so its
-- verifier is modelled from the request that it validated again), the services, replay and reports.
pub mod Prelude
pub mod Schemas
pub mod Contract
pub mod Evidence
pub mod Policy
pub mod Verifier
pub mod Actions
pub mod Audit
pub mod Engine
pub mod Ledger
pub mod Phase3
pub mod Examples
