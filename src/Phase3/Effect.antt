-- ===== src/Phase3/Effect.antt =====
-- What an effect that src/adf_poc/phase3/simulation.py verifies is.
use ai_decision_firewall.Prelude.{
  if◌then◌else◌, ℕ, ◌≤◌, ◌<◌, ◌+◌, ◌*◌, sym, ◌∙◌, contains, lookup, String, string_eq, nat_eq, ◌==◌,
  ◌≡◌, refl, ap, Bool, true, false, not, ◌||◌, List, [], ◌∷◌, ◌++◌, Option, none, some, is_empty,
  is_blank, arith, eq_iff,
}
use ai_decision_firewall.Phase3.Records.{PermittedAction}
use ai_decision_firewall.Phase3.Decision.{whole_seconds}
use ai_decision_firewall.Phase3.Authority.{bool_equals}
use ai_decision_firewall.Phase3.Consequence.{when}
use ai_decision_firewall.Phase3.Gate.{same_parameters}
use ai_decision_firewall.Phase3.Metrics.{Metrics}
use ai_decision_firewall.Phase3.Simulation.{
  VerificationStatus, verified, failed, partial, unexpected_effect, needs_rollback, SimulatedState,
  BoundaryState, BoundaryServices, ExecutionArgs, same_text, changed_fields, unexpected_fields,
  observe_state, in_window, all_times, allowed_changes, count_true, verdict, times_of, expiry_of,
  is_origin, argument_reasons, command_reasons, binding_reasons, transition_checks, verdict_on,
  verified_on, verify_execution,
}

-- There are no reasons.
record IsBare (reasons : List String) : Type 0 where
  bare : is_empty reasons ≡ true

IsBare-parts : (xs ys : List String) → is_empty (xs ++ ys) ≡ true → IsBare xs × IsBare ys
IsBare-parts [] ys h = (record { bare = refl }, record { bare = h })
IsBare-parts (x ∷ xs) ys h = cc

IsBare-when : (b : Bool) (x : String) → is_empty (when b x) ≡ true → b ≡ false
IsBare-when true x h = cc
IsBare-when false x h = refl

-- The last of the conditional reasons is not there.
peel :
    (b : Bool) (x : String) {xs : List String} → IsBare (xs ++ when b x) → (b ≡ false) × IsBare xs
peel b x {xs} h =
    let (before, last) = IsBare-parts xs (when b x) h.bare in (IsBare-when b x last.bare, before)

not-false : (b : Bool) → not b ≡ false → b ≡ true
not-false b h = ground (arith, h)

is_verified_status : VerificationStatus → Bool
is_verified_status verified = true
is_verified_status failed = false
is_verified_status partial = false
is_verified_status unexpected_effect = false
is_verified_status needs_rollback = false

same_text-≡ : (a b : Option String) → same_text a b ≡ true → a ≡ b
same_text-≡ none none h = refl
same_text-≡ none (some b) h = cc
same_text-≡ (some a) none h = cc
same_text-≡ (some a) (some b) h = ap some ((eq_iff a b).0 h)

bool_equals-≡ : (a b : Bool) → bool_equals a b ≡ true → a ≡ b
bool_equals-≡ a b h = ground (arith, h)

-- The last of the changed fields is not there, if it may not change.
peel_field :
    (b : Bool) (x : String) (xs : List String)
    → contains allowed_changes x ≡ false
    → is_empty (unexpected_fields (xs ++ when b x)) ≡ true
    → (b ≡ false) × (is_empty (unexpected_fields xs) ≡ true)
peel_field b x [] outside h = (only b h, refl)
  where
    only : (b : Bool) → is_empty (unexpected_fields (when b x)) ≡ true → b ≡ false
    only true = rw outside (λ (h : false ≡ true). sym h)
    only false = λ h. refl
peel_field b x (y ∷ xs) outside h =
    let (e, rest) =
      one-field (contains allowed_changes y) y (unexpected_fields (xs ++ when b x)) h in
    let (f, g) = peel_field b x xs outside rest in (f, rw e g)
  where
    one-field :
        (c : Bool) (y : String) (ys : List String)
        → is_empty (if not c then y ∷ ys else ys) ≡ true
        → (c ≡ true) × (is_empty ys ≡ true)
    one-field true y ys h = (refl, h)
    one-field false y ys h = cc

-- None of the changed fields is unexpected.
record IsKept (changed : List String) : Type 0 where
  kept : is_empty (unexpected_fields changed) ≡ true

peel-IsKept :
    (b : Bool) (x : String) {xs : List String}
    → contains allowed_changes x ≡ false
    → IsKept (xs ++ when b x)
    → (b ≡ false) × IsKept xs
peel-IsKept b x {xs} outside h =
    let (e, rest) = peel_field b x xs outside h.kept in (e, record { kept = rest })

equal_texts : (a b : String) → not (a == b) ≡ false → b ≡ a
equal_texts a b h = sym ((eq_iff a b).0 (not-false (a == b) h))

-- What the code finds about the times is so.
record IsTimely (executed issued expiry : Option ℕ) : Type 0 where
  executed_at : ℕ
  issued_at : ℕ
  expires_at : ℕ
  executed_is : executed ≡ some executed_at
  issued_is : issued ≡ some issued_at
  expires_is : expiry ≡ some expires_at
  not_early : issued_at ≤ executed_at
  not_late : executed_at < expires_at

in_window-IsTimely : (a b c : Option ℕ) → in_window (all_times a b c) ≡ true → IsTimely a b c
in_window-IsTimely (some a) (some b) (some c) h = record {
  executed_at = a;
  issued_at = b;
  expires_at = c;
  executed_is = refl;
  issued_is = refl;
  expires_is = refl;
  not_early = ground (arith, h);
  not_late = ground (arith, h);
}
in_window-IsTimely (some a) (some b) none h = cc
in_window-IsTimely (some a) none c h = cc
in_window-IsTimely none b c h = cc

-- The fields that may not change.
record IsSameTarget (was observed : SimulatedState) : Type 0 where
  health : observed.service_health ≡ was.service_health
  target : observed.target_id ≡ was.target_id
  kind : observed.target_type ≡ was.target_type

changed_fields-IsSameTarget :
    (was observed : SimulatedState)
    → IsKept (changed_fields was observed)
    → IsSameTarget was observed
changed_fields-IsSameTarget was observed h =
    let (kind, h1) =
      peel-IsKept (not (was.target_type == observed.target_type)) "target_type" refl h in
    let (target, h2) =
      peel-IsKept (not (was.target_id == observed.target_id)) "target_id" refl h1 in
    let (health, _) =
      peel-IsKept (not (was.service_health == observed.service_health)) "service_health" refl h2 in
    record {
      health = equal_texts was.service_health observed.service_health health;
      target = equal_texts was.target_id observed.target_id target;
      kind = equal_texts was.target_type observed.target_type kind;
    }

module _ (services : BoundaryServices) where
  -- What holds of an effect that is verified.
  pub record IsConfirmed (s : BoundaryState) (args : ExecutionArgs) (observed : SimulatedState)
      : Type 0 where
    pub is_there : observe_state s args.token.unsigned.target_id ≡ some observed
    pub for_request : args.request_id ≡ args.token.unsigned.request_id
    pub for_decision : args.decision_id ≡ args.token.unsigned.decision_id
    pub by_token : args.broker_result.token_id ≡ args.token.unsigned.token_id
    -- the broker has recorded the digest of this token, command and result
    pub command : PermittedAction
    pub commanded : args.permitted_command ≡ some command
    pub recorded :
        lookup args.broker_result.attempt_id s.attempt_binding_digests
        ≡ some (some (services.attempt_sha256 args.token command args.broker_result))
    -- it ran within the lifetime of the token
    pub executed : ℕ
    pub issued : ℕ
    pub expiry : ℕ
    pub executed_read : services.utc_time args.broker_result.executed_at ≡ some executed
    pub issued_read : services.utc_time args.token.unsigned.issued_at ≡ some issued
    pub expiry_read : services.utc_time args.token.unsigned.expires_at ≡ some expiry
    pub not_early : issued ≤ executed
    pub not_late : executed < expiry
    pub authorized_state :
        services.state_sha256 args.state_before ≡ args.token.unsigned.target_state_sha256
    pub reported_state : args.broker_result.state_after_sha256 ≡ services.state_sha256 observed
    pub reported_success : args.broker_result.reported_success ≡ true
    pub same_health : observed.service_health ≡ args.state_before.service_health
    pub same_target : observed.target_id ≡ args.state_before.target_id
    pub same_kind : observed.target_type ≡ args.state_before.target_type
    pub supported : args.token.unsigned.action_type ≡ "NETWORK_ISOLATE"
    pub is_isolated : observed.network_state ≡ "isolated"
    pub management :
        observed.management_channel ≡ args.token.unsigned.permitted_parameters.preserve_management
    pub expires :
        observed.isolation_expires_at
        ≡ some (
            services.isoformat (
              whole_seconds
                (executed + args.token.unsigned.permitted_parameters.duration_seconds * 1000000)))
    pub by_attempt : observed.last_action_id ≡ some args.broker_result.attempt_id

verified-parts :
    (reasons : List String) (changed supported has_unexpected : Bool) (matched : ℕ)
    (reported : Bool)
    → is_verified_status (verdict reasons changed supported has_unexpected matched reported).status
      ≡ true
    → (is_empty reasons ≡ true)
      × (supported ≡ true)
      × (has_unexpected ≡ false)
      × ((matched == 5) ≡ true)
      × (reported ≡ true)
unfolding is_verified_status
verified-parts (r ∷ rs) true supported has_unexpected matched reported h = cc
verified-parts (r ∷ rs) false supported has_unexpected matched reported h = cc
verified-parts [] true false has_unexpected matched reported h = cc
verified-parts [] false false has_unexpected matched reported h = cc
verified-parts [] changed true true matched reported h = cc
verified-parts [] changed true false matched reported h =
    (refl, refl, refl, ground (arith, h), ground (arith, h))

count-all :
    (a b c d e : Bool)
    → (count_true (a ∷ b ∷ c ∷ d ∷ e ∷ []) == 5) ≡ true
    → (a ≡ true) × (b ≡ true) × (c ≡ true) × (d ≡ true) × (e ≡ true)
count-all a b c d e h =
    (ground (arith, h), ground (arith, h), ground (arith, h), ground (arith, h), ground (arith, h))

-- The command, and its digest among those that the broker recorded.
record IsRecorded (services : BoundaryServices) (s : BoundaryState) (args : ExecutionArgs)
    (found : Option (Option String)) (given : Option PermittedAction) : Type 0 where
  command : PermittedAction
  commanded : given ≡ some command
  recorded : found ≡ some (some (services.attempt_sha256 args.token command args.broker_result))

origin-IsRecorded :
    (services : BoundaryServices) (s : BoundaryState) (args : ExecutionArgs)
    (given : Option PermittedAction)
    → is_origin services s args given ≡ true
    → IsRecorded services s args
        (lookup args.broker_result.attempt_id s.attempt_binding_digests)
        given
origin-IsRecorded services s args none h = cc
origin-IsRecorded services s args (some command) h =
    go (lookup args.broker_result.attempt_id s.attempt_binding_digests) h
  where
    go :
        (found : Option (Option String))
        → (elim found [
          | none ↦ false
          | some none ↦ false
          | some (some d) ↦ d == services.attempt_sha256 args.token command args.broker_result
        ])
          ≡ true
        → IsRecorded services s args found (some command)
    go none h = cc
    go (some none) h = cc
    go (some (some d)) h = record {
      command = command;
      commanded = refl;
      recorded =
          ap (λ z. some (some z))
            ((eq_iff d (services.attempt_sha256 args.token command args.broker_result)).0 h);
    }

module _ (services : BoundaryServices) (s : BoundaryState) (args : ExecutionArgs) where
  all_read :
      (t : IsTimely
        (services.utc_time args.broker_result.executed_at)
        (services.utc_time args.token.unsigned.issued_at)
        (services.utc_time args.token.unsigned.expires_at))
      → times_of services args ≡ some (t.executed_at, (t.issued_at, t.expires_at))
  all_read t = rw t.executed_is (rw t.issued_is (rw t.expires_is refl))

  until :
      (t : IsTimely
        (services.utc_time args.broker_result.executed_at)
        (services.utc_time args.token.unsigned.issued_at)
        (services.utc_time args.token.unsigned.expires_at))
      (observed : SimulatedState)
      → observed.isolation_expires_at ≡ expiry_of services args (times_of services args)
      → observed.isolation_expires_at
        ≡ expiry_of services args (some (t.executed_at, (t.issued_at, t.expires_at)))
  until t observed h = h ∙ ap (expiry_of services args) (all_read t)

  observed-IsConfirmed :
      (observed : SimulatedState)
      → observe_state s args.token.unsigned.target_id ≡ some observed
      → is_verified_status (verdict_on services s args observed).status ≡ true
      → IsConfirmed services s args observed
  unfolding binding_reasons argument_reasons
  observed-IsConfirmed observed found h =
      let token = args.token.unsigned in
      let result = args.broker_result in
      let before = services.state_sha256 args.state_before in
      let (bare, supported, expected, matched, reported) =
        verified-parts (binding_reasons services s args observed)
          (not (is_empty (changed_fields args.state_before observed)))
          (token.action_type == "NETWORK_ISOLATE")
          (not (is_empty (unexpected_fields (changed_fields args.state_before observed))))
          (count_true (transition_checks services args observed)) result.reported_success h in
      let all : IsBare (binding_reasons services s args observed) = record { bare = bare } in
      let (origin, h1) = peel (not (is_origin services s args args.permitted_command)) _ all in
      let (_, h2) = peel (not (same_text observed.last_action_id (some result.attempt_id))) _ h1 in
      let (after, h3) =
        peel (not (result.state_after_sha256 == services.state_sha256 observed)) _ h2 in
      let (_, h4) = peel (not (result.state_before_sha256 == before)) _ h3 in
      let (authorized, h5) = peel (not (before == token.target_state_sha256)) _ h4 in
      let (_, h6) = peel (is_blank result.attempt_id) _ h5 in
      let (_, h7) = peel (not result.attempted || not result.accepted) _ h6 in
      let (time, h8) = peel (not (in_window (times_of services args))) _ h7 in
      let (_, h9) =
        peel (not (same_parameters result.parameters token.permitted_parameters)) _ h8 in
      let (_, h10) = peel (not (result.target_id == token.target_id)) _ h9 in
      let (_, h11) = peel (not (result.action_type == token.action_type)) _ h10 in
      let (h12, _) = IsBare-parts _ (command_reasons token args.permitted_command) h11.bare in
      let (_, h13) = peel (not (result.decision_id == token.decision_id)) _ h12 in
      let (_, h14) = peel (not (result.request_id == token.request_id)) _ h13 in
      let (by_token, h15) = peel (not (result.token_id == token.token_id)) _ h14 in
      let (for_decision, h16) = peel (not (args.decision_id == token.decision_id)) _ h15 in
      let for_request =
        IsBare-when (not (args.request_id == token.request_id)) "VERIFICATION_REQUEST_MISMATCH"
          h16.bare in
      let timely =
        in_window-IsTimely (services.utc_time result.executed_at)
          (services.utc_time token.issued_at) (services.utc_time token.expires_at)
          (not-false (in_window (times_of services args)) time) in
      let recorded =
        origin-IsRecorded services s args args.permitted_command
          (not-false (is_origin services s args args.permitted_command) origin) in
      let same = changed_fields-IsSameTarget args.state_before observed (record {
        kept =
            not-false (is_empty (unexpected_fields (changed_fields args.state_before observed)))
              expected;
      }) in
      let (a, b, c, d, e) =
        count-all (observed.network_state == "isolated")
          (bool_equals observed.management_channel token.permitted_parameters.preserve_management)
          (not (same_text observed.isolation_expires_at none))
          (same_text observed.isolation_expires_at
            (expiry_of services args (times_of services args)))
          (same_text observed.last_action_id (some result.attempt_id)) matched in
      record {
        is_there = found;
        for_request = (eq_iff args.request_id token.request_id).0 (not-false _ for_request);
        for_decision = (eq_iff args.decision_id token.decision_id).0 (not-false _ for_decision);
        by_token = (eq_iff result.token_id token.token_id).0 (not-false _ by_token);
        command = recorded.command;
        commanded = recorded.commanded;
        recorded = recorded.recorded;
        executed = timely.executed_at;
        issued = timely.issued_at;
        expiry = timely.expires_at;
        executed_read = timely.executed_is;
        issued_read = timely.issued_is;
        expiry_read = timely.expires_is;
        not_early = timely.not_early;
        not_late = timely.not_late;
        authorized_state = (eq_iff before token.target_state_sha256).0 (not-false _ authorized);
        reported_state =
            (eq_iff result.state_after_sha256 (services.state_sha256 observed)).0
              (not-false _ after);
        reported_success = reported;
        same_health = same.health;
        same_target = same.target;
        same_kind = same.kind;
        supported = (eq_iff token.action_type "NETWORK_ISOLATE").0 supported;
        is_isolated = (eq_iff observed.network_state "isolated").0 a;
        management = bool_equals-≡ _ _ b;
        expires = until timely observed (
            same_text-≡ observed.isolation_expires_at
              (expiry_of services args (times_of services args)) d);
        by_attempt = same_text-≡ _ _ e;
      }

  verified_on-IsConfirmed :
      {F : Type 0} (m : Metrics F) (found : Option SimulatedState)
      → observe_state s args.token.unsigned.target_id ≡ found
      → is_verified_status (verified_on services s args found m).0.status ≡ true
      → (observed : SimulatedState) × IsConfirmed services s args observed
  unfolding is_verified_status
  verified_on-IsConfirmed m none e h = cc
  verified_on-IsConfirmed m (some observed) e h = (observed, observed-IsConfirmed observed e h)

  -- An execution that is verified is confirmed: the target that the boundary has for the token is
  -- isolated with the management channel of the token, until the execution plus the duration of the
  -- token, by the attempt that is named, nothing else changed, the broker reported success, the attempt
  -- with its token, its command and its result is one that the broker recorded, it ran within the
  -- lifetime of the token, and on the state that was authorized.
  pub verify_execution-IsConfirmed :
      {F : Type 0} (m : Metrics F)
      → (verify_execution services s args m).0.status ≡ verified
      → (observed : SimulatedState) × IsConfirmed services s args observed
  unfolding verify_execution is_verified_status
  verify_execution-IsConfirmed m h =
      verified_on-IsConfirmed m (observe_state s args.token.unsigned.target_id) refl
        (ap is_verified_status h)
