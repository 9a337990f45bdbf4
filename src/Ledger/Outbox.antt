-- ===== src/Ledger/Outbox.antt =====
-- The outbox of the ledger of stage_a.py numbers its events 1, 2, 3, …, and only grows.
use ai_decision_firewall.Prelude.{
  ℕ, suc, ◌+◌, String, ◌==◌, nat_eq, ◌≡◌, refl, sym, ◌∙◌, ap, Bool, true, ◌&&◌, List, [], ◌∷◌, ◌++◌,
  length, arith,
}
use ai_decision_firewall.Ledger.{
  Event, EventPayload, ControlLedger, new_ledger, Platform, new_event, append_event,
}
use ai_decision_firewall.Ledger.Steps.{
  Op, run, step, step-Transition, Transition, unchanged, claims, issues, enters, consumes, reserves,
  keeps_back, moves, recovers,
}
use ai_decision_firewall.Ledger.Tables.{recovered_ledger-keeps}

-- The identifiers are those from `n` on.
abbrev pub numbered : ℕ → List Event → Bool
numbered n [] = true
numbered n (event ∷ events) = event.event_id == n && numbered (suc n) events

numbered-append :
    (n : ℕ) (events : List Event) (event : Event)
    → numbered n events ≡ true
    → event.event_id ≡ n + length events
    → numbered n (events ++ event ∷ []) ≡ true
numbered-append n [] event h e = ground arith
numbered-append n (first ∷ events) event h e = ground (arith, numbered-append (suc n) events event)

-- What was there stays, in its place, before what is new.
abbrev pub Extends : List Event → List Event → Type 0
Extends old outbox = (more : List Event) × (outbox ≡ old ++ more)

append_assoc : (xs ys zs : List Event) → (xs ++ ys) ++ zs ≡ xs ++ (ys ++ zs)
append_assoc [] ys zs = refl
append_assoc (x ∷ xs) ys zs = ap (λ rest. x ∷ rest) (append_assoc xs ys zs)

append_nil : (xs : List Event) → xs ++ [] ≡ xs
append_nil [] = refl
append_nil (x ∷ xs) = ap (λ rest. x ∷ rest) (append_nil xs)

-- The outbox goes on from `old`, and its events are numbered.
pub record IsGrown (old outbox : List Event) : Type 0 where
  pub extends : Extends old outbox
  pub in_order : numbered 1 outbox ≡ true

module _ (platform : Platform) (old : List Event) where
  append_event-IsGrown :
      (t s : String) (p : EventPayload) (outbox : List Event)
      → IsGrown old outbox
      → IsGrown old (append_event platform t s p outbox)
  unfolding append_event
  append_event-IsGrown t s p outbox g = record {
    extends = (
      g.extends.0 ++ new_event platform t s p outbox ∷ [],
      ap (λ o. o ++ new_event platform t s p outbox ∷ []) g.extends.1
          ∙ append_assoc old g.extends.0 (new_event platform t s p outbox ∷ []),
    );
    in_order = numbered-append 1 outbox (new_event platform t s p outbox) g.in_order (omega arith);
  }

  Transition-IsGrown :
      {l l' : ControlLedger}
      → Transition platform l l'
      → IsGrown old l.outbox
      → IsGrown old l'.outbox
  Transition-IsGrown unchanged g = g
  Transition-IsGrown (claims key sha t s p _) g = append_event-IsGrown t s p _ g
  Transition-IsGrown (issues k v d t s p _ _ _) g = append_event-IsGrown t s p _ g
  Transition-IsGrown (consumes k _) g = append_event-IsGrown _ _ _ _ g
  Transition-IsGrown (enters k v d _ _ _) g = g
  Transition-IsGrown (keeps_back k r _ _ _) g = g
  Transition-IsGrown (reserves k x r _ _ _) g =
      append_event-IsGrown _ _ _ _ (append_event-IsGrown _ _ _ _ g)
  Transition-IsGrown (moves a row next t s p _ _) g = append_event-IsGrown t s p _ g
  Transition-IsGrown {l = l} recovers g =
      recovered_ledger-keeps platform (IsGrown old) append_event-IsGrown l g

  run-keeps :
      (ops : List Op) (l : ControlLedger)
      → IsGrown old l.outbox
      → IsGrown old (run platform ops l).outbox
  run-keeps [] l g = g
  run-keeps (op ∷ ops) l g =
      run-keeps ops (step platform op l).1 (Transition-IsGrown (step-Transition platform l op) g)

module _ (platform : Platform) where
  run-append :
      (ops later : List Op) (l : ControlLedger)
      → run platform (ops ++ later) l ≡ run platform later (run platform ops l)
  run-append [] later l = refl
  run-append (op ∷ ops) later l = run-append ops later (step platform op l).1

  -- On a new ledger, whatever the history of calls, the events are numbered from 1 in their order,
  -- and a longer history only adds events behind the ones that are there.
  pub run-IsGrown :
      (ops later : List Op)
      → IsGrown (run platform ops new_ledger).outbox (run platform (ops ++ later) new_ledger).outbox
  run-IsGrown ops later = rw (run-append ops later new_ledger) (
      run-keeps platform _ later (run platform ops new_ledger) (record {
        extends = ([], sym (append_nil _));
        in_order =
            (run-keeps platform [] ops new_ledger
              (record { extends = ([], refl); in_order = refl })).in_order;
      }))
