-- ===== src/EventBus.antt =====
-- parser/eventbus.go: the bus that hands events to their handlers, for any type of keys (EventType
-- in the code), of events and of what the handlers change. Locks are left out: an operation is one
-- step.
pub mod Handlers
pub mod Queue
mod Tests
use ircparser.Base.{
  ℕ, suc, Bool, true, false, List, [], ◌∷◌, ◌++◌, Option, none, some, Dict, Eq, lookup, insert,
  ◌==◌, if◌then◌else◌, length,
}

-- What a handler ends with: it returns or it panics, and what it did until then stays done.
pub data Outcome {ℓ} (S : Type ℓ) : Type ℓ where
  done panicked : S → Outcome S

pub record HandlerWrapper {ℓ} (H : Type ℓ) : Type ℓ where
  pub id : ℕ
  pub handler : H

pub record EventBus {ℓ} (K : Type 0) (H : Type ℓ) : Type ℓ where
  pub handlers : Dict K (List (HandlerWrapper H))
  pub next_id : ℕ

module _ {ℓ} {H : Type ℓ} where
  abbrev pub list_or_nil : Option (List (HandlerWrapper H)) → List (HandlerWrapper H)
  list_or_nil none = []
  list_or_nil (some ws) = ws

  -- The list without its last entry of the id, if it has one.
  unfoldable pub remove_last : ℕ → List (HandlerWrapper H) → Option (List (HandlerWrapper H))
  remove_last id [] = none
  remove_last id (w ∷ ws) = elim (remove_last id ws) [
    | none ↦ if w.id == id then some ws else none
    | some rest ↦ some (w ∷ rest)
  ]

module _ {ℓ} {K : Type 0} {H : Type ℓ} ⦃e : Eq K⦄ where
  unfoldable pub new_event_bus : EventBus K H
  new_event_bus = record { handlers = []; next_id = 0 }

  -- eb.handlers[eventType], nil for a missing key
  abbrev pub handlers_of : EventBus K H → K → List (HandlerWrapper H)
  handlers_of eb type = list_or_nil (lookup type eb.handlers)

  unfoldable pub subscribe : EventBus K H → K → H → EventBus K H × ℕ
  subscribe eb type handler = (
    record eb {
      handlers =
          insert type (handlers_of eb type ++ record { id = eb.next_id; handler = handler } ∷ [])
            eb.handlers;
      next_id = suc eb.next_id;
    },
    eb.next_id,
  )

  unfoldable pub count_listeners : EventBus K H → K → ℕ
  count_listeners eb type = length (handlers_of eb type)

  unfoldable pub unsubscribe_by_id : EventBus K H → K → ℕ → EventBus K H
  unsubscribe_by_id eb type id = elim (remove_last id (handlers_of eb type)) [
    | none ↦ eb
    | some rest ↦ record eb { handlers = insert type rest eb.handlers }
  ]

abbrev pub after {ℓ} : {S : Type ℓ} → Outcome S → S
after (done s) = s
after (panicked s) = s

-- The loop of dispatchEvent over its copy of the list: a panic of a handler does not reach the
-- next one.
module _ {ℓ κ} {E : Type κ} {S : Type ℓ} where
  unfoldable pub run_handlers : List (HandlerWrapper (E → S → Outcome S)) → E → S → S
  run_handlers [] event s = s
  run_handlers (w ∷ ws) event s = run_handlers ws event (after (w.handler event s))
