-- ===== src/EventBus/Tests.antt =====
-- The properties of the event bus at fixed uses.
use ircparser.Base.{
  zero, suc, none, some, ℕ, ◌≡◌, refl, true, false, List, [], ◌∷◌, nat_eq, arith, lookup,
}
use ircparser.EventBus.{EventBus, new_event_bus, unsubscribe_by_id, handlers_of}
use ircparser.EventBus.Handlers.{
  unsubscribe-others, changes-IsBus, changes, IsBus, subscribes, unsubscribes,
}
use ircparser.EventBus.Handlers.Ids.{others}
use ircparser.EventBus.Queue.Stuck.{Run-IsStuck}
use ircparser.EventBus.Queue.{Loop, ends}

-- Three handlers of the event 7.
abbrev three : EventBus ℕ ℕ
three = record {
  handlers =
      (
        7,
        record { id = 0; handler = 10 }
            ∷ record { id = 1; handler = 11 }
            ∷ record { id = 2; handler = 12 }
            ∷ [],
      )
      ∷ [];
  next_id = 3;
}

unsubscribe-others_example :
    handlers_of (unsubscribe_by_id three 7 1) 7 ≡ others 1 (handlers_of three 7)
unfolding lookup
unsubscribe-others_example = unsubscribe-others three 3 7 1 7 (omega arith)

changes-IsBus_example : IsBus (
    changes {K = ℕ} {H = ℕ} new_event_bus
      (subscribes 7 10 ∷ subscribes 7 11 ∷ unsubscribes 7 0 ∷ []))
changes-IsBus_example = changes-IsBus (subscribes 7 10 ∷ subscribes 7 11 ∷ unsubscribes 7 0 ∷ [])

abbrev at_rest : List ℕ → Loop ℕ
at_rest q = record { queue = q; emitting = none; cancelled = false; running = true; closed = false }

abbrev repeat : ℕ → List ℕ
repeat zero = []
repeat (suc n) = n ∷ repeat n

-- A handler has to emit while 100 events are in the queue.
abbrev full_bus : Loop ℕ
full_bus = record (at_rest (repeat 100)) { emitting = some (7 ∷ []) }

abbrev nothing : List ℕ
nothing = []

Run-IsStuck_example : (full_bus ≡ full_bus) × (nothing ≡ []) × (nothing ≡ [])
Run-IsStuck_example =
    Run-IsStuck (ends full_bus)
      (record { full = omega arith; event = 7; events = nothing; waits = refl }) refl
