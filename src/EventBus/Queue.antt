-- ===== src/EventBus/Queue.antt =====
-- parser/eventbus.go: the queue between Emit and the event loop, as a relation on its states. The
-- handlers run in the loop itself, so what they emit goes into the queue that the loop empties.
pub mod Stuck
use ircparser.Base.{
  arith, ◌≤◌, length-append, length, ◌<◌, ◌≡◌, refl, sym, ap, ◌∙◌, Bool, true, false, List, [], ◌∷◌,
  ◌++◌, append_assoc, append-nil, Option, none, some,
}

-- `emitting` is what the handlers of an event that was handed out have still to emit, and none while
-- the loop waits for the next event. `closed` says that the channel is closed.
pub record Loop {ℓ} (E : Type ℓ) : Type ℓ where
  pub queue : List E
  pub emitting : Option (List E)
  pub cancelled : Bool
  pub running : Bool
  pub closed : Bool

-- A step: the events that Emit put into the queue, the events that the loop handed to
-- dispatchEvent. Emit waits while the queue is full and gives its event up when the context is
-- cancelled; the loop may go on until it sees that the context is cancelled. The handlers of an
-- event may emit anything. Close closes the channel behind the end of the loop; an Emit that is late
-- then gives up, or it panics, which is no step.
pub data Step {ℓ} {E : Type ℓ} : Loop E → List E → List E → Loop E → Type ℓ where
  accepts :
      (l : Loop E) (e : E)
      → l.closed ≡ false
      → length l.queue < 100
      → Step l (e ∷ []) [] (record l { queue = l.queue ++ e ∷ [] })
  gives_up : (l : Loop E) → l.cancelled ≡ true → Step l [] [] l
  dispatches :
      (l : Loop E) (e : E) (rest es : List E)
      → l.running ≡ true
      → l.emitting ≡ none
      → l.queue ≡ e ∷ rest
      → Step l [] (e ∷ []) (record l { queue = rest; emitting = some es })
  handler_emits :
      (l : Loop E) (e : E) (es : List E)
      → l.emitting ≡ some (e ∷ es)
      → length l.queue < 100
      → Step l (e ∷ []) [] (record l { queue = l.queue ++ e ∷ []; emitting = some es })
  handler_gives_up :
      (l : Loop E) (e : E) (es : List E)
      → l.emitting ≡ some (e ∷ es)
      → l.cancelled ≡ true
      → Step l [] [] (record l { emitting = some es })
  handlers_return :
      (l : Loop E) → l.emitting ≡ some [] → Step l [] [] (record l { emitting = none })
  cancels : (l : Loop E) → Step l [] [] (record l { cancelled = true })
  stops :
      (l : Loop E)
      → l.cancelled ≡ true
      → l.emitting ≡ none
      → Step l [] [] (record l { running = false })
  closes :
      (l : Loop E)
      → l.cancelled ≡ true
      → l.running ≡ false
      → l.closed ≡ false
      → Step l [] [] (record l { closed = true })

pub data Run {ℓ} {E : Type ℓ} : Loop E → List E → List E → Loop E → Type ℓ where
  ends : (l : Loop E) → Run l [] [] l
  goes :
      {l m n : Loop E} {a b c d : List E} → Step l a b m → Run m c d n → Run l (a ++ c) (b ++ d) n
