-- ===== src/EventBus/Queue/Stuck.antt =====
-- parser/eventbus.go: a handler that emits while the queue is full.
use mathlib.Core.Path.{subst}
use ircparser.Base.{
  ◌<◌, ◌+◌, length-append, ltb, ◌≤◌, ◌≡◌, ◌≢◌, refl, sym, ap, ◌∙◌, true, false, List, [], ◌∷◌, ◌++◌,
  none, some, length, arith, Bool-cases, inl, inr,
}
use ircparser.EventBus.Queue.{
  Loop, Step, Run, accepts, gives_up, dispatches, handler_emits, handler_gives_up, handlers_return,
  cancels, stops, closes, goes, ends,
}

-- The queue is full, and a handler in the loop has an event to emit.
pub record IsStuck {ℓ} {E : Type ℓ} (l : Loop E) : Type ℓ where
  pub full : 100 ≤ length l.queue
  pub event : E
  pub events : List E
  pub waits : l.emitting ≡ some (event ∷ events)

true_is_not_false : true ≢ false
true_is_not_false h = cc

module _ {ℓ} {E : Type ℓ} where
  some_is_not_none : (es : List E) → some es ≢ none
  some_is_not_none es h = cc

  cons_is_not_nil : (e : E) (es : List E) → some (e ∷ es) ≢ some []
  cons_is_not_nil e es h = cc

  -- A step that is not the end of the context changes nothing.
  Step-IsStuck :
      {l m : Loop E} {a b : List E}
      → Step l a b m
      → IsStuck l
      → l.cancelled ≡ false
      → m.cancelled ≡ false
      → (m ≡ l) × (a ≡ []) × (b ≡ [])
  Step-IsStuck (accepts l e o h) s c k = let f = s.full in absurd (omega arith)
  Step-IsStuck (gives_up l h) s c k = (refl, refl, refl)
  Step-IsStuck (dispatches l e rest es r i q) s c k = absurd (some_is_not_none _ (sym s.waits ∙ i))
  Step-IsStuck (handler_emits l e es i h) s c k = let f = s.full in absurd (omega arith)
  Step-IsStuck (handler_gives_up l e es i h) s c k = absurd (true_is_not_false (sym h ∙ c))
  Step-IsStuck (handlers_return l i) s c k = absurd (cons_is_not_nil _ _ (sym s.waits ∙ i))
  Step-IsStuck (cancels l) s c k = absurd (true_is_not_false k)
  Step-IsStuck (stops l h i) s c k = absurd (true_is_not_false (sym h ∙ c))
  Step-IsStuck (closes l h r o) s c k = absurd (true_is_not_false (sym h ∙ c))

  Step-cancelled :
      {l m : Loop E} {a b : List E} → Step l a b m → l.cancelled ≡ true → m.cancelled ≡ true
  Step-cancelled (accepts l e o h) c = c
  Step-cancelled (gives_up l h) c = c
  Step-cancelled (dispatches l e rest es r i q) c = c
  Step-cancelled (handler_emits l e es i h) c = c
  Step-cancelled (handler_gives_up l e es i h) c = c
  Step-cancelled (handlers_return l i) c = c
  Step-cancelled (cancels l) c = refl
  Step-cancelled (stops l h i) c = c
  Step-cancelled (closes l h r o) c = c

  Run-cancelled :
      {l n : Loop E} {a b : List E} → Run l a b n → l.cancelled ≡ true → n.cancelled ≡ true
  Run-cancelled (ends l) c = c
  Run-cancelled (goes s r) c = Run-cancelled r (Step-cancelled s c)

  -- When a handler emits while the queue is full, the bus stands still until its context is
  -- cancelled, whatever the other goroutines do: no event gets into the queue and none is handed
  -- out.
  pub Run-IsStuck :
      {l n : Loop E} {a b : List E}
      → Run l a b n
      → IsStuck l
      → n.cancelled ≡ false
      → (n ≡ l) × (a ≡ []) × (b ≡ [])
  Run-IsStuck (ends l) s k = (refl, refl, refl)
  Run-IsStuck (goes {l} {m} {n} {a} {b} {c} {d} step run) s k = elim (Bool-cases m.cancelled) [
    | inl over ↦ absurd (true_is_not_false (sym (Run-cancelled run over) ∙ k))
    | inr on ↦ elim (Bool-cases l.cancelled) [
      | inl over ↦ absurd (true_is_not_false (sym (Step-cancelled step over) ∙ on))
      | inr going ↦
          let (same, none_in, none_out) = Step-IsStuck step s going on in
          let (same', none_in', none_out') = Run-IsStuck run (subst IsStuck (sym same) s) k in
          (same' ∙ same, ap (λ r. r ++ c) none_in ∙ none_in', ap (λ r. r ++ d) none_out ∙ none_out')
    ]
  ]

  -- A handler that emits more events than there is room for comes to stand.
  pub fills :
      (l : Loop E) (es : List E)
      → l.emitting ≡ some es
      → length l.queue ≤ 100
      → 100 < length l.queue + length es
      → (n : Loop E) × (a : List E) × Run l a [] n × IsStuck n × (n.cancelled ≡ l.cancelled)
  fills l [] i h more = absurd (omega arith)
  fills l (e ∷ es) i h more = elim (Bool-cases (ltb (length l.queue) 100)) [
    | inl room ↦
        let l' = record l { queue = l.queue ++ e ∷ []; emitting = some es } in
        let grown : length l'.queue ≡ length l.queue + 1 = length-append l.queue (e ∷ []) in
        let small : length l.queue < 100 = ground arith in
        let (n, a, run, stuck, same) = fills l' es refl (omega arith) (omega arith) in
        (n, e ∷ a, goes (handler_emits l e es i small) run, stuck, same)
    | inr no_room ↦
        (l, [], ends l, record { full = ground arith; event = e; events = es; waits = i }, refl)
  ]
