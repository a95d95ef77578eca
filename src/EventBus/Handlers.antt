-- ===== src/EventBus/Handlers.antt =====
-- parser/eventbus.go: subscribing and unsubscribing.
pub mod Ids
use mathlib.Core.Path.{subst}
use ircparser.Base.{
  ℕ, suc, ◌≡◌, ◌⊎◌, ◌≢◌, ◌<◌, refl, sym, ap, ◌∙◌, false, List, [], ◌∷◌, ◌++◌, All-insert,
  All-lookup, Dict, lookup, Option, none, some, Eq, insert, lookup-insert, ◌==◌, if◌then◌else◌, All,
  Bool-cases, Option-cases, inl, inr, arith, true,
}
use ircparser.EventBus.{
  HandlerWrapper, EventBus, handlers_of, list_or_nil, subscribe, unsubscribe_by_id, remove_last,
  new_event_bus,
}
use Ids.{
  lookup_list, kept, remove_last-others, others-AreIds, AreIds-suc, AreIds-append,
  remove_last-append, others, AreIds,
}

-- What the callers of the bus ask for.
pub data Change {ℓ} (K : Type 0) (H : Type ℓ) : Type ℓ where
  subscribes : K → H → Change K H
  unsubscribes : K → ℕ → Change K H

module _ {ℓ} {K : Type 0} {H : Type ℓ} ⦃e : Eq K⦄ where
  unsubscribe_lem :
      (eb : EventBus K H) (t : K) (id : ℕ) (u : K)
      → handlers_of (unsubscribe_by_id eb t id) u ≡ (
          if e.beq t u
          then kept (handlers_of eb t) (remove_last id (handlers_of eb t))
          else handlers_of eb u)
  unsubscribe_lem eb t id u = elim (Option-cases (remove_last id (handlers_of eb t))) [
    | inl none_there ↦
        unfold unsubscribe_by_id in
        rw (none_there, unsubscribe_by_id) (same_list (Bool-cases (e.beq t u)))
    | inr (rest, found) ↦
        unfold unsubscribe_by_id in rw (found, unsubscribe_by_id) (lookup_list t u rest eb.handlers)
  ]
    where
      same_list :
          (e.beq t u ≡ true) ⊎ (e.beq t u ≡ false)
          → handlers_of eb u ≡ (if e.beq t u then handlers_of eb t else handlers_of eb u)
      same_list (inl h) = rw h (ap (handlers_of eb) (sym ((e.beq_iff t u).0 h)))
      same_list (inr h) = rw h refl

  -- Unsubscribing an id takes its handler out of the list of the type, if no id stands twice in the
  -- list, and leaves the lists of the other types.
  pub unsubscribe-others :
      (eb : EventBus K H) (n : ℕ) (t : K) (id : ℕ) (u : K)
      → AreIds n (handlers_of eb t)
      → handlers_of (unsubscribe_by_id eb t id) u
        ≡ (if e.beq t u then others id (handlers_of eb t) else handlers_of eb u)
  unsubscribe-others eb n t id u h =
      unsubscribe_lem eb t id u
      ∙ ap (λ ws. if e.beq t u then ws else handlers_of eb u)
          (remove_last-others n id (handlers_of eb t) h)

  -- Unsubscribing a handler just subscribed leaves every type with the handlers that it had.
  unsubscribe-subscribe :
      (eb : EventBus K H) (t : K) (handler : H) (u : K)
      → handlers_of (unsubscribe_by_id (subscribe eb t handler).0 t (subscribe eb t handler).1) u
        ≡ handlers_of eb u
  unfolding subscribe
  unsubscribe-subscribe eb t handler u =
      let w : HandlerWrapper H = record { id = eb.next_id; handler = handler } in
      let eb' = (subscribe eb t handler).0 in
      let added : handlers_of eb' t ≡ handlers_of eb t ++ w ∷ [] =
        lookup_list t t (handlers_of eb t ++ w ∷ []) eb.handlers
        ∙ rw ((e.beq_iff t t).1 refl) refl in
      let back : kept (handlers_of eb' t) (remove_last eb.next_id (handlers_of eb' t))
          ≡ handlers_of eb t =
        ap (λ ws. kept ws (remove_last eb.next_id ws)) added
        ∙ ap (kept (handlers_of eb t ++ w ∷ [])) (remove_last-append (handlers_of eb t) w) in
      unsubscribe_lem eb' t eb.next_id u
      ∙ ap (λ ws. if e.beq t u then ws else handlers_of eb' u) back
      ∙ other (Bool-cases (e.beq t u))
    where
      other :
          (e.beq t u ≡ true) ⊎ (e.beq t u ≡ false)
          → (if e.beq t u then handlers_of eb t else handlers_of (subscribe eb t handler).0 u)
            ≡ handlers_of eb u
      other (inl h) = rw h (ap (handlers_of eb) ((e.beq_iff t u).0 h))
      other (inr h) = unfold subscribe in rw h (lookup_list t u _ eb.handlers ∙ rw h refl)

  -- No list holds an id twice, and all ids are below the next one.
  abbrev pub IsBus : EventBus K H → Type 0
  IsBus eb = All (λ entry. AreIds eb.next_id entry.1) eb.handlers

  handlers_of-AreIds : (eb : EventBus K H) (t : K) → IsBus eb → AreIds eb.next_id (handlers_of eb t)
  handlers_of-AreIds eb t h = elim (Option-cases (lookup t eb.handlers)) [
    | inl no_entry ↦ rw no_entry tt
    | inr (ws, found) ↦ rw found (All-lookup _ t eb.handlers h found)
  ]

  raised :
      (n : ℕ) (m : Dict K (List (HandlerWrapper H)))
      → All (λ entry. AreIds n entry.1) m
      → All (λ entry. AreIds (suc n) entry.1) m
  raised n [] h = tt
  raised n ((k, ws) ∷ m) (hw, h) = (AreIds-suc n ws hw, raised n m h)

  abbrev pub change : EventBus K H → Change K H → EventBus K H
  change eb (subscribes t handler) = (subscribe eb t handler).0
  change eb (unsubscribes t id) = unsubscribe_by_id eb t id

  abbrev pub changes : EventBus K H → List (Change K H) → EventBus K H
  changes eb [] = eb
  changes eb (c ∷ cs) = changes (change eb c) cs

  change-IsBus : (eb : EventBus K H) (c : Change K H) → IsBus eb → IsBus (change eb c)
  unfolding subscribe
  change-IsBus eb (subscribes t handler) h =
      All-insert _ t _ eb.handlers
        (AreIds-append (handlers_of eb t) (record { id = eb.next_id; handler = handler })
          (handlers_of-AreIds eb t h))
        (raised eb.next_id eb.handlers h)
  change-IsBus eb (unsubscribes t id) h = elim (Option-cases (remove_last id (handlers_of eb t))) [
    | inl none_there ↦ unfold unsubscribe_by_id in rw (none_there, unsubscribe_by_id) h
    | inr (rest, found) ↦
        let left : rest ≡ others id (handlers_of eb t) =
          ap (kept (handlers_of eb t)) (sym found)
          ∙ remove_last-others eb.next_id id (handlers_of eb t) (handlers_of-AreIds eb t h) in
        unfold unsubscribe_by_id in
        rw (found, unsubscribe_by_id)
          (All-insert _ t rest eb.handlers
            (subst (AreIds eb.next_id) (sym left)
              (others-AreIds eb.next_id id (handlers_of eb t) (handlers_of-AreIds eb t h)))
            h)
  ]

  -- Whatever is subscribed and unsubscribed on a new bus, no list holds an id twice, and all ids are
  -- below the one that the next handler gets.
  pub changes-IsBus : (cs : List (Change K H)) → IsBus (changes new_event_bus cs)
  unfolding new_event_bus
  changes-IsBus cs = go new_event_bus cs tt
    where
      go : (eb : EventBus K H) (cs : List (Change K H)) → IsBus eb → IsBus (changes eb cs)
      go eb [] h = h
      go eb (c ∷ cs) h = go (change eb c) cs (change-IsBus eb c h)
