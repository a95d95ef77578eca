-- ===== src/Capabilities/Progress.antt =====
-- parser/capabilities.go: the server's answers bring the negotiation to its end.
pub mod Endings
use ircparser.Base.{
  ℕ, ◌+◌, ◌++◌, ◌<◌, ◌≤◌, ◌≡◌, ◌≢◌, ◌⊎◌, refl, sym, ap, ◌∙◌, Bool, true, false, ◌||◌, List, [], ◌∷◌,
  Bytes, equal, equal_self, Dict, bytes_eq, lookup, lookup-delete, lookup-cons, Option, none, some,
  if◌then◌else◌, Bool-cases, inl, inr, arith, length, length-append,
}
use ircparser.Text.Runes.{fields}
use ircparser.Message.{Message, get_trailing}
use ircparser.Event.{EventType, cap_added_data, cap_pre_end_data}
use ircparser.Output.{Output, sent, refused, emitted}
use ircparser.Capabilities.{
  CapabilitiesHandler, fresh, is_empty, is_among, add_capability, remove_pending_capability,
  has_pending_capabilities, acknowledge, give_up, check_end_negotiation, end_capability_negotiation,
  emit, handle_cap_ack, handle_cap_nak, get_active_caps, get_capability_values,
}
use mathlib.Core.Path.{subst}
use Endings.{endings, endings-append, Keeps, Ends, check-Keeps, check-Ends}

-- The server's answers to requests.
pub data Answer : Type 0 where
  acks naks : Message → Answer

abbrev pub answer : CapabilitiesHandler → Answer → CapabilitiesHandler
answer ch (acks m) = handle_cap_ack ch (some m)
answer ch (naks m) = handle_cap_nak ch (some m)

abbrev pub message_of : Answer → Message
message_of (acks m) = m
message_of (naks m) = m

abbrev pub answers : CapabilitiesHandler → List Answer → CapabilitiesHandler
answers ch [] = ch
answers ch (a ∷ rest) = answers (answer ch a) rest

-- Every capability of the list is in one of the answers.
abbrev pub answered : Bytes → List Answer → Bool
answered name [] = false
answered name (a ∷ rest) =
    is_among name (fields (get_trailing (message_of a))) || answered name rest

-- An answer before the test for the end.
abbrev taken : CapabilitiesHandler → Answer → CapabilitiesHandler
taken ch (acks m) = acknowledge ch (fields (get_trailing m))
taken ch (naks m) = give_up ch (fields (get_trailing m))

answer_lem :
    (ch : CapabilitiesHandler) (a : Answer)
    → ch.negotiating ≡ true
    → answer ch a ≡ check_end_negotiation (taken ch a)
unfolding handle_cap_ack handle_cap_nak
answer_lem ch (acks m) h = rw h refl
answer_lem ch (naks m) h = rw h refl

-- What the loops over the capabilities of an answer do to the rest of the state.
record Clears (ch : CapabilitiesHandler) (caps : List Bytes) (ch' : CapabilitiesHandler)
    : Type 0 where
  negotiates : ch'.negotiating ≡ ch.negotiating
  waits : ch'.waiters ≡ ch.waiters
  emits : endings ch'.output ≡ endings ch.output
  pends :
      (name : Bytes)
      → lookup name ch'.pending ≡ (if is_among name caps then none else lookup name ch.pending)

acknowledge-Clears :
    (ch : CapabilitiesHandler) (caps : List Bytes) → Clears ch caps (acknowledge ch caps)
unfolding acknowledge is_among
acknowledge-Clears ch [] = record {
  negotiates = refl;
  waits = refl;
  emits = refl;
  pends = λ name. refl;
}
acknowledge-Clears ch (cap ∷ caps) =
    let next =
      emit (remove_pending_capability (add_capability ch cap) cap) EventType.cap_added
        (cap_added_data cap) in
    let c = acknowledge-Clears next caps in
    record {
      negotiates =
          c.negotiates ∙ unfold emit remove_pending_capability add_capability in ground arith;
      waits = c.waits ∙ unfold emit remove_pending_capability add_capability in ground arith;
      emits = c.emits ∙ emits_next;
      pends = λ name. c.pends name ∙ pending_next name;
    }
  where
    emits_next :
        endings
          (emit
            (remove_pending_capability (add_capability ch cap) cap)
            EventType.cap_added
            (cap_added_data cap)).output
        ≡ endings ch.output
    emits_next =
        unfold emit remove_pending_capability add_capability in
        ground
          (arith, endings-append ch.output (emitted EventType.cap_added (cap_added_data cap) ∷ []))

    pending_next :
        (name : Bytes)
        → (if is_among name caps
            then none
            else lookup name
                (emit
                  (remove_pending_capability (add_capability ch cap) cap)
                  EventType.cap_added
                  (cap_added_data cap)).pending)
          ≡ (if equal cap name || is_among name caps then none else lookup name ch.pending)
    pending_next name =
        unfold emit remove_pending_capability add_capability in
        ground (arith, lookup-delete cap name ch.pending)

give_up-Clears : (ch : CapabilitiesHandler) (caps : List Bytes) → Clears ch caps (give_up ch caps)
unfolding give_up is_among remove_pending_capability
give_up-Clears ch [] = record {
  negotiates = refl;
  waits = refl;
  emits = refl;
  pends = λ name. refl;
}
give_up-Clears ch (cap ∷ caps) =
    let c = give_up-Clears (remove_pending_capability ch cap) caps in
    record {
      negotiates = c.negotiates;
      waits = c.waits;
      emits = c.emits;
      pends = λ name. c.pends name ∙ ground (arith, lookup-delete cap name ch.pending);
    }

taken-Clears :
    (ch : CapabilitiesHandler) (a : Answer)
    → Clears ch (fields (get_trailing (message_of a))) (taken ch a)
taken-Clears ch (acks m) = acknowledge-Clears ch (fields (get_trailing m))
taken-Clears ch (naks m) = give_up-Clears ch (fields (get_trailing m))

nothing_pending : (m : Dict Bytes Bool) → ((name : Bytes) → lookup name m ≡ none) → m ≡ []
nothing_pending [] h = refl
nothing_pending ((k, v) ∷ m) h =
    absurd (some_is_not_none (sym (lookup-cons k k v m ∙ rw (equal_self k)) ∙ h k))
  where
    some_is_not_none : some v ≢ none
    some_is_not_none h = cc

check-negotiating :
    (ch : CapabilitiesHandler) → (check_end_negotiation ch).negotiating ≡ ch.negotiating
unfolding check_end_negotiation end_capability_negotiation emit
check-negotiating ch = ground arith

check-pending : (ch : CapabilitiesHandler) → (check_end_negotiation ch).pending ≡ ch.pending
unfolding check_end_negotiation end_capability_negotiation emit
check-pending ch = ground arith

-- What one answer does.
record Answers (ch : CapabilitiesHandler) (a : Answer) (ch' : CapabilitiesHandler) : Type 0 where
  negotiates : ch'.negotiating ≡ true
  pends :
      (name : Bytes)
      → lookup name ch'.pending ≡ (
          if is_among name (fields (get_trailing (message_of a)))
          then none
          else lookup name ch.pending)
  keeps : Keeps ch ch'
  ends : ((name : Bytes) → lookup name ch'.pending ≡ none) → Ends ch ch'

answer-Answers :
    (ch : CapabilitiesHandler) (a : Answer) → ch.negotiating ≡ true → Answers ch a (answer ch a)
answer-Answers ch a h =
    let c = taken-Clears ch a in
    let ch₁ = taken ch a in
    subst (Answers ch a) (sym (answer_lem ch a h)) (record {
      negotiates = check-negotiating ch₁ ∙ c.negotiates ∙ h;
      pends = λ name. ap (lookup name) (check-pending ch₁) ∙ c.pends name;
      keeps = (
        omega (arith, ap length c.waits, (check-Keeps ch₁).0),
        omega (arith, c.emits, (check-Keeps ch₁).1),
      );
      ends = λ none_left.
          let empty =
            nothing_pending ch₁.pending
              (λ name. ap (lookup name) (sym (check-pending ch₁)) ∙ none_left name) in
          let last = check-Ends ch₁ (c.negotiates ∙ h) empty in
          (omega (arith, ap length c.waits, last.0), omega (arith, c.emits, last.1));
    })

still_pending :
    (l : List Answer) (name : Bytes) (a : Answer) (before after : Option Bool)
    → after ≡ (if is_among name (fields (get_trailing (message_of a))) then none else before)
    → (answered name (a ∷ l) ≡ false → before ≡ none)
    → answered name l ≡ false
    → after ≡ none
still_pending l name a before after e h no_answer =
    e ∙ gone (Bool-cases (is_among name (fields (get_trailing (message_of a)))))
  where
    gone :
        (is_among name (fields (get_trailing (message_of a))) ≡ true
          ⊎ is_among name (fields (get_trailing (message_of a))) ≡ false)
        → (if is_among name (fields (get_trailing (message_of a))) then none else before) ≡ none
    gone (inl among) = rw among refl
    gone (inr apart) = rw apart (h (rw apart no_answer))

-- Once the server has answered every pending request, by ACK or NAK, in any order and in as many
-- lines as it likes, the negotiation comes to its end: the event before the end has been emitted once
-- more or oftener, and more goroutines wait for the handlers than before.
pub answers-end :
    (ch : CapabilitiesHandler) (a : Answer) (rest : List Answer)
    → ch.negotiating ≡ true
    → ((name : Bytes) → answered name (a ∷ rest) ≡ false → lookup name ch.pending ≡ none)
    → Ends ch (answers ch (a ∷ rest))
answers-end ch a [] h all = (answer-Answers ch a h).ends (λ name.
    still_pending [] name a (lookup name ch.pending) (lookup name (answer ch a).pending)
      ((answer-Answers ch a h).pends name) (all name) refl)
answers-end ch a (b ∷ rest) h all =
    let s = answer-Answers ch a h in
    let last = answers-end (answer ch a) b rest s.negotiates (λ name.
      still_pending (b ∷ rest) name a (lookup name ch.pending) (lookup name (answer ch a).pending)
        (s.pends name) (all name)) in
    (omega (arith, s.keeps.0, last.0), omega (arith, s.keeps.1, last.1))
