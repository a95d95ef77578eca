-- ===== src/Event/Shape.antt =====
-- Which events a message becomes.
use ircparser.Base.{
  ◌<◌, ◌≡◌, ◌≢◌, ◌↔◌, refl, sym, ap, ◌∙◌, Bool, true, false, List, [], ◌∷◌, ◌++◌, Bytes, codes,
  equal, equal_iff, length, Option, none, some, All, Lacks, arith, Bool-cases, inl, inr,
  take-append_length,
}
use ircparser.Text.Split.{index-append, index-Lacks}
use ircparser.Message.{Message}
use ircparser.Event.{EventType, mode}
use ircparser.Event.Classify.{
  event_types, determine_event_type, talk_types, numeric_types, cap_types, extract_nick,
}
use ircparser.Event.Create.{Env, event_data, events_of, create_events}

abbrev pub is_some {ℓ} : {A : Type ℓ} → Option A → Bool
is_some none = false
is_some (some _) = true

abbrev NoMode : List EventType → Type 0
NoMode = All (λ t. t ≢ mode)

cap_types-NoMode : (m : Message) → NoMode (cap_types m)
unfolding cap_types
cap_types-NoMode m = ground arith

numeric_types-NoMode : (m : Message) → NoMode (numeric_types m)
unfolding numeric_types
numeric_types-NoMode m = ground arith

talk_types-NoMode : (m : Message) → NoMode (talk_types m)
unfolding talk_types
talk_types-NoMode m = ground (arith, cap_types-NoMode m, numeric_types-NoMode m)

event_types-NoMode : (m : Message) → equal m.command (codes "MODE") ≡ false → NoMode (event_types m)
unfolding event_types
event_types-NoMode m h = ground (arith, talk_types-NoMode m)

event_types_mode : (m : Message) → m.command ≡ codes "MODE" → event_types m ≡ mode ∷ []
unfolding event_types equal
event_types_mode m h = rw h

module _ (env : Env) where
  event_data_some : (t : EventType) (m : Message) → t ≢ mode → is_some (event_data env t m) ≡ true
  unfolding event_data
  event_data_some EventType.mode m h = absurd (h refl)
  event_data_some _ m h = refl

  events_of-some :
      (m : Message) (ts : List EventType) → NoMode ts → is_some (events_of env (some m) ts) ≡ true
  unfolding events_of
  events_of-some m [] h = refl
  events_of-some m (t ∷ ts) (h, hs) = ground (arith, event_data_some t m h, events_of-some m ts hs)

  events_of_mode :
      (m : Message) → (events_of env (some m) (mode ∷ []) ≡ none) ↔ (length m.params < 2)
  unfolding events_of event_data
  events_of_mode m = ground arith

  none_is_not_some : ◌≢◌ {A = Bool} false true
  none_is_not_some h = cc

  -- Making the events of a message panics exactly at MODE with fewer than two parameters.
  pub create_panics :
      (m : Message)
      → (create_events env (some m) ≡ none) ↔ ((m.command ≡ codes "MODE") × (length m.params < 2))
  unfolding create_events determine_event_type
  create_panics m = elim (Bool-cases (equal m.command (codes "MODE"))) [
    | inl is_mode ↦
        let e : m.command ≡ codes "MODE" = (equal_iff _ _).0 is_mode in
        let p : create_events env (some m) ≡ events_of env (some m) (mode ∷ []) =
          ap (events_of env (some m)) (event_types_mode m e) in
        (λ h. (e, (events_of_mode m).0 (sym p ∙ h)), λ h. p ∙ (events_of_mode m).1 h.1)
    | inr other ↦
        let made = events_of-some m (event_types m) (event_types-NoMode m other) in
        (
          λ h. absurd (none_is_not_some (sym (ap is_some h) ∙ made)),
          λ h. absurd (none_is_not_some (sym other ∙ (equal_iff _ _).1 h.0)),
        )
  ]

-- Every message becomes at least one event.
determine-ne-nil : (m : Option Message) → determine_event_type m ≢ []
unfolding determine_event_type event_types talk_types cap_types numeric_types
determine-ne-nil none = cc
determine-ne-nil (some m) = ground arith

-- The nick of a source is what stands before the first exclamation mark, or all of it.
pub extract_nick-append :
    (n host : Bytes) → Lacks b'!' n → (extract_nick (n ++ b'!' ∷ host) ≡ n) × (extract_nick n ≡ n)
unfolding extract_nick
extract_nick-append n host h = (
  rw (index-append b'!' n host h, extract_nick) (take-append_length n (b'!' ∷ host)),
  rw (index-Lacks b'!' n h, extract_nick),
)
