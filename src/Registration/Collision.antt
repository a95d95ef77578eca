-- ===== src/Registration/Collision.antt =====
-- parser/registration.go: nicks that are in use.
use ircparser.Base.{
  equal, ℕ, zero, suc, ◌≡◌, ap, ◌∙◌, true, List, [], ◌∷◌, ◌++◌, append_assoc, append-nil, Bytes,
  codes, none, sym,
}
use ircparser.Event.{NumericData, numeric_data}
use ircparser.Output.{Output, Sender, sent, send_line, outcome}
use ircparser.Registration.{RegistrationHandler, is_active, handle_numeric, send, check_sent}

abbrev collision : List Bytes → NumericData
collision params = record { code = codes "433"; params = params }

module _ (send_error : Sender) where
  -- `n` answers of the server that the nick is in use.
  abbrev collisions : ℕ → List Bytes → RegistrationHandler → RegistrationHandler
  collisions zero params rh = rh
  collisions (suc n) params rh =
      collisions n params (handle_numeric send_error rh (numeric_data (collision params)))

  abbrev repeated : ℕ → Output → List Output
  repeated zero o = []
  repeated (suc n) o = o ∷ repeated n o

  one_collision :
      (params : List Bytes) (rh : RegistrationHandler)
      → is_active rh.state ≡ true
      → ((output : List Output) (line : List Bytes) → send_error output line ≡ none)
      → handle_numeric send_error rh (numeric_data (collision params)) ≡ record rh {
        output = rh.output ++ sent (codes "NICK" ∷ (rh.config.nick ++ codes "_") ∷ []) ∷ [];
      }
  unfolding handle_numeric send send_line equal
  one_collision params rh active accepts =
      let line = codes "NICK" ∷ (rh.config.nick ++ codes "_") ∷ [] in
      rw (active, handle_numeric)
        (ap (λ r. (check_sent send_error rh (codes "NICK command for collision") r).0)
          (ap (outcome rh.output line) (accepts rh.output line)))

  repeated-append :
      (n : ℕ) (o : Output) (before : List Output)
      → (before ++ o ∷ []) ++ repeated n o ≡ before ++ repeated (suc n) o
  repeated-append n o before = append_assoc before (o ∷ []) (repeated n o)

  -- Every answer that the nick is in use is met with the same line, the configured nick with one
  -- underscore: nothing else changes, and a second collision is answered as the first was.
  collisions_repeat :
      (n : ℕ) (params : List Bytes) (rh : RegistrationHandler)
      → is_active rh.state ≡ true
      → ((output : List Output) (line : List Bytes) → send_error output line ≡ none)
      → collisions n params rh ≡ record rh {
        output = rh.output ++ repeated n (sent (codes "NICK" ∷ (rh.config.nick ++ codes "_") ∷ []));
      }
  collisions_repeat zero params rh active accepts =
      ap (λ o. record rh { output = o }) (sym (append-nil rh.output))
  collisions_repeat (suc n) params rh active accepts =
      let line = sent (codes "NICK" ∷ (rh.config.nick ++ codes "_") ∷ []) in
      ap (collisions n params) (one_collision params rh active accepts)
      ∙ collisions_repeat n params (record rh { output = rh.output ++ line ∷ [] }) active accepts
      ∙ ap (λ o. record rh { output = o }) (repeated-append n line rh.output)
