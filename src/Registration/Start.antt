-- ===== src/Registration/Start.antt =====
-- parser/registration.go: what Start sends.
use mathlib.Core.Path.{subst}
use ircparser.Base.{
  sym, ◌∙◌, true, false, append-nil, ◌≡◌, refl, ap, Bool, List, [], ◌∷◌, ◌++◌, map, append_assoc,
  Bytes, codes, ◌⊎◌, inl, inr, Option-cases,
}
use ircparser.Config.{ConnectionConfig}
use ircparser.Event.{EventType, error_data}
use mathlib.Core.List.{map-append}
use ircparser.Output.{Sender, sent, refused, emitted, send_line, outcome}
use ircparser.Registration.{
  RegistrationHandler, RegistrationState, is_active, start, send, send_pass,
  send_registration_commands, check_sent, send_next, fail, emit,
}

-- The lines that register a client, in their order.
abbrev pub pass_lines : Bytes → List (List Bytes)
pass_lines [] = []
pass_lines (b ∷ bs) = (codes "PASS" ∷ (b ∷ bs) ∷ []) ∷ []

abbrev pub registration_lines : ConnectionConfig → List (List Bytes)
registration_lines config =
    pass_lines config.password
    ++ (codes "NICK" ∷ config.nick ∷ [])
      ∷ (codes "USER" ∷ config.username ∷ codes "0" ∷ codes "*" ∷ config.realname ∷ [])
      ∷ []

-- All lines were sent, or those up to one that was refused: then the state is failed, and an error
-- event tells of it.
abbrev pub Refused : RegistrationHandler → List (List Bytes) → RegistrationHandler → Type 0
Refused rh lines rh' =
    (first : List (List Bytes)) × (line : List Bytes) × (left : List (List Bytes)) × (text : Bytes)
    × (lines ≡ first ++ line ∷ left)
    × (rh' ≡ record rh {
      state = RegistrationState.failed;
      output =
          rh.output
          ++ (map sent first ++ refused line ∷ emitted EventType.error (error_data text) ∷ []);
    })

abbrev pub Sends : RegistrationHandler → List (List Bytes) → RegistrationHandler × Bool → Type 0
Sends rh lines r =
    (r ≡ (record rh { output = rh.output ++ map sent lines }, true))
    ⊎ ((r.1 ≡ false) × Refused rh lines r.0)

module _ (send_error : Sender) where
  send-Sends :
      (rh : RegistrationHandler) (what : Bytes) (line : List Bytes)
      → Sends rh (line ∷ []) (send send_error rh what line)
  unfolding send send_line fail emit
  send-Sends rh what line = elim (Option-cases (send_error rh.output line)) [
    | inl e ↦ inl (ap (check_sent send_error rh what) (ap (outcome rh.output line) e))
    | inr (text, e) ↦
        let r = ap (check_sent send_error rh what) (ap (outcome rh.output line) e) in
        inr (
          ap (λ (r : RegistrationHandler × Bool). r.1) r,
          (
            [],
            line,
            [],
            _,
            refl,
            ap (λ (r : RegistrationHandler × Bool). r.0) r
                ∙ ap (λ o. record rh { state = RegistrationState.failed; output = o })
                    (append_assoc rh.output (refused line ∷ []) _),
          ),
        )
  ]

  -- What was sent before is in front of what is sent then.
  behind-Sends :
      (rh : RegistrationHandler) (lines : List (List Bytes)) (line : List Bytes)
      (r : RegistrationHandler × Bool)
      → Sends (record rh { output = rh.output ++ map sent lines }) (line ∷ []) r
      → Sends rh (lines ++ line ∷ []) r
  behind-Sends rh lines line r (inl e) = inl (
      e
      ∙ ap (λ o. (record rh { output = o }, true))
          (append_assoc rh.output (map sent lines) _
            ∙ ap (λ o. rh.output ++ o) (sym (map-append sent lines (line ∷ [])))))
  behind-Sends rh lines line r (inr (stopped, (first, l, left, text, eq, out))) = inr (
    stopped,
    (
      lines ++ first,
      l,
      left,
      text,
      ap (λ k. lines ++ k) eq ∙ sym (append_assoc lines first (l ∷ left)),
      out
          ∙ ap (λ o. record rh { state = RegistrationState.failed; output = o })
              (append_assoc rh.output (map sent lines) _
                ∙ ap (λ o. rh.output ++ o)
                    (sym (append_assoc (map sent lines) (map sent first) _)
                      ∙ ap (λ o. o ++ refused l ∷ emitted EventType.error (error_data text) ∷ [])
                          (sym (map-append sent lines first)))),
    ),
  )

  -- One line more behind what was sent.
  send_next-Sends :
      (rh : RegistrationHandler) (lines : List (List Bytes)) (what : Bytes) (line : List Bytes)
      (r : RegistrationHandler × Bool)
      → Sends rh lines r
      → Sends rh (lines ++ line ∷ []) (send_next send_error r what line)
  send_next-Sends rh lines what line r (inl e) =
      subst (λ r. Sends rh (lines ++ line ∷ []) (send_next send_error r what line)) (sym e)
        (behind-Sends rh lines line _
          (send-Sends (record rh { output = rh.output ++ map sent lines }) what line))
  send_next-Sends rh lines what line (rh', true) (inr (stopped, failed)) = cc stopped
  send_next-Sends rh lines what line (rh', false) (inr (stopped, (first, l, left, text, eq, out))) =
      inr (
        refl,
        (
          first,
          l,
          left ++ line ∷ [],
          text,
          ap (λ k. k ++ line ∷ []) eq ∙ append_assoc first (l ∷ left) (line ∷ []),
          out,
        ),
      )

  pass-Sends :
      (rh : RegistrationHandler) (password : Bytes)
      → Sends rh (pass_lines password) (send_pass send_error rh password)
  unfolding send_pass
  pass-Sends rh [] = inl (ap (λ o. (record rh { output = o }, true)) (sym (append-nil rh.output)))
  pass-Sends rh (b ∷ bs) = send-Sends rh (codes "PASS command") (codes "PASS" ∷ (b ∷ bs) ∷ [])

  commands-Sends :
      (rh : RegistrationHandler)
      → (r : RegistrationHandler × Bool) × (r.0 ≡ send_registration_commands send_error rh)
        × Sends rh (registration_lines rh.config) r
  unfolding send_registration_commands
  commands-Sends rh =
      let nick = codes "NICK" ∷ rh.config.nick ∷ [] in
      let user =
        codes "USER" ∷ rh.config.username ∷ codes "0" ∷ codes "*" ∷ rh.config.realname ∷ [] in
      let r =
        send_next send_error
          (send_next send_error (send_pass send_error rh rh.config.password) (codes "NICK command")
            nick)
          (codes "USER command") user in
      (
        r,
        refl,
        subst (λ lines. Sends rh lines r)
            (append_assoc (pass_lines rh.config.password) (nick ∷ []) (user ∷ []))
            (send_next-Sends rh _ (codes "USER command") user _ (
              send_next-Sends rh _ (codes "NICK command") nick _
                (pass-Sends rh rh.config.password))),
      )

  Sends-cases :
      (rh : RegistrationHandler) (lines : List (List Bytes)) (r : RegistrationHandler × Bool)
      → Sends rh lines r
      → (r.0 ≡ record rh { output = rh.output ++ map sent lines }) ⊎ Refused rh lines r.0
  Sends-cases rh lines r (inl e) = inl (ap (λ (r : RegistrationHandler × Bool). r.0) e)
  Sends-cases rh lines r (inr (stopped, failed)) = inr failed

  -- When registration is not under way, Start sends PASS, if there is a password, then NICK and USER,
  -- with the timer running. If the connection refuses one of these lines, then those behind it are
  -- not sent, the state is failed, and an error event tells of it.
  pub start-Sends :
      (rh : RegistrationHandler)
      → is_active rh.state ≡ false
      → ((start send_error rh).0 ≡ record rh {
        state = RegistrationState.started;
        timer = true;
        output = rh.output ++ map sent (registration_lines rh.config);
      })
        ⊎ Refused
            (record rh { timer = true })
            (registration_lines rh.config)
            (start send_error rh).0
  unfolding start
  start-Sends rh idle =
      let (r, e, sends) =
        commands-Sends (record rh { state = RegistrationState.started; timer = true }) in
      rw (idle, start)
        (subst
          (λ s.
            (s ≡ record rh {
              state = RegistrationState.started;
              timer = true;
              output = rh.output ++ map sent (registration_lines rh.config);
            })
            ⊎ Refused (record rh { timer = true }) (registration_lines rh.config) s)
          e (Sends-cases _ _ r sends))
