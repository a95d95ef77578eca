-- ===== src/Sasl/Tests.antt =====
-- The properties of the SASL handler at fixed data.
use ircparser.Base.{
  ◌∷◌, some, false, true, ◌≡◌, refl, [], ◌++◌, List, map, none, codes, Bytes, arith, Option,
}
use ircparser.Event.{cap_pre_end_data}
use ircparser.Config.{seconds}
use ircparser.Output.{Output}
use ircparser.Sasl.{is_active, SaslHandler, SaslError, SaslState, send_auth_data}
use ircparser.Sasl.Chunks.{auth_line, closing, AreChunks, send_auth_data_lem}
use ircparser.Sasl.Handlers.{handle_sasl_success, handle_sasl, abort}
use ircparser.Sasl.Final.{Steps, goes, ends, aborts, begins, success-is_final}

abbrev handler : SaslHandler
handler = record {
  state = SaslState.authenticating;
  mechanism = none;
  timeout = seconds 30;
  timer = true;
  available_mechs = [];
  max_chunk_size = 4;
  username = [];
  password = [];
  output = [];
}

abbrev never : List Output → List Bytes → Option Bytes
never o line = none

abbrev no_text : SaslError → Bytes
no_text e = []

send_auth_data_lem_example :
    (chunks : List Bytes) × (send_auth_data never no_text handler (codes "abcdefghij")
      ≡ record handler { output = map auth_line (chunks ++ closing 4 (codes "abcdefghij")) })
    × AreChunks 4 (codes "abcdefghij") chunks
send_auth_data_lem_example =
    send_auth_data_lem never no_text (λ o line. refl) handler (codes "abcdefghij") (omega arith)

abbrev same_bytes : Bytes → Bytes
same_bytes s = s

abbrev some_bytes : Bytes → Option Bytes
some_bytes s = some s

-- A call of Abort and a new negotiation after the success.
after_success : Steps never no_text same_bytes some_bytes (handle_sasl_success handler) (
    handle_sasl never no_text
      (abort never no_text (handle_sasl_success handler)).0
      (cap_pre_end_data (codes "sasl" ∷ []) []))
after_success = goes (aborts (handle_sasl_success handler)) (
    goes
      (begins (abort never no_text (handle_sasl_success handler)).0
        (cap_pre_end_data (codes "sasl" ∷ []) []))
      (ends _))

success-is_final_example :
    ((handle_sasl never no_text
        (abort never no_text (handle_sasl_success handler)).0
        (cap_pre_end_data (codes "sasl" ∷ []) [])).state
      ≡ SaslState.success)
    × ((handle_sasl never no_text
          (abort never no_text (handle_sasl_success handler)).0
          (cap_pre_end_data (codes "sasl" ∷ []) [])).timer
        ≡ false)
unfolding is_active
success-is_final_example =
    success-is_final never no_text same_bytes some_bytes handler refl after_success
