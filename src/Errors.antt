-- ===== src/Errors.antt =====
-- parser/errors.go: the errors that the package makes, and their texts.
use ircparser.Base.{◌++◌, Bytes, codes, Option, none, some}

-- `cause` is the text of the wrapped error.
pub record IrcError : Type 0 where
  pub operation : Bytes
  pub message : Bytes
  pub cause : Option Bytes

-- IRCError.Error
unfoldable pub error_text : IrcError → Bytes
error_text e = elim e.cause [
  | none ↦ e.operation ++ codes ": " ++ e.message
  | some text ↦ e.operation ++ codes ": " ++ e.message ++ codes " (" ++ text ++ codes ")"
]

unfoldable pub unwrap : IrcError → Option Bytes
unwrap e = e.cause

unfoldable pub connection_error : Bytes → Bytes → Option Bytes → IrcError
connection_error operation message cause = record {
  operation = operation;
  message = message;
  cause = cause;
}

unfoldable pub registration_error : Bytes → Bytes → IrcError
registration_error operation message = record {
  operation = operation;
  message = message;
  cause = none;
}

unfoldable pub message_error : Bytes → Bytes → Option Bytes → IrcError
message_error operation message cause = record {
  operation = operation;
  message = message;
  cause = cause;
}

unfoldable pub sasl_error : Bytes → Bytes → Option Bytes → IrcError
sasl_error operation message cause = record {
  operation = operation;
  message = message;
  cause = cause;
}
