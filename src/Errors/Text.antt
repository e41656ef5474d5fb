-- ===== src/Errors/Text.antt =====
-- listener/errors.go: the text of errors.
use Prim.Native.String.{String, ◌++◌}
use gopher_socks.Common.{Option, none, some}
use gopher_socks.Errors.{ErrorType, connection, configuration, protocol, session}

-- The strings of the ErrorType constants.
abbrev pub type_text : ErrorType → String
type_text connection = "connection"
type_text configuration = "configuration"
type_text protocol = "protocol"
type_text session = "session"

-- `NetworkError.Error`, with the text of Err unless that is nil.
unfoldable pub network_text : ErrorType → String → Option String → String
network_text type msg (some e) = type_text type ++ (" error: " ++ (msg ++ (": " ++ e)))
network_text type msg none = type_text type ++ (" error: " ++ msg)

-- `ValidationError.Error`.
unfoldable pub validation_text : String → String → String
validation_text field msg = "validation error: " ++ (field ++ (": " ++ msg))
