-- ===== src/Mcp/Session.antt =====
-- What the session of internal/mcp/session.go keeps true, in whatever order its lines and answers come.
use data_mate.Base.{Bool, Option, List, [], ◌∷◌, Text, ℤ}
use data_mate.Mcp.{Line, Code, Guard, Action, read_line, write_response, new_guard}
use data_mate.Mcp.Steps.{IsValid, new_guard-IsValid, read_line-IsValid, write_response-IsValid}

-- What happens to a session: a line is read, or the server answers a key. The Booleans say whether the
-- socket works and whether the answer can be encoded.
pub data Event : Type 0 where
  reads : Bool → Line → Event
  writes : Bool → Bool → Text → Option Code → Event

abbrev pub step : (ℤ → Text) → Event → Guard → Guard × Action
step format (reads works line) g = read_line format works line g
step format (writes works encodable k code) g = write_response works encodable k code g

-- The session after the events, of which the latest comes first.
unfoldable pub play : (ℤ → Text) → List Event → Guard
play format [] = new_guard
play format (e ∷ es) = (step format e (play format es)).0

-- After any lines and answers, in any order and over a socket that may fail at any time, the keys of
-- the pending calls are distinct, there are at most 16, one `initialize` is pending exactly while the
-- session is initializing, which is never so after an answered one, and a session that is ready has been initialized.
pub play-IsValid : (format : ℤ → Text) (es : List Event) → IsValid (play format es)
unfolding play
play-IsValid format [] = new_guard-IsValid
play-IsValid format (reads works line ∷ es) =
    read_line-IsValid format works line (play format es) (play-IsValid format es)
play-IsValid format (writes works encodable k code ∷ es) =
    write_response-IsValid works encodable k code (play format es) (play-IsValid format es)
