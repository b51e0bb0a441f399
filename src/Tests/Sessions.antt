-- ===== src/Tests/Sessions.antt =====
-- The session of internal/mcp/session.go: `initialize` is asked, answered and confirmed, and then a tool is called.
use data_mate.Base.{
  ℕ, ◌+◌, ◌≤◌, ◌≡◌, ◌↔◌, refl, true, false, none, some, Option, List, [], ◌∷◌, ◌++◌, Text, bytes, ℤ,
  pos, negsuc, is_empty,
}
use data_mate.Mcp.{
  Wire, text, integer, request_id, Request, request, Body, result, Guard, deliver, read_line, named,
  write_response, body_of,
}
use data_mate.Mcp.Steps.{IsValid}
use data_mate.Mcp.Session.{reads, writes, Event, play, play-IsValid}
use data_mate.Mcp.Ledger.{answered, waiting, asked, answered_once}
use data_mate.Mcp.Gate.{may_enter, read_line-enters}
use data_mate.Mcp.Answers.{delivered_answered}

abbrev in_unary : ℤ → Text
in_unary (pos n) = n ∷ []
in_unary (negsuc n) = b'-' ∷ n ∷ []

abbrev wire : Text → ℕ → Wire
wire raw n = record { raw = raw; meaning = integer (pos n) }

abbrev call : Text → ℕ → Request
call m n = record {
  id = some (wire (bytes "7") n);
  method = m;
  object_params = true;
  cancels = none;
}

abbrev note : Text → Request
note m = record { id = none; method = m; object_params = true; cancels = none }

abbrev key : Text
key = bytes "number:" ++ in_unary (pos 7)

abbrev opened : List Event
opened =
    reads true (request (note (bytes "notifications/initialized")))
    ∷ writes true true key none
    ∷ reads true (request (call (bytes "initialize") 7))
    ∷ []

abbrev called : Request
called = call (bytes "tools/call") 7

play-IsValid_example : IsValid (play in_unary opened)
play-IsValid_example = play-IsValid in_unary opened

answered_once_example :
    answered (bytes "7") (play in_unary opened) + waiting (bytes "7") (play in_unary opened)
    ≤ asked (bytes "7") opened
answered_once_example = answered_once in_unary (bytes "7") opened

read_line-enters_example :
    ((read_line in_unary true (request called) (play in_unary opened)).1 ≡ deliver key called) ↔ (
      (request_id in_unary (wire (bytes "7") 7) ≡ some key)
      × (is_empty (bytes "tools/call") ≡ false)
      × (may_enter key (bytes "tools/call") (play in_unary opened) ≡ true))
read_line-enters_example =
    read_line-enters in_unary true key (wire (bytes "7") 7) called (play in_unary opened) refl

enters : may_enter key (bytes "tools/call") (play in_unary opened) ≡ true
unfolding may_enter data_mate.Base.text_eq data_mate.Base.any play read_line write_response
    data_mate.Base.find data_mate.Mcp.call_request data_mate.Mcp.refusal data_mate.Mcp.admit
    data_mate.Mcp.retire data_mate.Base.keep
enters = refl

delivered : (read_line in_unary true (request called) (play in_unary opened)).1 ≡ deliver key called
unfolding read_line data_mate.Mcp.call_request data_mate.Base.find play data_mate.Base.text_eq
    write_response data_mate.Mcp.refusal data_mate.Mcp.admit data_mate.Mcp.retire
    data_mate.Base.keep
delivered = refl

-- The call is cancelled before its answer.
abbrev cancels : List Event
cancels =
    reads true (
      request (record {
        id = none;
        method = bytes "notifications/cancelled";
        object_params = true;
        cancels = some (wire (bytes "7") 7);
      }))
    ∷ []

still_open : (play in_unary (cancels ++ reads true (request called) ∷ opened)).closed ≡ false
unfolding play read_line data_mate.Base.text_eq data_mate.Mcp.call_request data_mate.Base.find
    write_response data_mate.Mcp.refusal data_mate.Mcp.admit data_mate.Mcp.retire
    data_mate.Base.keep
still_open = refl

delivered_answered_example :
    let g = play in_unary (cancels ++ reads true (request called) ∷ opened) in
    let o = write_response true true key none g in
    (o.0.output ≡ record { wire = some (bytes "7"); body = result } ∷ g.output)
    × (named key o.0.pending ≡ none)
delivered_answered_example =
    delivered_answered in_unary true true none key (wire (bytes "7") 7) called called cancels opened
      refl delivered refl still_open

in_unary-injective : (m n : ℤ) → in_unary m ≡ in_unary n → m ≡ n
in_unary-injective (pos m) (pos n) e = cc
in_unary-injective (pos m) (negsuc n) e = cc
in_unary-injective (negsuc m) (pos n) e = cc
in_unary-injective (negsuc m) (negsuc n) e = cc
