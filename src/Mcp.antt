-- ===== src/Mcp.antt =====
-- The session guard of internal/mcp/session.go: which messages of a client reach the server, and which of its
-- answers the client. What encoding/json says of a line is data here. `Write` is one step, since another
-- `Write` waits for it, and nothing else takes a call from the pending ones.
pub mod Waiting
pub mod Steps
pub mod Session
pub mod Ledger
pub mod Gate
pub mod Holding
pub mod Answers
use data_mate.Base.{
  ℕ, ◌+◌, Bool, true, false, not, ◌&&◌, ◌||◌, Option, none, some, List, [], ◌∷◌, ◌++◌, Text, bytes,
  text_eq, length, leb, find, keep, map, ℤ, if◌then◌else◌, is_empty,
}

abbrev pub max_concurrent : ℕ
max_concurrent = 16

-- An identity as it stands on the wire, and what JSON makes of it.
pub data Meaning : Type 0 where
  text : Text → Meaning
  integer : ℤ → Meaning
  neither : Meaning

pub record Wire : Type 0 where
  pub raw : Text
  pub meaning : Meaning

-- `requestID`: the key under which the server knows a request; `format` is `FormatInt`.
abbrev pub key_of : (ℤ → Text) → Meaning → Option Text
key_of format (text s) = some (bytes "string:" ++ s)
key_of format (integer n) = some (bytes "number:" ++ format n)
key_of format neither = none

unfoldable pub request_id : (ℤ → Text) → Wire → Option Text
request_id format w = key_of format w.meaning

-- `object_params`: there are no parameters, or an object, or null. `cancels`: what a cancellation names.
pub record Request : Type 0 where
  pub id : Option Wire
  pub method : Text
  pub object_params : Bool
  pub cancels : Option Wire

-- What a line may hold, in the order in which `Read` asks: `broken` is no JSON, `refused` has a duplicate
-- key, `misshaped` is no message of version 2.0, `answer` has no method but a result or an error,
-- and `bare` has none of these.
pub data Line : Type 0 where
  blank broken refused misshaped answer bare : Line
  request : Request → Line

pub data Code : Type 0 where
  parse_error invalid_request method_not_found busy internal : Code
  rpc : ℤ → Code

-- `capacity` is the result of a tool call for which there is no room.
pub data Body : Type 0 where
  failure : Code → Body
  result capacity : Body

-- No identity is the null one.
pub record Response : Type 0 where
  pub wire : Option Text
  pub body : Body

pub record Pending : Type 0 where
  pub key : Text
  pub method : Text
  pub wire : Text
  pub cancelled : Bool

pub record Guard : Type 0 where
  pub pending : List Pending
  pub init_sent : Bool
  pub initializing : Bool
  pub ready : Bool
  pub closed : Bool
  pub output : List Response

-- How one round of `Read` ends; a call reaches the server under its key.
pub data Action : Type 0 where
  go_on ends : Action
  notify : Request → Action
  deliver : Text → Request → Action

-- `send`; `works` says whether the socket takes it.
unfoldable pub send : Bool → Response → Guard → Guard × Action
send works r g =
    if works && not g.closed
    then (record g { output = r ∷ g.output }, go_on)
    else (record g { closed = true }, ends)

reject : Bool → Option Text → Code → Guard → Guard × Action
unfolding send
reject works wire code g = send works (record { wire = wire; body = failure code }) g

abbrev pub is_pending : Text → Pending → Bool
is_pending k p = text_eq p.key k

abbrev pub named : Text → List Pending → Option Pending
named k = find (is_pending k)

abbrev pub cancel_if : Text → Pending → Pending
cancel_if k p = if text_eq p.key k then record p { cancelled = true } else p

-- The call that a cancellation names, if it is pending and not cancelled yet.
cancelled_key : (ℤ → Text) → Guard → Option Wire → Option Text
unfolding request_id
cancelled_key format g none = none
cancelled_key format g (some w) = elim (request_id format w) [
  | none ↦ none
  | some k ↦ elim (named k g.pending) [
    | none ↦ none
    | some p ↦ if p.cancelled then none else some k
  ]
]

-- A message without an identity: a notification, which is never answered.
notification : (ℤ → Text) → Request → Guard → Guard × Action
unfolding cancelled_key
notification format q g =
    if text_eq q.method (bytes "notifications/initialized")
    then (if g.init_sent && not g.ready && q.object_params
        then (record g { ready = true }, notify q)
        else (g, go_on))
    else if text_eq q.method (bytes "notifications/cancelled") && g.ready
    then (elim (cancelled_key format g q.cancels) [
      | none ↦ (g, go_on)
      | some k ↦ (record g { pending = map (cancel_if k) g.pending }, notify q)
    ])
    else (g, go_on)

abbrev pub is_initialize : Text → Bool
is_initialize m = text_eq m (bytes "initialize")

-- The code of a refusal, if any.
unfoldable pub refusal : Text → Guard → Option Code
refusal m g =
    if text_eq m (bytes "server/discover")
    then some method_not_found
    else if is_initialize m && (g.init_sent || g.initializing)
    then some invalid_request
    else if not (is_initialize m) && not (text_eq m (bytes "ping")) && not g.ready
    then some invalid_request
    else if leb max_concurrent (length g.pending)
    then some busy
    else none

abbrev pub is_busy : Code → Bool
is_busy busy = true
is_busy _ = false

abbrev pub answer_of : Text → Code → Body
answer_of m code = if is_busy code && text_eq m (bytes "tools/call") then capacity else failure code

unfoldable pub admit : Text → Wire → Request → Guard → Guard
admit k w q g = record g {
  pending = record { key = k; method = q.method; wire = w.raw; cancelled = false } ∷ g.pending;
  initializing = g.initializing || is_initialize q.method;
}

-- A call under its key; the second of two with one key is dropped.
unfoldable pub call_request : Bool → Text → Wire → Request → Guard → Guard × Action
call_request works k w q g = elim (named k g.pending) [
  | some p ↦ (g, go_on)
  | none ↦ elim (refusal q.method g) [
    | none ↦ (admit k w q g, deliver k q)
    | some code ↦ send works (record { wire = some w.raw; body = answer_of q.method code }) g
  ]
]

with_id : (ℤ → Text) → Bool → Wire → Request → Guard → Guard × Action
unfolding request_id reject
with_id format works w q g = elim (request_id format w) [
  | none ↦ reject works none invalid_request g
  | some k ↦
      if is_empty q.method
      then reject works (some w.raw) invalid_request g
      else call_request works k w q g
]

without_id : (ℤ → Text) → Request → Guard → Guard × Action
unfolding notification
without_id format q g = if is_empty q.method then (g, go_on) else notification format q g

take_request : (ℤ → Text) → Bool → Request → Option Wire → Guard → Guard × Action
unfolding with_id without_id
take_request format works q none g = without_id format q g
take_request format works q (some w) g = with_id format works w q g

-- One round of `Read`.
unfoldable pub read_line : (ℤ → Text) → Bool → Line → Guard → Guard × Action
unfolding take_request reject
read_line format works blank g = (g, go_on)
read_line format works broken g = reject works none parse_error g
read_line format works refused g = reject works none invalid_request g
read_line format works misshaped g = reject works none invalid_request g
read_line format works answer g = (g, go_on)
read_line format works bare g = reject works none invalid_request g
read_line format works (request q) g = take_request format works q q.id g

-- What a result becomes, if it cannot be encoded, and an error.
abbrev pub body_of : Bool → Option Code → Body
body_of encodable none = if encodable then result else failure internal
body_of encodable (some code) = failure code

abbrev pub is_failure : Body → Bool
is_failure (failure code) = true
is_failure result = false
is_failure capacity = false

-- What an answer retires.
unfoldable pub retire : Pending → Body → Guard → Guard
retire p b g =
    let rest = keep (λ (o : Pending). not (is_pending p.key o)) g.pending in
    if is_initialize p.method
    then record g { pending = rest; initializing = false; init_sent = not (is_failure b) }
    else record g { pending = rest }

-- `Write` of an answer; an answer to no pending call is dropped.
unfoldable pub write_response : Bool → Bool → Text → Option Code → Guard → Guard × Action
unfolding send
write_response works encodable k code g = elim (named k g.pending) [
  | none ↦ (g, go_on)
  | some p ↦
      let b = body_of encodable code in
      send works (record { wire = some p.wire; body = b }) (retire p b g)
]

abbrev pub new_guard : Guard
new_guard = record {
  pending = [];
  init_sent = false;
  initializing = false;
  ready = false;
  closed = false;
  output = [];
}
