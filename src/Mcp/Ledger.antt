-- ===== src/Mcp/Ledger.antt =====
-- The answers of internal/mcp/session.go against the calls of the client.
use data_mate.Base.{
  ℕ, ◌+◌, ◌≤◌, ◌≡◌, refl, ap, Bool, false, not, ◌&&◌, Option, none, some, List, [], ◌∷◌, Text,
  bytes, text_eq, total, ℤ, Bool-cases, Option-cases, inl, inr, arith, is_empty,
}
use data_mate.Mcp.{
  Wire, request_id, Request, Line, blank, broken, refused, misshaped, answer, bare, request, Code,
  Body, Response, Pending, Guard, send, reject, named, cancelled_key, notification, refusal,
  answer_of, admit, call_request, with_id, without_id, take_request, read_line, body_of,
  is_initialize, retire, write_response, new_guard,
}
use data_mate.Mcp.Waiting.{one, count, count_wire-cancel, named-key, count-others}
use data_mate.Mcp.Steps.{IsValid}
use data_mate.Mcp.Session.{Event, reads, writes, play, play-IsValid}

abbrev pub names : Text → Option Text → Bool
names w none = false
names w (some v) = text_eq v w

-- The responses with the identity `w`, and the calls that wait with it.
unfoldable pub answered : Text → Guard → ℕ
answered w g = total (λ (r : Response). one (names w r.wire)) g.output

unfoldable pub waiting : Text → Guard → ℕ
waiting w g = count (λ o. text_eq o.wire w) g.pending

-- A line that asks with the identity `w`, and how many of the events are such lines.
abbrev pub asks : Text → Option Wire → Bool
asks w none = false
asks w (some v) = text_eq v.raw w

abbrev pub asks_line : Text → Line → Bool
asks_line w (request q) = asks w q.id
asks_line w _ = false

unfoldable pub asked : Text → List Event → ℕ
asked w [] = 0
asked w (reads works line ∷ es) = one (asks_line w line) + asked w es
asked w (writes works encodable k code ∷ es) = asked w es

abbrev ledger : Text → Guard → ℕ
ledger w g = answered w g + waiting w g

send-ledger :
    (v : Text) (works : Bool) (r : Response) (g : Guard)
    → ledger v (send works r g).0 ≤ one (names v r.wire) + ledger v g
unfolding send answered waiting total
send-ledger v works r g = elim (Bool-cases (works && not g.closed)) [
  | inl goes ↦ rw goes (omega arith)
  | inr fails ↦ rw fails (omega arith)
]

notification-ledger :
    (v : Text) (format : ℤ → Text) (q : Request) (g : Guard)
    → ledger v (notification format q g).0 ≡ ledger v g
unfolding notification answered waiting
notification-ledger v format q g =
    elim (Bool-cases (text_eq q.method (bytes "notifications/initialized"))) [
      | inl first ↦ elim (Bool-cases (g.init_sent && not g.ready && q.object_params)) [
        | inl good ↦ rw (first, good) refl
        | inr bad ↦ rw (first, bad) refl
      ]
      | inr other ↦
          elim (Bool-cases (text_eq q.method (bytes "notifications/cancelled") && g.ready)) [
            | inl may ↦ elim (Option-cases (cancelled_key format g q.cancels)) [
              | inl nothing ↦ rw (other, may, nothing) refl
              | inr (k, found) ↦
                  rw (other, may, found)
                    (ap (λ n. answered v g + n) (count_wire-cancel (λ t. text_eq t v) k g.pending))
            ]
            | inr bad ↦ rw (other, bad) refl
          ]
    ]

call_request-ledger :
    (v : Text) (works : Bool) (k : Text) (w : Wire) (q : Request) (g : Guard)
    → ledger v (call_request works k w q g).0 ≤ one (text_eq w.raw v) + ledger v g
unfolding call_request admit answered waiting total
call_request-ledger v works k w q g = elim (Option-cases (named k g.pending)) [
  | inr (p, old) ↦ rw (call_request, old) (omega arith)
  | inl new ↦ elim (Option-cases (refusal q.method g)) [
    | inl fine ↦ rw (call_request, new, fine) (omega arith)
    | inr (code, bad) ↦
        rw (call_request, new, bad)
          (send-ledger v works (record { wire = some w.raw; body = answer_of q.method code }) g)
  ]
]

with_id-ledger :
    (v : Text) (format : ℤ → Text) (works : Bool) (w : Wire) (q : Request) (g : Guard)
    → ledger v (with_id format works w q g).0 ≤ one (text_eq w.raw v) + ledger v g
unfolding with_id reject
with_id-ledger v format works w q g = elim (Option-cases (request_id format w)) [
  | inl bad ↦ rw (with_id, bad) (omega (arith, send-ledger v works _ g))
  | inr (k, good) ↦ elim (Bool-cases (is_empty q.method)) [
    | inl empty ↦ rw (with_id, good, empty) (send-ledger v works _ g)
    | inr full ↦ rw (with_id, good, full) (call_request-ledger v works k w q g)
  ]
]

without_id-ledger :
    (v : Text) (format : ℤ → Text) (q : Request) (g : Guard)
    → ledger v (without_id format q g).0 ≡ ledger v g
unfolding without_id
without_id-ledger v format q g = elim (Bool-cases (is_empty q.method)) [
  | inl empty ↦ rw empty refl
  | inr full ↦ rw full (notification-ledger v format q g)
]

read_line-ledger :
    (v : Text) (format : ℤ → Text) (works : Bool) (line : Line) (g : Guard)
    → ledger v (read_line format works line g).0 ≤ one (asks_line v line) + ledger v g
unfolding read_line take_request reject
read_line-ledger v format works blank g = omega arith
read_line-ledger v format works broken g = send-ledger v works _ g
read_line-ledger v format works refused g = send-ledger v works _ g
read_line-ledger v format works misshaped g = send-ledger v works _ g
read_line-ledger v format works answer g = omega arith
read_line-ledger v format works bare g = send-ledger v works _ g
read_line-ledger v format works (request q) g =
    elim q.id
      as (λ (o : Option Wire).
        ledger v (take_request format works q o g).0 ≤ one (asks v o) + ledger v g) [
          | none ↦ omega (arith, without_id-ledger v format q g)
          | some w ↦ with_id-ledger v format works w q g
        ]

retire-ledger :
    (v k : Text) (p : Pending) (b : Body) (g : Guard)
    → IsValid g
    → named k g.pending ≡ some p
    → one (text_eq p.wire v) + ledger v (retire p b g) ≡ ledger v g
unfolding retire answered waiting
retire-ledger v k p b g valid found =
    let same : p.key ≡ k = named-key k g.pending p found in
    let taken = count-others (λ o. text_eq o.wire v) k g.pending p (valid.distinct k) found in
    elim (Bool-cases (is_initialize p.method)) [
      | inl first ↦ rw (first, same) (omega (arith, taken))
      | inr later ↦ rw (later, same) (omega (arith, taken))
    ]

write_response-ledger :
    (v : Text) (works encodable : Bool) (k : Text) (code : Option Code) (g : Guard)
    → IsValid g
    → ledger v (write_response works encodable k code g).0 ≤ ledger v g
unfolding write_response
write_response-ledger v works encodable k code g valid = elim (Option-cases (named k g.pending)) [
  | inl gone ↦ rw (write_response, gone) (omega arith)
  | inr (p, found) ↦
      let b = body_of encodable code in
      let paid = retire-ledger v k p b g valid found in
      let sent = send-ledger v works (record { wire = some p.wire; body = b }) (retire p b g) in
      rw (write_response, found) (omega (arith, paid, sent))
]

new_guard-ledger : (w : Text) → ledger w new_guard ≤ 0
unfolding answered waiting total
new_guard-ledger w = omega arith

-- After any lines and answers, the responses with an identity, and the calls that still wait with it,
-- are together no more than the requests that were read with it: no request is answered twice, by
-- whatever mixture of answers and refusals.
pub answered_once :
    (format : ℤ → Text) (w : Text) (es : List Event)
    → answered w (play format es) + waiting w (play format es) ≤ asked w es
unfolding play asked
answered_once format w [] = new_guard-ledger w
answered_once format w (reads works line ∷ es) =
    omega (arith, read_line-ledger w format works line (play format es), answered_once format w es)
answered_once format w (writes works encodable k code ∷ es) = omega (
  arith,
  write_response-ledger w works encodable k code (play format es) (play-IsValid format es),
  answered_once format w es,
)
