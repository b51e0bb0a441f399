-- ===== src/Mcp/Steps.antt =====
-- Each step of the session of internal/mcp/session.go keeps it in order.
use data_mate.Base.{
  ℕ, zero, suc, ◌+◌, ◌≤◌, ◌≡◌, refl, sym, ap, ◌∙◌, Bool, true, false, not, ◌&&◌, ◌||◌, Option, none,
  some, List, [], ◌∷◌, Text, bytes, text_eq, text_eq_iff, length, leb, leb→le, ltb, find, map, ℤ,
  if◌then◌else◌, Bool-cases, Option-cases, inl, inr, arith, is_empty,
}
use data_mate.Mcp.{
  Wire, request_id, Request, Line, blank, broken, refused, misshaped, answer, bare, request, Code,
  Body, Response, Pending, Guard, send, reject, is_pending, named, cancel_if, cancelled_key,
  notification, is_initialize, refusal, admit, call_request, with_id, without_id, take_request,
  read_line, body_of, retire, write_response, new_guard, max_concurrent,
}
use data_mate.Mcp.Waiting.{
  one, count, others, length-cancel, count_key-cancel, count_method-cancel, named-none, named-key,
  count-others, length-others, count-others_le,
}

-- The keys of the pending calls are distinct; there are at most 16; the session is initializing exactly
-- while one `initialize` is pending, which is not so after an answered one; and a ready session has been
-- initialized.
pub record IsValid (g : Guard) : Type 0 where
  pub distinct : (k : Text) → count (is_pending k) g.pending ≤ 1
  pub room : length g.pending ≤ max_concurrent
  pub starting : count (λ o. is_initialize o.method) g.pending ≡ one g.initializing
  pub once : (g.init_sent && g.initializing) ≡ false
  pub led : (g.ready && not g.init_sent) ≡ false

pub new_guard-IsValid : IsValid new_guard
unfolding data_mate.Base.total
new_guard-IsValid = record {
  distinct = λ k. omega arith;
  room = omega arith;
  starting = refl;
  once = refl;
  led = refl;
}

send-IsValid : (works : Bool) (r : Response) (g : Guard) → IsValid g → IsValid (send works r g).0
unfolding send
send-IsValid works r g v = elim (Bool-cases (works && not g.closed)) [
  | inl goes ↦ rw goes (record {
    distinct = v.distinct;
    room = v.room;
    starting = v.starting;
    once = v.once;
    led = v.led;
  })
  | inr fails ↦ rw fails (record {
    distinct = v.distinct;
    room = v.room;
    starting = v.starting;
    once = v.once;
    led = v.led;
  })
]

cancelled-IsValid :
    (k : Text) (g : Guard)
    → IsValid g
    → IsValid (record g { pending = map (cancel_if k) g.pending })
cancelled-IsValid k g v = record {
  distinct = λ j. rw (count_key-cancel j k g.pending) (v.distinct j);
  room = rw (length-cancel k g.pending) v.room;
  starting = count_method-cancel is_initialize k g.pending ∙ v.starting;
  once = v.once;
  led = v.led;
}

-- The only notification that changes more than a mark makes an initialized session ready.
notification-IsValid :
    (format : ℤ → Text) (q : Request) (g : Guard) → IsValid g → IsValid (notification format q g).0
unfolding notification
notification-IsValid format q g v =
    elim (Bool-cases (text_eq q.method (bytes "notifications/initialized"))) [
      | inl first ↦ elim (Bool-cases (g.init_sent && not g.ready && q.object_params)) [
        | inl good ↦
            rw (first, good)
              (record {
                distinct = v.distinct;
                room = v.room;
                starting = v.starting;
                once = v.once;
                led = ground arith;
              })
        | inr bad ↦ rw (first, bad) v
      ]
      | inr other ↦
          elim (Bool-cases (text_eq q.method (bytes "notifications/cancelled") && g.ready)) [
            | inl may ↦ elim (Option-cases (cancelled_key format g q.cancels)) [
              | inl nothing ↦ rw (other, may, nothing) v
              | inr (k, found) ↦ rw (other, may, found) (cancelled-IsValid k g v)
            ]
            | inr bad ↦ rw (other, bad) v
          ]
    ]

-- What a request is accepted for.
pub admitted :
    (m : Text) (g : Guard)
    → refusal m g ≡ none
    → ((is_initialize m && (g.init_sent || g.initializing)) ≡ false)
      × ((is_initialize m || text_eq m (bytes "ping") || g.ready) ≡ true)
      × (leb max_concurrent (length g.pending) ≡ false)
unfolding refusal
admitted m g h = ground arith

admit-IsValid :
    (k : Text) (w : Wire) (q : Request) (g : Guard)
    → IsValid g
    → named k g.pending ≡ none
    → refusal q.method g ≡ none
    → IsValid (admit k w q g)
unfolding admit data_mate.Base.total
admit-IsValid k w q g v new fine =
    let free = admitted q.method g fine in
    record {
      distinct = λ j. elim (Bool-cases (text_eq k j)) [
        | inl same ↦
            let e : k ≡ j = (text_eq_iff k j).0 same in
            let none_yet : count (is_pending j) g.pending ≡ 0 =
              rw (← e) (named-none k g.pending new) in
            rw (same, none_yet) (omega arith)
        | inr other ↦ rw other (omega (arith, v.distinct j))
      ];
      room = ground (arith, v.room, free);
      starting = ground (arith, v.starting, free);
      once = ground (arith, v.once, free);
      led = v.led;
    }

retire-IsValid :
    (k : Text) (p : Pending) (b : Body) (g : Guard)
    → IsValid g
    → named k g.pending ≡ some p
    → IsValid (retire p b g)
unfolding retire
retire-IsValid k p b g v found =
    let same : p.key ≡ k = named-key k g.pending p found in
    let taken = count-others (λ o. is_initialize o.method) k g.pending p (v.distinct k) found in
    let fewer : (j : Text) → count (is_pending j) (others k g.pending) ≤ 1 =
      λ j. omega (arith, count-others_le (is_pending j) k g.pending, v.distinct j) in
    let below : length (others k g.pending) ≤ max_concurrent =
      omega (arith, length-others k g.pending, v.room) in
    elim (Bool-cases (is_initialize p.method)) [
      | inl first ↦
          rw (first, same)
            (record {
              distinct = λ j. fewer j;
              room = below;
              starting = ground (arith, taken, v.starting, first);
              once = ground arith;
              led = ground (arith, taken, v.starting, first, v.once, v.led);
            })
      | inr later ↦
          rw (later, same)
            (record {
              distinct = λ j. fewer j;
              room = below;
              starting = ground (arith, taken, v.starting, later);
              once = v.once;
              led = v.led;
            })
    ]

call_request-IsValid :
    (works : Bool) (k : Text) (w : Wire) (q : Request) (g : Guard)
    → IsValid g
    → IsValid (call_request works k w q g).0
unfolding call_request
call_request-IsValid works k w q g v = elim (Option-cases (named k g.pending)) [
  | inr (p, old) ↦ rw (call_request, old) v
  | inl new ↦ elim (Option-cases (refusal q.method g)) [
    | inl fine ↦ rw (call_request, new, fine) (admit-IsValid k w q g v new fine)
    | inr (code, bad) ↦ rw (call_request, new, bad) (send-IsValid works _ g v)
  ]
]

with_id-IsValid :
    (format : ℤ → Text) (works : Bool) (w : Wire) (q : Request) (g : Guard)
    → IsValid g
    → IsValid (with_id format works w q g).0
unfolding with_id reject
with_id-IsValid format works w q g v = elim (Option-cases (request_id format w)) [
  | inl bad ↦ rw (with_id, bad) (send-IsValid works _ g v)
  | inr (k, good) ↦ elim (Bool-cases (is_empty q.method)) [
    | inl empty ↦ rw (with_id, good, empty) (send-IsValid works _ g v)
    | inr full ↦ rw (with_id, good, full) (call_request-IsValid works k w q g v)
  ]
]

without_id-IsValid :
    (format : ℤ → Text) (q : Request) (g : Guard) → IsValid g → IsValid (without_id format q g).0
unfolding without_id
without_id-IsValid format q g v = elim (Bool-cases (is_empty q.method)) [
  | inl empty ↦ rw empty v
  | inr full ↦ rw full (notification-IsValid format q g v)
]

pub read_line-IsValid :
    (format : ℤ → Text) (works : Bool) (line : Line) (g : Guard)
    → IsValid g
    → IsValid (read_line format works line g).0
unfolding read_line take_request reject
read_line-IsValid format works blank g v = v
read_line-IsValid format works broken g v = send-IsValid works _ g v
read_line-IsValid format works refused g v = send-IsValid works _ g v
read_line-IsValid format works misshaped g v = send-IsValid works _ g v
read_line-IsValid format works answer g v = v
read_line-IsValid format works bare g v = send-IsValid works _ g v
read_line-IsValid format works (request q) g v =
    elim q.id as (λ (o : Option Wire). IsValid (take_request format works q o g).0) [
      | none ↦ without_id-IsValid format q g v
      | some w ↦ with_id-IsValid format works w q g v
    ]

pub write_response-IsValid :
    (works encodable : Bool) (k : Text) (code : Option Code) (g : Guard)
    → IsValid g
    → IsValid (write_response works encodable k code g).0
unfolding write_response
write_response-IsValid works encodable k code g v = elim (Option-cases (named k g.pending)) [
  | inl gone ↦ rw (write_response, gone) v
  | inr (p, found) ↦
      rw (write_response, found)
        (send-IsValid works _ (retire p (body_of encodable code) g)
          (retire-IsValid k p (body_of encodable code) g v found))
]
