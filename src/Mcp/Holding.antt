-- ===== src/Mcp/Holding.antt =====
-- A pending call of internal/mcp/session.go stays pending, under its identity, until it is answered.
use data_mate.Base.{
  ◌≡◌, refl, ◌∙◌, Bool, true, false, not, ◌&&◌, Option, none, some, List, [], ◌∷◌, ◌++◌, Text,
  bytes, text_eq, text_eq_iff, find, keep, map, ℤ, if◌then◌else◌, Bool-cases, Option-cases, inl,
  inr, arith, is_empty,
}
use data_mate.Mcp.{
  Wire, request_id, Request, Line, blank, broken, refused, misshaped, answer, bare, request, Code,
  Response, Pending, Guard, send, reject, named, cancel_if, cancelled_key, notification, refusal,
  answer_of, admit, call_request, with_id, without_id, take_request, read_line, body_of,
  is_initialize, retire, write_response,
}
use data_mate.Mcp.Waiting.{others, named-key}
use data_mate.Mcp.Session.{Event, reads, writes, play}

-- The call `k` is pending, with the identity `v`.
unfoldable pub holds : Text → Text → List Pending → Bool
holds k v [] = false
holds k v (o ∷ ps) = let rest = holds k v ps in if text_eq o.key k then text_eq o.wire v else rest

pub holds-named :
    (k v : Text) (ps : List Pending)
    → holds k v ps ≡ true
    → (p : Pending) × (named k ps ≡ some p) × (p.wire ≡ v)
unfolding holds find
holds-named k v [] h = cc
holds-named k v (o ∷ ps) h = elim (Bool-cases (text_eq o.key k)) [
  | inl same ↦ (o, ground arith, (text_eq_iff o.wire v).0 (ground arith))
  | inr other ↦
      let rest = holds-named k v ps (ground arith) in (rest.0, ground (arith, rest.1), rest.2)
]

holds-cancel : (k v j : Text) (ps : List Pending) → holds k v (map (cancel_if j) ps) ≡ holds k v ps
unfolding holds
holds-cancel k v j [] = refl
holds-cancel k v j (o ∷ ps) = elim (Bool-cases (text_eq o.key j)) [
  | inl same ↦ rw (same, holds-cancel k v j ps) refl
  | inr other ↦ rw (other, holds-cancel k v j ps) refl
]

holds-others :
    (k v j : Text) (ps : List Pending)
    → text_eq j k ≡ false
    → holds k v (others j ps) ≡ holds k v ps
unfolding holds keep
holds-others k v j [] d = refl
holds-others k v j (o ∷ ps) d = elim (Bool-cases (text_eq o.key j)) [
  | inl same ↦
      let e : o.key ≡ j = (text_eq_iff o.key j).0 same in
      let different : text_eq o.key k ≡ false = rw e d in ground (arith, holds-others k v j ps d)
  | inr other ↦ ground (arith, holds-others k v j ps d)
]

pub send-pending :
    (works : Bool) (r : Response) (g : Guard) → (send works r g).0.pending ≡ g.pending
unfolding send
send-pending works r g = elim (Bool-cases (works && not g.closed)) [
  | inl goes ↦ rw goes refl
  | inr fails ↦ rw fails refl
]

module _ (k v : Text) where
  -- The call `k` with the identity `v` is pending in a state.
  unfoldable pub Holds : Guard → Type 0
  Holds g = holds k v g.pending ≡ true

  send-Holds : (works : Bool) (r : Response) (g : Guard) → Holds g → Holds (send works r g).0
  unfolding Holds
  send-Holds works r g h = rw (send-pending works r g) h

  notification-Holds :
      (format : ℤ → Text) (q : Request) (g : Guard) → Holds g → Holds (notification format q g).0
  unfolding notification Holds
  notification-Holds format q g h =
      elim (Bool-cases (text_eq q.method (bytes "notifications/initialized"))) [
        | inl first ↦ elim (Bool-cases (g.init_sent && not g.ready && q.object_params)) [
          | inl good ↦ rw (first, good) h
          | inr bad ↦ rw (first, bad) h
        ]
        | inr other ↦
            elim (Bool-cases (text_eq q.method (bytes "notifications/cancelled") && g.ready)) [
              | inl may ↦ elim (Option-cases (cancelled_key format g q.cancels)) [
                | inl nothing ↦ rw (other, may, nothing) h
                | inr (j, found) ↦ rw (other, may, found) (holds-cancel k v j g.pending ∙ h)
              ]
              | inr bad ↦ rw (other, bad) h
            ]
      ]

  -- A second call with the key would not have been admitted.
  admit-Holds :
      (j : Text) (w : Wire) (q : Request) (g : Guard)
      → named j g.pending ≡ none
      → Holds g
      → Holds (admit j w q g)
  unfolding admit Holds holds
  admit-Holds j w q g new h = elim (Bool-cases (text_eq j k)) [
    | inl same ↦
        let e : j ≡ k = (text_eq_iff j k).0 same in
        let p = holds-named k v g.pending h in
        let none_here : named k g.pending ≡ none = rw (← e) new in ground (arith, p.1)
    | inr other ↦ rw other h
  ]

  call_request-Holds :
      (works : Bool) (j : Text) (w : Wire) (q : Request) (g : Guard)
      → Holds g
      → Holds (call_request works j w q g).0
  unfolding call_request
  call_request-Holds works j w q g h = elim (Option-cases (named j g.pending)) [
    | inr (p, old) ↦ rw (call_request, old) h
    | inl new ↦ elim (Option-cases (refusal q.method g)) [
      | inl fine ↦ rw (call_request, new, fine) (admit-Holds j w q g new h)
      | inr (code, bad) ↦
          rw (call_request, new, bad)
            (send-Holds works (record { wire = some w.raw; body = answer_of q.method code }) g h)
    ]
  ]

  with_id-Holds :
      (format : ℤ → Text) (works : Bool) (w : Wire) (q : Request) (g : Guard)
      → Holds g
      → Holds (with_id format works w q g).0
  unfolding with_id reject
  with_id-Holds format works w q g h = elim (Option-cases (request_id format w)) [
    | inl bad ↦ rw (with_id, bad) (send-Holds works _ g h)
    | inr (j, good) ↦ elim (Bool-cases (is_empty q.method)) [
      | inl empty ↦ rw (with_id, good, empty) (send-Holds works _ g h)
      | inr full ↦ rw (with_id, good, full) (call_request-Holds works j w q g h)
    ]
  ]

  without_id-Holds :
      (format : ℤ → Text) (q : Request) (g : Guard) → Holds g → Holds (without_id format q g).0
  unfolding without_id
  without_id-Holds format q g h = elim (Bool-cases (is_empty q.method)) [
    | inl empty ↦ rw empty h
    | inr full ↦ rw full (notification-Holds format q g h)
  ]

  read_line-Holds :
      (format : ℤ → Text) (works : Bool) (line : Line) (g : Guard)
      → Holds g
      → Holds (read_line format works line g).0
  unfolding read_line take_request reject
  read_line-Holds format works blank g h = h
  read_line-Holds format works broken g h = send-Holds works _ g h
  read_line-Holds format works refused g h = send-Holds works _ g h
  read_line-Holds format works misshaped g h = send-Holds works _ g h
  read_line-Holds format works answer g h = h
  read_line-Holds format works bare g h = send-Holds works _ g h
  read_line-Holds format works (request q) g h =
      elim q.id as (λ (o : Option Wire). Holds (take_request format works q o g).0) [
        | none ↦ without_id-Holds format q g h
        | some w ↦ with_id-Holds format works w q g h
      ]

  write_response-Holds :
      (works encodable : Bool) (j : Text) (code : Option Code) (g : Guard)
      → text_eq j k ≡ false
      → Holds g
      → Holds (write_response works encodable j code g).0
  unfolding write_response retire Holds
  write_response-Holds works encodable j code g other h = elim (Option-cases (named j g.pending)) [
    | inl gone ↦ rw (write_response, gone) h
    | inr (p, found) ↦
        let b = body_of encodable code in
        let same : p.key ≡ j = named-key j g.pending p found in
        let kept : holds k v (others p.key g.pending) ≡ true =
          holds-others k v p.key g.pending (rw same other) ∙ h in
        rw (write_response, found)
          (send-Holds works _ (retire p b g) (elim (Bool-cases (is_initialize p.method)) [
            | inl first ↦ rw first kept
            | inr later ↦ rw later kept
          ]))
  ]

  -- No event answers the key.
  abbrev pub unanswered : List Event → Bool
  unanswered [] = true
  unanswered (reads works line ∷ es) = unanswered es
  unanswered (writes works encodable j code ∷ es) = not (text_eq j k) && unanswered es

  pub play-Holds :
      (format : ℤ → Text) (later es : List Event)
      → unanswered later ≡ true
      → Holds (play format es)
      → Holds (play format (later ++ es))
  unfolding play
  play-Holds format [] es u h = h
  play-Holds format (reads works line ∷ later) es u h =
      read_line-Holds format works line (play format (later ++ es)) (play-Holds format later es u h)
  play-Holds format (writes works encodable j code ∷ later) es u h =
      write_response-Holds works encodable j code (play format (later ++ es)) (ground arith)
        (play-Holds format later es (ground arith) h)
