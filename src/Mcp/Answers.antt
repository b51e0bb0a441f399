-- ===== src/Mcp/Answers.antt =====
-- A call that internal/mcp/session.go delivers stays pending until the server answers it, and is answered under
-- the client's own identity.
use data_mate.Base.{
  ◌≡◌, refl, sym, ap, subst, ◌∙◌, Bool, true, false, not, ◌&&◌, Option, none, some, List, [], ◌∷◌,
  ◌++◌, Text, text_eq, text_eq_refl, total, find, ℤ, Bool-cases, Option-cases, inl, inr, arith,
  is_empty,
}
use data_mate.Mcp.{
  Wire, request_id, Request, request, Code, Body, Response, Pending, Guard, Action, deliver, send,
  reject, is_pending, named, refusal, admit, call_request, with_id, take_request, read_line,
  body_of, is_initialize, retire, write_response,
}
use data_mate.Mcp.Waiting.{count, others, named-key, count-others}
use data_mate.Mcp.Steps.{IsValid}
use data_mate.Mcp.Session.{Event, reads, play, play-IsValid}
use data_mate.Mcp.Holding.{holds, holds-named, send-pending, Holds, unanswered, play-Holds}

count-named : (k : Text) (ps : List Pending) → count (is_pending k) ps ≡ 0 → named k ps ≡ none
unfolding total find
count-named k [] h = refl
count-named k (o ∷ ps) h = ground (arith, count-named k ps)

module _ (k : Text) (r : Request) where
  -- What is delivered is pending with its identity.
  abbrev Delivers : Text → Guard × Action → Type 0
  Delivers v o = o.1 ≡ deliver k r → Holds k v o.0

  send-Delivers : (v : Text) (works : Bool) (a : Response) (g : Guard) → Delivers v (send works a g)
  unfolding send
  send-Delivers v works a g = elim (Bool-cases (works && not g.closed)) [
    | inl goes ↦ rw goes (λ d. cc)
    | inr fails ↦ rw fails (λ d. cc)
  ]

  call_request-Delivers :
      (works : Bool) (j : Text) (w : Wire) (q : Request) (g : Guard)
      → Delivers w.raw (call_request works j w q g)
  unfolding call_request admit Holds holds
  call_request-Delivers works j w q g = elim (Option-cases (named j g.pending)) [
    | inr (p, old) ↦ rw (call_request, old) (λ d. cc)
    | inl new ↦ elim (Option-cases (refusal q.method g)) [
      | inl fine ↦
          rw (call_request, new, fine)
            (λ d. let e : j ≡ k = cc in rw (e, text_eq_refl k, text_eq_refl w.raw) refl)
      | inr (code, bad) ↦ rw (call_request, new, bad) (send-Delivers w.raw works _ g)
    ]
  ]

  with_id-Delivers :
      (format : ℤ → Text) (works : Bool) (w : Wire) (q : Request) (g : Guard)
      → Delivers w.raw (with_id format works w q g)
  unfolding with_id reject
  with_id-Delivers format works w q g = elim (Option-cases (request_id format w)) [
    | inl bad ↦ rw (with_id, bad) (send-Delivers w.raw works _ g)
    | inr (j, good) ↦ elim (Bool-cases (is_empty q.method)) [
      | inl empty ↦ rw (with_id, good, empty) (send-Delivers w.raw works _ g)
      | inr full ↦ rw (with_id, good, full) (call_request-Delivers works j w q g)
    ]
  ]

  read_line-Delivers :
      (format : ℤ → Text) (works : Bool) (w : Wire) (q : Request) (g : Guard)
      → q.id ≡ some w
      → Delivers w.raw (read_line format works (request q) g)
  unfolding read_line take_request
  read_line-Delivers format works w q g i =
      subst (λ (o : Option Wire). Delivers w.raw (take_request format works q o g)) (sym i)
        (with_id-Delivers format works w q g)

named_once :
    (k : Text) (p : Pending) (b : Body) (g : Guard)
    → IsValid g
    → named k g.pending ≡ some p
    → named k (retire p b g).pending ≡ none
unfolding retire
named_once k p b g valid found =
    let same : p.key ≡ k = named-key k g.pending p found in
    let taken = count-others (is_pending k) k g.pending p (valid.distinct k) found in
    let here : text_eq p.key k ≡ true = rw same (text_eq_refl k) in
    let gone : named k (others k g.pending) ≡ none =
      count-named k (others k g.pending) (ground (arith, taken, valid.distinct k, here)) in
    elim (Bool-cases (is_initialize p.method)) [
      | inl first ↦ rw (first, same) gone
      | inr later ↦ rw (later, same) gone
    ]

retire-output :
    (p : Pending) (b : Body) (g : Guard)
    → ((retire p b g).closed ≡ g.closed) × ((retire p b g).output ≡ g.output)
unfolding retire
retire-output p b g = elim (Bool-cases (is_initialize p.method)) [
  | inl first ↦ rw first (refl, refl)
  | inr later ↦ rw later (refl, refl)
]

send-open : (r : Response) (g : Guard) → g.closed ≡ false → (send true r g).0.output ≡ r ∷ g.output
unfolding send
send-open r g live = rw live refl

write_response-answers :
    (encodable : Bool) (k v : Text) (code : Option Code) (g : Guard)
    → IsValid g
    → Holds k v g
    → g.closed ≡ false
    → ((write_response true encodable k code g).0.output
        ≡ record { wire = some v; body = body_of encodable code } ∷ g.output)
      × (named k (write_response true encodable k code g).0.pending ≡ none)
unfolding write_response Holds
write_response-answers encodable k v code g valid h live =
    let p = holds-named k v g.pending h in
    let b = body_of encodable code in
    let gone = named_once k p.0 b g valid p.1 in
    let kept = retire-output p.0 b g in
    let sent =
      send-open (record { wire = some p.0.wire; body = b }) (retire p.0 b g) (kept.0 ∙ live) in
    let same : p.0.wire ≡ v = p.2 in
    rw (write_response, p.1)
      (
        sent ∙ (rw (same, kept.1) refl),
        ap (named k)
              (send-pending true (record { wire = some p.0.wire; body = b }) (retire p.0 b g))
            ∙ gone,
      )

-- A call that was delivered under a key waits for the answer under that key, whatever is read, cancelled or
-- answered in between: with the socket still open, the answer then goes to the client once, under exactly
-- the identity of the call's own line, and the key is free again.
pub delivered_answered :
    (format : ℤ → Text) (works encodable : Bool) (code : Option Code) (k : Text) (w : Wire)
    (q r : Request) (later es : List Event)
    → q.id ≡ some w
    → (read_line format works (request q) (play format es)).1 ≡ deliver k r
    → unanswered k w.raw later ≡ true
    → (play format (later ++ reads works (request q) ∷ es)).closed ≡ false
    → let g = play format (later ++ reads works (request q) ∷ es) in
      let o = write_response true encodable k code g in
      (o.0.output ≡ record { wire = some w.raw; body = body_of encodable code } ∷ g.output)
      × (named k o.0.pending ≡ none)
unfolding play
delivered_answered format works encodable code k w q r later es i d u live =
    let g = play format (later ++ reads works (request q) ∷ es) in
    write_response-answers encodable k w.raw code g
      (play-IsValid format (later ++ reads works (request q) ∷ es))
      (play-Holds k w.raw format later (reads works (request q) ∷ es) u
        (read_line-Delivers k r format works w q (play format es) i d))
      live
