-- ===== src/Mcp/Gate.antt =====
-- Which calls internal/mcp/session.go lets through to the server, and under which keys.
use data_mate.Base.{
  ℕ, zero, suc, ◌≡◌, ◌↔◌, refl, sym, ap, subst, Bool, true, false, not, ◌&&◌, ◌||◌, Option, none,
  some, List, [], ◌∷◌, ◌++◌, Text, bytes, text_eq, text_eq_iff, length, ltb, any, find, ℤ,
  if◌then◌else◌, Bool-cases, Option-cases, inl, inr, arith, is_empty,
}
use data_mate.Mcp.{
  Meaning, text, integer, neither, key_of, Wire, request_id, Request, request, Response, Pending,
  Guard, deliver, send, reject, is_pending, named, is_initialize, refusal, call_request, with_id,
  take_request, read_line, max_concurrent,
}

-- What is asked of a call: it is no discovery, its key is not in use, there is room, it is the first
-- `initialize`, or a ping, or the session is ready.
unfoldable pub may_enter : Text → Text → Guard → Bool
may_enter k m g =
    not (text_eq m (bytes "server/discover"))
    && not (any (is_pending k) g.pending)
    && ltb (length g.pending) max_concurrent
    && (if is_initialize m
        then not g.init_sent && not g.initializing
        else text_eq m (bytes "ping") || g.ready)

named-any : (k : Text) (ps : List Pending) → (named k ps ≡ none) ↔ (any (is_pending k) ps ≡ false)
unfolding find any
named-any k [] = (λ h. refl, λ h. refl)
named-any k (o ∷ ps) = ground (arith, named-any k ps)

refusal-enters :
    (k m : Text) (g : Guard)
    → ((refusal m g ≡ none) × (named k g.pending ≡ none)) ↔ (may_enter k m g ≡ true)
unfolding refusal may_enter
refusal-enters k m g = ground (arith, named-any k g.pending)

send-quiet :
    (works : Bool) (a : Response) (g : Guard) (k : Text) (q : Request)
    → ¬ ((send works a g).1 ≡ deliver k q)
unfolding send
send-quiet works a g k q = elim (Bool-cases (works && not g.closed)) [
  | inl goes ↦ rw goes (λ d. cc)
  | inr fails ↦ rw fails (λ d. cc)
]

call_request-enters :
    (works : Bool) (j k : Text) (w : Wire) (q : Request) (g : Guard)
    → ((call_request works j w q g).1 ≡ deliver k q) ↔ ((j ≡ k) × (may_enter k q.method g ≡ true))
unfolding call_request
call_request-enters works j k w q g = elim (Option-cases (named j g.pending)) [
  | inr (p, old) ↦
      rw (call_request, old)
        (
          (λ d. cc),
          (λ m.
              let free = (refusal-enters k q.method g).1 m.1 in
              let e : j ≡ k = m.0 in let here : named k g.pending ≡ some p = rw (← e) old in cc),
        )
  | inl new ↦ elim (Option-cases (refusal q.method g)) [
    | inl fine ↦
        rw (call_request, new, fine)
          (
            (λ d. let e : j ≡ k = cc in (e, (refusal-enters k q.method g).0 (fine, rw (← e) new))),
            (λ m. let e : j ≡ k = m.0 in ap (λ x. deliver x q) e),
          )
    | inr (code, bad) ↦
        rw (call_request, new, bad)
          (
            (λ d. absurd (send-quiet works _ g k q d)),
            (λ m. let free = (refusal-enters k q.method g).1 m.1 in cc),
          )
  ]
]

with_id-enters :
    (format : ℤ → Text) (works : Bool) (k : Text) (w : Wire) (q : Request) (g : Guard)
    → ((with_id format works w q g).1 ≡ deliver k q) ↔ (
        (request_id format w ≡ some k)
        × (is_empty q.method ≡ false)
        × (may_enter k q.method g ≡ true))
unfolding with_id reject
with_id-enters format works k w q g = elim (Option-cases (request_id format w)) [
  | inl bad ↦
      rw (with_id, bad) ((λ d. absurd (send-quiet works _ g k q d)), (λ m. let e = m.0 in cc))
  | inr (j, good) ↦ elim (Bool-cases (is_empty q.method)) [
    | inl empty ↦
        rw (with_id, good, empty)
          ((λ d. absurd (send-quiet works _ g k q d)), (λ m. let e = m.1 in cc))
    | inr full ↦
        let calls = call_request-enters works j k w q g in
        rw (with_id, good, full)
          (
            (λ d. let m = calls.0 d in let e : j ≡ k = m.0 in (ap some e, refl, m.1)),
            (λ m. let e : j ≡ k = cc in calls.1 (e, m.2)),
          )
  ]
]

-- A call reaches the server, under a key, exactly if that is the key of its identity, it has a method
-- other than discovery, the key is not in use, fewer than 16 calls are pending, and it is an
-- `initialize` where none has succeeded or is pending, or a ping, or the session is ready.
pub read_line-enters :
    (format : ℤ → Text) (works : Bool) (k : Text) (w : Wire) (q : Request) (g : Guard)
    → q.id ≡ some w
    → ((read_line format works (request q) g).1 ≡ deliver k q) ↔ (
        (request_id format w ≡ some k)
        × (is_empty q.method ≡ false)
        × (may_enter k q.method g ≡ true))
unfolding read_line take_request
read_line-enters format works k w q g i =
    subst
      (λ (o : Option Wire). ((take_request format works q o g).1 ≡ deliver k q) ↔ (
        (request_id format w ≡ some k)
        × (is_empty q.method ≡ false)
        × (may_enter k q.method g ≡ true)))
      (sym i) (with_id-enters format works k w q g)

drop : ℕ → Text → Text
drop zero s = s
drop (suc n) [] = []
drop (suc n) (c ∷ s) = drop n s

string-number : (s t : Text) → ¬ (bytes "string:" ++ s ≡ bytes "number:" ++ t)
unfolding text_eq
string-number s t e =
    let same : text_eq (bytes "string:" ++ s) (bytes "number:" ++ t) ≡ true =
      (text_eq_iff (bytes "string:" ++ s) (bytes "number:" ++ t)).1 e in
    let other : text_eq (bytes "string:" ++ s) (bytes "number:" ++ t) ≡ false = refl in cc

some-same : {a b k : Text} → some a ≡ some k → some b ≡ some k → a ≡ b
some-same f g = cc

key_of-meaning :
    (format : ℤ → Text) (a b : Meaning) (k : Text)
    → ((m n : ℤ) → format m ≡ format n → m ≡ n)
    → key_of format a ≡ some k
    → key_of format b ≡ some k
    → a ≡ b
unfolding drop
key_of-meaning format (text s) (text t) k distinct f g = ap text (ap (drop 7) (some-same f g))
key_of-meaning format (text s) (integer n) k distinct f g =
    absurd (string-number s (format n) (some-same f g))
key_of-meaning format (text s) neither k distinct f g = cc
key_of-meaning format (integer m) (text t) k distinct f g =
    absurd (string-number t (format m) (some-same g f))
key_of-meaning format (integer m) (integer n) k distinct f g =
    ap integer (distinct m n (ap (drop 7) (some-same f g)))
key_of-meaning format (integer m) neither k distinct f g = cc
key_of-meaning format neither b k distinct f g = cc

-- Two identities have one key only if JSON gives both one meaning, where numbers are written in distinct ways:
-- a string never takes the key of a number.
pub request_id-meaning :
    (format : ℤ → Text) (v w : Wire) (k : Text)
    → ((m n : ℤ) → format m ≡ format n → m ≡ n)
    → request_id format v ≡ some k
    → request_id format w ≡ some k
    → v.meaning ≡ w.meaning
unfolding request_id
request_id-meaning format v w k distinct a b =
    key_of-meaning format v.meaning w.meaning k distinct a b
