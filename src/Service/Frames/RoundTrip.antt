-- ===== src/Service/Frames/RoundTrip.antt =====
-- What is written is read back, and nothing else is read.
use data_mate.Base.{
  ℕ, zero, suc, ◌+◌, ◌*◌, ◌≤◌, ◌<◌, ◌≡◌, refl, sym, ap, ◌∙◌, subst, false, ◌||◌, Option, none, some,
  [], ◌∷◌, ◌++◌, Text, length, All, ltb, ◌==◌, if◌then◌else◌, Bool-cases, Option-cases,
  some-injective, inl, inr, arith,
}
use Prim.Native.Nat.{◌/◌, ◌%◌}
use mathlib.Core.List.{append_assoc}
use data_mate.Service.Frames.{
  Frame, put_uint32, uint32, read_full, ended, bad_state, framed, exceeds, max_uint32, decoded,
  read_body, read_frame, write_frame,
}

uint32-put :
    (n : ℕ)
    → n ≤ max_uint32
    → uint32 (n / 16777216 % 256) (n / 65536 % 256) (n / 256 % 256) (n % 256) ≡ n
unfolding uint32
uint32-put n h = omega arith

put_uint32-uint32 :
    (a b c d : ℕ)
    → a < 256
    → b < 256
    → c < 256
    → d < 256
    → put_uint32 (uint32 a b c d) ≡ a ∷ b ∷ c ∷ d ∷ []
unfolding put_uint32 uint32
put_uint32-uint32 a b c d i j k l =
    let n : ℕ = a * 16777216 + b * 65536 + c * 256 + d in
    let first : n / 16777216 % 256 ≡ a = omega arith in
    let second : n / 65536 % 256 ≡ b = omega arith in
    let third : n / 256 % 256 ≡ c = omega arith in
    let fourth : n % 256 ≡ d = omega arith in λ t. first t ∷ second t ∷ third t ∷ fourth t ∷ []

read_full-append : (s rest : Text) → read_full (length s) (s ++ rest) ≡ some (s, rest)
unfolding read_full
read_full-append [] rest = refl
read_full-append (c ∷ s) rest = rw (read_full-append s rest) refl

read_full-split :
    (n : ℕ) (s : Text) (r : Text × Text)
    → read_full n s ≡ some r
    → (s ≡ r.0 ++ r.1) × (length r.0 ≡ n)
unfolding read_full
read_full-split zero s r h =
    let same : ([], s) ≡ r = some-injective h in
    subst (λ q. (s ≡ q.0 ++ q.1) × (length q.0 ≡ 0)) same (refl, refl)
read_full-split (suc n) [] r h = cc
read_full-split (suc n) (c ∷ s) r h = elim (Option-cases (read_full n s)) [
  | inl short ↦ let wrong : none ≡ some r = rw (read_full, short) at h in cc
  | inr (q, found) ↦
      let same : (c ∷ q.0, q.1) ≡ r = some-injective (rw (read_full, found) at h) in
      let split = read_full-split n s q found in
      subst (λ p. (c ∷ s ≡ p.0 ++ p.1) × (length p.0 ≡ suc n)) same
        (ap (λ t. c ∷ t) split.0, ap suc split.1)
]

module _ {Document : Type 0} (decode : Text → ℕ → Option Document) (limit : ℕ) where
  abbrev pub bound_of : Text → ℕ
  bound_of raw = if limit == 0 then length raw else limit

  -- What a reader is given where `DecodeStrict` reads the document, and where it does not.
  abbrev pub read_as : Option Document → Text → Frame Document
  read_as none rest = bad_state
  read_as (some d) rest = framed d rest

  read_body-append :
      (raw rest : Text)
      → (length raw == 0 || exceeds limit (length raw)) ≡ false
      → read_body decode limit (length raw) (raw ++ rest) ≡ read_as (decode raw (bound_of raw)) rest
  read_body-append raw rest fits = elim (Option-cases (decode raw (bound_of raw))) [
    | inl unread ↦ rw (fits, read_full-append raw rest, decoded, unread) refl
    | inr (d, reads) ↦ rw (fits, read_full-append raw rest, decoded, reads) refl
  ]

  -- What is written for a document that is not empty, under a limit, reaches `DecodeStrict` whole and alone under the
  -- same limit: the reader returns what `DecodeStrict` makes of exactly these bytes and leaves the
  -- rest of the stream as it is, or returns the error where `DecodeStrict` refuses them.
  pub read_frame-write_frame :
      (raw sent rest : Text)
      → 0 < length raw
      → write_frame limit (some raw) ≡ some sent
      → read_frame decode limit (sent ++ rest) ≡ read_as (decode raw (bound_of raw)) rest
  unfolding write_frame read_frame
  read_frame-write_frame raw sent rest some_bytes h =
      elim (Bool-cases (ltb max_uint32 (length raw) || exceeds limit (length raw))) [
        | inl large ↦ let wrong : none ≡ some sent = rw (write_frame, large) at h in cc
        | inr fits ↦
            let same : put_uint32 (length raw) ++ raw ≡ sent =
              some-injective (rw (write_frame, fits) at h) in
            let length_back = uint32-put (length raw) (ground arith) in
            rw (sym same) (
              ap (λ n. read_body decode limit n (raw ++ rest)) length_back
              ∙ read_body-append raw rest (ground arith))
      ]

  abbrev IsFrame : ℕ → Text → Text → Document → Type 0
  IsFrame n s rest d =
      (raw : Text) × (s ≡ raw ++ rest)
      × (length raw ≡ n)
      × (0 < length raw)
      × (exceeds limit (length raw) ≡ false)
      × (decode raw (bound_of raw) ≡ some d)

  read_body-split :
      (n : ℕ) (s rest : Text) (d : Document)
      → read_body decode limit n s ≡ framed d rest
      → IsFrame n s rest d
  read_body-split n s rest d h = elim (Bool-cases (n == 0 || exceeds limit n)) [
    | inl bad ↦ let wrong : bad_state ≡ framed d rest = rw bad at h in cc
    | inr fits ↦ elim (Option-cases (read_full n s)) [
      | inl short ↦ let wrong : ended ≡ framed d rest = rw (fits, short) at h in cc
      | inr (q, found) ↦
          let split = read_full-split n s q found in
          elim (Option-cases (decode q.0 (bound_of q.0))) [
            | inl unread ↦
                let wrong : bad_state ≡ framed d rest =
                  rw (fits, found, sym split.1, decoded, unread) at h in
                cc
            | inr (e, reads) ↦
                let same : framed e q.1 ≡ framed d rest =
                  rw (fits, found, sym split.1, decoded, reads) at h in
                let bytes_left : q.1 ≡ rest = cc in
                let document : e ≡ d = cc in
                (
                  q.0,
                  rw (sym bytes_left) split.0,
                  split.1,
                  ground (arith, split.1),
                  ground (arith, split.1),
                  reads ∙ ap some document,
                )
          ]
    ]
  ]

  -- A frame that is accepted under a limit is a nonempty document within it, preceded by its length, which
  -- `DecodeStrict` reads; what follows is left on the stream. The stream consists of bytes.
  pub read_frame-exact :
      (s rest : Text) (d : Document)
      → All (λ c. c < 256) s
      → read_frame decode limit s ≡ framed d rest
      → (raw : Text) × (s ≡ put_uint32 (length raw) ++ raw ++ rest)
        × (0 < length raw)
        × (exceeds limit (length raw) ≡ false)
        × (decode raw (bound_of raw) ≡ some d)
  unfolding read_frame
  read_frame-exact [] rest d small h = cc
  read_frame-exact (a ∷ []) rest d small h = cc
  read_frame-exact (a ∷ b ∷ []) rest d small h = cc
  read_frame-exact (a ∷ b ∷ c ∷ []) rest d small h = cc
  read_frame-exact (a ∷ b ∷ c ∷ e ∷ s) rest d small h =
      let f = read_body-split (uint32 a b c e) s rest d h in
      let front = put_uint32-uint32 a b c e small.0 small.1.0 small.1.1.0 small.1.1.1.0 in
      let whole : a ∷ b ∷ c ∷ e ∷ s ≡ put_uint32 (length f.0) ++ f.0 ++ rest =
        ap (λ t. a ∷ b ∷ c ∷ e ∷ t) f.1
        ∙ ap (λ t. t ++ (f.0 ++ rest)) (sym front ∙ ap put_uint32 (sym f.2))
        ∙ sym (append_assoc (put_uint32 (length f.0)) f.0 rest) in
      (f.0, whole, f.3, f.4, f.5)
