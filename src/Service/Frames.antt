-- ===== src/Service/Frames.antt =====
-- `readFrameLimit` and `writeFrameLimit` of internal/service/management.go: a length in four bytes, and a
-- document.
pub mod RoundTrip
use data_mate.Base.{
  ℕ, zero, suc, ◌+◌, ◌*◌, Bool, not, ◌&&◌, ◌||◌, Option, none, some, List, [], ◌∷◌, ◌++◌, Text,
  length, ltb, leb, ◌==◌, if◌then◌else◌,
}
use Prim.Native.Nat.{◌/◌, ◌%◌}

abbrev pub management_limit : ℕ
management_limit = 8388608

-- `^uint32(0)`.
abbrev pub max_uint32 : ℕ
max_uint32 = 4294967295

-- `binary.BigEndian.PutUint32`.
unfoldable pub put_uint32 : ℕ → Text
put_uint32 n = n / 16777216 % 256 ∷ n / 65536 % 256 ∷ n / 256 % 256 ∷ n % 256 ∷ []

-- `binary.BigEndian.Uint32`.
unfoldable pub uint32 : ℕ → ℕ → ℕ → ℕ → ℕ
uint32 a b c d = a * 16777216 + b * 65536 + c * 256 + d

-- `io.ReadFull`: the first bytes and what is left of the stream.
unfoldable pub read_full : ℕ → Text → Option (Text × Text)
read_full zero s = some ([], s)
read_full (suc n) [] = none
read_full (suc n) (c ∷ s) = elim (read_full n s) [ none ↦ none | some r ↦ some (c ∷ r.0, r.1) ]

-- How a read ends: with the document and the rest of the stream, `ErrState`, or a stream that is too short.
pub data Frame (Document : Type 0) : Type 0 where
  ended bad_state : Frame Document
  framed : Document → Text → Frame Document

-- No limit is zero.
abbrev pub exceeds : ℕ → ℕ → Bool
exceeds limit n = ltb 0 limit && ltb limit n

module _ {Document : Type 0} (decode : Text → ℕ → Option Document) where
  abbrev pub decoded : ℕ → ℕ → Text × Text → Frame Document
  decoded limit n r = elim (decode r.0 (if limit == 0 then n else limit)) [
    | none ↦ bad_state
    | some d ↦ framed d r.1
  ]

  abbrev pub read_body : ℕ → ℕ → Text → Frame Document
  read_body limit n s =
      if n == 0 || exceeds limit n
      then bad_state
      else elim (read_full n s) [ none ↦ ended | some r ↦ decoded limit n r ]

  -- `readFrameLimit`; `decode` is `config.DecodeStrict`.
  unfoldable pub read_frame : ℕ → Text → Frame Document
  unfolding read_full uint32
  read_frame limit (a ∷ b ∷ c ∷ d ∷ s) = read_body limit (uint32 a b c d) s
  read_frame limit (a ∷ b ∷ c ∷ []) = ended
  read_frame limit (a ∷ b ∷ []) = ended
  read_frame limit (a ∷ []) = ended
  read_frame limit [] = ended

-- `writeFrameLimit` after `json.Marshal`: the bytes that are written, unless `ErrState` is returned.
unfoldable pub write_frame : ℕ → Option Text → Option Text
unfolding put_uint32
write_frame limit none = none
write_frame limit (some raw) =
    if ltb max_uint32 (length raw) || exceeds limit (length raw)
    then none
    else some (put_uint32 (length raw) ++ raw)
