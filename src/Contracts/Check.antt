-- ===== src/Contracts/Check.antt =====
-- `checkJSON` of internal/contracts/json.go. The tokens are those of `json.Decoder.Token`; a
-- number, a Boolean and null are told apart by nothing that the function looks at.
use data_mate.Base.{
  ℕ, suc, take, not, ◌||◌, ◌≡◌, refl, Bool, true, false, ◌&&◌, Option, none, some, List, [], ◌∷◌,
  Text, bytes, contains, text_eq, length, ltb, if◌then◌else◌,
}

pub data Token : Type 0 where
  open_object close_object open_array close_array scalar : Token
  string : Text → Token

-- `keys` is nil in an array; `key` says that the next token is a key.
pub record Frame : Type 0 where
  pub keys : Option (List Text)
  pub key : Bool

pub data Step : Type 0 where
  next : List Frame → Step
  duplicate_key nesting_limit panic : Step

-- The closure `complete`: a value has ended, so an object expects a key again.
unfoldable pub complete : List Frame → List Frame
complete [] = []
complete (f ∷ stack) = elim f.keys [ none ↦ f ∷ stack | some ks ↦ record f { key = true } ∷ stack ]

-- `stack[:len(stack)-1]` panics on the empty stack.
close : List Frame → Step
close [] = panic
close (f ∷ stack) = next (complete stack)

-- `switch token`.
start : List Frame → Token → Step
start stack open_object = next (record { keys = some []; key = true } ∷ stack)
start stack open_array = next (record { keys = none; key = false } ∷ stack)
start stack _ = next (complete stack)

-- A token where a value is expected.
value : ℕ → List Frame → Token → Step
value max stack token =
    if ltb 0 max && ltb max (length stack) then nesting_limit else start stack token

-- A token where a key is expected; an assignment to a nil map panics.
take_key : Frame → List Frame → Token → Step
take_key f stack (string k) = elim f.keys [
  | none ↦ panic
  | some ks ↦
      if contains k ks
      then duplicate_key
      else next (record { keys = some (k ∷ ks); key = false } ∷ stack)
]
take_key f stack _ = duplicate_key

expect : ℕ → List Frame → Token → Step
expect max [] token = value max [] token
expect max (f ∷ stack) token = if f.key then take_key f stack token else value max (f ∷ stack) token

unfoldable pub step : ℕ → List Frame → Token → Step
unfolding complete close start value take_key expect
step max stack close_object = close stack
step max stack close_array = close stack
step max stack token = expect max stack token

pub data Verdict : Type 0 where
  accepted rejected_key rejected_depth panicked : Verdict

-- The loop over the tokens; at the end of the input the value is accepted.
unfoldable pub check_json : ℕ → List Frame → List Token → Verdict
unfolding step
check_json max stack [] = accepted
check_json max stack (t ∷ ts) = elim (step max stack t) [
  | next stack' ↦ check_json max stack' ts
  | duplicate_key ↦ rejected_key
  | nesting_limit ↦ rejected_depth
  | panic ↦ panicked
]

abbrev pub is_accepted : Verdict → Bool
is_accepted accepted = true
is_accepted rejected_key = false
is_accepted rejected_depth = false
is_accepted panicked = false

abbrev pub checked_tokens : ℕ → Option (List Token) → Bool
checked_tokens max none = false
checked_tokens max (some ts) = is_accepted (check_json max [] ts)

-- `JSON`, with what is read, or an error; `utf8` and `tokenize` are those of the libraries, and give no
-- tokens to what is no JSON value.
unfoldable pub json : (Text → Bool) → (Text → Option (List Token)) → ℕ → Option Text → Option Text
json utf8 tokenize limit none = none
json utf8 tokenize limit (some read) =
    let b = take (suc limit) read in
    if ltb limit (length b) || not (utf8 b)
    then none
    else if checked_tokens 64 (tokenize b)
    then some b
    else none

nested_duplicate :
    check_json 64 [] (
      open_object
      ∷ string (bytes "a")
      ∷ open_object
      ∷ string (bytes "b")
      ∷ scalar
      ∷ string (bytes "b")
      ∷ scalar
      ∷ close_object
      ∷ close_object
      ∷ [])
    ≡ rejected_key
unfolding check_json contains text_eq
nested_duplicate = refl
