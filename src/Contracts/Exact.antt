-- ===== src/Contracts/Exact.antt =====
-- `checkJSON` of internal/contracts/json.go against a recursive description on the JSON value.
use data_mate.Base.{
  ℕ, suc, ◌≡◌, refl, Bool, true, false, not, ◌&&◌, none, some, List, [], ◌∷◌, Text, contains,
  length, ltb, if◌then◌else◌, arith,
}
use data_mate.Contracts.Check.{
  Token, open_object, close_object, open_array, close_array, scalar, string, Frame, complete,
  check_json, Verdict, accepted, rejected_key, rejected_depth, panicked,
}

mutual
  -- A JSON value; numbers, Booleans and null are leaves.
  pub data Json : Type 0 where
    leaf : Json
    text : Text → Json
    array : Items → Json
    object : Fields → Json

  pub data Items : Type 0 where
    nil : Items
    item : Json → Items → Items

  pub data Fields : Type 0 where
    end : Fields
    field : Text → Json → Fields → Fields

-- The tokens of a value, in front of those that follow it.
unfoldable mutual
  pub tokens : Json → List Token → List Token
  tokens leaf ts = scalar ∷ ts
  tokens (text s) ts = string s ∷ ts
  tokens (array xs) ts = open_array ∷ item_tokens xs ts
  tokens (object fs) ts = open_object ∷ field_tokens fs ts

  pub item_tokens : Items → List Token → List Token
  item_tokens nil ts = close_array ∷ ts
  item_tokens (item v xs) ts = tokens v (item_tokens xs ts)

  pub field_tokens : Fields → List Token → List Token
  field_tokens end ts = close_object ∷ ts
  field_tokens (field k v fs) ts = string k ∷ tokens v (field_tokens fs ts)

-- A value below `depth` brackets is within the limit, where 0 is no limit.
abbrev pub fits : ℕ → ℕ → Bool
fits max depth = not (ltb 0 max && ltb max depth)

-- The second verdict counts where the first part has no fault.
abbrev pub follow : Verdict → Verdict → Verdict
follow accepted w = w
follow rejected_key w = rejected_key
follow rejected_depth w = rejected_depth
follow panicked w = panicked

-- The first fault of a value in reading order.
unfoldable mutual
  pub fault : ℕ → ℕ → Json → Verdict
  fault max d leaf = if fits max d then accepted else rejected_depth
  fault max d (text s) = if fits max d then accepted else rejected_depth
  fault max d (array xs) = if fits max d then item_fault max (suc d) xs else rejected_depth
  fault max d (object fs) = if fits max d then field_fault max (suc d) [] fs else rejected_depth

  pub item_fault : ℕ → ℕ → Items → Verdict
  item_fault max d nil = accepted
  item_fault max d (item v xs) = follow (fault max d v) (item_fault max d xs)

  pub field_fault : ℕ → ℕ → List Text → Fields → Verdict
  field_fault max d seen end = accepted
  field_fault max d seen (field k v fs) =
      if contains k seen
      then rejected_key
      else follow (fault max d v) (field_fault max d (k ∷ seen) fs)

-- A value may start: the innermost object does not wait for a key.
abbrev pub IsReady : List Frame → Type 0
IsReady [] = Unit {0}
IsReady (f ∷ stack) = f.key ≡ false

abbrev in_array : List Frame → List Frame
in_array stack = record { keys = none; key = false } ∷ stack

abbrev at_key : List Text → List Frame → List Frame
at_key seen stack = record { keys = some seen; key = true } ∷ stack

abbrev at_value : List Text → List Frame → List Frame
at_value seen stack = record { keys = some seen; key = false } ∷ stack

module _ (max : ℕ) where
  check-scalar :
      (stack : List Frame) (ts : List Token)
      → IsReady stack
      → check_json max stack (scalar ∷ ts)
        ≡ (if fits max (length stack) then check_json max (complete stack) ts else rejected_depth)
  unfolding check_json
  check-scalar [] ts h = ground arith
  check-scalar (f ∷ stack) ts h = ground arith

  check-string :
      (stack : List Frame) (s : Text) (ts : List Token)
      → IsReady stack
      → check_json max stack (string s ∷ ts)
        ≡ (if fits max (length stack) then check_json max (complete stack) ts else rejected_depth)
  unfolding check_json
  check-string [] s ts h = ground arith
  check-string (f ∷ stack) s ts h = ground arith

  check-open_array :
      (stack : List Frame) (ts : List Token)
      → IsReady stack
      → check_json max stack (open_array ∷ ts)
        ≡ (if fits max (length stack) then check_json max (in_array stack) ts else rejected_depth)
  unfolding check_json
  check-open_array [] ts h = ground arith
  check-open_array (f ∷ stack) ts h = ground arith

  check-open_object :
      (stack : List Frame) (ts : List Token)
      → IsReady stack
      → check_json max stack (open_object ∷ ts)
        ≡ (if fits max (length stack) then check_json max (at_key [] stack) ts else rejected_depth)
  unfolding check_json
  check-open_object [] ts h = ground arith
  check-open_object (f ∷ stack) ts h = ground arith

  check-key :
      (stack : List Frame) (seen : List Text) (k : Text) (ts : List Token)
      → check_json max (at_key seen stack) (string k ∷ ts)
        ≡ (if contains k seen then rejected_key else check_json max (at_value (k ∷ seen) stack) ts)
  unfolding check_json
  check-key stack seen k ts = ground arith

  check-close_array :
      (stack : List Frame) (ts : List Token)
      → check_json max (in_array stack) (close_array ∷ ts) ≡ check_json max (complete stack) ts
  unfolding check_json
  check-close_array stack ts = refl

  check-close_object :
      (stack : List Frame) (seen : List Text) (ts : List Token)
      → check_json max (at_key seen stack) (close_object ∷ ts) ≡ check_json max (complete stack) ts
  unfolding check_json
  check-close_object stack seen ts = refl

follow_assoc : (a b c : Verdict) → follow a (follow b c) ≡ follow (follow a b) c
follow_assoc accepted b c = refl
follow_assoc rejected_key b c = refl
follow_assoc rejected_depth b c = refl
follow_assoc panicked b c = refl

mutual
  unfolding tokens item_tokens field_tokens fault item_fault field_fault complete

  check-tokens :
      (v : Json) (max : ℕ) (stack : List Frame) (ts : List Token)
      → IsReady stack
      → check_json max stack (tokens v ts)
        ≡ follow (fault max (length stack) v) (check_json max (complete stack) ts)
  check-tokens leaf max stack ts h = ground (arith, check-scalar max stack ts h)
  check-tokens (text s) max stack ts h = ground (arith, check-string max stack s ts h)
  check-tokens (array xs) max stack ts h =
      ground
        (arith, check-open_array max stack (item_tokens xs ts) h, check-item_tokens xs max stack ts)
  check-tokens (object fs) max stack ts h = ground (
    arith,
    check-open_object max stack (field_tokens fs ts) h,
    check-field_tokens fs max stack [] ts,
  )

  check-item_tokens :
      (xs : Items) (max : ℕ) (stack : List Frame) (ts : List Token)
      → check_json max (in_array stack) (item_tokens xs ts)
        ≡ follow (item_fault max (suc (length stack)) xs) (check_json max (complete stack) ts)
  check-item_tokens nil max stack ts = check-close_array max stack ts
  check-item_tokens (item v xs) max stack ts =
      rw (check-tokens v max (in_array stack) (item_tokens xs ts) refl) (
        rw (check-item_tokens xs max stack ts) (
          follow_assoc (fault max (length (in_array stack)) v)
            (item_fault max (suc (length stack)) xs) (check_json max (complete stack) ts)))

  check-field_tokens :
      (fs : Fields) (max : ℕ) (stack : List Frame) (seen : List Text) (ts : List Token)
      → check_json max (at_key seen stack) (field_tokens fs ts)
        ≡ follow (field_fault max (suc (length stack)) seen fs) (check_json max (complete stack) ts)
  check-field_tokens end max stack seen ts = check-close_object max stack seen ts
  check-field_tokens (field k v fs) max stack seen ts = ground (
    arith,
    check-key max stack seen k (tokens v (field_tokens fs ts)),
    check-tokens v max (at_value (k ∷ seen) stack) (field_tokens fs ts) refl,
    check-field_tokens fs max stack (k ∷ seen) ts,
    follow_assoc (fault max (suc (length stack)) v)
        (field_fault max (suc (length stack)) (k ∷ seen) fs) (check_json max (complete stack) ts),
  )

-- On the tokens of a JSON value the check never panics, and its verdict is the value's first fault
-- in reading order: a duplicate key of one object, or a value below more brackets than the limit.
pub check_json-exact : (max : ℕ) (v : Json) → check_json max [] (tokens v []) ≡ fault max 0 v
unfolding check_json complete
check_json-exact max v = ground (arith, check-tokens v max [] [] tt)
