-- ===== src/Contracts/Limits.antt =====
-- When `checkJSON` of internal/contracts/json.go accepts: unique keys and bounded nesting.
use data_mate.Base.{
  ℕ, suc, ◌+◌, ◌≤◌, ◌≡◌, refl, ◌↔◌, ◌⊎◌, Bool, true, false, not, ◌&&◌, List, [], ◌∷◌, Text,
  contains, max, arith,
}
use data_mate.Contracts.Check.{
  check_json, Verdict, accepted, rejected_key, rejected_depth, panicked,
}
use data_mate.Contracts.Exact.{
  Json, leaf, text, array, object, Items, nil, item, Fields, end, field, tokens, fits, follow,
  fault, item_fault, field_fault, check_json-exact,
}

-- How many brackets stand around the deepest value.
mutual
  pub depth : Json → ℕ
  depth leaf = 0
  depth (text s) = 0
  depth (array xs) = item_depth xs
  depth (object fs) = field_depth fs

  pub item_depth : Items → ℕ
  item_depth nil = 0
  item_depth (item v xs) = max (suc (depth v)) (item_depth xs)

  pub field_depth : Fields → ℕ
  field_depth end = 0
  field_depth (field k v fs) = max (suc (depth v)) (field_depth fs)

-- No object has a key twice, nor one of `seen`.
mutual
  pub unique : Json → Bool
  unique leaf = true
  unique (text s) = true
  unique (array xs) = item_unique xs
  unique (object fs) = field_unique [] fs

  pub item_unique : Items → Bool
  item_unique nil = true
  item_unique (item v xs) = unique v && item_unique xs

  pub field_unique : List Text → Fields → Bool
  field_unique seen end = true
  field_unique seen (field k v fs) =
      not (contains k seen) && (unique v && field_unique (k ∷ seen) fs)

abbrev accepts : Verdict → Bool
accepts accepted = true
accepts rejected_key = false
accepts rejected_depth = false
accepts panicked = false

accepts-follow : (a b : Verdict) → accepts (follow a b) ≡ (accepts a && accepts b)
accepts-follow accepted b = refl
accepts-follow rejected_key b = refl
accepts-follow rejected_depth b = refl
accepts-follow panicked b = refl

mutual
  unfolding fault item_fault field_fault depth item_depth field_depth unique item_unique
      field_unique

  accepts-fault :
      (v : Json) (limit d : ℕ) → accepts (fault limit d v) ≡ (unique v && fits limit (d + depth v))
  accepts-fault leaf limit d = ground arith
  accepts-fault (text s) limit d = ground arith
  accepts-fault (array xs) limit d = ground (arith, accepts-item_fault xs limit d)
  accepts-fault (object fs) limit d = ground (arith, accepts-field_fault fs limit d [])

  accepts-item_fault :
      (xs : Items) (limit d : ℕ)
      → (fits limit d && accepts (item_fault limit (suc d) xs))
        ≡ (item_unique xs && fits limit (d + item_depth xs))
  accepts-item_fault nil limit d = ground arith
  accepts-item_fault (item v xs) limit d = ground (
    arith,
    accepts-fault v limit (suc d),
    accepts-item_fault xs limit d,
    accepts-follow (fault limit (suc d) v) (item_fault limit (suc d) xs),
  )

  accepts-field_fault :
      (fs : Fields) (limit d : ℕ) (seen : List Text)
      → (fits limit d && accepts (field_fault limit (suc d) seen fs))
        ≡ (field_unique seen fs && fits limit (d + field_depth fs))
  accepts-field_fault end limit d seen = ground arith
  accepts-field_fault (field k v fs) limit d seen = ground (
    arith,
    accepts-fault v limit (suc d),
    accepts-field_fault fs limit d (k ∷ seen),
    accepts-follow (fault limit (suc d) v) (field_fault limit (suc d) (k ∷ seen) fs),
  )

accepts_iff : (w : Verdict) → (accepts w ≡ true) ↔ (w ≡ accepted)
accepts_iff w = ground arith

-- The check accepts the tokens of a JSON value exactly when no object in it, at any depth, has a
-- duplicate key, and the limit is 0 or no value stands inside more brackets than the limit.
pub check_json-accepts :
    (limit : ℕ) (v : Json)
    → (check_json limit [] (tokens v []) ≡ accepted)
      ↔ ((unique v ≡ true) × ((limit ≡ 0) ⊎ (depth v ≤ limit)))
check_json-accepts limit v =
    ground (arith, check_json-exact limit v, accepts-fault v limit 0, accepts_iff (fault limit 0 v))
