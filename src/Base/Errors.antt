-- ===== src/Base/Errors.antt =====
-- Errors as values. The errors of internal/config, internal/vault and the context, in one type, since
-- they pass from package to package.
use mathlib.Core.Path.{◌≡◌, refl}
use mathlib.Core.Bool.{Bool, true, false}

pub data Error : Type 0 where
  -- internal/config/storage.go
  ownership stale pending purging commit_unknown obsolete recovery state revision : Error
  -- internal/config/profiles.go: a document that is refused
  document duplicate ca_path limits : Error
  -- internal/vault/provider.go
  missing denied locked unavailable provider_unavailable password terminal user_bus : Error
  unsupported provider_changed repair limit credential_missing binding : Error
  -- os.ErrNotExist, context.Canceled and context.DeadlineExceeded, and any other error
  not_exist canceled deadline other : Error

-- What a function with a second result of type `error` returns.
pub data Result {ℓ} (Value : Type ℓ) : Type ℓ where
  err : Error → Result Value
  ok : Value → Result Value

-- `if !allowed { return e }`.
abbrev pub guard : Bool → Error → Result (Unit {0})
guard false e = err e
guard true _ = ok tt

-- What follows `if err != nil { return err }`.
infixl 5 ◌>>=◌
abbrev pub ◌>>=◌ {ℓ κ} :
    {First : Type ℓ} {Last : Type κ} → Result First → (First → Result Last) → Result Last
err e >>= rest = err e
ok x >>= rest = rest x

infixl 5 ◌>>◌
abbrev pub ◌>>◌ {κ} : {Last : Type κ} → Result (Unit {0}) → Result Last → Result Last
check >> rest = check >>= λ _. rest

module _ {ℓ κ} {First : Type ℓ} {Last : Type κ} where
  pub >>=-eq-ok :
      (first : Result First) (rest : First → Result Last) {y : Last}
      → (first >>= rest) ≡ ok y
      → (x : First) × (first ≡ ok x) × (rest x ≡ ok y)
  >>=-eq-ok (err e) rest h = cc
  >>=-eq-ok (ok x) rest h = (x, refl, h)

pub ok-injective {ℓ} : {Value : Type ℓ} {x y : Value} → ok x ≡ ok y → x ≡ y
ok-injective h = cc

pub err-injective {ℓ} :
    {Value : Type ℓ} {e f : Error} → ◌≡◌ {A = Result Value} (err e) (err f) → e ≡ f
err-injective h = cc

-- Inversion of a guard that let pass.
pub guard-ok {κ} :
    {Last : Type κ} (allowed : Bool) (e : Error) (rest : Result Last) {y : Last}
    → (guard allowed e >> rest) ≡ ok y
    → (allowed ≡ true) × (rest ≡ ok y)
guard-ok false e rest h = cc
guard-ok true e rest h = (refl, h)
