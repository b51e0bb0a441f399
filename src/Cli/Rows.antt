-- ===== src/Cli/Rows.antt =====
-- `importRow` of internal/cli/db_csv.go and `importItem` of internal/cli/db_transfer.go, and the errors of
-- the commands; their texts, and the places in the file, are left out.
use data_mate.Base.{◌≡◌, refl, Bool, true, false, Option, none, List, [], Text}
use data_mate.Config.Profile.{Profile}
use data_mate.Vault.Secrets.{Patch}

-- `invalid`, `failure` and `context.Canceled`, and an index out of range.
pub data Trouble : Type 0 where
  invalid failure canceled panic : Trouble

pub data Answer {ℓ} (Value : Type ℓ) : Type ℓ where
  refused : Trouble → Answer Value
  value : Value → Answer Value

-- What follows `if err != nil { return err }`.
infixl 5 ◌>>=◌
abbrev pub ◌>>=◌ {ℓ κ} :
    {First : Type ℓ} {Last : Type κ} → Answer First → (First → Answer Last) → Answer Last
refused e >>= rest = refused e
value x >>= rest = rest x

infixl 5 ◌>>◌
abbrev pub ◌>>◌ {κ} : {Last : Type κ} → Answer (Unit {0}) → Answer Last → Answer Last
check >> rest = check >>= λ _. rest

-- `if !allowed { return e }`.
abbrev pub allow : Bool → Trouble → Answer (Unit {0})
allow false e = refused e
allow true _ = value tt

module _ {ℓ κ} {First : Type ℓ} {Last : Type κ} where
  pub >>=-value :
      (first : Answer First) (rest : First → Answer Last) {y : Last}
      → (first >>= rest) ≡ value y
      → (x : First) × (first ≡ value x) × (rest x ≡ value y)
  >>=-value (refused e) rest h = cc
  >>=-value (value x) rest h = (x, refl, h)

pub allow-value {κ} :
    {Last : Type κ} (allowed : Bool) (e : Trouble) (rest : Answer Last) {y : Last}
    → (allow allowed e >> rest) ≡ value y
    → (allowed ≡ true) × (rest ≡ value y)
allow-value false e rest h = cc
allow-value true e rest h = (refl, h)

pub value-injective {ℓ} : {Value : Type ℓ} {x y : Value} → value x ≡ value y → x ≡ y
value-injective h = cc

-- A validated row of the file.
pub record Row : Type 0 where
  pub profile : Profile
  pub secrets : Patch
  pub key_file : Text

pub data Action : Type 0 where
  add update skip unchanged : Action

-- `service.HostPin`: an address and a key for it.
pub record HostPin : Type 0 where
  pub address : Text
  pub key : Text

-- A row with what is to be done; `required` are the names of the secrets that it still needs.
pub record Item : Type 0 where
  pub profile : Profile
  pub secrets : Patch
  pub key_file : Text
  pub action : Action
  pub required : List Text
  pub pin : Option HostPin

-- `importItem.submitted`.
abbrev pub submitted : Item → Bool
submitted it = elim it.action [ add ↦ true | update ↦ true | skip ↦ false | unchanged ↦ false ]

-- The zero `Profile`, which is the original of an added one.
abbrev pub no_profile : Profile
no_profile = record {
  id = [];
  alias = [];
  driver = [];
  connection = record { host = []; port = 0; database = []; username = [] };
  credential_ref = [];
  transport = record { tls = record { mode = []; ca_file = [] }; ssh = none; proxy = none };
  limits = none;
}
