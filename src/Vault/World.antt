-- ===== src/Vault/World.antt =====
-- What the operations of internal/vault/repository.go share: the database, the key that the
-- operating system stores and the file known_hosts, as the state of actions that may fail; and the parameters for Tink and
-- SHA-256.
use data_mate.Base.{◌≡◌, refl, Option, Text, Result, ok, err, Error}
use data_mate.Config.Database.{Db}

pub record World : Type 0 where
  pub db : Db
  pub chain : Option Text
  pub hosts : Option Text

abbrev pub Act {ℓ} : Type ℓ → Type ℓ
Act A = World → Result A × World

-- What an action does with the result of the one before it: an error ends the block, and what was
-- written stays written.
abbrev pub after {ℓ κ} : {A : Type ℓ} {B : Type κ} → Result A → (A → Act B) → Act B
after (ok a) f w = f a w
after (err e) f w = (err e, w)

infixl 5 ◌>>=◌ ◌>>◌
abbrev pub ◌>>=◌ {ℓ κ} : {A : Type ℓ} {B : Type κ} → Act A → (A → Act B) → Act B
◌>>=◌ m f w = after (m w).0 f (m w).1

abbrev pub ◌>>◌ {ℓ κ} : {A : Type ℓ} {B : Type κ} → Act A → Act B → Act B
m >> n = m >>= λ _. n

abbrev pub pure {ℓ} : {A : Type ℓ} → A → Act A
pure a w = (ok a, w)

abbrev pub raise {ℓ} : {A : Type ℓ} → Error → Act A
raise e w = (err e, w)

abbrev pub lift {ℓ} : {A : Type ℓ} → Result A → Act A
lift r w = (r, w)

-- A read of the database, and a write, which on an error writes nothing.
abbrev pub read_db {ℓ} : {A : Type ℓ} → (Db → Result A) → Act A
read_db f w = (f w.db, w)

abbrev pub stored : World → Result Db → Result (Unit {0}) × World
stored w (ok d) = (ok tt, record w { db = d })
stored w (err e) = (err e, w)

abbrev pub write_db : (Db → Result Db) → Act (Unit {0})
write_db f w = stored w (f w.db)

-- Tink's keysets and AES-GCM, and SHA-256 in hexadecimal. A primitive is given by its keyset.
-- `encrypt` takes what the random source supplies as its first argument.
pub record Crypto : Type 0 where
  pub fingerprint : Text → Text
  pub parse_keyset : Text → Result (Unit {0})
  pub encrypt : Text → Text → Text → Text → Result Text
  pub decrypt : Text → Text → Text → Result Text

-- What holds of each way in which a block can end holds of the block.
module _ {ℓ κ} {A : Type ℓ} {B : Type κ} (P : Result B × World → Type 0) where
  pub after-ends :
      (r : Result A) (f : A → Act B) (w : World)
      → ((e : Error) → P (err e, w))
      → ((a : A) → r ≡ ok a → P (f a w))
      → P (after r f w)
  after-ends (ok a) f w p h = h a refl
  after-ends (err e) f w p h = p e

module _ {κ} {B : Type κ} (P : Result B × World → Type 0) where
  pub stored-ends :
      (r : Result Db) (f : Unit {0} → Act B) (w : World)
      → ((e : Error) → P (err e, w))
      → ((d : Db) → r ≡ ok d → P (f tt (record w { db = d })))
      → P (after (stored w r).0 f (stored w r).1)
  stored-ends (ok d) f w p h = h d refl
  stored-ends (err e) f w p h = p e

pub stored-last :
    (P : World → Type 0) (r : Result Db) (w : World)
    → P w
    → ((d : Db) → r ≡ ok d → P (record w { db = d }))
    → P (stored w r).1
stored-last P (ok d) w p h = h d refl
stored-last P (err e) w p h = p
