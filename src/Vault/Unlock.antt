-- ===== src/Vault/Unlock.antt =====
-- `Unlock` of internal/vault/repository.go: finding or making the key, with the database of the
-- installation and the key store of the operating system as state. How each call outside ends is
-- an argument, and so is what other processes do to the database between two leases.
pub mod Known
pub mod Orphans
use data_mate.Base.{
  ℕ, ◌≡◌, Bool, true, false, not, ◌&&◌, ◌||◌, Option, none, some, [], Text, text_eq, ◌==◌,
  if◌then◌else◌, Result, ok, err, Error, revision, repair, missing, denied, locked, unavailable,
  provider_unavailable, password, terminal, user_bus, unsupported, provider_changed, canceled,
  deadline, guard,
}
use data_mate.Config.Profiles.{Codec}
use data_mate.Config.Database.{
  Db, KeysetMetadata, Phase, no_key, intent, ready, Revision, revision_eq,
}
use data_mate.Config.Database.Read.{Lease, profile_snapshot}
use data_mate.Config.Database.Keyset.{keyset, save_keyset, is_absent}
use data_mate.Vault.World.{
  World, Act, after, ◌>>=◌, ◌>>◌, pure, raise, lift, read_db, write_db, Crypto,
}

-- The `state` of a `Repository`.
pub data State : Type 0 where
  locked_state absent_state unavailable_state ready_state : State

-- `primitive` is nil until the repository is unlocked, and then stands for its keyset.
pub record Repository : Type 0 where
  pub primitive : Option Text
  pub fingerprint : Text
  pub closed : Bool
  pub state : State

-- How the calls of one `Unlock` end.
pub record Calls : Type 0 where
  -- the gate, the lifecycle lease, and the context at its three tests
  pub gate : Result (Unit {0})
  pub context : Result (Unit {0})
  pub lifecycle : Result (Unit {0})
  pub parsed_context : Result (Unit {0})
  pub last_context : Result (Unit {0})
  -- the three leases on the state, and their statements
  pub read_lease : Result Lease
  pub intent_lease : Result Lease
  pub ready_lease : Result Lease
  pub saves : Bool
  pub promotes : Bool
  -- the key store: errors before it has acted, and one that a creation reports although the key is
  -- stored, or is stored later, since the caller does not wait for a call whose context has ended
  pub load_fails : Option Error
  pub create_fails : Option Error
  pub created_fails : Option Error
  pub generate : Result Text
  -- the fault points
  pub before_key_create : Result (Unit {0})
  pub after_key_create : Result (Unit {0})
  -- `Close` is called while this runs
  pub closes : Bool
  -- what other processes do between the first and the second lease, and before the third
  pub before_intent : Db → Db
  pub before_ready : Db → Db

-- `providerError`: what is not a known error is hidden.
unfoldable pub provider_error : Error → Error
provider_error missing = missing
provider_error denied = denied
provider_error locked = locked
provider_error unavailable = unavailable
provider_error password = password
provider_error terminal = terminal
provider_error user_bus = user_bus
provider_error unsupported = unsupported
provider_error provider_changed = provider_changed
provider_error provider_unavailable = provider_unavailable
provider_error repair = repair
provider_error canceled = canceled
provider_error deadline = deadline
provider_error _ = unavailable

-- `expected != "" && expected != rev`, where the empty revision is `none`.
unfoldable pub expects : Option Revision → Revision → Bool
expects none rev = true
expects (some e) rev = revision_eq e rev

abbrev pub repaired {ℓ} : {A : Type ℓ} → Result A → Result A
repaired (ok a) = ok a
repaired (err e) = err repair

-- The key store answers with an error of its own, or with what it holds.
load : Calls → Act (Option Text)
load c w = elim c.load_fails [
  | some e ↦ (err e, w)
  | none ↦ elim w.chain [ none ↦ (err missing, w) | some raw ↦ (ok (some raw), w) ]
]

-- It never overwrites a key.
unfoldable pub create_if_absent : Calls → Text → Act Text
create_if_absent c raw w = elim c.create_fails [
  | some e ↦ (err e, w)
  | none ↦ elim w.chain [
    | some held ↦ (ok held, w)
    | none ↦ elim c.created_fails [
      | some e ↦ (err e, record w { chain = some raw })
      | none ↦ (ok raw, record w { chain = some raw })
    ]
  ]
]

unfoldable pub provided : Result Text → Act Text
unfolding provider_error
provided (ok b) w = (ok b, w)
provided (err e) w = (err (provider_error e), w)

abbrev pub is_intent : Phase → Bool
is_intent intent = true
is_intent ready = false
is_intent no_key = false

-- A missing key is no error where an interrupted creation left its intent and nothing is encrypted.
may_restart : Bool → KeysetMetadata → Error → Bool
may_restart create k missing = is_intent k.phase && create && k.reserved == 0
may_restart create k _ = false

abbrev pub intent_of : Lease → Text → KeysetMetadata
intent_of l fp = record {
  account = l.identity.key_account;
  phase = intent;
  fingerprint = fp;
  reserved = 0;
}

-- What other processes do between two leases.
abbrev pub others : (Db → Db) → Act (Unit {0})
others f w = (ok tt, record w { db = f w.db })

module _ (crypto : Crypto) (codec : Codec) (c : Calls) (create : Bool)
    (expected : Option Revision) where
  -- The lifecycle lease for a creation, and the metadata under the first lease.
  unfoldable pub inspect : Act (Lease × KeysetMetadata)
  inspect = do
    lift (if create then c.lifecycle else ok tt)
    l ← lift c.read_lease
    k ← read_db (λ db. repaired (keyset l db))
    (_, rev) ← read_db (profile_snapshot codec l)
    lift (guard (expects expected rev) revision)
    pure (l, k)

  -- What `Load` answered, checked against the fingerprint.
  unfoldable pub loaded : KeysetMetadata → Result (Option Text) → Act (Option Text)
  unfolding may_restart provider_error
  loaded k (err e) = if may_restart create k e then pure none else raise (provider_error e)
  loaded k (ok none) = pure none
  loaded k (ok (some raw)) =
      if text_eq (crypto.fingerprint raw) k.fingerprint then pure (some raw) else raise repair

  unfoldable pub load_key : KeysetMetadata → Act (Option Text)
  unfolding load
  load_key k w = if is_absent k.phase then (ok none, w) else loaded k (load c w).0 (load c w).1

  -- The key of a saved intent.
  unfoldable pub create_key : Text → KeysetMetadata → Act (Text × KeysetMetadata)
  create_key raw k = do
    lift c.before_key_create
    held ← λ w. provided (create_if_absent c raw w).0 (create_if_absent c raw w).1
    lift (guard (text_eq (crypto.fingerprint held) k.fingerprint) repair)
    lift c.after_key_create
    pure (raw, k)

  -- The intent is durable before the key exists.
  unfoldable pub make_key : Lease → Act (Text × KeysetMetadata)
  make_key l = do
    lift (guard create repair)
    raw ← lift c.generate
    let k = intent_of l (crypto.fingerprint raw)
    others c.before_intent
    m ← lift c.intent_lease
    (_, rev) ← read_db (profile_snapshot codec m)
    lift (guard (expects expected rev) revision)
    write_db (λ db. save_keyset c.saves m db k)
    create_key raw k

  unfoldable pub found_or_made : Lease → KeysetMetadata → Option Text → Act (Text × KeysetMetadata)
  found_or_made l k none = make_key l
  found_or_made l k (some raw) = pure (raw, k)

  -- The key exists: the intent becomes ready.
  unfoldable pub promote : KeysetMetadata → Act (Unit {0})
  promote k = do
    lift (guard create repair)
    others c.before_ready
    m ← lift c.ready_lease
    (_, rev) ← read_db (profile_snapshot codec m)
    lift (guard (expects expected rev) revision)
    write_db (λ db. save_keyset c.promotes m db (record k { phase = ready }))

  unfoldable pub promote_if : Bool → KeysetMetadata → Act (Unit {0})
  promote_if true k = promote k
  promote_if false k = pure tt

  -- From the key to the primitive, which is set unless `Close` was called.
  unfoldable pub open_key : Text × KeysetMetadata → Act (Text × Text)
  open_key (raw, k) = do
    lift (crypto.parse_keyset raw)
    lift c.parsed_context
    promote_if (is_intent k.phase) k
    lift (guard (not c.closes) unavailable)
    lift c.last_context
    pure (raw, k.fingerprint)

  -- From the metadata to the key that the primitive stands for.
  unfoldable pub obtain : Lease → KeysetMetadata → Act (Text × Text)
  obtain l k = do stored_key ← load_key k; made ← found_or_made l k stored_key; open_key made

  -- The deferred function: what an error leaves as the state.
  error_state : Error → State
  error_state locked = locked_state
  error_state denied = locked_state
  error_state password = locked_state
  error_state terminal = locked_state
  error_state _ = unavailable_state

  -- `Close` by another goroutine.
  closed_by : Repository → Repository
  closed_by r =
      if c.closes then record r { primitive = none; fingerprint = []; closed = true } else r

  settled : Repository → Result (Text × Text) → Result (Unit {0}) × Repository
  unfolding error_state closed_by
  settled r (err e) = (err e, record (closed_by r) { state = error_state e })
  settled r (ok (raw, fp)) =
      (ok tt, record r { primitive = some raw; fingerprint = fp; state = ready_state })

  -- After the inspection; the absent key is an error of nobody who did not ask to create it.
  inspected :
      Repository → Result (Lease × KeysetMetadata) → World → Result (Unit {0}) × Repository × World
  unfolding closed_by settled
  inspected r (err e) w = (err e, closed_by r, w)
  inspected r (ok (l, k)) w =
      let r' = if is_absent k.phase then record r { state = absent_state } else r in
      let out = obtain l k w in
      if is_absent k.phase && not create
      then (ok tt, closed_by r', w)
      else ((settled r' out.0).0, (settled r' out.0).1, out.1)

  opened : Repository → Option Text → World → Result (Unit {0}) × Repository × World
  unfolding inspected closed_by
  opened r (some raw) w = (c.context, closed_by r, w)
  opened r none w = inspected r (inspect w).0 (inspect w).1

  -- `Unlock`.
  unfoldable pub unlock : Repository → World → Result (Unit {0}) × Repository × World
  unfolding opened inspected settled closed_by error_state
  unlock r w = elim c.gate [
    | err e ↦ (err e, r, w)
    | ok _ ↦ if r.closed then (err unavailable, r, w) else opened r r.primitive w
  ]
