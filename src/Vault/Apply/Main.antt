-- ===== src/Vault/Apply/Main.antt =====
-- `Apply` of internal/vault/repository.go around its loop, and what it returns beside the error.
use data_mate.Base.{
  Bool, true, false, Option, none, some, List, Text, Result, ok, err, Error, revision, repair,
  commit_unknown, guard, not_exist, other, if◌then◌else◌,
}
use data_mate.Config.Profile.{Profile, Profiles}
use data_mate.Config.Profiles.{Codec, decode_profiles}
use data_mate.Config.Database.{Db, Ciphertext, Revision, revision_eq}
use data_mate.Config.Database.Read.{Lease, profile_snapshot}
use data_mate.Config.Database.Publish
use data_mate.Vault.World.{World, Act, ◌>>=◌, ◌>>◌, pure, lift, read_db, Crypto}
use data_mate.Vault.Unlock
use data_mate.Vault.Unlock.{Repository, unlock}
use data_mate.Vault.Credential.{Encoding}
use data_mate.Transport.Hosts.{
  Ssh, HostKey, HostError, store, Answer, spent, refused, value, save_host_key,
}
use data_mate.Vault.Apply.{Mutation, Turn, apply_each, known, needs_key}

-- `revision` is none where the source's is empty.
pub record Outcome : Type 0 where
  pub revision : Option Revision
  pub profiles_saved : Bool
  pub publication_uncertain : Bool

abbrev pub no_outcome : Outcome
no_outcome = record { revision = none; profiles_saved = false; publication_uncertain = false }

-- How the calls of one `Apply` end.
pub record Calls : Type 0 where
  pub unlocking : Unlock.Calls
  pub write_lease : Result Lease
  -- what other processes do before the lease
  pub before_lease : Db → Db
  pub turns : Profile → Turn
  -- those of `SaveHostKey`: the reading of known_hosts, an error of its own, and the replacing, which
  -- may have published what it reports as an error
  pub read_hosts : Result (Unit {0})
  pub replace_hosts : Result (Unit {0})
  pub hosts_replaced : Bool
  pub context : Result (Unit {0})
  pub publication : Publish.Calls
  pub after_publication : Result (Unit {0})

-- The lease's `Read` of known_hosts.
abbrev pub file_of : Calls → Option Text → Result Text
file_of c hosts = elim c.read_hosts [
  | err e ↦ err e
  | ok u ↦ elim hosts [ none ↦ err not_exist | some t ↦ ok t ]
]

-- What is in the file once its replacing has ended.
abbrev pub replaced_hosts : Calls → Option Text → Option Text → Option Text
replaced_hosts c none hosts = hosts
replaced_hosts c (some t) hosts = elim c.replace_hosts [
  | ok u ↦ some t
  | err e ↦ if c.hosts_replaced then some t else hosts
]

-- An error of internal/transport is like any other here.
abbrev pub host_error : HostError → Error
host_error (store e) = e
host_error _ = other

abbrev pub host_result : Answer Text → Result (Unit {0})
host_result (value t) = ok tt
host_result (refused e) = err (host_error e)
host_result spent = err other

-- `SaveHostKey`, where the mutation has a host key.
unfoldable pub save_hosts : Ssh → Calls → Option HostKey → Act (Unit {0})
save_hosts ssh c none w = (ok tt, w)
save_hosts ssh c (some pin) w =
    let o = save_host_key ssh (file_of c w.hosts) (λ _. c.replace_hosts) pin in
    (host_result o.0, record w { hosts = replaced_hosts c o.1 w.hosts })

abbrev pub Ending : Type 0
Ending = Outcome × Result (Unit {0})

abbrev pub is_unknown : Error → Bool
is_unknown commit_unknown = true
is_unknown _ = false

-- What is returned after `Publish`.
abbrev pub ending_of : Result Revision → Result (Unit {0}) → Ending
ending_of (ok rev) point =
    (record { revision = some rev; profiles_saved = true; publication_uncertain = false }, point)
ending_of (err e) point = (record no_outcome { publication_uncertain = is_unknown e }, err e)

module _ (crypto : Crypto) (enc : Encoding) (ssh : Ssh) (codec : Codec) (c : Calls)
    (m : Mutation) where
  -- From the lease to the publication.
  unfoldable pub prepare_all : Repository → Lease → Profiles → Act (Profiles × List Ciphertext)
  prepare_all r l p = do
    (previous, rev) ← read_db (profile_snapshot codec l)
    lift (guard (revision_eq rev m.expected) revision)
    (cs, made) ← apply_each crypto enc r l m previous.connections c.turns p.connections
    lift (guard (known cs m.patches) repair)
    lift (guard (known cs m.replacements) repair)
    save_hosts ssh c m.host_key
    lift c.context
    pure (record p { connections = cs }, made)

  unfoldable pub publish_all : Lease → Result (Profiles × List Ciphertext) → World → Ending × World
  publish_all l (err e) w = ((no_outcome, err e), w)
  publish_all l (ok (p, made)) w =
      let out = Publish.publish codec c.publication l w.db p m.expected made in
      (ending_of out.0 c.after_publication, record w { db = out.1 })

  -- What happens under the write lease.
  unfoldable pub apply_leased : Repository → Lease → Profiles → World → Ending × World
  unfolding publish_all
  apply_leased r l p w = publish_all l (prepare_all r l p w).0 (prepare_all r l p w).1

  apply_unlocked : Repository → Profiles → Result (Unit {0}) → World → Ending × World
  unfolding apply_leased
  apply_unlocked r p (err e) w = ((no_outcome, err e), w)
  apply_unlocked r p (ok u) w = elim c.write_lease [
    | err e ↦ ((no_outcome, err e), record w { db = c.before_lease w.db })
    | ok l ↦ apply_leased r l p (record w { db = c.before_lease w.db })
  ]

  apply_checked : Repository → Result Profiles → Result Bool → World → Ending × Repository × World
  unfolding apply_unlocked
  apply_checked r (err e) needs w = ((no_outcome, err e), r, w)
  apply_checked r (ok p) (err e) w = ((no_outcome, err e), r, w)
  apply_checked r (ok p) (ok false) w =
      ((apply_unlocked r p (ok tt) w).0, r, (apply_unlocked r p (ok tt) w).1)
  apply_checked r (ok p) (ok true) w =
      let (unlocked, r', w') = unlock crypto codec c.unlocking true (some m.expected) r w in
      ((apply_unlocked r' p unlocked w').0, r', (apply_unlocked r' p unlocked w').1)

  decoded_profiles : Result (Profiles × Text) → Result Profiles
  decoded_profiles (err e) = err e
  decoded_profiles (ok (p, digest)) = ok p

  -- `Apply`.
  unfoldable pub apply : Repository → World → Ending × Repository × World
  unfolding apply_checked decoded_profiles
  apply r w =
      apply_checked r (decoded_profiles (decode_profiles codec (codec.print m.profiles)))
        (needs_key enc.utf8 m) w
