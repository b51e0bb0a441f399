-- ===== src/Tests/Service.antt =====
-- internal/service: a frame, the slots of two requests, a changed profile, and the credentials of one
-- profile.
use data_mate.Base.{
  Result, all, keep, ◌≡◌, refl, sym, ap, ◌∙◌, All, true, false, none, some, List, [], ◌∷◌, ◌++◌,
  Text, bytes, ok, arith, ok-injective, if◌then◌else◌, ℕ, Option, length, ◌==◌, ◌<◌, ◌≤◌,
}
use data_mate.Config.Profile.{Profiles, Profile}
use data_mate.Config.Database.{Revision}
use data_mate.Vault.Secrets.{no_secrets}
use data_mate.Service.Frames.{exceeds, framed, read_frame, put_uint32}
use data_mate.Service.Frames.RoundTrip.{read_frame-write_frame, read_frame-exact}
use data_mate.Service.Admission.{Event, no_requests, play}
use data_mate.Service.Admission.Balance.{IsBalanced, entries, play-IsBalanced}
use data_mate.Service.Manager.{Manager, refresh}
use data_mate.Service.Manager.Current.{Holds, Cached, is_current, is_untouched, refresh-IsCurrent}
use data_mate.Service.Presence.{presence_of}
use data_mate.Cli.Export.{unset_secrets}
use data_mate.Cli.Export.Unset.{value_of, unset_secrets-empty}
use data_mate.Tests.Publication.{main_profile, one_document, owner, revision_at}
use data_mate.Tests.Keys.{toy_crypto, toy_encoding, unlocked_repository, unlocked_world}

abbrev decode : Text → ℕ → Option Text
decode t n = some t

read_frame-write_frame_example :
    read_frame decode 100 ((0 ∷ 0 ∷ 0 ∷ 2 ∷ bytes "{}") ++ bytes "rest")
    ≡ framed (bytes "{}") (bytes "rest")
unfolding data_mate.Service.Frames.write_frame
read_frame-write_frame_example =
    read_frame-write_frame decode 100 (bytes "{}") (0 ∷ 0 ∷ 0 ∷ 2 ∷ bytes "{}") (bytes "rest")
      (omega arith) refl

read_frame-exact_example :
    (raw : Text) × ((0 ∷ 0 ∷ 0 ∷ 1 ∷ 65 ∷ 66 ∷ []) ≡ put_uint32 (length raw) ++ raw ++ bytes "B")
    × (0 < length raw)
    × (exceeds 100 (length raw) ≡ false)
    × (decode raw (if 100 == 0 then length raw else 100) ≡ some (bytes "A"))
unfolding read_frame
read_frame-exact_example =
    read_frame-exact decode 100 (0 ∷ 0 ∷ 0 ∷ 1 ∷ 65 ∷ 66 ∷ []) (bytes "B") (bytes "A")
      (omega arith, (omega arith, (omega arith, (omega arith, (omega arith, (omega arith, tt))))))
      refl

abbrev two_requests : List Event
two_requests = Event.enter 1 ∷ Event.enter 2 ∷ Event.leave 1 ∷ []

play-IsBalanced_example :
    IsBalanced (λ k. entries k two_requests) (play two_requests (no_requests, []))
play-IsBalanced_example = play-IsBalanced two_requests

abbrev shown : Revision → List Profile
shown r =
    if r.generation == 4 then main_profile ∷ [] else record main_profile { alias = bytes "b" } ∷ []

abbrev shown_at : Revision → Result (Profiles × Revision)
shown_at r = ok (record { version = 1; connections = shown r }, r)

abbrev caching : Manager
caching = record { profiles = shown (revision_at 4); revision = some (revision_at 4) }

refresh-IsCurrent_example :
    let s = (refresh (shown_at (revision_at 5)) (caching, main_profile ∷ [])).0 in
    Cached (shown_at (revision_at 5)) s.0
    × Holds shown s.0
    × (all (is_current caching.profiles s.0.profiles) s.1 ≡ true)
    × (keep (is_untouched caching.profiles s.0.profiles) s.1
        ≡ keep (is_untouched caching.profiles s.0.profiles) (main_profile ∷ []))
refresh-IsCurrent_example =
    refresh-IsCurrent shown caching (main_profile ∷ []) (shown_at (revision_at 5)) refl refl

unset_secrets-empty_example :
    All
      (λ f. value_of f (record no_secrets { password = bytes "x" }) ≡ [])
      (unset_secrets main_profile
        (presence_of (bytes "7a") (record no_secrets { password = bytes "x" }) ∷ []))
unfolding data_mate.Service.Presence.credential_presence
    data_mate.Config.Database.Read.profile_snapshot data_mate.Config.Database.Read.database
    data_mate.Base.text_eq data_mate.Config.Database.Read.read_profiles
    data_mate.Config.Database.Read.scan_rows data_mate.Config.Database.Read.order_rows
    data_mate.Config.Profiles.decode_profiles data_mate.Config.Profiles.canonical
    data_mate.Config.Profiles.is_duplicate data_mate.Base.contains data_mate.Config.Profiles.lowered
    data_mate.Base.to_lower data_mate.Config.Profiles.has_bad_ca
    data_mate.Config.Database.revision_eq data_mate.Base.any data_mate.Config.Profiles.defaulted
    data_mate.Base.is_abs data_mate.Base.text_lt data_mate.Base.all data_mate.Base.find
    data_mate.Base.total data_mate.Config.Database.Keyset.is_fingerprint
    data_mate.Config.Database.Keyset.keyset data_mate.Config.Database.Read.bundle
    data_mate.Config.Database.Read.decode_row data_mate.Config.Database.Read.find_bundle
    data_mate.Config.Database.Read.insert_row data_mate.Config.Database.Read.validate_database
    data_mate.Config.Database.payloads data_mate.Config.Profiles.insert
    data_mate.Config.Profiles.mark data_mate.Config.Profiles.normalise
    data_mate.Config.Profiles.parsed data_mate.Config.Profiles.sort
    data_mate.Service.Presence.presence_each data_mate.Vault.Credential.aad
    data_mate.Vault.Credential.cipher data_mate.Vault.Credential.credential
    data_mate.Vault.Credential.credential_of
unset_secrets-empty_example =
    unset_secrets-empty toy_crypto toy_encoding one_document unlocked_repository (λ id. ok tt)
      (revision_at 4) (ok (owner, unlocked_world.db)) (ok tt) owner unlocked_world.db
      (presence_of (bytes "7a") (record no_secrets { password = bytes "x" }) ∷ []) main_profile
      (record no_secrets { password = bytes "x" }) refl refl refl
