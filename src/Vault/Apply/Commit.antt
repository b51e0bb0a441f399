-- ===== src/Vault/Apply/Commit.antt =====
-- What `Apply` of internal/vault/repository.go has done to the tables, by what it returns.
use data_mate.Base.{
  ◌≡◌, refl, ap, false, ◌⊎◌, inl, inr, List, Result, ok, err, Error, revision, repair,
  commit_unknown, guard, arith, Option, some, Text, Option-cases, Bool-cases, sym, subst,
}
use data_mate.Config.Profile.{Profiles}
use data_mate.Config.Profiles.{Codec}
use data_mate.Config.Database.{Db, Ciphertext, Revision, revision_eq}
use data_mate.Config.Database.Read.{Lease, profile_snapshot}
use data_mate.Config.Database.Publish.{publish}
use data_mate.Config.Database.Atomic.{publish-cases}
use data_mate.Vault.World.{World, Crypto, after-ends}
use data_mate.Vault.Unlock.{Repository}
use data_mate.Vault.Credential.{Encoding}
use data_mate.Transport.Hosts.{Ssh, HostKey, save_host_key}
use data_mate.Vault.Apply.{Mutation, apply_each, known}
use data_mate.Vault.Apply.Budget.{IsFramed, IsFramed-refl, apply_each-Spent, Spent-IsFramed}
use data_mate.Vault.Apply.Main.{
  Calls, ending_of, file_of, save_hosts, prepare_all, publish_all, apply_leased,
}

Result-cases : (r : Result (Unit {0})) → ((u : Unit {0}) × (r ≡ ok u)) ⊎ ((e : Error) × (r ≡ err e))
Result-cases (ok u) = inl (u, refl)
Result-cases (err e) = inr (e, refl)

module _ (crypto : Crypto) (enc : Encoding) (ssh : Ssh) (codec : Codec) (c : Calls)
    (m : Mutation) where
  -- The file known_hosts is as it was, or `SaveHostKey` has written the pin of the mutation to it.
  abbrev pub HostsEnd : Option Text → Option Text → Type 0
  HostsEnd before after =
      (after ≡ before)
      ⊎ ((pin : HostKey) × (t : Text) × (m.host_key ≡ some pin)
          × ((save_host_key ssh (file_of c before) (λ _. c.replace_hosts) pin).1 ≡ some t)
          × (after ≡ some t))

  -- What is left of an `Apply` that has published nothing.
  abbrev pub Unpublished : World → World → Type 0
  Unpublished v w = IsFramed v (record w { hosts = v.hosts }) × HostsEnd v.hosts w.hosts

  kept-Unpublished : (v w : World) → IsFramed v w → Unpublished v w
  kept-Unpublished v w framed = (
    record {
      installation = framed.installation;
      profiles = framed.profiles;
      bundles = framed.bundles;
      chain = framed.chain;
      metadata = framed.metadata;
      hosts = refl;
      grows = framed.grows;
      bounded = framed.bounded;
    },
    inl framed.hosts,
  )

  save_hosts-HostsEnd : (w : World) → HostsEnd w.hosts (save_hosts ssh c m.host_key w).1.hosts
  unfolding save_hosts
  save_hosts-HostsEnd w = elim (Option-cases m.host_key) [
    | inl nothing ↦ rw (save_hosts, nothing) (inl refl)
    | inr (pin, there) ↦
        elim (Option-cases (save_host_key ssh (file_of c w.hosts) (λ _. c.replace_hosts) pin).1) [
          | inl idle ↦ inl (ground (arith, there, idle))
          | inr (t, writes) ↦ elim (Result-cases c.replace_hosts) [
            | inl (u, done) ↦ inr (pin, t, there, writes, ground (arith, there, writes, done))
            | inr (e, fails) ↦ elim (Bool-cases c.hosts_replaced) [
              | inl all_the_same ↦
                  inr (pin, t, there, writes, ground (arith, there, writes, fails, all_the_same))
              | inr unchanged ↦ inl (ground (arith, there, writes, fails, unchanged))
            ]
          ]
        ]
  ]

  save_hosts-rest : (w : World) → record (save_hosts ssh c m.host_key w).1 { hosts = w.hosts } ≡ w
  unfolding save_hosts
  save_hosts-rest w = elim (Option-cases m.host_key) [
    | inl nothing ↦ rw (save_hosts, nothing) refl
    | inr (pin, there) ↦ rw (save_hosts, there) refl
  ]

  save_hosts-Unpublished :
      (v w : World) → IsFramed v w → Unpublished v (save_hosts ssh c m.host_key w).1
  save_hosts-Unpublished v w framed =
      let x = (save_hosts ssh c m.host_key w).1 in
      let back : record x { hosts = v.hosts } ≡ w =
        subst (λ h. record x { hosts = h } ≡ w) framed.hosts (save_hosts-rest w) in
      (
        subst (IsFramed v) (sym back) framed,
        subst (λ h. HostsEnd h x.hosts) framed.hosts (save_hosts-HostsEnd w),
      )

  prepare_all-Unpublished :
      (r : Repository) (l : Lease) (p : Profiles) (w : World)
      → Unpublished w (prepare_all crypto enc ssh codec c m r l p w).1
  unfolding prepare_all
  prepare_all-Unpublished r l p w =
      let P : Result (Profiles × List Ciphertext) × World → Type 0 = λ o. Unpublished w o.1 in
      let framed = λ (e : Error). kept-Unpublished w w (IsFramed-refl w) in
      after-ends P (profile_snapshot codec l w.db) _ w framed λ s _.
        after-ends P (guard (revision_eq s.1 m.expected) revision) _ w framed λ _ _.
          let out = apply_each crypto enc r l m s.0.connections c.turns p.connections w in
          let spent =
            Spent-IsFramed crypto enc r l w out
              (apply_each-Spent crypto enc r l m s.0.connections c.turns p.connections w) in
          let framed' = λ (e : Error). kept-Unpublished w out.1 spent in
          after-ends P out.0 _ out.1 framed' λ a _.
            after-ends P (guard (known a.0 m.patches) repair) _ out.1 framed' λ _ _.
              after-ends P (guard (known a.0 m.replacements) repair) _ out.1 framed' λ _ _.
                let o = save_hosts ssh c m.host_key out.1 in
                let saved = save_hosts-Unpublished w out.1 spent in
                after-ends P o.0 _ o.1 (λ e. saved)
                  λ _ _. after-ends P c.context _ o.1 (λ e. saved) λ _ _. saved

  publish_all-same :
      (l : Lease) (o : Result (Profiles × List Ciphertext)) (w : World)
      → (publish_all crypto enc ssh codec c m l o w).0.0.profiles_saved ≡ false
      → (publish_all crypto enc ssh codec c m l o w).0.0.publication_uncertain ≡ false
      → (publish_all crypto enc ssh codec c m l o w).1 ≡ w
  unfolding publish_all
  publish_all-same l (err e) w saved uncertain = refl
  publish_all-same l (ok (p, made)) w saved uncertain =
      elim (publish-cases codec c.publication l w.db p m.expected made) [
        | inr refused ↦ ap (λ (d : Db). record w { db = d }) refused.tables
        | inl (next, rev, prepared, took) ↦ absurd (
            clash (publish codec c.publication l w.db p m.expected made).0 rev took.result saved
              uncertain)
      ]
    where
      clash :
          (out : Result Revision) (rev : Revision)
          → ((out ≡ ok rev) ⊎ (out ≡ err commit_unknown))
          → (ending_of out c.after_publication).0.profiles_saved ≡ false
          → (ending_of out c.after_publication).0.publication_uncertain ≡ false
          → ⊥
      clash out rev h a b = ground arith

  -- Unless it reports that the profiles are saved or that the publication is uncertain, what an `Apply`
  -- does under its lease changes two things at most. In the metadata of the key, which is otherwise as
  -- `Keyset` reads it, the count of reserved encryptions may have grown, within the limit. And the file
  -- known_hosts may hold what `SaveHostKey` makes of it for the host key of the mutation.
  pub apply_leased-Unpublished :
      (r : Repository) (l : Lease) (p : Profiles) (w : World)
      → (apply_leased crypto enc ssh codec c m r l p w).0.0.profiles_saved ≡ false
      → (apply_leased crypto enc ssh codec c m r l p w).0.0.publication_uncertain ≡ false
      → Unpublished w (apply_leased crypto enc ssh codec c m r l p w).1
  unfolding apply_leased
  apply_leased-Unpublished r l p w saved uncertain =
      let out = prepare_all crypto enc ssh codec c m r l p w in
      rw (publish_all-same l out.0 out.1 saved uncertain) (prepare_all-Unpublished r l p w)
