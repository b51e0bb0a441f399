-- ===== src/Service/Manager/Current.antt =====
-- What a refresh leaves of the cache and of the pools.
use data_mate.Base.{
  ◌&&◌, ◌≡◌, refl, sym, ap, ◌∙◌, subst, Bool, true, false, not, ◌||◌, Option, none, some, List, [],
  ◌∷◌, Text, text_eq, text_eq_refl, any, all, keep, Result, ok, err, Bool-cases, inl, inr, arith,
}
use data_mate.Config.Profile.{Profile, Profiles}
use data_mate.Config.Same.{same_profile, same_profile_sound, revision_eq_sound}
use data_mate.Config.Database.{Revision, revision_eq}
use data_mate.Service.Manager.{
  Manager, nothing_cached, invalidate, retire_changed, retire_all, is_cached, refresh,
}

abbrev pub is_among : List Profile → Profile → Bool
is_among ps q = any (same_profile q) ps

-- A pool that was for a profile which was cached is for one that is cached now.
abbrev pub is_current : List Profile → List Profile → Profile → Bool
is_current before now q = not (is_among before q) || is_among now q

-- While some old profiles are still to be looked at, a pool may be for one of these.
abbrev stays : List Profile → List Profile → List Profile → Profile → Bool
stays before olds next q = not (is_among before q) || is_among olds q || is_among next q

all-implies :
    (f g : Profile → Bool) (ps : List Profile)
    → ((p : Profile) → f p ≡ true → g p ≡ true)
    → all f ps ≡ true
    → all g ps ≡ true
unfolding all
all-implies f g [] i h = refl
all-implies f g (p ∷ ps) i h =
    ground (arith, i p (ground arith), all-implies f g ps i (ground arith))

-- What `Invalidate` leaves has another identity.
invalidate-all :
    (f g : Profile → Bool) (id : Text) (ps : List Profile)
    → ((p : Profile) → text_eq p.id id ≡ false → f p ≡ true → g p ≡ true)
    → all f ps ≡ true
    → all g (invalidate id ps) ≡ true
unfolding all invalidate keep
invalidate-all f g id [] i h = refl
invalidate-all f g id (p ∷ ps) i h = elim (Bool-cases (text_eq p.id id)) [
  | inl gone ↦ ground (arith, gone, invalidate-all f g id ps i (ground arith))
  | inr other ↦
      ground (arith, other, i p other (ground arith), invalidate-all f g id ps i (ground arith))
]

module _ (before : List Profile) where
  retire_changed-stays :
      (olds next pools : List Profile)
      → all (stays before olds next) pools ≡ true
      → all (is_current before next) (retire_changed olds next pools) ≡ true
  unfolding retire_changed any
  retire_changed-stays [] next pools h =
      all-implies (stays before [] next) (is_current before next) pools (λ p e. ground (arith, e)) h
  retire_changed-stays (old ∷ olds) next pools h = elim (Bool-cases (any (same_profile old) next)) [
    | inl same ↦
        rw (retire_changed, same)
          (retire_changed-stays olds next pools (
            all-implies (stays before (old ∷ olds) next) (stays before olds next) pools
              (λ q e. elim (Bool-cases (same_profile q old)) [
                | inl equal ↦
                    let is : q ≡ old = same_profile_sound q old equal in
                    let there : is_among next q ≡ true = rw is same in ground (arith, there)
                | inr apart ↦ ground (arith, apart, e)
              ])
              h))
    | inr changed ↦
        rw (retire_changed, changed)
          (retire_changed-stays olds next (invalidate old.id pools) (
            invalidate-all (stays before (old ∷ olds) next) (stays before olds next) old.id pools
              (λ q other e. elim (Bool-cases (same_profile q old)) [
                | inl equal ↦
                    let is : q ≡ old = same_profile_sound q old equal in
                    let wrong : text_eq old.id old.id ≡ false =
                      subst (λ p. text_eq p.id old.id ≡ false) is other in
                    ground (arith, wrong, text_eq_refl old.id)
                | inr apart ↦ ground (arith, apart, e)
              ])
              h))
  ]

-- No cached profile that has changed, or is gone, has the identity of the pool.
abbrev pub is_untouched : List Profile → List Profile → Profile → Bool
is_untouched before now q =
    not (any (λ (o : Profile). text_eq q.id o.id && not (any (same_profile o) now)) before)

keep-invalidate :
    (f : Profile → Bool) (id : Text) (ps : List Profile)
    → ((q : Profile) → text_eq q.id id ≡ true → f q ≡ false)
    → keep f (invalidate id ps) ≡ keep f ps
unfolding keep invalidate
keep-invalidate f id [] h = refl
keep-invalidate f id (p ∷ ps) h =
    let rest = keep-invalidate f id ps h in
    elim (Bool-cases (text_eq p.id id)) [
      | inl gone ↦ ground (arith, gone, h p gone, rest)
      | inr other ↦ ground (arith, other, rest)
    ]

keep-retire_changed :
    (f : Profile → Bool) (olds next pools : List Profile)
    → ((q : Profile) → f q ≡ true → is_untouched olds next q ≡ true)
    → keep f (retire_changed olds next pools) ≡ keep f pools
unfolding retire_changed any
keep-retire_changed f [] next pools h = refl
keep-retire_changed f (old ∷ olds) next pools h =
    let weaker = λ (q : Profile) (e : f q ≡ true). after_old q (h q e) in
    elim (Bool-cases (any (same_profile old) next)) [
      | inl same ↦ rw (retire_changed, same) (keep-retire_changed f olds next pools weaker)
      | inr changed ↦
          rw (retire_changed, changed)
            (keep-retire_changed f olds next (invalidate old.id pools) weaker
              ∙ keep-invalidate f old.id pools (λ q e. elim (Bool-cases (f q)) [
                | inl untouched ↦ ground (arith, h q untouched, e, changed)
                | inr touched ↦ touched
              ]))
    ]
  where
    after_old :
        (q : Profile) → is_untouched (old ∷ olds) next q ≡ true → is_untouched olds next q ≡ true
    after_old q e = ground (arith, e)

-- A failure to read retires what a change to no profiles would retire.
retire_all-changed :
    (olds pools : List Profile) → retire_all olds pools ≡ retire_changed olds [] pools
unfolding retire_all retire_changed any
retire_all-changed [] pools = refl
retire_all-changed (old ∷ olds) pools = retire_all-changed olds (invalidate old.id pools)

all-always :
    (f : Profile → Bool) (ps : List Profile) → ((p : Profile) → f p ≡ true) → all f ps ≡ true
unfolding all
all-always f [] h = refl
all-always f (p ∷ ps) h = ground (arith, h p, all-always f ps h)

-- What the revision shows, where there is one.
abbrev pub ShownAt : (Revision → List Profile) → Option Revision → List Profile → Type 0
ShownAt shown none ps = Unit {0}
ShownAt shown (some r) ps = ps ≡ shown r

abbrev pub Holds : (Revision → List Profile) → Manager → Type 0
Holds shown m = ShownAt shown m.revision m.profiles

-- Profiles that were read are those that their revision shows.
abbrev pub IsShown : (Revision → List Profile) → Result (Profiles × Revision) → Type 0
IsShown shown (err e) = Unit {0}
IsShown shown (ok (p, r)) = p.connections ≡ shown r

-- The cache is what was just read, and empty where the profiles could not be read.
abbrev pub Cached : Result (Profiles × Revision) → Manager → Type 0
Cached (err e) m = m ≡ nothing_cached
Cached (ok (p, r)) m = (m.profiles ≡ p.connections) × (m.revision ≡ some r)

is_cached-revision : (m : Manager) (r : Revision) → is_cached m r ≡ true → m.revision ≡ some r
is_cached-revision m r = cached m.revision
  where
    cached :
        (o : Option Revision)
        → (elim o as (λ _. Bool) [ none ↦ false | some c ↦ revision_eq r c ]) ≡ true
        → o ≡ some r
    cached none h = cc
    cached (some c) h = ap some (sym (revision_eq_sound r c h))

module _ (shown : Revision → List Profile) (m : Manager) (pools : List Profile) where
  all-stays : (next : List Profile) → all (stays m.profiles m.profiles next) pools ≡ true
  all-stays next = all-always (stays m.profiles m.profiles next) pools (λ q. ground arith)

  -- A refresh, whatever pools there are: the cache is what was just read, or is empty where the profiles could not be
  -- read; and of the pools that were for a cached profile, only those are left whose profile is
  -- cached now, unchanged, while a pool stays whose identity no cached profile has that changed or went.
  -- A revision shows one state of the profiles, for what was read and what was
  -- cached before, and so for what is cached then.
  pub refresh-IsCurrent :
      (a : Result (Profiles × Revision))
      → IsShown shown a
      → Holds shown m
      → let s = (refresh a (m, pools)).0 in
        Cached a s.0
        × Holds shown s.0
        × (all (is_current m.profiles s.0.profiles) s.1 ≡ true)
        × (keep (is_untouched m.profiles s.0.profiles) s.1
            ≡ keep (is_untouched m.profiles s.0.profiles) pools)
  unfolding refresh
  refresh-IsCurrent (err e) known held = (
    refl,
    tt,
    rw (retire_all-changed m.profiles pools)
        (retire_changed-stays m.profiles m.profiles [] pools (all-stays [])),
    rw (retire_all-changed m.profiles pools)
        (keep-retire_changed (is_untouched m.profiles []) m.profiles [] pools (λ q e. e)),
  )
  refresh-IsCurrent (ok (p, r)) known held = elim (Bool-cases (is_cached m r)) [
    | inl same ↦
        let there = is_cached-revision m r same in
        let read : m.profiles ≡ p.connections =
          subst (λ o. ShownAt shown o m.profiles) there held ∙ sym known in
        rw (refresh, same)
          ((
            (read, there),
            held,
            all-always (is_current m.profiles m.profiles) pools (λ q. ground arith),
            refl,
          ))
    | inr new ↦
        rw (refresh, new)
          ((
            (refl, refl),
            known,
            retire_changed-stays m.profiles m.profiles p.connections pools
                (all-stays p.connections),
            keep-retire_changed (is_untouched m.profiles p.connections) m.profiles p.connections
                pools (λ q e. e),
          ))
  ]
