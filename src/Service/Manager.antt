-- ===== src/Service/Manager.antt =====
-- `Manager.refresh` of internal/service/manager.go, and what it does to the pools that the driver keeps. It runs under
-- the manager's mutex; the requests that open pools do not hold it.
pub mod Current
use data_mate.Base.{
  Bool, true, false, not, Option, none, some, List, [], ◌∷◌, Text, text_eq, any, keep, contains,
  if◌then◌else◌, Result, ok, err,
}
use data_mate.Config.Profile.{Profile, Profiles}
use data_mate.Config.Same.{same_profile}
use data_mate.Config.Database.{Revision, revision_eq}

-- The cached profiles; the revision is empty where there are none.
pub record Manager : Type 0 where
  pub profiles : List Profile
  pub revision : Option Revision

-- The zero value of both.
abbrev pub nothing_cached : Manager
nothing_cached = record { profiles = []; revision = none }

-- The profiles whose pools the driver keeps: `Invalidate` retires the pool of an identity.
unfoldable pub invalidate : Text → List Profile → List Profile
invalidate id pools = keep (λ (p : Profile). not (text_eq p.id id)) pools

-- The loop over the cached profiles: those that are not among the new ones lose their pools.
unfoldable pub retire_changed : List Profile → List Profile → List Profile → List Profile
unfolding invalidate
retire_changed [] next pools = pools
retire_changed (old ∷ olds) next pools =
    retire_changed olds next
      (if any (same_profile old) next then pools else invalidate old.id pools)

-- The loop where the profiles cannot be read.
unfoldable pub retire_all : List Profile → List Profile → List Profile
unfolding invalidate
retire_all [] pools = pools
retire_all (old ∷ olds) pools = retire_all olds (invalidate old.id pools)

abbrev pub is_cached : Manager → Revision → Bool
is_cached m r = elim m.revision [ none ↦ false | some c ↦ revision_eq r c ]

-- `refresh`, given what `ProfileSnapshot` returns.
unfoldable pub refresh :
    Result (Profiles × Revision)
    → Manager × List Profile
    → (Manager × List Profile) × Option (List Profile)
unfolding retire_changed retire_all
refresh (err e) (m, pools) = ((nothing_cached, retire_all m.profiles pools), none)
refresh (ok (p, r)) (m, pools) = if is_cached m r then ((m, pools), some p.connections) else (
  (
    record { profiles = p.connections; revision = some r },
    retire_changed m.profiles p.connections pools,
  ),
  some p.connections,
)
