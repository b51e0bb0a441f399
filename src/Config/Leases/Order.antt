-- ===== src/Config/Leases/Order.antt =====
-- The leases of internal/config/locks.go take what they hold in one order for the whole program, and give
-- all of it back.
use data_mate.Base.{
  ℕ, ◌≡◌, refl, subst, Bool, true, false, Option, none, some, List, [], ◌∷◌, all, ltb, ◌==◌,
  if◌then◌else◌, Result, ok, err, Error,
}
use data_mate.Config.Leases.{
  Resource, Action, takes, drops, Hold, Act, follow, take_resource, give_back, release_lease, Calls,
  check_result, check_lease, claim, claim_state, settle, keep_valid, acquire, open_connection,
  new_lease,
}

-- The order: who waits for a resource holds none that comes later.
abbrev pub rank : Resource → ℕ
rank Resource.local_lifecycle = 0
rank Resource.lifecycle_lock = 1
rank Resource.local_state = 2
rank Resource.state_gate = 3
rank Resource.state_lock = 4
rank Resource.database_slot = 5
rank Resource.connection = 6

-- What is left without one resource, which must be there.
abbrev pub without : Resource → List Resource → Option (List Resource)
without r [] = none
without r (s ∷ held) =
    if rank s == rank r
    then some held
    else (elim (without r held) [ none ↦ none | some rest ↦ some (s ∷ rest) ])

-- What is held after some actions, if each one takes only what comes after all that is held, and gives
-- back only what is held.
unfoldable pub replay : List Action → List Resource → Option (List Resource)
replay [] held = some held
replay (takes r ∷ more) held =
    if all (λ s. ltb (rank s) (rank r)) held then replay more (r ∷ held) else none
replay (drops r ∷ more) held = elim (without r held) [ none ↦ none | some rest ↦ replay more rest ]

-- What each kind of lease holds.
abbrev pub wanted : Bool → Bool → List Resource
wanted false false = Resource.state_lock ∷ Resource.local_state ∷ []
wanted true false = Resource.state_lock ∷ Resource.state_gate ∷ Resource.local_state ∷ []
wanted true true =
    Resource.state_lock ∷ Resource.state_gate ∷ Resource.local_state ∷ Resource.lifecycle_lock
    ∷ Resource.local_lifecycle ∷ []
wanted false true =
    Resource.state_lock ∷ Resource.local_state ∷ Resource.lifecycle_lock ∷ Resource.local_lifecycle
    ∷ []

abbrev pub kept : Bool → Bool → Result (Unit {0}) → List Resource
kept write purge (ok u) = wanted write purge
kept write purge (err e) = []

module _ (P : Result (Unit {0}) × Hold → Type 0) where
  follow-ends :
      (r : Result (Unit {0})) (f : Act) (h : Hold)
      → ((e : Error) → P (err e, h))
      → P (f h)
      → P (follow r f h)
  follow-ends (ok u) f h p q = q
  follow-ends (err e) f h p q = p e

  take-ends :
      (r : Resource) (x : Result (Unit {0})) (f : Act) (h : Hold)
      → ((e : Error) → P (err e, h))
      → P (f (take_resource r (ok tt) h).1)
      → P (follow (take_resource r x h).0 f (take_resource r x h).1)
  take-ends r (ok u) f h p q = q
  take-ends r (err e) f h p q = p e

abbrev pub all_fine : Calls
all_fine = record {
  taking = λ r. ok tt;
  parent = ok tt;
  verify_lock = λ r. ok tt;
  verify_identity = ok tt;
  context = ok tt;
  validate = ok tt;
}

-- A lease of each kind.
abbrev leased : Bool → Bool → Hold
leased write purge = (claim all_fine write purge new_lease).1

leased-replay :
    (write purge : Bool) → replay (leased write purge).trail [] ≡ some (wanted write purge)
unfolding claim claim_state replay check_lease check_result all
leased-replay false false = refl
leased-replay true false = refl
leased-replay false true = refl
leased-replay true true = refl

module _ (c : Calls) where
  -- The end of `acquire`, from that of its body.
  abbrev Ends : Bool → Bool → Result (Unit {0}) × Hold → Type 0
  Ends write purge (ok u, h) = leased write purge ≡ h
  Ends write purge (err e, h) = replay (release_lease h).trail [] ≡ some []

  -- Each end of the body, by the four kinds of lease.
  claim-Ends : (write purge : Bool) → Ends write purge (claim c write purge new_lease)
  unfolding claim claim_state replay release_lease check_lease all
  claim-Ends false false =
      let P = Ends false false in
      let h1 = (take_resource Resource.local_state (ok tt) new_lease).1 in
      let h2 = (take_resource Resource.state_gate (ok tt) h1).1 in
      let h3 = (take_resource Resource.state_lock (ok tt) h2).1 in
      take-ends P Resource.local_state (c.taking Resource.local_state) _ new_lease (λ e. refl)
        (take-ends P Resource.state_gate (c.taking Resource.state_gate) _ h1 (λ e. refl)
          (take-ends P Resource.state_lock (c.taking Resource.state_lock) _ h2 (λ e. refl)
            (follow-ends P (check_result c false h3.lease) _ h3 (λ e. refl)
              (follow-ends P c.context _ h3 (λ e. refl) refl))))
  claim-Ends true false =
      let P = Ends true false in
      let h1 = (take_resource Resource.local_state (ok tt) new_lease).1 in
      let h2 = (take_resource Resource.state_gate (ok tt) h1).1 in
      let h3 = (take_resource Resource.state_lock (ok tt) h2).1 in
      take-ends P Resource.local_state (c.taking Resource.local_state) _ new_lease (λ e. refl)
        (take-ends P Resource.state_gate (c.taking Resource.state_gate) _ h1 (λ e. refl)
          (take-ends P Resource.state_lock (c.taking Resource.state_lock) _ h2 (λ e. refl)
            (follow-ends P (check_result c false h3.lease) _ h3 (λ e. refl)
              (follow-ends P c.context _ h3 (λ e. refl) refl))))
  claim-Ends false true =
      let P = Ends false true in
      let h1 = (take_resource Resource.local_lifecycle (ok tt) new_lease).1 in
      let h2 = (take_resource Resource.lifecycle_lock (ok tt) h1).1 in
      let h3 = (take_resource Resource.local_state (ok tt) h2).1 in
      let h4 = (take_resource Resource.state_gate (ok tt) h3).1 in
      let h5 = (take_resource Resource.state_lock (ok tt) h4).1 in
      take-ends P Resource.local_lifecycle (c.taking Resource.local_lifecycle) _ new_lease
        (λ e. refl)
        (take-ends P Resource.lifecycle_lock (c.taking Resource.lifecycle_lock) _ h1 (λ e. refl)
          (take-ends P Resource.local_state (c.taking Resource.local_state) _ h2 (λ e. refl)
            (take-ends P Resource.state_gate (c.taking Resource.state_gate) _ h3 (λ e. refl)
              (take-ends P Resource.state_lock (c.taking Resource.state_lock) _ h4 (λ e. refl)
                (follow-ends P (check_result c true h5.lease) _ h5 (λ e. refl)
                  (follow-ends P c.context _ h5 (λ e. refl) refl))))))
  claim-Ends true true =
      let P = Ends true true in
      let h1 = (take_resource Resource.local_lifecycle (ok tt) new_lease).1 in
      let h2 = (take_resource Resource.lifecycle_lock (ok tt) h1).1 in
      let h3 = (take_resource Resource.local_state (ok tt) h2).1 in
      let h4 = (take_resource Resource.state_gate (ok tt) h3).1 in
      let h5 = (take_resource Resource.state_lock (ok tt) h4).1 in
      take-ends P Resource.local_lifecycle (c.taking Resource.local_lifecycle) _ new_lease
        (λ e. refl)
        (take-ends P Resource.lifecycle_lock (c.taking Resource.lifecycle_lock) _ h1 (λ e. refl)
          (take-ends P Resource.local_state (c.taking Resource.local_state) _ h2 (λ e. refl)
            (take-ends P Resource.state_gate (c.taking Resource.state_gate) _ h3 (λ e. refl)
              (take-ends P Resource.state_lock (c.taking Resource.state_lock) _ h4 (λ e. refl)
                (follow-ends P (check_result c true h5.lease) _ h5 (λ e. refl)
                  (follow-ends P c.context _ h5 (λ e. refl) refl))))))

  -- `acquire` takes what it takes in the order of the ranks, whatever its calls return: while it waits for
  -- a resource, it holds none of the same or a later rank. Where it succeeds, the lease holds exactly
  -- what its kind is to hold, and where it fails, all of it has been given back.
  pub acquire-replay :
      (write purge : Bool)
      → replay (acquire c write purge new_lease).1.trail []
        ≡ some (kept write purge (acquire c write purge new_lease).0)
  unfolding acquire
  acquire-replay write purge = settled (claim c write purge new_lease) (claim-Ends write purge)
    where
      settled :
          (o : Result (Unit {0}) × Hold)
          → Ends write purge o
          → replay (settle c write purge o.0 o.1).1.trail []
            ≡ some (kept write purge (settle c write purge o.0 o.1).0)
      settled (ok u, h) e =
          subst (λ (g : Hold). replay g.trail [] ≡ some (wanted write purge)) e
            (leased-replay write purge)
      settled (err x, h) e = e

  -- Nothing is left of a lease after its release.
  abbrev Freed : Result (Unit {0}) × Hold → Type 0
  Freed o = replay (release_lease o.1).trail [] ≡ some []

  keep_valid-Freed :
      (write purge : Bool) (r : Result (Unit {0})) (h : Hold)
      → ((e : Error) → Freed (err e, give_back Resource.connection h))
      → Freed (ok tt, h)
      → Freed (keep_valid c write purge r h)
  unfolding keep_valid
  keep_valid-Freed write purge (ok u) h p q = q
  keep_valid-Freed write purge (err e) h p q = p e

  leased-Freed : (write purge : Bool) → Freed (open_connection c write purge (leased write purge))
  unfolding claim claim_state replay release_lease check_lease check_result open_connection all
  leased-Freed false false =
      let h = leased false false in
      let h₁ = (take_resource Resource.database_slot (ok tt) h).1 in
      let h₂ = (take_resource Resource.connection (ok tt) h₁).1 in
      follow-ends Freed (check_result c false h.lease) _ h (λ e. refl)
        (take-ends Freed Resource.database_slot (c.taking Resource.database_slot) _ h (λ e. refl)
          (take-ends Freed Resource.connection (c.taking Resource.connection) _ h₁ (λ e. refl)
            (keep_valid-Freed false false c.validate h₂ (λ e. refl) refl)))
  leased-Freed true false =
      let h = leased true false in
      let h₁ = (take_resource Resource.connection (ok tt) h).1 in
      follow-ends Freed (check_result c false h.lease) _ h (λ e. refl)
        (take-ends Freed Resource.connection (c.taking Resource.connection) _ h (λ e. refl)
          (keep_valid-Freed true false c.validate h₁ (λ e. refl) refl))
  leased-Freed false true =
      let h = leased false true in
      let h₁ = (take_resource Resource.database_slot (ok tt) h).1 in
      let h₂ = (take_resource Resource.connection (ok tt) h₁).1 in
      follow-ends Freed (check_result c true h.lease) _ h (λ e. refl)
        (take-ends Freed Resource.database_slot (c.taking Resource.database_slot) _ h (λ e. refl)
          (take-ends Freed Resource.connection (c.taking Resource.connection) _ h₁ (λ e. refl)
            (keep_valid-Freed false true c.validate h₂ (λ e. refl) refl)))
  leased-Freed true true =
      let h = leased true true in
      let h₁ = (take_resource Resource.connection (ok tt) h).1 in
      follow-ends Freed (check_result c true h.lease) _ h (λ e. refl)
        (take-ends Freed Resource.connection (c.taking Resource.connection) _ h (λ e. refl)
          (keep_valid-Freed true true c.validate h₁ (λ e. refl) refl))

-- A lease that was acquired, and on which the database was then opened, or failed to open at any of
-- its calls, gives back by its release everything that was taken, and nothing that was not.
pub release_lease-replay :
    (c d : Calls) (write purge : Bool)
    → (acquire c write purge new_lease).0 ≡ ok tt
    → replay
        (release_lease (open_connection d write purge (acquire c write purge new_lease).1).1).trail
        []
      ≡ some []
unfolding acquire
release_lease-replay c d write purge =
    opened (claim c write purge new_lease) (claim-Ends c write purge)
  where
    opened :
        (o : Result (Unit {0}) × Hold)
        → Ends c write purge o
        → (settle c write purge o.0 o.1).0 ≡ ok tt
        → replay
            (release_lease (open_connection d write purge (settle c write purge o.0 o.1).1).1).trail
            []
          ≡ some []
    opened (ok u, h) e done =
        subst
          (λ (g : Hold).
            replay (release_lease (open_connection d write purge g).1).trail [] ≡ some [])
          e (leased-Freed d write purge)
    opened (err x, h) e done = cc
