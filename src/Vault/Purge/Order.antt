-- ===== src/Vault/Purge/Order.antt =====
-- The order in which `PurgeLocked` of internal/vault/repository.go takes things away.
use data_mate.Base.{
  ◌≡◌, refl, ◌⊎◌, inl, inr, Bool, true, false, Result, ok, err, Error, ownership, guard, arith,
}
use data_mate.Config.Database.{Db}
use data_mate.Config.Database.Read.{Lease}
use data_mate.Config.Database.Keyset.{has_keyset_for_purge}
use data_mate.Vault.Purge.{
  Site, Calls, Act, proceed, effect, hidden, mark_purging, lose_key, lose_journal, lose_database,
  begin_purge, purge_all, known_key, purge_locked, roll_back,
}

-- What a purge, which began at `a`, has done at `s`: nothing goes before the tombstone is there, but a
-- journal that SQLite has rolled back.
pub record Marked (rolled : Bool) (a s : Site) : Type 0 where
  pub key : (s.chain ≡ a.chain) ⊎ (s.purging ≡ true)
  pub journal :
      (s.journal ≡ a.journal) ⊎ (s.purging ≡ true) ⊎ ((rolled ≡ true) × (s.journal ≡ false))
  pub database : (s.database ≡ a.database) ⊎ (s.purging ≡ true)

-- On success the tombstone is there, and the journal and the database are gone.
abbrev pub Ordered : Bool → Site → Result (Unit {0}) × Site → Type 0
Ordered rolled a (ok u, s) = (s.purging ≡ true) × (s.journal ≡ false) × (s.database ≡ false)
Ordered rolled a (err e, s) = Marked rolled a s

start-Marked : (rolled : Bool) (a : Site) → Marked rolled a a
start-Marked rolled a = record { key = inl refl; journal = inl refl; database = inl refl }

purging-Marked : (rolled : Bool) (a s : Site) → s.purging ≡ true → Marked rolled a s
purging-Marked rolled a s h = record { key = inr h; journal = inr (inl h); database = inr h }

module _ (P : Result (Unit {0}) × Site → Type 0) where
  proceed-ends :
      (r : Result (Unit {0})) (f : Act) (s : Site)
      → ((e : Error) → P (err e, s))
      → P (f s)
      → P (proceed r f s)
  proceed-ends (ok u) f s p q = q
  proceed-ends (err e) f s p q = p e

  effect-ends :
      (r : Result (Unit {0})) (done : Bool) (g : Site → Site) (f : Act) (s : Site)
      → ((e : Error) → P (err e, s))
      → ((e : Error) → P (err e, g s))
      → P (f (g s))
      → P (proceed (effect r done g s).0 f (effect r done g s).1)
  effect-ends (ok u) done g f s p q k = k
  effect-ends (err e) true g f s p q k = q e
  effect-ends (err e) false g f s p q k = p e

  effect-last :
      (r : Result (Unit {0})) (done : Bool) (g : Site → Site) (s : Site)
      → ((e : Error) → P (err e, s))
      → ((e : Error) → P (err e, g s))
      → P (ok tt, g s)
      → P (effect r done g s)
  effect-last (ok u) done g s p q k = k
  effect-last (err e) true g s p q k = q e
  effect-last (err e) false g s p q k = p e

-- The end of `BeginPurge`.
abbrev Begun : Bool → Site → Result (Unit {0}) × Site → Type 0
Begun rolled a (ok u, s) = s.purging ≡ true
Begun rolled a (err e, s) = Marked rolled a s

begin_purge-Begun :
    (c : Calls) (l : Lease) (rolled : Bool) (a : Site) → Begun rolled a (begin_purge c l a)
unfolding begin_purge
begin_purge-Begun c l rolled a =
    let P = Begun rolled a in
    proceed-ends P (guard l.purge ownership) _ a (λ e. start-Marked rolled a)
      (proceed-ends P c.check_again _ a (λ e. start-Marked rolled a)
        (effect-last P c.replace c.replaced mark_purging a (λ e. start-Marked rolled a)
          (λ e. purging-Marked rolled a (mark_purging a) refl) refl))

after_begin :
    (rolled : Bool) (a : Site) (o : Result (Unit {0}) × Site) (f : Act)
    → Begun rolled a o
    → ((s : Site) → s.purging ≡ true → Ordered rolled a (f s))
    → Ordered rolled a (proceed o.0 f o.1)
after_begin rolled a (ok u, s) f h k = k s h
after_begin rolled a (err e, s) f h k = h

module _ (c : Calls) (rolled : Bool) (a : Site) where
  abbrev ending : Act
  ending s =
      proceed c.after_key_delete
        (λ s'.
          proceed (effect c.remove_journal c.journal_removed lose_journal s').0
            (effect c.remove_database c.database_removed lose_database)
            (effect c.remove_journal c.journal_removed lose_journal s').1)
        s

  ending-Ordered : (s : Site) → s.purging ≡ true → Ordered rolled a (ending s)
  ending-Ordered s h =
      let P = Ordered rolled a in
      proceed-ends P c.after_key_delete _ s (λ e. purging-Marked rolled a s h)
        (effect-ends P c.remove_journal c.journal_removed lose_journal _ s
          (λ e. purging-Marked rolled a s h) (λ e. purging-Marked rolled a (lose_journal s) h)
          (effect-last P c.remove_database c.database_removed lose_database (lose_journal s)
            (λ e. purging-Marked rolled a (lose_journal s) h)
            (λ e. purging-Marked rolled a (lose_database (lose_journal s)) h) (h, refl, refl)))

  purge_all-Ordered : (l : Lease) (has_key : Bool) → Ordered rolled a (purge_all c l has_key a)
  unfolding purge_all
  purge_all-Ordered l true =
      let P = Ordered rolled a in
      after_begin rolled a (begin_purge c l a) _ (begin_purge-Begun c l rolled a) λ s h.
        proceed-ends P c.before_key_delete _ s (λ e. purging-Marked rolled a s h)
          (effect-ends P (hidden c.delete) c.deleted lose_key _ s (λ e. purging-Marked rolled a s h)
            (λ e. purging-Marked rolled a (lose_key s) h) (ending-Ordered (lose_key s) h))
  purge_all-Ordered l false =
      let P = Ordered rolled a in
      after_begin rolled a (begin_purge c l a) _ (begin_purge-Begun c l rolled a) λ s h.
        proceed-ends P c.before_key_delete _ s (λ e. purging-Marked rolled a s h)
          (ending-Ordered s h)

-- What a purge has done since the opening of the database, and since before it.
Marked-roll_back :
    (c : Calls) (a s : Site) → Marked c.rolls_back (roll_back c a) s → Marked c.rolls_back a s
Marked-roll_back c a s m = record {
  key = ground (arith, m.key);
  journal = ground (arith, m.journal);
  database = ground (arith, m.database);
}

-- However a `PurgeLocked` ends, with any errors of its calls, the key, the journal and the database are as
-- they were unless the tombstone is there, but for a journal that SQLite has rolled back and deleted when
-- the database was opened; and where the purge succeeds, the tombstone is there, and the journal and the
-- database are gone.
pub purge_locked-Ordered :
    (c : Calls) (l : Lease) (db : Db) (a : Site) → Ordered c.rolls_back a (purge_locked c l db a)
unfolding purge_locked
purge_locked-Ordered c l db a =
    since (known_key c l (has_keyset_for_purge l c.check c.opened c.closed db) (roll_back c a))
      (known (has_keyset_for_purge l c.check c.opened c.closed db))
  where
    known :
        (r : Result Bool) → Ordered c.rolls_back (roll_back c a) (known_key c l r (roll_back c a))
    known (err e) = start-Marked c.rolls_back (roll_back c a)
    known (ok has_key) = purge_all-Ordered c c.rolls_back (roll_back c a) l has_key

    since :
        (o : Result (Unit {0}) × Site)
        → Ordered c.rolls_back (roll_back c a) o
        → Ordered c.rolls_back a o
    since (ok u, s) h = h
    since (err e, s) h = Marked-roll_back c a s h
