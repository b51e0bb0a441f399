-- ===== src/Config/Profiles/Normal.antt =====
-- What `DecodeProfiles` of internal/config/profiles.go establishes: distinct identities, aliases and
-- credential references, lower-case identities in order, and defaults filled in.
use data_mate.Base.{
  ◌≡◌, refl, false, subst, ok-injective, List, [], ◌∷◌, to_lower_idem, contains, All, ok, >>=-eq-ok,
  arith,
}
use data_mate.Config.Profile.{Profile, Profiles}
use data_mate.Config.Profiles.{
  Seen, nothing_seen, lowered, is_duplicate, mark, has_bad_ca, defaulted, normalise, insert, sort,
  canonical,
}
use data_mate.Config.Profiles.Ordered.{
  IsNormalised, IsCanonical, Apart, IsNew, Pairwise, Before, sort-All, sort-Pairwise, sort-ordered,
  IsNew-marks, marks-IsNew, is_duplicate-IsNew, IsNew-is_duplicate,
}

-- What the loop returns, for the maps that it starts with.
record Loop (s : Seen) (cs : List Profile) : Type 0 where
  each : All IsNormalised cs
  new : All (IsNew s) cs
  apart : Pairwise Apart cs

defaulted-IsNormalised :
    (raw : Profile) → has_bad_ca (lowered raw) ≡ false → IsNormalised (defaulted (lowered raw))
unfolding defaulted lowered has_bad_ca
defaulted-IsNormalised raw h = record {
  lower_id = to_lower_idem raw.id;
  lower_ref = to_lower_idem raw.credential_ref;
  good_ca = h;
  limited = ground arith;
}

normalise-ok :
    (s : Seen) (raw : Profile) (cs : List Profile) {ds : List Profile}
    → normalise s (raw ∷ cs) ≡ ok ds
    → (rest : List Profile) × (is_duplicate s (lowered raw) ≡ false)
      × (has_bad_ca (lowered raw) ≡ false)
      × (normalise (mark s (lowered raw)) cs ≡ ok rest)
      × (defaulted (lowered raw) ∷ rest ≡ ds)
unfolding normalise
normalise-ok s raw cs h = ground arith

cons-Loop :
    (s : Seen) (c : Profile) (ds : List Profile)
    → is_duplicate s c ≡ false
    → IsNormalised (defaulted c)
    → Loop (mark s c) ds
    → Loop s (defaulted c ∷ ds)
unfolding defaulted
cons-Loop s c ds fresh normal rest =
    let n = is_duplicate-IsNew s c fresh in
    let others = IsNew-marks s c ds rest.new in
    record {
      each = (normal, rest.each);
      new = (record { ids = n.ids; aliases = n.aliases; refs = n.refs }, others.0);
      apart = (apart_all ds others.1, rest.apart);
    }
  where
    apart_all : (es : List Profile) → All (Apart c) es → All (Apart (defaulted c)) es
    apart_all [] h = tt
    apart_all (e ∷ es) h =
        (record { ids = h.0.ids; aliases = h.0.aliases; refs = h.0.refs }, apart_all es h.1)

normalise-Loop :
    (s : Seen) (cs : List Profile) {ds : List Profile} → normalise s cs ≡ ok ds → Loop s ds
normalise-Loop s [] h =
    unfold normalise in subst (Loop s) (ok-injective h) (record { each = tt; new = tt; apart = tt })
normalise-Loop s (raw ∷ cs) h =
    let (rest, fresh, ca, e, final) = normalise-ok s raw cs h in
    subst (Loop s) final (
      cons-Loop s (lowered raw) rest fresh (defaulted-IsNormalised raw ca)
        (normalise-Loop (mark s (lowered raw)) cs e))

normal_again : (c : Profile) → IsNormalised c → (lowered c ≡ c) × (defaulted c ≡ c)
unfolding lowered defaulted
normal_again c n = (ground (arith, n.lower_id, n.lower_ref), ground (arith, n.limited))

normalise_self : (s : Seen) (cs : List Profile) → Loop s cs → normalise s cs ≡ ok cs
unfolding normalise
normalise_self s [] h = refl
normalise_self s (c ∷ cs) h =
    let same = normal_again c h.each.0 in
    rw (
      same.0,
      IsNew-is_duplicate s c h.new.0,
      h.each.0.good_ca,
      same.1,
      normalise_self (mark s c) cs (record {
        each = h.each.1;
        new = marks-IsNew s c cs h.new.1 h.apart.0;
        apart = h.apart.1;
      }),
    )

insert-first : (c : Profile) (ds : List Profile) → All (Before c) ds → insert c ds ≡ c ∷ ds
unfolding insert
insert-first c [] h = refl
insert-first c (d ∷ ds) h = rw h.0

sort_self : (cs : List Profile) → Pairwise Before cs → sort cs ≡ cs
unfolding sort
sort_self [] h = refl
sort_self (c ∷ cs) h = rw (sort_self cs h.1) (insert-first c cs h.0)

All-IsNew : (cs : List Profile) → All (IsNew nothing_seen) cs
unfolding contains
All-IsNew [] = tt
All-IsNew (c ∷ cs) = (record { ids = refl; aliases = refl; refs = ground arith }, All-IsNew cs)

-- A document that `DecodeProfiles` accepts has distinct ids, distinct aliases and distinct credential
-- references; its ids and references are in lower case, its CA paths absolute, its limits filled
-- in, and its connections in strictly ascending order of their ids.
pub canonical-IsCanonical :
    (p : Profiles) {q : Profiles} → canonical p ≡ ok q → IsCanonical q.connections
unfolding canonical
canonical-IsCanonical p h =
    let (cs, e, final) = >>=-eq-ok (normalise nothing_seen p.connections) _ h in
    let loop = normalise-Loop nothing_seen p.connections e in
    subst (λ (r : Profiles). IsCanonical r.connections) (ok-injective final)
      (record {
        each = sort-All IsNormalised cs loop.each;
        apart = sort-Pairwise cs loop.apart;
        ordered = sort-ordered cs loop.apart;
      })

-- Normalising a canonical document again changes nothing.
pub canonical_self : (p : Profiles) → IsCanonical p.connections → canonical p ≡ ok p
unfolding canonical
canonical_self p h =
    rw
      (normalise_self nothing_seen p.connections
        (record { each = h.each; new = All-IsNew p.connections; apart = h.apart }))
      (rw (sort_self p.connections h.ordered))
