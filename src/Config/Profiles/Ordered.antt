-- ===== src/Config/Profiles/Ordered.antt =====
-- Connections that are apart and in order stay so where `DecodeProfiles` of internal/config/profiles.go
-- puts one among them.
use data_mate.Base.{
  ◌≡◌, inl, inr, true, false, List, [], ◌∷◌, Text, text_eq, text_eq_iff, text_lt, text_lt_trans,
  text_lt_total, to_lower, contains, All, Bool-cases, arith, ◌&&◌,
}
use data_mate.Config.Profile.{Profile}
use data_mate.Config.Profiles.{
  is_set, with_limits, Seen, is_duplicate, mark, has_bad_ca, insert, sort,
}

-- Two connections of one document.
pub record Apart (c d : Profile) : Type 0 where
  pub ids : text_eq c.id d.id ≡ false
  pub aliases : text_eq c.alias d.alias ≡ false
  pub refs : is_set c.credential_ref && text_eq c.credential_ref d.credential_ref ≡ false

-- One connection of a document.
pub record IsNormalised (c : Profile) : Type 0 where
  pub lower_id : to_lower c.id ≡ c.id
  pub lower_ref : to_lower c.credential_ref ≡ c.credential_ref
  pub good_ca : has_bad_ca c ≡ false
  pub limited : with_limits c.limits ≡ c.limits

abbrev pub Pairwise : (Profile → Profile → Type 0) → List Profile → Type 0
Pairwise R [] = Unit {0}
Pairwise R (c ∷ cs) = All (R c) cs × Pairwise R cs

abbrev pub Before : Profile → Profile → Type 0
Before c d = text_lt c.id d.id ≡ true

pub record IsCanonical (cs : List Profile) : Type 0 where
  pub each : All IsNormalised cs
  pub apart : Pairwise Apart cs
  pub ordered : Pairwise Before cs

text_eq_comm : (s t : Text) → text_eq s t ≡ false → text_eq t s ≡ false
text_eq_comm s t h = ground (arith, text_eq_iff s t, text_eq_iff t s)

Apart-comm : {c d : Profile} → Apart c d → Apart d c
Apart-comm {c} {d} a = record {
  ids = text_eq_comm c.id d.id a.ids;
  aliases = text_eq_comm c.alias d.alias a.aliases;
  refs = ground (
    arith,
    a.refs,
    text_eq_iff c.credential_ref d.credential_ref,
    text_eq_iff d.credential_ref c.credential_ref,
  );
}

-- A connection that the loop has not met.
pub record IsNew (s : Seen) (c : Profile) : Type 0 where
  pub ids : contains c.id s.ids ≡ false
  pub aliases : contains c.alias s.aliases ≡ false
  pub refs : is_set c.credential_ref && contains c.credential_ref s.refs ≡ false

IsNew-mark : (s : Seen) (c d : Profile) → IsNew (mark s c) d → IsNew s d × Apart c d
unfolding mark contains
IsNew-mark s c d n = (
  record { ids = ground arith; aliases = ground arith; refs = ground (arith, n.refs) },
  record {
    ids = ground arith;
    aliases = ground arith;
    refs = ground (arith, n.refs, text_eq_iff c.credential_ref d.credential_ref);
  },
)

mark-IsNew : (s : Seen) (c d : Profile) → IsNew s d → Apart c d → IsNew (mark s c) d
unfolding mark contains
mark-IsNew s c d n a = record {
  ids = ground arith;
  aliases = ground arith;
  refs = ground (arith, n.refs, a.refs);
}

module _ (P : Profile → Type 0) where
  insert-All : (c : Profile) (ds : List Profile) → P c → All P ds → All P (insert c ds)
  unfolding insert
  insert-All c [] p h = (p, tt)
  insert-All c (d ∷ ds) p h = ground (arith, insert-All c ds p h.1)

  pub sort-All : (cs : List Profile) → All P cs → All P (sort cs)
  unfolding sort
  sort-All [] h = tt
  sort-All (c ∷ cs) h = insert-All c (sort cs) h.0 (sort-All cs h.1)

insert-Pairwise :
    (c : Profile) (ds : List Profile)
    → All (Apart c) ds
    → Pairwise Apart ds
    → Pairwise Apart (insert c ds)
unfolding insert
insert-Pairwise c [] h p = (tt, tt)
insert-Pairwise c (d ∷ ds) h p = elim (Bool-cases (text_lt c.id d.id)) [
  | inl e ↦ rw e (h, p)
  | inr e ↦ rw e (insert-All (Apart d) c ds (Apart-comm h.0) p.0, insert-Pairwise c ds h.1 p.1)
]

pub sort-Pairwise : (cs : List Profile) → Pairwise Apart cs → Pairwise Apart (sort cs)
unfolding sort
sort-Pairwise [] h = tt
sort-Pairwise (c ∷ cs) h =
    insert-Pairwise c (sort cs) (sort-All (Apart c) cs h.0) (sort-Pairwise cs h.1)

All-Before :
    (c d : Profile) (ds : List Profile) → Before c d → All (Before d) ds → All (Before c) ds
All-Before c d [] b h = tt
All-Before c d (e ∷ ds) b h = (text_lt_trans c.id d.id e.id b h.0, All-Before c d ds b h.1)

insert-ordered :
    (c : Profile) (ds : List Profile)
    → All (Apart c) ds
    → Pairwise Before ds
    → Pairwise Before (insert c ds)
unfolding insert
insert-ordered c [] h p = (tt, tt)
insert-ordered c (d ∷ ds) h p = elim (Bool-cases (text_lt c.id d.id)) [
  | inl e ↦ rw e ((e, All-Before c d ds e p.0), p)
  | inr e ↦ rw e (
    insert-All (Before d) c ds (text_lt_total c.id d.id e h.0.ids) p.0,
    insert-ordered c ds h.1 p.1,
  )
]

pub sort-ordered : (cs : List Profile) → Pairwise Apart cs → Pairwise Before (sort cs)
unfolding sort
sort-ordered [] h = tt
sort-ordered (c ∷ cs) h =
    insert-ordered c (sort cs) (sort-All (Apart c) cs h.0) (sort-ordered cs h.1)

pub IsNew-marks :
    (s : Seen) (c : Profile) (ds : List Profile)
    → All (IsNew (mark s c)) ds
    → All (IsNew s) ds × All (Apart c) ds
IsNew-marks s c [] h = (tt, tt)
IsNew-marks s c (d ∷ ds) h =
    let here = IsNew-mark s c d h.0 in
    let there = IsNew-marks s c ds h.1 in ((here.0, there.0), (here.1, there.1))

pub marks-IsNew :
    (s : Seen) (c : Profile) (ds : List Profile)
    → All (IsNew s) ds
    → All (Apart c) ds
    → All (IsNew (mark s c)) ds
marks-IsNew s c [] h a = tt
marks-IsNew s c (d ∷ ds) h a = (mark-IsNew s c d h.0 a.0, marks-IsNew s c ds h.1 a.1)

pub is_duplicate-IsNew : (s : Seen) (c : Profile) → is_duplicate s c ≡ false → IsNew s c
unfolding is_duplicate
is_duplicate-IsNew s c h = record {
  ids = ground arith;
  aliases = ground arith;
  refs = ground arith;
}

pub IsNew-is_duplicate : (s : Seen) (c : Profile) → IsNew s c → is_duplicate s c ≡ false
unfolding is_duplicate
IsNew-is_duplicate s c n = ground (arith, n.refs)
