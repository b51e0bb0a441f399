-- ===== src/Agent/Accepted.antt =====
-- The changes of the record of internal/agent/ownership.go keep to what `readOwnership` accepts.
use data_mate.Base.{
  ℕ, suc, ◌+◌, ◌≤◌, ◌≡◌, refl, true, false, ◌||◌, Option, none, some, List, [], ◌∷◌, Text, bytes,
  text_eq, text_eq_iff, text_eq_refl, length, leb, le→leb, ◌==◌, if◌then◌else◌, contains, Result,
  ok, err, Bool-cases, inl, inr, arith, is_abs, same_texts_refl,
}
use data_mate.Agent.Ownership.{
  OwnedEntry, Ownership, Home, known_agent, known_phase, fits, check_entries, accepts, no_entries,
  read_ownership, put_entry, own_entry, drop_entry, Adapter,
}
use data_mate.Agent.Ensure.{intent_of}

pub contains-cons :
    (k j : Text) (s : List Text) → contains k (j ∷ s) ≡ (text_eq j k || contains k s)
unfolding contains
contains-cons k j s = refl

fits-owned :
    (h : Home) (e : OwnedEntry)
    → fits h e ≡ true
    → fits h (record e { phase = bytes "owned" }) ≡ true
unfolding fits known_phase text_eq
fits-owned h e f = ground arith

pub check_entries-own :
    (h : Home) (a : Text) (seen : List Text) (es : List OwnedEntry)
    → check_entries h seen es ≡ true
    → check_entries h seen (own_entry a es) ≡ true
unfolding check_entries own_entry
check_entries-own h a seen [] c = refl
check_entries-own h a seen (d ∷ es) c = elim (Bool-cases (text_eq d.agent a)) [
  | inl same ↦ rw same (ground (arith, fits-owned h d, c))
  | inr other ↦ rw other (ground (arith, c, check_entries-own h a (d.agent ∷ seen) es))
]

pub check_entries-put :
    (h : Home) (e : OwnedEntry) (seen : List Text) (es : List OwnedEntry)
    → fits h e ≡ true
    → contains e.agent seen ≡ false
    → check_entries h seen es ≡ true
    → check_entries h seen (put_entry e es) ≡ true
unfolding check_entries put_entry
check_entries-put h e seen [] f n c = ground (arith, f, n)
check_entries-put h e seen (d ∷ es) f n c = elim (Bool-cases (text_eq d.agent e.agent)) [
  | inl same ↦
      let k : d.agent ≡ e.agent = (text_eq_iff d.agent e.agent).0 same in
      let old : check_entries h (d.agent ∷ seen) es ≡ true = ground (arith, c) in
      let rest : check_entries h (e.agent ∷ seen) es ≡ true = rw k at old in
      rw same (ground (arith, f, n, rest))
  | inr other ↦
      let fresh : contains e.agent (d.agent ∷ seen) ≡ false =
        rw (contains-cons e.agent d.agent seen, other) n in
      rw other (ground (arith, c, check_entries-put h e (d.agent ∷ seen) es f fresh))
]

pub fits-intent :
    (h : Home) (a : Adapter)
    → known_agent a.name ≡ true
    → is_abs a.path ≡ true
    → (length (h.fingerprint_for a.name) == 64) ≡ true
    → fits h (intent_of h a) ≡ true
unfolding fits known_phase text_eq
fits-intent h a k p l = ground (
  arith,
  k,
  p,
  l,
  text_eq_refl (h.fingerprint_for a.name),
  text_eq_refl h.name,
  text_eq_refl h.executable,
  same_texts_refl h.args,
)

-- A smaller set of seen agents refuses no more.
check_entries-fewer :
    (h : Home) (s t : List Text) (es : List OwnedEntry)
    → ((k : Text) → contains k t ≡ true → contains k s ≡ true)
    → check_entries h s es ≡ true
    → check_entries h t es ≡ true
unfolding check_entries
check_entries-fewer h s t [] i c = refl
check_entries-fewer h s t (d ∷ es) i c =
    ground (arith, c, unseen, check_entries-fewer h (d.agent ∷ s) (d.agent ∷ t) es more)
  where
    more : (k : Text) → contains k (d.agent ∷ t) ≡ true → contains k (d.agent ∷ s) ≡ true
    more k m = rw contains-cons (ground (arith, rw contains-cons at m, i k))

    unseen : contains d.agent t ≡ false
    unseen = elim (Bool-cases (contains d.agent t)) [
      | inl there ↦ let here = i d.agent there in ground (arith, c, here)
      | inr gone ↦ gone
    ]

pub check_entries-drop :
    (h : Home) (a : Text) (seen : List Text) (es : List OwnedEntry)
    → check_entries h seen es ≡ true
    → check_entries h seen (drop_entry a es) ≡ true
unfolding check_entries drop_entry
check_entries-drop h a seen [] c = refl
check_entries-drop h a seen (d ∷ es) c = elim (Bool-cases (text_eq d.agent a)) [
  | inl same ↦
      let old : check_entries h (d.agent ∷ seen) es ≡ true = ground (arith, c) in
      rw same (
        check_entries-fewer h (d.agent ∷ seen) seen es
          (λ k m. rw (contains-cons k d.agent seen) (ground (arith, m))) old)
  | inr other ↦ rw other (ground (arith, c, check_entries-drop h a (d.agent ∷ seen) es))
]

-- The agents that are still free.
abbrev free : List Text → ℕ
free seen =
    (if contains (bytes "codex") seen then 0 else 1)
    + (if contains (bytes "claude") seen then 0 else 1)

apart_names : text_eq (bytes "codex") (bytes "claude") ≡ false
unfolding text_eq
apart_names = refl

free-taken :
    (a : Text) (seen : List Text)
    → known_agent a ≡ true
    → contains a seen ≡ false
    → suc (free (a ∷ seen)) ≡ free seen
unfolding known_agent
free-taken a seen k n = elim (Bool-cases (text_eq a (bytes "codex"))) [
  | inl codex ↦
      let e : a ≡ bytes "codex" = (text_eq_iff a (bytes "codex")).0 codex in
      let gone : contains (bytes "codex") seen ≡ false = rw e at n in
      let apart : text_eq a (bytes "claude") ≡ false = rw e apart_names in
      ground (
        arith,
        codex,
        gone,
        apart,
        contains-cons (bytes "codex") a seen,
        contains-cons (bytes "claude") a seen,
      )
  | inr other ↦
      let claude : text_eq a (bytes "claude") ≡ true = ground (arith, k, other) in
      let e : a ≡ bytes "claude" = (text_eq_iff a (bytes "claude")).0 claude in
      let gone : contains (bytes "claude") seen ≡ false = rw e at n in
      ground (
        arith,
        claude,
        other,
        gone,
        contains-cons (bytes "codex") a seen,
        contains-cons (bytes "claude") a seen,
      )
]

length-free :
    (h : Home) (seen : List Text) (es : List OwnedEntry)
    → check_entries h seen es ≡ true
    → length es ≤ free seen
unfolding check_entries fits
length-free h seen [] c = omega arith
length-free h seen (d ∷ es) c =
    let rest : check_entries h (d.agent ∷ seen) es ≡ true = ground (arith, c) in
    let new : contains d.agent seen ≡ false = ground (arith, c) in
    let known : known_agent d.agent ≡ true = ground (arith, c) in
    let below = length-free h (d.agent ∷ seen) es rest in
    ground (arith, below, free-taken d.agent seen known new)

-- The document of a record.
abbrev pub document : Home → List OwnedEntry → Ownership
document h es = record {
  version = 1;
  installation = h.installation;
  root = h.root;
  digest = h.digest;
  entries = es;
}

pub read_ownership-document :
    (h : Home) (es : List OwnedEntry)
    → h.identity_digest ≡ h.digest
    → check_entries h [] es ≡ true
    → read_ownership h (ok (some (document h es))) ≡ some es
unfolding read_ownership accepts contains
read_ownership-document h es d c =
    let same : text_eq h.identity_digest h.digest ≡ true = rw d (text_eq_refl h.digest) in
    let few : leb (length es) 2 ≡ true =
      le→leb (length es) 2 (omega (arith, two, length-free h [] es c)) in
    ground
      (arith, c, same, few, text_eq_refl h.installation, text_eq_refl h.root, text_eq_refl h.digest)
  where
    two : free [] ≡ 2
    two = refl

-- What was read was accepted.
pub read_ownership-accepted :
    (h : Home) (file : Result (Option Ownership)) (es : List OwnedEntry)
    → read_ownership h file ≡ some es
    → (h.identity_digest ≡ h.digest) × (check_entries h [] es ≡ true)
unfolding read_ownership accepts check_entries
read_ownership-accepted h file es r = elim (Bool-cases (text_eq h.identity_digest h.digest)) [
  | inr other ↦ ground (arith, r, other)
  | inl same ↦ (
    (text_eq_iff h.identity_digest h.digest).0 same,
    from_file file (rw (read_ownership, same) at r),
  )
]
  where
    from_file :
        (f : Result (Option Ownership))
        → elim f as (λ _. Option (List OwnedEntry)) [
          | err e ↦ no_entries e
          | ok none ↦ none
          | ok (some o) ↦ if accepts h o then some o.entries else none
        ]
          ≡ some es
        → check_entries h [] es ≡ true
    from_file (err e) q = ground arith
    from_file (ok none) q = cc
    from_file (ok (some o)) q = ground arith
