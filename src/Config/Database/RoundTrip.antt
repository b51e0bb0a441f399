-- ===== src/Config/Database/RoundTrip.antt =====
-- `Publish` and then `ProfileSnapshot` of internal/config/database.go.
use data_mate.Base.{
  ℕ, ◌+◌, ◌≤◌, ◌≡◌, refl, sym, ap, subst, ◌∙◌, ◌⊎◌, inl, inr, Option, none, some, List, Text,
  length, ok, err, document, commit_unknown, leb, >>=-eq-ok, guard-ok, ok-injective, Error, arith,
}
use data_mate.Config.Profile.{Profiles}
use data_mate.Config.Profiles.{Codec, canonical, parsed, decode_profiles, max_profile_bytes}
use data_mate.Config.Database.{Db, Installation, Ciphertext, Revision}
use data_mate.Config.Database.Read.{Lease, database, profile_snapshot}
use data_mate.Config.Database.Publish.{Calls, transaction, admit, prepare, publish}
use data_mate.Config.Database.Atomic.{prepare-Prepared, publish-cases}
use data_mate.Config.Database.Ran.{transaction-Ran}
use data_mate.Config.Database.Saved.{CodecLaws, read_profiles-transaction}

-- What an accepted document went through.
record Decoded (codec : Codec) (raw : Text) (out : Profiles × Text) : Type 0 where
  read : Profiles
  parses : codec.parse raw ≡ some read
  normal : canonical read ≡ ok out.0
  digest : out.1 ≡ codec.digest (codec.print out.0)

parsed-ok : (o : Option Profiles) {p : Profiles} → parsed o ≡ ok p → o ≡ some p
unfolding parsed
parsed-ok none h = cc
parsed-ok (some p) h = ap some (ok-injective h)

decode_profiles-Decoded :
    (codec : Codec) (raw : Text) {out : Profiles × Text}
    → decode_profiles codec raw ≡ ok out
    → Decoded codec raw out
unfolding decode_profiles
decode_profiles-Decoded codec raw h =
    let begun = (guard-ok (leb (length raw) max_profile_bytes) document _ h).1 in
    let (p, parses, h₁) = >>=-eq-ok (parsed (codec.parse raw)) _ begun in
    let (q, normal, h₂) = >>=-eq-ok (canonical p) _ h₁ in
    subst (Decoded codec raw) (ok-injective h₂) (record {
      read = p;
      parses = parsed-ok (codec.parse raw) parses;
      normal = normal;
      digest = refl;
    })

admit-decode :
    (codec : Codec) (l : Lease) (db : Db) (p : Profiles) (expected : Revision)
    {out : Profiles × Text}
    → admit codec l db p expected ≡ ok out
    → (decode_profiles codec (codec.print p) ≡ ok out) × (database l db ≡ ok tt)
unfolding admit profile_snapshot
admit-decode codec l db p expected h = ground arith

-- The check of the file does not read the generation.
database-next :
    (l : Lease) (db next : Db) (i : Installation) (n : ℕ)
    → db.installation ≡ some i
    → next.installation ≡ some (record i { generation = n })
    → database l next ≡ database l db
unfolding database
database-next l db next i n h k = rw (h, k)

prepare-profile_snapshot :
    (codec : Codec) (calls : Calls) (l : Lease) (db : Db) (p : Profiles) (expected : Revision)
    (replacements : List Ciphertext) (laws : CodecLaws codec) {next : Db} {rev : Revision}
    {out : Profiles × Text}
    → prepare codec calls l db p expected replacements ≡ ok (next, rev)
    → decode_profiles codec (codec.print p) ≡ ok out
    → length (codec.print out.0) ≤ max_profile_bytes
    → profile_snapshot codec l next ≡ ok (out.0, rev)
unfolding profile_snapshot
prepare-profile_snapshot codec calls l db p expected replacements laws {next} {rev} {out} h decoded
      fits =
    let w = prepare-Prepared codec calls l db p expected replacements h in
    let (dec, opens) = admit-decode codec l db p expected w.accepted in
    let same : w.admitted ≡ out = ok-injective (sym dec ∙ decoded) in
    let d = decode_profiles-Decoded codec (codec.print p) decoded in
    let ran =
      subst
        (λ (a : Profiles × Text).
          transaction codec calls.runs db a.0.connections replacements ≡ ok (next, rev.generation))
        same w.ran in
    let r = transaction-Ran codec calls.runs db out.0.connections replacements ran in
    let read =
      read_profiles-transaction codec laws (codec.print p) d.read out.0 calls.runs db replacements
        d.parses d.normal fits ran in
    let digest : rev.digest ≡ codec.digest (codec.print out.0) =
      w.digest ∙ (ap (λ (a : Profiles × Text). a.1) same ∙ d.digest) in
    rw (database-next l db next r.before (r.before.generation + 1) r.found r.installed, opens, read)
      (ground (arith, digest))

-- Under the documented behaviour of the encoder, once a publication succeeds, and its normalised
-- document is within the size limit, the next snapshot under the same lease returns exactly that
-- document, with the revision that the publication returned.
pub profile_snapshot-publish :
    (codec : Codec) (calls : Calls) (l : Lease) (db : Db) (p q : Profiles) (expected rev : Revision)
    (replacements : List Ciphertext) (digest : Text)
    → CodecLaws codec
    → (publish codec calls l db p expected replacements).0 ≡ ok rev
    → decode_profiles codec (codec.print p) ≡ ok (q, digest)
    → length (codec.print q) ≤ max_profile_bytes
    → profile_snapshot codec l (publish codec calls l db p expected replacements).1 ≡ ok (q, rev)
profile_snapshot-publish codec calls l db p q expected rev replacements digest laws h decoded fits =
    elim (publish-cases codec calls l db p expected replacements) [
      | inr refused ↦ absurd (clash refused.error refused.result)
      | inl (next, rev', prepared, took) ↦
          let snapshot =
            prepare-profile_snapshot codec calls l db p expected replacements laws prepared decoded
              fits in
          rw took.tables
            (snapshot ∙ ap (λ (r : Revision). ok (q, r)) (same_revision rev' took.result))
    ]
  where
    clash : (e : Error) → (publish codec calls l db p expected replacements).0 ≡ err e → ⊥
    clash e g = cc

    same_revision :
        (rev' : Revision)
        → ((publish codec calls l db p expected replacements).0 ≡ ok rev')
          ⊎ ((publish codec calls l db p expected replacements).0 ≡ err commit_unknown)
        → rev' ≡ rev
    same_revision rev' (inl g) = ok-injective (sym g ∙ h)
    same_revision rev' (inr g) = cc
