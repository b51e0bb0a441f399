-- ===== src/Config/Database/Saved.antt =====
-- What `Publish` of internal/config/database.go saves is what `ProfileSnapshot` reads back.
use data_mate.Base.{
  ℕ, Bool, zero, suc, ◌+◌, ◌≤◌, ◌≡◌, refl, ap, sym, ◌∙◌, true, none, some, List, [], ◌∷◌, ◌++◌, map,
  Text, text_eq, text_eq_refl, text_lt, text_lt_asymm, if◌then◌else◌, length, take, total, All, ok,
  ok-injective, leb, ltb, le→leb, lt→ltb, arith,
}
use mathlib.Core.List.{append-nil, append_assoc}
use data_mate.Config.Profile.{Profile, Profiles}
use data_mate.Config.Profiles.{Codec, is_set, canonical, decode_profiles, max_profile_bytes}
use data_mate.Config.Profiles.Ordered.{IsCanonical, Pairwise, Before}
use data_mate.Config.Profiles.Normal.{canonical-IsCanonical, canonical_self}
use data_mate.Config.Database.{Db, ProfileRow, Ciphertext, Installation, max_settings}
use data_mate.Config.Database.Read.{
  ref_string, insert_row, order_rows, decode_row, scan_rows, read_profiles,
}
use data_mate.Config.Database.Ran.{transaction-Ran}
use data_mate.Config.Database.Publish.{Statement, row_of, insert_profiles, transaction}

-- What the model relies on of encoding/json, the schema of profiles and `DecodeStrict`, for the
-- documents that `DecodeProfiles` accepts.
pub record CodecLaws (codec : Codec) : Type 0 where
  -- the schema fixes the version and bounds the number of connections
  pub version_one : (raw : Text) (p : Profiles) → codec.parse raw ≡ some p → p.version ≡ 1
  pub at_most_128 :
      (raw : Text) (p : Profiles) → codec.parse raw ≡ some p → length p.connections ≤ 128
  -- a normalised document is within the schema, and is read back from its encoding
  pub reparse :
      (raw : Text) (p q : Profiles)
      → codec.parse raw ≡ some p
      → canonical p ≡ ok q
      → codec.parse (codec.print q) ≡ some q
  -- so is each of its connections, whose encoding is a part of the document's
  pub profile_back :
      (raw : Text) (p q : Profiles)
      → codec.parse raw ≡ some p
      → canonical p ≡ ok q
      → All (λ (c : Profile). codec.parse_profile (codec.print_profile c) ≡ some c) q.connections
  pub shorter :
      (raw : Text) (p q : Profiles)
      → codec.parse raw ≡ some p
      → canonical p ≡ ok q
      → total (λ (c : Profile). length (codec.print_profile c)) q.connections
        ≤ length (codec.print q)

take-all {ℓ} : {A : Type ℓ} (n : ℕ) (xs : List A) → length xs ≤ n → take n xs ≡ xs
take-all zero [] h = refl
take-all (suc n) [] h = refl
take-all zero (x ∷ xs) h = absurd (omega arith)
take-all (suc n) (x ∷ xs) h = ap (λ ys. x ∷ ys) (take-all n xs (omega arith))

length-map {ℓ κ} :
    {A : Type ℓ} {B : Type κ} (f : A → B) (xs : List A) → length (map f xs) ≡ length xs
length-map f [] = refl
length-map f (x ∷ xs) = ap suc (length-map f xs)

module _ (codec : Codec) where
  abbrev rows : List Profile → List ProfileRow
  rows = map (row_of codec)

  -- The row comes after all those of the list.
  abbrev IsLast : ProfileRow → List ProfileRow → Type 0
  IsLast r = All (λ (s : ProfileRow). text_lt s.id r.id ≡ true)

  insert_row-last :
      (r : ProfileRow) (ss : List ProfileRow) → IsLast r ss → insert_row r ss ≡ ss ++ (r ∷ [])
  unfolding insert_row
  insert_row-last r [] h = refl
  insert_row-last r (s ∷ ss) h =
      rw (text_lt_asymm s.id r.id h.0) (ap (λ ts. s ∷ ts) (insert_row-last r ss h.1))

  IsLast-append :
      (x r : ProfileRow) (ss : List ProfileRow)
      → IsLast x ss
      → text_lt r.id x.id ≡ true
      → IsLast x (ss ++ (r ∷ []))
  IsLast-append x r [] h e = (e, tt)
  IsLast-append x r (s ∷ ss) h e = (h.0, IsLast-append x r ss h.1 e)

  All-IsLast :
      (p : Profile) (ss : List ProfileRow) (ps : List Profile)
      → All (λ (q : Profile). IsLast (row_of codec q) ss) ps
      → All (Before p) ps
      → All (λ (q : Profile). IsLast (row_of codec q) (ss ++ (row_of codec p ∷ []))) ps
  unfolding row_of
  All-IsLast p ss [] h b = tt
  All-IsLast p ss (q ∷ ps) h b =
      (IsLast-append (row_of codec q) (row_of codec p) ss h.0 b.0, All-IsLast p ss ps h.1 b.1)

  insert_profiles-rest :
      (runs : Statement → Bool) (rs : List ProfileRow) (p : Profile) (ps : List Profile)
      {out : List ProfileRow}
      → insert_profiles codec runs rs (p ∷ ps) ≡ ok out
      → insert_profiles codec runs (row_of codec p ∷ rs) ps ≡ ok out
  unfolding insert_profiles
  insert_profiles-rest runs rs p ps h = ground arith

  -- The rows are inserted in order and read in order.
  order_rows-insert_profiles :
      (runs : Statement → Bool) (rs : List ProfileRow) (ps : List Profile) {out : List ProfileRow}
      → All (λ (p : Profile). IsLast (row_of codec p) (order_rows rs)) ps
      → Pairwise Before ps
      → insert_profiles codec runs rs ps ≡ ok out
      → order_rows out ≡ order_rows rs ++ rows ps
  unfolding order_rows
  order_rows-insert_profiles runs rs [] {out} last asc h =
      sym (append-nil (order_rows rs) ∙ ap order_rows (nothing_inserted h))
    where
      nothing_inserted : insert_profiles codec runs rs [] ≡ ok out → rs ≡ out
      nothing_inserted e = unfold insert_profiles in ok-injective e
  order_rows-insert_profiles runs rs (p ∷ ps) last asc h =
      let r = row_of codec p in
      let front = insert_row-last r (order_rows rs) last.0 in
      order_rows-insert_profiles runs (r ∷ rs) ps
        (rw front (All-IsLast p (order_rows rs) ps last.1 asc.0)) asc.1
        (insert_profiles-rest runs rs p ps h)
      ∙ (ap (λ ss. ss ++ rows ps) front ∙ append_assoc (order_rows rs) (r ∷ []) (rows ps))

  ref_back : (r : Text) → text_eq r (ref_string (if is_set r then some r else none)) ≡ true
  ref_back [] = text_eq_refl []
  ref_back (c ∷ r) = text_eq_refl (c ∷ r)

  decode_row-row_of :
      (c : Profile)
      → codec.parse_profile (codec.print_profile c) ≡ some c
      → length (codec.print_profile c) ≤ max_settings
      → decode_row codec (row_of codec c) ≡ ok c
  unfolding decode_row row_of
  decode_row-row_of c back short =
      rw (take-all (suc max_settings) (codec.print_profile c) (omega arith))
        (ground (arith, text_eq_refl c.id, text_eq_refl c.alias, ref_back c.credential_ref))

  scan_rows-cons :
      (size count : ℕ) (r : ProfileRow) (rs : List ProfileRow) {c : Profile} {cs : List Profile}
      → leb (size + length (take (suc max_settings) r.settings)) max_profile_bytes ≡ true
      → ltb count 128 ≡ true
      → decode_row codec r ≡ ok c
      → scan_rows codec (size + length (take (suc max_settings) r.settings)) (suc count) rs ≡ ok cs
      → scan_rows codec size count (r ∷ rs) ≡ ok (c ∷ cs)
  unfolding scan_rows
  scan_rows-cons size count r rs a b d e = rw (a, b, d, e)

  settings_length :
      (c : Profile)
      → length (codec.print_profile c) ≤ max_settings
      → length (take (suc max_settings) (row_of codec c).settings) ≡ length (codec.print_profile c)
  unfolding row_of
  settings_length c h =
      ap length (take-all (suc max_settings) (codec.print_profile c) (omega arith))

  scan_rows-rows :
      (size count : ℕ) (cs : List Profile)
      → All (λ (c : Profile). codec.parse_profile (codec.print_profile c) ≡ some c) cs
      → size + total (λ (c : Profile). length (codec.print_profile c)) cs ≤ max_profile_bytes
      → count + length cs ≤ 128
      → scan_rows codec size count (rows cs) ≡ ok cs
  unfolding scan_rows total
  scan_rows-rows size count [] back short few = refl
  scan_rows-rows size count (c ∷ cs) back short few =
      let size' = size + length (take (suc max_settings) (row_of codec c).settings) in
      let whole = settings_length c (omega arith) in
      scan_rows-cons size count (row_of codec c) (rows cs) (le→leb _ _ (omega (arith, whole)))
        (lt→ltb _ _ (omega arith)) (decode_row-row_of c back.0 (omega arith))
        (scan_rows-rows size' (suc count) cs back.1 (omega (arith, whole)) (omega arith))

  order_rows-IsLast :
      (ps : List Profile) → All (λ (p : Profile). IsLast (row_of codec p) (order_rows [])) ps
  unfolding order_rows
  order_rows-IsLast [] = tt
  order_rows-IsLast (p ∷ ps) = (tt, order_rows-IsLast ps)

  decode_profiles-print :
      (q : Profiles)
      → codec.parse (codec.print q) ≡ some q
      → length (codec.print q) ≤ max_profile_bytes
      → IsCanonical q.connections
      → decode_profiles codec (codec.print q) ≡ ok (q, codec.digest (codec.print q))
  unfolding decode_profiles
  decode_profiles-print q again fits canon =
      rw (le→leb (length (codec.print q)) max_profile_bytes fits, again, canonical_self q canon)

  read_profiles-ok :
      (db : Db) (q : Profiles) (i : Installation)
      → db.installation ≡ some i
      → scan_rows codec 0 0 (take 129 (order_rows db.profiles)) ≡ ok q.connections
      → q.version ≡ 1
      → codec.parse (codec.print q) ≡ some q
      → length (codec.print q) ≤ max_profile_bytes
      → IsCanonical q.connections
      → read_profiles codec db
        ≡ ok (q, record { digest = codec.digest (codec.print q); generation = i.generation })
  unfolding read_profiles
  read_profiles-ok db q i found scanned one again fits canon =
      let same : record { version = 1; connections = q.connections } ≡ q = ground arith in
      rw (found, scanned, same, decode_profiles-print q again fits canon)

  -- The connections of a canonical document, published and read back.
  pub read_profiles-transaction :
      CodecLaws codec
      → (raw : Text) (p q : Profiles) (runs : Statement → Bool) (db : Db)
        (replacements : List Ciphertext) {next : Db} {g : ℕ}
      → codec.parse raw ≡ some p
      → canonical p ≡ ok q
      → length (codec.print q) ≤ max_profile_bytes
      → transaction codec runs db q.connections replacements ≡ ok (next, g)
      → read_profiles codec next
        ≡ ok (q, record { digest = codec.digest (codec.print q); generation = g })
  unfolding order_rows
  read_profiles-transaction laws raw p q runs db replacements {next} {g} parses normal fits ran =
      let again = laws.reparse raw p q parses normal in
      let few = laws.at_most_128 (codec.print q) q again in
      let short = laws.shorter raw p q parses normal in
      let canon = canonical-IsCanonical p normal in
      let r = transaction-Ran codec runs db q.connections replacements ran in
      let ordered : order_rows next.profiles ≡ rows q.connections =
        order_rows-insert_profiles runs [] q.connections (order_rows-IsLast q.connections)
          canon.ordered r.inserted in
      let scanned : scan_rows codec 0 0 (take 129 (order_rows next.profiles)) ≡ ok q.connections =
        rw
          (
            ordered,
            take-all 129 (rows q.connections)
                (omega (arith, length-map (row_of codec) q.connections, few)),
          )
          (scan_rows-rows 0 0 q.connections (laws.profile_back raw p q parses normal)
            (omega (arith, short)) (omega (arith, few))) in
      read_profiles-ok next q (record r.before { generation = r.before.generation + 1 }) r.installed
        scanned (laws.version_one (codec.print q) q again) again fits canon
      ∙ ap (λ n. ok (q, record { digest = codec.digest (codec.print q); generation = n }))
          (sym r.generation)
