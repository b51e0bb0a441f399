-- ===== src/Transport/Enrolment.antt =====
-- What `WithHostKey` of internal/transport/hosts.go makes of the pins.
use data_mate.Base.{
  suc, ◌≤◌, ◌<◌, ◌≡◌, ◌⊎◌, refl, ◌∙◌, true, false, not, ◌&&◌, Option, none, some, [], ◌∷◌, ◌++◌,
  Text, text_eq_refl, length, Bool-cases, Option-cases, inl, inr, arith, ltb, ap,
}
use data_mate.Transport.Hosts.{
  Key, HostKey, Entry, Ssh, HostError, known_hosts, unknown_host, changed_host, store, Answer,
  spent, refused, value, Hosts, lookup, has_pattern, entry_name, scan, parse_hosts, check_host,
  valid_address, close, line_of, add_line, with_hosts, with_host_key, max_known_hosts_bytes,
}
use data_mate.Transport.Pins.{SshLaws, take-good, take-bad, scan-blank, parse_hosts-extends}

abbrev pub pin_of : Text → Key → HostKey
pin_of a k = record { address = a; key = some k }

-- What the library reads from the line that it writes for a pin.
abbrev pub entry_of : Ssh → Text → Key → Entry
entry_of s a k = record { marker = []; names = s.normalize a ∷ []; key = k; rest = [] }

Added : Ssh → Text → Text → Key → Text → Hosts → Type 0
Added s raw a k new hs =
    ((check_host s hs a k ≡ none) × (new ≡ raw))
    ⊎ ((check_host s hs a k ≡ some unknown_host)
        × (new ≡ close s raw ++ line_of s a k)
        × (length new ≤ max_known_hosts_bytes))

add_line-Added :
    (s : Ssh) (raw a : Text) (k : Key) (new : Text) (hs : Hosts)
    → add_line s raw a k (check_host s hs a k) ≡ value new
    → Added s raw a k new hs
unfolding Added
add_line-Added s raw a k new hs = split (check_host s hs a k)
  where
    split :
        (o : Option HostError)
        → add_line s raw a k o ≡ value new
        → ((o ≡ none) × (new ≡ raw))
          ⊎ ((o ≡ some unknown_host)
              × (new ≡ close s raw ++ line_of s a k)
              × (length new ≤ max_known_hosts_bytes))
    split none h = inl (refl, cc)
    split (some unknown_host) h = inr (refl, ground arith, ground arith)
    split (some changed_host) h = cc
    split (some known_hosts) h = cc
    split (some (store e)) h = cc

with_host_key-Added :
    (s : Ssh) (raw a : Text) (k : Key) (new : Text)
    → with_host_key s raw (pin_of a k) ≡ value new
    → (hs : Hosts) × (parse_hosts s raw ≡ value hs)
      × (k.certificate ≡ false)
      × Added s raw a k new hs
unfolding with_host_key
with_host_key-Added s raw a k new h = elim (Bool-cases (valid_address s a && not k.certificate)) [
  | inr bad ↦ let wrong : refused known_hosts ≡ value new = rw (with_host_key, bad) at h in cc
  | inl good ↦ read (parse_hosts s raw) (rw (with_host_key, good) at h)
]
  where
    read :
        (r : Answer Hosts)
        → with_hosts s raw a k r ≡ value new
        → (hs : Hosts) × (r ≡ value hs) × (k.certificate ≡ false) × Added s raw a k new hs
    read spent e = cc
    read (refused x) e = cc
    read (value hs) e = (hs, refl, ground arith, add_line-Added s raw a k new hs e)

check_host-none :
    (s : Ssh) (hs : Hosts) (a : Text) (k : Key)
    → check_host s hs a k ≡ some unknown_host
    → lookup (s.normalize a) hs ≡ none
unfolding check_host
check_host-none s hs a k h = elim (Option-cases (lookup (s.normalize a) hs)) [
  | inl nothing ↦ nothing
  | inr (want, found) ↦ ground (arith, found)
]

-- The pin is the only change, where there is one.
abbrev pub Pinned : Ssh → Text → Text → Key → Text → Type 0
Pinned s raw a k new =
    (before : Hosts) × (after : Hosts) × (parse_hosts s raw ≡ value before)
    × (parse_hosts s new ≡ value after)
    × (check_host s after a k ≡ none)
    × ((after ≡ before)
        ⊎ ((after ≡ (s.normalize a, k) ∷ before) × (lookup (s.normalize a) before ≡ none)))

length-ended : (t : Text) → 0 < length (t ++ (10 ∷ []))
length-ended [] = omega arith
length-ended (c ∷ t) = omega arith

check_host-missing :
    (s : Ssh) (hs : Hosts) (a : Text) (k : Key)
    → lookup (s.normalize a) hs ≡ none
    → ¬ (check_host s hs a k ≡ none)
unfolding check_host
check_host-missing s hs a k free h = ground (arith, free)

module _ (s : Ssh) (laws : SshLaws s) (raw a : Text) (k : Key) where
  entry_name-new :
      (hs : Hosts)
      → has_pattern (s.normalize a) ≡ false
      → k.certificate ≡ false
      → lookup (s.normalize a) hs ≡ none
      → entry_name (entry_of s a k) hs ≡ some (s.normalize a)
  unfolding entry_name
  entry_name-new hs p c l = rw (p, c, l) refl

  entry_name-pattern :
      (hs : Hosts) → has_pattern (s.normalize a) ≡ true → entry_name (entry_of s a k) hs ≡ none
  unfolding entry_name
  entry_name-pattern hs p = rw p refl

  parse_hosts-line :
      (hs : Hosts) (name : Text)
      → parse_hosts s raw ≡ value hs
      → s.parse (line_of s a k) ≡ some (entry_of s a k)
      → length (close s raw ++ line_of s a k) ≤ max_known_hosts_bytes
      → entry_name (entry_of s a k) hs ≡ some name
      → parse_hosts s (close s raw ++ line_of s a k) ≡ value ((name, k) ∷ hs)
  parse_hosts-line hs name h p b e =
      let o =
        parse_hosts-extends s laws raw (line_of s a k) hs (entry_of s a k) h p
          (length-ended (s.line a k)) b in
      o.1
      ∙ take-good s laws (scan s (suc o.0)) (entry_of s a k) hs name e
      ∙ scan-blank s laws o.0 [] ((name, k) ∷ hs) laws.blank_empty

  check_host-added : (hs : Hosts) → check_host s ((s.normalize a, k) ∷ hs) a k ≡ none
  unfolding check_host lookup
  check_host-added hs = ground (arith, text_eq_refl (s.normalize a), text_eq_refl k.blob)

  pub with_host_key-Pinned :
      (new : Text)
      → s.parse (line_of s a k) ≡ some (entry_of s a k)
      → has_pattern (s.normalize a) ≡ false
      → with_host_key s raw (pin_of a k) ≡ value new
      → Pinned s raw a k new
  unfolding Added
  with_host_key-Pinned new reads plain h = split (with_host_key-Added s raw a k new h)
    where
      split :
          (hs : Hosts) × (parse_hosts s raw ≡ value hs)
            × (k.certificate ≡ false)
            × Added s raw a k new hs
          → Pinned s raw a k new
      split (hs, p, c, inl (fits, same)) = (hs, hs, p, rw same p, fits, inl refl)
      split (hs, p, c, inr (unknown, added, b)) =
          let free = check_host-none s hs a k unknown in
          let now : parse_hosts s new ≡ value ((s.normalize a, k) ∷ hs) = rw added (
            parse_hosts-line hs (s.normalize a) p reads (rw added at b)
              (entry_name-new hs plain c free)) in
          (hs, (s.normalize a, k) ∷ hs, p, now, check_host-added hs, inr (refl, free))

  check_host-unknown :
      (hs : Hosts) → lookup (s.normalize a) hs ≡ none → check_host s hs a k ≡ some unknown_host
  unfolding check_host
  check_host-unknown hs free = rw (check_host, free) refl

  -- A new name with a character of patterns is added all the same, and then the text is no longer read: where the
  -- address is valid, the key is no certificate, the text stays within its limit, and the library
  -- reads the line that it writes for the pin.
  pub with_host_key-pattern :
      (hs : Hosts)
      → s.parse (line_of s a k) ≡ some (entry_of s a k)
      → has_pattern (s.normalize a) ≡ true
      → parse_hosts s raw ≡ value hs
      → lookup (s.normalize a) hs ≡ none
      → (valid_address s a && not k.certificate) ≡ true
      → length (close s raw ++ line_of s a k) ≤ max_known_hosts_bytes
      → (with_host_key s raw (pin_of a k) ≡ value (close s raw ++ line_of s a k))
        × (parse_hosts s (close s raw ++ line_of s a k) ≡ refused known_hosts)
  unfolding with_host_key
  with_host_key-pattern hs reads pattern p free good fits =
      let within : ltb max_known_hosts_bytes (length (close s raw ++ line_of s a k)) ≡ false =
        ground (arith, fits) in
      let o =
        parse_hosts-extends s laws raw (line_of s a k) hs (entry_of s a k) p reads
          (length-ended (s.line a k)) fits in
      (
        rw (good, p) (ap (add_line s raw a k) (check_host-unknown hs free) ∙ rw within refl),
        o.1
            ∙ take-bad s laws (scan s (suc o.0)) (entry_of s a k) hs
                (entry_name-pattern hs pattern),
      )

  -- Once a pin is there, adding it again changes nothing.
  pub with_host_key_twice :
      (new : Text)
      → s.parse (line_of s a k) ≡ some (entry_of s a k)
      → has_pattern (s.normalize a) ≡ false
      → with_host_key s raw (pin_of a k) ≡ value new
      → with_host_key s new (pin_of a k) ≡ value new
  unfolding with_host_key
  with_host_key_twice new reads plain h =
      let o = with_host_key-Pinned new reads plain h in
      elim (Bool-cases (valid_address s a && not k.certificate)) [
        | inr bad ↦ let wrong : refused known_hosts ≡ value new = rw (with_host_key, bad) at h in cc
        | inl good ↦ rw (good, o.3, o.4) refl
      ]
