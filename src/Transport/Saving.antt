-- ===== src/Transport/Saving.antt =====
-- What `SaveHostKey` of internal/transport/hosts.go writes.
use data_mate.Base.{◌≡◌, refl, false, some, Text, text_eq, Result, ok, err, arith}
use data_mate.Transport.Hosts.{
  Key, Ssh, Answer, spent, refused, value, Hosts, has_pattern, parse_hosts, line_of, with_host_key,
  read_known_hosts, content, write_hosts, save_read, save_host_key,
}
use data_mate.Transport.Pins.{SshLaws}
use data_mate.Transport.Enrolment.{pin_of, entry_of, Pinned, with_host_key-Pinned}

module _ (s : Ssh) (file : Result Text) (replace : Text → Result (Unit {0})) (t : Text) where
  write_hosts-some :
      (r : Answer Text)
      → (write_hosts s file replace r).1 ≡ some t
      → (r ≡ value t) × (text_eq (content s file) t ≡ false)
  write_hosts-some spent h = cc
  write_hosts-some (refused e) h = cc
  write_hosts-some (value u) h = ground arith

read_known_hosts-content :
    (s : Ssh) (file : Result Text) (raw : Text)
    → read_known_hosts s file ≡ value raw
    → raw ≡ content s file
unfolding read_known_hosts
read_known_hosts-content s (err e) raw h = ground arith
read_known_hosts-content s (ok u) raw h = verdict (parse_hosts s u) h
  where
    verdict :
        (r : Answer Hosts)
        → elim r as (λ _. Answer Text) [
          | spent ↦ spent
          | refused e ↦ refused e
          | value hosts ↦ value u
        ]
          ≡ value raw
        → raw ≡ u
    verdict spent e = cc
    verdict (refused x) e = cc
    verdict (value hs) e = cc

-- What `SaveHostKey` hands to the lease differs from what it read by the pin alone: all pins that were
-- there are kept, and a changed key is never written.
pub save_host_key-Pinned :
    (s : Ssh) (laws : SshLaws s) (file : Result Text) (replace : Text → Result (Unit {0}))
    (a : Text) (k : Key) (t : Text)
    → s.parse (line_of s a k) ≡ some (entry_of s a k)
    → has_pattern (s.normalize a) ≡ false
    → (save_host_key s file replace (pin_of a k)).1 ≡ some t
    → (text_eq (content s file) t ≡ false) × Pinned s (content s file) a k t
unfolding save_host_key
save_host_key-Pinned s laws file replace a k t reads plain h =
    split (read_known_hosts s file) refl h
  where
    split :
        (r : Answer Text)
        → read_known_hosts s file ≡ r
        → (save_read s file replace (pin_of a k) r).1 ≡ some t
        → (text_eq (content s file) t ≡ false) × Pinned s (content s file) a k t
    split spent e d = cc
    split (refused x) e d = cc
    split (value raw) e d =
        let same : raw ≡ content s file = read_known_hosts-content s file raw e in
        let o = write_hosts-some s file replace t (with_host_key s raw (pin_of a k)) d in
        (o.1, with_host_key-Pinned s laws (content s file) a k t reads plain (rw same at (o.0)))
