-- ===== src/Tests/Pins.antt =====
-- The pins of internal/transport/hosts.go, with lines of one letter: a line `a` pins the server `a`.
use data_mate.Base.{
  ℕ, ◌+◌, ◌<◌, ◌≡◌, refl, Bool, true, false, ◌&&◌, not, Option, none, some, List, [], ◌∷◌, ◌++◌,
  Text, bytes, text_eq, length, ◌==◌, pos, if◌then◌else◌, Result, ok, err, Bool-cases, inl, inr,
  arith,
}
use data_mate.Transport.Hosts.{
  Key, Entry, Ssh, Answer, spent, refused, value, known_hosts, close, parse_hosts, with_host_key,
  save_host_key, content,
}
use data_mate.Transport.Pins.{SshLaws}
use data_mate.Transport.Enrolment.{pin_of, with_host_key-pattern, with_host_key_twice}

unfoldable pub all_ended : Text → Bool
all_ended [] = true
all_ended (c ∷ t) = (c == 10) && all_ended t

past_end : Text → Text
past_end [] = []
past_end (c ∷ t) = if c == 10 then t else c ∷ t

abbrev pub key_for : ℕ → Key
key_for c = record { certificate = false; blob = c ∷ [] }

unfoldable pub letters : Text → Option Entry
unfolding past_end
letters [] = none
letters (c ∷ t) = elim (c == 10) [
  | true ↦ letters t
  | false ↦ some (record { marker = []; names = (c ∷ []) ∷ []; key = key_for c; rest = past_end t })
]

abbrev pub toy : Ssh
toy = record {
  blank = all_ended;
  parse = letters;
  normalize = λ a. a;
  line = λ a k. k.blob;
  split = λ a. some (bytes "host", []);
  atoi = λ t. some (pos 22);
  is_ip = λ h. false;
}

blank_none : (x : Text) → all_ended x ≡ true → letters x ≡ none
unfolding all_ended letters
blank_none [] h = refl
blank_none (c ∷ t) h = ground (arith, blank_none t)

skips : (x t : Text) → all_ended x ≡ true → letters (close toy x ++ t) ≡ letters t
unfolding all_ended letters close
skips [] t h = refl
skips (c ∷ []) t h = ground arith
skips (c ∷ d ∷ x) t h = ground (arith, skips (d ∷ x) t)

extends :
    (x t : Text) (e : Entry)
    → letters x ≡ some e
    → letters (close toy x ++ t) ≡ some (record e { rest = close toy e.rest ++ t })
unfolding letters close past_end
extends [] t e h = cc
extends (c ∷ []) t e h = ground arith
extends (c ∷ d ∷ []) t e h = ground (arith, extends (d ∷ []) t e)
extends (c ∷ d ∷ g ∷ x) t e h = ground (arith, extends (d ∷ g ∷ x) t e)

shrinks : (x : Text) (e : Entry) → letters x ≡ some e → length e.rest < length x
unfolding letters past_end
shrinks [] e h = cc
shrinks (c ∷ []) e h = ground arith
shrinks (c ∷ d ∷ x) e h = ground (arith, shrinks (d ∷ x) e)

toy-SshLaws : SshLaws toy
unfolding all_ended
toy-SshLaws = record {
  blank_none = blank_none;
  blank_empty = refl;
  skips = skips;
  extends = extends;
  shrinks = shrinks;
}

abbrev pub before : Text
before = bytes "b"

abbrev after : Text
after = b'b' ∷ 10 ∷ b'a' ∷ 10 ∷ []

added : with_host_key toy before (pin_of (bytes "a") (key_for b'a')) ≡ value after
unfolding with_host_key data_mate.Transport.Hosts.valid_address data_mate.Base.any parse_hosts
    data_mate.Transport.Hosts.scan all_ended letters data_mate.Transport.Hosts.entry_name
    data_mate.Transport.Hosts.has_pattern data_mate.Transport.Hosts.lookup
    data_mate.Transport.Hosts.check_host text_eq close
added = refl

with_host_key_twice_example :
    with_host_key toy after (pin_of (bytes "a") (key_for b'a')) ≡ value after
unfolding letters data_mate.Transport.Hosts.has_pattern data_mate.Base.any
with_host_key_twice_example =
    with_host_key_twice toy toy-SshLaws before (bytes "a") (key_for b'a') after refl refl added

abbrev pattern_after : Text
pattern_after = b'b' ∷ 10 ∷ b'*' ∷ 10 ∷ []

with_host_key-pattern_example :
    (with_host_key toy before (pin_of (bytes "*") (key_for b'*')) ≡ value pattern_after)
    × (parse_hosts toy pattern_after ≡ refused known_hosts)
unfolding letters data_mate.Transport.Hosts.has_pattern data_mate.Base.any parse_hosts
    data_mate.Transport.Hosts.scan all_ended data_mate.Transport.Hosts.entry_name
    data_mate.Transport.Hosts.lookup text_eq data_mate.Transport.Hosts.valid_address close
with_host_key-pattern_example =
    with_host_key-pattern toy toy-SshLaws before (bytes "*") (key_for b'*')
      ((bytes "b", key_for b'b') ∷ []) refl refl refl refl refl (omega arith)

abbrev no_fault : Text → Result (Unit {0})
no_fault t = ok tt

saved : (save_host_key toy (ok before) no_fault (pin_of (bytes "a") (key_for b'a'))).1 ≡ some after
unfolding save_host_key data_mate.Transport.Hosts.read_known_hosts parse_hosts
    data_mate.Transport.Hosts.scan all_ended letters data_mate.Transport.Hosts.entry_name
    data_mate.Transport.Hosts.has_pattern data_mate.Base.any data_mate.Transport.Hosts.lookup
    with_host_key data_mate.Transport.Hosts.valid_address data_mate.Transport.Hosts.check_host
    text_eq close
saved = refl
