-- ===== src/Transport/Hosts.antt =====
-- The file known_hosts of internal/transport/hosts.go: `parseHosts`, `checkHost`, `WithHostKey`, and
-- `ReadKnownHosts` and `SaveHostKey` on the file. The parser and the printer of its lines, and what the
-- standard library makes of an address, are those of `Ssh`.
use data_mate.Base.{
  ℕ, zero, suc, Bool, true, false, not, ◌&&◌, ◌||◌, Option, none, some, List, [], ◌∷◌, ◌++◌, Text,
  bytes, text_eq, any, length, ltb, leb, ◌==◌, ℤ, pos, negsuc, if◌then◌else◌, Error, not_exist,
  Result, ok, err, is_empty,
}

abbrev pub max_known_hosts_bytes : ℕ
max_known_hosts_bytes = 1_048_576

pub record Key : Type 0 where
  pub certificate : Bool
  pub blob : Text

pub record HostKey : Type 0 where
  pub address : Text
  pub key : Option Key

-- What `ssh.ParseKnownHosts` returns.
pub record Entry : Type 0 where
  pub marker : Text
  pub names : List Text
  pub key : Key
  pub rest : Text

-- `blank` says that `bytes.TrimSpace` leaves nothing; `parse`, `normalize` and `line` are those of
-- x/crypto/ssh; `split`, `atoi` and `is_ip` are `net.SplitHostPort`, `strconv.Atoi` and `net.ParseIP`.
pub record Ssh : Type 0 where
  pub blank : Text → Bool
  pub parse : Text → Option Entry
  pub normalize : Text → Text
  pub line : Text → Key → Text
  pub split : Text → Option (Text × Text)
  pub atoi : Text → Option ℤ
  pub is_ip : Text → Bool

pub data HostError : Type 0 where
  unknown_host changed_host known_hosts : HostError
  -- An error of the lease.
  store : Error → HostError

-- `spent` is a loop whose fuel does not last.
pub data Answer (Value : Type 0) : Type 0 where
  spent : Answer Value
  refused : HostError → Answer Value
  value : Value → Answer Value

abbrev pub Hosts : Type 0
Hosts = List (Text × Key)

unfoldable pub lookup : Text → Hosts → Option Key
lookup name [] = none
lookup name (h ∷ hs) = if text_eq h.0 name then some h.1 else lookup name hs

-- `strings.ContainsAny`.
unfoldable pub contains_any : Text → Text → Bool
contains_any set s = any (λ c. any (λ d. c == d) set) s

unfoldable pub has_pattern : Text → Bool
unfolding contains_any
has_pattern name = contains_any (bytes "*?!|,\\") name

abbrev pub is_known : Option Key → Bool
is_known none = false
is_known (some k) = true

abbrev pub one_name : List Text → Option Text
one_name [] = none
one_name (n ∷ []) = some n
one_name (n ∷ m ∷ ns) = none

-- The name of an entry that is kept.
unfoldable pub entry_name : Entry → Hosts → Option Text
entry_name e hosts = elim (one_name e.names) [
  | none ↦ none
  | some name ↦
      if is_empty e.marker
        && not (has_pattern name)
        && not (is_known (lookup name hosts))
        && not e.key.certificate
      then some name
      else none
]

module _ (s : Ssh) where
  -- What one entry leaves, where `scan` goes on with the rest.
  abbrev pub take_entry : (Text → Hosts → Answer Hosts) → Option Entry → Hosts → Answer Hosts
  take_entry scan none hosts = refused known_hosts
  take_entry scan (some e) hosts = elim (entry_name e hosts) [
    | none ↦ refused known_hosts
    | some name ↦ scan e.rest ((name, e.key) ∷ hosts)
  ]

  unfoldable pub scan : ℕ → Text → Hosts → Answer Hosts
  scan zero raw hosts = spent
  scan (suc fuel) raw hosts = elim (s.blank raw) [
    | true ↦ value hosts
    | false ↦ take_entry (scan fuel) (s.parse raw) hosts
  ]

  -- `parseHosts`.
  unfoldable pub parse_hosts : Text → Answer Hosts
  parse_hosts raw =
      if ltb max_known_hosts_bytes (length raw)
      then refused known_hosts
      else scan (suc (length raw)) raw []

  -- `checkHost`.
  unfoldable pub check_host : Hosts → Text → Key → Option HostError
  check_host hosts address key = elim (lookup (s.normalize address) hosts) [
    | none ↦ some unknown_host
    | some want ↦ if text_eq want.blob key.blob then none else some changed_host
  ]

  -- `validHost`.
  valid_host : Text → Bool
  unfolding contains_any
  valid_host host =
      not (is_empty host)
      && leb (length host) 253
      && (s.is_ip host || not (contains_any (0 ∷ 9 ∷ 10 ∷ 13 ∷ 32 ∷ bytes "/\\:@,?=#[]") host))

  abbrev pub in_ports : Option ℤ → Bool
  in_ports none = false
  in_ports (some (pos n)) = leb 1 n && leb n 65_535
  in_ports (some (negsuc n)) = false

  unfoldable pub valid_address : Text → Bool
  unfolding valid_host
  valid_address address = elim (s.split address) [
    | none ↦ false
    | some p ↦ valid_host p.0 && in_ports (s.atoi p.1)
  ]

  -- A text whose last line is ended.
  unfoldable pub close : Text → Text
  close [] = []
  close (c ∷ []) = if c == 10 then c ∷ [] else c ∷ 10 ∷ []
  close (c ∷ d ∷ t) = c ∷ close (d ∷ t)

  abbrev pub line_of : Text → Key → Text
  line_of address key = s.line address key ++ (10 ∷ [])

  abbrev pub bounded : Text → Answer Text
  bounded raw = if ltb max_known_hosts_bytes (length raw) then refused known_hosts else value raw

  -- What the verdict on a pin makes of the file.
  abbrev pub add_line : Text → Text → Key → Option HostError → Answer Text
  add_line raw address key none = value raw
  add_line raw address key (some unknown_host) = bounded (close raw ++ line_of address key)
  add_line raw address key (some changed_host) = refused changed_host
  add_line raw address key (some known_hosts) = refused known_hosts
  add_line raw address key (some (store e)) = refused (store e)

  abbrev pub with_hosts : Text → Text → Key → Answer Hosts → Answer Text
  with_hosts raw address key spent = spent
  with_hosts raw address key (refused e) = refused e
  with_hosts raw address key (value hosts) = add_line raw address key (check_host hosts address key)

  -- `WithHostKey`.
  unfoldable pub with_host_key : Text → HostKey → Answer Text
  with_host_key raw pin = elim pin.key [
    | none ↦ refused known_hosts
    | some key ↦
        if valid_address pin.address && not key.certificate
        then with_hosts raw pin.address key (parse_hosts raw)
        else refused known_hosts
  ]

  abbrev pub is_missing : Error → Bool
  is_missing not_exist = true
  is_missing _ = false

  -- `ReadKnownHosts` of what the lease reads.
  unfoldable pub read_known_hosts : Result Text → Answer Text
  read_known_hosts (err e) = if is_missing e then value [] else refused (store e)
  read_known_hosts (ok raw) = elim (parse_hosts raw) [
    | spent ↦ spent
    | refused e ↦ refused e
    | value hosts ↦ value raw
  ]

  abbrev pub content : Result Text → Text
  content (err e) = []
  content (ok raw) = raw

  abbrev pub store_error : Text → Result (Unit {0}) → Answer Text
  store_error raw (err e) = refused (store e)
  store_error raw (ok u) = value raw

  -- What `SaveHostKey` does once it has the new text: a text that is not new is not written.
  abbrev pub write_hosts :
      Result Text → (Text → Result (Unit {0})) → Answer Text → Answer Text × Option Text
  write_hosts file replace spent = (spent, none)
  write_hosts file replace (refused e) = (refused e, none)
  write_hosts file replace (value updated) =
      if text_eq (content file) updated
      then (value updated, none)
      else (store_error updated (replace updated), some updated)

  abbrev pub save_read :
      Result Text → (Text → Result (Unit {0})) → HostKey → Answer Text → Answer Text × Option Text
  save_read file replace pin spent = (spent, none)
  save_read file replace pin (refused e) = (refused e, none)
  save_read file replace pin (value raw) = write_hosts file replace (with_host_key raw pin)

  -- `SaveHostKey`, with the text that it hands to the lease's `Replace`, if any.
  unfoldable pub save_host_key :
      Result Text → (Text → Result (Unit {0})) → HostKey → Answer Text × Option Text
  save_host_key file replace pin = save_read file replace pin (read_known_hosts file)
