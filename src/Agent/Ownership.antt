-- ===== src/Agent/Ownership.antt =====
-- The record of registrations of internal/agent/ownership.go, with what internal/agent/adapter.go asks of an
-- agent's configuration. Fingerprints are those of Home; the decoding of the record is the caller's.
use data_mate.Base.{
  ℕ, Bool, true, false, not, ◌&&◌, ◌||◌, Option, none, some, List, [], ◌∷◌, Text, bytes, text_eq,
  length, leb, ◌==◌, if◌then◌else◌, find, contains, Error, not_exist, Result, ok, err, is_abs,
  same_texts,
}

pub record OwnedEntry : Type 0 where
  pub agent : Text
  pub config : Text
  pub name : Text
  pub command : Text
  pub args : List Text
  pub fingerprint : Text
  pub phase : Text

-- The document, as it is decoded.
pub record Ownership : Type 0 where
  pub version : ℕ
  pub installation : Text
  pub root : Text
  pub digest : Text
  pub entries : List OwnedEntry

-- The installation: `want` without its entries, the digest in its identity, `Name`, the executable in
-- its identity, `bridgeArgs`, and the fingerprint of what is to be registered with an agent.
pub record Home : Type 0 where
  pub installation : Text
  pub root : Text
  pub digest : Text
  pub identity_digest : Text
  pub name : Text
  pub executable : Text
  pub args : List Text
  pub fingerprint_for : Text → Text

pub data AgentError : Type 0 where
  inspection partial conflict : AgentError

unfoldable pub known_agent : Text → Bool
known_agent a = text_eq a (bytes "codex") || text_eq a (bytes "claude")

unfoldable pub known_phase : Text → Bool
known_phase p = text_eq p (bytes "intent") || text_eq p (bytes "owned")

-- The checks on one entry, but for that on agents that were seen.
unfoldable pub fits : Home → OwnedEntry → Bool
unfolding known_agent known_phase same_texts
fits h e =
    text_eq e.fingerprint (h.fingerprint_for e.agent)
    && known_agent e.agent
    && text_eq e.name h.name
    && is_abs e.config
    && text_eq e.command h.executable
    && same_texts e.args h.args
    && (length e.fingerprint == 64)
    && known_phase e.phase

-- The loop over the entries.
unfoldable pub check_entries : Home → List Text → List OwnedEntry → Bool
check_entries h seen [] = true
check_entries h seen (e ∷ es) =
    fits h e && not (contains e.agent seen) && check_entries h (e.agent ∷ seen) es

unfoldable pub accepts : Home → Ownership → Bool
unfolding check_entries
accepts h o =
    (o.version == 1)
    && text_eq o.installation h.installation
    && text_eq o.root h.root
    && text_eq o.digest h.digest
    && leb (length o.entries) 2
    && check_entries h [] o.entries

abbrev pub no_entries : Error → Option (List OwnedEntry)
no_entries not_exist = some []
no_entries _ = none

-- `readOwnership` of what the lease reads, and of what `DecodeStrict` makes of it.
unfoldable pub read_ownership : Home → Result (Option Ownership) → Option (List OwnedEntry)
unfolding accepts
read_ownership h file = if not (text_eq h.identity_digest h.digest) then none else elim file [
  | err e ↦ no_entries e
  | ok none ↦ none
  | ok (some o) ↦ if accepts h o then some o.entries else none
]

abbrev pub is_of : Text → OwnedEntry → Bool
is_of a e = text_eq e.agent a

-- The entry at `find`.
abbrev pub entry_of : Text → List OwnedEntry → Option OwnedEntry
entry_of a = find (is_of a)

-- `o.Entries[i] = e` and `append`, where `i` is the index of the agent.
unfoldable pub put_entry : OwnedEntry → List OwnedEntry → List OwnedEntry
put_entry e [] = e ∷ []
put_entry e (d ∷ es) =
    let rest = put_entry e es in if text_eq d.agent e.agent then e ∷ es else d ∷ rest

-- `o.Entries[i].Phase = "owned"`.
unfoldable pub own_entry : Text → List OwnedEntry → List OwnedEntry
own_entry a [] = []
own_entry a (d ∷ es) =
    let rest = own_entry a es in
    if text_eq d.agent a then record d { phase = bytes "owned" } ∷ es else d ∷ rest

-- `append(o.Entries[:i], o.Entries[i+1:]...)`.
unfoldable pub drop_entry : Text → List OwnedEntry → List OwnedEntry
drop_entry a [] = []
drop_entry a (d ∷ es) = let rest = drop_entry a es in if text_eq d.agent a then es else d ∷ rest

-- What is asked of an entry in a configuration: its fingerprint, that of its command and arguments, whether
-- its type is `stdio`, and its member `enabled`.
pub data Enabled : Type 0 where
  absent odd : Enabled
  switch : Bool → Enabled

pub record Registration : Type 0 where
  pub fingerprint : Text
  pub launch : Text
  pub is_stdio : Bool
  pub enabled : Enabled

-- The other members of a configuration, each with its value.
pub record Snapshot : Type 0 where
  pub entry : Option Registration
  pub other : List (Text × Text)

-- `after[k]`, where a missing key has the value null.
unfoldable pub member : Text → List (Text × Text) → Text
member k [] = bytes "null"
member k (m ∷ ms) = if text_eq m.0 k then m.1 else member k ms

unfoldable pub preserved : List (Text × Text) → List (Text × Text) → Bool
unfolding member
preserved [] after = true
preserved (m ∷ ms) after = text_eq m.1 (member m.0 after) && preserved ms after

-- An agent: its configuration's place may be unknown, and then `fault` is so.
pub record Adapter : Type 0 where
  pub name : Text
  pub executable : Text
  pub path : Text
  pub fault : Bool

pub data State : Type 0 where
  unavailable pending clash disabled ready failed : State

abbrev pub of_enabled : Bool → Enabled → State
of_enabled true absent = ready
of_enabled true odd = clash
of_enabled true (switch false) = disabled
of_enabled true (switch true) = ready
of_enabled false e = ready

-- `state`, of an agent that is there; `launch` is the fingerprint of what is to be launched.
unfoldable pub state_of : Text → Adapter → Option Registration → State
state_of launch a none = pending
state_of launch a (some r) =
    if not (text_eq launch r.launch) || (text_eq a.name (bytes "claude") && not r.is_stdio)
    then clash
    else of_enabled (text_eq a.name (bytes "codex")) r.enabled
