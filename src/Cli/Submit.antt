-- ===== src/Cli/Submit.antt =====
-- `submitImport`, `rowFailed` and `enrollImportHosts` of internal/cli/db_transfer.go, and `mutationError`
-- of internal/cli/db.go: the rows, saved one after the other.
pub mod Ended
pub mod Chain
pub mod Enrolled
use data_mate.Base.{
  ℕ, suc, Bool, true, false, not, ◌&&◌, ◌||◌, Option, none, some, List, [], ◌∷◌, Text, text_eq,
  if◌then◌else◌,
}
use data_mate.Config.Profile.{Profile, Profiles}
use data_mate.Config.Database.{Revision, revision_eq}
use data_mate.Vault.Secrets.{Patch}
use data_mate.Vault.Apply.{Mutation}
use data_mate.Vault.Apply.Main.{Outcome}
use data_mate.Cli.Rows.{
  Trouble, failure, canceled, Answer, refused, value, HostPin, Item, Action, submitted,
}

-- The connection of the item replaces the first with its identity, or is the last one.
unfoldable pub put_profile : Profile → List Profile → List Profile
put_profile p [] = p ∷ []
put_profile p (c ∷ cs) = if text_eq c.id p.id then p ∷ cs else c ∷ put_profile p cs

-- What an error of the service says: the code of a `database.Error`, whether cancelled, and whether it is
-- `ErrCredentialMissing`.
pub record Fault : Type 0 where
  pub cancelled : Option Bool
  pub credential_missing : Bool

pub record Reply : Type 0 where
  pub outcome : Option Outcome
  pub error : Option Fault

abbrev pub is_rejection : Fault → Bool
is_rejection f = (elim f.cancelled [ none ↦ false | some c ↦ not c ]) || f.credential_missing

-- `rowFailed`, for a reply with an error.
unfoldable pub row_failed : Reply → Fault → Bool
row_failed r f = elim r.outcome [
  | none ↦ false
  | some o ↦ not o.profiles_saved && not o.publication_uncertain && is_rejection f
]

-- `mutationError`, where the context may be done and `trouble` is what `storageError` makes of the error.
abbrev pub mutation_error : Bool → Option Outcome → Trouble → Trouble
mutation_error done none trouble = if done then canceled else trouble
mutation_error done (some o) trouble =
    if o.profiles_saved then failure else if o.publication_uncertain then failure else trouble

-- How the calls for one row end: the context, the profiles that are read, the service, its reply, what
-- `storageError` makes of an error of it, and the line of output.
pub record Turn : Type 0 where
  pub context : Bool
  pub preview : Answer (Profiles × Revision)
  pub service : Bool
  pub reply : Reply
  pub done : Bool
  pub trouble : Trouble
  pub written : Bool

-- A request to the service and its reply.
pub record Sent : Type 0 where
  pub item : Item
  pub mutation : Mutation
  pub reply : Reply

pub data Status : Type 0 where
  completed : Action → Status
  rejected : Status

-- `last` and `failed`, whether there is a client, and what was sent and written, the newest first.
pub record Progress : Type 0 where
  pub last : Option Revision
  pub failed : Bool
  pub connected : Bool
  pub sent : List Sent
  pub lines : List (Text × Status)

abbrev pub patches_of : Item → List (Text × Patch)
patches_of it = elim it.secrets [ [] ↦ [] | _ ∷ _ ↦ (it.profile.id, it.secrets) ∷ [] ]

-- The mutation for a row, where the profiles were read at a revision; the pin is sent beside it.
abbrev pub mutation_for : Item → Profiles → Revision → Mutation
mutation_for it p r = record {
  expected = r;
  profiles = record p { connections = put_profile it.profile p.connections };
  patches = patches_of it;
  replacements = [];
  host_key = none;
}

-- The line of a row.
unfoldable pub write_line : Turn → Item → Status → Progress → Option Trouble × Progress
write_line t it s w =
    if t.written
    then (none, record w { lines = (it.profile.alias, s) ∷ w.lines })
    else (some failure, w)

-- What follows the reply; an outcome holds the revision, which is empty where there is none.
unfoldable pub settle : Turn → Item → Progress → Option Trouble × Progress
unfolding write_line row_failed
settle t it w = elim t.reply.error [
  | none ↦ elim t.reply.outcome [
    | some o ↦ write_line t it (Status.completed it.action) (record w { last = o.revision })
    | none ↦ (some (mutation_error t.done none t.trouble), w)
  ]
  | some f ↦
      if row_failed t.reply f
      then write_line t it Status.rejected (record w { failed = true })
      else (some (mutation_error t.done t.reply.outcome t.trouble), w)
]

abbrev pub is_last : Option Revision → Revision → Bool
is_last none r = false
is_last (some l) r = revision_eq r l

abbrev pub send : Turn → Item → Profiles → Revision → Progress → Progress
send t it p r w = record w {
  connected = true;
  sent = record { item = it; mutation = mutation_for it p r; reply = t.reply } ∷ w.sent;
}

-- One row of the loop: the error that stops the import, if one does.
unfoldable pub submit_row : Turn → Item → Progress → Option Trouble × Progress
unfolding settle
submit_row t it w =
    if not (submitted it)
    then write_line t it (Status.completed it.action) w
    else if t.context
    then (some canceled, w)
    else elim t.preview [
      | refused e ↦ (some e, w)
      | value (p, r) ↦
          if not (is_last w.last r)
          then (some failure, w)
          else if not (w.connected || t.service)
          then (some failure, w)
          else settle t it (send t it p r w)
    ]

-- The loop of `submitImport`.
unfoldable pub submit_rows : List (Turn × Item) → Progress → Option Trouble × Progress
unfolding submit_row
submit_rows [] w = (none, w)
submit_rows ((t, it) ∷ rows) w =
    let one = submit_row t it w in
    let rest = submit_rows rows one.1 in elim one.0 [ some e ↦ (some e, one.1) | none ↦ rest ]

abbrev pub start : Revision → Progress
start r = record { last = some r; failed = false; connected = false; sent = []; lines = [] }

-- `submitImport`: the error that it returns, if one.
unfoldable pub submit_import : List (Turn × Item) → Revision → Option Trouble × Progress
unfolding submit_rows
submit_import rows r =
    let o = submit_rows rows (start r) in
    elim o.0 [ some e ↦ (some e, o.1) | none ↦ (if o.1.failed then some failure else none, o.1) ]

-- The endpoint of a row's SSH host, where the row needs a pin; `join` is `net.JoinHostPort` with
-- `strconv.Itoa`.
abbrev pub endpoint : (Text → ℕ → Text) → Item → Option Text
endpoint join it = elim it.profile.transport.ssh [
  | none ↦ none
  | some s ↦ if submitted it then some (join s.host s.port) else none
]

abbrev pub pin_at : Text → List (Text × HostPin) → Option HostPin
pin_at a [] = none
pin_at a ((b, p) ∷ pins) = if text_eq b a then some p else pin_at a pins

abbrev pub enrolled :
    Item → Answer (List Item × List (Text × HostPin)) → Answer (List Item × List (Text × HostPin))
enrolled it (refused e) = refused e
enrolled it (value (items, pins)) = value (it ∷ items, pins)

-- The loop of `enrollImportHosts`; each row comes with what `enrollHost` would give for it, and the
-- pins are those of the endpoints that were shown to the user, the newest first.
unfoldable pub enroll_rows :
    (Text → ℕ → Text)
    → List (Answer HostPin × Item)
    → List (Text × HostPin)
    → Answer (List Item × List (Text × HostPin))
enroll_rows join [] pins = value ([], pins)
enroll_rows join ((probe, it) ∷ rows) pins = elim (endpoint join it) [
  | none ↦ enrolled it (enroll_rows join rows pins)
  | some a ↦ elim (pin_at a pins) [
    | some p ↦ enrolled (record it { pin = some p }) (enroll_rows join rows pins)
    | none ↦ elim probe [
      | refused e ↦ refused e
      | value p ↦ enrolled (record it { pin = some p }) (enroll_rows join rows ((a, p) ∷ pins))
    ]
  ]
]
