-- ===== src/Lib.antt =====
-- Data Mate keeps PostgreSQL connections, with their credentials encrypted, in an installation
-- directory, and serves them to agents. These modules model the parts of it that hold its state.
--
-- The program's parts. internal/contracts checks every JSON document that comes in. internal/config
-- decodes profiles, keeps them with the encrypted credentials in one SQLite database, and orders
-- the access of goroutines and processes by leases. internal/vault keeps one key in the key store
-- of the operating system, encrypts the credentials with it, and publishes profiles and credentials
-- together through the lease on the database, with the pins of SSH servers that internal/transport
-- reads and adds. internal/database/postgres keeps the connections, each for the access that it was
-- made with, and its sqlguard decides which statements are reads,
-- internal/mcp stands between an agent and the server, and internal/agent registers the server with
-- agents. internal/distribution reads the metadata of releases. internal/service is the process that
-- holds the vault and the driver and serves the requests, and internal/cli sends it the changes that
-- a file of connections asks for, one after the other.
--
-- Files and the code they are about:
--   Base             helpers: numbers, lists, byte strings, integers, errors and results
--   Contracts/Check  JSON and checkJSON of internal/contracts/json.go; Exact and Limits compare it with JSON
--                    values
--   Config/Profile, Config/Profiles, Config/Limits
--                    the types, DecodeProfiles and the two JSON methods of Limits, of
--                    internal/config/profiles.go; Profiles/Ordered and Profiles/Normal are about
--                    the normal form
--   Config/Same      reflect.DeepEqual on profiles, as internal/cli and internal/service use it
--   Config/Database  the tables of internal/config/database.go; Open has checkObsolete, openDatabase
--                    and initializeDatabase, Read has ProfileSnapshot and Bundle,
--                    Keyset has Keyset, SaveKeyset and HasKeysetForPurge, Publish has Publish; Atomic,
--                    Ran, Saved, RoundTrip and Integrity are about Publish
--   Config/RwQueue   rwQueue of internal/config/locks.go; Invariant and Progress are about its
--                    interleavings
--   Config/Identity  Identity, ValidUUID and decodeIdentity of internal/config/storage.go
--   Config/Files     replace and remove of internal/config/storage.go; Files/Whole is about both
--   Config/Leases    acquire, Release and check of internal/config/locks.go, and the opening of a lease's
--                    database; Leases/Order is about the order of what they take
--   Vault/Secrets, Vault/Credential, Vault/Unlock, Vault/Apply
--                    internal/vault/vault.go and internal/vault/repository.go; Apply has the loop of
--                    Apply and Apply/Main the rest; Unlock/Known, Unlock/Orphans, Apply/Budget and
--                    Apply/Commit are about Unlock and Apply
--   Vault/Purge      PurgeCredentials and PurgeLocked of internal/vault/repository.go with BeginPurge
--                    of internal/config/locks.go; Purge/Order is about their order
--   Vault/World      the database, the key store and known_hosts as the state of actions that may fail
--   Transport        the pins of internal/transport/hosts.go; Hosts has the functions, Pins is about parseHosts,
--                    Enrolment about WithHostKey and Saving about SaveHostKey
--   Sqlguard         Check of internal/database/postgres/sqlguard/guard.go; Walk and Scopes are about its
--                    loop, Reads about what it accepts
--   Pools            the pools of internal/database/postgres/driver.go: checkout with release, Invalidate and Close;
--                    Framing is about what is hashed, Bounds, Counts and Kept about numbers, Owners and Access about
--                    whose connection an operation gets
--   Mcp              the guard of internal/mcp/session.go; Waiting counts its pending calls, Gate is about what
--                    it lets through, Steps about one step, Session, Ledger, Holding and Answers about its runs
--   Agent            the registrations of internal/agent: Ownership has readOwnership, state and preserved, Ensure
--                    and Removal have Ensure and RemoveOwned of internal/agent/ownership.go; Accepted, Recorded,
--                    Withdrawal and Removed are about the record
--   Distribution     the metadata of internal/distribution/release.go; Metadata has valid, ParseMetadata and
--                    Text, Versions is about the expressions, Lines, SixLines and RoundTrip about the text
--   Cli              the import of connections in internal/cli/db_transfer.go: Rows has the rows and the errors,
--                    Plan has planImport and credentialTransition, Secrets has completeImportSecrets and
--                    validateCandidate, Submit has submitImport and enrollImportHosts; Plan/Distinct,
--                    Plan/Single, Plan/Projected, Secrets/Completed, Secrets/Planned, Secrets/Added, Submit/Ended,
--                    Submit/Chain and Submit/Enrolled are about them. Export has unsetSecrets of
--                    internal/cli/db_csv.go, and Export/Unset is about it
--   Service          Frames has the frames of internal/service/management.go, Presence its credentialPresence,
--                    Admission and Manager have admit and refresh of internal/service/manager.go;
--                    Frames/RoundTrip, Presence/Told, Admission/Balance and Manager/Current are about them
--   Tests            the theorems at concrete inputs
--
-- How state and operations correspond. A table is the list of its rows, and a statement of SQL is a
-- function on the tables that fails where it would break a constraint; the deferred foreign keys
-- are checked by the commit. An operation of a lease takes the lease, the tables and the results of
-- its calls outside (statements, faults, the context, the commit), and returns its result with the
-- tables that others then read. Operations of the vault are actions on the tables, the stored
-- key and the file known_hosts. A refresh of the service is one step, as it runs under a mutex. The steps of the service's requests and of the operations of the driver, whose order is any, are a list of events. A session's events are a list of lines and answers in the order of its two locks. A loop
-- over a list is recursion on the list. The loops of sqlguard and parseHosts run on fuel: the
-- rounds of the first are computed from the statement, and the second takes one more than the bytes
-- of its text. Strings are lists of bytes.
--
-- Numbers. The code's int and uint64 values are natural numbers or integers here; all that it
-- stores are bounded by its own checks (128 profiles, 1 MiB of settings, 8 MiB of ciphertext, one
-- million encryptions), except the generation, which SQLite bounds by 2^63.
--
-- Parameters. encoding/json, the schema of profiles and SHA-256 are Codec, with what the proofs
-- rely on in CodecLaws; Tink and the fingerprint are Crypto; the documents inside a bundle are
-- Encoding. The SQL parser's tree, and what JSON makes of a line of a session, are data. The parser
-- of known_hosts is Ssh, with SshLaws. strconv's Itoa and Atoi are Decimal, with DecimalLaws. What
-- DecodeStrict makes of the record of registrations is data too: that it reads what json.Marshal
-- wrote is not shown. In the frames DecodeStrict is a function, and so is the keyed hash of the pools, with IsKeyed. What a user answers, what the service
-- replies and what a read of the profiles gives are data of the row or the request.
--
-- Not modelled. The changes that others make to the key store, with a call of it that its caller has given up;
-- the pools that requests open beside a refresh; the calls on files and on their locks, D-Bus, Keychain, the network, the tools of mcp,
-- the statements, approvals and results of the driver in database, the tunnels of transport, the reading of agents' configurations, the
-- rest of distribution, the launch and the stop of the service, the dispatch of its requests, and
-- the commands of cli but the import, with their prompts and output.
pub mod Base
pub mod Contracts
pub mod Config
pub mod Vault
pub mod Transport
pub mod Sqlguard
pub mod Pools
pub mod Mcp
pub mod Agent
pub mod Distribution
pub mod Cli
pub mod Service
pub mod Tests
