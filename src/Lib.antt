-- ===== src/Lib.antt =====
-- passalong-server stores the items of workspaces, most of them encrypted by the clients. This
-- development models its core, the crate crates/passalong-server-core, as it is in memory: the rules
-- of a workspace, the ledger that keeps its record, and the shelf that keeps its content. In front of
-- that stand the API keys of the control database, the layer that lets a request in by its key, and
-- the limiter of failed attempts; beside it, the plan by which the service is installed.
--
-- A workspace has a record (ledger/mod.rs): whether it is sealed under a key or being rewritten, the
-- generation that its items are in, a plain partition set aside, the bytes booked for each
-- generation, the uploads under way and those finished, and the keys of rewrites that were given up.
-- The content is on a shelf, by generation. An operation is a rule on the record and the shelf, run in
-- a transaction of the ledger; what it no longer needs on the shelf is removed after the record is
-- stored.
--
--   Base, Map        Boolean tests, lists over the native numbers, and maps in the order of their
--                    keys (`BTreeMap`).
--   Error, Ids       crates/passalong-server-core/src/error.rs and ids.rs.
--   Shelf            src/shelf/mod.rs of that crate: the trait `ItemShelf` as the record ItemShelf of
--                    functions on a state, and `pump`; Shelf.Memory is shelf/memory.rs, and Shelf.Laws
--                    what the rules rely on of any shelf, a section parameter of Books.
--   Record           The types of upload.rs, rewrite.rs, workspace.rs and ledger/mod.rs;
--                    Record.Generations and Record.Cleanups say when a record is well formed and when a
--                    removal is harmless.
--   Rules            The struct `Rules` and the monad of the operations, M: the state comes back beside
--                    a refusal too. Rules.Keeps and Rules.Post carry predicates along a do block.
--   Views            The operations of workspace.rs and rewrite.rs that only look.
--   Workspace        `delete_item`, `enable_encryption`, `fresh_start`, `replace_header` of workspace.rs.
--   Upload           upload.rs: Upload.Begin, Upload.Commit and Upload.Janitor hold its operations,
--                    the other children what is proved of them.
--   Rewrite          rewrite.rs: the session, its lease and its ends.
--   Engine           `Engine::open`, `write` and `read` of workspace.rs over ledger/memory.rs.
--   Api              The operations of `Engine` as data, and a server's run as a list of requests.
--                    Api.Keeping lifts what the single changes to a record keep to whole runs.
--   Books            `used` of a record against the bytes on the shelf, under every operation.
--   Auth             src/auth.rs of the core crate: API keys as tokens, and the hash that is kept.
--   Control          src/control/mod.rs and schema.rs of the core crate: the tables as lists of rows, the
--                    operations as functions on them, M, in transactions. Control.Workspaces,
--                    Control.Keys and Control.Authenticate hold the operations, Control.Runs their
--                    sequences; Control.Keeps and Control.Answers carry predicates along a do block.
--   Rate             crates/passalong-server-api/src/rate.rs: `FailureLimiter`, and in Rate.Clients
--                    `client_address`.
--   Gate             crates/passalong-server-api/src/auth.rs: the bearer layer over Rate and Control.
--                    Requests are served one after the other, where the server may look at several
--                    before it counts the first.
--   Config           src/config.rs of the core crate: sizes, durations, limits, and where the file is.
--   Service          crates/passalong-server-cli/src/service/plan.rs and unit.rs.
--   Examples         The theorems at concrete inputs, on the shelf in memory.
--
-- The control database is SQLite. Each SQL statement of the source is written out as a function on
-- the lists, its WHERE and ORDER BY and the constraints of the schema included; a statement may fail at
-- any time, and a transaction that does not commit leaves the tables as they were. An operation is one
-- step: what another process does between an operation's look at a workspace and its transaction is not
-- modelled. Opening and migrating the database is not modelled either. The search for the id of a new
-- key runs on as much fuel as there are keys, and one more, and ends within it under the same
-- assumption on the random source as that for an upload's id.
--
-- The limiter's `usize` is a natural number, its table of addresses a map in the order of the
-- addresses. Its times, and those of the keys, are seconds that are taken not to overflow; what a
-- column of the database holds stops at the largest `i64`, as in the source.
--
-- The functions keep the names of the source; a function of the source that has early returns or
-- nested matches is cut into several, each named for what it does and mapped to its lines.
--
-- An operation reads the clock once (`env.now`). Sums of `u64` are sums of natural numbers; the two
-- additions that saturate are written out (`saturating_add`). Times and sizes are taken not to
-- overflow elsewhere. Identifiers are their bytes. SHA-256, what `serde_json` reads of `meta`, and the
-- random source are parameters: of the shelf in memory, and of the environment `Env`. The candidate
-- ids of `begin_upload` are the one loop that need not end; it runs on as much fuel as there are known
-- ids, and one more. That is enough where the source gives no id twice within so many draws; `spins`
-- stands for a source that gave no new one in that many.
--
-- The locks of the shelf and the ledger in memory make each method one step, so a run is a sequence of
-- whole operations. A write to the shelf in memory looks its staging place up twice, around the reading
-- of the content; a removal between the two is not modelled, and neither is a process that dies within
-- an operation. `trim` knows the white space of ASCII. Logging and fault points change nothing and are
-- left out. `Engine::open_without_repair` and plain accessors are not modelled, and of the other parts
-- of the repository neither the SQLite ledger and the shelf on the file system, whose work is that of
-- the database and the operating system, nor the cache of engines, the HTTP routes and handlers, the
-- reading of the configuration file, and the command line, which call the modelled operations.
pub mod Base
pub mod Map
pub mod Error
pub mod Ids
pub mod Auth
pub mod Control
pub mod Shelf
pub mod Rate
pub mod Gate
pub mod Record
pub mod Rules
pub mod Views
pub mod Workspace
pub mod Upload
pub mod Rewrite
pub mod Engine
pub mod Config
pub mod Service
pub mod Api
pub mod Books
mod Examples
