-- ===== src/Lib.antt =====
-- Microsandbox Cloud: the core of the cloud API (apps/cloud-api/src), an HTTP service that creates
-- and controls sandboxes on one host.
--
-- The control service (runtime-control/runtime-control.service.ts) answers the requests. It reads
-- and writes the tables through the registry (runtime-registry/runtime-registry.service.ts), names
-- sandboxes and volumes by the identity service (runtime-control/runtime-identity.service.ts), and
-- asks a backend (microsandbox/microsandbox-adapter.interface.ts) to run the sandboxes.
--
-- Prelude      numbers, texts and lists for all modules; Text has the methods of JavaScript texts,
--              Decimal the numbers in template strings, Encode encodeURIComponent
-- Identity     normalizeSandboxId, sandboxName, volumeName
-- Effects      the monad of the services: a state, and an outcome that is a value or an error
-- Database     the rows of the tables (database/*.entity.ts)
-- Config       what AppConfigService returns; Environment and StartUp how it reads the environment
-- Registry     the registry; Ports and Leasing describe the free ports, Leases, Apart, Exclusive and
--              Unordered what leasing does to them, Tokens the preview tokens, Summaries the answers
--              that are made of rows
-- Control      the control service: Types its data, Spec and Build the specification of a runtime,
--              Json the comparison of rows, Ports host ports, Health the health checks, Provision
--              the stages of `provision`, Lifecycle the operations on one sandbox, Preview the
--              preview links and proxy access, Volumes the volumes, Listing lists and images, Routes
--              the routes of runtime-control/sandbox.controller.ts and health/health.controller.ts,
--              Requests a sequence of requests;
--              the proofs are in Specified, Stable, Updates (specifications), HostPorts, Leaks,
--              Exclusive, Provisioned, Kept, KeptLinks (leases, and what a backend keeps of its
--              world), Guarding (routes), Lookup, Names, Outcomes, Waiting, Ready (requests),
--              Atomic (volumes),
--              Access, Links, Previewable (previews)
-- Ssh          the SSH sessions (ssh/session.service.ts); the gateway asks for them by their tokens.
--              Routes are the routes of ssh/ssh.controller.ts, Opening leads from one to the next
-- Proxy        the preview proxy (proxy/proxy.service.ts), which checks by Control.Preview; Routes
--              its paths, Forwarding what it forwards, Serving its answers with the handlers of
--              main.ts, Refusals and Answers why it answers so, Following and Expiring the links that it is
--              given back
-- ProxyToken   the signed tokens of the proxy (auth/proxy-token.service.ts)
-- Adapter      the backend over the microsandbox library
--              (microsandbox/microsandbox-adapter.service.ts): Library what it uses, Sandboxes,
--              Launch, Stopping and Images its operations, Cli the command line tool that it runs,
--              SshFiles the files of ssh/ssh.service.ts, Service the backend that they make; the
--              proofs are in Counting, Commands, Connections, Balanced (calls of `detach`), Retry,
--              Deadline (stopping), Pulls
-- Shell        the launch script of the adapter and its quoting; Words reads a command line as a
--              POSIX shell does
-- Paths        the directories that the adapter makes; Climb their order
-- Guards       the guards of the internal routes (shared/internal-auth.guard.ts,
--              ssh/ssh-gateway.guard.ts)
--
-- How the code is written here:
-- * A table is the list of its rows: a new volume or preview token stands first, any other row
--   last. Registry.Unordered has the leases as a quotient by the order. A unique column refuses a
--   save. A lease may also be refused for reasons that this service does not see: `refuses` says
--   which.
--   createdAt, updatedAt and leasedAt are left out, and a JSON column that is null is [].
-- * A text is the list of its UTF-16 code units. Lower-casing is that of the letters A-Z and of the
--   letters outside ASCII whose lower case is in ASCII.
-- * `throw` is an outcome `err` with one constructor of `Error` for each place that throws. The
--   changes that were made before it stay, as the code runs without a transaction.
-- * The backend, the clock, the random numbers and the ids of the database are the parameter
--   `Backend W`: functions on a world W that they may read and change.
--   Only Control.Waiting and Control.Ready assume something of them: a clock that does not go
--   back, and a port that answers from some time on. `IsKept` names what a backend keeps true of
--   its world; that of the adapter keeps how many more calls have opened a sandbox than calls of
--   `detach` were made. `IsCounted` and `IsUncounted` say which calls of the library are counted.
-- * The adapter is written over the parameter `Library`: the calls of the microsandbox library, the
--   process of the command line tool, a connection to a port, the clock, and the files.
--   `Promise.race` with a timer is decided by the clock after the effect, and keeps what the effect
--   changed, since nothing cancels it.
-- * `waitForSandboxStop` has as many rounds as its timeout has milliseconds, and one more.
-- * `process.env` is a function from names, and `Number` is a parameter that gives whole numbers.
-- * The HMAC, the encodings and the JSON text of a proxy token are the parameter `TokenLibrary`.
-- * Requests run one after the other. Another writer of the tables shows only in `refuses`.
-- * `waitForHealthy` has as many rounds as its timeout has milliseconds, and one more: where each
--   round takes a millisecond or more, the deadline ends the loop before them. With an interval of 0
--   between the checks the code may go round more often than that.
-- * The order of the properties of a port binding, which JSON.stringify shows, is the flag
--   `name_last`: only the binding that `buildSpec` adds for SSH has its name last.
-- * An SSH session's configured length is the configured seconds, where the code divides them by 60
--   and multiplies by 60 again.
-- * `encodeURIComponent` is written out. The parsing of a URL and `decodeURIComponent` are
--   parameters, of which a theorem assumes only that a text with nothing encoded in it stays as it
--   is.
--
-- Not modelled: logging, the start-up of the program but for the handlers that it gives the proxy,
-- the rest of the HTTP layer, which is the framework's, and the Go programs of the repository.

pub mod Prelude
pub mod Text
pub mod Identity
pub mod Effects
pub mod Database
pub mod Config
pub mod Registry
pub mod Control
pub mod Ssh
pub mod Guards
pub mod Proxy
pub mod Shell
pub mod Paths
pub mod Adapter
pub mod ProxyToken
