-- ===== src/Lib.antt =====
-- The node agent of CentralCloud: it runs panels for customers, each a Docker container with its
-- own PostgreSQL database behind Traefik, and takes its orders over an HTTP API.
--
-- The program's core is a service (internal/deployment/service.go) over a repository in SQLite
-- (internal/storage/sqlite.go). A handler validates a request (internal/domain/validate.go), answers
-- a repeated one from its idempotency key, and else queues an operation. Workers claim operations
-- and drive a deployment through its states (internal/domain/state.go) by calls of Docker,
-- PostgreSQL, the secret store, the backups and the health checker (internal/domain/model.go).
--
-- Which file models what:
--   Errors        internal/domain/errors.go, rollbackError, fmt.Errorf with %w; Errors/Faults for
--                 errors.Join
--   Config        internal/config/config.go: the structure, Defaults and Validate
--   Contracts     pkg/contracts/contracts.go: the requests and accepted answers; Views, what is shown
--   Packages      what the agent uses of other packages, as parameters: image references, IP
--                 addresses, digests, JSON encoders and decoders, %q; Http for those of the API
--   Domain/State  internal/domain/state.go
--   Domain/Model  internal/domain/model.go; a call of a collaborator is a value of type Call
--   Domain/Syntax, Domain/Validate, Domain/Create
--                 internal/domain/validate.go: regular expressions, checks, ValidateCreate
--   Domain/Uuid   UUIDGenerator of internal/domain/runtime.go
--   Domain/Clock  time.Time and its RFC3339Nano text
--   Storage       internal/storage/sqlite.go: Tables for the schema, Rows, Deployments, Operations and
--                 Keys for the methods; the other files are about these
--   Runtime       what stands outside (Env), what the agent changes (World) and its actions (Act),
--                 with the rules for invariants (Keeps), for postconditions (Yields), for
--                 the calls made when an action ends (Ends) and for answers that it rests on (Shows)
--   Service       internal/deployment/service.go: Submit for the requests, Lifecycle and Upgrade for
--                 the operations, Container for the specification, Process for the workers;
--                 Server composes them, and Keeps, Recorded, Safe and Refused are about them
--   Resources     internal/resources/resources.go: the host's memory and disk, with their arithmetic
--   Localstorage  internal/localstorage/storage.go: Files for paths and system calls; Names, Confined and
--                 Marked are about the paths that it builds, changes and removes
--   Postgres      internal/postgres/postgres.go: Sql for its statements and queries; Session and Ownership
--                 are about the privileges that it takes and about what it drops
--   Api           internal/api/server.go: Access for what a request passes first, Requests for the checks
--                 of a request that changes something, Handlers, Reading and Routes;
--                 Keeps, Answers and Faults are about it
--   Tests         concrete runs
--
-- How the model corresponds to the code. A method is an action: it takes the environment and the
-- world, and returns a result or an error with the world it leaves. Every SQL statement, every call
-- of a collaborator and every reading of the clock is a step; the environment says of each step,
-- by its number, whether it fails and what it answers, so that a theorem about every environment
-- is about every failure and every answer. A cancelled context is such a failure. A transaction
-- restores the tables on an error. The trace lists the calls made, the latest first.
--
-- Conventions. A text is its list of bytes; letter case and white space are those of ASCII. A Go int
-- is an integer without bound where no arithmetic comes near 2 ^ 63; the product of a timeout with
-- time.Second has a timeout that ValidateCreate bounds by 600. The products of Resources and the age
-- of a request's timestamp have their bounds of 64 bits written out. The CPU limit,
-- a float64 in Go, counts billionths of a processor. A duration counts nanoseconds, an instant
-- seconds since the year 1 and nanoseconds. A row of a deployment holds the texts of its JSON and
-- timestamp columns; in the other tables a timestamp column holds the instant, and is compared by its
-- text. A Go map is an association list,
-- and a loop over it takes the order of the list. The driver's and the collaborators' own behaviour
-- is not modelled. Handlers and workers take turns as wholes in Service/Server; Storage/Schedule
-- lists single calls of the repository, which is what concurrent handlers and workers interleave
-- (the pool holds one connection). Recursion is structural everywhere, with no fuel but for itoa,
-- whose twenty digits hold every int64.
--
-- A request reaches the server as net/http hands it out: its path in segments, its headers by name,
-- its body read or not; a middleware is a function on handlers, as in Go. The build's version texts are
-- the defaults of the source.
--
-- Not modelled: the recovery from panics of the HTTP server, the loading of the configuration,
-- the collaborators (internal/docker, internal/backup,
-- internal/auth, internal/health), which are calls here, redaction of logs
-- (internal/logging), which is a parameter, metrics and log lines, the schema's column migrations,
-- the commands (cmd) and the fakes for tests.
pub mod Prelude
pub mod Errors
pub mod Config
pub mod Contracts
pub mod Packages
pub mod Domain
pub mod Storage
pub mod Runtime
pub mod Service
pub mod Resources
pub mod Localstorage
pub mod Postgres
pub mod Api
pub mod Tests
