-- ===== src/Lib.antt =====
-- Verification of the GitHub digital twin.
--
-- The program is a fake GitHub for tests: one in-memory world behind a lock, a control API that sets
-- it up and moves its virtual clock, a public API that a GitHub App uses, a Git gateway in front of
-- git http-backend, webhook deliveries, and workflow runs that are executed by a local runner. The
-- model has one function for each critical section of a handler, from the world of that moment to
-- the world after it and the reply; a handler that gives up the lock in between is several functions.
--
--   World (dtu/types.go): the state `world` as the record `World`, its tables as `Dict`, its logs as
--     lists; World/Inputs has the request bodies, World/Payloads the webhook payloads.
--   Dict: Go's map. Text: package strings and the formatting that the program uses.
--   Reply (dtu/control.go, dtu/public.go): writeJSON, writeControlError and decodeControl.
--   Events (dtu/git.go, dtu/installation_events.go): appendPendingEvent and the payloads.
--   Permission (dtu/public.go): permissionRank, canReadPulls, selectPermissions.
--   Machine (dtu/control.go, dtu/git.go): runGit, resolveRef, branchRefs, forcedUpdate.
--   Control (dtu/control.go): createApp to getState. Control/Cases and Control/PullCases give the
--     outcomes of each handler. Control/Routes is controlHandler, Control/Client the client of
--     dtu/client.go: an operation has the type of its input, and a call goes through the paths, the
--     encodings and the statuses of both sides.
--   Runs (dtu/git.go, dtu/delivery.go, dtu/execution.go): appendQueuedWorkflow, workflowRunByID,
--     transitionWorkflowRun.
--   Delivery (dtu/delivery.go): deliverEvent as send_event and finish_delivery; duplicateEvent.
--   Execution (dtu/execution.go): executeWorkflowRun as claim_run, release_claim, start_run and
--     finish_run. Execution/Prepare has what it does in between, from the tools to the command of the
--     runner, and cleanupRunContainers; Execution/Complete the whole with no other request in between.
--   Public (dtu/public.go): the JWT and token checks, CreateInstallationToken, pull requests and
--     cancellation; Public/Random is randomToken. Public/Paths reads paths, credentials and the
--     body of a token request; Public/Handler is publicHandler.
--   Http (dtu/git.go): responseBuffer, and http.ResponseWriter as net/http documents it.
--   Git (dtu/git.go): Gate is serveGit up to the backend, Push what a push leaves in the world, and
--     Serve the whole of serveGit. Git/Access is about the checks, Git/Touched and Git/Queued about
--     recordRefChanges, and Git/Refreshed about refreshPullSnapshots.
--   Server (dtu/server.go, dtu/types.go): withConfigDefaults, Start, serve, stopActiveRuns and
--     close; what they do to the host is a trace of acts, which Server/Resources replays.
--   Command (cmd/dtu-github/main.go): run.
--   History: the effect of each handler on runs and claims. Concurrency: all of these at once; a
--     state is the world with the executions under way, a step is one critical section.
--     Concurrency/Board is an abstract view of the runs, a board of statuses with steps of its own.
--   Examples: a fixture on which the theorems are applied.
--
-- What is outside the repository's code is a parameter: git and the file system (`Machine`), PEM,
-- X.509 and durations (`Platform`), the HTTP client, JSON and HMAC (`Network`), the JWT library
-- (`JwtParser`, which returns a token only where a key was given that verifies it), Unicode's case
-- tables (`Unicode`), the API server of go-github-server (`ApiServer`, which leads a request to a
-- method of a service and writes its result; a method of the three services that the program does
-- not implement is answered by the library and not recorded) with the JSON of an error and of
-- github.InstallationPermissions (`Codec`), the JSON of the control API (`Wire`), listeners and
-- temporary directories (`Host`), and SHA-256. http.ServeMux and http.Server behave as net/http
-- documents them; the keys of a header are taken as they are written. The bytes read from
-- crypto/rand, the process that the start of a command gives and the error of Wait are arguments:
-- execute_workflow_run is an execution whose tools and runner end, and one that never ends is, in
-- Concurrency, an execution whose next step never comes.
--
-- Integers are natural numbers: an int64 is its bit pattern of 64 bits, where a value from 2 ^ 63 on
-- is negative, and a counter wraps at 2 ^ 64. A time is a number of nanoseconds since the start of
-- the virtual clock. `decimal` has as much fuel as the number, plus one, and a number has fewer
-- digits than that. A range over a map visits the entries in the order of the representation, which
-- Go leaves open. copyMap and copySet make copies of values that the model never shares. The data
-- directory is taken to be clean, so that filepath.Join joins with slashes. A nil mutex and an index
-- out of range are explicit panics.
--
-- Not modelled: main, which prints the error of run; the goroutines that serve, whose ends are
-- arguments of close; git http-backend, which is a parameter; the text of an error that only wraps
-- another, after its first words; the environment that the runner inherits; a signal before
-- signal.NotifyContext is called, which ends the process and not run; a failure of os.RemoveAll,
-- whose error close and createRepository discard; the repository directory that
-- createRepository removes where git config fails; and what handlers that still run after a failed
-- Shutdown do to the host. The public handler passes one request at a time, its critical sections
-- one after the other, while the steps of Concurrency interleave the critical sections of all
-- handlers that change the world.
mod Prelude
pub mod Dict
pub mod World
pub mod Text
pub mod Reply
pub mod Events
pub mod Permission
pub mod Machine
pub mod Control
pub mod Runs
pub mod Delivery
pub mod Execution
pub mod Public
pub mod Git
pub mod History
pub mod Concurrency
pub mod Http
pub mod Server
pub mod Command
pub mod Examples
