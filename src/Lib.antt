-- ===== src/Lib.antt =====
-- remote-hands: a server that lends an agent a working directory on a machine: files,
-- searches, shell commands, long-running processes. The model covers the Go package worker,
-- the command that serves it (cmd/remotehands), and the MCP tools by which an agent calls it
-- (cmd/remotehands-mcp, mcptools, mcputils), so that a theorem can follow an agent's call of a
-- tool through the client, the check of its token and the handler to the state it leaves.
--
-- The requests that name a path call `ValidatePath` (worker/path.go). The file requests
-- (worker/file.go), the search (worker/grep.go), git (worker/git_*.go) and the working
-- directories of commands (worker/bash.go, worker/process.go) use its result. Every request is
-- a function of an unknown operating system.
--
-- Which file models what:
--   Host: the calls of `os` and `path/filepath` that reach the operating system, as a record of
--   functions over an unknown state. Nothing is assumed of them except where a theorem says so.
--   Path, Path/Lexical: worker/path.go (`ValidatePath` is `validate_path`,
--   `validateNonExistentPath` is `validate_non_existent_path` over the loop `walk_up`,
--   `isUnderDir` is `is_under_dir`), over the lexical functions of Go's path/filepath, written
--   by their documented rules on lists of elements. Path/Components, Cleaned, Containment,
--   Validate, Termination and Requests prove.
--   Command: the command that `Start` of worker/process.go builds, and `runBash` of
--   worker/bash.go in the same words.
--   Process and its children Output, Start, Tail, Stop and Logs: worker/process.go. The manager,
--   the tracked processes and the subscriber channels are stores with references, since
--   goroutines share them through pointers. One function is one critical section of the mutex,
--   or one round of a loop. `none` is a panic of the Go runtime. A wait for `done` runs the last
--   steps of the goroutine that closes it; other goroutines work before or behind a request.
--   Process/Channels, Invariant, Steps, Reach, Drain, Stop/Signals, Stop/Reached, Stop/Ended and
--   Logs/Limits prove; the step relation is in Process/Reach.
--   Bash: `runBash` of worker/bash.go; the two pipe readers interleave in an order that is an
--   argument. Bash/Events proves. Bash/Collect: `RunBash` of mcptools/direct_ops.go, on the
--   stream that Bash makes.
--   Auth: worker/auth.go.
--   Git, Git/Status, Git/Commit, Git/Remote, Git/Setup, Git/Diff, Git/Diff/Patch:
--   worker/git_status.go, worker/git_commit.go, worker/git_diff.go, and worker/git_gogit.go. The
--   library go-git is a record of functions over an unknown state. Git/Status/Deleted,
--   Git/Commit/Committed, Git/Remote/Safety, Git/Setup/Loaded, Git/Diff/Changed and
--   Git/Diff/Texts prove.
--   Grpc: worker/grpc.go; the program grpcurl is a parameter. Grpc/Printed proves.
--   Http: worker/http.go; net/http is a parameter, and cookie jars are references. Http/Cookies
--   proves.
--   Watch, Watch/Setup: worker/watch.go, the event loop and its start; the events, pattern
--   matching, the walk of the home directory and the stream are parameters. Watch/Events and
--   Watch/Setup/Covered prove.
--   Action, Rod: steps that change a state and may fail; and the library Rod with the browser
--   behind it, as a record of functions over an unknown state.
--   Browser and its children: worker/browser.go, and the browser's requests of
--   worker/service.go. Browser has the manager and its pages (`Start`, `Stop`, `Navigate`,
--   `ListPages`, `ClosePage`, `getPage`), Selector the selectors and elements, Screenshot,
--   Snapshot (the passes of `buildAccessibilityTree`), Keys, Waiting (`pollUntil`) and Acting
--   (`Act` and the actions) the rest, Requests the handlers. A method holds the mutex
--   throughout, so it is one function from session to session; a child of a node is named by its
--   ID. Maps are iterated in the order of their entries, where Go's order is arbitrary.
--   Browser/Rules, Untouched and Methods reduce a statement on every request to one on each
--   change of the manager; Browser/Invariant, Current, Navigated, Untracked, Selecting,
--   References, Acted, Polling and Pressed prove.
--   Browser/Client: the conversions of a browser action of mcptools/direct_ops.go
--   (`convertBrowserActionToWorker` and the switches on names). Browser/Client/Named proves.
--   File, File/Listing: worker/file.go (`readFile`, `writeFile`, `deleteFile`, `listFiles`,
--   `glob`). A request takes the file system's state and returns its answer with the new state.
--   File/Safety and Written prove.
--   Grep, Grep/Ripgrep: worker/grep.go. Regular expressions, glob matching and the program
--   ripgrep are parameters. Grep/Search and Grep/Ripgrep/Order prove.
--   Service, Service/Handlers: worker/service.go. `Service` is the state that the handlers share
--   (`NewService` is `service_of`) with the machine's; `handle` is the dispatch of the generated
--   handler to one function for each method, `serve_` with the method's name, and `close` is
--   `Close`. go-git's state is kept apart from the file system's, since both are unknown.
--   `ProcessTail` and the goroutines of processes are steps of the process manager between
--   requests. Service/Invariant, Refused and Shutdown prove.
--   Serving: cmd/remotehands/main.go (the flags, the token and the interceptor around the
--   handlers). Serving/Guarded proves.
--   Tools and its children: the agent's side. Connection is the client's headers
--   (cmd/remotehands-mcp/main.go), Ops, Calls and DirectOps are mcptools (a function `direct_`
--   for each method of `DirectOps`), Handlers and Registered the tools of cmd/remotehands-
--   mcp/main.go (`handle_` with the tool's name; `call_tool` is the registered function),
--   Coercion mcputils/coerce.go. The wire is left out: a request arrives as it was sent.
--   DirectOps/Outbound and Registered/Outbound have the operations on the browser and on other
--   servers. Tools/Requests, Requests/Answers, Agent and Written prove.
--   Shared: lists, bytes, errors, signed numbers and maps. A text is a list of bytes.
--   Examples: the model on concrete inputs.
--
-- Bounds and fuel: `walk_up` has one more round than the target has bytes, since each round
-- drops an element. `poll_until` has two more rounds than its timeout has milliseconds, since
-- a round waits for at least one. The snapshot counter wraps at 64 bits. `int32` wraps at 32
-- bits. A subscriber channel holds 256 lines. Times and PIDs are natural numbers.
--
-- Not modelled: the generated protocol code (gen) but for the dispatch to handlers, listeners,
-- signals and the HTTP server, the tools' schemas, and the JSON text of a tool's result, which
-- is a value here. Error texts are the format strings of the source without their arguments.
-- Logging is left out.
pub mod Shared
pub mod Host
pub mod Path
pub mod Command
pub mod Process
pub mod Bash
pub mod Auth
pub mod Git
pub mod Grpc
pub mod Http
pub mod Watch
pub mod Action
pub mod Rod
pub mod Browser
pub mod File
pub mod Grep
pub mod Service
pub mod Serving
pub mod Tools
pub mod Examples
