-- ===== src/Lib.antt =====
-- A model of the Browzer CLI, and what is proved of it.
--
-- The program is a command line client: it sends the files of a repository to a service, answers
-- the hooks of an editor's agent, and runs other commands with their output shortened. The parts
-- that decide something by themselves are modelled; talking to the service, to the terminal and to
-- the file system is not, but for the outcomes that those parts branch on.
--
-- Prelude holds what the modules share: tests and lists over the native numbers, texts as lists of
-- code points with the functions of Go's package strings (its letter case and no other than that of
-- ASCII), decimal prints, Go's maps as association lists, and a sort.
--
-- CodeReview models internal/codereview/aggregate.go, behind the command "codereview aggregate".
-- Load is LoadMemberFiles, where the outcomes of reading the directory, of reading a file and of
-- decoding it are data; Defaults
-- is fillFindingDefaults; Aggregate is Aggregate, one function for each of its loops. Go leaves the
-- order open in which a map is walked: the argument `visit` stands for it.
--
-- RunFilters models internal/commands/runfilters, the filters of "browzer run". Lines holds the
-- lines that all of them split and write, LineFilter the interface of the filters that decide on
-- each line alone, which Checks (vitest.go, turbo.go) implements. Git.Diff is compressGitDiff of
-- git.go, whose local variables are the fields of a state and whose loop is `run` over `step`.
-- CargoTest is filterCargoTestStandard of cargotest.go, and GoTest is filterGoTestNDJSON of
-- gotest.go, with the decoding of a line as the argument `decode`, with filterGoTestStandard in
-- GoTest.Standard. Registry is the registry of the filters (registry.go), over an arbitrary type of filters.
--
-- Cache.Docs models DiffDocs of internal/cache/docs_cache.go, which decides what "workspace docs"
-- uploads and deletes. Diagnostic models internal/diagnostic/didyoumean.go: the edit distance and
-- the names that it ranks. Tracker.Unsent models UnsentBuckets and MarkFlushed of
-- internal/tracker/tracker.go over the list of the rows of the table of events; sums of int64 are
-- numbers modulo 2^64. The flush of the events reads them, sends them and marks them with no
-- transaction around the three, so that rows may be recorded in between.
--
-- Hooks.Lock models AcquireLock of internal/hooks/acquire_lock.go, which keeps two flushes from
-- running at once, one system call at a time: `step` is the next call of one process, `alone` an
-- undisturbed run, `against` a run between whose calls the lock file changes in any way, and
-- `interleave` the calls of two processes in the order of a schedule.
--
-- Hooks.StripQuoted models StripQuoted of internal/hooks/strip_quoted.go, which the hooks read a shell
-- command by; its loops are those of Prelude.Loop, with the length of the text that is left as fuel.
-- Its regular expressions are written out.
--
-- Hooks.Gate is GateAllowed (internal/hooks/env_gate.go), Hooks.Paths is ClassifyPath
-- (internal/hooks/classify_path.go), and Hooks.RewriteBash is rewriteBashDecide
-- (internal/commands/hooks/rewrite_bash.go), which rewrites the shell commands of an agent by these two
-- and by StripQuoted, with its patterns in Hooks.BashPatterns. The regular expressions are those of
-- Prelude.Regex, whose matcher lists the places at which a match may end, in Go's order of preference.
--
-- UrlValidate models Validate of internal/urlvalidate/validate.go, by which the address of a server is
-- checked, over the bytes of an IP address. Accepted holds the guards that an accepted address has
-- passed; Rules and Ranges say what they mean for its scheme, its host and its IP address.
--
-- Walker.Sensitive models IsSensitive and IsDefaultIgnoredPath of internal/walker/sensitive.go.
--
-- Daemon.ManifestCache models Get, kickRefetch and Invalidate of internal/daemon/manifest_cache.go for
-- one workspace, as the steps that threads take under its lock or with none held, in any order.
--
-- Auth.Poll models PollForToken of internal/auth/device_flow.go: the replies to its requests, the
-- times at which it looks at the clock and at which it is cancelled are arguments.
--
-- Upload models UploadInBatches of internal/upload/pipeline.go; reading a file, the answer to a
-- batch and the status that is polled are arguments, and the requests are a part of the result.
--
-- WorkspaceDocs models the command "workspace docs" of internal/commands: Items is mergeDocItems,
-- computeDocDelta and what is printed of a plan (workspace_docs.go), Spec is parseSpec and
-- applySpecsToItems (workspace_docs_spec.go), and Submit is the run by specs, from them to the
-- uploads, deletions and the saved cache, over Upload and the cache of Cache.Docs. Picker is
-- runInteractiveDocsPicker, with the answers of the terminal as arguments, and Command chooses by the
-- flags between a sync, the picker and the specs. Warnings and progress are not part of a run, and a
-- run ends in the outcome that Go's error or exit stands for.
-- Sync is runSyncFlow (workspace_sync.go), which "sync", "index" and the plain "workspace docs" run,
-- over the same items, uploads and deletions.
--
-- Workspaces models ReconcileWorkspaceManifest (workspace_sync.go) over the interface of its manifest,
-- which Workspaces.Manifest implements (internal/cache/manifest.go).
--
-- Prelude.Text.Glob is path.Match, which the specs use, for patterns over ASCII and beyond, by
-- code points.
--
-- Fuel: `mark_chunks` takes the number of the ids, since each round takes one at least; `alone` runs
-- ten system calls, after which every call of AcquireLock is over; `poll_for_token` runs 721 rounds,
-- and the round of number 720 ends it; `upload_in_batches` takes the number of the files, of which
-- each round sends one at least. All else is structural recursion.
--
-- Not modelled: the client of the service and its types (internal/api), the rest of sign-in
-- (internal/auth), terminal output (internal/output, internal/ui, internal/format), the
-- other commands (internal/commands), the daemon's socket, SQL, JSON and
-- the file system, which are input and output. Nor are the rest of the daemon (internal/daemon), the
-- hooks other than rewrite-bash (internal/commands/hooks and the rest of internal/hooks), which are
-- glue over the daemon, the walk over the repository (the rest of internal/walker), the hash of a session's
-- rules (internal/session), and the remaining filters, which rewrite the layout of a tool's output.
pub mod Prelude
pub mod RunFilters
pub mod Cache
pub mod Diagnostic
pub mod CodeReview
pub mod Hooks
pub mod Tracker
pub mod Auth
pub mod WorkspaceDocs
pub mod Upload
pub mod Workspaces
pub mod Daemon
pub mod UrlValidate
pub mod Walker
