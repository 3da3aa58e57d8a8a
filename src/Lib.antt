-- ===== src/Lib.antt =====
-- The recovery watchdog of codex-auto-retry (scripts/source): a daemon that reads the rollout files of
-- Codex, notices turns that failed for a passing reason, and sends the threads a retry, within a budget,
-- at the right time, and never against the user.
--
-- How the parts interact. A tick of the daemon (daemon.go) scans the rollout files (scanner.go), handles
-- the events in the order of their times (retry_state.go, goal_recovery.go, subagent_recovery.go), which
-- schedules retries by the class of a failure (classifier.go) and the policy (retry_state.go,
-- runner.go), applies the user's commands, reopens, expires and probes retries, and dispatches what is
-- due. Each dispatch is a job: a goroutine that asks the runner and writes the result back under the
-- mutex. The runner (runner.go) reads the settings of the thread's last turn (resume_settings.go) and
-- asks the controller (shared_controller.go), which finds a channel to Codex and sends the retry over
-- it.
--
-- The files, with the source that each models:
--   Prelude: numbers, texts, points in time and maps with text keys; Text: runes and Go's `strings`.
--   Model: model.go, its records and enumerations, field by field.
--   Config: config.go, the configuration, its default and its validation; Config.File is its file,
--     Config.Load the migration of a file of an older version.
--   Policy: the limits and stop reasons of retry_state.go, the delays of runner.go and the tables of
--     reasons of daemon.go.
--   Classifier: classifier.go; Classifier.Status is its status pattern, Classifier.CcSwitch its search
--     in decoded JSON.
--   Goal: the predicates of goal_recovery.go and subagent_recovery.go.
--   Thread: the state machine of one thread. Thread.Events, Thread.Turns, Thread.GoalUpdate and
--     Thread.Schedule are the handlers of events, Thread.Control the user's commands, Thread.Awaiting,
--     Thread.Queue and Thread.Lifecycle the operations of the daemon on a thread. A handler is a
--     function from a thread to a reply: what is stored in its place, if anything, whether its running
--     job is cancelled, and the error that is reported.
--   Events: events.go, the events of a decoded line; Events.Notices reads progress and recovery notices.
--   Digest: eventKey and recoveryEventID of events.go.
--   Daemon: the state of daemon.go and its loops; Daemon.Handle, Daemon.Dispatch, Daemon.Job,
--     Daemon.GoalBlock, Daemon.Controller, Daemon.Memory, Daemon.Recovery (shared_recovery_windows.go),
--     Daemon.Status and Daemon.Tick are its operations, one for each part that holds the mutex.
--   Runner: the results of a dispatch and the reason codes of runner.go; Runner.Resume is its `Resume`.
--   Resume: resume_settings.go, the settings of a resumed turn; Resume.Search finds the last matching
--     line of a file from its end, Resume.Settings decides what the two lines mean and checks it.
--   Controller: shared_controller.go. A method is a program over the log of its calls: a record of
--     functions says how each call is answered after those before it. Controller.Preflight finds the
--     channel, Controller.Goals and Controller.Errors are what is read of goals and of errors,
--     Controller.Dispatch is `Dispatch` over the app-server, Controller.Dispatch.Channels the desktop's
--     own IPC and the choice between them, Controller.BlockGoal is `BlockGoal`, `Readiness` and
--     `Prepare`, and Controller.Status is `RetryThreadStatus`.
--   State: state.go, the repair of a loaded state and the pruning of the tables; State.Merge is the
--     merge of two states of one thread of state_migration.go.
--   Management: management.go and config_lock.go, the settings and their rollback; Management.Queue is
--     the list of retries that the panel shows, with the commands that it accepts.
--   Scanner: scanner.go, the cursors and the new events of a rollout file.
--   Thread.WellFormed and Daemon.Invariant hold the invariant and the lemmas that each operation keeps
--     it; Daemon.Reach is the step relation in which the parts of a tick, jobs, memory samples and
--     status writes interleave. Policy.Delay, Policy.Bounds, Classifier.Laws, Config.Bounds,
--     Thread.Budget, Thread.Claims, Thread.Redispatch, Thread.Reopen, Daemon.Loop, Daemon.Once,
--     Daemon.Sorted, Daemon.Capacity, Daemon.SortedDue, Daemon.Progress, Daemon.Justified, Daemon.Limits, Daemon.Release, Daemon.Fallback,
--     Daemon.Guard, Daemon.Reported, Runner.Laws, Runner.Sent, Resume.Search.Lines,
--     Resume.Search.Latest, Resume.Access, Resume.Loaded, Controller.Dispatch.Careful,
--     Controller.Dispatch.Safe, Controller.Once, Controller.Quiet, Controller.Blocked,
--     Controller.ReadOnly, Controller.Reasons, Controller.Accepted with its children,
--     Controller.Resumed, Scanner.Laws, State.Kept, State.Trimmed, State.Loaded, State.Merged,
--     Events.Laws, Events.Noticed, Config.Loaded, Management.Settings and Management.Panel hold the
--     other theorems. Tests runs the model on concrete inputs.
--
-- Conventions. A Go map is a list of keys and values; its iteration order is the list's, and Daemon.Loop
-- tells why the order does not matter. The zero time is 0, a time is its number of nanoseconds, and a
-- difference stops at 0 where Go's is negative, which no comparison of the code can tell apart. Go's
-- `int` counters are natural numbers: validated limits keep them below 2 ^ 31. The sizes of memory keep
-- the wrap-around of `uint64`. Each loop runs over a list, or a count that the code fixes beforehand
-- (the rounds of a delay, the free places of a dispatch, the five levels of an error), but for the
-- blocks of a file, which take one unit of fuel each: there are no more of them than bytes, and the
-- search is proved to end.
--
-- Parameters. encoding/json, SHA-256, the layout of a time and the patterns on file names are functions
-- that the definitions take; what the files, Codex and the desktop answer are inputs of the operations,
-- and for the daemon so is what the runner answers. So are the complete lines of a rollout file behind
-- an offset.
--
-- Not modelled: the search for aliases of a thread (state_migration.go), the decoding of rollout lines
-- (events.go), the snapshot and the single setters of the panel (management.go), the walk that finds a
-- parent's settings (resume_settings.go), the JSON of the requests to Codex (shared_controller.go), the
-- supervisor, the Windows transports, servers, locks, tray and logs, which are input and output, and the
-- scripts around the program.
mod Prelude
pub mod Model
pub mod Text
pub mod Config
pub mod Policy
pub mod Classifier
pub mod Goal
pub mod Thread
pub mod Digest
pub mod Events
pub mod Resume
pub mod Controller
pub mod Daemon
pub mod Runner
pub mod State
pub mod Scanner
pub mod Management
mod Tests
