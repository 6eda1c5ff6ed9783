-- ===== src/Lib.antt =====
-- Saturnus: the review and approval server, modelled from its store upwards.
--
-- The program is a server that keeps its state in SQLite (internal/store), decides which tool
-- calls of coding agents need a person (internal/policy, the approval handlers of
-- cmd/saturnus-server/main.go), and hands PR reviews and reactions to them to remote workers
-- (cmd/saturnus-server/scheduler.go over internal/review/remote.go, and internal/reviewworker on
-- the other side). It also keeps tasks with their pull requests and watches the checks of pull
-- requests (internal/prs). The handlers, the scheduler and the review service read and write only
-- through the store's operations, which the model composes in the same order.
--
--  * Base and its modules: text equality, tables as lists of rows (find, select, update, delete,
--    count, last by a key), unique keys, results and transactions.
--  * Store/Types: the structs of internal/store/store.go and the database as a record of tables.
--  * Store/Approvals: CreateApproval, ListApprovals, DecideApproval, GetApproval.
--  * Store/Reviews, Store/Runs, Store/Findings, Store/Reactions: the review tables of
--    internal/store/store.go and internal/store/review_result.go.
--  * Store/Threads, Store/Comments, Store/ChatModes: threads, synchronized comments with the rows
--    of notifications, and the mode of a chat, of the same file and review_notification.go.
--  * Store/Sync: what synchronization writes to reviews, of internal/store/refresh.go.
--  * Store/Sessions, Store/Workers: agents, their sessions and events, and review workers, of
--    internal/store/store.go, workers.go and worker_alerts.go.
--  * Store/Assign: the claims and hand-backs of internal/store/workers.go.
--  * Store/Contexts: internal/store/review_context.go.
--  * Policy: internal/policy/policy.go.
--  * KeyLock: internal/keylock/keylock.go; below it the steps of its calls (Calls), their
--    invariant (Invariant, Moves) and what follows (Safety).
--  * Tasks: the tables of tasks (Rows), their documents (Docs), pull requests (Prs), references and
--    tool sessions (Links) and Lark tasks (Lark), of internal/store/store.go, refresh.go, task_refs.go,
--    task_sessions.go and task_lark.go. Refinement has the map from ids to tasks that the table
--    implements.
--  * Pulls: the bypass policy of internal/prs/policy.go (Policy), the rows of
--    internal/store/pull_requests.go (Table) and internal/prs/service.go over both (Service).
--  * Server/Approvals: createApproval and decideApproval.
--  * Review/Types, Review/Remote: StartRemote, CompleteRemoteRun, RequeueForOrphan and
--    UpdateRemoteProgress; below Remote the operations on reactions (Reactions), the invariant of
--    reviews and runs (Invariant), what keeps it (Start, Finish, Keeps), the histories of all
--    operations (Steps), the fence (Fence), and what a start does to a review (Claims).
--  * Review/Ingest: the submission of a result, IngestRunResult of internal/review/service.go.
--  * Review/Paging: the pages and texts of internal/review/findings.go.
--  * Server/Hub: the tables of internal/worker/hub.go, and their histories.
--  * Server/Scheduler: cmd/saturnus-server/scheduler.go, with the parser of
--    internal/repopolicy/policy.go: the choice of a worker, its capacity, the backoff; below it
--    Dispatch (dispatchReview and reconcileWorker), Events (OnConnect, OnEvent, dispatchReaction,
--    reconcile, RepoAvailable) and the proofs.
--  * ReviewWorker: the jobs of internal/reviewworker/worker.go, and their histories.
--  * WorkerMonitor: a check of internal/workermonitor/monitor.go, and its reminders.
--  * Examples: the theorems on concrete rows.
--
-- Correspondence. A table is a list of rows in the order of insertion, and an UPDATE maps the
-- rows that its WHERE selects. A transaction is a result that carries the new store, and `commit`
-- keeps the old store where it fails. Primary keys, and the foreign keys of runs, findings,
-- comments, links and alerts, are checked where a row is inserted. A call takes one reading of the
-- clock, and the random ids that it draws, from `Env`. Times are nanoseconds and 0 is the zero
-- time. What holds a mutex or a review's lock is one step. Every loop of the modelled code runs over
-- a list, or counts down as in FindingText, and is structural recursion, so no fuel is needed.
--
-- Parameters. `to_lower` is strings.ToLower. `Outside` has the JSON of a worker's capabilities,
-- the trimmed text of guide files, the text of prior findings with the discussion from GitHub,
-- the callback's query, and the posting of inline comments, of which the invariant assumes that
-- it leaves reviews and runs alone (`Posts`). Server.Scheduler's `Host` has the JSON of
-- capabilities, strings.TrimSpace, strings.EqualFold, filepath.Clean, whether the server has a
-- checkout and whether a frame is written to a socket. `GitHubJson` has the part of that JSON
-- on an account, and `fields` is strings.FieldsFunc with the separators of chat modes. In
-- Pulls, `Host` has strings.ToLower, strings.TrimSpace, strings.Split and the pattern of repos,
-- `Text` the comparison COLLATE NOCASE and the URL of a pull request; the JSON of the policy's
-- file comes decoded, and `Fetched` is what GitHub answers. `Words` of Review/Ingest has
-- strings.TrimSpace, ToLower and ToUpper. In WorkerMonitor, `account` is the JSON of
-- capabilities, `time_text` the text of a time, and `delivers` says whether Lark takes a
-- message.
--
-- Not modelled: failures of the database itself; the order of listings by the text of a time, and
-- the comparison of `last_seen` as a text in ListOnlineWorkers, which is one of numbers here; the
-- UNIQUE constraint on the request of a decision;
-- payloads and ids of audit rows; log lines and Lark messages; line and PR numbers below 0; the
-- channel that queues the scheduler's jobs. Of the rest of the program, the execution of reviews
-- (processes, worktrees, files), the service of tasks, the sweep over pull requests, the guard of
-- repositories, the connection to GitHub and Lark, the websocket and the web pages are not part of
-- the model.
pub mod Base
pub mod Examples
pub mod Store
pub mod Policy
pub mod Review
pub mod Server
pub mod KeyLock
pub mod Tasks
pub mod Pulls
pub mod ReviewWorker
pub mod WorkerMonitor
