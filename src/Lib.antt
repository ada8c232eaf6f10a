-- ===== src/Lib.antt =====
-- The review engine of VerustCode: the review configuration language, the queue of reviews, the
-- recovery of reviews at startup, and the execution of a review's rules with its retries.
--
-- A webhook or the command line makes a review of a repository; the engine (internal/engine) puts
-- it, as a task, into a queue that keeps one list for each repository. A dispatcher takes tasks off
-- the queue and hands them to workers, and a worker tells the queue when it has finished. A worker
-- reads the repository's review configuration (internal/dsl), in which rules inherit from a common
-- base, and runs its rules one after another, keeping a row for each rule in the database. After a
-- restart the reviews that the database still has as pending or running go back into the queue, and
-- so does a failed review that a user retries.
--
-- - Base, with Base/*: the shared names. Tests on numbers and texts, lists over the native numbers,
--   Go maps with string keys as association lists (Base/Dict), Go's int with its 64 bits (Base/Int)
--   and float64 as far as comparisons need it (Base/Float).
-- - Dsl/Schema: the structures of internal/dsl/schema.go. Dsl/Merge: the merges of a value with an
--   inherited one, of merge_utils.go and parser.go. Dsl/Inherit: applyRuleBase, GetRuleByID and
--   GetRuleIDs. Dsl/Validate: Validate and all that it calls; an error is a value that carries what
--   its message prints. Dsl/Parse: Parse, which takes the YAML decoder as an argument. Beside each
--   stand its specification (Spec) and its proofs.
-- - Model: the rows of internal/model/model.go, the task of internal/engine/task/types.go.
-- - Queue: RepoTaskQueue of internal/engine/queue.go with Enqueue and EnqueueAsRunning;
--   Queue/Dequeue: Dequeue; Queue/Finish: MarkComplete, HasTask, RemoveTask, Stop; Queue/Stats: the
--   methods that count. Queue/Lookups, Queue/Waiting, Queue/Progress and Queue/Again prove what the
--   calls do. Every method holds the queue's mutex, so a call is one step. Go goes through a map
--   in any order: the searches take the order of the keys as an argument.
-- - Schedule: the queue in use. A step is a submission, a recovery, a dispatch or a completion
--   (internal/engine/dispatcher.go, in its calls of the queue), and a state is reachable when a
--   sequence of steps leads to it. The conditions of the steps are those of the callers: Retry asks
--   HasTask first, and recovery is for reviews whose repository has no task in flight.
--   Schedule/Drain: the loop of tryDispatch, on fuel, which suffices from the work of the queue on.
-- - Recovery: internal/engine/recovery/service.go, over Queue and Store. The providers, the clock and
--   the identifiers are arguments. Durations are int64 nanoseconds that wrap around. Recovery/Placed
--   and Requeued: where the queue keeps a recovered task, on which Recovery/Settled rests.
-- - Store: the statements of internal/store/review.go that the engine uses, on tables that are lists of
--   rows; Store/Rows: what they do to a table's rows. A transaction that fails writes nothing.
-- - Errors: the codes, texts and HTTP statuses of pkg/errors/errors.go.
-- - Retry: Retry and RetryRule of internal/engine/retry/handler.go, over Queue, Recovery (the task's
--   construction) and Store; which statements fail is an argument. Its children prove what a retry
--   leaves: Queued and Refused by its outcome, Reachable for the queue's rules, Frame for the other
--   reviews, Rule for a single rule. Retry/Background: executeRuleRetry, over Process and Runner.
-- - Process: processTask and handleError of internal/engine/engine.go, from the row's change to
--   running to its end, over Store and Runner, with onReviewError of internal/api/handler/review.go
--   and the choice of the configuration by the engine and by the retry handler. Clones,
--   configuration files and pull requests are arguments.
-- - Submit: Submit of internal/engine/engine.go, which writes the rows of a review's rules and enqueues
--   its task, over Store, Queue and Process's choice of a configuration; Submit/Run goes on to the
--   end of processTask.
-- - PrUrl: the parser of internal/git/prurl/parser.go, on bytes; PrUrl/Text: what it uses of the
--   standard library; PrUrl/Build: BuildPRURL of internal/engine/utils/git.go, whose decimal digits
--   are written on fuel, one more than the number, and the names of clones.
-- - Runner: RunReviewWithTracking and UpdateReviewStatusAfterRuleExecution of
--   internal/engine/runner/runner.go, with the writes of internal/engine/executor/executor.go around
--   a rule's execution. What comes of an execution is an argument; database statements succeed.
-- - Executor: the retry loop of executeSingleRun of internal/engine/executor/executor.go with
--   IsRetryable of internal/llm/errors.go. The agent's answers and the state of the context are
--   functions of the number of the call. Executor/Attempts and Executor/Backoff prove what the
--   loop amounts to. Executor/Multi: executeMultiRun of internal/engine/executor/multi.go, its runs
--   with their rows; Executor/Multi/Merge: mergeReviewResults and the final result.
-- - Llm: IsModelError of internal/llm/errors.go with its search for keywords, on bytes.
--   Llm/Fallback: ExecuteWithFallback of internal/llm/base.go, with the client as an argument.
-- - Report: the rows of internal/model/report.go and the structure of internal/report/structure.go;
--   Report/Structure: its rows; Report/Store: internal/store/report.go; Report/Run: Run and Resume of
--   internal/report/engine.go with their phases; Report/Recovery: internal/report/recovery/service.go;
--   Report/Merge: MergeSections of internal/report/exporter/helpers.go; Report/Handler: the requests of
--   internal/api/handler/report.go over the channel of tasks. The other children prove what these
--   leave: Ended, Sections, Resumed and Creation of a run, Document and Shown of the document, Answers
--   and Accounted of requests and recovery. Which statements fail, what other parts write during a
--   run, the clone, the agent's answers and what the database stores of a column with a default are
--   arguments; no worker takes a task while recovery fills the channel.
-- - Api: CreateReview and CancelReview of internal/api/handler/review.go, over Submit; Api/Names:
--   parseRepository, on bytes, where a slice out of bounds is a panic.
-- - Webhook: HandleWebhook of internal/api/handler/webhook.go, over Submit; Webhook/Event: the events of
--   internal/git/provider/provider.go and the URLs built from them; Webhook/Rows: the statements and
--   the unique index of the reviews' table; Webhook/Repeats, Replies and Revisions: what deliveries
--   leave. The providers' parsing of requests and the statements that fail are arguments.
-- - Samples and the modules named Tests: concrete runs.
--
-- The other loops are structural recursions, on the list that the code ranges over or on the number
-- of retries left, and need no fuel.
--
-- Not modelled: the transport (goroutines, the channel to the workers, shutdown), logging and
-- telemetry; the prompts, the LLM clients beyond their errors and fallbacks; the git providers, the
-- HTTP API but for the requests named above, publication, and the prompts, exports and cleaned texts
-- of reports; the database itself, a list of rows here.
pub mod Api
pub mod Base
pub mod Dsl
pub mod Errors
pub mod Executor
pub mod Llm
pub mod Model
pub mod PrUrl
pub mod Process
pub mod Queue
pub mod Recovery
pub mod Report
pub mod Retry
pub mod Runner
pub mod Samples
pub mod Schedule
pub mod Store
pub mod Submit
pub mod Webhook
