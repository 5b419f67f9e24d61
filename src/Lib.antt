-- ===== src/Lib.antt =====
-- metawsm manages runs of agents over several workspaces, and a forum by which agents, operators and
-- humans talk. This library models the part that keeps state.
--
-- A forum command is published into the outbox of the SQLite store (internal/store), the forum bus
-- (internal/forumbus) flushes the outbox to Redis streams and hands what comes back to the handlers of
-- the service (internal/orchestrator), a handler runs the command on the store, and the event broker
-- (internal/server) fans the events out to websocket clients. Control messages are posts of the forum
-- from which the service reads what the agents of a run have signaled. Runs, steps and agents change
-- their status along the tables of internal/hsm. The orchestrator moves a run through its plan, and
-- the operator (cmd/metawsm) restarts and stops runs by rules.
--
-- Files:
--   Base      lists, texts, tables as lists of rows, equality tests.
--   Model     internal/model/types.go, forum.go, forum_bus.go: the data types.
--   Hsm       internal/hsm/hsm.go: CanTransitionRun is can_transition_run, and so on.
--   Store     internal/store/sqlite.go and sqlite_forum.go. Schema has the tables of Init, Sql the
--             functions execSQL and queryJSON, Scripts the transactions, Commands the Go functions
--             around them (ForumAddPost is forum_add_post, forumChangeState is change_state), Project,
--             Queue and Stats the three refreshes, Outbox the outbox, Reads the functions
--             MarkForumThreadSeen, ApplyForumEventProjections and ForumAppendIntegrationEvent. Stable
--             is the interface that an invariant of the tables fills; Synced and Replay fill it.
--   Bus       internal/forumbus/runtime.go: Publish and flushOutboxToRedis.
--   Broker    internal/server/forum_event_broker.go, with its channels in a heap.
--   Control   internal/model/forum_control.go and internal/orchestrator/service_forum_control.go.
--   Orchestrator  internal/orchestrator/service.go, the life of a run: Names and Plan its names and
--             buildPlan, Steps transitionRun, seedAgents and executeSteps, Runs the functions Run,
--             Resume, Stop and Restart, Close the function Close with its checks, Guidance the functions
--             Guide and syncBootstrapSignals. The statements on the tables of runs are Store.Runs.
--             Frame says what a call leaves as it is, Blind and Quiet which calls do; History and
--             Lawful keep the status of every run among those allowed, Operations.Leave says which
--             these are for each operation; Settled is about the steps.
--   Operator  cmd/metawsm/operator_llm.go and the operator's loop of cmd/metawsm/main.go: Rules is
--             buildOperatorRuleDecision, Rounds the body of the loop for one run.
--   Federation  internal/docfederation/merge.go, the function MergeWorkspaceFirst.
--
-- How the code is represented:
--   * A table is a list of rows in the order of insertion. A script is a function of the tables whose
--     `none` is a broken constraint. A script of one statement or one transaction that fails leaves
--     the tables as they were (exec); of several statements without BEGIN, as in SaveSteps and for the
--     tickets in CreateRun, those before the failure stay, and a retry sends all again (exec_each).
--     What sqlite3 does at each invocation, or at each such statement (done, busy, failed), is a list
--     in the world, after which it succeeds; the retries on a busy database are counted down
--     structurally, so no fuel is needed.
--   * A time is its RFC 3339 text and the zero time the empty text. A call reads the clock once; a
--     flush uses one reading for its claim and its marks. Texts compare as SQLite compares them.
--   * A payload is the value before json.Marshal. An enum has its declared values, and `unset` where
--     the empty string occurs. Sequences, versions, limits and buffer sizes are natural numbers: where
--     the code tests `<= 0`, the model tests for zero. SQLite's 64-bit sequences are taken as unbounded.
--   * ToLower is exact where the result is ASCII, and EqualFold compares lower cases. TrimSpace removes the white space of Unicode.
--   * Redis is a parameter of Bus, which answers each publication with an error text or none. Decoding
--     JSON and the listings of the store are parameters of Control.
--   * In Broker a panic is `none`. Calls follow one another, but for the one interleaving of
--     Broker.Race; receivers that take events out of a channel at the same time are not modelled, and
--     the order of a map's iteration is that of a list.
--
--   * Programs and files that the orchestrator uses (zsh, tmux, git, wsm, docmgr, workspaces) are
--     commands, each answered by a text or an error from a list in the world, after which all answer
--     with the empty text; the commands given are recorded. Specifications and policies stand in
--     their rows as values, before json.Marshal. The time columns of the tables of runs are left out.
--     A run has one caller: two processes that work on a run at the same time are not modelled. Texts
--     are cut by code points, which are bytes in ASCII texts. The texts of errors that no table takes
--     are shortened.
--   * policy.ResolveAgents, err.Error(), the control messages of the forum (interface ControlForum),
--     the operator's probe of tmux, its action and the reply of the language model are parameters.
--
-- Not modelled: building SQL text, running programs, HTTP and websockets, the command line, the
-- listings of the store but for those that the operations above read, the consuming side of the bus;
-- of internal/orchestrator/service.go the search for the run of a ticket, Cleanup, Merge, Commit, pull
-- requests, review feedback and the health of agents; policy files; the HTTP client of
-- internal/docfederation.
pub mod Base
pub mod Model
pub mod Hsm
pub mod Store
pub mod Bus
pub mod Broker
pub mod Control
pub mod Orchestrator
pub mod Operator
pub mod Federation
