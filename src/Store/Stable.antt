-- ===== src/Store/Stable.antt =====
-- What is kept by the statements of internal/store/sqlite_forum.go is kept by every forum command,
-- whether it returns or fails, and whatever sqlite3 does.
use metawsm.Base.{String, ◌≡◌, ◌≢◌, Bool, true, false, Option, none, some, List}
use metawsm.Base.Text.{trim_space}
use metawsm.Base.Rows.{find}
use metawsm.Model.Forum.{
  ThreadState, ForumEnvelope, ForumOpenThreadCommand, ForumAddPostCommand, ForumAssignThreadCommand,
  ForumChangeStateCommand, ForumSetPriorityCommand, ForumCloseThreadCommand,
}
use metawsm.Store.Schema.{ThreadRow, Tables, view_key}
use metawsm.Store.Sql.{Outcome, World, M, ◌>>=◌, ◌>>◌, exec}
use metawsm.Store.Sql.Triple.{
  Triple, Keeps, Triple-either, Triple-error, Triple-exec, Triple-query, Triple-pure, Triple-raise,
  Triple-bind, Triple-if, Triple-weaken, Keeps-bind, Keeps-query, Keeps-update, Keeps-exec,
  Keeps-raise, Keeps-if, keeps_rules,
}
use metawsm.Store.Queue.{rebuild_queue}
use metawsm.Store.Stats.{rebuild_stats}
use metawsm.Store.Scripts.{
  at_or_now, open_script, post_script, assign_script, state_script, priority_script,
}
use metawsm.Store.Commands.{
  ForumThreadView, thread_view, get_forum_thread, forum_event_exists, require_thread,
  refresh_forum_thread_stats, refresh_forum_thread_queue_view, forum_open_thread, forum_add_post,
  forum_assign_thread, change_state, forum_change_state, forum_close_thread, forum_set_priority,
}

-- `Admits` is what a new post has to meet, beyond that its thread is there.
pub record Stable (P : Tables → Type 0) (Admits : ForumAddPostCommand → String → Tables → Type 0)
    : Type 0 where
  pub opens :
      (cmd : ForumOpenThreadCommand) (at : String) (db db' : Tables)
      → P db
      → open_script cmd at db ≡ some db'
      → P db'
  pub posts :
      (cmd : ForumAddPostCommand) (thread : ThreadRow) (at : String) (db db' : Tables)
      → P db
      → Admits cmd at db
      → find view_key cmd.envelope.thread_id db.views ≢ none
      → post_script cmd thread at db ≡ some db'
      → P db'
  pub assigns :
      (cmd : ForumAssignThreadCommand) (thread : ThreadRow) (at : String) (db db' : Tables)
      → P db
      → assign_script cmd thread at db ≡ some db'
      → P db'
  pub moves :
      (envelope : ForumEnvelope) (event_type : String) (to : ThreadState) (thread : ThreadRow)
      (at : String) (db db' : Tables)
      → P db
      → state_script envelope event_type to thread at db ≡ some db'
      → P db'
  pub ranks :
      (cmd : ForumSetPriorityCommand) (thread : ThreadRow) (at : String) (db db' : Tables)
      → P db
      → priority_script cmd thread at db ≡ some db'
      → P db'
  pub counts : (ticket now : String) (db : Tables) → P db → P (rebuild_stats ticket now db)
  pub queues : (tid : String) (db : Tables) → P db → P (rebuild_queue tid db)

-- The reads before a transaction keep anything.
module _ {P : Tables → Type 0} where
  pub get_forum_thread-Keeps : (tid : String) → Keeps P (get_forum_thread tid)
  unfolding get_forum_thread
  get_forum_thread-Keeps tid = Keeps-query (thread_view tid)

  pub forum_event_exists-Keeps : (event_id : String) → Keeps P (forum_event_exists event_id)
  unfolding forum_event_exists
  forum_event_exists-Keeps event_id = search keeps_rules

  pub require_thread-Keeps :
      (tid : String) (found : Option ForumThreadView) → Keeps P (require_thread tid found)
  require_thread-Keeps tid none = search keeps_rules
  require_thread-Keeps tid (some v) = search keeps_rules

module _ {P : Tables → Type 0} {Admits : ForumAddPostCommand → String → Tables → Type 0}
    (stable : Stable P Admits) where
  stats-Keeps : (ticket now : String) → Keeps P (refresh_forum_thread_stats ticket now)
  unfolding refresh_forum_thread_stats
  stats-Keeps ticket now = Keeps-update (rebuild_stats ticket now) (stable.counts ticket now)

  queue-Keeps : (tid : String) → Keeps P (refresh_forum_thread_queue_view tid)
  unfolding refresh_forum_thread_queue_view
  queue-Keeps tid =
      Keeps-if _ _ _ (Keeps-raise _)
        (Keeps-update (rebuild_queue (trim_space tid)) (stable.queues (trim_space tid)))

  open-Keeps : (cmd : ForumOpenThreadCommand) (at : String) → Keeps P (exec (open_script cmd at))
  open-Keeps cmd at = Keeps-exec (open_script cmd at) (stable.opens cmd at)

  assign-Keeps :
      (cmd : ForumAssignThreadCommand) (thread : ThreadRow) (at : String)
      → Keeps P (exec (assign_script cmd thread at))
  assign-Keeps cmd thread at =
      Keeps-exec (assign_script cmd thread at) (stable.assigns cmd thread at)

  state-Keeps :
      (envelope : ForumEnvelope) (event_type : String) (to : ThreadState) (thread : ThreadRow)
      (at : String)
      → Keeps P (exec (state_script envelope event_type to thread at))
  state-Keeps envelope event_type to thread at =
      Keeps-exec (state_script envelope event_type to thread at)
        (stable.moves envelope event_type to thread at)

  priority-Keeps :
      (cmd : ForumSetPriorityCommand) (thread : ThreadRow) (at : String)
      → Keeps P (exec (priority_script cmd thread at))
  priority-Keeps cmd thread at =
      Keeps-exec (priority_script cmd thread at) (stable.ranks cmd thread at)

  pub forum_open_thread-Keeps :
      (cmd : ForumOpenThreadCommand) (now : String) → Keeps P (forum_open_thread cmd now)
  unfolding forum_open_thread
  forum_open_thread-Keeps cmd now =
      search
        (
          Keeps-bind, Keeps-if, forum_event_exists-Keeps, get_forum_thread-Keeps, open-Keeps,
          stats-Keeps, queue-Keeps,
        )
        depth 8

  pub forum_assign_thread-Keeps :
      (cmd : ForumAssignThreadCommand) (now : String) → Keeps P (forum_assign_thread cmd now)
  unfolding forum_assign_thread
  forum_assign_thread-Keeps cmd now =
      search
        (
          Keeps-bind, Keeps-if, forum_event_exists-Keeps, get_forum_thread-Keeps,
          require_thread-Keeps, assign-Keeps, queue-Keeps,
        )
        depth 9

  change_state-Keeps :
      (envelope : ForumEnvelope) (to : ThreadState) (close_event : Bool) (now : String)
      → Keeps P (change_state envelope to close_event now)
  unfolding change_state
  change_state-Keeps envelope to close_event now =
      search
        (
          Keeps-bind, Keeps-if, forum_event_exists-Keeps, get_forum_thread-Keeps,
          require_thread-Keeps, state-Keeps, stats-Keeps, queue-Keeps,
        )
        depth 10

  pub forum_change_state-Keeps :
      (cmd : ForumChangeStateCommand) (now : String) → Keeps P (forum_change_state cmd now)
  unfolding forum_change_state
  forum_change_state-Keeps cmd now = change_state-Keeps cmd.envelope cmd.to_state false now

  pub forum_close_thread-Keeps :
      (cmd : ForumCloseThreadCommand) (now : String) → Keeps P (forum_close_thread cmd now)
  unfolding forum_close_thread
  forum_close_thread-Keeps cmd now = change_state-Keeps cmd.envelope ThreadState.closed true now

  pub forum_set_priority-Keeps :
      (cmd : ForumSetPriorityCommand) (now : String) → Keeps P (forum_set_priority cmd now)
  unfolding forum_set_priority
  forum_set_priority-Keeps cmd now =
      search
        (
          Keeps-bind, Keeps-if, forum_event_exists-Keeps, get_forum_thread-Keeps,
          require_thread-Keeps, priority-Keeps, stats-Keeps, queue-Keeps,
        )
        depth 10

  found_view :
      (cmd : ForumAddPostCommand) (db : Tables) (v : ForumThreadView)
      → some v ≡ thread_view cmd.envelope.thread_id db
      → find view_key cmd.envelope.thread_id db.views ≢ none
  unfolding thread_view
  found_view cmd db v e missing = cc (e, missing)

  -- `ForumAddPost` after it has read its thread.
  post_found-Triple :
      (cmd : ForumAddPostCommand) (at : String) (found : Option ForumThreadView)
      → Triple
          (λ db. (P db × Admits cmd at db) × (found ≡ thread_view cmd.envelope.thread_id db))
          (do
            thread ← require_thread cmd.envelope.thread_id found
            exec (post_script cmd thread.row.thread at)
            refresh_forum_thread_queue_view cmd.envelope.thread_id
            get_forum_thread cmd.envelope.thread_id)
          (λ _. P)
          P
  post_found-Triple cmd at none =
      Triple-bind _ _ (λ _ _. ⊥) (λ _. P) (Triple-raise _ (λ _ _. ⊥) (λ t p. p.0.0))
        (λ a. record { at = λ w h. absurd h })
  post_found-Triple cmd at (some v) =
      Triple-bind _ _
        (λ _ db. (P db × Admits cmd at db) × (some v ≡ thread_view cmd.envelope.thread_id db))
        (λ _. P) (Triple-pure v _ (λ t p. p))
        (λ thread.
          Triple-bind (exec (post_script cmd thread.row.thread at)) _ (λ _. P) (λ _. P)
            (Triple-exec (post_script cmd thread.row.thread at) P
              (λ t t' p e.
                stable.posts cmd thread.row.thread at t t' p.0.0 p.0.1 (found_view cmd t v p.1) e)
              (λ t p. p.0.0))
            (λ _.
              Keeps-bind _ _ (queue-Keeps cmd.envelope.thread_id)
                (λ _. get_forum_thread-Keeps cmd.envelope.thread_id)))

  pub forum_add_post-Keeps :
      (cmd : ForumAddPostCommand) (now : String)
      → Triple
          (λ db. P db × Admits cmd (at_or_now cmd.envelope.occurred_at now) db)
          (forum_add_post cmd now)
          (λ _. P)
          P
  unfolding forum_add_post get_forum_thread
  forum_add_post-Keeps cmd now =
      Triple-bind _ _ (λ _ db. P db × Admits cmd (at_or_now cmd.envelope.occurred_at now) db)
        (λ _. P) (Triple-error _ P (forum_event_exists-Keeps cmd.envelope.event_id) (λ t p. p.0))
        (λ known.
          Triple-if known _ _ (λ _. P)
            (λ _. Triple-weaken _ P (λ _. P) (λ _. P) (Keeps-query _) (λ t p. p.0) (λ a t q. q))
            (λ _.
              Triple-bind _ _ _ (λ _. P) (Triple-query _ (λ t p. p.0))
                (λ found. post_found-Triple cmd (at_or_now cmd.envelope.occurred_at now) found)))

-- The commands of the six handlers of `registerForumBusHandlers`.
pub data ForumCommand : Type 0 where
  open_thread : ForumOpenThreadCommand → ForumCommand
  add_post : ForumAddPostCommand → ForumCommand
  assign_thread : ForumAssignThreadCommand → ForumCommand
  change_state_to : ForumChangeStateCommand → ForumCommand
  set_priority : ForumSetPriorityCommand → ForumCommand
  close_thread : ForumCloseThreadCommand → ForumCommand

unfoldable pub run_command : ForumCommand → String → M (Option ForumThreadView)
run_command (open_thread cmd) now = forum_open_thread cmd now
run_command (add_post cmd) now = forum_add_post cmd now
run_command (assign_thread cmd) now = forum_assign_thread cmd now
run_command (change_state_to cmd) now = forum_change_state cmd now
run_command (set_priority cmd) now = forum_set_priority cmd now
run_command (close_thread cmd) now = forum_close_thread cmd now

module _ (Admits : ForumAddPostCommand → String → Tables → Type 0) where
  -- What the command has to meet: a post is admitted, anything else is free.
  abbrev pub Admitted : ForumCommand → String → Tables → Type 0
  Admitted (add_post cmd) now db = Admits cmd (at_or_now cmd.envelope.occurred_at now) db
  Admitted _ now db = Unit

  -- The worlds that commands lead to. Each world says what sqlite3 will do.
  pub data History (w : World) : World → Type 0 where
    start : History w w
    next :
        {v : World} (command : ForumCommand) (now : String) (outcomes : List Outcome)
        → History w v
        → Admitted command now v.tables
        → History w (run_command command now (record v { outcomes = outcomes })).1

module _ {P : Tables → Type 0} {Admits : ForumAddPostCommand → String → Tables → Type 0}
    (stable : Stable P Admits) where
  pub run_command-P :
      (command : ForumCommand) (now : String) (w : World)
      → Admitted Admits command now w.tables
      → P w.tables
      → P (run_command command now w).1.tables
  unfolding run_command
  run_command-P (open_thread cmd) now w a h =
      Triple-either _ w (forum_open_thread-Keeps stable cmd now) h
  run_command-P (add_post cmd) now w a h =
      Triple-either _ w (forum_add_post-Keeps stable cmd now) (h, a)
  run_command-P (assign_thread cmd) now w a h =
      Triple-either _ w (forum_assign_thread-Keeps stable cmd now) h
  run_command-P (change_state_to cmd) now w a h =
      Triple-either _ w (forum_change_state-Keeps stable cmd now) h
  run_command-P (set_priority cmd) now w a h =
      Triple-either _ w (forum_set_priority-Keeps stable cmd now) h
  run_command-P (close_thread cmd) now w a h =
      Triple-either _ w (forum_close_thread-Keeps stable cmd now) h

  pub History-P : {w v : World} → P w.tables → History Admits w v → P v.tables
  History-P h start = h
  History-P h (next {v = v} command now outcomes past a) =
      run_command-P command now (record v { outcomes = outcomes }) a (History-P h past)
