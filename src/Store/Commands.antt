-- ===== src/Store/Commands.antt =====
-- The forum commands of internal/store/sqlite_forum.go. `now` is the reading of the clock.
use mathlib.Core.Option
use metawsm.Base.{ℕ, String, Bool, true, false, Option, none, some, ◌==◌, string_eq, if◌then◌else◌}
use metawsm.Base.Text.{trim_space}
use metawsm.Base.Rows.{find}
use metawsm.Model.Forum.{
  ActorType, ThreadState, ForumEnvelope, ForumOpenThreadCommand, ForumAddPostCommand,
  ForumAssignThreadCommand, ForumChangeStateCommand, ForumSetPriorityCommand,
  ForumCloseThreadCommand,
}
use metawsm.Store.Schema.{ViewRow, QueueRow, Tables, event_key, view_key, queue_key}
use metawsm.Store.Sql.{required, not_found, M, pure, raise, ◌>>=◌, ◌>>◌, exec, query}
use metawsm.Store.Project.{rebuild_view}
use metawsm.Store.Queue.{rebuild_queue}
use metawsm.Store.Stats.{rebuild_stats}
use metawsm.Store.Scripts.{
  at_or_now, open_script, post_script, assign_script, state_script, priority_script,
}

-- `model.ForumThreadView`, as `parseForumThreadView` fills it
pub record ForumThreadView : Type 0 where
  pub row : ViewRow
  pub last_event_sequence : ℕ
  pub last_actor_type : ActorType
  pub is_unseen : Bool
  pub is_unanswered : Bool

-- The LEFT JOIN of `GetForumThread`: the columns of a missing queue row read as 0 and ''.
abbrev pub join_queue : Option QueueRow → ViewRow → ForumThreadView
join_queue none v = record {
  row = v;
  last_event_sequence = 0;
  last_actor_type = ActorType.unset;
  is_unseen = false;
  is_unanswered = false;
}
join_queue (some q) v = record {
  row = v;
  last_event_sequence = q.last_event_sequence;
  last_actor_type = q.last_non_system_actor_type;
  is_unseen = false;
  is_unanswered = false;
}

unfoldable pub thread_view : String → Tables → Option ForumThreadView
thread_view tid db =
    Option.map (join_queue (find queue_key tid db.queue)) (find view_key tid db.views)

unfoldable pub get_forum_thread : String → M (Option ForumThreadView)
get_forum_thread tid = query (thread_view tid)

abbrev pub is_some : {A : Type 0} → Option A → Bool
is_some none = false
is_some (some _) = true

unfoldable pub knows_event : String → Tables → Bool
knows_event event_id db = is_some (find event_key event_id db.events)

unfoldable pub forum_event_exists : String → M Bool
forum_event_exists event_id =
    if trim_space event_id == "" then raise (required "event_id") else query (knows_event event_id)

unfoldable pub refresh_forum_thread_stats : String → String → M (Unit {0})
refresh_forum_thread_stats ticket now = exec (λ db. some (rebuild_stats ticket now db))

unfoldable pub refresh_forum_thread_queue_view : String → M (Unit {0})
refresh_forum_thread_queue_view tid =
    if trim_space tid == ""
    then raise (required "thread_id")
    else exec (λ db. some (rebuild_queue (trim_space tid) db))

unfoldable pub refresh_forum_thread_view : String → M (Unit {0})
refresh_forum_thread_view tid =
    if trim_space tid == ""
    then raise (required "thread_id")
    else exec (λ db. some (rebuild_view (trim_space tid) db))

unfoldable pub forum_open_thread : ForumOpenThreadCommand → String → M (Option ForumThreadView)
forum_open_thread cmd now = do
  known ← forum_event_exists cmd.envelope.event_id
  if known then get_forum_thread cmd.envelope.thread_id else do
    exec (open_script cmd (at_or_now cmd.envelope.occurred_at now))
    refresh_forum_thread_stats cmd.envelope.ticket now
    refresh_forum_thread_queue_view cmd.envelope.thread_id
    get_forum_thread cmd.envelope.thread_id

-- `thread == nil` is an error.
abbrev pub require_thread : String → Option ForumThreadView → M ForumThreadView
require_thread tid none = raise (not_found tid)
require_thread tid (some v) = pure v

unfoldable pub forum_add_post : ForumAddPostCommand → String → M (Option ForumThreadView)
forum_add_post cmd now = do
  known ← forum_event_exists cmd.envelope.event_id
  if known then get_forum_thread cmd.envelope.thread_id else do
    found ← get_forum_thread cmd.envelope.thread_id
    thread ← require_thread cmd.envelope.thread_id found
    exec (post_script cmd thread.row.thread (at_or_now cmd.envelope.occurred_at now))
    refresh_forum_thread_queue_view cmd.envelope.thread_id
    get_forum_thread cmd.envelope.thread_id

unfoldable pub forum_assign_thread : ForumAssignThreadCommand → String → M (Option ForumThreadView)
forum_assign_thread cmd now = do
  known ← forum_event_exists cmd.envelope.event_id
  if known then get_forum_thread cmd.envelope.thread_id else do
    found ← get_forum_thread cmd.envelope.thread_id
    thread ← require_thread cmd.envelope.thread_id found
    exec (assign_script cmd thread.row.thread (at_or_now cmd.envelope.occurred_at now))
    refresh_forum_thread_queue_view cmd.envelope.thread_id
    get_forum_thread cmd.envelope.thread_id

abbrev pub state_event_type : ForumEnvelope → Bool → String
state_event_type envelope true = "forum.thread.closed"
state_event_type envelope false =
    if trim_space envelope.event_type == "" then "forum.state.changed" else envelope.event_type

unfoldable pub change_state :
    ForumEnvelope → ThreadState → Bool → String → M (Option ForumThreadView)
change_state envelope to close_event now = do
  known ← forum_event_exists envelope.event_id
  if known then get_forum_thread envelope.thread_id else do
    found ← get_forum_thread envelope.thread_id
    thread ← require_thread envelope.thread_id found
    exec (
        state_script envelope (state_event_type envelope close_event) to thread.row.thread
          (at_or_now envelope.occurred_at now))
    refresh_forum_thread_stats thread.row.thread.ticket now
    refresh_forum_thread_queue_view envelope.thread_id
    get_forum_thread envelope.thread_id

unfoldable pub forum_change_state : ForumChangeStateCommand → String → M (Option ForumThreadView)
unfolding change_state
forum_change_state cmd now = change_state cmd.envelope cmd.to_state false now

unfoldable pub forum_close_thread : ForumCloseThreadCommand → String → M (Option ForumThreadView)
unfolding change_state
forum_close_thread cmd now = change_state cmd.envelope ThreadState.closed true now

unfoldable pub forum_set_priority : ForumSetPriorityCommand → String → M (Option ForumThreadView)
forum_set_priority cmd now = do
  known ← forum_event_exists cmd.envelope.event_id
  if known then get_forum_thread cmd.envelope.thread_id else do
    found ← get_forum_thread cmd.envelope.thread_id
    thread ← require_thread cmd.envelope.thread_id found
    exec (priority_script cmd thread.row.thread (at_or_now cmd.envelope.occurred_at now))
    refresh_forum_thread_stats thread.row.thread.ticket now
    refresh_forum_thread_queue_view cmd.envelope.thread_id
    get_forum_thread cmd.envelope.thread_id
