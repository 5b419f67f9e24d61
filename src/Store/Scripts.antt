-- ===== src/Store/Scripts.antt =====
-- The transactions of the forum commands (internal/store/sqlite_forum.go): `none` is a broken
-- constraint, which rolls the whole script back.
pub mod After
use mathlib.Core.Option
use metawsm.Base.{ℕ, ◌+◌, String, Option, none, some, List, ◌∷◌, ◌==◌, string_eq, if◌then◌else◌}
use metawsm.Base.Text.{concat}
use metawsm.Base.Maybe.{◌>>=◌}
use metawsm.Base.Rows.{find, insert, update}
use metawsm.Model.Forum.{
  ActorType, ThreadState, Priority, ForumEnvelope, ForumOpenThreadCommand, ForumAddPostCommand,
  ForumAssignThreadCommand, ForumSetPriorityCommand, state_eq, priority_eq,
}
use metawsm.Store.Schema.{
  ThreadRow, PostRow, EventRow, AssignmentRow, TransitionRow, ViewRow, Payload, opened, posted,
  assigned, state_changed, priority_changed, Tables, thread_key, post_key, post_event, event_key,
  assignment_event, transition_event, view_key,
}

-- INSERT INTO forum_posts, with its two unique columns
unfoldable pub insert_post : PostRow → List PostRow → Option (List PostRow)
insert_post p ps = elim (find post_event p.event_id ps) [
  | none ↦ insert post_key p ps
  | some _ ↦ none
]

-- INSERT INTO forum_events
unfoldable pub insert_event : ForumEnvelope → Payload → Tables → Option Tables
insert_event envelope payload db =
    Option.map (λ rows. record db { events = rows; last_sequence = db.last_sequence + 1 })
      (insert event_key
        (record { sequence = db.last_sequence + 1; envelope = envelope; payload = payload })
        db.events)

-- UPDATE of the columns that forum_threads and forum_thread_views share
unfoldable pub update_thread : String → (ThreadRow → ThreadRow) → Tables → Tables
update_thread tid f db = record db {
  threads = update thread_key tid f db.threads;
  views = update view_key tid (λ v. record v { thread = f v.thread }) db.views;
}

-- `OccurredAt`, or the clock where it is the zero time
abbrev pub at_or_now : String → String → String
at_or_now at now = if at == "" then now else at

abbrev pub post_id_of : String → String
post_id_of event_id = concat event_id ".post"

unfoldable pub post_of : ForumEnvelope → String → String → PostRow
post_of envelope body at = record {
  post_id = post_id_of envelope.event_id;
  thread_id = envelope.thread_id;
  event_id = envelope.event_id;
  author_type = envelope.actor_type;
  author_name = envelope.actor_name;
  body_text = body;
  created_at = at;
}

abbrev pub or_normal : Priority → Priority
or_normal Priority.unset = Priority.normal
or_normal p = p

unfoldable pub opened_thread : ForumOpenThreadCommand → String → ThreadRow
opened_thread cmd at = record {
  thread_id = cmd.envelope.thread_id;
  ticket = cmd.envelope.ticket;
  run_id = cmd.envelope.run_id;
  agent_name = cmd.envelope.agent_name;
  title = cmd.title;
  state = ThreadState.new;
  priority = or_normal cmd.priority;
  assignee_type = ActorType.unset;
  assignee_name = "";
  opened_by_type = cmd.envelope.actor_type;
  opened_by_name = cmd.envelope.actor_name;
  opened_at = at;
  updated_at = at;
  closed_at = "";
}

unfoldable pub opened_view : ForumOpenThreadCommand → String → ViewRow
unfolding opened_thread
opened_view cmd at = record {
  thread = opened_thread cmd at;
  posts_count = 1;
  last_post_at = at;
  last_post_by_type = cmd.envelope.actor_type;
  last_post_by_name = cmd.envelope.actor_name;
}

-- `ForumOpenThread`
unfoldable pub open_script : ForumOpenThreadCommand → String → Tables → Option Tables
open_script cmd at db = do
  threads ← insert thread_key (opened_thread cmd at) db.threads
  posts ← insert_post (post_of cmd.envelope cmd.body at) db.posts
  logged ←
      insert_event (record cmd.envelope { occurred_at = at })
        (opened cmd.title cmd.body (or_normal cmd.priority))
        (record db { threads = threads; posts = posts })
  views ← insert view_key (opened_view cmd at) logged.views
  some (record logged { views = views })

-- The columns of a later event, of which some come from the thread's row.
unfoldable pub event_of : ForumEnvelope → String → String → ThreadRow → String → ForumEnvelope
event_of envelope event_type run_id thread at = record envelope {
  event_type = event_type;
  occurred_at = at;
  run_id = run_id;
  ticket = thread.ticket;
  agent_name = thread.agent_name;
}

abbrev pub touch : String → ThreadRow → ThreadRow
touch at t = record t { updated_at = at }

abbrev pub count_post : PostRow → ViewRow → ViewRow
count_post p v = record {
  thread = touch p.created_at v.thread;
  posts_count = v.posts_count + 1;
  last_post_at = p.created_at;
  last_post_by_type = p.author_type;
  last_post_by_name = p.author_name;
}

-- `ForumAddPost`
unfoldable pub post_script : ForumAddPostCommand → ThreadRow → String → Tables → Option Tables
post_script cmd thread at db = do
  posts ← insert_post (post_of cmd.envelope cmd.body at) db.posts
  logged ←
      insert_event (event_of cmd.envelope cmd.envelope.event_type cmd.envelope.run_id thread at)
        (posted cmd.body) (record db { posts = posts })
  some (record logged {
    threads = update thread_key cmd.envelope.thread_id (touch at) logged.threads;
    views =
        update view_key cmd.envelope.thread_id (count_post (post_of cmd.envelope cmd.body at))
          logged.views;
  })

abbrev pub assign : ActorType → String → String → ThreadRow → ThreadRow
assign type name at t = record t { assignee_type = type; assignee_name = name; updated_at = at }

-- `ForumAssignThread`
unfoldable pub assign_script :
    ForumAssignThreadCommand → ThreadRow → String → Tables → Option Tables
assign_script cmd thread at db = do
  rows ←
      insert assignment_event
        (record {
          thread_id = cmd.envelope.thread_id;
          event_id = cmd.envelope.event_id;
          from_assignee_type = thread.assignee_type;
          from_assignee_name = thread.assignee_name;
          to_assignee_type = cmd.assignee_type;
          to_assignee_name = cmd.assignee_name;
          changed_by_type = cmd.envelope.actor_type;
          changed_by_name = cmd.envelope.actor_name;
          changed_at = at;
        })
        db.assignments
  logged ←
      insert_event (event_of cmd.envelope cmd.envelope.event_type thread.run_id thread at)
        (assigned thread.assignee_type thread.assignee_name cmd.assignee_type cmd.assignee_name
          cmd.assignment_note)
        (record db { assignments = rows })
  some (update_thread cmd.envelope.thread_id (assign cmd.assignee_type cmd.assignee_name at) logged)

abbrev pub closed_at_of : ThreadState → String → String
closed_at_of ThreadState.closed at = at
closed_at_of _ at = ""

abbrev pub move : ThreadState → String → ThreadRow → ThreadRow
move to at t = record t { state = to; updated_at = at; closed_at = closed_at_of to at }

-- `forumChangeState`
unfoldable pub state_script :
    ForumEnvelope → String → ThreadState → ThreadRow → String → Tables → Option Tables
state_script envelope event_type to thread at db = do
  rows ←
      insert transition_event
        (record {
          thread_id = envelope.thread_id;
          event_id = envelope.event_id;
          from_state = thread.state;
          to_state = to;
          changed_by_type = envelope.actor_type;
          changed_by_name = envelope.actor_name;
          changed_at = at;
        })
        db.transitions
  logged ←
      insert_event (event_of envelope event_type thread.run_id thread at)
        (state_changed thread.state to) (record db { transitions = rows })
  some (update_thread envelope.thread_id (move to at) logged)

abbrev pub prioritise : Priority → String → ThreadRow → ThreadRow
prioritise p at t = record t { priority = p; updated_at = at }

-- `ForumSetPriority`
unfoldable pub priority_script :
    ForumSetPriorityCommand → ThreadRow → String → Tables → Option Tables
priority_script cmd thread at db = do
  logged ←
      insert_event (event_of cmd.envelope cmd.envelope.event_type thread.run_id thread at)
        (priority_changed thread.priority cmd.priority) db
  some (update_thread cmd.envelope.thread_id (prioritise cmd.priority at) logged)
