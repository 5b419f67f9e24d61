-- ===== src/Store/Reads/Examples.antt =====
-- A viewer marks a thread as seen, and an event is projected.
use metawsm.Base.{◌≡◌, ◌≤◌, refl, true, false, some, [], ◌∷◌, string_eq}
use metawsm.Base.Text.{IsName, trim_space}
use metawsm.Base.Rows.{find}
use metawsm.Model.Forum.{ActorType, ThreadState, Priority, ViewerType, ForumEnvelope}
use metawsm.Store.Schema.{ThreadRow, ViewRow, QueueRow, Tables, empty_tables, view_key, queue_key}
use metawsm.Store.Sql.{ok, failed, quiet}
use metawsm.Store.Queue.{is_unseen, seen_or_zero}
use metawsm.Store.Reads.{find_read, mark_forum_thread_seen, apply_forum_event_projections}
use metawsm.Store.Reads.Facts.{seen_never_falls, seen_thread_leaves_unseen_queue}
use metawsm.Store.Reads.Projections.{projecting_twice}

abbrev thread : ThreadRow
thread = record {
  thread_id = "t";
  ticket = "K-1";
  run_id = "r";
  agent_name = "a";
  title = "title";
  state = ThreadState.new;
  priority = Priority.normal;
  assignee_type = ActorType.unset;
  assignee_name = "";
  opened_by_type = ActorType.agent;
  opened_by_name = "a";
  opened_at = "1";
  updated_at = "1";
  closed_at = "";
}

abbrev view : ViewRow
view = record {
  thread = thread;
  posts_count = 0;
  last_post_at = "";
  last_post_by_type = ActorType.unset;
  last_post_by_name = "";
}

abbrev queued : QueueRow
queued = record {
  thread_id = "t";
  ticket = "K-1";
  run_id = "r";
  state = ThreadState.new;
  priority = Priority.normal;
  assignee_name = "";
  last_event_sequence = 4;
  last_actor_type = ActorType.agent;
  last_non_system_actor_type = ActorType.agent;
  last_human_or_operator_sequence = 0;
  last_agent_sequence = 4;
  updated_at = "1";
}

abbrev tables : Tables
tables = record empty_tables { threads = thread ∷ []; views = view ∷ []; queue = queued ∷ [] }

view_there : find view_key "t" tables.views ≡ some view
unfolding find
view_there = refl

queue_there : find queue_key "t" tables.queue ≡ some queued
unfolding find
queue_there = refl

seen_never_falls_example :
    seen_or_zero (find_read "t" ViewerType.human "me" tables.reads)
    ≤ seen_or_zero (
        find_read "t" ViewerType.human "me"
          (mark_forum_thread_seen "t" ViewerType.human "me" 2 "5"
            (record (quiet tables 0) { outcomes = failed ∷ [] })).1.tables.reads)
seen_never_falls_example =
    seen_never_falls "t" ViewerType.human "me" 2 "5"
      (record (quiet tables 0) { outcomes = failed ∷ [] }) "t" ViewerType.human "me"

seen_thread_leaves_unseen_queue_example :
    let after =
      (mark_forum_thread_seen "t" ViewerType.human "me" 0 "5" (quiet tables 1)).1.tables in
    is_unseen (find queue_key "t" after.queue) (find_read "t" ViewerType.human "me" after.reads)
    ≡ false
unfolding trim_space
seen_thread_leaves_unseen_queue_example =
    seen_thread_leaves_unseen_queue "t" ViewerType.human "me" "5" tables 1 view queued refl refl
      refl refl view_there queue_there

was_unseen :
    is_unseen (find queue_key "t" tables.queue) (find_read "t" ViewerType.human "me" tables.reads)
    ≡ true
unfolding is_unseen find find_read empty_tables
was_unseen = refl

abbrev event : ForumEnvelope
event = record {
  event_id = "e";
  event_type = "forum.thread.opened";
  event_version = 1;
  occurred_at = "1";
  thread_id = "t";
  run_id = "r";
  ticket = "K-1";
  agent_name = "a";
  actor_type = ActorType.agent;
  actor_name = "a";
  correlation_id = "";
  causation_id = "";
}

event-IsName : IsName "e"
unfolding trim_space
event-IsName = (refl, refl)

thread-IsName : IsName "t"
unfolding trim_space
thread-IsName = (refl, refl)

ticket-IsName : IsName "K-1"
unfolding trim_space
ticket-IsName = (refl, refl)

projecting_twice_example :
    let first = apply_forum_event_projections event "5" (quiet tables 0) in
    (first.0 ≡ ok tt) × (apply_forum_event_projections event "6" first.1 ≡ (ok tt, first.1))
projecting_twice_example =
    projecting_twice event "5" "6" tables 0 event-IsName thread-IsName ticket-IsName
