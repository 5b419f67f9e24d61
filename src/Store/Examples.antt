-- ===== src/Store/Examples.antt =====
-- Concrete runs of the store.
use mathlib.Core.Option
use metawsm.Base.{ℕ, String, ◌≡◌, refl, true, string_eq, none, some, List, [], ◌∷◌}
use metawsm.Base.Text.{trim_space, text_ltb}
use metawsm.Base.Rows.{find, insert, update}
use metawsm.Model.Forum.{ThreadState, ForumOpenThreadCommand, ActorType, Priority, ForumEnvelope}
use metawsm.Model.Outbox.{ForumOutboxMessage, pending, processing, ForumOutboxStatus}
use metawsm.Store.Schema.{ViewRow, empty_tables, view_key, thread_key, outbox_key}
use metawsm.Store.Sql.{World, quiet, ◌>>=◌, busy, done, ok, exec, query, attempt, pure}
use metawsm.Store.Project.{project, posts_of, before}
use metawsm.Store.Queue.{rebuild_queue, last_event}
use metawsm.Store.Stats.{rebuild_stats}
use metawsm.Store.Scripts.{
  open_script, post_script, insert_post, insert_event, post_of, opened_thread, opened_view,
  event_of,
}
use metawsm.Store.Commands.{
  knows_event, thread_view, forum_open_thread, forum_add_post, forum_event_exists, get_forum_thread,
  refresh_forum_thread_stats, refresh_forum_thread_queue_view,
}
use metawsm.Store.Sql.Retry.{busies, world, exec_retries}
use metawsm.Store.Sql.{settle, failed}
use metawsm.Base.{arith}
use metawsm.Store.Outbox.{has_id}
use metawsm.Store.Opening.{IsFresh, open_shows_thread}
use metawsm.Store.Commands.{ForumThreadView}
use metawsm.Store.Stable.{ForumCommand, open_thread, add_post, run_command, History, start, next}
use metawsm.Store.Synced.History.{IsLatest, views_follow_posts}
use metawsm.Store.Replay.{facts_of, replay, views_replay_events}
use metawsm.Store.Outbox.Claims.{Distinct, run_claims, claimed_stays}

abbrev envelope : String → String → ForumEnvelope
envelope event_id at = record {
  event_id = event_id;
  event_type = "forum.thread.opened";
  event_version = 1;
  occurred_at = at;
  thread_id = "t1";
  run_id = "r1";
  ticket = "K-1";
  agent_name = "a";
  actor_type = ActorType.agent;
  actor_name = "a";
  correlation_id = "";
  causation_id = "";
}

abbrev opening : ForumCommand
opening = open_thread (record {
  envelope = envelope "e1" "1";
  title = "title";
  body = "body";
  priority = Priority.unset;
})

abbrev posting : ForumCommand
posting = add_post (record { envelope = envelope "e2" "2"; body = "more" })

abbrev empty_world : World
empty_world = quiet empty_tables 2

abbrev after_opening : World
after_opening = (run_command opening "9" (record empty_world { outcomes = busy ∷ done ∷ [] })).1

abbrev after_posting : World
after_posting = (run_command posting "9" (record after_opening { outcomes = [] })).1

latest : IsLatest (record { envelope = envelope "e2" "2"; body = "more" }) "2" after_opening.tables
unfolding run_command forum_open_thread forum_event_exists knows_event get_forum_thread exec query
    ◌>>=◌ pure attempt open_script insert_post insert_event insert find post_of opened_thread
    opened_view empty_tables refresh_forum_thread_stats refresh_forum_thread_queue_view
    rebuild_stats rebuild_queue trim_space posts_of before text_ltb thread_view
latest = (refl, tt)

past : History IsLatest empty_world after_posting
past = next posting "9" [] (next opening "9" (busy ∷ done ∷ []) start tt) latest

-- The thread has two posts, and the view shows them.
views_follow_posts_example :
    find view_key "t1" after_posting.tables.views
    ≡ Option.map
        (project after_posting.tables.posts)
        (find thread_key "t1" after_posting.tables.threads)
views_follow_posts_example = views_follow_posts refl past "t1"

views_replay_events_example :
    replay "t1" none after_posting.tables.events
    ≡ Option.map facts_of (find view_key "t1" after_posting.tables.views)
views_replay_events_example =
    views_replay_events {w = empty_world} refl
      (next posting "9" [] (next opening "9" (busy ∷ done ∷ []) start tt) tt) "t1"

two_posts :
    Option.map (λ (v : ViewRow). v.posts_count) (find view_key "t1" after_posting.tables.views)
    ≡ some 2
unfolding run_command forum_open_thread forum_event_exists knows_event get_forum_thread exec query
    ◌>>=◌ pure attempt open_script insert_post insert_event insert find post_of opened_thread
    opened_view empty_tables refresh_forum_thread_stats refresh_forum_thread_queue_view
    rebuild_stats rebuild_queue trim_space posts_of before text_ltb thread_view forum_add_post
    post_script event_of update last_event
two_posts = refl

abbrev message : ℕ → String → ForumOutboxStatus → ForumOutboxMessage
message id name status = record {
  id = id;
  message_id = name;
  topic = "topic";
  message_key = "t1";
  payload_json = "{}";
  status = status;
  attempt_count = 1;
  last_error = "";
  created_at = "1";
  updated_at = "m";
  sent_at = "";
}

abbrev messages : List ForumOutboxMessage
messages = message 1 "one" processing ∷ message 2 "two" pending ∷ []

messages-Distinct : Distinct messages
unfolding has_id
messages-Distinct = (refl, (refl, tt))

messages-find : find outbox_key "one" messages ≡ some (message 1 "one" processing)
unfolding find
messages-find = refl

claimed_stays_example :
    find outbox_key "one" (run_claims ((5, "p") ∷ (1, "q") ∷ []) messages)
    ≡ some (message 1 "one" processing)
claimed_stays_example =
    claimed_stays ((5, "p") ∷ (1, "q") ∷ []) "one" messages (message 1 "one" processing)
      messages-Distinct messages-find refl

abbrev opening_command : ForumOpenThreadCommand
opening_command = record {
  envelope = envelope "e1" "1";
  title = "title";
  body = "body";
  priority = Priority.unset;
}

opening-IsFresh : IsFresh opening_command empty_tables
unfolding find empty_tables
opening-IsFresh = record {
  no_thread = refl;
  no_view = refl;
  no_event = refl;
  no_post = refl;
  no_post_event = refl;
}

open_shows_thread_example :
    let after = forum_open_thread opening_command "9" (quiet empty_tables 0) in
    (v : ForumThreadView) × (after.0 ≡ ok (some v))
    × (find view_key "t1" after.1.tables.views ≡ some v.row)
    × (v.row.thread.thread_id ≡ "t1")
    × (v.row.thread.ticket ≡ "K-1")
    × (v.row.thread.run_id ≡ "r1")
    × (v.row.thread.title ≡ opening_command.title)
    × (v.row.thread.state ≡ ThreadState.new)
    × (v.row.thread.assignee_type ≡ ActorType.unset)
    × (v.row.thread.assignee_name ≡ "")
    × (v.row.posts_count ≡ 1)
    × (v.row.last_post_by_type ≡ ActorType.agent)
    × (v.row.last_post_by_name ≡ "a")
unfolding trim_space
open_shows_thread_example =
    open_shows_thread opening_command "9" empty_tables 0 refl refl refl opening-IsFresh

exec_retries_example :
    exec (λ db. some db) (world empty_tables (busies 2 (done ∷ failed ∷ [])) 3)
    ≡ settle true (some empty_tables) (world empty_tables (failed ∷ []) 3)
exec_retries_example = exec_retries (λ db. some db) empty_tables 3 2 (failed ∷ []) (omega arith)
