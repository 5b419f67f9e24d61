-- ===== src/Store/Scripts/After.antt =====
-- The tables that a committed script leaves (internal/store/sqlite_forum.go).
use metawsm.Base.{◌+◌, String, ◌≡◌, none, some, [], ◌∷◌, ◌++◌, arith}
use metawsm.Base.Rows.{find, insert, update}
use metawsm.Model.Forum.{
  ThreadState, ForumEnvelope, ForumOpenThreadCommand, ForumAddPostCommand, ForumAssignThreadCommand,
  ForumSetPriorityCommand,
}
use metawsm.Store.Schema.{
  ThreadRow, Payload, opened, posted, assigned, state_changed, priority_changed, Tables, thread_key,
  event_key, view_key,
}
use metawsm.Store.Scripts.{
  insert_post, insert_event, update_thread, post_of, or_normal, opened_thread, opened_view,
  event_of, touch, count_post, assign, move, prioritise, open_script, post_script, assign_script,
  state_script, priority_script,
}

-- One more event at the end of the log.
abbrev pub log_event : ForumEnvelope → Payload → Tables → Tables
log_event envelope payload db = record db {
  events =
      db.events
      ++ record { sequence = db.last_sequence + 1; envelope = envelope; payload = payload } ∷ [];
  last_sequence = db.last_sequence + 1;
}

abbrev pub after_open : ForumOpenThreadCommand → String → Tables → Tables
after_open cmd at db =
    log_event (record cmd.envelope { occurred_at = at })
      (opened cmd.title cmd.body (or_normal cmd.priority))
      (record db {
        threads = db.threads ++ opened_thread cmd at ∷ [];
        posts = db.posts ++ post_of cmd.envelope cmd.body at ∷ [];
        views = db.views ++ opened_view cmd at ∷ [];
      })

pub open_script-eq-some :
    (cmd : ForumOpenThreadCommand) (at : String) (db : Tables) {db' : Tables}
    → open_script cmd at db ≡ some db'
    → (db' ≡ after_open cmd at db)
      × (find thread_key cmd.envelope.thread_id db.threads ≡ none)
      × (find view_key cmd.envelope.thread_id db.views ≡ none)
      × (find event_key cmd.envelope.event_id db.events ≡ none)
unfolding open_script insert insert_post insert_event opened_thread opened_view
open_script-eq-some cmd at db h = ground arith

abbrev pub after_post : ForumAddPostCommand → ThreadRow → String → Tables → Tables
after_post cmd thread at db =
    let p = post_of cmd.envelope cmd.body at in
    log_event (event_of cmd.envelope cmd.envelope.event_type cmd.envelope.run_id thread at)
      (posted cmd.body)
      (record db {
        posts = db.posts ++ p ∷ [];
        threads = update thread_key cmd.envelope.thread_id (touch at) db.threads;
        views = update view_key cmd.envelope.thread_id (count_post p) db.views;
      })

pub post_script-eq-some :
    (cmd : ForumAddPostCommand) (thread : ThreadRow) (at : String) (db : Tables) {db' : Tables}
    → post_script cmd thread at db ≡ some db'
    → (db' ≡ after_post cmd thread at db) × (find event_key cmd.envelope.event_id db.events ≡ none)
unfolding post_script insert insert_post insert_event event_of
post_script-eq-some cmd thread at db h = ground arith

abbrev pub after_assign : ForumAssignThreadCommand → ThreadRow → String → Tables → Tables
after_assign cmd thread at db =
    log_event (event_of cmd.envelope cmd.envelope.event_type thread.run_id thread at)
      (assigned thread.assignee_type thread.assignee_name cmd.assignee_type cmd.assignee_name
        cmd.assignment_note)
      (update_thread cmd.envelope.thread_id (assign cmd.assignee_type cmd.assignee_name at)
        (record db {
          assignments =
              db.assignments
              ++ record {
                thread_id = cmd.envelope.thread_id;
                event_id = cmd.envelope.event_id;
                from_assignee_type = thread.assignee_type;
                from_assignee_name = thread.assignee_name;
                to_assignee_type = cmd.assignee_type;
                to_assignee_name = cmd.assignee_name;
                changed_by_type = cmd.envelope.actor_type;
                changed_by_name = cmd.envelope.actor_name;
                changed_at = at;
              }
                ∷ [];
        }))

pub assign_script-eq-some :
    (cmd : ForumAssignThreadCommand) (thread : ThreadRow) (at : String) (db : Tables) {db' : Tables}
    → assign_script cmd thread at db ≡ some db'
    → (db' ≡ after_assign cmd thread at db)
      × (find event_key cmd.envelope.event_id db.events ≡ none)
unfolding assign_script insert insert_event event_of update_thread
assign_script-eq-some cmd thread at db h = ground arith

abbrev pub after_state : ForumEnvelope → String → ThreadState → ThreadRow → String → Tables → Tables
after_state envelope event_type to thread at db =
    log_event (event_of envelope event_type thread.run_id thread at) (state_changed thread.state to)
      (update_thread envelope.thread_id (move to at) (record db {
        transitions =
            db.transitions
            ++ record {
              thread_id = envelope.thread_id;
              event_id = envelope.event_id;
              from_state = thread.state;
              to_state = to;
              changed_by_type = envelope.actor_type;
              changed_by_name = envelope.actor_name;
              changed_at = at;
            }
              ∷ [];
      }))

pub state_script-eq-some :
    (envelope : ForumEnvelope) (event_type : String) (to : ThreadState) (thread : ThreadRow)
    (at : String) (db : Tables) {db' : Tables}
    → state_script envelope event_type to thread at db ≡ some db'
    → (db' ≡ after_state envelope event_type to thread at db)
      × (find event_key envelope.event_id db.events ≡ none)
unfolding state_script insert insert_event event_of update_thread
state_script-eq-some envelope event_type to thread at db h = ground arith

abbrev pub after_priority : ForumSetPriorityCommand → ThreadRow → String → Tables → Tables
after_priority cmd thread at db =
    log_event (event_of cmd.envelope cmd.envelope.event_type thread.run_id thread at)
      (priority_changed thread.priority cmd.priority)
      (update_thread cmd.envelope.thread_id (prioritise cmd.priority at) db)

pub priority_script-eq-some :
    (cmd : ForumSetPriorityCommand) (thread : ThreadRow) (at : String) (db : Tables) {db' : Tables}
    → priority_script cmd thread at db ≡ some db'
    → (db' ≡ after_priority cmd thread at db)
      × (find event_key cmd.envelope.event_id db.events ≡ none)
unfolding priority_script insert_event insert event_of update_thread
priority_script-eq-some cmd thread at db h = ground arith
