-- ===== src/Store/Queue.antt =====
-- The SELECT of `refreshForumThreadQueueView`, and the queue predicates of `ListForumQueue`
-- (internal/store/sqlite_forum.go).
use metawsm.Base.{
  ℕ, String, Bool, true, false, ◌&&◌, Option, none, some, List, [], ◌∷◌, ltb, ◌==◌, ◌≡◌, arith,
  string_eq, if◌then◌else◌,
}
use metawsm.Base.Rows.{find, upsert}
use metawsm.Model.Forum.{ActorType, ThreadState}
use metawsm.Store.Schema.{ThreadRow, EventRow, QueueRow, ReadRow, Tables, thread_key, queue_key}

-- actor_type IN ('human', 'operator')
abbrev pub is_human_or_operator : ActorType → Bool
is_human_or_operator ActorType.human = true
is_human_or_operator ActorType.operator = true
is_human_or_operator _ = false

abbrev pub is_agent : ActorType → Bool
is_agent ActorType.agent = true
is_agent _ = false

abbrev pub is_anyone : ActorType → Bool
is_anyone _ = true

abbrev pub is_not_system : ActorType → Bool
is_not_system ActorType.system = false
is_not_system _ = true

abbrev pub higher : EventRow → Option EventRow → Option EventRow
higher e none = some e
higher e (some f) = if ltb e.sequence f.sequence then some f else some e

-- The event of the thread with the highest sequence among those whose actor passes the test.
unfoldable pub last_event : String → (ActorType → Bool) → List EventRow → Option EventRow
last_event tid test [] = none
last_event tid test (e ∷ es) =
    let rest = last_event tid test es in
    if e.envelope.thread_id == tid && test e.envelope.actor_type then higher e rest else rest

abbrev pub sequence_or_zero : Option EventRow → ℕ
sequence_or_zero none = 0
sequence_or_zero (some e) = e.sequence

abbrev pub actor_or_unset : Option EventRow → ActorType
actor_or_unset none = ActorType.unset
actor_or_unset (some e) = e.envelope.actor_type

unfoldable pub queue_row : List EventRow → ThreadRow → QueueRow
queue_row events t = record {
  thread_id = t.thread_id;
  ticket = t.ticket;
  run_id = t.run_id;
  state = t.state;
  priority = t.priority;
  assignee_name = t.assignee_name;
  last_event_sequence = sequence_or_zero (last_event t.thread_id is_anyone events);
  last_actor_type = actor_or_unset (last_event t.thread_id is_anyone events);
  last_non_system_actor_type = actor_or_unset (last_event t.thread_id is_not_system events);
  last_human_or_operator_sequence =
      sequence_or_zero (last_event t.thread_id is_human_or_operator events);
  last_agent_sequence = sequence_or_zero (last_event t.thread_id is_agent events);
  updated_at = t.updated_at;
}

abbrev pub upsert_queue : Option ThreadRow → Tables → Tables
upsert_queue none db = db
upsert_queue (some t) db = record db { queue = upsert queue_key (queue_row db.events t) db.queue }

-- The statement of `refreshForumThreadQueueView`.
unfoldable pub rebuild_queue : String → Tables → Tables
rebuild_queue tid db = upsert_queue (find thread_key tid db.threads) db

-- state IN ('new', 'waiting_human', 'waiting_operator')
abbrev pub is_open_question : ThreadState → Bool
is_open_question ThreadState.new = true
is_open_question ThreadState.waiting_human = true
is_open_question ThreadState.waiting_operator = true
is_open_question _ = false

-- The clauses of the unanswered queue. The columns of a missing queue row read as 0 and ''.
unfoldable pub is_unanswered : ThreadState → Option QueueRow → Bool
is_unanswered s none = false
is_unanswered s (some q) =
    is_open_question s
    && ltb q.last_human_or_operator_sequence q.last_agent_sequence
    && is_agent q.last_non_system_actor_type

abbrev pub seen_or_zero : Option ReadRow → ℕ
seen_or_zero none = 0
seen_or_zero (some r) = r.last_seen_event_sequence

-- The clause of the unseen queue.
unfoldable pub is_unseen : Option QueueRow → Option ReadRow → Bool
is_unseen none r = false
is_unseen (some q) r = ltb (seen_or_zero r) q.last_event_sequence

-- The statement writes no other table.
pub rebuild_queue-only :
    (tid : String) (db : Tables)
    → rebuild_queue tid db ≡ record db { queue = (rebuild_queue tid db).queue }
unfolding rebuild_queue
rebuild_queue-only tid db = ground arith
