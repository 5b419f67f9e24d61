-- ===== src/Store/Schema.antt =====
-- The tables of `Init` in internal/store/sqlite.go, each a list of rows in the order of insertion. The columns of forum_threads stand in forum_thread_views too: there they are one field.
use metawsm.Base.{ℕ, String, List, []}
use metawsm.Model.Plan.{RunTables}
use metawsm.Model.Outbox.{ForumOutboxMessage}
use metawsm.Model.Forum.{ActorType, ThreadState, Priority, ViewerType, ForumEnvelope}

pub record ThreadRow : Type 0 where
  pub thread_id : String
  pub ticket : String
  pub run_id : String
  pub agent_name : String
  pub title : String
  pub state : ThreadState
  pub priority : Priority
  pub assignee_type : ActorType
  pub assignee_name : String
  pub opened_by_type : ActorType
  pub opened_by_name : String
  pub opened_at : String
  pub updated_at : String
  pub closed_at : String

pub record PostRow : Type 0 where
  pub post_id : String
  pub thread_id : String
  pub event_id : String
  pub author_type : ActorType
  pub author_name : String
  pub body_text : String
  pub created_at : String

-- The value that payload_json holds, before `json.Marshal`.
pub data Payload : Type 0 where
  opened : String → String → Priority → Payload
  posted : String → Payload
  assigned : ActorType → String → ActorType → String → String → Payload
  state_changed : ThreadState → ThreadState → Payload
  priority_changed : Priority → Priority → Payload
  integration : List (String × String) → Payload

-- forum_events, and `model.ForumEvent`
pub record EventRow : Type 0 where
  pub sequence : ℕ
  pub envelope : ForumEnvelope
  pub payload : Payload

pub record AssignmentRow : Type 0 where
  pub thread_id : String
  pub event_id : String
  pub from_assignee_type : ActorType
  pub from_assignee_name : String
  pub to_assignee_type : ActorType
  pub to_assignee_name : String
  pub changed_by_type : ActorType
  pub changed_by_name : String
  pub changed_at : String

pub record TransitionRow : Type 0 where
  pub thread_id : String
  pub event_id : String
  pub from_state : ThreadState
  pub to_state : ThreadState
  pub changed_by_type : ActorType
  pub changed_by_name : String
  pub changed_at : String

pub record ViewRow : Type 0 where
  pub thread : ThreadRow
  pub posts_count : ℕ
  pub last_post_at : String
  pub last_post_by_type : ActorType
  pub last_post_by_name : String

pub record QueueRow : Type 0 where
  pub thread_id : String
  pub ticket : String
  pub run_id : String
  pub state : ThreadState
  pub priority : Priority
  pub assignee_name : String
  pub last_event_sequence : ℕ
  pub last_actor_type : ActorType
  pub last_non_system_actor_type : ActorType
  pub last_human_or_operator_sequence : ℕ
  pub last_agent_sequence : ℕ
  pub updated_at : String

pub record StatsRow : Type 0 where
  pub ticket : String
  pub run_id : String
  pub state : ThreadState
  pub priority : Priority
  pub thread_count : ℕ
  pub updated_at : String

pub record ReadRow : Type 0 where
  pub thread_id : String
  pub viewer_type : ViewerType
  pub viewer_id : String
  pub last_seen_event_sequence : ℕ
  pub updated_at : String

pub record Tables : Type 0 where
  pub threads : List ThreadRow
  pub posts : List PostRow
  pub events : List EventRow
  pub last_sequence : ℕ  -- AUTOINCREMENT of forum_events.sequence
  pub assignments : List AssignmentRow
  pub transitions : List TransitionRow
  pub views : List ViewRow
  pub queue : List QueueRow
  pub stats : List StatsRow
  pub reads : List ReadRow
  pub projections : List (String × String)  -- forum_projection_events
  pub outbox : List ForumOutboxMessage
  pub last_outbox_id : ℕ  -- AUTOINCREMENT of forum_outbox.id
  pub runs : RunTables

-- The keys of the unique columns.
abbrev pub thread_key : ThreadRow → String
thread_key r = r.thread_id

abbrev pub post_key : PostRow → String
post_key r = r.post_id

abbrev pub post_event : PostRow → String
post_event r = r.event_id

abbrev pub event_key : EventRow → String
event_key r = r.envelope.event_id

abbrev pub assignment_event : AssignmentRow → String
assignment_event r = r.event_id

abbrev pub transition_event : TransitionRow → String
transition_event r = r.event_id

abbrev pub view_key : ViewRow → String
view_key r = r.thread.thread_id

abbrev pub queue_key : QueueRow → String
queue_key r = r.thread_id

abbrev pub outbox_key : ForumOutboxMessage → String
outbox_key m = m.message_id

unfoldable pub empty_tables : Tables
empty_tables = record {
  threads = [];
  posts = [];
  events = [];
  last_sequence = 0;
  assignments = [];
  transitions = [];
  views = [];
  queue = [];
  stats = [];
  reads = [];
  projections = [];
  outbox = [];
  last_outbox_id = 0;
  runs = record {
    runs = [];
    tickets = [];
    steps = [];
    agents = [];
    events = [];
    briefs = [];
    doc_syncs = [];
    operator_states = [];
  };
}
