-- ===== src/Model/Forum.antt =====
-- internal/model/forum.go. A `time.Time` is its RFC 3339 text, the zero time the empty text. The
-- constructor `unset` is the empty string, which the columns and commands may hold.
use metawsm.Base.{ℕ, String, ◌≡◌, ◌↔◌, Bool, true, false, arith, Eq, nat_beq}

pub data ActorType : Type 0 where
  unset agent operator human system : ActorType

pub data ThreadState : Type 0 where
  new triaged waiting_operator waiting_human answered closed : ThreadState

pub data Priority : Type 0 where
  unset low normal high urgent : Priority

pub data ViewerType : Type 0 where
  human agent : ViewerType

abbrev state_tag : ThreadState → ℕ
state_tag ThreadState.new = 0
state_tag ThreadState.triaged = 1
state_tag ThreadState.waiting_operator = 2
state_tag ThreadState.waiting_human = 3
state_tag ThreadState.answered = 4
state_tag ThreadState.closed = 5

abbrev pub state_beq : ThreadState → ThreadState → Bool
state_beq s t = nat_beq (state_tag s) (state_tag t)

pub state_beq_iff : (s t : ThreadState) → (state_beq s t ≡ true) ↔ (s ≡ t)
state_beq_iff s t = ground arith

instance abbrev pub state_eq : Eq ThreadState
state_eq = record { test = state_beq; test_iff = state_beq_iff }

abbrev priority_tag : Priority → ℕ
priority_tag Priority.unset = 0
priority_tag Priority.low = 1
priority_tag Priority.normal = 2
priority_tag Priority.high = 3
priority_tag Priority.urgent = 4

abbrev pub priority_beq : Priority → Priority → Bool
priority_beq s t = nat_beq (priority_tag s) (priority_tag t)

pub priority_beq_iff : (s t : Priority) → (priority_beq s t ≡ true) ↔ (s ≡ t)
priority_beq_iff s t = ground arith

instance abbrev pub priority_eq : Eq Priority
priority_eq = record { test = priority_beq; test_iff = priority_beq_iff }

abbrev pub viewer_beq : ViewerType → ViewerType → Bool
viewer_beq ViewerType.human ViewerType.human = true
viewer_beq ViewerType.agent ViewerType.agent = true
viewer_beq _ _ = false

pub viewer_beq_iff : (s t : ViewerType) → (viewer_beq s t ≡ true) ↔ (s ≡ t)
viewer_beq_iff s t = ground arith

instance abbrev pub viewer_eq : Eq ViewerType
viewer_eq = record { test = viewer_beq; test_iff = viewer_beq_iff }

pub record ForumEnvelope : Type 0 where
  pub event_id : String
  pub event_type : String
  pub event_version : ℕ
  pub occurred_at : String
  pub thread_id : String
  pub run_id : String
  pub ticket : String
  pub agent_name : String
  pub actor_type : ActorType
  pub actor_name : String
  pub correlation_id : String
  pub causation_id : String

pub record ForumOpenThreadCommand : Type 0 where
  pub envelope : ForumEnvelope
  pub title : String
  pub body : String
  pub priority : Priority

pub record ForumAddPostCommand : Type 0 where
  pub envelope : ForumEnvelope
  pub body : String

pub record ForumAssignThreadCommand : Type 0 where
  pub envelope : ForumEnvelope
  pub assignee_type : ActorType
  pub assignee_name : String
  pub assignment_note : String

pub record ForumChangeStateCommand : Type 0 where
  pub envelope : ForumEnvelope
  pub to_state : ThreadState

pub record ForumSetPriorityCommand : Type 0 where
  pub envelope : ForumEnvelope
  pub priority : Priority

pub record ForumCloseThreadCommand : Type 0 where
  pub envelope : ForumEnvelope

pub record ForumEvent : Type 0 where
  pub sequence : ℕ
  pub envelope : ForumEnvelope
  pub payload_json : String
