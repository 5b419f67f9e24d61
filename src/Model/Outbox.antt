-- ===== src/Model/Outbox.antt =====
-- internal/model/forum_bus.go: the messages of the outbox. `unset` is the empty string.
use metawsm.Base.{ℕ, String}

pub data ForumOutboxStatus : Type 0 where
  unset pending processing sent failed : ForumOutboxStatus

pub record ForumOutboxMessage : Type 0 where
  pub id : ℕ
  pub message_id : String
  pub topic : String
  pub message_key : String
  pub payload_json : String
  pub status : ForumOutboxStatus
  pub attempt_count : ℕ
  pub last_error : String
  pub created_at : String
  pub updated_at : String
  pub sent_at : String
