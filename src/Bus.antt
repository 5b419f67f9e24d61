-- ===== src/Bus.antt =====
-- internal/forumbus/runtime.go: the outbox is flushed to Redis streams. Redis is a parameter: what
-- publishing a message answers, `none` for success.
pub mod Flush
pub mod Settled
pub mod Publishing
mod Examples
use metawsm.Base.{
  ℕ, zero, suc, ◌+◌, String, Bool, true, false, Option, none, some, List, [], ◌∷◌, ◌==◌, string_eq,
  if◌then◌else◌,
}
use metawsm.Base.Text.{trim_space, concat}
use metawsm.Model.Outbox.{ForumOutboxMessage, pending}
use metawsm.Store.Sql.{
  Error, required, invalid, Result, ok, err, World, M, pure, raise, ◌>>=◌, ◌>>◌,
}
use metawsm.Store.Outbox.{
  enqueue_forum_outbox, claim_forum_outbox_pending, mark_forum_outbox_sent,
  mark_forum_outbox_failed,
}

-- A Go error that the caller looks at, and one that it drops.
unfoldable pub catch : {A : Type 0} → M A → M (Result A)
catch m w = let (r, w') = m w in (ok r, w')

unfoldable pub ignore : {A : Type 0} → M A → M (Unit {0})
ignore m w = let (r, w') = m w in (ok tt, w')

-- `handlers[msg.Topic] != nil`
unfoldable pub has_handler : String → List String → Bool
has_handler topic [] = false
has_handler topic (t ∷ ts) = if t == topic then true else has_handler topic ts

unfoldable pub stream_topic : String → String → String
stream_topic stream_name topic =
    if trim_space topic == ""
    then trim_space topic
    else if trim_space stream_name == ""
    then trim_space topic
    else concat (trim_space stream_name) (concat "." (trim_space topic))

-- `Publish`: the payload is the JSON text, the id the reading of the clock.
unfoldable pub publish : String → String → String → String → String → M String
publish topic message_key encoded message_id now =
    if trim_space topic == "" then raise (required "topic") else do
      enqueue_forum_outbox
          (record {
            id = 0;
            message_id = message_id;
            topic = trim_space topic;
            message_key = trim_space message_key;
            payload_json = encoded;
            status = pending;
            attempt_count = 0;
            last_error = "";
            created_at = "";
            updated_at = "";
            sent_at = "";
          })
          now
      pure message_id

abbrev pub count_if : Bool → ℕ → ℕ
count_if true n = n + 1
count_if false n = n

abbrev pub next_message : (ℕ → M (ℕ × Option Error)) → ℕ → Result Bool → M (ℕ × Option Error)
next_message rest sent (ok counted) = rest (count_if counted sent)
next_message rest sent (err error) = pure (sent, some error)

-- What follows `publisher.Publish`: whether the message counts as sent.
abbrev pub settle_delivery : Option String → String → String → M Bool
settle_delivery none message_id now = do mark_forum_outbox_sent message_id now; pure true
settle_delivery (some error) message_id now = do
  ignore (mark_forum_outbox_failed message_id error now)
  pure false

module _ (handlers : List String) (stream_name : String)
    (deliver : String → ForumOutboxMessage → Option String) (now : String) where
  -- One message of the loop of `flushOutboxToRedis`: whether it counts as sent.
  unfoldable pub flush_message : ForumOutboxMessage → M Bool
  flush_message m =
      if has_handler m.topic handlers
      then settle_delivery (deliver (stream_topic stream_name m.topic) m) m.message_id now
      else do
        ignore (mark_forum_outbox_failed m.message_id (concat "no handler for topic " m.topic) now)
        pure false

  -- The loop returns what it has sent together with the error that stopped it.
  unfoldable pub flush_batch : List ForumOutboxMessage → ℕ → M (ℕ × Option Error)
  flush_batch [] sent = pure (sent, none)
  flush_batch (m ∷ ms) sent = do
    step ← catch (flush_message m)
    next_message (flush_batch ms) sent step

  abbrev pub flush_claimed : Bool → Result (List ForumOutboxMessage) → M (ℕ × Option Error)
  flush_claimed publisher (err error) = pure (0, some error)
  flush_claimed publisher (ok []) = pure (0, none)
  flush_claimed true (ok (m ∷ ms)) = flush_batch (m ∷ ms) 0
  flush_claimed false (ok (m ∷ ms)) = pure (0, some (invalid "publisher"))

  -- `flushOutboxToRedis`, the publisher present or not
  unfoldable pub flush_outbox_to_redis : Bool → ℕ → M (ℕ × Option Error)
  flush_outbox_to_redis publisher limit = do
    claimed ← catch (claim_forum_outbox_pending limit now)
    flush_claimed publisher claimed
