-- ===== src/Bus/Flush.antt =====
-- What the flush of a batch leaves in the outbox (internal/forumbus/runtime.go).
use metawsm.Base.{
  ℕ, String, ◌≡◌, Bool, true, false, Option, none, some, List, [], ◌∷◌, ◌==◌, string_eq,
  if◌then◌else◌, Bool-cases, inl, inr,
}
use metawsm.Base.Text.{trim_space, concat}
use metawsm.Base.Rows.{update}
use metawsm.Model.Outbox.{ForumOutboxMessage}
use metawsm.Store.Schema.{Tables, outbox_key}
use metawsm.Store.Sql.{ok, pure, ◌>>=◌, exec, quiet}
use metawsm.Store.Outbox.{mark_sent, mark_failed, mark_forum_outbox_sent, mark_forum_outbox_failed}
use metawsm.Bus.{ignore, has_handler, stream_topic, flush_message, count_if, settle_delivery}

abbrev pub is_none : Option String → Bool
is_none none = true
is_none (some _) = false

-- The mark that follows the answer of Redis.
abbrev pub settle_mark : String → Option String → ForumOutboxMessage → ForumOutboxMessage
settle_mark now none = mark_sent now
settle_mark now (some error) = mark_failed error now

-- Ids are trimmed and not blank, as `EnqueueForumOutbox` stores them.
abbrev pub IsNamed : ForumOutboxMessage → Type 0
IsNamed m = (trim_space m.message_id ≡ m.message_id) × ((m.message_id == "") ≡ false)

module _ (handlers : List String) (stream_name : String)
    (deliver : String → ForumOutboxMessage → Option String) (now : String) where
  abbrev pub is_delivered : ForumOutboxMessage → Bool
  is_delivered m =
      if has_handler m.topic handlers
      then is_none (deliver (stream_topic stream_name m.topic) m)
      else false

  -- The mark that a message gets.
  abbrev pub settle_row : ForumOutboxMessage → ForumOutboxMessage → ForumOutboxMessage
  settle_row m =
      if has_handler m.topic handlers
      then settle_mark now (deliver (stream_topic stream_name m.topic) m)
      else settle_mark now (some (concat "no handler for topic " m.topic))

  unfoldable pub settle_rows :
      List ForumOutboxMessage → List ForumOutboxMessage → List ForumOutboxMessage
  settle_rows [] rows = rows
  settle_rows (m ∷ ms) rows = settle_rows ms (update outbox_key m.message_id (settle_row m) rows)

  unfoldable pub delivered : List ForumOutboxMessage → ℕ → ℕ
  delivered [] n = n
  delivered (m ∷ ms) n = delivered ms (count_if (is_delivered m) n)

  mark_sent_lem :
      (id : String) (db : Tables) (n : ℕ)
      → trim_space id ≡ id
      → (id == "") ≡ false
      → mark_forum_outbox_sent id now (quiet db n)
        ≡ (ok tt, quiet (record db { outbox = update outbox_key id (mark_sent now) db.outbox }) n)
  unfolding mark_forum_outbox_sent exec
  mark_sent_lem id db n trimmed named = rw (trimmed, named)

  mark_failed_lem :
      (id error : String) (db : Tables) (n : ℕ)
      → trim_space id ≡ id
      → (id == "") ≡ false
      → mark_forum_outbox_failed id error now (quiet db n) ≡ (
        ok tt,
        quiet (record db { outbox = update outbox_key id (mark_failed error now) db.outbox }) n,
      )
  unfolding mark_forum_outbox_failed exec
  mark_failed_lem id error db n trimmed named = rw (trimmed, named)

  settle_delivery_lem :
      (o : Option String) (id : String) (db : Tables) (n : ℕ)
      → trim_space id ≡ id
      → (id == "") ≡ false
      → settle_delivery o id now (quiet db n) ≡ (
        ok (is_none o),
        quiet (record db { outbox = update outbox_key id (settle_mark now o) db.outbox }) n,
      )
  unfolding ignore ◌>>=◌ pure
  settle_delivery_lem none id db n trimmed named = rw (mark_sent_lem id db n trimmed named)
  settle_delivery_lem (some error) id db n trimmed named =
      rw (mark_failed_lem id error db n trimmed named)

  pub flush_message_lem :
      (m : ForumOutboxMessage) (db : Tables) (n : ℕ)
      → IsNamed m
      → flush_message handlers stream_name deliver now m (quiet db n) ≡ (
        ok (is_delivered m),
        quiet (record db { outbox = update outbox_key m.message_id (settle_row m) db.outbox }) n,
      )
  unfolding flush_message ignore ◌>>=◌
  flush_message_lem m db n (trimmed, named) = elim (Bool-cases (has_handler m.topic handlers)) [
    | inl there ↦ rw there (
        settle_delivery_lem (deliver (stream_topic stream_name m.topic) m) m.message_id db n trimmed
          named)
    | inr missing ↦ rw missing (
        settle_delivery_lem (some (concat "no handler for topic " m.topic)) m.message_id db n
          trimmed named)
  ]
