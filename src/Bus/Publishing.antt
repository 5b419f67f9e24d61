-- ===== src/Bus/Publishing.antt =====
-- A message on its way into the outbox and through a claim (internal/forumbus/runtime.go).
use metawsm.Base.{ℕ, ◌+◌, String, ◌≡◌, refl, ap, ◌∙◌, none, some, [], ◌∷◌, ◌++◌, string_eq, eq_refl}
use metawsm.Base.Text.{IsName, trim_space}
use metawsm.Base.Rows.{find, find-concat}
use metawsm.Model.Outbox.{ForumOutboxMessage, pending}
use metawsm.Store.Schema.{Tables, outbox_key}
use metawsm.Store.Sql.{ok, ◌>>=◌, exec, pure, quiet}
use metawsm.Store.Outbox.{enqueued_row, enqueue_script, enqueue_forum_outbox}
use metawsm.Bus.{publish}

abbrev pub message_of : String → String → String → String → ForumOutboxMessage
message_of topic message_key encoded message_id = record {
  id = 0;
  message_id = message_id;
  topic = topic;
  message_key = trim_space message_key;
  payload_json = encoded;
  status = pending;
  attempt_count = 0;
  last_error = "";
  created_at = "";
  updated_at = "";
  sent_at = "";
}

publish_lem :
    (topic message_key encoded message_id now : String) (db : Tables) (n : ℕ)
    → IsName topic
    → IsName encoded
    → IsName message_id
    → publish topic message_key encoded message_id now (quiet db n) ≡ (
      ok message_id,
      quiet (enqueue_script (message_of topic message_key encoded message_id) now db) n,
    )
unfolding publish enqueue_forum_outbox ◌>>=◌ exec pure
publish_lem topic message_key encoded message_id now db n t e i =
    rw (t.0, t.1) (rw (t.0, t.1, i.0, i.1, e.0, e.1))

enqueued_last :
    (topic message_key encoded message_id now : String) (db : Tables)
    → IsName message_id
    → find outbox_key message_id db.outbox ≡ none
    → let row =
        enqueued_row
          (message_of topic message_key encoded message_id)
          now
          (db.last_outbox_id + 1) in
      find outbox_key message_id (db.outbox ++ row ∷ []) ≡ some row
unfolding enqueued_row
enqueued_last topic message_key encoded message_id now db i fresh =
    let row =
      enqueued_row (message_of topic message_key encoded message_id) now (db.last_outbox_id + 1) in
    rw (find-concat outbox_key message_id row db.outbox (rw i.0 fresh))
      (rw (i.0, eq_refl message_id))

blank : trim_space "" ≡ ""
unfolding trim_space
blank = refl

row_of :
    (topic message_key encoded message_id now : String) (id : ℕ)
    → IsName topic
    → IsName encoded
    → IsName message_id
    → enqueued_row (message_of topic message_key encoded message_id) now id ≡ record {
      id = id;
      message_id = message_id;
      topic = topic;
      message_key = trim_space (trim_space message_key);
      payload_json = encoded;
      status = pending;
      attempt_count = 0;
      last_error = "";
      created_at = now;
      updated_at = now;
      sent_at = "";
    }
unfolding enqueued_row
row_of topic message_key encoded message_id now id t e i = rw (t.0, e.0, i.0, blank) refl

stored :
    (topic message_key encoded message_id now : String) (db : Tables) (n : ℕ)
    → IsName topic
    → IsName encoded
    → IsName message_id
    → find outbox_key message_id db.outbox ≡ none
    → let after = publish topic message_key encoded message_id now (quiet db n) in
      (after.0 ≡ ok message_id)
      × (find outbox_key message_id after.1.tables.outbox
          ≡ some (
              enqueued_row
                (message_of topic message_key encoded message_id)
                now
                (db.last_outbox_id + 1)))
      × (after.1.tables.last_outbox_id ≡ db.last_outbox_id + 1)
unfolding enqueue_script
stored topic message_key encoded message_id now db n t e i fresh =
    rw (publish_lem topic message_key encoded message_id now db n t e i) (
      refl,
      rw (i.0, fresh) (enqueued_last topic message_key encoded message_id now db i fresh),
      rw (i.0, fresh) refl,
    )

-- While sqlite3 answers, publishing a message under an id that the outbox does not know, with
-- topic, payload and id trimmed and not blank, returns the id; looking the id up then finds a
-- pending row with the next row id, this topic and payload, the trimmed key, no attempt made, no
-- error and the time of the call.
pub publish_enqueues :
    (topic message_key encoded message_id now : String) (db : Tables) (n : ℕ)
    → IsName topic
    → IsName encoded
    → IsName message_id
    → find outbox_key message_id db.outbox ≡ none
    → let after = publish topic message_key encoded message_id now (quiet db n) in
      (after.0 ≡ ok message_id)
      × (find outbox_key message_id after.1.tables.outbox
          ≡ some (record {
            id = db.last_outbox_id + 1;
            message_id = message_id;
            topic = topic;
            message_key = trim_space (trim_space message_key);
            payload_json = encoded;
            status = pending;
            attempt_count = 0;
            last_error = "";
            created_at = now;
            updated_at = now;
            sent_at = "";
          }))
      × (after.1.tables.last_outbox_id ≡ db.last_outbox_id + 1)
publish_enqueues topic message_key encoded message_id now db n t e i fresh =
    let (returned, found, counted) =
      stored topic message_key encoded message_id now db n t e i fresh in
    let row = row_of topic message_key encoded message_id now (db.last_outbox_id + 1) t e i in
    (returned, found ∙ ap some row, counted)
