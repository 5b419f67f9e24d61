-- ===== src/Bus/Examples.antt =====
-- Concrete flushes of the outbox.
use metawsm.Base.{some, ◌+◌, ℕ, String, ◌≡◌, refl, true, Option, none, [], ◌∷◌, All}
use metawsm.Base.Text.{IsName, trim_space}
use metawsm.Model.Outbox.{ForumOutboxStatus, ForumOutboxMessage, pending, failed}
use metawsm.Store.Schema.{Tables, empty_tables, outbox_key}
use metawsm.Store.Sql.{ok, quiet}
use metawsm.Store.Outbox.{marked_rows, claim_script, limit_or}
use metawsm.Bus.{flush_outbox_to_redis, publish}
use metawsm.Bus.Publishing.{publish_enqueues}
use metawsm.Base.Rows.{find}
use metawsm.Bus.Flush.{IsNamed, delivered}
use metawsm.Bus.Settled.{flush_settles_claim}

abbrev message : ℕ → String → String → ForumOutboxStatus → ForumOutboxMessage
message id name topic status = record {
  id = id;
  message_id = name;
  topic = topic;
  message_key = "t1";
  payload_json = "{}";
  status = status;
  attempt_count = 0;
  last_error = "";
  created_at = "1";
  updated_at = "1";
  sent_at = "";
}

abbrev tables : Tables
tables = record empty_tables {
  outbox = message 1 "one" "known" pending ∷ message 2 "two" "other" failed ∷ [];
}

abbrev deliver : String → ForumOutboxMessage → Option String
deliver stream m = none

tables-IsNamed : All IsNamed tables.outbox
unfolding trim_space
tables-IsNamed = ((refl, refl), ((refl, refl), tt))

flush_settles_claim_example :
    let batch = marked_rows "5" (claim_script (limit_or 20 0) "5" tables).outbox in
    let after = flush_outbox_to_redis ("known" ∷ []) "s" deliver "5" true 0 (quiet tables 1) in
    (after.0 ≡ ok (delivered ("known" ∷ []) "s" deliver "5" batch 0, none))
    × (marked_rows "5" after.1.tables.outbox ≡ [])
flush_settles_claim_example =
    flush_settles_claim ("known" ∷ []) "s" deliver "5" 0 tables 1 tables-IsNamed

topic-IsName : IsName "topic"
unfolding trim_space
topic-IsName = (refl, refl)

body-IsName : IsName "{}"
unfolding trim_space
body-IsName = (refl, refl)

fresh-IsName : IsName "three"
unfolding trim_space
fresh-IsName = (refl, refl)

no_three : find outbox_key "three" tables.outbox ≡ none
unfolding find
no_three = refl

publish_enqueues_example :
    let after = publish "topic" "t1" "{}" "three" "5" (quiet tables 1) in
    (after.0 ≡ ok "three")
    × (find outbox_key "three" after.1.tables.outbox
        ≡ some (record {
          id = tables.last_outbox_id + 1;
          message_id = "three";
          topic = "topic";
          message_key = "t1";
          payload_json = "{}";
          status = pending;
          attempt_count = 0;
          last_error = "";
          created_at = "5";
          updated_at = "5";
          sent_at = "";
        }))
    × (after.1.tables.last_outbox_id ≡ tables.last_outbox_id + 1)
unfolding trim_space
publish_enqueues_example =
    publish_enqueues "topic" "t1" "{}" "three" "5" tables 1 topic-IsName body-IsName fresh-IsName
      no_three
