-- ===== src/Store/Outbox.antt =====
-- The outbox of internal/store/sqlite_forum.go. Its rows stand in the order of their ids.
pub mod Claims
use metawsm.Base.{
  ℕ, zero, suc, ◌+◌, String, Bool, true, false, ◌&&◌, ◌||◌, Option, none, some, List, [], ◌∷◌, ◌++◌,
  take, ltb, ◌==◌, nat_eq, string_eq, if◌then◌else◌,
}
use metawsm.Base.Text.{trim_space, text_ltb}
use metawsm.Base.Rows.{find, update}
use metawsm.Model.Outbox.{
  ForumOutboxStatus, ForumOutboxMessage, unset, pending, processing, sent, failed,
}
use metawsm.Store.Schema.{Tables, outbox_key}
use metawsm.Store.Sql.{required, M, raise, ◌>>=◌, ◌>>◌, exec, query}

abbrev pub or_pending : ForumOutboxStatus → ForumOutboxStatus
or_pending unset = pending
or_pending status = status

abbrev pub add_unless_known : Option ForumOutboxMessage → ForumOutboxMessage → Tables → Tables
add_unless_known (some _) row db = db
add_unless_known none row db = record db {
  outbox = db.outbox ++ row ∷ [];
  last_outbox_id = db.last_outbox_id + 1;
}

unfoldable pub enqueued_row : ForumOutboxMessage → String → ℕ → ForumOutboxMessage
enqueued_row message now id = record {
  id = id;
  message_id = trim_space message.message_id;
  topic = trim_space message.topic;
  message_key = trim_space message.message_key;
  payload_json = trim_space message.payload_json;
  status = or_pending message.status;
  attempt_count = message.attempt_count;
  last_error = trim_space message.last_error;
  created_at = now;
  updated_at = now;
  sent_at = "";
}

-- INSERT OR IGNORE
unfoldable pub enqueue_script : ForumOutboxMessage → String → Tables → Tables
enqueue_script message now db =
    add_unless_known (find outbox_key (trim_space message.message_id) db.outbox)
      (enqueued_row message now (db.last_outbox_id + 1)) db

unfoldable pub enqueue_forum_outbox : ForumOutboxMessage → String → M (Unit {0})
enqueue_forum_outbox message now =
    if trim_space message.message_id == ""
    then raise (required "message_id")
    else if trim_space message.topic == ""
    then raise (required "topic")
    else if trim_space message.payload_json == ""
    then raise (required "payload_json")
    else exec (λ db. some (enqueue_script message now db))

-- status IN ('pending', 'failed')
abbrev pub is_claimable : ForumOutboxStatus → Bool
is_claimable pending = true
is_claimable failed = true
is_claimable _ = false

abbrev pub is_processing : ForumOutboxStatus → Bool
is_processing processing = true
is_processing _ = false

unfoldable pub claimable : List ForumOutboxMessage → List ForumOutboxMessage
claimable [] = []
claimable (m ∷ ms) = let rest = claimable ms in if is_claimable m.status then m ∷ rest else rest

-- ORDER BY created_at, id
abbrev pub precedes : ForumOutboxMessage → ForumOutboxMessage → Bool
precedes m n = text_ltb m.created_at n.created_at || (m.created_at == n.created_at && ltb m.id n.id)

unfoldable pub insert_sorted :
    ForumOutboxMessage → List ForumOutboxMessage → List ForumOutboxMessage
insert_sorted m [] = m ∷ []
insert_sorted m (n ∷ ns) = if precedes n m then n ∷ insert_sorted m ns else m ∷ n ∷ ns

unfoldable pub sort : List ForumOutboxMessage → List ForumOutboxMessage
unfolding insert_sorted
sort [] = []
sort (m ∷ ms) = insert_sorted m (sort ms)

unfoldable pub has_id : ℕ → List ForumOutboxMessage → Bool
has_id id [] = false
has_id id (m ∷ ms) = m.id == id || has_id id ms

abbrev pub claimed : String → ForumOutboxMessage → ForumOutboxMessage
claimed marker m = record m {
  status = processing;
  attempt_count = m.attempt_count + 1;
  updated_at = marker;
}

-- UPDATE … WHERE id IN …
unfoldable pub claim_rows :
    String → List ForumOutboxMessage → List ForumOutboxMessage → List ForumOutboxMessage
claim_rows marker chosen [] = []
claim_rows marker chosen (m ∷ ms) =
    (if has_id m.id chosen then claimed marker m else m) ∷ claim_rows marker chosen ms

unfoldable pub chosen_rows : ℕ → List ForumOutboxMessage → List ForumOutboxMessage
chosen_rows limit rows = take limit (sort (claimable rows))

unfoldable pub claim_script : ℕ → String → Tables → Tables
unfolding chosen_rows
claim_script limit marker db = record db {
  outbox = claim_rows marker (chosen_rows limit db.outbox) db.outbox;
}

-- `listForumOutboxByStatusAndUpdatedAt`, at the status that it is called with
unfoldable pub marked_rows : String → List ForumOutboxMessage → List ForumOutboxMessage
marked_rows marker [] = []
marked_rows marker (m ∷ ms) =
    let rest = marked_rows marker ms in
    if is_processing m.status && m.updated_at == marker then m ∷ rest else rest

-- `limit <= 0` is `zero`: a negative limit has the same effect.
abbrev pub limit_or : ℕ → ℕ → ℕ
limit_or default zero = default
limit_or default (suc n) = suc n

unfoldable pub claim_forum_outbox_pending : ℕ → String → M (List ForumOutboxMessage)
claim_forum_outbox_pending limit marker = do
  exec (λ db. some (claim_script (limit_or 20 limit) marker db))
  query (λ db. marked_rows marker db.outbox)

abbrev pub mark_sent : String → ForumOutboxMessage → ForumOutboxMessage
mark_sent now m = record m { status = sent; last_error = ""; sent_at = now; updated_at = now }

abbrev pub mark_failed : String → String → ForumOutboxMessage → ForumOutboxMessage
mark_failed error now m = record m {
  status = failed;
  last_error = trim_space error;
  updated_at = now;
}

unfoldable pub mark_forum_outbox_sent : String → String → M (Unit {0})
mark_forum_outbox_sent message_id now =
    if trim_space message_id == ""
    then raise (required "message_id")
    else exec (λ db.
      some (record db {
        outbox = update outbox_key (trim_space message_id) (mark_sent now) db.outbox;
      }))

unfoldable pub mark_forum_outbox_failed : String → String → String → M (Unit {0})
mark_forum_outbox_failed message_id error now =
    if trim_space message_id == ""
    then raise (required "message_id")
    else exec (λ db. some (record db {
      outbox = update outbox_key (trim_space message_id) (mark_failed error now) db.outbox;
    }))
