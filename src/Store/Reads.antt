-- ===== src/Store/Reads.antt =====
-- internal/store/sqlite_forum.go: what viewers have seen, the projections of events and the events
-- of integrations.
pub mod Facts
pub mod Projections
mod Examples
use mathlib.Core.Option
use metawsm.Base.{
  ℕ, zero, suc, ◌+◌, String, Bool, true, false, ◌&&◌, Option, none, some, List, [], ◌∷◌, ◌++◌, ltb,
  ◌==◌, string_eq, if◌then◌else◌, nat_eq,
}
use metawsm.Base.Text.{trim_space}
use metawsm.Base.Rows.{find}
use metawsm.Model.Forum.{ViewerType, viewer_eq, ForumEnvelope}
use metawsm.Store.Schema.{QueueRow, ReadRow, Payload, Tables, queue_key}
use metawsm.Store.Sql.{required, not_found, invalid, M, pure, raise, ◌>>=◌, ◌>>◌, exec, query}
use metawsm.Store.Queue.{last_event, is_anyone, sequence_or_zero}
use metawsm.Store.Scripts.{at_or_now, insert_event}
use metawsm.Store.Commands.{
  ForumThreadView, require_thread, get_forum_thread, forum_event_exists, refresh_forum_thread_view,
  refresh_forum_thread_queue_view, refresh_forum_thread_stats,
}

-- The three columns of the primary key of forum_thread_reads
unfoldable pub is_read_of : String → ViewerType → String → ReadRow → Bool
is_read_of tid type id r = r.thread_id == tid && r.viewer_type == type && r.viewer_id == id

unfoldable pub find_read : String → ViewerType → String → List ReadRow → Option ReadRow
find_read tid type id [] = none
find_read tid type id (r ∷ rs) =
    if is_read_of tid type id r then some r else find_read tid type id rs

-- DO UPDATE SET last_seen_event_sequence=MAX(…), updated_at=CASE …
unfoldable pub raise_read : ReadRow → ReadRow → ReadRow
raise_read excluded old =
    if ltb old.last_seen_event_sequence excluded.last_seen_event_sequence
    then record old {
      last_seen_event_sequence = excluded.last_seen_event_sequence;
      updated_at = excluded.updated_at;
    }
    else old

-- INSERT INTO forum_thread_reads … ON CONFLICT
unfoldable pub upsert_read : ReadRow → List ReadRow → List ReadRow
upsert_read new [] = new ∷ []
upsert_read new (r ∷ rs) =
    if is_read_of new.thread_id new.viewer_type new.viewer_id r
    then raise_read new r ∷ rs
    else r ∷ upsert_read new rs

abbrev pub queue_sequence_or : M ℕ → Option QueueRow → M ℕ
queue_sequence_or other none = other
queue_sequence_or other (some q) = pure q.last_event_sequence

-- `latestForumThreadEventSequence`
unfoldable pub latest_forum_thread_event_sequence : String → M ℕ
latest_forum_thread_event_sequence thread_id =
    if trim_space thread_id == "" then raise (required "thread_id") else do
      row ← query (λ db. find queue_key (trim_space thread_id) db.queue)
      queue_sequence_or
          (query (λ db. sequence_or_zero (last_event (trim_space thread_id) is_anyone db.events)))
          row

-- `lastSeenEventSequence <= 0` is `zero`.
abbrev pub sequence_to_mark : ℕ → String → M ℕ
sequence_to_mark zero thread_id = latest_forum_thread_event_sequence thread_id
sequence_to_mark (suc n) thread_id = pure (suc n)

abbrev pub require_read : Option ReadRow → M ReadRow
require_read none = raise (not_found "seen row")
require_read (some r) = pure r

abbrev pub seen_row : String → ViewerType → String → ℕ → String → ReadRow
seen_row tid type viewer_id sequence now = record {
  thread_id = tid;
  viewer_type = type;
  viewer_id = viewer_id;
  last_seen_event_sequence = sequence;
  updated_at = now;
}

abbrev pub mark_read : ReadRow → Tables → Tables
mark_read row db = record db { reads = upsert_read row db.reads }

-- `MarkForumThreadSeen`, of a viewer type that `normalizeForumViewerType` accepts
unfoldable pub mark_forum_thread_seen : String → ViewerType → String → ℕ → String → M ReadRow
mark_forum_thread_seen thread_id type viewer_id last_seen now =
    if trim_space thread_id == ""
    then raise (required "thread_id")
    else if trim_space viewer_id == ""
    then raise (required "viewer_id")
    else do
      found ← get_forum_thread (trim_space thread_id)
      _ ← require_thread (trim_space thread_id) found
      sequence ← sequence_to_mark last_seen (trim_space thread_id)
      exec (λ db.
          some (
            mark_read (seen_row (trim_space thread_id) type (trim_space viewer_id) sequence now)
              db))
      row ← query (λ db. find_read (trim_space thread_id) type (trim_space viewer_id) db.reads)
      require_read row

-- forum_projection_events, by projection and event
unfoldable pub is_applied : String → String → List (String × String) → Bool
is_applied name event_id [] = false
is_applied name event_id ((n, e) ∷ rest) =
    if n == name && e == event_id then true else is_applied name event_id rest

-- INSERT OR IGNORE INTO forum_projection_events
unfoldable pub insert_projection : String → String → Tables → Tables
insert_projection name event_id db =
    if is_applied name event_id db.projections
    then db
    else record db { projections = db.projections ++ (name, event_id) ∷ [] }

unfoldable pub apply_forum_projection_event : String → String → M (Unit {0}) → M (Unit {0})
apply_forum_projection_event name event_id apply =
    if trim_space name == ""
    then raise (required "name")
    else if trim_space event_id == ""
    then raise (required "event_id")
    else do
      applied ← query (λ db. is_applied (trim_space name) (trim_space event_id) db.projections)
      if applied then pure tt else do
        apply
        exec (λ db. some (insert_projection (trim_space name) (trim_space event_id) db))

-- `ApplyForumEventProjections`, which reads three fields of the event
unfoldable pub apply_forum_event_projections : ForumEnvelope → String → M (Unit {0})
apply_forum_event_projections envelope now =
    if trim_space envelope.event_id == ""
    then raise (required "event_id")
    else if trim_space envelope.thread_id == ""
    then raise (required "thread_id")
    else if trim_space envelope.ticket == ""
    then raise (required "ticket")
    else do
      apply_forum_projection_event "forum_thread_views_v1" (trim_space envelope.event_id)
          (refresh_forum_thread_view (trim_space envelope.thread_id))
      apply_forum_projection_event "forum_thread_queue_view_v1" (trim_space envelope.event_id)
          (refresh_forum_thread_queue_view (trim_space envelope.thread_id))
      apply_forum_projection_event "forum_thread_stats_v1" (trim_space envelope.event_id)
          (refresh_forum_thread_stats (trim_space envelope.ticket) now)

abbrev pub integration_envelope : ForumEnvelope → String → ForumEnvelope
integration_envelope envelope now = record envelope {
  occurred_at = at_or_now envelope.occurred_at now;
  event_type =
      if trim_space envelope.event_type == ""
      then "forum.integration.unknown"
      else envelope.event_type;
  event_version = if envelope.event_version == 0 then 1 else envelope.event_version;
}

-- `ForumAppendIntegrationEvent`
unfoldable pub forum_append_integration_event : ForumEnvelope → Payload → String → M (Unit {0})
forum_append_integration_event envelope payload now =
    if trim_space envelope.event_id == "" then raise (required "event_id") else do
      known ← forum_event_exists envelope.event_id
      if known then pure tt else exec (insert_event (integration_envelope envelope now) payload)
