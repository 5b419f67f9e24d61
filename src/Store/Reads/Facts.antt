-- ===== src/Store/Reads/Facts.antt =====
-- What marking a thread as seen and projecting an event leave (internal/store/sqlite_forum.go).
use metawsm.Base.{
  ℕ, zero, suc, ◌≤◌, String, ◌≡◌, refl, true, false, Option, none, some, List, [], ◌∷◌, ◌++◌, arith,
  eq_refl, ◌==◌, string_eq,
}
use metawsm.Base.Text.{trim_space}
use metawsm.Model.Forum.{ViewerType, viewer_eq, viewer_beq_iff}
use metawsm.Store.Schema.{ReadRow, QueueRow, ViewRow, Tables, view_key, queue_key}
use metawsm.Store.Reads.{
  mark_forum_thread_seen, latest_forum_thread_event_sequence, sequence_to_mark, require_read,
  queue_sequence_or, is_read_of, find_read, raise_read, upsert_read, seen_row, mark_read,
  is_applied,
}
use metawsm.Base.Rows.{find}
use metawsm.Store.Sql.{World, ok, M, ◌>>=◌, exec, query, pure, raise, quiet}
use metawsm.Store.Sql.Triple.{
  Keeps, Keeps-if, Keeps-raise, Keeps-bind, Keeps-query, Keeps-pure, Keeps-update, Triple-either,
}
use metawsm.Store.Commands.{get_forum_thread, require_thread}
use metawsm.Store.Commands.{thread_view, ForumThreadView}
use metawsm.Store.Queue.{seen_or_zero, is_unseen, last_event, is_anyone, sequence_or_zero}

-- The row of a viewer holds the highest sequence that was written for it; every other viewer's row
-- is as it was.
pub find_read-upsert_read :
    (new : ReadRow) (tid : String) (type : ViewerType) (id : String) (rows : List ReadRow)
    → seen_or_zero (find_read tid type id rows)
      ≤ seen_or_zero (find_read tid type id (upsert_read new rows))
unfolding find_read upsert_read raise_read is_read_of
find_read-upsert_read new tid type id [] = ground arith
find_read-upsert_read new tid type id (r ∷ rows) =
    ground (arith, find_read-upsert_read new tid type id rows)

find_read-upsert_read-new :
    (new : ReadRow) (rows : List ReadRow)
    → new.last_seen_event_sequence
      ≤ seen_or_zero (find_read new.thread_id new.viewer_type new.viewer_id (upsert_read new rows))
unfolding find_read upsert_read raise_read is_read_of
find_read-upsert_read-new new [] =
    rw
      (
        eq_refl new.thread_id,
        eq_refl new.viewer_id,
        (viewer_beq_iff new.viewer_type new.viewer_type).1 refl,
      )
      (ground arith)
find_read-upsert_read-new new (r ∷ rows) = ground (arith, find_read-upsert_read-new new rows)

is_applied-insert :
    (name event_id : String) (ps : List (String × String))
    → is_applied name event_id (ps ++ (name, event_id) ∷ []) ≡ true
unfolding is_applied
is_applied-insert name event_id [] = rw (eq_refl name, eq_refl event_id)
is_applied-insert name event_id (p ∷ ps) = ground (arith, is_applied-insert name event_id ps)

module _ (n : ℕ) (tid : String) (type : ViewerType) (id : String) where
  abbrev HasSeen : Tables → Type 0
  HasSeen db = n ≤ seen_or_zero (find_read tid type id db.reads)

  queue_sequence_or-Keeps :
      (other : M ℕ)
      → Keeps HasSeen other
      → (row : Option QueueRow) → Keeps HasSeen (queue_sequence_or other row)
  queue_sequence_or-Keeps other h none = h
  queue_sequence_or-Keeps other h (some q) = Keeps-pure _

  latest-Keeps : (t : String) → Keeps HasSeen (latest_forum_thread_event_sequence t)
  unfolding latest_forum_thread_event_sequence
  latest-Keeps t = Keeps-if _ _ _ (Keeps-raise _) (
      Keeps-bind _ _ (Keeps-query _) (
        queue_sequence_or-Keeps
          (query (λ db. sequence_or_zero (last_event (trim_space t) is_anyone db.events)))
          (Keeps-query _)))

  sequence_to_mark-Keeps : (last : ℕ) (t : String) → Keeps HasSeen (sequence_to_mark last t)
  sequence_to_mark-Keeps zero t = latest-Keeps t
  sequence_to_mark-Keeps (suc k) t = Keeps-pure (suc k)

  require_thread-Keeps :
      (t : String) (found : Option ForumThreadView) → Keeps HasSeen (require_thread t found)
  require_thread-Keeps t none = Keeps-raise _
  require_thread-Keeps t (some v) = Keeps-pure v

  require_read-Keeps : (row : Option ReadRow) → Keeps HasSeen (require_read row)
  require_read-Keeps none = Keeps-raise _
  require_read-Keeps (some v) = Keeps-pure v

  mark_read-HasSeen : (row : ReadRow) (db : Tables) → HasSeen db → HasSeen (mark_read row db)
  mark_read-HasSeen row db h = ground (arith, find_read-upsert_read row tid type id db.reads)

  mark_read-Keeps : (row : ReadRow) → Keeps HasSeen (exec (λ db. some (mark_read row db)))
  mark_read-Keeps row = Keeps-update (mark_read row) (mark_read-HasSeen row)

  mark_forum_thread_seen-Keeps :
      (t : String) (v : ViewerType) (i : String) (last : ℕ) (now : String)
      → Keeps HasSeen (mark_forum_thread_seen t v i last now)
  unfolding mark_forum_thread_seen get_forum_thread
  mark_forum_thread_seen-Keeps t v i last now =
      search
        (
          Keeps-if, Keeps-raise, Keeps-bind, Keeps-query, require_thread-Keeps,
          sequence_to_mark-Keeps, mark_read-Keeps, require_read-Keeps,
        )
        depth 12

-- In any world, error or not, marking a thread as seen lowers the last seen sequence of no viewer
-- of any thread.
pub seen_never_falls :
    (thread_id : String) (viewer : ViewerType) (viewer_id : String) (last_seen : ℕ) (now : String)
    (w : World) (tid : String) (type : ViewerType) (id : String)
    → seen_or_zero (find_read tid type id w.tables.reads)
      ≤ seen_or_zero (
          find_read tid type id
            (mark_forum_thread_seen thread_id viewer viewer_id last_seen now w).1.tables.reads)
seen_never_falls thread_id viewer viewer_id last_seen now w tid type id =
    Triple-either _ w
      (mark_forum_thread_seen-Keeps (seen_or_zero (find_read tid type id w.tables.reads)) tid type
        id thread_id viewer viewer_id last_seen now)
      (ground arith)

latest_forum_thread_event_sequence_lem :
    (tid : String) (db : Tables) (n : ℕ) (q : QueueRow)
    → trim_space tid ≡ tid
    → (tid == "") ≡ false
    → find queue_key tid db.queue ≡ some q
    → latest_forum_thread_event_sequence tid (quiet db n) ≡ (ok q.last_event_sequence, quiet db n)
unfolding latest_forum_thread_event_sequence ◌>>=◌ query pure
latest_forum_thread_event_sequence_lem tid db n q trimmed named queued =
    rw (trimmed, named) (rw queued)

require_read-tables : (row : Option ReadRow) (w : World) → (require_read row w).1 ≡ w
unfolding pure raise
require_read-tables none w = refl
require_read-tables (some r) w = refl

-- When sqlite3 answers, a thread with a view and a row in the queue view that a viewer marks as
-- seen without naming a sequence is not unseen for this viewer any more, where the ids of thread
-- and viewer are trimmed and not blank.
pub seen_thread_leaves_unseen_queue :
    (tid : String) (type : ViewerType) (viewer_id now : String) (db : Tables) (n : ℕ) (v : ViewRow)
    (q : QueueRow)
    → trim_space tid ≡ tid
    → (tid == "") ≡ false
    → trim_space viewer_id ≡ viewer_id
    → (viewer_id == "") ≡ false
    → find view_key tid db.views ≡ some v
    → find queue_key tid db.queue ≡ some q
    → let after = (mark_forum_thread_seen tid type viewer_id 0 now (quiet db n)).1.tables in
      is_unseen (find queue_key tid after.queue) (find_read tid type viewer_id after.reads) ≡ false
unfolding mark_forum_thread_seen get_forum_thread ◌>>=◌ exec query pure thread_view is_unseen
seen_thread_leaves_unseen_queue tid type viewer_id now db n v q trimmed named trimmed_id named_id
      there queued =
    rw (trimmed, named, trimmed_id, named_id)
      (rw there (
        rw
          (
            latest_forum_thread_event_sequence_lem tid db n q trimmed named queued,
            require_read-tables,
          )
          (rw queued (
            ground (
              arith,
              find_read-upsert_read-new (seen_row tid type viewer_id q.last_event_sequence now)
                  db.reads,
            )))))
