-- ===== src/Store/Opening.antt =====
-- Opening a thread under fresh ids (internal/store/sqlite_forum.go).
use metawsm.Base.{
  ℕ, String, ◌≡◌, refl, sym, ap, ◌∙◌, false, Option, none, some, [], ◌∷◌, ◌++◌, ◌==◌, string_eq,
  eq_refl, arith,
}
use metawsm.Base.Text.{trim_space}
use metawsm.Base.Rows.{find, insert, find-concat}
use metawsm.Model.Forum.{ForumOpenThreadCommand, ThreadState, ActorType}
use metawsm.Store.Schema.{
  Tables, ViewRow, QueueRow, thread_key, post_key, post_event, event_key, view_key, queue_key,
}
use metawsm.Store.Sql.{ok, ◌>>=◌, exec, query, quiet}
use metawsm.Store.Queue.{rebuild_queue, rebuild_queue-only}
use metawsm.Store.Stats.{rebuild_stats}
use metawsm.Store.Scripts.{
  at_or_now, post_id_of, insert_post, insert_event, opened_thread, opened_view, post_of,
  open_script,
}
use metawsm.Store.Scripts.After.{after_open}
use metawsm.Store.Commands.{
  ForumThreadView, join_queue, thread_view, knows_event, forum_event_exists, get_forum_thread,
  refresh_forum_thread_stats, refresh_forum_thread_queue_view, forum_open_thread,
}

-- No table knows the ids of the command.
pub record IsFresh (cmd : ForumOpenThreadCommand) (db : Tables) : Type 0 where
  pub no_thread : find thread_key cmd.envelope.thread_id db.threads ≡ none
  pub no_view : find view_key cmd.envelope.thread_id db.views ≡ none
  pub no_event : find event_key cmd.envelope.event_id db.events ≡ none
  pub no_post : find post_key (post_id_of cmd.envelope.event_id) db.posts ≡ none
  pub no_post_event : find post_event cmd.envelope.event_id db.posts ≡ none

open_script_lem :
    (cmd : ForumOpenThreadCommand) (at : String) (db : Tables)
    → IsFresh cmd db
    → open_script cmd at db ≡ some (after_open cmd at db)
unfolding open_script insert insert_post insert_event post_of opened_thread opened_view
open_script_lem cmd at db fresh =
    ground
      (arith, fresh.no_thread, fresh.no_post_event, fresh.no_post, fresh.no_event, fresh.no_view)

-- The tables after a whole opening
unfoldable pub opened_tables : ForumOpenThreadCommand → String → Tables → Tables
opened_tables cmd now db = rebuild_queue cmd.envelope.thread_id (
    rebuild_stats cmd.envelope.ticket now
      (after_open cmd (at_or_now cmd.envelope.occurred_at now) db))

opened_tables-views :
    (cmd : ForumOpenThreadCommand) (now : String) (db : Tables)
    → (opened_tables cmd now db).views
      ≡ db.views ++ opened_view cmd (at_or_now cmd.envelope.occurred_at now) ∷ []
unfolding opened_tables rebuild_stats
opened_tables-views cmd now db =
    ap (λ (t : Tables). t.views)
      (rebuild_queue-only cmd.envelope.thread_id (
        rebuild_stats cmd.envelope.ticket now
          (after_open cmd (at_or_now cmd.envelope.occurred_at now) db)))

find-opened :
    (cmd : ForumOpenThreadCommand) (now : String) (db : Tables)
    → find view_key cmd.envelope.thread_id db.views ≡ none
    → find view_key cmd.envelope.thread_id (opened_tables cmd now db).views
      ≡ some (opened_view cmd (at_or_now cmd.envelope.occurred_at now))
unfolding opened_view opened_thread
find-opened cmd now db h = rw (opened_tables-views cmd now db) (
    rw
      (find-concat view_key cmd.envelope.thread_id
        (opened_view cmd (at_or_now cmd.envelope.occurred_at now)) db.views h)
      (rw (eq_refl cmd.envelope.thread_id)))

knows_event-fresh :
    (event_id : String) (db : Tables)
    → find event_key event_id db.events ≡ none
    → knows_event event_id db ≡ false
unfolding knows_event
knows_event-fresh event_id db h = rw h

pub forum_open_thread_lem :
    (cmd : ForumOpenThreadCommand) (now : String) (db : Tables) (n : ℕ)
    → (trim_space cmd.envelope.event_id == "") ≡ false
    → trim_space cmd.envelope.thread_id ≡ cmd.envelope.thread_id
    → (cmd.envelope.thread_id == "") ≡ false
    → IsFresh cmd db
    → forum_open_thread cmd now (quiet db n) ≡ (
      ok (thread_view cmd.envelope.thread_id (opened_tables cmd now db)),
      quiet (opened_tables cmd now db) n,
    )
unfolding forum_open_thread forum_event_exists get_forum_thread refresh_forum_thread_stats
    refresh_forum_thread_queue_view opened_tables ◌>>=◌ exec query
forum_open_thread_lem cmd now db n named trimmed thread_named fresh = rw named (
    rw (knows_event-fresh cmd.envelope.event_id db fresh.no_event) (
      rw (open_script_lem cmd (at_or_now cmd.envelope.occurred_at now) db fresh)
        (rw (trimmed) (rw thread_named))))

join_queue-row : (o : Option QueueRow) (v : ViewRow) → (join_queue o v).row ≡ v
join_queue-row none v = refl
join_queue-row (some q) v = refl

-- While sqlite3 answers, opening a thread under ids that no table knows, none of them blank and
-- the thread's trimmed, returns the view of this thread, which stands in forum_thread_views
-- afterwards: the thread has the id, ticket, run and title of the command, is in the state `new`,
-- without an assignee, and has one post, by the actor of the command.
pub open_shows_thread :
    (cmd : ForumOpenThreadCommand) (now : String) (db : Tables) (n : ℕ)
    → (trim_space cmd.envelope.event_id == "") ≡ false
    → trim_space cmd.envelope.thread_id ≡ cmd.envelope.thread_id
    → (cmd.envelope.thread_id == "") ≡ false
    → IsFresh cmd db
    → let after = forum_open_thread cmd now (quiet db n) in
      (v : ForumThreadView) × (after.0 ≡ ok (some v))
      × (find view_key cmd.envelope.thread_id after.1.tables.views ≡ some v.row)
      × (v.row.thread.thread_id ≡ cmd.envelope.thread_id)
      × (v.row.thread.ticket ≡ cmd.envelope.ticket)
      × (v.row.thread.run_id ≡ cmd.envelope.run_id)
      × (v.row.thread.title ≡ cmd.title)
      × (v.row.thread.state ≡ ThreadState.new)
      × (v.row.thread.assignee_type ≡ ActorType.unset)
      × (v.row.thread.assignee_name ≡ "")
      × (v.row.posts_count ≡ 1)
      × (v.row.last_post_by_type ≡ cmd.envelope.actor_type)
      × (v.row.last_post_by_name ≡ cmd.envelope.actor_name)
unfolding thread_view opened_view opened_thread
open_shows_thread cmd now db n named trimmed thread_named fresh =
    let final = opened_tables cmd now db in
    let view = opened_view cmd (at_or_now cmd.envelope.occurred_at now) in
    let there = find-opened cmd now db fresh.no_view in
    let same_row = join_queue-row (find queue_key cmd.envelope.thread_id final.queue) view in
    let ran = forum_open_thread_lem cmd now db n named trimmed thread_named fresh in
    (
      join_queue (find queue_key cmd.envelope.thread_id final.queue) view,
      rw ran (rw there),
      rw ran (there ∙ ap some (sym same_row)),
      ap (λ (r : ViewRow). r.thread.thread_id) same_row,
      ap (λ (r : ViewRow). r.thread.ticket) same_row,
      ap (λ (r : ViewRow). r.thread.run_id) same_row,
      ap (λ (r : ViewRow). r.thread.title) same_row,
      ap (λ (r : ViewRow). r.thread.state) same_row,
      ap (λ (r : ViewRow). r.thread.assignee_type) same_row,
      ap (λ (r : ViewRow). r.thread.assignee_name) same_row,
      ap (λ (r : ViewRow). r.posts_count) same_row,
      ap (λ (r : ViewRow). r.last_post_by_type) same_row,
      ap (λ (r : ViewRow). r.last_post_by_name) same_row,
    )
