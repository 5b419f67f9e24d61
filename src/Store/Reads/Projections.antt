-- ===== src/Store/Reads/Projections.antt =====
-- Projecting the same event again (internal/store/sqlite_forum.go).
use metawsm.Base.{
  ℕ, String, ◌≡◌, refl, true, ◌&&◌, ◌||◌, Option, none, some, List, [], ◌∷◌, ◌++◌, arith, eq_refl,
  ◌==◌, string_eq, if◌then◌else◌, Bool-cases, inl, inr,
}
use metawsm.Base.Text.{IsName, trim_space}
use metawsm.Base.Rows.{find}
use metawsm.Model.Forum.{ForumEnvelope}
use metawsm.Store.Schema.{ThreadRow, Tables, thread_key}
use metawsm.Store.Sql.{ok, M, ◌>>=◌, ◌>>◌, exec, query, pure, quiet}
use metawsm.Store.Project.{rebuild_view, upsert_view}
use metawsm.Store.Queue.{rebuild_queue, upsert_queue}
use metawsm.Store.Stats.{rebuild_stats}
use metawsm.Store.Commands.{
  refresh_forum_thread_view, refresh_forum_thread_queue_view, refresh_forum_thread_stats,
}
use metawsm.Store.Reads.{
  is_applied, insert_projection, apply_forum_projection_event, apply_forum_event_projections,
}

-- The tables after one projection, which a recorded event leaves alone.
unfoldable pub projected : String → String → (Tables → Tables) → Tables → Tables
projected name event_id f db =
    if is_applied name event_id db.projections then db else insert_projection name event_id (f db)

is_applied-concat :
    (name event_id other event : String) (ps : List (String × String))
    → is_applied name event_id (ps ++ (other, event) ∷ [])
      ≡ (is_applied name event_id ps || (other == name && event == event_id))
unfolding is_applied
is_applied-concat name event_id other event [] = ground arith
is_applied-concat name event_id other event ((n, e) ∷ ps) =
    ground (arith, is_applied-concat name event_id other event ps)

-- The refreshes write another table.
abbrev Apart : (Tables → Tables) → Type 0
Apart f = (db : Tables) → (f db).projections ≡ db.projections

is_applied-projected :
    (name event_id : String) (f : Tables → Tables) (db : Tables)
    → is_applied name event_id (projected name event_id f db).projections ≡ true
unfolding projected insert_projection
is_applied-projected name event_id f db = ground (
  arith,
  is_applied-concat name event_id name event_id (f db).projections,
  eq_refl name,
  eq_refl event_id,
)

is_applied-later :
    (name event_id other : String) (f : Tables → Tables) (db : Tables)
    → Apart f
    → is_applied name event_id db.projections ≡ true
    → is_applied name event_id (projected other event_id f db).projections ≡ true
unfolding projected insert_projection
is_applied-later name event_id other f db apart h =
    ground (arith, apart db, is_applied-concat name event_id other event_id (f db).projections)

apply_forum_projection_event_lem :
    (name event_id : String) (apply : M (Unit {0})) (f : Tables → Tables) (db : Tables) (n : ℕ)
    → IsName name
    → IsName event_id
    → apply (quiet db n) ≡ (ok tt, quiet (f db) n)
    → apply_forum_projection_event name event_id apply (quiet db n)
      ≡ (ok tt, quiet (projected name event_id f db) n)
unfolding apply_forum_projection_event ◌>>=◌ exec query pure projected
apply_forum_projection_event_lem name event_id apply f db n (trimmed, named) (trimmed_id, named_id)
      h =
    elim (Bool-cases (is_applied name event_id db.projections)) [
      | inl known ↦ rw (trimmed, trimmed_id, named, named_id) (rw known)
      | inr fresh ↦ rw (trimmed, trimmed_id, named, named_id) (rw fresh (rw h))
    ]

view-Apart : (tid : String) → Apart (rebuild_view tid)
unfolding rebuild_view
view-Apart tid db = by_row (find thread_key tid db.threads)
  where
    by_row : (o : Option ThreadRow) → (upsert_view o db).projections ≡ db.projections
    by_row none = refl
    by_row (some t) = refl

queue-Apart : (tid : String) → Apart (rebuild_queue tid)
unfolding rebuild_queue
queue-Apart tid db = by_row (find thread_key tid db.threads)
  where
    by_row : (o : Option ThreadRow) → (upsert_queue o db).projections ≡ db.projections
    by_row none = refl
    by_row (some t) = refl

stats-Apart : (ticket now : String) → Apart (rebuild_stats ticket now)
unfolding rebuild_stats
stats-Apart ticket now db = refl

-- The three projections one after the other
unfoldable pub all_projected : ForumEnvelope → String → Tables → Tables
all_projected e now db = projected "forum_thread_stats_v1" e.event_id (rebuild_stats e.ticket now) (
    projected "forum_thread_queue_view_v1" e.event_id (rebuild_queue e.thread_id)
      (projected "forum_thread_views_v1" e.event_id (rebuild_view e.thread_id) db))

view_refresh :
    (tid : String) (db : Tables) (n : ℕ)
    → IsName tid
    → refresh_forum_thread_view tid (quiet db n) ≡ (ok tt, quiet (rebuild_view tid db) n)
unfolding refresh_forum_thread_view exec
view_refresh tid db n (trimmed, named) = rw (trimmed, named)

queue_refresh :
    (tid : String) (db : Tables) (n : ℕ)
    → IsName tid
    → refresh_forum_thread_queue_view tid (quiet db n) ≡ (ok tt, quiet (rebuild_queue tid db) n)
unfolding refresh_forum_thread_queue_view exec
queue_refresh tid db n (trimmed, named) = rw (trimmed, named)

stats_refresh :
    (ticket now : String) (db : Tables) (n : ℕ)
    → refresh_forum_thread_stats ticket now (quiet db n)
      ≡ (ok tt, quiet (rebuild_stats ticket now db) n)
unfolding refresh_forum_thread_stats exec
stats_refresh ticket now db n = refl

views-IsName : IsName "forum_thread_views_v1"
unfolding trim_space
views-IsName = (refl, refl)

queue-IsName : IsName "forum_thread_queue_view_v1"
unfolding trim_space
queue-IsName = (refl, refl)

stats-IsName : IsName "forum_thread_stats_v1"
unfolding trim_space
stats-IsName = (refl, refl)

apply_forum_event_projections_lem :
    (e : ForumEnvelope) (now : String) (db : Tables) (n : ℕ)
    → IsName e.event_id
    → IsName e.thread_id
    → IsName e.ticket
    → apply_forum_event_projections e now (quiet db n) ≡ (ok tt, quiet (all_projected e now db) n)
unfolding apply_forum_event_projections ◌>>=◌ all_projected
apply_forum_event_projections_lem e now db n id tid ticket =
    rw (id.0, id.1, tid.0, tid.1, ticket.0, ticket.1)
      (rw
        (apply_forum_projection_event_lem "forum_thread_views_v1" e.event_id
          (refresh_forum_thread_view e.thread_id) (rebuild_view e.thread_id) db n views-IsName id
          (view_refresh e.thread_id db n tid))
        (queue_and_stats
          (projected "forum_thread_views_v1" e.event_id (rebuild_view e.thread_id) db)))
  where
    queue_and_stats :
        (t : Tables)
        → (do
          apply_forum_projection_event "forum_thread_queue_view_v1" e.event_id
              (refresh_forum_thread_queue_view e.thread_id)
          apply_forum_projection_event "forum_thread_stats_v1" e.event_id
              (refresh_forum_thread_stats e.ticket now))
            (quiet t n)
          ≡ (
            ok tt,
            quiet
                (projected "forum_thread_stats_v1" e.event_id
                  (rebuild_stats e.ticket now)
                  (projected "forum_thread_queue_view_v1" e.event_id (rebuild_queue e.thread_id) t))
                n,
          )
    queue_and_stats t =
        rw
          (apply_forum_projection_event_lem "forum_thread_queue_view_v1" e.event_id
            (refresh_forum_thread_queue_view e.thread_id) (rebuild_queue e.thread_id) t n
            queue-IsName id (queue_refresh e.thread_id t n tid))
          (apply_forum_projection_event_lem "forum_thread_stats_v1" e.event_id
            (refresh_forum_thread_stats e.ticket now) (rebuild_stats e.ticket now) _ n stats-IsName
            id (stats_refresh e.ticket now _ n))

recorded :
    (name event_id : String) (f : Tables → Tables) (db : Tables)
    → is_applied name event_id db.projections ≡ true
    → projected name event_id f db ≡ db
unfolding projected
recorded name event_id f db h = rw h

all_projected-all_projected :
    (e : ForumEnvelope) (now later : String) (db : Tables)
    → all_projected e later (all_projected e now db) ≡ all_projected e now db
unfolding all_projected
all_projected-all_projected e now later db =
    let first = projected "forum_thread_views_v1" e.event_id (rebuild_view e.thread_id) db in
    let second =
      projected "forum_thread_queue_view_v1" e.event_id (rebuild_queue e.thread_id) first in
    let third = projected "forum_thread_stats_v1" e.event_id (rebuild_stats e.ticket now) second in
    let in_first =
      is_applied-projected "forum_thread_views_v1" e.event_id (rebuild_view e.thread_id) db in
    let in_second =
      is_applied-later "forum_thread_views_v1" e.event_id "forum_thread_queue_view_v1"
        (rebuild_queue e.thread_id) first (queue-Apart e.thread_id) in_first in
    let views_third =
      is_applied-later "forum_thread_views_v1" e.event_id "forum_thread_stats_v1"
        (rebuild_stats e.ticket now) second (stats-Apart e.ticket now) in_second in
    let queue_second =
      is_applied-projected "forum_thread_queue_view_v1" e.event_id (rebuild_queue e.thread_id)
        first in
    let queue_third =
      is_applied-later "forum_thread_queue_view_v1" e.event_id "forum_thread_stats_v1"
        (rebuild_stats e.ticket now) second (stats-Apart e.ticket now) queue_second in
    let stats_third =
      is_applied-projected "forum_thread_stats_v1" e.event_id (rebuild_stats e.ticket now) second in
    rw (recorded "forum_thread_views_v1" e.event_id (rebuild_view e.thread_id) third views_third) (
      rw
        (recorded "forum_thread_queue_view_v1" e.event_id (rebuild_queue e.thread_id) third
          queue_third)
        (recorded "forum_thread_stats_v1" e.event_id (rebuild_stats e.ticket later) third
          stats_third))

-- When sqlite3 answers, an event with a trimmed id, thread and ticket, none of them blank, is
-- projected without an error, and projecting it again later changes no table.
pub projecting_twice :
    (e : ForumEnvelope) (now later : String) (db : Tables) (n : ℕ)
    → IsName e.event_id
    → IsName e.thread_id
    → IsName e.ticket
    → let first = apply_forum_event_projections e now (quiet db n) in
      (first.0 ≡ ok tt) × (apply_forum_event_projections e later first.1 ≡ (ok tt, first.1))
projecting_twice e now later db n id tid ticket =
    rw (apply_forum_event_projections_lem e now db n id tid ticket) (
      refl,
      rw (apply_forum_event_projections_lem e later (all_projected e now db) n id tid ticket)
          (rw (all_projected-all_projected e now later db)),
    )
