-- ===== src/Store/Synced/History.antt =====
-- The view table after any history of commands (internal/store/sqlite_forum.go).
use mathlib.Core.Option
use metawsm.Base.{String, ◌≡◌, ◌≢◌, refl, sym, ap, ◌∙◌, subst, none, some}
use metawsm.Base.Rows.{find}
use metawsm.Model.Forum.{ForumAddPostCommand}
use metawsm.Store.Schema.{Tables, empty_tables, thread_key, view_key}
use metawsm.Store.Sql.{World}
use metawsm.Store.Project.{posts_of, project}
use metawsm.Store.Project.Newest.{AllBefore}
use metawsm.Store.Queue.{rebuild_queue, upsert_queue}
use metawsm.Store.Stats.{rebuild_stats}
use metawsm.Store.Scripts.{post_of}
use metawsm.Store.Scripts.After.{
  open_script-eq-some, post_script-eq-some, assign_script-eq-some, state_script-eq-some,
  priority_script-eq-some,
}
use metawsm.Store.Stable.{Stable, History, History-P}
use metawsm.Store.Synced.{IsSynced}
use metawsm.Store.Synced.Scripts.{
  after_open-IsSynced, after_post-IsSynced, after_assign-IsSynced, after_state-IsSynced,
  after_priority-IsSynced,
}

-- A post is written behind every earlier post of its thread.
abbrev pub IsLatest : ForumAddPostCommand → String → Tables → Type 0
IsLatest cmd at db =
    AllBefore (post_of cmd.envelope cmd.body at) (posts_of cmd.envelope.thread_id db.posts)

has_thread :
    (tid : String) (db : Tables)
    → IsSynced db
    → find view_key tid db.views ≢ none
    → find thread_key tid db.threads ≢ none
has_thread tid db h there gone =
    there (h.views_project tid ∙ ap (Option.map (project db.posts)) gone)

rebuild_queue-IsSynced :
    (tid : String) (db : Tables) → IsSynced db → IsSynced (rebuild_queue tid db)
unfolding rebuild_queue
rebuild_queue-IsSynced tid db h = by_row (find thread_key tid db.threads)
  where
    by_row : (o : _) → IsSynced (upsert_queue o db)
    by_row none = h
    by_row (some t) = record { views_project = h.views_project; posts_owned = h.posts_owned }

synced : Stable IsSynced IsLatest
unfolding rebuild_stats
synced = record {
  opens = λ cmd at db db' h e.
      let (after, no_thread, no_view, _) = open_script-eq-some cmd at db e in
      subst IsSynced (sym after) (after_open-IsSynced cmd at db no_thread no_view h);
  posts = λ cmd thread at db db' h latest there e.
      subst IsSynced (sym (post_script-eq-some cmd thread at db e).0) (
        after_post-IsSynced cmd thread at db (has_thread cmd.envelope.thread_id db h there) latest
          h);
  assigns = λ cmd thread at db db' h e.
      subst IsSynced (sym (assign_script-eq-some cmd thread at db e).0)
        (after_assign-IsSynced cmd thread at db h);
  moves = λ envelope event_type to thread at db db' h e.
      subst IsSynced (sym (state_script-eq-some envelope event_type to thread at db e).0)
        (after_state-IsSynced envelope event_type to thread at db h);
  ranks = λ cmd thread at db db' h e.
      subst IsSynced (sym (priority_script-eq-some cmd thread at db e).0)
        (after_priority-IsSynced cmd thread at db h);
  counts =
      λ ticket now db h. record { views_project = h.views_project; posts_owned = h.posts_owned };
  queues = rebuild_queue-IsSynced;
}

IsSynced-empty : IsSynced empty_tables
unfolding find empty_tables posts_of
IsSynced-empty = record { views_project = λ tid. refl; posts_owned = λ tid e. refl }

-- After any commands on an empty store, each returning or failing at any statement, the row of
-- forum_thread_views under every key is the projection of the thread and its posts, provided that
-- each new post comes behind the earlier posts of its thread.
pub views_follow_posts :
    {w v : World}
    → w.tables ≡ empty_tables
    → History IsLatest w v
    → (tid : String)
    → find view_key tid v.tables.views
      ≡ Option.map (project v.tables.posts) (find thread_key tid v.tables.threads)
views_follow_posts e past =
    (History-P synced (subst IsSynced (sym e) IsSynced-empty) past).views_project
