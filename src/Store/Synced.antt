-- ===== src/Store/Synced.antt =====
-- forum_thread_views beside what `refreshForumThreadView` would put there
-- (internal/store/sqlite_forum.go).
pub mod Scripts
pub mod History
use mathlib.Core.Option
use metawsm.Base.{
  String, ◌≡◌, refl, Bool, true, false, Option, none, some, List, [], ◌∷◌, arith, eq_iff, ◌==◌,
  string_eq, if◌then◌else◌,
}
use metawsm.Base.Rows.{find, update, find-update}
use metawsm.Store.Schema.{ThreadRow, PostRow, ViewRow, Tables, thread_key, view_key}
use metawsm.Store.Project.{posts_of, newest, with_last, project}
use metawsm.Store.Scripts.{update_thread}

-- The view table is the projection of the threads and their posts, and no post lacks its thread.
pub record IsSynced (db : Tables) : Type 0 where
  pub views_project :
      (tid : String)
      → find view_key tid db.views ≡ Option.map (project db.posts) (find thread_key tid db.threads)
  pub posts_owned :
      (tid : String) → find thread_key tid db.threads ≡ none → posts_of tid db.posts ≡ []

pub project-update :
    (posts : List PostRow) (f : ThreadRow → ThreadRow) (t : ThreadRow)
    → (f t).thread_id ≡ t.thread_id
    → project posts (f t) ≡ record (project posts t) { thread = f t }
unfolding project
project-update posts f t e = rw e (ground arith)

pub thread-project : (posts : List PostRow) (t : ThreadRow) → (project posts t).thread ≡ t
unfolding project
thread-project posts t = ground arith

-- An UPDATE by `f` on both tables commutes with the projection.
project-commutes :
    (posts : List PostRow) (f : ThreadRow → ThreadRow)
    → ((t : ThreadRow) → (f t).thread_id ≡ t.thread_id)
    → (b : Bool) (o : Option ThreadRow)
    → (if b
        then Option.map
            (λ (v : ViewRow). record v { thread = f v.thread })
            (Option.map (project posts) o)
        else Option.map (project posts) o)
      ≡ Option.map (project posts) (if b then Option.map f o else o)
project-commutes posts f keeps false o = refl
project-commutes posts f keeps true none = refl
project-commutes posts f keeps true (some t) =
    rw (project-update posts f t (keeps t), thread-project posts t)

pub update_thread-IsSynced :
    (tid : String) (f : ThreadRow → ThreadRow) (db : Tables)
    → ((t : ThreadRow) → (f t).thread_id ≡ t.thread_id)
    → IsSynced db
    → IsSynced (update_thread tid f db)
unfolding update_thread
update_thread-IsSynced tid f db keeps h = record {
  views_project = λ j.
      rw
        (find-update view_key tid j (λ v. record v { thread = f v.thread }) db.views
          (λ v. keeps v.thread))
        (rw (find-update thread_key tid j f db.threads keeps, h.views_project j)
          (project-commutes db.posts f keeps (tid == j) (find thread_key j db.threads)));
  posts_owned =
      λ j e. h.posts_owned j (ground (arith, find-update thread_key tid j f db.threads keeps));
}
