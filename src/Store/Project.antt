-- ===== src/Store/Project.antt =====
-- The SELECT of `refreshForumThreadView` (internal/store/sqlite_forum.go): a row of
-- forum_thread_views from a thread and its posts.
pub mod Newest
use metawsm.Base.{
  ℕ, String, Bool, true, false, ◌&&◌, ◌||◌, Option, none, some, List, [], ◌∷◌, ◌++◌, length, ◌==◌,
  string_eq, if◌then◌else◌,
}
use metawsm.Base.Text.{text_ltb}
use metawsm.Base.Rows.{find, upsert}
use metawsm.Model.Forum.{ActorType}
use metawsm.Store.Schema.{ThreadRow, PostRow, ViewRow, Tables, thread_key, view_key}

-- WHERE p.thread_id = t.thread_id
unfoldable pub posts_of : String → List PostRow → List PostRow
posts_of tid [] = []
posts_of tid (p ∷ ps) = let rest = posts_of tid ps in if p.thread_id == tid then p ∷ rest else rest

-- `p` comes behind `q` in ORDER BY created_at DESC, post_id DESC
unfoldable pub before : PostRow → PostRow → Bool
before p q =
    text_ltb p.created_at q.created_at
    || (p.created_at == q.created_at && text_ltb p.post_id q.post_id)

abbrev pub later : PostRow → Option PostRow → Option PostRow
later p none = some p
later p (some q) = if before p q then some q else some p

-- ORDER BY created_at DESC, post_id DESC LIMIT 1
unfoldable pub newest : List PostRow → Option PostRow
newest [] = none
newest (p ∷ ps) = later p (newest ps)

abbrev pub with_last : Option PostRow → ViewRow → ViewRow
with_last none v = v
with_last (some p) v = record v {
  last_post_at = p.created_at;
  last_post_by_type = p.author_type;
  last_post_by_name = p.author_name;
}

unfoldable pub project : List PostRow → ThreadRow → ViewRow
project posts t =
    let own = posts_of t.thread_id posts in
    with_last (newest own) (record {
      thread = t;
      posts_count = length own;
      last_post_at = "";
      last_post_by_type = ActorType.unset;
      last_post_by_name = "";
    })

abbrev pub upsert_view : Option ThreadRow → Tables → Tables
upsert_view none db = db
upsert_view (some t) db = record db { views = upsert view_key (project db.posts t) db.views }

-- The statement of `refreshForumThreadView`.
unfoldable pub rebuild_view : String → Tables → Tables
rebuild_view tid db = upsert_view (find thread_key tid db.threads) db
