-- ===== src/Store/Synced/Scripts.antt =====
-- Every transaction keeps the view table in step (internal/store/sqlite_forum.go).
use mathlib.Core.Option
use metawsm.Base.{
  String, ◌≡◌, refl, ◌≢◌, sym, ap, subst, ◌∙◌, ◌+◌, length, length-append, eq_refl, true, false,
  Option, none, some, List, [], ◌∷◌, ◌++◌, arith, eq_iff, ◌==◌, string_eq, if◌then◌else◌,
  Bool-cases, inl, inr,
}
use metawsm.Base.Rows.{find, find-update, find-concat, key-find}
use metawsm.Model.Forum.{
  ThreadState, ForumEnvelope, ForumOpenThreadCommand, ForumAddPostCommand, ForumAssignThreadCommand,
  ForumSetPriorityCommand,
}
use metawsm.Store.Schema.{ThreadRow, PostRow, ViewRow, Tables, thread_key, view_key}
use metawsm.Store.Project.{posts_of, newest, project}
use metawsm.Store.Project.Newest.{AllBefore, newest-concat, posts_of-concat}
use metawsm.Store.Scripts.{
  update_thread, post_of, opened_thread, opened_view, touch, count_post, assign, move, prioritise,
}
use metawsm.Store.Scripts.After.{after_open, after_post, after_assign, after_state, after_priority}
use metawsm.Store.Synced.{IsSynced, thread-project, update_thread-IsSynced}

pub after_assign-IsSynced :
    (cmd : ForumAssignThreadCommand) (thread : ThreadRow) (at : String) (db : Tables)
    → IsSynced db
    → IsSynced (after_assign cmd thread at db)
unfolding update_thread
after_assign-IsSynced cmd thread at db h =
    let moved =
      update_thread-IsSynced cmd.envelope.thread_id (assign cmd.assignee_type cmd.assignee_name at)
        db (λ t. refl) h in
    record { views_project = moved.views_project; posts_owned = moved.posts_owned }

pub after_state-IsSynced :
    (envelope : ForumEnvelope) (event_type : String) (to : ThreadState) (thread : ThreadRow)
    (at : String) (db : Tables)
    → IsSynced db
    → IsSynced (after_state envelope event_type to thread at db)
unfolding update_thread
after_state-IsSynced envelope event_type to thread at db h =
    let moved = update_thread-IsSynced envelope.thread_id (move to at) db (λ t. refl) h in
    record { views_project = moved.views_project; posts_owned = moved.posts_owned }

pub after_priority-IsSynced :
    (cmd : ForumSetPriorityCommand) (thread : ThreadRow) (at : String) (db : Tables)
    → IsSynced db
    → IsSynced (after_priority cmd thread at db)
unfolding update_thread
after_priority-IsSynced cmd thread at db h =
    let moved =
      update_thread-IsSynced cmd.envelope.thread_id (prioritise cmd.priority at) db (λ t. refl) h in
    record { views_project = moved.views_project; posts_owned = moved.posts_owned }

-- A post of another thread does not show.
project-concat_ne :
    (posts : List PostRow) (p : PostRow) (t : ThreadRow)
    → (p.thread_id == t.thread_id) ≡ false
    → project (posts ++ p ∷ []) t ≡ project posts t
unfolding project
project-concat_ne posts p t e = rw (posts_of-concat t.thread_id posts p, e)

-- The row of a thread that is not the post's own.
project-others :
    (posts : List PostRow) (p : PostRow) (tid : String) (o : Option ThreadRow)
    → ((t : ThreadRow) → o ≡ some t → t.thread_id ≡ tid)
    → (p.thread_id == tid) ≡ false
    → Option.map (project (posts ++ p ∷ [])) o ≡ Option.map (project posts) o
project-others posts p tid none keyed e = refl
project-others posts p tid (some t) keyed e =
    ap some (project-concat_ne posts p t (rw (keyed t refl) e))

-- The first post of a thread that has none.
project-opened :
    (cmd : ForumOpenThreadCommand) (at : String) (posts : List PostRow)
    → posts_of cmd.envelope.thread_id posts ≡ []
    → project (posts ++ post_of cmd.envelope cmd.body at ∷ []) (opened_thread cmd at)
      ≡ opened_view cmd at
unfolding project opened_view newest post_of
project-opened cmd at posts none_yet =
    rw (posts_of-concat cmd.envelope.thread_id posts (post_of cmd.envelope cmd.body at))
      (rw (eq_refl cmd.envelope.thread_id) (rw none_yet refl))

opened_rows :
    (cmd : ForumOpenThreadCommand) (at : String) (db : Tables) (j : String)
    → posts_of cmd.envelope.thread_id db.posts ≡ []
    → IsSynced db
    → (if cmd.envelope.thread_id == j then some (opened_view cmd at) else find view_key j db.views)
      ≡ Option.map (project (db.posts ++ post_of cmd.envelope cmd.body at ∷ [])) (
          if cmd.envelope.thread_id == j
          then some (opened_thread cmd at)
          else find thread_key j db.threads)
opened_rows cmd at db j none_yet h = elim (Bool-cases (cmd.envelope.thread_id == j)) [
  | inl same ↦ rw same (ap some (sym (project-opened cmd at db.posts none_yet)))
  | inr other ↦ rw other (
      h.views_project j
      ∙ sym (
          project-others db.posts (post_of cmd.envelope cmd.body at) j
            (find thread_key j db.threads) (λ t e. key-find thread_key j db.threads e)
            (unfold post_of in other)))
]

-- Nobody but its own thread gains a post.
posts_of-concat_none :
    (db : Tables) (p : PostRow) (j : String)
    → (p.thread_id == j) ≡ false
    → posts_of j db.posts ≡ []
    → posts_of j (db.posts ++ p ∷ []) ≡ []
posts_of-concat_none db p j other e = rw (posts_of-concat j db.posts p, other) e

opened_owned :
    (cmd : ForumOpenThreadCommand) (at : String) (db : Tables) (j : String)
    → (if cmd.envelope.thread_id == j
        then some (opened_thread cmd at)
        else find thread_key j db.threads)
      ≡ none
    → IsSynced db
    → posts_of j (db.posts ++ post_of cmd.envelope cmd.body at ∷ []) ≡ []
opened_owned cmd at db j e h = elim (Bool-cases (cmd.envelope.thread_id == j)) [
  | inl same ↦ cc (rw same at e)
  | inr other ↦
      posts_of-concat_none db (post_of cmd.envelope cmd.body at) j (unfold post_of in other)
        (h.posts_owned j (rw other at e))
]

pub after_open-IsSynced :
    (cmd : ForumOpenThreadCommand) (at : String) (db : Tables)
    → find thread_key cmd.envelope.thread_id db.threads ≡ none
    → find view_key cmd.envelope.thread_id db.views ≡ none
    → IsSynced db
    → IsSynced (after_open cmd at db)
unfolding opened_view opened_thread post_of
after_open-IsSynced cmd at db no_thread no_view h = record {
  views_project = λ j. rw (find-concat view_key j (opened_view cmd at) db.views no_view) (
      rw (find-concat thread_key j (opened_thread cmd at) db.threads no_thread)
        (opened_rows cmd at db j (h.posts_owned cmd.envelope.thread_id no_thread) h));
  posts_owned = λ j e.
      opened_owned cmd at db j
        (rw (find-concat thread_key j (opened_thread cmd at) db.threads no_thread) at e) h;
}

posts_count-project :
    (posts : List PostRow) (t : ThreadRow)
    → (project posts t).posts_count ≡ length (posts_of t.thread_id posts)
unfolding project
posts_count-project posts t = ground arith

-- What the projection shows once the newest post is in.
abbrev showing : PostRow → List PostRow → ThreadRow → ViewRow
showing p posts t = record {
  thread = touch p.created_at t;
  posts_count = length (posts_of t.thread_id posts) + 1;
  last_post_at = p.created_at;
  last_post_by_type = p.author_type;
  last_post_by_name = p.author_name;
}

project-newest :
    (posts : List PostRow) (p : PostRow) (t : ThreadRow)
    → (p.thread_id == t.thread_id) ≡ true
    → AllBefore p (posts_of t.thread_id posts)
    → project (posts ++ p ∷ []) (touch p.created_at t) ≡ showing p posts t
unfolding project
project-newest posts p t e newer = rw (posts_of-concat t.thread_id posts p) (
    rw e (
      rw (newest-concat (posts_of t.thread_id posts) p newer)
        (rw (length-append (posts_of t.thread_id posts) (p ∷ [])))))

count_post-project :
    (posts : List PostRow) (p : PostRow) (t : ThreadRow)
    → count_post p (project posts t) ≡ showing p posts t
count_post-project posts p t = rw (thread-project posts t, posts_count-project posts t)

own_row :
    (cmd : ForumAddPostCommand) (at : String) (db : Tables) (t : ThreadRow)
    → cmd.envelope.thread_id ≡ t.thread_id
    → AllBefore (post_of cmd.envelope cmd.body at) (posts_of cmd.envelope.thread_id db.posts)
    → project (db.posts ++ post_of cmd.envelope cmd.body at ∷ []) (touch at t)
      ≡ showing (post_of cmd.envelope cmd.body at) db.posts t
unfolding post_of
own_row cmd at db t e newer =
    project-newest db.posts (post_of cmd.envelope cmd.body at) t ((eq_iff _ _).1 e)
      (subst (λ k. AllBefore (post_of cmd.envelope cmd.body at) (posts_of k db.posts)) e newer)

posted_rows :
    (cmd : ForumAddPostCommand) (at : String) (db : Tables) (j : String) (o : Option ThreadRow)
    → ((t : ThreadRow) → o ≡ some t → t.thread_id ≡ j)
    → AllBefore (post_of cmd.envelope cmd.body at) (posts_of cmd.envelope.thread_id db.posts)
    → (if cmd.envelope.thread_id == j
        then Option.map
            (count_post (post_of cmd.envelope cmd.body at))
            (Option.map (project db.posts) o)
        else Option.map (project db.posts) o)
      ≡ Option.map
          (project (db.posts ++ post_of cmd.envelope cmd.body at ∷ []))
          (if cmd.envelope.thread_id == j then Option.map (touch at) o else o)
posted_rows cmd at db j none keyed newer = elim (Bool-cases (cmd.envelope.thread_id == j)) [
  | inl e ↦ rw e
  | inr e ↦ rw e
]
posted_rows cmd at db j (some t) keyed newer = elim (Bool-cases (cmd.envelope.thread_id == j)) [
  | inl same ↦ rw same (
      ap some (
        count_post-project db.posts (post_of cmd.envelope cmd.body at) t
        ∙ sym (own_row cmd at db t (same_thread same) newer)))
  | inr other ↦ rw other (
      ap some (
        sym (
          project-concat_ne db.posts (post_of cmd.envelope cmd.body at) t
            (unfold post_of in rw (keyed t refl) other))))
]
  where
    same_thread : (cmd.envelope.thread_id == j) ≡ true → cmd.envelope.thread_id ≡ t.thread_id
    same_thread e = (eq_iff cmd.envelope.thread_id j).0 e ∙ sym (keyed t refl)

posted_owned :
    (cmd : ForumAddPostCommand) (at : String) (db : Tables) (j : String) (o : Option ThreadRow)
    → find thread_key cmd.envelope.thread_id db.threads ≢ none
    → find thread_key j db.threads ≡ o
    → (if cmd.envelope.thread_id == j then Option.map (touch at) o else o) ≡ none
    → IsSynced db
    → posts_of j (db.posts ++ post_of cmd.envelope cmd.body at ∷ []) ≡ []
posted_owned cmd at db j (some t) there found e h =
    elim (Bool-cases (cmd.envelope.thread_id == j)) [
      | inl same ↦ cc (rw same at e)
      | inr other ↦ cc (rw other at e)
    ]
posted_owned cmd at db j none there found e h = elim (Bool-cases (cmd.envelope.thread_id == j)) [
  | inl same ↦ absurd (there (rw ((eq_iff cmd.envelope.thread_id j).0 same) found))
  | inr other ↦
      posts_of-concat_none db (post_of cmd.envelope cmd.body at) j (unfold post_of in other)
        (h.posts_owned j found)
]

pub after_post-IsSynced :
    (cmd : ForumAddPostCommand) (thread : ThreadRow) (at : String) (db : Tables)
    → find thread_key cmd.envelope.thread_id db.threads ≢ none
    → AllBefore (post_of cmd.envelope cmd.body at) (posts_of cmd.envelope.thread_id db.posts)
    → IsSynced db
    → IsSynced (after_post cmd thread at db)
after_post-IsSynced cmd thread at db there newer h = record {
  views_project = λ j.
      rw
        (find-update view_key cmd.envelope.thread_id j
          (count_post (post_of cmd.envelope cmd.body at)) db.views (λ v. refl))
        (rw (find-update thread_key cmd.envelope.thread_id j (touch at) db.threads (λ t. refl)) (
          rw (h.views_project j) (
            posted_rows cmd at db j (find thread_key j db.threads)
              (λ t e. key-find thread_key j db.threads e) newer)));
  posts_owned = λ j e.
      posted_owned cmd at db j (find thread_key j db.threads) there refl
        (rw (find-update thread_key cmd.envelope.thread_id j (touch at) db.threads (λ t. refl)) at
          e)
        h;
}
