-- ===== src/Store/Replay.antt =====
-- forum_events as the source of forum_thread_views (internal/store/sqlite_forum.go): what the log
-- alone says of a thread.
use mathlib.Core.Option
use metawsm.Base.{
  ℕ, ◌+◌, String, ◌≡◌, refl, sym, subst, Bool, true, false, Option, none, some, List, [], ◌∷◌, ◌++◌,
  arith, ◌==◌, string_eq, if◌then◌else◌,
}
use metawsm.Base.Rows.{find, update, find-update, find-concat}
use metawsm.Model.Forum.{ActorType, ThreadState, Priority, ForumOpenThreadCommand}
use metawsm.Store.Schema.{
  EventRow, ViewRow, Payload, opened, posted, assigned, state_changed, priority_changed,
  integration, Tables, empty_tables, view_key,
}
use metawsm.Store.Sql.{World}
use metawsm.Store.Queue.{rebuild_queue-only}
use metawsm.Store.Stats.{rebuild_stats}
use metawsm.Store.Scripts.{
  update_thread, post_of, opened_view, event_of, count_post, assign, move, prioritise,
}
use metawsm.Store.Scripts.After.{
  after_open, open_script-eq-some, post_script-eq-some, assign_script-eq-some, state_script-eq-some,
  priority_script-eq-some,
}
use metawsm.Store.Stable.{Stable, History, History-P}

pub record Facts : Type 0 where
  pub title : String
  pub state : ThreadState
  pub priority : Priority
  pub assignee_type : ActorType
  pub assignee_name : String
  pub posts_count : ℕ

abbrev pub facts_of : ViewRow → Facts
facts_of v = record {
  title = v.thread.title;
  state = v.thread.state;
  priority = v.thread.priority;
  assignee_type = v.thread.assignee_type;
  assignee_name = v.thread.assignee_name;
  posts_count = v.posts_count;
}

-- What an event does to its thread. Nothing but an opening makes a thread.
abbrev pub effect : Payload → Option Facts → Option Facts
effect (opened title body priority) o = some (record {
  title = title;
  state = ThreadState.new;
  priority = priority;
  assignee_type = ActorType.unset;
  assignee_name = "";
  posts_count = 1;
})
effect (posted body) o = Option.map (λ (f : Facts). record f { posts_count = f.posts_count + 1 }) o
effect (assigned from_type from_name to_type to_name note) o =
    Option.map (λ (f : Facts). record f { assignee_type = to_type; assignee_name = to_name }) o
effect (state_changed from to) o = Option.map (λ (f : Facts). record f { state = to }) o
effect (priority_changed from to) o = Option.map (λ (f : Facts). record f { priority = to }) o
effect (integration fields) o = o

-- The events of one thread, from the oldest on.
unfoldable pub replay : String → Option Facts → List EventRow → Option Facts
replay tid o [] = o
replay tid o (e ∷ es) =
    replay tid (if e.envelope.thread_id == tid then effect e.payload o else o) es

replay-concat :
    (tid : String) (o : Option Facts) (es : List EventRow) (e : EventRow)
    → replay tid o (es ++ e ∷ []) ≡ (
        if e.envelope.thread_id == tid then effect e.payload (replay tid o es) else replay tid o es)
unfolding replay
replay-concat tid o [] e = refl
replay-concat tid o (d ∷ es) e =
    replay-concat tid (if d.envelope.thread_id == tid then effect d.payload o else o) es e

pub record IsLogged (db : Tables) : Type 0 where
  pub views_replay :
      (tid : String) → replay tid none db.events ≡ Option.map facts_of (find view_key tid db.views)

-- One more event whose effect is that of an UPDATE of the view.
log_event-IsLogged :
    (db : Tables) (e : EventRow) (g : ViewRow → ViewRow)
    → ((v : ViewRow) → view_key (g v) ≡ view_key v)
    → ((v : ViewRow) → effect e.payload (some (facts_of v)) ≡ some (facts_of (g v)))
    → effect e.payload none ≡ none
    → IsLogged db
    → (tid : String)
    → replay tid none (db.events ++ e ∷ [])
      ≡ Option.map facts_of (find view_key tid (update view_key e.envelope.thread_id g db.views))
log_event-IsLogged db e g keeps same nothing h tid = rw (replay-concat tid none db.events e) (
    rw (find-update view_key e.envelope.thread_id tid g db.views keeps) (
      rw (h.views_replay tid) (by_view (e.envelope.thread_id == tid) (find view_key tid db.views))))
  where
    by_view :
        (b : Bool) (o : Option ViewRow)
        → (if b then effect e.payload (Option.map facts_of o) else Option.map facts_of o)
          ≡ Option.map facts_of (if b then Option.map g o else o)
    by_view false o = refl
    by_view true none = nothing
    by_view true (some v) = same v

log_open :
    (cmd : ForumOpenThreadCommand) (at : String) (db : Tables) (tid : String)
    → find view_key cmd.envelope.thread_id db.views ≡ none
    → replay tid none db.events ≡ Option.map facts_of (find view_key tid db.views)
    → replay tid none (after_open cmd at db).events
      ≡ Option.map facts_of (find view_key tid (after_open cmd at db).views)
unfolding opened_view
log_open cmd at db tid no_view h =
    rw (find-concat view_key tid (opened_view cmd at) db.views no_view)
      (rw replay-concat (rw h (ground arith)))

logged : Stable IsLogged (λ _ _ _. Unit)
unfolding rebuild_stats update_thread event_of
logged = record {
  opens = λ cmd at db db' h e.
      let (after, _, no_view, _) = open_script-eq-some cmd at db e in
      subst IsLogged (sym after)
        (record { views_replay = λ tid. log_open cmd at db tid no_view (h.views_replay tid) });
  posts = λ cmd thread at db db' h admitted there e.
      subst IsLogged (sym (post_script-eq-some cmd thread at db e).0) (record {
        views_replay =
            log_event-IsLogged db _ (count_post (post_of cmd.envelope cmd.body at)) (λ v. refl)
              (λ v. refl) refl h;
      });
  assigns = λ cmd thread at db db' h e.
      subst IsLogged (sym (assign_script-eq-some cmd thread at db e).0) (record {
        views_replay =
            log_event-IsLogged db _
              (λ v. record v { thread = assign cmd.assignee_type cmd.assignee_name at v.thread })
              (λ v. refl) (λ v. refl) refl h;
      });
  moves = λ envelope event_type to thread at db db' h e.
      subst IsLogged (sym (state_script-eq-some envelope event_type to thread at db e).0) (record {
        views_replay =
            log_event-IsLogged db _ (λ v. record v { thread = move to at v.thread }) (λ v. refl)
              (λ v. refl) refl h;
      });
  ranks = λ cmd thread at db db' h e.
      subst IsLogged (sym (priority_script-eq-some cmd thread at db e).0) (record {
        views_replay =
            log_event-IsLogged db _ (λ v. record v { thread = prioritise cmd.priority at v.thread })
              (λ v. refl) (λ v. refl) refl h;
      });
  counts = λ ticket now db h. record { views_replay = h.views_replay };
  queues = λ tid db h.
      subst IsLogged (sym (rebuild_queue-only tid db)) (record { views_replay = h.views_replay });
}

IsLogged-empty : IsLogged empty_tables
unfolding find empty_tables replay
IsLogged-empty = record { views_replay = λ tid. refl }

-- After any commands on an empty store, each returning or failing at any statement, the events of
-- a thread replay to the title, state, priority, assignee and number of posts that its row of
-- forum_thread_views shows, and to nothing exactly where there is no row.
pub views_replay_events :
    {w v : World}
    → w.tables ≡ empty_tables
    → History (λ _ _ _. Unit) w v
    → (tid : String)
    → replay tid none v.tables.events ≡ Option.map facts_of (find view_key tid v.tables.views)
views_replay_events e past =
    (History-P logged (subst IsLogged (sym e) IsLogged-empty) past).views_replay
