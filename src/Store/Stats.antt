-- ===== src/Store/Stats.antt =====
-- `refreshForumThreadStats` (internal/store/sqlite_forum.go).
use metawsm.Base.{◌+◌, String, Bool, ◌&&◌, List, [], ◌∷◌, ◌++◌, ◌==◌, string_eq, if◌then◌else◌}
use metawsm.Model.Forum.{ThreadState, Priority, state_eq, priority_eq}
use metawsm.Store.Schema.{ThreadRow, ViewRow, StatsRow, Tables}

-- The key columns of GROUP BY, below one ticket.
abbrev pub in_group : String → ThreadState → Priority → StatsRow → Bool
in_group run s p r = r.run_id == run && (r.state == s && r.priority == p)

-- One more thread in its group.
unfoldable pub tally : String → ThreadRow → List StatsRow → List StatsRow
tally now t [] =
    record {
      ticket = t.ticket;
      run_id = t.run_id;
      state = t.state;
      priority = t.priority;
      thread_count = 1;
      updated_at = now;
    }
    ∷ []
tally now t (r ∷ rs) =
    if in_group t.run_id t.state t.priority r
    then record r { thread_count = r.thread_count + 1 } ∷ rs
    else r ∷ tally now t rs

-- SELECT … COUNT(*) … WHERE ticket = … GROUP BY ticket, run_id, state, priority
unfoldable pub group_views : String → String → List ViewRow → List StatsRow
group_views ticket now [] = []
group_views ticket now (v ∷ vs) =
    let rest = group_views ticket now vs in
    if v.thread.ticket == ticket then tally now v.thread rest else rest

-- DELETE FROM forum_thread_stats WHERE ticket = …
unfoldable pub without_ticket : String → List StatsRow → List StatsRow
without_ticket ticket [] = []
without_ticket ticket (r ∷ rs) =
    let rest = without_ticket ticket rs in if r.ticket == ticket then rest else r ∷ rest

unfoldable pub rebuild_stats : String → String → Tables → Tables
rebuild_stats ticket now db = record db {
  stats = without_ticket ticket db.stats ++ group_views ticket now db.views;
}
