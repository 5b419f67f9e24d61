-- ===== src/Orchestrator/Silent.antt =====
-- Which calls of internal/orchestrator/service.go leave the status of every run as it is.
use mathlib.Core.Option
use metawsm.Base.{String, Option, ◌≡◌, ap}
use metawsm.Base.Rows.{find}
use metawsm.Model.Run.{RunStatus}
use metawsm.Model.Plan.{RunTables, RunRow}
use metawsm.Store.Sql.{World, M, exec}
use metawsm.Store.Runs.{run_key, on_runs}
use metawsm.Orchestrator.Frame.{Frame, Frame-exec}

abbrev pub row_status : RunRow → RunStatus
row_status r = r.status

-- The status of a run in the table
unfoldable pub status_at : String → RunTables → Option RunStatus
status_at run_id t = Option.map row_status (find run_key run_id t.runs)

abbrev pub statuses : RunTables → String → Option RunStatus
statuses t run_id = status_at run_id t

-- Whatever the call returns, every run has the status that it had.
abbrev pub Silent : {A : Type 0} → M A → Type 0
Silent m = Frame statuses m

pub Silent-at :
    {A : Type 0} (m : M A)
    → Silent m
    → (w : World) (j : String) → status_at j (m w).1.tables.runs ≡ status_at j w.tables.runs
Silent-at m h w j = ap (λ f. f j) (h.at w)

pub Silent-exec :
    (f : RunTables → RunTables)
    → ((t : RunTables) (j : String) → status_at j (f t) ≡ status_at j t)
    → Silent (exec (on_runs f))
Silent-exec f h = Frame-exec f (λ t i j. h t j i)

-- A statement that leaves the table runs as it is
pub Silent-other :
    (f : RunTables → RunTables)
    → ((t : RunTables) → (f t).runs ≡ t.runs)
    → Silent (exec (on_runs f))
unfolding status_at
Silent-other f h =
    Silent-exec f (λ t j. ap (λ rows. Option.map row_status (find run_key j rows)) (h t))
