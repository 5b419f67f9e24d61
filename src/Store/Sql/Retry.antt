-- ===== src/Store/Sql/Retry.antt =====
-- The retries on a busy database (internal/store/sqlite.go).
use metawsm.Base.{ℕ, zero, suc, ◌≤◌, ◌≡◌, true, Option, List, ◌∷◌, arith}
use metawsm.Store.Schema.{Tables}
use metawsm.Store.Sql.{Outcome, done, busy, settle, attempt, World, quiet, exec}

-- So many invocations find the database busy before the others.
unfoldable pub busies : ℕ → List Outcome → List Outcome
busies zero rest = rest
busies (suc k) rest = busy ∷ busies k rest

attempt-busies :
    (n k : ℕ) (rest : List Outcome) → k ≤ n → attempt n (busies k (done ∷ rest)) ≡ (true, rest)
unfolding attempt busies
attempt-busies n zero rest h = ground arith
attempt-busies zero (suc k) rest h = ground arith
attempt-busies (suc n) (suc k) rest h = attempt-busies n k rest (omega arith)

abbrev pub world : Tables → List Outcome → ℕ → World
world db outcomes n = record (quiet db n) { outcomes = outcomes }

-- A script of one statement or one transaction that finds the database busy at most as often as
-- there are retries, and then succeeds, has the effect of one that succeeds at once: the tables
-- are the script's, or the broken constraint leaves them.
pub exec_retries :
    (script : Tables → Option Tables) (db : Tables) (n k : ℕ) (rest : List Outcome)
    → k ≤ n
    → exec script (world db (busies k (done ∷ rest)) n) ≡ settle true (script db) (world db rest n)
unfolding exec
exec_retries script db n k rest h = rw (attempt-busies n k rest h)
