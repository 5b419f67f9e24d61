-- ===== src/Store/Sql.antt =====
-- `execSQL` and `queryJSON` of internal/store/sqlite.go, over the sqlite3 command line. `exec` is for
-- a script that is one statement or a transaction: where it fails, or breaks a constraint, SQLite
-- leaves the tables as they were. `exec_each` is for a script of several statements without BEGIN,
-- each of which stays where a later one fails.
pub mod Triple
pub mod Retry
use metawsm.Base.{ℕ, zero, suc, String, Bool, true, false, Option, none, some, List, [], ◌∷◌}
use metawsm.Model.Run.{RunStatus}
use metawsm.Model.Plan.{Command, Reply, answered}
use metawsm.Store.Schema.{Tables}

-- What one invocation of sqlite3 does. `isSQLiteBusyError` tells `busy` from `failed`.
pub data Outcome : Type 0 where
  done busy failed : Outcome

pub data Error : Type 0 where
  sqlite_failed constraint_failed : Error
  refused : String → Error  -- an error of a command, or of a check, with its text
  step_failed : ℕ → String → Error → Error
  illegal_run_transition : RunStatus → RunStatus → Error
  required : String → Error
  not_found : String → Error
  invalid : String → Error

pub data Result (A : Type 0) : Type 0 where
  ok : A → Result A
  err : Error → Result A

-- The outcomes are those of the invocations to come, and of each statement where these are several
-- outside of a transaction; all after the list succeed. So are the replies
-- those to the commands to come, and `commands` are those given, the last first.
pub record World : Type 0 where
  pub tables : Tables
  pub outcomes : List Outcome
  pub replies : List Reply
  pub commands : List Command
  pub retry_count : ℕ  -- `retryAttempts()` less the first attempt

-- The loop of `execSQL` and `queryJSON`: only a busy database is tried again. The number is that of
-- the retries left.
unfoldable pub attempt : ℕ → List Outcome → Bool × List Outcome
attempt n [] = (true, [])
attempt n (done ∷ rest) = (true, rest)
attempt n (failed ∷ rest) = (false, rest)
attempt zero (busy ∷ rest) = (false, rest)
attempt (suc n) (busy ∷ rest) = attempt n rest

abbrev pub M : Type 0 → Type 0
M A = World → Result A × World

unfoldable pub pure : {A : Type 0} → A → M A
pure a w = (ok a, w)

unfoldable pub raise : {A : Type 0} → Error → M A
raise e w = (err e, w)

abbrev pub continue : {A B : Type 0} → Result A → (A → M B) → M B
continue (ok a) f w = f a w
continue (err e) f w = (err e, w)

infixl 5 ◌>>=◌ ◌>>◌
unfoldable pub ◌>>=◌ : {A B : Type 0} → M A → (A → M B) → M B
unfolding pure raise
◌>>=◌ m f w = let (r, w') = m w in continue r f w'

abbrev pub ◌>>◌ : {B : Type 0} → M (Unit {0}) → M B → M B
m >> k = m >>= λ _. k

abbrev pub settle : Bool → Option Tables → World → Result (Unit {0}) × World
settle true (some t) w = (ok tt, record w { tables = t })
settle true none w = (err constraint_failed, w)
settle false _ w = (err sqlite_failed, w)

-- `execSQL` of one script
unfoldable pub exec : (Tables → Option Tables) → M (Unit {0})
unfolding attempt
exec script w =
    let (granted, rest) = attempt w.retry_count w.outcomes in
    settle granted (script w.tables) (record w { outcomes = rest })

unfoldable pub apply_all : List (Tables → Tables) → Tables → Tables
apply_all [] t = t
apply_all (f ∷ fs) t = apply_all fs (f t)

-- The loop of `execSQL` for a script of several statements outside of a transaction, of which none
-- breaks a constraint: `rest` are those still to come in this attempt, and a retry sends the whole
-- script again. The number is that of the retries left.
unfoldable pub run_each :
    List (Tables → Tables)
    → ℕ
    → List Outcome
    → List (Tables → Tables)
    → Tables
    → Bool × List Outcome × Tables
unfolding apply_all
run_each script n [] rest t = (true, [], apply_all rest t)
run_each script n (o ∷ outcomes) [] t = (true, o ∷ outcomes, t)
run_each script n (done ∷ outcomes) (f ∷ rest) t = run_each script n outcomes rest (f t)
run_each script n (failed ∷ outcomes) (f ∷ rest) t = (false, outcomes, t)
run_each script zero (busy ∷ outcomes) (f ∷ rest) t = (false, outcomes, t)
run_each script (suc n) (busy ∷ outcomes) (f ∷ rest) t = run_each script n outcomes script t

-- `execSQL` of such a script
unfoldable pub exec_each : List (Tables → Tables) → M (Unit {0})
unfolding run_each
exec_each script w =
    let (granted, rest, t) = run_each script w.retry_count w.outcomes script w.tables in
    settle granted (some t) (record w { tables = t; outcomes = rest })

abbrev pub answer : {A : Type 0} → Bool → A → World → Result A × World
answer true a w = (ok a, w)
answer false a w = (err sqlite_failed, w)

-- `queryJSON` of one SELECT
unfoldable pub query : {A : Type 0} → (Tables → A) → M A
unfolding attempt
query select w =
    let (granted, rest) = attempt w.retry_count w.outcomes in
    answer granted (select w.tables) (record w { outcomes = rest })

-- A world in which sqlite3 always answers.
abbrev pub quiet : Tables → ℕ → World
quiet db n = record { tables = db; outcomes = []; replies = []; commands = []; retry_count = n }

abbrev next_reply : List Reply → Reply × List Reply
next_reply [] = (answered "", [])
next_reply (r ∷ rs) = (r, rs)

abbrev reply_result : Reply → Result String
reply_result (answered text) = ok text
reply_result (Reply.refused text) = err (Error.refused text)

-- A call outside the database
unfoldable pub call : Command → M String
call c w =
    let (reply, rest) = next_reply w.replies in
    (reply_result reply, record w { replies = rest; commands = c ∷ w.commands })

abbrev pub forget_error : {A : Type 0} → Result A × World → Result (Unit {0}) × World
forget_error (_, w) = (ok tt, w)

-- `_ = m`
unfoldable pub ignore : {A : Type 0} → M A → M (Unit {0})
ignore m w = forget_error (m w)

abbrev pub handle_result : {A : Type 0} → (Error → M A) → Result A × World → Result A × World
handle_result h (ok a, w) = (ok a, w)
handle_result h (err e, w) = h e w

-- `if err != nil`, with more than a return
unfoldable pub handle : {A : Type 0} → M A → (Error → M A) → M A
handle m h w = handle_result h (m w)
