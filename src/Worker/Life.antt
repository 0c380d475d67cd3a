-- ===== src/Worker/Life.antt =====
-- `Start`, `Close`, `TriggerJob`, `pollLoop` and `runJob` of core/worker/worker.go: the goroutines of
-- a runtime, its wait group and its context. A goroutine stands for the place at which it is; what a
-- job or a poll does to the queue is in Runtime, and a poll here starts the goroutines of the records
-- that `process_queue` gives. `Start` is called once at most, and not after `Close`; the context given
-- to it may be cancelled at any time after that. The function of a job returns.
use kumacore.Prelude.{
  ℕ, ◌+◌, ◌-◌, Bool, true, false, Option, none, some, List, [], ◌∷◌, ◌++◌, map, if◌then◌else◌, ◌≡◌,
  length, is_positive,
}
use kumacore.Prelude.Assoc.{lookup}
use kumacore.Prelude.Text.{Str, Eq-str}
use kumacore.Worker.Table.{Database, JobRecord}
use kumacore.Worker.Repository.{ClaimFault}
use kumacore.Worker.Runtime.{Job, Runtime, RuntimeError, unknown_job, process_queue}

pub data Goroutine : Type 0 where
  interval_run : Str → Goroutine  -- `runJob`, in `runOnce`
  interval_wait : Str → Goroutine  -- `runJob`, at its select
  poll_reset : Goroutine  -- `pollLoop`, before its loop
  poll_wait : Goroutine  -- `pollLoop`, at its select
  execution : JobRecord → Goroutine
  one_off : Str → Goroutine  -- of `TriggerJob`

-- The context of `Start`, and the field `cancel`.
pub data Context : Type 0 where
  not_started live cancelled : Context

pub data Closer : Type 0 where
  not_called waiting returned : Closer

pub record Life : Type 0 where
  pub database_open : Bool
  pub context : Context
  pub wait_count : ℕ
  pub goroutines : List Goroutine
  pub closer : Closer

-- wg.Add and go, for each
unfoldable pub spawn : List Goroutine → Life → Life
spawn started life = record life {
  wait_count = life.wait_count + length started;
  goroutines = life.goroutines ++ started;
}

unfoldable pub scheduled : {V : Type 0} → List (Job V) → List Goroutine
scheduled [] = []
scheduled (job ∷ jobs) =
    let rest = scheduled jobs in
    if is_positive job.interval then interval_run job.name ∷ rest else rest

-- `Start`
unfoldable pub start_life : {V : Type 0} → Runtime V → Life → Life
unfolding spawn scheduled
start_life runtime life =
    spawn (scheduled runtime.jobs ++ poll_reset ∷ []) (record life { context = live })

-- runtime.cancel, which is nil before `Start`
unfoldable pub cancel : Context → Context
cancel not_started = not_started
cancel live = cancelled
cancel cancelled = cancelled

-- `Close` up to `Wait`
unfoldable pub begin_close : Life → Life
unfolding cancel
begin_close life =
    if life.database_open
    then record life { context = cancel life.context; closer = waiting }
    else record life { closer = returned }

-- `TriggerJob`
unfoldable pub trigger_job : {V : Type 0} → Runtime V → Str → Life → Life × Option RuntimeError
unfolding spawn
trigger_job runtime name life = elim (lookup name runtime.job_map) [
  | none ↦ (life, some (unknown_job name))
  | some job ↦ (spawn (one_off name ∷ []) life, none)
]

-- What a goroutine does next: the goroutines that are there instead of it, among them itself if it
-- goes on.
pub data Move (context : Context) : Goroutine → List Goroutine → Type 0 where
  ran : {name : Str} → Move context (interval_run name) (interval_wait name ∷ [])
  interval_tick : {name : Str} → Move context (interval_wait name) (interval_run name ∷ [])
  interval_done : {name : Str} → context ≡ cancelled → Move context (interval_wait name) []
  was_reset : Move context poll_reset (poll_wait ∷ [])
  poll_tick :
      (fault : ClaimFault) (now : ℕ) (db : Database)
      → Move context poll_wait (poll_wait ∷ map execution (process_queue fault now db).1)
  poll_done : context ≡ cancelled → Move context poll_wait []
  executed : {job_record : JobRecord} → Move context (execution job_record) []
  triggered_done : {name : Str} → Move context (one_off name) []

-- The goroutine's `Done`, if it ends, and the `Add` for those that it starts.
unfoldable pub moved : List Goroutine → List Goroutine → List Goroutine → Life → Life
moved before next after life = record life {
  wait_count = life.wait_count + length next - 1;
  goroutines = before ++ (next ++ after);
}

module _ {V : Type 0} (runtime : Runtime V) where
  pub data LifeStep (s t : Life) : Type 0 where
    starting :
        s.context ≡ not_started → s.closer ≡ not_called → t ≡ start_life runtime s → LifeStep s t
    cancelling : s.context ≡ live → t ≡ record s { context = cancelled } → LifeStep s t
    triggering : (name : Str) → t ≡ (trigger_job runtime name s).0 → LifeStep s t
    moving :
        (before : List Goroutine) (g : Goroutine) (after next : List Goroutine)
        → s.goroutines ≡ before ++ g ∷ after
        → Move s.context g next
        → t ≡ moved before next after s
        → LifeStep s t
    closing : s.closer ≡ not_called → t ≡ begin_close s → LifeStep s t
    -- `Wait` returns, and the database is closed.
    returning :
        s.closer ≡ waiting
        → s.wait_count ≡ 0
        → t ≡ record s { closer = returned; database_open = false }
        → LifeStep s t

  pub data Lives (s : Life) : Life → Type 0 where
    here : Lives s s
    later : {t u : Life} → Lives s t → LifeStep t u → Lives s u

abbrev pub fresh_life : Life
fresh_life = record {
  database_open = true;
  context = not_started;
  wait_count = 0;
  goroutines = [];
  closer = not_called;
}
