-- ===== src/Worker/Runtime.antt =====
-- core/worker/worker.go and queue.go: `Runtime` and `jobQueue`. The functions that run jobs, and
-- JSON, are arguments. `V` is the type of payloads.
use kumacore.Prelude.{
  ℕ, ◌+◌, ℤ, pos, negsuc, is_positive, Bool, true, false, not, Option, none, some, List, [], ◌∷◌,
  ◌++◌, Result, ok, err, ◌>>=◌, ◌>>◌, fail_if, if◌then◌else◌, leb,
}
use kumacore.Prelude.Assoc.{Assoc, lookup, insert}
use kumacore.Prelude.Text.{Str, Eq-str, str, is_empty, trim_space}
use kumacore.Worker.Table.{Database, JobRecord, DbError}
use kumacore.Worker.Repository.{TxFaults, ClaimFault, enqueue, claim, complete, retry, bury}

-- A job's function: the moment at which it runs and its payload to its error, if any.
abbrev pub Run : Type 0 → Type 0
Run V = ℕ → Option V → Option Str

-- `Job`; a nil `Run` is `none`.
pub record Job (V : Type 0) : Type 0 where
  pub name : Str
  pub interval : ℤ
  pub run : Option (Run V)

pub record Runtime (V : Type 0) : Type 0 where
  pub poll_interval : ℤ
  pub max_attempts : ℤ
  pub jobs : List (Job V)
  pub job_map : Assoc Str (Job V)

pub data RuntimeError : Type 0 where
  nil_database nil_dialect bad_poll_interval bad_max_attempts : RuntimeError
  empty_name : RuntimeError
  nil_run duplicate_job unknown_job : Str → RuntimeError
  marshal_failed : Str → RuntimeError
  insert_failed : DbError → RuntimeError

-- `a >= b` and `a < 1` on Go's int.
abbrev pub reaches : ℕ → ℤ → Bool
reaches n (pos m) = leb m n
reaches n (negsuc m) = true

abbrev pub is_some : {A : Type 0} → Option A → Bool
is_some none = false
is_some (some _) = true

module _ {V : Type 0} where
  -- `NewRuntime`; the two flags say whether the database and the dialect are given.
  unfoldable pub new_runtime : Bool → Bool → ℤ → ℤ → Result RuntimeError (Runtime V)
  new_runtime has_database has_dialect poll_interval max_attempts = do
    fail_if (not has_database) nil_database
    fail_if (not has_dialect) nil_dialect
    fail_if (not (is_positive poll_interval)) bad_poll_interval
    fail_if (not (is_positive max_attempts)) bad_max_attempts
    ok (record {
      poll_interval = poll_interval;
      max_attempts = max_attempts;
      jobs = [];
      job_map = [];
    })

  -- One round of the loop of `Register`.
  unfoldable pub register_job : Job V → Runtime V → Result RuntimeError (Runtime V)
  register_job job runtime =
      let job_name = trim_space job.name in
      let named = record job { name = job_name } in
      do
        fail_if (is_empty job_name) empty_name
        fail_if (not (is_some job.run)) (nil_run job_name)
        fail_if (is_some (lookup job_name runtime.job_map)) (duplicate_job job_name)
        ok (record runtime {
          jobs = runtime.jobs ++ named ∷ [];
          job_map = insert job_name named runtime.job_map;
        })

  -- `Register`: the jobs before the one that is refused stay registered.
  unfoldable pub register : List (Job V) → Runtime V → Runtime V × Option RuntimeError
  unfolding register_job
  register [] runtime = (runtime, none)
  register (job ∷ jobs) runtime = elim (register_job job runtime) [
    | err e ↦ (runtime, some e)
    | ok runtime' ↦ register jobs runtime'
  ]

-- What `executeQueued` and the queue are given from outside: JSON, and the faults of one call.
pub record Codec (V : Type 0) : Type 0 where
  pub marshal : V → Result Str Str
  pub unmarshal : Str → Result Str V

pub record ExecFaults : Type 0 where
  pub moving : TxFaults
  pub retrying : Option DbError

-- What an attempt comes to, before it is written to the database.
pub data Verdict : Type 0 where
  completed : ℕ → Verdict
  buried : ℕ → Str → Verdict
  retried : ℕ → Verdict

unfoldable pub judge : ℤ → ℕ → Option Str → Verdict
judge max_attempts new_attempts none = completed new_attempts
judge max_attempts new_attempts (some run_error) =
    if reaches new_attempts max_attempts
    then buried new_attempts run_error
    else retried new_attempts

unfoldable pub settle : ExecFaults → ℕ → JobRecord → Verdict → Database → Database
settle faults now job_record (completed attempts) db =
    (complete faults.moving job_record attempts now db).0
settle faults now job_record (buried attempts last_error) db =
    (bury faults.moving job_record attempts last_error now db).0
settle faults now job_record (retried attempts) db =
    (retry faults.retrying job_record.id attempts now db).0

-- `processQueue`: the records for which it starts a goroutine
unfoldable pub process_queue : ClaimFault → ℕ → Database → Database × List JobRecord
process_queue fault now db =
    let (db', claimed) = claim fault now db in
    (db', elim claimed [ ok records ↦ records | err e ↦ [] ])

module _ {V : Type 0} (codec : Codec V) where
  unfoldable pub encode : Option V → Result Str (Option Str)
  encode none = ok none
  encode (some payload) = do text ← codec.marshal payload; ok (some text)

  unfoldable pub decode : Option Str → Result Str (Option V)
  decode none = ok none
  decode (some text) = do payload ← codec.unmarshal text; ok (some payload)

  -- `jobQueue.enqueue`, with the new id and the time
  unfoldable pub queue_enqueue :
      Option DbError → Str → ℕ → Str → Option V → Database → Database × Option RuntimeError
  unfolding encode
  queue_enqueue fault i now name payload db = elim (encode payload) [
    | err message ↦ (db, some (marshal_failed message))
    | ok encoded ↦
        let (db', failed) = enqueue fault i name encoded now db in
        (db', elim failed [ none ↦ none | some e ↦ some (insert_failed e) ])
  ]

  -- `Runtime.Enqueue`
  unfoldable pub enqueue_named :
      Runtime V
      → Option DbError
      → Str
      → ℕ
      → Str
      → Option V
      → Database
      → Database × Option RuntimeError
  unfolding queue_enqueue
  enqueue_named runtime fault i now name payload db = elim (lookup name runtime.job_map) [
    | none ↦ (db, some (unknown_job name))
    | some job ↦ queue_enqueue fault i now name payload db
  ]

  -- A job without a function would panic; `Register` lets none in.
  abbrev pub run_job : Job V → ℕ → Option V → Option Str
  run_job job now payload = elim job.run [ none ↦ none | some f ↦ f now payload ]

  unfoldable pub attempt : Runtime V → ℕ → JobRecord → Verdict
  unfolding decode judge
  attempt runtime now job_record = elim (lookup job_record.name runtime.job_map) [
    | none ↦ buried job_record.attempts (str "unknown job: " ++ job_record.name)
    | some job ↦ elim (decode job_record.payload) [
      | err message ↦ buried job_record.attempts message
      | ok payload ↦ judge runtime.max_attempts (job_record.attempts + 1) (run_job job now payload)
    ]
  ]

  -- `executeQueued`: errors of the queue are logged and dropped.
  unfoldable pub execute_queued : Runtime V → ExecFaults → ℕ → JobRecord → Database → Database
  unfolding attempt settle
  execute_queued runtime faults now job_record db =
      settle faults now job_record (attempt runtime now job_record) db
