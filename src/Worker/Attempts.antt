-- ===== src/Worker/Attempts.antt =====
-- How often a job is attempted (`executeQueued` of core/worker/worker.go and the statements of
-- core/worker/queries).
use kumacore.Prelude.{
  ℕ, ◌+◌, ◌≤◌, ◌<◌, pos, Option, none, some, [], ◌∷◌, ◌++◌, ok, ◌≡◌, inl, inr, arith, All,
  All-append, All-map, All-filter, leb, Bool-cases, Option-cases, Result-cases,
}
use kumacore.Prelude.Assoc.{lookup}
use kumacore.Prelude.Text.{Str, Eq-str}
use kumacore.Worker.Table.{
  Database, QueueRow, HistoryRow, GraveyardRow, JobRecord, DbError, retry_row, delete_rows,
  delete_queue_job, insert_history, insert_graveyard, retry_job,
}
use kumacore.Worker.Repository.{TxFaults, history_row, graveyard_row, complete, bury, retry}
use kumacore.Worker.Runtime.{
  Runtime, Codec, ExecFaults, Verdict, completed, buried, retried, run_job, judge, decode, attempt,
  settle,
}
use kumacore.Worker.Execute.{move_job-cases}

-- Bounds on the attempts of the rows: below the limit while the job is queued, from one to the limit
-- once it has succeeded, and at most the limit once it is buried.
abbrev pub IsQueued : ℕ → QueueRow → Type 0
IsQueued bound row = row.attempts < bound

abbrev pub IsRunning : ℕ → JobRecord → Type 0
IsRunning bound r = r.attempts < bound

abbrev pub IsDone : ℕ → HistoryRow → Type 0
IsDone bound row = (1 ≤ row.attempts) × (row.attempts ≤ bound)

abbrev pub IsBuried : ℕ → GraveyardRow → Type 0
IsBuried bound row = row.attempts ≤ bound

pub record IsBounded (bound : ℕ) (db : Database) : Type 0 where
  pub queue : All (IsQueued bound) db.job_queue
  pub history : All (IsDone bound) db.job_history
  pub graveyard : All (IsBuried bound) db.job_graveyard

abbrev pub IsWithin : ℕ → Verdict → Type 0
IsWithin bound (completed n) = (1 ≤ n) × (n ≤ bound)
IsWithin bound (buried n last_error) = n ≤ bound
IsWithin bound (retried n) = n < bound

judge-IsWithin :
    (bound n : ℕ) (run_error : Option Str)
    → 1 ≤ n
    → n ≤ bound
    → IsWithin bound (judge (pos bound) n run_error)
unfolding judge
judge-IsWithin bound n none one le = (one, le)
judge-IsWithin bound n (some run_error) one le = elim (Bool-cases (leb bound n)) [
  | inl last ↦ rw last le
  | inr more ↦ rw more (ground arith)
]

pub attempt-IsWithin :
    {V : Type 0} (codec : Codec V) (runtime : Runtime V) (bound now : ℕ) (r : JobRecord)
    → runtime.max_attempts ≡ pos bound
    → IsRunning bound r
    → IsWithin bound (attempt codec runtime now r)
unfolding attempt
attempt-IsWithin codec runtime bound now r h less =
    elim (Option-cases (lookup r.name runtime.job_map)) [
      | inl p ↦ rw (p, attempt) (omega arith)
      | inr (job, p) ↦ elim (Result-cases (decode codec r.payload)) [
        | inr (message, q) ↦ rw (p, attempt, q) (omega arith)
        | inl (payload, q) ↦
            rw (p, attempt, q, h)
              (judge-IsWithin bound (r.attempts + 1) (run_job codec job now payload) (omega arith)
                (omega arith))
      ]
    ]

delete_queue_job-IsBounded :
    (bound : ℕ) (i : Str) (db : Database)
    → IsBounded bound db
    → IsBounded bound (delete_queue_job i db)
unfolding delete_queue_job delete_rows
delete_queue_job-IsBounded bound i db h = record {
  queue = All-filter (IsQueued bound) _ db.job_queue h.queue;
  history = h.history;
  graveyard = h.graveyard;
}

insert_history-IsBounded :
    (bound : ℕ) (row : HistoryRow) (db : Database) {db1 : Database}
    → IsDone bound row
    → IsBounded bound db
    → insert_history row db ≡ ok db1
    → IsBounded bound db1
unfolding insert_history
insert_history-IsBounded bound row db {db1} within h q =
    let e : db1 ≡ record db { job_history = db.job_history ++ row ∷ [] } = ground arith in
    rw e (record {
      queue = h.queue;
      history = All-append (IsDone bound) db.job_history (row ∷ []) h.history (within, tt);
      graveyard = h.graveyard;
    })

insert_graveyard-IsBounded :
    (bound : ℕ) (row : GraveyardRow) (db : Database) {db1 : Database}
    → IsBuried bound row
    → IsBounded bound db
    → insert_graveyard row db ≡ ok db1
    → IsBounded bound db1
unfolding insert_graveyard
insert_graveyard-IsBounded bound row db {db1} within h q =
    let e : db1 ≡ record db { job_graveyard = db.job_graveyard ++ row ∷ [] } = ground arith in
    rw e (record {
      queue = h.queue;
      history = h.history;
      graveyard = All-append (IsBuried bound) db.job_graveyard (row ∷ []) h.graveyard (within, tt);
    })

complete-IsBounded :
    (bound : ℕ) (faults : TxFaults) (r : JobRecord) (n now : ℕ) (db : Database)
    → (1 ≤ n) × (n ≤ bound)
    → IsBounded bound db
    → IsBounded bound (complete faults r n now db).0
unfolding complete
complete-IsBounded bound faults r n now db within h =
    let row = history_row r n now in
    elim (move_job-cases faults (insert_history row) r.id db) [
      | inl (e, p) ↦ rw p h
      | inr (db1, q, p) ↦ rw p (
          delete_queue_job-IsBounded bound r.id db1
            (insert_history-IsBounded bound row db within h q))
    ]

bury-IsBounded :
    (bound : ℕ) (faults : TxFaults) (r : JobRecord) (n : ℕ) (last_error : Str) (now : ℕ)
    (db : Database)
    → n ≤ bound
    → IsBounded bound db
    → IsBounded bound (bury faults r n last_error now db).0
unfolding bury
bury-IsBounded bound faults r n last_error now db within h =
    let row = graveyard_row r n last_error now in
    elim (move_job-cases faults (insert_graveyard row) r.id db) [
      | inl (e, p) ↦ rw p h
      | inr (db1, q, p) ↦ rw p (
          delete_queue_job-IsBounded bound r.id db1
            (insert_graveyard-IsBounded bound row db within h q))
    ]

retry_row-IsQueued :
    (bound n now : ℕ) (i : Str) (row : QueueRow)
    → n < bound
    → IsQueued bound row
    → IsQueued bound (retry_row n now i row)
unfolding retry_row
retry_row-IsQueued bound n now i row less h = ground arith

retry-IsBounded :
    (bound : ℕ) (fault : Option DbError) (i : Str) (n now : ℕ) (db : Database)
    → n < bound
    → IsBounded bound db
    → IsBounded bound (retry fault i n now db).0
unfolding retry retry_job
retry-IsBounded bound (some e) i n now db less h = h
retry-IsBounded bound none i n now db less h = record {
  queue =
      All-map (IsQueued bound) (IsQueued bound) (retry_row n now i) db.job_queue
        (λ row k. retry_row-IsQueued bound n now i row less k) h.queue;
  history = h.history;
  graveyard = h.graveyard;
}

pub settle-IsBounded :
    (bound : ℕ) (faults : ExecFaults) (now : ℕ) (r : JobRecord) (v : Verdict) (db : Database)
    → IsWithin bound v
    → IsBounded bound db
    → IsBounded bound (settle faults now r v db)
unfolding settle
settle-IsBounded bound faults now r (completed n) db within h =
    complete-IsBounded bound faults.moving r n now db within h
settle-IsBounded bound faults now r (buried n last_error) db within h =
    bury-IsBounded bound faults.moving r n last_error now db within h
settle-IsBounded bound faults now r (retried n) db within h =
    retry-IsBounded bound faults.retrying r.id n now db within h
