-- ===== src/Worker/Repository.antt =====
-- core/worker/repository.go: `SQLQueueRepository`. What the driver does beyond the statements is an
-- argument: each call is given the errors with which its steps fail, `none` where a step runs. A
-- commit that fails has not changed the database.
use kumacore.Prelude.{ℕ, Option, none, some, List, Result, ok, err}
use kumacore.Prelude.Text.{Str}
use kumacore.Worker.Table.{
  Database, JobRecord, DbError, HistoryRow, GraveyardRow, enqueue_job, claim_pending,
  insert_history, insert_graveyard, delete_queue_job, retry_job, reset_orphaned,
}

-- database.ExecContext outside a transaction.
unfoldable pub exec :
    Option DbError → (Database → Result DbError Database) → Database → Database × Option DbError
exec (some e) statement db = (db, some e)
exec none statement db = elim (statement db) [ ok db' ↦ (db', none) | err e ↦ (db, some e) ]

-- A transaction works on a copy until it is committed.
pub record Transaction : Type 0 where
  pub stored : Database
  pub working : Database

unfoldable pub begin_tx : Option DbError → Database → Result DbError Transaction
begin_tx (some e) db = err e
begin_tx none db = ok (record { stored = db; working = db })

unfoldable pub exec_tx :
    Option DbError → (Database → Result DbError Database) → Transaction → Result DbError Transaction
exec_tx (some e) statement tx = err e
exec_tx none statement tx = elim (statement tx.working) [
  | ok db ↦ ok (record tx { working = db })
  | err e ↦ err e
]

unfoldable pub rollback : Transaction → Database
rollback tx = tx.stored

unfoldable pub commit : Option DbError → Transaction → Database × Option DbError
commit (some e) tx = (tx.stored, some e)
commit none tx = (tx.working, none)

pub record TxFaults : Type 0 where
  pub at_begin : Option DbError
  pub at_insert : Option DbError
  pub at_delete : Option DbError
  pub at_commit : Option DbError

abbrev pub no_tx_faults : TxFaults
no_tx_faults = record { at_begin = none; at_insert = none; at_delete = none; at_commit = none }

-- The body that `Complete` and `Bury` share: insert a row elsewhere, delete the queue's row.
unfoldable pub move_job :
    TxFaults → (Database → Result DbError Database) → Str → Database → Database × Option DbError
unfolding begin_tx exec_tx rollback commit
move_job faults insert i db = elim (begin_tx faults.at_begin db) [
  | err e ↦ (db, some e)
  | ok tx ↦ elim (exec_tx faults.at_insert insert tx) [
    | err e ↦ (rollback tx, some e)
    | ok tx1 ↦ elim (exec_tx faults.at_delete (λ db1. ok (delete_queue_job i db1)) tx1) [
      | err e ↦ (rollback tx1, some e)
      | ok tx2 ↦ commit faults.at_commit tx2
    ]
  ]
]

-- `Enqueue`
unfoldable pub enqueue :
    Option DbError → Str → Str → Option Str → ℕ → Database → Database × Option DbError
unfolding exec
enqueue fault i name payload created_at db =
    exec fault (enqueue_job i name payload created_at created_at) db

-- `ClaimPending`: the query can fail, or reading its rows after it has marked them.
pub data ClaimFault : Type 0 where
  no_fault : ClaimFault
  at_query : DbError → ClaimFault
  at_rows : DbError → ClaimFault

unfoldable pub claim : ClaimFault → ℕ → Database → Database × Result DbError (List JobRecord)
claim (at_query e) now db = (db, err e)
claim (at_rows e) now db = ((claim_pending now db).0, err e)
claim no_fault now db = let (db', records) = claim_pending now db in (db', ok records)

unfoldable pub history_row : JobRecord → ℕ → ℕ → HistoryRow
history_row job attempts now = record {
  id = job.id;
  name = job.name;
  payload = job.payload;
  attempts = attempts;
  completed_at = now;
}

-- `Complete`
unfoldable pub complete : TxFaults → JobRecord → ℕ → ℕ → Database → Database × Option DbError
unfolding move_job history_row
complete faults job attempts now db =
    move_job faults (insert_history (history_row job attempts now)) job.id db

-- `Retry`
unfoldable pub retry : Option DbError → Str → ℕ → ℕ → Database → Database × Option DbError
unfolding exec
retry fault i attempts now db = exec fault (λ db1. ok (retry_job attempts now i db1)) db

unfoldable pub graveyard_row : JobRecord → ℕ → Str → ℕ → GraveyardRow
graveyard_row job attempts last_error now = record {
  id = job.id;
  name = job.name;
  payload = job.payload;
  attempts = attempts;
  last_error = last_error;
  buried_at = now;
}

-- `Bury`
unfoldable pub bury : TxFaults → JobRecord → ℕ → Str → ℕ → Database → Database × Option DbError
unfolding move_job graveyard_row
bury faults job attempts last_error now db =
    move_job faults (insert_graveyard (graveyard_row job attempts last_error now)) job.id db

-- `ResetOrphaned`
unfoldable pub reset : Option DbError → ℕ → Database → Database × Result DbError ℕ
reset (some e) now db = (db, err e)
reset none now db = let (db', affected) = reset_orphaned now db in (db', ok affected)
