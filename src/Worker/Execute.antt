-- ===== src/Worker/Execute.antt =====
-- What one run of `executeQueued` (core/worker/worker.go) does to the queue database.
use kumacore.Prelude.{
  ℕ, Option, none, some, [], ◌∷◌, ◌++◌, map, Result, ok, ◌≡◌, ◌⊎◌, inl, inr, refl, arith,
  Result-cases, Option-cases,
}
use kumacore.Prelude.Text.{Str, Eq-str}
use kumacore.Worker.Table.{
  Database, HistoryRow, GraveyardRow, JobRecord, DbError, count, history_id, graveyard_id,
  retry_row, delete_rows, insert_history, insert_graveyard, delete_queue_job, retry_job,
}
use kumacore.Worker.Repository.{
  TxFaults, move_job, complete, bury, retry, history_row, graveyard_row,
}
use kumacore.Worker.Runtime.{
  Runtime, Codec, ExecFaults, Verdict, completed, buried, retried, attempt, settle, execute_queued,
}

-- A transaction that moves a job either fails with the database as it was, or has done both of its
-- statements.
pub move_job-cases :
    (faults : TxFaults) (insert : Database → Result DbError Database) (i : Str) (db : Database)
    → ((e : DbError) × (move_job faults insert i db ≡ (db, some e)))
      ⊎ ((db1 : Database) × (insert db ≡ ok db1)
          × (move_job faults insert i db ≡ (delete_queue_job i db1, none)))
unfolding move_job
move_job-cases faults insert i db = elim (Option-cases faults.at_begin) [
  | inr (e, p) ↦ inl (e, ground arith)
  | inl p ↦ elim (Option-cases faults.at_insert) [
    | inr (e, q) ↦ inl (e, ground arith)
    | inl q ↦ elim (Result-cases (insert db)) [
      | inr (e, r) ↦ inl (e, ground arith)
      | inl (db1, r) ↦ elim (Option-cases faults.at_delete) [
        | inr (e, d) ↦ inl (e, ground arith)
        | inl d ↦ elim (Option-cases faults.at_commit) [
          | inr (e, c) ↦ inl (e, ground arith)
          | inl c ↦ inr (db1, r, ground arith)
        ]
      ]
    ]
  ]
]

-- What a run of a record with this id can do to the database, whatever fails.
pub data Effect (i : Str) (db db' : Database) : Type 0 where
  unchanged : db' ≡ db → Effect i db db'
  to_history :
      (row : HistoryRow)
      → row.id ≡ i
      → count history_id i db.job_history ≡ 0
      → db' ≡ record {
        job_queue = delete_rows i db.job_queue;
        job_history = db.job_history ++ row ∷ [];
        job_graveyard = db.job_graveyard;
      }
      → Effect i db db'
  to_graveyard :
      (row : GraveyardRow)
      → row.id ≡ i
      → count graveyard_id i db.job_graveyard ≡ 0
      → db' ≡ record {
        job_queue = delete_rows i db.job_queue;
        job_history = db.job_history;
        job_graveyard = db.job_graveyard ++ row ∷ [];
      }
      → Effect i db db'
  to_pending :
      (attempts now : ℕ)
      → db' ≡ record db { job_queue = map (retry_row attempts now i) db.job_queue }
      → Effect i db db'

complete-Effect :
    (faults : TxFaults) (job : JobRecord) (attempts now : ℕ) (db : Database)
    → Effect job.id db (complete faults job attempts now db).0
unfolding complete insert_history delete_queue_job
complete-Effect faults job attempts now db =
    let row = history_row job attempts now in
    elim (move_job-cases faults (insert_history row) job.id db) [
      | inl (e, p) ↦ unchanged (ground arith)
      | inr (db1, q, p) ↦ to_history row refl (ground arith) (ground arith)
    ]

bury-Effect :
    (faults : TxFaults) (job : JobRecord) (attempts : ℕ) (last_error : Str) (now : ℕ)
    (db : Database)
    → Effect job.id db (bury faults job attempts last_error now db).0
unfolding bury insert_graveyard delete_queue_job
bury-Effect faults job attempts last_error now db =
    let row = graveyard_row job attempts last_error now in
    elim (move_job-cases faults (insert_graveyard row) job.id db) [
      | inl (e, p) ↦ unchanged (ground arith)
      | inr (db1, q, p) ↦ to_graveyard row refl (ground arith) (ground arith)
    ]

retry-Effect :
    (fault : Option DbError) (i : Str) (attempts now : ℕ) (db : Database)
    → Effect i db (retry fault i attempts now db).0
unfolding retry retry_job
retry-Effect (some e) i attempts now db = unchanged refl
retry-Effect none i attempts now db = to_pending attempts now refl

pub settle-Effect :
    (faults : ExecFaults) (now : ℕ) (job_record : JobRecord) (verdict : Verdict) (db : Database)
    → Effect job_record.id db (settle faults now job_record verdict db)
unfolding settle
settle-Effect faults now job_record (completed attempts) db =
    complete-Effect faults.moving job_record attempts now db
settle-Effect faults now job_record (buried attempts last_error) db =
    bury-Effect faults.moving job_record attempts last_error now db
settle-Effect faults now job_record (retried attempts) db =
    retry-Effect faults.retrying job_record.id attempts now db

pub execute_queued-Effect :
    {V : Type 0} (codec : Codec V) (runtime : Runtime V) (faults : ExecFaults) (now : ℕ)
    → (job_record : JobRecord) (db : Database)
    → Effect job_record.id db (execute_queued codec runtime faults now job_record db)
unfolding execute_queued
execute_queued-Effect codec runtime faults now job_record db =
    settle-Effect faults now job_record (attempt codec runtime now job_record) db
