-- ===== src/Worker/Table.antt =====
-- The tables of app/migrations/sqlite/worker/0001_create_worker_tables.sql, and the statements of
-- core/worker/queries/*.sql as functions of them. A time is a Unix time in seconds.
use kumacore.Prelude.{
  ℕ, zero, suc, Bool, true, false, Option, List, [], ◌∷◌, ◌++◌, map, filter, Result, ok, err,
  if◌then◌else◌, ◌==◌, not,
}
use kumacore.Prelude.Text.{Str, Eq-str}

pub data Status : Type 0 where
  pending : Status
  running : Status

abbrev pub is_pending : Status → Bool
is_pending pending = true
is_pending running = false

pub record QueueRow : Type 0 where
  pub id : Str
  pub name : Str
  pub payload : Option Str
  pub attempts : ℕ
  pub status : Status
  pub created_at : ℕ
  pub updated_at : ℕ

pub record HistoryRow : Type 0 where
  pub id : Str
  pub name : Str
  pub payload : Option Str
  pub attempts : ℕ
  pub completed_at : ℕ

pub record GraveyardRow : Type 0 where
  pub id : Str
  pub name : Str
  pub payload : Option Str
  pub attempts : ℕ
  pub last_error : Str
  pub buried_at : ℕ

pub record Database : Type 0 where
  pub job_queue : List QueueRow
  pub job_history : List HistoryRow
  pub job_graveyard : List GraveyardRow

-- `jobRecord` of queue.go: what claiming a row returns.
pub record JobRecord : Type 0 where
  pub id : Str
  pub name : Str
  pub payload : Option Str
  pub attempts : ℕ

-- An error of the driver, or a primary key that is there already.
pub data DbError : Type 0 where
  driver : Str → DbError
  unique : DbError

abbrev pub is_id : Str → Str → Bool
is_id i j = i == j

-- How many rows have the id.
module _ {R : Type 0} (key : R → Str) where
  unfoldable pub count : Str → List R → ℕ
  count i [] = 0
  count i (row ∷ rows) = if is_id (key row) i then suc (count i rows) else count i rows

abbrev pub taken : ℕ → Bool
taken zero = false
taken (suc n) = true

abbrev pub queue_id : QueueRow → Str
queue_id row = row.id

abbrev pub history_id : HistoryRow → Str
history_id row = row.id

abbrev pub graveyard_id : GraveyardRow → Str
graveyard_id row = row.id

abbrev pub record_id : JobRecord → Str
record_id record' = record'.id

-- enqueue_job.sql
unfoldable pub enqueue_job : Str → Str → Option Str → ℕ → ℕ → Database → Result DbError Database
enqueue_job i name payload created_at updated_at db =
    if taken (count queue_id i db.job_queue)
    then err unique
    else ok (record db {
      job_queue =
          db.job_queue
          ++ record {
            id = i;
            name = name;
            payload = payload;
            attempts = 0;
            status = pending;
            created_at = created_at;
            updated_at = updated_at;
          }
            ∷ [];
    })

-- claim_pending.sql: the rows that it returns, and what it leaves.
unfoldable pub claim_row : ℕ → QueueRow → QueueRow
claim_row now row =
    if is_pending row.status then record row { status = running; updated_at = now } else row

unfoldable pub to_record : QueueRow → JobRecord
to_record row = record {
  id = row.id;
  name = row.name;
  payload = row.payload;
  attempts = row.attempts;
}

unfoldable pub claimed : List QueueRow → List JobRecord
unfolding to_record
claimed [] = []
claimed (row ∷ rows) =
    let rest = claimed rows in if is_pending row.status then to_record row ∷ rest else rest

unfoldable pub claim_pending : ℕ → Database → Database × List JobRecord
unfolding claimed claim_row
claim_pending now db =
    (record db { job_queue = map (claim_row now) db.job_queue }, claimed db.job_queue)

-- insert_history.sql
unfoldable pub insert_history : HistoryRow → Database → Result DbError Database
insert_history row db =
    if taken (count history_id row.id db.job_history)
    then err unique
    else ok (record db { job_history = db.job_history ++ row ∷ [] })

-- insert_graveyard.sql
unfoldable pub insert_graveyard : GraveyardRow → Database → Result DbError Database
insert_graveyard row db =
    if taken (count graveyard_id row.id db.job_graveyard)
    then err unique
    else ok (record db { job_graveyard = db.job_graveyard ++ row ∷ [] })

-- delete_queue_job.sql
unfoldable pub delete_rows : Str → List QueueRow → List QueueRow
unfolding filter
delete_rows i rows = filter (λ row. not (is_id row.id i)) rows

unfoldable pub delete_queue_job : Str → Database → Database
unfolding delete_rows
delete_queue_job i db = record db { job_queue = delete_rows i db.job_queue }

-- retry_job.sql
unfoldable pub retry_row : ℕ → ℕ → Str → QueueRow → QueueRow
retry_row attempts now i row =
    if is_id row.id i
    then record row { status = pending; attempts = attempts; updated_at = now }
    else row

unfoldable pub retry_job : ℕ → ℕ → Str → Database → Database
unfolding retry_row
retry_job attempts now i db = record db { job_queue = map (retry_row attempts now i) db.job_queue }

-- reset_orphaned.sql, with the number of rows that it changes
unfoldable pub reset_row : ℕ → QueueRow → QueueRow
reset_row now row =
    if is_pending row.status then row else record row { status = pending; updated_at = now }

unfoldable pub count_running : List QueueRow → ℕ
count_running [] = 0
count_running (row ∷ rows) =
    if is_pending row.status then count_running rows else suc (count_running rows)

unfoldable pub reset_orphaned : ℕ → Database → Database × ℕ
unfolding reset_row count_running
reset_orphaned now db =
    (record db { job_queue = map (reset_row now) db.job_queue }, count_running db.job_queue)
