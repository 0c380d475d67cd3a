-- ===== src/Worker/System.antt =====
-- The goroutines of core/worker/worker.go beside one another: the records in flight are those for
-- which `processQueue` has started a goroutine that has not written its result yet. Any of them may
-- be the next to finish, calls of `Enqueue` and ticks of the poll loop come in any order, and the
-- process may die and start again at any time, which forgets the records in flight and runs
-- `resetOrphaned`. Each statement and each transaction is atomic.
use kumacore.Prelude.{ℕ, Option, List, [], ◌∷◌, ◌++◌, ◌≡◌}
use kumacore.Prelude.Text.{Str}
use kumacore.Worker.Table.{Database, JobRecord, DbError, count, queue_id, history_id, graveyard_id}
use kumacore.Worker.Repository.{ClaimFault, reset}
use kumacore.Worker.Runtime.{
  Runtime, Codec, ExecFaults, enqueue_named, execute_queued, process_queue,
}

pub record System : Type 0 where
  pub db : Database
  pub in_flight : List JobRecord

-- An id of `uuid.New` stands in no table yet.
pub record IsFresh (i : Str) (db : Database) : Type 0 where
  pub in_queue : count queue_id i db.job_queue ≡ 0
  pub in_history : count history_id i db.job_history ≡ 0
  pub in_graveyard : count graveyard_id i db.job_graveyard ≡ 0

module _ {V : Type 0} (codec : Codec V) (runtime : Runtime V) where
  -- The third argument of an enqueuing step is the new id.
  pub data Step (s t : System) : Type 0 where
    enqueuing :
        (fault : Option DbError) (i : Str) (now : ℕ) (name : Str) (payload : Option V)
        → IsFresh i s.db
        → t ≡ record s { db = (enqueue_named codec runtime fault i now name payload s.db).0 }
        → Step s t
    polling :
        (fault : ClaimFault) (now : ℕ)
        → t ≡ record {
          db = (process_queue fault now s.db).0;
          in_flight = s.in_flight ++ (process_queue fault now s.db).1;
        }
        → Step s t
    finishing :
        (before : List JobRecord) (job_record : JobRecord) (after : List JobRecord)
        → (faults : ExecFaults) (now : ℕ) → s.in_flight ≡ before ++ job_record ∷ after
        → t ≡ record {
          db = execute_queued codec runtime faults now job_record s.db;
          in_flight = before ++ after;
        }
        → Step s t
    restarting :
        (fault : Option DbError) (now : ℕ)
        → t ≡ record { db = (reset fault now s.db).0; in_flight = [] }
        → Step s t

  pub data Reach (s : System) : System → Type 0 where
    here : Reach s s
    next : {t u : System} → Reach s t → Step t u → Reach s u

abbrev pub start : System
start = record {
  db = record { job_queue = []; job_history = []; job_graveyard = [] };
  in_flight = [];
}
