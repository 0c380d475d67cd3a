-- ===== src/Worker/Drain.antt =====
-- Rounds of the poll loop of core/worker/worker.go that nothing disturbs: each claims what is
-- pending and runs it to the end, with no fault of the database.
use kumacore.Prelude.{
  ℕ, suc, ◌+◌, ◌≤◌, ◌<◌, pos, false, Option, none, some, List, [], ◌∷◌, ◌++◌, map, ◌≡◌, ◌⊎◌, inl,
  inr, refl, ap, sym, subst, arith, All, Option-cases, Result-cases, length, Bool-cases, leb,
}
use kumacore.Prelude.Assoc.{lookup}
use kumacore.Prelude.Text.{Str, Eq-str, str_eq_iff}
use kumacore.Worker.Table.{
  Database, QueueRow, JobRecord, count, queue_id, history_id, graveyard_id, claimed, to_record,
  claim_row, retry_row, reset_row, delete_rows, is_id, pending, insert_history, insert_graveyard,
  claim_pending, delete_queue_job, retry_job, reset_orphaned,
}
use kumacore.Worker.Repository.{
  no_fault, no_tx_faults, history_row, graveyard_row, claim, reset, complete, bury, retry,
}
use kumacore.Worker.Runtime.{
  Runtime, Codec, ExecFaults, Verdict, run_job, completed, judge, decode, buried, retried, attempt,
  settle, execute_queued, process_queue,
}
use kumacore.Worker.Places.{places, claim_row-id}
use kumacore.Worker.System.{System, Reach, here, next, start, finishing, polling, restarting}
use kumacore.Worker.Conserve.{Inv, Inv-Step, Inv-Reach, finishing-one, reach_once}

abbrev pub no_exec_faults : ExecFaults
no_exec_faults = record { moving = no_tx_faults; retrying = none }

module _ {V : Type 0} (codec : Codec V) (runtime : Runtime V) where
  unfoldable pub execute_all : ℕ → List JobRecord → Database → Database
  execute_all now [] db = db
  execute_all now (job_record ∷ job_records) db =
      execute_all now job_records (execute_queued codec runtime no_exec_faults now job_record db)

  -- One tick of the poll loop and the goroutines that it starts.
  unfoldable pub round : ℕ → Database → Database
  unfolding execute_all
  round now db =
      let (db', job_records) = process_queue no_fault now db in execute_all now job_records db'

  -- The ticks at these times.
  unfoldable pub rounds : List ℕ → Database → Database
  unfolding round
  rounds [] db = db
  rounds (now ∷ times) db = rounds times (round now db)

-- A row that waits with at least `k` attempts made, and with one left.
abbrev IsSettled : ℕ → ℕ → QueueRow → Type 0
IsSettled bound k row = (row.status ≡ pending) × (k ≤ row.attempts) × (row.attempts < bound)

abbrev HasRecord : ℕ → QueueRow → List JobRecord → Type 0
HasRecord k row [] = ⊥
HasRecord k row (r ∷ rs) = ((r.id ≡ row.id) × (k ≤ r.attempts)) ⊎ HasRecord k row rs

-- A row is settled for the next round, or its record is still to run in this one.
abbrev Waits : ℕ → ℕ → List JobRecord → QueueRow → Type 0
Waits bound k rs row = IsSettled bound (suc k) row ⊎ HasRecord k row rs

-- The queue after a run of a record with no fault, when no row of its id is recorded.
data Ran (bound : ℕ) (r : JobRecord) (db db' : Database) : Type 0 where
  recorded : db'.job_queue ≡ delete_rows r.id db.job_queue → Ran bound r db db'
  again :
      (now : ℕ)
      → suc r.attempts < bound
      → db'.job_queue ≡ map (retry_row (suc r.attempts) now r.id) db.job_queue
      → Ran bound r db db'

abbrev IsValid : ℕ → JobRecord → Verdict → Type 0
IsValid bound r (completed n) = Unit
IsValid bound r (buried n last_error) = Unit
IsValid bound r (retried n) = (n ≡ suc r.attempts) × (n < bound)

judge-IsValid :
    (bound n : ℕ) (r : JobRecord) (run_error : Option Str)
    → n ≡ suc r.attempts
    → IsValid bound r (judge (pos bound) n run_error)
unfolding judge
judge-IsValid bound n r none e = tt
judge-IsValid bound n r (some run_error) e = elim (Bool-cases (leb bound n)) [
  | inl last ↦ rw last tt
  | inr more ↦ rw more (e, ground arith)
]

attempt-IsValid :
    {V : Type 0} (codec : Codec V) (runtime : Runtime V) (bound now : ℕ) (r : JobRecord)
    → runtime.max_attempts ≡ pos bound
    → IsValid bound r (attempt codec runtime now r)
unfolding attempt
attempt-IsValid codec runtime bound now r h = elim (Option-cases (lookup r.name runtime.job_map)) [
  | inl p ↦ rw (p, attempt) tt
  | inr (job, p) ↦ elim (Result-cases (decode codec r.payload)) [
    | inr (message, q) ↦ rw (p, attempt, q) tt
    | inl (payload, q) ↦
        rw (p, attempt, q, h)
          (judge-IsValid bound (r.attempts + 1) r (run_job codec job now payload) (omega arith))
  ]
]

complete_clean :
    (now n : ℕ) (r : JobRecord) (db : Database)
    → count history_id r.id db.job_history ≡ 0
    → (complete no_tx_faults r n now db).0 ≡ record db {
      job_queue = delete_rows r.id db.job_queue;
      job_history = db.job_history ++ history_row r n now ∷ [];
    }
unfolding complete insert_history delete_queue_job
complete_clean now n r db h = ground arith

bury_clean :
    (now n : ℕ) (last_error : Str) (r : JobRecord) (db : Database)
    → count graveyard_id r.id db.job_graveyard ≡ 0
    → (bury no_tx_faults r n last_error now db).0 ≡ record db {
      job_queue = delete_rows r.id db.job_queue;
      job_graveyard = db.job_graveyard ++ graveyard_row r n last_error now ∷ [];
    }
unfolding bury insert_graveyard delete_queue_job
bury_clean now n last_error r db h = ground arith

settle-Ran :
    (bound now : ℕ) (r : JobRecord) (v : Verdict) (db : Database)
    → IsValid bound r v
    → count history_id r.id db.job_history ≡ 0
    → count graveyard_id r.id db.job_graveyard ≡ 0
    → Ran bound r db (settle no_exec_faults now r v db)
unfolding settle retry retry_job
settle-Ran bound now r (completed n) db valid h g = rw (complete_clean now n r db h) (recorded refl)
settle-Ran bound now r (buried n last_error) db valid h g =
    rw (bury_clean now n last_error r db g) (recorded refl)
settle-Ran bound now r (retried n) db (same, less) h g =
    again now (omega arith) (ap (λ a. map (retry_row a now r.id) db.job_queue) same)

-- Running one record: what waited for it is settled, the rest waits on.
module _ (bound k : ℕ) (r : JobRecord) (rs : List JobRecord) where
  Waits-other :
      (row : QueueRow)
      → is_id row.id r.id ≡ false
      → Waits bound k (r ∷ rs) row
      → Waits bound k rs row
  Waits-other row e (inl settled) = inl settled
  Waits-other row e (inr (inl (same, le))) = absurd (ground (arith, str_eq_iff row.id r.id))
  Waits-other row e (inr (inr later)) = inr later

  Waits-delete :
      (rows : List QueueRow)
      → All (Waits bound k (r ∷ rs)) rows
      → All (Waits bound k rs) (delete_rows r.id rows)
  unfolding delete_rows
  Waits-delete [] w = tt
  Waits-delete (row ∷ rows) (w, ws) = elim (Bool-cases (is_id row.id r.id)) [
    | inl same ↦ rw same (Waits-delete rows ws)
    | inr other ↦ rw other (Waits-other row other w, Waits-delete rows ws)
  ]

  retry_row-Waits :
      (now : ℕ) (row : QueueRow)
      → k ≤ r.attempts
      → suc r.attempts < bound
      → Waits bound k (r ∷ rs) row
      → Waits bound k rs (retry_row (suc r.attempts) now r.id row)
  unfolding retry_row
  retry_row-Waits now row le less w = elim (Bool-cases (is_id row.id r.id)) [
    | inl same ↦ rw same (inl (refl, omega arith, less))
    | inr other ↦ rw other (Waits-other row other w)
  ]

  Waits-retry :
      (now : ℕ) (rows : List QueueRow)
      → k ≤ r.attempts
      → suc r.attempts < bound
      → All (Waits bound k (r ∷ rs)) rows
      → All (Waits bound k rs) (map (retry_row (suc r.attempts) now r.id) rows)
  Waits-retry now [] le less w = tt
  Waits-retry now (row ∷ rows) le less (w, ws) =
      (retry_row-Waits now row le less w, Waits-retry now rows le less ws)

  Ran-Waits :
      {db db' : Database}
      → k ≤ r.attempts
      → Ran bound r db db'
      → All (Waits bound k (r ∷ rs)) db.job_queue
      → All (Waits bound k rs) db'.job_queue
  Ran-Waits {db} le (recorded e) w = rw e (Waits-delete db.job_queue w)
  Ran-Waits {db} le (again now less e) w = rw e (Waits-retry now db.job_queue le less w)

Waits-nil :
    (bound k : ℕ) (rows : List QueueRow)
    → All (Waits bound k []) rows
    → All (IsSettled bound (suc k)) rows
Waits-nil bound k [] w = tt
Waits-nil bound k (row ∷ rows) (inl settled, ws) = (settled, Waits-nil bound k rows ws)
Waits-nil bound k (row ∷ rows) (inr none_left, ws) = absurd none_left

-- Claiming gives every pending row its record.
abbrev IsReady : ℕ → QueueRow → Type 0
IsReady k row = (row.status ≡ pending) × (k ≤ row.attempts)

Waits-cons :
    (bound k : ℕ) (r : JobRecord) (rs : List JobRecord) (rows : List QueueRow)
    → All (Waits bound k rs) rows
    → All (Waits bound k (r ∷ rs)) rows
Waits-cons bound k r rs [] w = tt
Waits-cons bound k r rs (row ∷ rows) (inl settled, ws) =
    (inl settled, Waits-cons bound k r rs rows ws)
Waits-cons bound k r rs (row ∷ rows) (inr has, ws) =
    (inr (inr has), Waits-cons bound k r rs rows ws)

claimed-pending :
    (row : QueueRow) (rows : List QueueRow)
    → row.status ≡ pending
    → claimed (row ∷ rows) ≡ to_record row ∷ claimed rows
unfolding claimed
claimed-pending row rows h = ground arith

claim-Waits :
    (bound k now : ℕ) (rows : List QueueRow)
    → All (IsReady k) rows
    → All (Waits bound k (claimed rows)) (map (claim_row now) rows)
      × All (λ r. k ≤ r.attempts) (claimed rows)
unfolding to_record
claim-Waits bound k now [] h = (tt, unfold claimed in tt)
claim-Waits bound k now (row ∷ rows) ((waiting, le), hs) =
    let (ws, ls) = claim-Waits bound k now rows hs in
    subst
      (λ rs.
        All (Waits bound k rs) (map (claim_row now) (row ∷ rows)) × All (λ r. k ≤ r.attempts) rs)
      (sym (claimed-pending row rows waiting))
      (
        (
          inr (inl (sym (claim_row-id now row), le)),
          Waits-cons bound k (to_record row) (claimed rows) (map (claim_row now) rows) ws,
        ),
        (le, ls),
      )

module _ {V : Type 0} (codec : Codec V) (runtime : Runtime V) (bound : ℕ)
    (capped : runtime.max_attempts ≡ pos bound) where
  execute_queued-Ran :
      (now : ℕ) (r : JobRecord) (rs : List JobRecord) (db : Database)
      → Inv (record { db = db; in_flight = r ∷ rs })
      → Ran bound r db (execute_queued codec runtime no_exec_faults now r db)
  unfolding execute_queued
  execute_queued-Ran now r rs db inv =
      let one = finishing-one [] r rs inv refl in
      settle-Ran bound now r (attempt codec runtime now r) db
        (attempt-IsValid codec runtime bound now r capped) (omega (arith, one, inv.unique r.id))
        (omega (arith, one, inv.unique r.id))

  execute_all-IsSettled :
      (k now : ℕ) (rs : List JobRecord) (db : Database)
      → Inv (record { db = db; in_flight = rs })
      → All (λ r. k ≤ r.attempts) rs
      → All (Waits bound k rs) db.job_queue
      → let db' = execute_all codec runtime now rs db in
        Inv (record { db = db'; in_flight = [] }) × All (IsSettled bound (suc k)) db'.job_queue
  unfolding execute_all
  execute_all-IsSettled k now [] db inv ls ws = (inv, Waits-nil bound k db.job_queue ws)
  execute_all-IsSettled k now (r ∷ rs) db inv (le, ls) ws =
      execute_all-IsSettled k now rs (execute_queued codec runtime no_exec_faults now r db)
        (Inv-Step codec runtime inv (finishing [] r rs no_exec_faults now refl refl)) ls
        (Ran-Waits bound k r rs le (execute_queued-Ran now r rs db inv) ws)

  IsSettled-IsReady :
      (k : ℕ) (rows : List QueueRow) → All (IsSettled bound k) rows → All (IsReady k) rows
  IsSettled-IsReady k [] h = tt
  IsSettled-IsReady k (row ∷ rows) ((waiting, le, less), hs) =
      ((waiting, le), IsSettled-IsReady k rows hs)

  settled-nil : (rows : List QueueRow) → All (IsSettled bound bound) rows → rows ≡ []
  settled-nil [] h = refl
  settled-nil (row ∷ rows) (h, hs) = absurd (omega arith)

  round-IsSettled :
      (k now : ℕ) (db : Database)
      → Inv (record { db = db; in_flight = [] })
      → All (IsReady k) db.job_queue
      → let db' = round codec runtime now db in
        Inv (record { db = db'; in_flight = [] }) × All (IsSettled bound (suc k)) db'.job_queue
  unfolding round process_queue claim claim_pending
  round-IsSettled k now db inv ready =
      let (ws, ls) = claim-Waits bound k now db.job_queue ready in
      execute_all-IsSettled k now (claimed db.job_queue)
        (record db { job_queue = map (claim_row now) db.job_queue })
        (Inv-Step codec runtime inv (polling no_fault now refl)) ls ws

  rounds-IsSettled :
      (k n now : ℕ) (times : List ℕ) (db : Database)
      → Inv (record { db = db; in_flight = [] })
      → All (IsReady k) db.job_queue
      → n ≡ suc k + length times
      → All (IsSettled bound n) (rounds codec runtime (now ∷ times) db).job_queue
  unfolding rounds
  rounds-IsSettled k n now [] db inv ready e =
      let (inv', settled) = round-IsSettled k now db inv ready in
      let same : suc k ≡ n = omega (arith, e) in
      subst (λ m. All (IsSettled bound m) (round codec runtime now db).job_queue) same settled
  rounds-IsSettled k n now (t ∷ times) db inv ready e =
      let (inv', settled) = round-IsSettled k now db inv ready in
      rounds-IsSettled (suc k) n t times (round codec runtime now db) inv'
        (IsSettled-IsReady (suc k) (round codec runtime now db).job_queue settled)
        (omega (arith, e))

  -- The same rounds as steps of the system.
  execute_all-Reach :
      {s : System} (now : ℕ) (rs : List JobRecord) (db : Database)
      → Reach codec runtime s (record { db = db; in_flight = rs })
      → Reach codec runtime s (record { db = execute_all codec runtime now rs db; in_flight = [] })
  unfolding execute_all
  execute_all-Reach now [] db r = r
  execute_all-Reach now (job ∷ rs) db r =
      execute_all-Reach now rs (execute_queued codec runtime no_exec_faults now job db)
        (next r (finishing [] job rs no_exec_faults now refl refl))

  round-Reach :
      {s : System} (now : ℕ) (db : Database)
      → Reach codec runtime s (record { db = db; in_flight = [] })
      → Reach codec runtime s (record { db = round codec runtime now db; in_flight = [] })
  unfolding round process_queue claim claim_pending
  round-Reach now db r =
      execute_all-Reach now (claimed db.job_queue)
        (record db { job_queue = map (claim_row now) db.job_queue })
        (next r (polling no_fault now refl))

  rounds-Reach :
      {s : System} (times : List ℕ) (db : Database)
      → Reach codec runtime s (record { db = db; in_flight = [] })
      → Reach codec runtime s (record { db = rounds codec runtime times db; in_flight = [] })
  unfolding rounds
  rounds-Reach [] db r = r
  rounds-Reach (now ∷ times) db r =
      rounds-Reach times (round codec runtime now db) (round-Reach now db r)

IsReady-reset : (now : ℕ) (rows : List QueueRow) → All (IsReady 0) (map (reset_row now) rows)
unfolding reset_row
IsReady-reset now [] = tt
IsReady-reset now (row ∷ rows) = (ground arith, IsReady-reset now rows)

rest_places :
    (i : Str) (db : Database)
    → db.job_queue ≡ []
    → places i db ≡ count history_id i db.job_history + count graveyard_id i db.job_graveyard
unfolding count
rest_places i db e = omega (arith, ap (count queue_id i) e)

module _ {V : Type 0} (codec : Codec V) (runtime : Runtime V) (bound : ℕ)
    (capped : runtime.max_attempts ≡ pos bound) where
  rounds-nil :
      (times : List ℕ) (db : Database)
      → 0 < bound
      → length times ≡ bound
      → Inv (record { db = db; in_flight = [] })
      → All (IsReady 0) db.job_queue
      → (rounds codec runtime times db).job_queue ≡ []
  rounds-nil [] db positive len inv ready = absurd (omega arith)
  rounds-nil (now ∷ times) db positive len inv ready =
      settled-nil codec runtime bound capped _
        (rounds-IsSettled codec runtime bound capped 0 bound now times db inv ready (omega arith))

  -- After any history of the system, with failures, lost goroutines and restarts, one restart whose
  -- reset runs and as many undisturbed ticks as a job has attempts, at least one, leave no job in
  -- the queue, however the jobs fail; and every id has at most one row in the history and the
  -- graveyard together, and has one if it had its row in any of the three tables.
  pub drains :
      {s : System} (now : ℕ) (times : List ℕ) (i : Str)
      → Reach codec runtime start s
      → 0 < bound
      → length times ≡ bound
      → let db = rounds codec runtime times (reset none now s.db).0 in
        (db.job_queue ≡ [])
        × (places i s.db
            ≤ count history_id i db.job_history + count graveyard_id i db.job_graveyard)
        × (count history_id i db.job_history + count graveyard_id i db.job_graveyard ≤ 1)
  drains {s} now times i r positive len =
      let again = next r (restarting none now refl) in
      let before = Inv-Reach codec runtime r in
      let after =
        Inv-Reach codec runtime
          (rounds-Reach codec runtime bound capped times (reset none now s.db).0 again) in
      let empty =
        rounds-nil times (reset none now s.db).0 positive len (Inv-Reach codec runtime again)
          (unfold reset reset_orphaned in IsReady-reset now s.db.job_queue) in
      let none_queued = rest_places i (rounds codec runtime times (reset none now s.db).0) empty in
      let kept : places i s.db ≡ 1
          → places i (rounds codec runtime times (reset none now s.db).0) ≡ 1 =
        λ one.
          (reach_once codec runtime before
            (rounds-Reach codec runtime bound capped times (reset none now s.db).0
              (next here (restarting none now refl)))
            i one).1 in
      (
        empty,
        ground (arith, none_queued, before.unique i, after.unique i, kept),
        omega (arith, none_queued, after.unique i),
      )
