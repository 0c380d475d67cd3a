-- ===== src/Worker/Conserve.antt =====
-- No job of core/worker is lost or run twice at once, in any interleaving.
use kumacore.Prelude.{
  ◌+◌, ◌≤◌, List, [], ◌∷◌, ◌++◌, ◌≡◌, ◌⊎◌, inl, inr, refl, ap, arith, append-nil, if◌then◌else◌,
  ◌==◌,
}
use kumacore.Prelude.Text.{Str, Eq-str, str_eq_iff}
use kumacore.Worker.Table.{
  Database, JobRecord, count, queue_id, history_id, graveyard_id, record_id, claimed, reset_row,
  retry_row, claim_row,
}
use kumacore.Worker.Runtime.{Runtime, Codec}
use kumacore.Worker.System.{
  System, Step, enqueuing, polling, finishing, restarting, Reach, here, next, start,
}
use kumacore.Worker.Places.{
  places, count-append, count-map, claim_row-id, retry_row-id, reset_row-id, count-delete_rows,
  running_count, pending_count, count-running-pending, running_count-append, running_count-claim,
  count-claimed, running_count-delete_rows, running_count-retry,
}
use kumacore.Worker.Calls.{enqueue_named-cases, claim-cases, reset-cases}
use kumacore.Worker.Execute.{
  Effect, unchanged, to_history, to_graveyard, to_pending, execute_queued-Effect,
}

-- Every id has one row at most, and a record in flight has a running row of its own.
pub record Inv (s : System) : Type 0 where
  pub unique : (i : Str) → places i s.db ≤ 1
  pub backed : (i : Str) → count record_id i s.in_flight ≤ running_count i s.db.job_queue

Inv-start : Inv start
unfolding count running_count
Inv-start = record { unique = λ i. omega arith; backed = λ i. omega arith }

places-Effect :
    (i j : Str) (db db' : Database)
    → Effect i db db'
    → count queue_id i db.job_queue ≡ 1
    → places j db' ≡ places j db
unfolding count
places-Effect i j db db' (unchanged e) one = rw e refl
places-Effect i j db db' (to_history row same none_yet e) one = rw e (
    ground (
      arith,
      count-delete_rows j i db.job_queue,
      count-append history_id j db.job_history (row ∷ []),
      str_eq_iff i j,
      str_eq_iff row.id j,
    ))
places-Effect i j db db' (to_graveyard row same none_yet e) one = rw e (
    ground (
      arith,
      count-delete_rows j i db.job_queue,
      count-append graveyard_id j db.job_graveyard (row ∷ []),
      str_eq_iff i j,
      str_eq_iff row.id j,
    ))
places-Effect i j db db' (to_pending attempts now e) one =
    rw (e, count-map (retry_row attempts now i) (retry_row-id attempts now i) j db.job_queue) refl

running-Effect :
    (i j : Str) (db db' : Database)
    → Effect i db db'
    → (running_count j db'.job_queue ≡ running_count j db.job_queue)
      ⊎ (running_count j db'.job_queue ≡ (if i == j then 0 else running_count j db.job_queue))
running-Effect i j db db' (unchanged e) = inl (rw e refl)
running-Effect i j db db' (to_history row same none_yet e) =
    inr (rw e (running_count-delete_rows j i db.job_queue))
running-Effect i j db db' (to_graveyard row same none_yet e) =
    inr (rw e (running_count-delete_rows j i db.job_queue))
running-Effect i j db db' (to_pending attempts now e) =
    inr (rw e (running_count-retry j i attempts now db.job_queue))

pub finishing-one :
    {s : System} (before : List JobRecord) (r : JobRecord) (after : List JobRecord)
    → Inv s
    → s.in_flight ≡ before ++ r ∷ after
    → count queue_id r.id s.db.job_queue ≡ 1
unfolding count
finishing-one {s} before r after inv e = ground (
  arith,
  inv.unique r.id,
  inv.backed r.id,
  count-running-pending r.id s.db.job_queue,
  ap (count record_id r.id) e,
  count-append record_id r.id before (r ∷ after),
  str_eq_iff r.id r.id,
)

module _ {V : Type 0} (codec : Codec V) (runtime : Runtime V) where
  -- One step keeps the number of rows that an id has, except that enqueuing may give its first row
  -- to an id that has none.
  places-Step :
      {s t : System}
      → Inv s
      → Step codec runtime s t
      → (i : Str) → (places i t.db ≡ places i s.db) ⊎ ((places i s.db ≡ 0) × (places i t.db ≡ 1))
  unfolding count
  places-Step {s} inv (enqueuing fault i now name payload fresh e) j =
      elim (enqueue_named-cases codec runtime fault i now name payload s.db) [
        | inl same ↦ inl (rw (e, same) refl)
        | inr (row, id, new, zero_attempts, q) ↦
            rw (e, q)
              (ground (
                arith,
                count-append queue_id j s.db.job_queue (row ∷ []),
                str_eq_iff row.id j,
                fresh.in_queue,
                fresh.in_history,
                fresh.in_graveyard,
              ))
      ]
  places-Step {s} inv (polling fault now e) j = elim (claim-cases fault now s.db) [
    | inl (same, none_claimed) ↦ inl (rw (e, same) refl)
    | inr (q, some_claimed) ↦
        inl (rw (e, q, count-map (claim_row now) (claim_row-id now) j s.db.job_queue) refl)
  ]
  places-Step {s} inv (finishing before r after faults now e d) j = inl (
      rw d (
        places-Effect r.id j s.db _ (execute_queued-Effect codec runtime faults now r s.db)
          (finishing-one before r after inv e)))
  places-Step {s} inv (restarting fault now e) j = elim (reset-cases fault now s.db) [
    | inl same ↦ inl (rw (e, same) refl)
    | inr q ↦ inl (rw (e, q, count-map (reset_row now) (reset_row-id now) j s.db.job_queue) refl)
  ]

  backed-Step :
      {s t : System}
      → Inv s
      → Step codec runtime s t
      → (i : Str) → count record_id i t.in_flight ≤ running_count i t.db.job_queue
  unfolding count running_count
  backed-Step {s} inv (enqueuing fault i now name payload fresh e) j =
      elim (enqueue_named-cases codec runtime fault i now name payload s.db) [
        | inl same ↦ rw (e, same) (inv.backed j)
        | inr (row, id, new, zero_attempts, q) ↦
            rw (e, q)
              (omega (arith, inv.backed j, running_count-append j s.db.job_queue (row ∷ [])))
      ]
  backed-Step {s} inv (polling fault now e) j = elim (claim-cases fault now s.db) [
    | inl (same, none_claimed) ↦ rw (e, same, none_claimed, append-nil) (inv.backed j)
    | inr (q, inl none_claimed) ↦
        rw (e, q, none_claimed, append-nil, running_count-claim)
          (omega (arith, inv.backed j, count-running-pending j s.db.job_queue))
    | inr (q, inr all_claimed) ↦
        rw (e, q, all_claimed, running_count-claim)
          (omega (
            arith,
            inv.backed j,
            count-running-pending j s.db.job_queue,
            count-append record_id j s.in_flight (claimed s.db.job_queue),
            count-claimed j s.db.job_queue,
          ))
  ]
  backed-Step {s} inv (finishing before r after faults now e d) j = rw d (
      ground (
        arith,
        running-Effect r.id j s.db _ (execute_queued-Effect codec runtime faults now r s.db),
        inv.backed j,
        inv.unique j,
        ap (count record_id j) e,
        count-append record_id j before (r ∷ after),
        count-append record_id j before after,
        count-running-pending j s.db.job_queue,
        str_eq_iff r.id j,
      ))
  backed-Step {s} inv (restarting fault now e) j = rw e (omega arith)

  pub Inv-Step : {s t : System} → Inv s → Step codec runtime s t → Inv t
  Inv-Step {s} inv step = record {
    unique = λ i. omega (arith, inv.unique i, places-Step inv step i);
    backed = backed-Step inv step;
  }

  pub Inv-Reach : {s : System} → Reach codec runtime start s → Inv s
  Inv-Reach here = Inv-start
  Inv-Reach (next r step) = Inv-Step (Inv-Reach r) step

  -- In every state that can be reached, an id has no more goroutines that run its job than running
  -- rows in the queue, and at most one row in all: running or pending in the queue, in the history or
  -- in the graveyard. So a job runs in one goroutine at most, and while it does, no poll can claim it
  -- again and no result of it has been recorded.
  pub run_exclusive :
      {s : System}
      → Reach codec runtime start s
      → (i : Str)
      → (count record_id i s.in_flight ≤ running_count i s.db.job_queue)
        × (running_count i s.db.job_queue
              + pending_count i s.db.job_queue
              + count history_id i s.db.job_history
              + count graveyard_id i s.db.job_graveyard
            ≤ 1)
  run_exclusive {s} r i =
      let inv = Inv-Reach r in
      (inv.backed i, omega (arith, inv.unique i, count-running-pending i s.db.job_queue))

  pub reach_once :
      {s t : System}
      → Inv s
      → Reach codec runtime s t
      → (i : Str) → places i s.db ≡ 1
      → Inv t × (places i t.db ≡ 1)
  reach_once inv here i one = (inv, one)
  reach_once inv (next r step) i one =
      let (inv', one') = reach_once inv r i one in
      (Inv-Step inv' step, omega (arith, one', places-Step inv' step i))

  -- A job that has its row in one of the three tables has exactly one row in them in every later
  -- state: whatever calls fail, in whatever order the goroutines run, and however often the process
  -- restarts, it is never lost and never recorded twice.
  pub never_lost :
      {s t : System}
      → Reach codec runtime start s
      → Reach codec runtime s t
      → (i : Str) → places i s.db ≡ 1
      → places i t.db ≡ 1
  never_lost first r i one = (reach_once (Inv-Reach first) r i one).1
