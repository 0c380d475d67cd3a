-- ===== src/Worker/Limit.antt =====
-- The attempts that core/worker records keep to the limit, in any interleaving.
use kumacore.Prelude.{
  ℕ, suc, pos, List, [], ◌∷◌, map, ◌≡◌, inl, inr, arith, All, All-append, All-map, All-middle,
  Bool-cases,
}
use kumacore.Prelude.Text.{Eq-str}
use kumacore.Worker.Table.{Database, QueueRow, is_pending, claimed, to_record, claim_row, reset_row}
use kumacore.Worker.Runtime.{Runtime, Codec, attempt, execute_queued}
use kumacore.Worker.Calls.{enqueue_named-cases, claim-cases, reset-cases}
use kumacore.Worker.System.{
  System, Step, enqueuing, polling, finishing, restarting, Reach, here, next, start,
}
use kumacore.Worker.Attempts.{IsQueued, IsRunning, IsBounded, settle-IsBounded, attempt-IsWithin}

claimed-IsRunning :
    (bound : ℕ) (rows : List QueueRow)
    → All (IsQueued bound) rows
    → All (IsRunning bound) (claimed rows)
unfolding claimed to_record
claimed-IsRunning bound [] h = tt
claimed-IsRunning bound (row ∷ rows) (h, hs) = elim (Bool-cases (is_pending row.status)) [
  | inl waits ↦ rw waits (h, claimed-IsRunning bound rows hs)
  | inr runs ↦ rw runs (claimed-IsRunning bound rows hs)
]

claim_row-IsQueued :
    (bound now : ℕ) (row : QueueRow) → IsQueued bound row → IsQueued bound (claim_row now row)
unfolding claim_row
claim_row-IsQueued bound now row h = ground arith

reset_row-IsQueued :
    (bound now : ℕ) (row : QueueRow) → IsQueued bound row → IsQueued bound (reset_row now row)
unfolding reset_row
reset_row-IsQueued bound now row h = ground arith

-- The rows and the goroutines keep to the limit.
pub record IsLimited (bound : ℕ) (s : System) : Type 0 where
  pub rows : IsBounded bound s.db
  pub goroutines : All (IsRunning bound) s.in_flight

with_queue :
    (bound : ℕ) (f : QueueRow → QueueRow) (db : Database)
    → ((row : QueueRow) → IsQueued bound row → IsQueued bound (f row))
    → IsBounded bound db
    → IsBounded bound (record db { job_queue = map f db.job_queue })
with_queue bound f db keep h = record {
  queue = All-map (IsQueued bound) (IsQueued bound) f db.job_queue keep h.queue;
  history = h.history;
  graveyard = h.graveyard;
}

module _ {V : Type 0} (codec : Codec V) (runtime : Runtime V) (bound : ℕ)
    (limit : runtime.max_attempts ≡ pos (suc bound)) where
  Step-IsLimited :
      {s t : System} → Step codec runtime s t → IsLimited (suc bound) s → IsLimited (suc bound) t
  unfolding execute_queued
  Step-IsLimited {s} (enqueuing fault i now name payload fresh e) h =
      elim (enqueue_named-cases codec runtime fault i now name payload s.db) [
        | inl same ↦ rw (e, same) (record { rows = h.rows; goroutines = h.goroutines })
        | inr (row, id, new, fresh_row, q) ↦
            rw (e, q)
              (record {
                rows = record {
                  queue =
                      All-append (IsQueued (suc bound)) s.db.job_queue (row ∷ []) h.rows.queue
                        (omega arith, tt);
                  history = h.rows.history;
                  graveyard = h.rows.graveyard;
                };
                goroutines = h.goroutines;
              })
      ]
  Step-IsLimited {s} (polling fault now e) h = elim (claim-cases fault now s.db) [
    | inl (same, none_claimed) ↦
        rw (e, same, none_claimed)
          (record {
            rows = h.rows;
            goroutines = All-append (IsRunning (suc bound)) s.in_flight [] h.goroutines tt;
          })
    | inr (q, inl none_claimed) ↦
        rw (e, q, none_claimed)
          (record {
            rows =
                with_queue (suc bound) (claim_row now) s.db (claim_row-IsQueued (suc bound) now)
                  h.rows;
            goroutines = All-append (IsRunning (suc bound)) s.in_flight [] h.goroutines tt;
          })
    | inr (q, inr all_claimed) ↦
        rw (e, q, all_claimed)
          (record {
            rows =
                with_queue (suc bound) (claim_row now) s.db (claim_row-IsQueued (suc bound) now)
                  h.rows;
            goroutines =
                All-append (IsRunning (suc bound)) s.in_flight (claimed s.db.job_queue) h.goroutines
                  (claimed-IsRunning (suc bound) s.db.job_queue h.rows.queue);
          })
  ]
  Step-IsLimited {s} (finishing before r after faults now e d) h =
      let (running, others) =
        All-middle (IsRunning (suc bound)) before r after (rw (← e) h.goroutines) in
      rw d (record {
        rows =
            settle-IsBounded (suc bound) faults now r (attempt codec runtime now r) s.db
              (attempt-IsWithin codec runtime (suc bound) now r limit running) h.rows;
        goroutines = others;
      })
  Step-IsLimited {s} (restarting fault now e) h = elim (reset-cases fault now s.db) [
    | inl same ↦ rw (e, same) (record { rows = h.rows; goroutines = tt })
    | inr q ↦
        rw (e, q)
          (record {
            rows =
                with_queue (suc bound) (reset_row now) s.db (reset_row-IsQueued (suc bound) now)
                  h.rows;
            goroutines = tt;
          })
  ]

  -- With a limit of at least one attempt, every state that can be reached keeps to it in the attempts
  -- that its rows record: a job that waits or runs has fewer than the limit recorded, one in the
  -- history from one to the limit, and a buried one at most the limit. A run whose outcome could not
  -- be written is not recorded as an attempt.
  pub attempts-IsLimited : {s : System} → Reach codec runtime start s → IsLimited (suc bound) s
  attempts-IsLimited here = record {
    rows = record { queue = tt; history = tt; graveyard = tt };
    goroutines = tt;
  }
  attempts-IsLimited (next r step) = Step-IsLimited step (attempts-IsLimited r)
