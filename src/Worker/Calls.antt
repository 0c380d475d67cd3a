-- ===== src/Worker/Calls.antt =====
-- What the calls of core/worker that are not executions can do to the queue database.
use kumacore.Prelude.{
  ℕ, Option, none, some, [], ◌∷◌, ◌++◌, map, ok, ◌≡◌, ◌⊎◌, inl, inr, refl, arith, Option-cases,
  Result-cases,
}
use kumacore.Prelude.Assoc.{lookup}
use kumacore.Prelude.Text.{Str, Eq-str}
use kumacore.Worker.Table.{
  Database, DbError, claimed, claim_pending, reset_orphaned, enqueue_job, reset_row, claim_row,
  QueueRow, pending,
}
use kumacore.Worker.Repository.{ClaimFault, no_fault, at_query, at_rows, claim, reset, enqueue}
use kumacore.Worker.Runtime.{Runtime, Codec, enqueue_named, encode, process_queue}

abbrev new_row : Str → Str → Option Str → ℕ → QueueRow
new_row i name payload now = record {
  id = i;
  name = name;
  payload = payload;
  attempts = 0;
  status = pending;
  created_at = now;
  updated_at = now;
}

enqueue_job-ok :
    (i name : Str) (payload : Option Str) (now : ℕ) (db : Database) {db' : Database}
    → enqueue_job i name payload now now db ≡ ok db'
    → db' ≡ record db { job_queue = db.job_queue ++ new_row i name payload now ∷ [] }
unfolding enqueue_job
enqueue_job-ok i name payload now db h = ground arith

-- What `Enqueue` can do to the database: nothing, or one new pending row.
pub enqueue_named-cases :
    {V : Type 0} (codec : Codec V) (runtime : Runtime V) (fault : Option DbError) (i : Str)
    (now : ℕ)
    → (name : Str) (payload : Option V) (db : Database)
    → ((enqueue_named codec runtime fault i now name payload db).0 ≡ db)
      ⊎ ((row : QueueRow) × (row.id ≡ i)
          × (row.status ≡ pending)
          × (row.attempts ≡ 0)
          × ((enqueue_named codec runtime fault i now name payload db).0
              ≡ record db { job_queue = db.job_queue ++ row ∷ [] }))
unfolding enqueue_named enqueue
enqueue_named-cases codec runtime fault i now name payload db =
    elim (Option-cases (lookup name runtime.job_map)) [
      | inl p ↦ inl (ground arith)
      | inr (job, p) ↦ elim (Result-cases (encode codec payload)) [
        | inr (message, q) ↦ inl (ground arith)
        | inl (encoded, q) ↦ elim (Option-cases fault) [
          | inr (e, f) ↦ inl (ground arith)
          | inl f ↦ elim (Result-cases (enqueue_job i name encoded now now db)) [
            | inr (e, r) ↦ inl (ground arith)
            | inl (db1, r) ↦ inr (
              new_row i name encoded now,
              refl,
              refl,
              refl,
              ground (arith, enqueue_job-ok i name encoded now db {db' = db1}),
            )
          ]
        ]
      ]
    ]

-- What a poll can do: it marks what is pending, unless its query fails, and gives the records unless
-- reading them fails.
pub claim-cases :
    (fault : ClaimFault) (now : ℕ) (db : Database)
    → (((process_queue fault now db).0 ≡ db) × ((process_queue fault now db).1 ≡ []))
      ⊎ (((process_queue fault now db).0
            ≡ record db { job_queue = map (claim_row now) db.job_queue })
          × (((process_queue fault now db).1 ≡ [])
              ⊎ ((process_queue fault now db).1 ≡ claimed db.job_queue)))
unfolding process_queue claim claim_pending
claim-cases (at_query e) now db = inl (refl, refl)
claim-cases (at_rows e) now db = inr (refl, inl refl)
claim-cases no_fault now db = inr (refl, inr refl)

-- What the reset at the start can do.
pub reset-cases :
    (fault : Option DbError) (now : ℕ) (db : Database)
    → ((reset fault now db).0 ≡ db)
      ⊎ ((reset fault now db).0 ≡ record db { job_queue = map (reset_row now) db.job_queue })
unfolding reset reset_orphaned
reset-cases (some e) now db = inl refl
reset-cases none now db = inr refl
