-- ===== src/Worker/Examples.antt =====
-- A queue with one job, whose function always fails and which may be tried twice.
use kumacore.Prelude.{
  false, All, length, ◌+◌, ◌≤◌, pos, none, some, [], ◌∷◌, ok, ◌≡◌, ◌⊎◌, refl, ◌++◌, arith,
}
use kumacore.Prelude.Assoc.{lookup}
use kumacore.Prelude.Text.{Str, str_eq, str}
use kumacore.Worker.Table.{
  Database, DbError, HistoryRow, count, enqueue_job, history_id, graveyard_id, record_id,
  insert_history, delete_queue_job,
}
use kumacore.Worker.Repository.{no_tx_faults, no_fault, reset, move_job, enqueue}
use kumacore.Worker.Runtime.{Job, Runtime, Codec, enqueue_named, process_queue, register}
use kumacore.Worker.System.{System, IsFresh, Reach, next, start, enqueuing, polling}
use kumacore.Worker.Register.{IsRegistered, register-IsRegistered}
use kumacore.Worker.Places.{places, running_count, pending_count}
use kumacore.Worker.Execute.{move_job-cases}
use kumacore.Worker.Conserve.{never_lost, run_exclusive}
use kumacore.Worker.Drain.{rounds, drains}
use kumacore.Worker.Limit.{IsLimited, attempts-IsLimited}
use kumacore.Worker.Life.{
  Life, live, cancelled, waiting, returned, poll_reset, poll_wait, start_life, spawn, scheduled,
  begin_close, cancel, moved, Lives, here, later, starting, closing, moving, returning, was_reset,
  poll_done, fresh_life,
}
use kumacore.Worker.Shutdown.{IsOneOff, returned-OneOff}
use kumacore.Worker.Draining.{
  QuietStep, QuietSteps, still, further, quietly, total_left, close_ends,
}

abbrev text_codec : Codec Str
text_codec = record { marshal = ok; unmarshal = ok }

abbrev failing : Job Str
failing = record {
  name = str "mail";
  interval = pos 0;
  run = some (λ now payload. some (str "unreachable"));
}

abbrev two_attempts : Runtime Str
two_attempts = record {
  poll_interval = pos 1;
  max_attempts = pos 2;
  jobs = failing ∷ [];
  job_map = (str "mail", failing) ∷ [];
}

abbrev ident : Str
ident = str "7"

abbrev queued : System
queued = record start {
  db =
      (enqueue_named text_codec two_attempts none ident 100 (str "mail") (some (str "hi"))
        start.db).0;
}

fresh : IsFresh ident start.db
unfolding count
fresh = record { in_queue = refl; in_history = refl; in_graveyard = refl }

queued-Reach : Reach text_codec two_attempts start queued
queued-Reach = next Reach.here (enqueuing none ident 100 (str "mail") (some (str "hi")) fresh refl)

abbrev polled : System
polled = record {
  db = (process_queue no_fault 101 queued.db).0;
  in_flight = queued.in_flight ++ (process_queue no_fault 101 queued.db).1;
}

polled-Reach : Reach text_codec two_attempts queued polled
polled-Reach = next Reach.here (polling no_fault 101 refl)

start_to_polled : Reach text_codec two_attempts start polled
start_to_polled = next queued-Reach (polling no_fault 101 refl)

queued_once : places ident queued.db ≡ 1
unfolding enqueue_named lookup count str_eq enqueue enqueue_job
queued_once = refl

never_lost_example : places ident polled.db ≡ 1
never_lost_example =
    never_lost text_codec two_attempts {s = queued} {t = polled} queued-Reach polled-Reach ident
      queued_once

run_exclusive_example :
    (count record_id ident polled.in_flight ≤ running_count ident polled.db.job_queue)
    × (running_count ident polled.db.job_queue
          + pending_count ident polled.db.job_queue
          + count history_id ident polled.db.job_history
          + count graveyard_id ident polled.db.job_graveyard
        ≤ 1)
run_exclusive_example = run_exclusive text_codec two_attempts {s = polled} start_to_polled ident

abbrev drained : Database
drained = rounds text_codec two_attempts (200 ∷ 201 ∷ []) (reset none 199 polled.db).0

drains_example :
    (drained.job_queue ≡ [])
    × (places ident polled.db
        ≤ count history_id ident drained.job_history
          + count graveyard_id ident drained.job_graveyard)
    × (count history_id ident drained.job_history + count graveyard_id ident drained.job_graveyard
        ≤ 1)
drains_example =
    drains text_codec two_attempts 2 refl {s = polled} 199 (200 ∷ 201 ∷ []) ident start_to_polled
      (omega arith) refl

abbrev old_row : HistoryRow
old_row = record { id = ident; name = str "mail"; payload = none; attempts = 1; completed_at = 9 }

move_job-cases_example :
    ((e : DbError) × (move_job no_tx_faults (insert_history old_row) ident queued.db
        ≡ (queued.db, some e)))
    ⊎ ((db1 : Database) × (insert_history old_row queued.db ≡ ok db1)
        × (move_job no_tx_faults (insert_history old_row) ident queued.db
            ≡ (delete_queue_job ident db1, none)))
move_job-cases_example = move_job-cases no_tx_faults (insert_history old_row) ident queued.db

abbrev no_jobs : Runtime Str
no_jobs = record { poll_interval = pos 1; max_attempts = pos 2; jobs = []; job_map = [] }

no_jobs-IsRegistered : IsRegistered no_jobs
unfolding lookup
no_jobs-IsRegistered = record { listed = tt; mapped = λ name job h. cc }

register-IsRegistered_example : IsRegistered (register (failing ∷ failing ∷ []) no_jobs).0
register-IsRegistered_example =
    register-IsRegistered (failing ∷ failing ∷ []) no_jobs no_jobs-IsRegistered

attempts-IsLimited_example : IsLimited 2 polled
attempts-IsLimited_example =
    attempts-IsLimited text_codec two_attempts 1 refl {s = polled} start_to_polled

abbrev started : Life
started = record fresh_life { context = live; wait_count = 1; goroutines = poll_reset ∷ [] }

started-Lives : Lives two_attempts fresh_life started
unfolding start_life spawn scheduled
started-Lives = later here (starting refl refl refl)

abbrev closing_down : Life
closing_down = record started { context = cancelled; closer = waiting }

closing_down-Lives : Lives two_attempts fresh_life closing_down
unfolding begin_close cancel
closing_down-Lives = later started-Lives (closing refl refl)

abbrev reset_done : Life
reset_done = record closing_down { goroutines = poll_wait ∷ [] }

reset_done-QuietSteps : QuietSteps closing_down 1 reset_done
unfolding moved
reset_done-QuietSteps =
    further still (quietly [] poll_reset [] (poll_wait ∷ []) refl was_reset tt refl)

close_ends_example :
    (1 + total_left reset_done.goroutines ≡ total_left closing_down.goroutines)
    × ((reset_done.wait_count ≡ 0) ⊎ ((u : Life) × QuietStep reset_done u))
close_ends_example =
    close_ends two_attempts {s = closing_down} {t = reset_done} {n = 1} closing_down-Lives refl
      reset_done-QuietSteps

abbrev all_done : Life
all_done = record closing_down { goroutines = []; wait_count = 0 }

abbrev shut_down : Life
shut_down = record all_done { closer = returned; database_open = false }

shut_down-Lives : Lives two_attempts fresh_life shut_down
unfolding moved
shut_down-Lives =
    later {t = all_done}
      (later {t = reset_done}
        (later {t = closing_down} closing_down-Lives
          (moving [] poll_reset [] (poll_wait ∷ []) refl was_reset refl))
        (moving [] poll_wait [] [] refl (poll_done refl) refl))
      (returning refl refl refl)

returned-OneOff_example :
    (shut_down.database_open ≡ false)
    × All IsOneOff shut_down.goroutines
    × (shut_down.wait_count ≡ length shut_down.goroutines)
returned-OneOff_example = returned-OneOff two_attempts {s = shut_down} shut_down-Lives refl
