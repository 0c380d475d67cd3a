-- ===== src/Worker/Shutdown.antt =====
-- `Close` of core/worker/worker.go: what is left when it returns, and that it can return.
use kumacore.Prelude.{
  ◌+◌, ◌-◌, true, false, List, [], ◌∷◌, ◌++◌, ◌≡◌, ◌⊎◌, inl, inr, refl, arith, All, All-append,
  length, length-append, Option-cases, ap, subst,
}
use kumacore.Prelude.Assoc.{lookup}
use kumacore.Prelude.Text.{Str, Eq-str}
use kumacore.Worker.Runtime.{Runtime}
use kumacore.Worker.Life.{
  Goroutine, poll_reset, one_off, Context, not_started, live, cancelled, waiting, returned, Life,
  spawn, scheduled, start_life, cancel, begin_close, trigger_job, Move, ran, interval_tick,
  interval_done, was_reset, poll_tick, poll_done, executed, triggered_done, moved, LifeStep,
  starting, cancelling, triggering, moving, closing, returning, Lives, here, later, fresh_life,
}

abbrev pub IsOneOff : Goroutine → Type 0
IsOneOff (one_off name) = Unit
IsOneOff _ = ⊥

abbrev OnlyOneOff : List Goroutine → Type 0
OnlyOneOff gs = All IsOneOff gs

-- The wait group counts the goroutines. Before `Start` and after `Close` there are none but those of
-- `TriggerJob`, and `Close` closes the database.
pub record IsTidy (life : Life) : Type 0 where
  pub counted : life.wait_count ≡ length life.goroutines
  pub early : life.context ≡ not_started → All IsOneOff life.goroutines
  pub late : life.closer ≡ returned → (life.database_open ≡ false) × All IsOneOff life.goroutines
  pub open_until : (life.closer ≡ returned) ⊎ (life.database_open ≡ true)
  pub stopped : life.closer ≡ waiting → (life.context ≡ live → ⊥)

Move-IsOneOff :
    (context : Context) (g : Goroutine) (next : List Goroutine)
    → Move context g next
    → IsOneOff g
    → All IsOneOff next
Move-IsOneOff context g next ran h = absurd h
Move-IsOneOff context g next interval_tick h = absurd h
Move-IsOneOff context g next (interval_done e) h = absurd h
Move-IsOneOff context g next was_reset h = absurd h
Move-IsOneOff context g next (poll_tick fault now db) h = absurd h
Move-IsOneOff context g next (poll_done e) h = absurd h
Move-IsOneOff context g next executed h = tt
Move-IsOneOff context g next triggered_done h = tt

moved-IsOneOff :
    (context : Context) (before : List Goroutine) (g : Goroutine) (after next : List Goroutine)
    → Move context g next
    → All IsOneOff (before ++ g ∷ after)
    → All IsOneOff (before ++ (next ++ after))
moved-IsOneOff context [] g after next m (h, hs) =
    All-append IsOneOff next after (Move-IsOneOff context g next m h) hs
moved-IsOneOff context (b ∷ before) g after next m (h, hs) =
    (h, moved-IsOneOff context before g after next m hs)

length-moved :
    (before : List Goroutine) (g : Goroutine) (after next : List Goroutine)
    → length (before ++ g ∷ after) + length next - 1 ≡ length (before ++ (next ++ after))
length-moved before g after next = omega (
  arith,
  length-append before (g ∷ after),
  length-append before (next ++ after),
  length-append next after,
)

no_goroutine : (gs : List Goroutine) → length gs ≡ 0 → All IsOneOff gs
no_goroutine [] e = tt
no_goroutine (g ∷ gs) e = absurd (omega arith)

cancel-early : (context : Context) → cancel context ≡ not_started → context ≡ not_started
unfolding cancel
cancel-early not_started e = refl
cancel-early live e = cc
cancel-early cancelled e = cc

cancel-dead : (context : Context) → cancel context ≡ live → ⊥
unfolding cancel
cancel-dead not_started e = cc
cancel-dead live e = cc
cancel-dead cancelled e = cc

-- `Close` on a runtime whose database is open.
close_open : Life → Life
close_open life = record life { context = cancel life.context; closer = waiting }

begin_close-open : (life : Life) → life.database_open ≡ true → begin_close life ≡ close_open life
unfolding begin_close close_open
begin_close-open life e = ground arith

begin_close-IsTidy :
    (life : Life) → life.database_open ≡ true → IsTidy life → IsTidy (begin_close life)
begin_close-IsTidy life o h = rw (begin_close-open life o) (
    unfold close_open in
    record {
      counted = h.counted;
      early = λ p. h.early (cancel-early life.context p);
      late = λ p. cc;
      open_until = inr o;
      stopped = λ p q. cancel-dead life.context q;
    })

module _ {V : Type 0} (runtime : Runtime V) where
  trigger_job-IsTidy : (name : Str) (s : Life) → IsTidy s → IsTidy (trigger_job runtime name s).0
  unfolding trigger_job
  trigger_job-IsTidy name s h = elim (Option-cases (lookup name runtime.job_map)) [
    | inl p ↦ rw (p, trigger_job) h
    | inr (job, p) ↦
        rw (p, trigger_job)
          (record {
            counted = omega (arith, h.counted, length-append s.goroutines (one_off name ∷ []));
            early = λ q. All-append IsOneOff s.goroutines (one_off name ∷ []) (h.early q) (tt, tt);
            late = λ q.
                let (shut, only) = h.late q in
                (shut, All-append IsOneOff s.goroutines (one_off name ∷ []) only (tt, tt));
            open_until = h.open_until;
            stopped = h.stopped;
          })
  ]

  Step-IsTidy : {s t : Life} → LifeStep runtime s t → IsTidy s → IsTidy t
  unfolding start_life spawn moved
  Step-IsTidy {s} (starting fresh open' e) h = rw e (record {
    counted =
        omega (
          arith,
          h.counted,
          length-append s.goroutines (scheduled runtime.jobs ++ poll_reset ∷ []),
        );
    early = λ p. cc;
    late = λ p. cc (open');
    open_until = h.open_until;
    stopped = λ p. cc (open');
  })
  Step-IsTidy {s} (cancelling alive e) h = rw e (record {
    counted = h.counted;
    early = λ p. cc;
    late = h.late;
    open_until = h.open_until;
    stopped = λ p q. cc;
  })
  Step-IsTidy {s} (triggering name e) h = rw e (trigger_job-IsTidy name s h)
  Step-IsTidy {s} (moving before g after next e m d) h = rw d (record {
    counted = omega (arith, h.counted, ap length e, length-moved before g after next);
    early =
        λ p. moved-IsOneOff s.context before g after next m (subst (All IsOneOff) e (h.early p));
    late = λ p.
        let (shut, only) = h.late p in
        (shut, moved-IsOneOff s.context before g after next m (subst (All IsOneOff) e only));
    open_until = h.open_until;
    stopped = h.stopped;
  })
  Step-IsTidy {s} (closing first e) h =
      rw e (begin_close-IsTidy s (ground (arith, h.open_until, first)) h)
  Step-IsTidy {s} (returning waits none_left e) h = rw e (record {
    counted = h.counted;
    early = h.early;
    late = λ p. (refl, no_goroutine s.goroutines (omega (arith, h.counted, none_left)));
    open_until = inl refl;
    stopped = λ p. cc;
  })

  pub Lives-IsTidy : {s : Life} → Lives runtime fresh_life s → IsTidy s
  Lives-IsTidy here = record {
    counted = refl;
    early = λ p. tt;
    late = λ p. cc;
    open_until = inr refl;
    stopped = λ p q. cc;
  }
  Lives-IsTidy (later r step) = Step-IsTidy step (Lives-IsTidy r)

  -- Once `Close` has returned, the database is closed and no goroutine of `Start` or of a poll is left
  -- that could use it: all that can still run are runs of `TriggerJob`, each counted by the wait group.
  pub returned-OneOff :
      {s : Life}
      → Lives runtime fresh_life s
      → s.closer ≡ returned
      → (s.database_open ≡ false) × All IsOneOff s.goroutines × (s.wait_count ≡ length s.goroutines)
  returned-OneOff r e =
      let tidy = Lives-IsTidy r in let (shut, only) = tidy.late e in (shut, only, tidy.counted)
