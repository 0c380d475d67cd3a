-- ===== src/Worker/Draining.antt =====
-- While `Close` of core/worker/worker.go waits: how many moves its goroutines have left, and that one
-- of them can move.
use kumacore.Prelude.{
  ℕ, zero, suc, ◌+◌, List, [], ◌∷◌, ◌++◌, ◌≡◌, ◌⊎◌, inl, inr, refl, arith, All, length, ap, ◌∙◌,
}
use kumacore.Worker.Runtime.{Runtime}
use kumacore.Worker.Life.{
  Goroutine, interval_run, interval_wait, poll_reset, poll_wait, execution, one_off, Context,
  not_started, live, cancelled, waiting, Life, Move, ran, interval_tick, interval_done, was_reset,
  poll_tick, poll_done, executed, triggered_done, moved, LifeStep, moving, Lives, later, fresh_life,
}
use kumacore.Worker.Shutdown.{IsOneOff, Lives-IsTidy}

-- How many moves a goroutine has left if no ticker fires (`pollLoop`, `runJob`, `executeQueued`).
abbrev pub moves_left : Goroutine → ℕ
moves_left (interval_run name) = 2
moves_left (interval_wait name) = 1
moves_left poll_reset = 2
moves_left poll_wait = 1
moves_left (execution job_record) = 1
moves_left (one_off name) = 1

abbrev pub total_left : List Goroutine → ℕ
total_left [] = 0
total_left (g ∷ gs) = moves_left g + total_left gs

-- A move that is no tick.
abbrev pub IsQuiet :
    {context : Context} {g : Goroutine} {next : List Goroutine} → Move context g next → Type 0
IsQuiet interval_tick = ⊥
IsQuiet (poll_tick fault now db) = ⊥
IsQuiet _ = Unit

pub data QuietStep (s t : Life) : Type 0 where
  quietly :
      (before : List Goroutine) (g : Goroutine) (after next : List Goroutine)
      → s.goroutines ≡ before ++ g ∷ after
      → (m : Move s.context g next) → IsQuiet m
      → t ≡ moved before next after s
      → QuietStep s t

-- So many moves, none of them a tick.
pub data QuietSteps (s : Life) : ℕ → Life → Type 0 where
  still : QuietSteps s zero s
  further : {n : ℕ} {t u : Life} → QuietSteps s n t → QuietStep t u → QuietSteps s (suc n) u

total_left-append : (gs hs : List Goroutine) → total_left (gs ++ hs) ≡ total_left gs + total_left hs
total_left-append [] hs = omega arith
total_left-append (g ∷ gs) hs = omega (arith, total_left-append gs hs)

quiet-Move :
    {context : Context} {g : Goroutine} {next : List Goroutine} (m : Move context g next)
    → IsQuiet m
    → suc (total_left next) ≡ moves_left g
quiet-Move ran h = refl
quiet-Move interval_tick h = absurd h
quiet-Move (interval_done e) h = refl
quiet-Move was_reset h = refl
quiet-Move (poll_tick fault now db) h = absurd h
quiet-Move (poll_done e) h = refl
quiet-Move executed h = refl
quiet-Move triggered_done h = refl

quiet_step : {s t : Life} → QuietStep s t → suc (total_left t.goroutines) ≡ total_left s.goroutines
unfolding moved
quiet_step {s} (quietly before g after next e m q d) = rw d (
    omega (
      arith,
      ap total_left e,
      quiet-Move m q,
      total_left-append before (g ∷ after),
      total_left-append before (next ++ after),
      total_left-append next after,
    ))

-- While nothing cancels the context again, a goroutine that is there can go on.
can-Move :
    (context : Context) (g : Goroutine)
    → (context ≡ live → ⊥)
    → (context ≡ not_started → IsOneOff g)
    → (next : List Goroutine) × (m : Move context g next) × IsQuiet m
can-Move context (interval_run name) l e = (interval_wait name ∷ [], ran, tt)
can-Move context poll_reset l e = (poll_wait ∷ [], was_reset, tt)
can-Move context (execution job_record) l e = ([], executed, tt)
can-Move context (one_off name) l e = ([], triggered_done, tt)
can-Move cancelled (interval_wait name) l e = ([], interval_done refl, tt)
can-Move cancelled poll_wait l e = ([], poll_done refl, tt)
can-Move live (interval_wait name) l e = absurd (l refl)
can-Move live poll_wait l e = absurd (l refl)
can-Move not_started (interval_wait name) l e = absurd (e refl)
can-Move not_started poll_wait l e = absurd (e refl)

can_step :
    (s : Life) (gs : List Goroutine)
    → s.goroutines ≡ gs
    → (s.context ≡ live → ⊥)
    → (s.context ≡ not_started → All IsOneOff gs)
    → (length gs ≡ 0) ⊎ ((t : Life) × QuietStep s t)
can_step s [] e l h = inl refl
can_step s (g ∷ gs) e l h =
    let (next, m, q) = can-Move s.context g l (λ p. (h p).0) in
    inr (moved [] next gs s, quietly [] g gs next e m q refl)

module _ {V : Type 0} (runtime : Runtime V) where
  QuietStep-LifeStep : {s t : Life} → QuietStep s t → LifeStep runtime s t
  QuietStep-LifeStep (quietly before g after next e m q d) = moving before g after next e m d

  QuietSteps-Lives :
      {s t : Life} {n : ℕ}
      → Lives runtime fresh_life s
      → QuietSteps s n t
      → Lives runtime fresh_life t
  QuietSteps-Lives r still = r
  QuietSteps-Lives r (further q step) = later (QuietSteps-Lives r q) (QuietStep-LifeStep step)

  QuietStep-closer : {s t : Life} → QuietStep s t → t.closer ≡ s.closer
  unfolding moved
  QuietStep-closer (quietly before g after next e m q d) = rw d refl

  QuietSteps-closer : {s t : Life} {n : ℕ} → QuietSteps s n t → t.closer ≡ s.closer
  QuietSteps-closer still = refl
  QuietSteps-closer (further q step) = QuietStep-closer step ∙ QuietSteps-closer q

  QuietSteps-total :
      {s t : Life} {n : ℕ}
      → QuietSteps s n t
      → n + total_left t.goroutines ≡ total_left s.goroutines
  QuietSteps-total still = omega arith
  QuietSteps-total (further q step) = omega (arith, QuietSteps-total q, quiet_step step)

  -- While `Close` waits, its goroutines can take only as many moves as they have left, at most two
  -- each, ticks and new calls of `TriggerJob` apart; and however many they have taken, either the wait
  -- group is at zero, so that `Close` returns, or a goroutine can take another.
  pub close_ends :
      {s t : Life} {n : ℕ}
      → Lives runtime fresh_life s
      → s.closer ≡ waiting
      → QuietSteps s n t
      → (n + total_left t.goroutines ≡ total_left s.goroutines)
        × ((t.wait_count ≡ 0) ⊎ ((u : Life) × QuietStep t u))
  close_ends {s} {t} r waits q =
      let tidy = Lives-IsTidy runtime (QuietSteps-Lives r q) in
      let still_waits = QuietSteps-closer q ∙ waits in
      (
        QuietSteps-total q,
        elim (can_step t t.goroutines refl (tidy.stopped still_waits) tidy.early) [
          | inl empty ↦ inl (tidy.counted ∙ empty)
          | inr more ↦ inr more
        ],
      )
