-- ===== src/Worker/Register.antt =====
-- `Register` and `Enqueue` of core/worker/worker.go: what the runtime knows of its jobs.
use kumacore.Prelude.{
  true, false, none, some, List, [], ◌∷◌, ◌++◌, ok, ◌≡◌, inl, inr, arith, All, All-append,
  Result-cases,
}
use kumacore.Prelude.Assoc.{lookup, insert, lookup-insert}
use kumacore.Prelude.Text.{Str, Eq-str, str_eq_iff, trim_space, is_empty}
use kumacore.Worker.Runtime.{Job, Runtime, register_job, register, is_some}

module _ {V : Type 0} where
  -- A job of the list is found under its name.
  abbrev IsListed : Runtime V → Job V → Type 0
  IsListed runtime job = (lookup job.name runtime.job_map ≡ some job) × (is_some job.run ≡ true)

  -- The list and the map of a runtime agree, and every job has a name and a function.
  pub record IsRegistered (runtime : Runtime V) : Type 0 where
    pub listed : All (IsListed runtime) runtime.jobs
    pub mapped :
        (name : Str) (job : Job V)
        → lookup name runtime.job_map ≡ some job
        → (job.name ≡ name) × (is_some job.run ≡ true) × (is_empty name ≡ false)

  abbrev named : Job V → Job V
  named job = record job { name = trim_space job.name }

  abbrev added : Job V → Runtime V → Runtime V
  added job runtime = record runtime {
    jobs = runtime.jobs ++ named job ∷ [];
    job_map = insert (trim_space job.name) (named job) runtime.job_map;
  }

  register_job-ok :
      (job : Job V) (runtime : Runtime V) {runtime' : Runtime V}
      → register_job job runtime ≡ ok runtime'
      → (is_empty (trim_space job.name) ≡ false)
        × (is_some job.run ≡ true)
        × (lookup (trim_space job.name) runtime.job_map ≡ none)
        × (runtime' ≡ added job runtime)
  unfolding register_job
  register_job-ok job runtime h = ground arith

  IsListed-added :
      (job : Job V) (runtime : Runtime V) (jobs : List (Job V))
      → lookup (trim_space job.name) runtime.job_map ≡ none
      → All (IsListed runtime) jobs
      → All (IsListed (added job runtime)) jobs
  IsListed-added job runtime [] absent h = tt
  IsListed-added job runtime (j ∷ js) absent ((found, runs), hs) = (
    (
      ground (
        arith,
        lookup-insert (trim_space job.name) j.name (named job) runtime.job_map,
        str_eq_iff (trim_space job.name) j.name,
      ),
      runs,
    ),
    IsListed-added job runtime js absent hs,
  )

  added-IsRegistered :
      (job : Job V) (runtime : Runtime V)
      → is_empty (trim_space job.name) ≡ false
      → is_some job.run ≡ true
      → lookup (trim_space job.name) runtime.job_map ≡ none
      → IsRegistered runtime
      → IsRegistered (added job runtime)
  added-IsRegistered job runtime full runs absent r = record {
    listed =
        All-append (IsListed (added job runtime)) runtime.jobs (named job ∷ [])
          (IsListed-added job runtime runtime.jobs absent r.listed)
          (
            (
              ground (
                arith,
                lookup-insert (trim_space job.name) (trim_space job.name) (named job)
                    runtime.job_map,
                str_eq_iff (trim_space job.name) (trim_space job.name),
              ),
              runs,
            ),
            tt,
          );
    mapped = λ name j found. ground (
      arith,
      lookup-insert (trim_space job.name) name (named job) runtime.job_map,
      str_eq_iff (trim_space job.name) name,
      r.mapped name j,
    );
  }

  -- `Register` keeps the list and the map of jobs in step, on success and when it stops at a job that
  -- it refuses: every job of the list is found under its own name, every name of the map is its job's
  -- and is not empty, and every job has a function.
  pub register-IsRegistered :
      (jobs : List (Job V)) (runtime : Runtime V)
      → IsRegistered runtime
      → IsRegistered (register jobs runtime).0
  unfolding register
  register-IsRegistered [] runtime r = r
  register-IsRegistered (job ∷ jobs) runtime r = elim (Result-cases (register_job job runtime)) [
    | inr (e, p) ↦ rw (p, register) r
    | inl (runtime', p) ↦
        let (full, runs, absent, same) = register_job-ok job runtime p in
        rw (p, register)
          (register-IsRegistered jobs runtime'
            (rw same (added-IsRegistered job runtime full runs absent r)))
  ]
