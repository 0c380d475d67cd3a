-- ===== src/Scaffold/Whole.antt =====
-- A project is generated whole or not at all (cmd/kumacore/internal/initcmd/write.go).
use kumacore.Prelude.{
  Bool, none, some, List, [], ◌∷◌, ok, ◌≡◌, ap, ◌⊎◌, inl, inr, refl, arith, Result-cases,
  Bool-cases, if◌then◌else◌,
}
use kumacore.Prelude.Text.{Str}
use kumacore.Scaffold.Options.{Options}
use kumacore.Scaffold.Plan.{
  SourceTree, Destination, free, directory_there, file_there, no_answer, WriteFaults, FileChange,
  InitError, summary_failed, planned_changes, initialize_repository, ensure_project_destination,
  write_staged, write_failed, rename_failed,
}

write_staged-ok :
    (fault : Str → Bool) (changes : List FileChange) {written : List FileChange}
    → write_staged fault changes ≡ ok written
    → written ≡ changes
unfolding write_staged
write_staged-ok fault [] h = ground arith
write_staged-ok fault (c ∷ changes) {written} h = elim (Result-cases (write_staged fault changes)) [
  | inl (rest, p) ↦ ground (arith, write_staged-ok fault changes {written = rest} p)
  | inr (e, p) ↦ ground arith
]

free_of : (d : Destination) → ensure_project_destination d ≡ ok tt → d ≡ free
unfolding ensure_project_destination
free_of free h = refl
free_of directory_there h = ground arith
free_of file_there h = ground arith
free_of no_answer h = ground arith

-- Either no project is made, and there is an error; or the whole of the planned files stands at a
-- destination that was free, and the only error can be that the summary could not be printed.
pub initialize_repository-cases :
    (tree : SourceTree) (destination : Destination) (faults : WriteFaults) (options : Options)
    → let (project, failed) = initialize_repository tree destination faults options in
      ((project ≡ none) × ((e : InitError) × (failed ≡ some e)))
      ⊎ ((changes : List FileChange) × (planned_changes tree options ≡ ok changes)
          × (project ≡ some changes)
          × (destination ≡ free)
          × (failed ≡ (if faults.at_summary then some summary_failed else none)))
unfolding initialize_repository
initialize_repository-cases tree destination faults options =
    elim (Result-cases (planned_changes tree options)) [
      | inr (e, p) ↦ rw (initialize_repository, p) (inl (refl, (e, refl)))
      | inl (changes, p) ↦ elim (Result-cases (ensure_project_destination destination)) [
        | inr (e, q) ↦ rw (initialize_repository, p, q) (inl (refl, (e, refl)))
        | inl (u, q) ↦ elim (Bool-cases faults.at_staging) [
          | inl s ↦ rw (initialize_repository, p, q, s) (inl (refl, (write_failed, refl)))
          | inr s ↦ elim (Result-cases (write_staged faults.at_file changes)) [
            | inr (e, w) ↦ rw (initialize_repository, p, q, s, w) (inl (refl, (e, refl)))
            | inl (written, w) ↦ elim (Bool-cases faults.at_rename) [
              | inl r ↦
                  rw (initialize_repository, p, q, s, w, r) (inl (refl, (rename_failed, refl)))
              | inr r ↦
                  rw (initialize_repository, p, q, s, w, r)
                    (inr (
                      changes,
                      refl,
                      ap some (write_staged-ok faults.at_file changes w),
                      free_of destination q,
                      refl,
                    ))
            ]
          ]
        ]
      ]
    ]
