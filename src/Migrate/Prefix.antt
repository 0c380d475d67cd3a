-- ===== src/Migrate/Prefix.antt =====
-- `validateMigrations` of core/db/migrate/migrate.go: the applied migrations are a prefix of the
-- files, and the plan is the rest.
use kumacore.Prelude.{
  ℕ, zero, suc, ◌+◌, ◌-◌, ◌≤◌, ◌<◌, Bool, true, false, ◌&&◌, ◌||◌, Option, none, some, List, [],
  ◌∷◌, ◌++◌, ok, err, ◌≡◌, ◌↔◌, ◌⊎◌, inl, inr, refl, sym, ap, ◌∙◌, arith, if◌then◌else◌, ◌==◌, leb,
  ltb, length, drop, All, Bool-cases, Eq-nat, append-nil, append_assoc, >>=-eq-ok,
}
use kumacore.Prelude.Assoc.{lookup, insert, lookup-insert}
use kumacore.Prelude.Text.{Eq-str, str_eq_iff}
use kumacore.Migrate.Types.{
  MigrationFile, AppliedMigration, MigrateError, filename_mismatch, checksum_mismatch,
}
use kumacore.Migrate.Plan.{
  Applied, Planned, values, compare_file, plan_files, check_missing, is_planned, unless_error,
  validate_applied_migrations, validate_migrations, already_applied, still_pending, and_pending,
}
use kumacore.Migrate.Sequence.{
  seq_count, in_range, AreNumbered, file_sequence, row_sequence, check_applied_iff,
}

-- Each row stands under its own sequence, as `loadAppliedMigrations` puts it.
abbrev pub IsKeyed : Applied → Type 0
IsKeyed [] = Unit
IsKeyed ((sequence, row) ∷ applied) = (row.sequence ≡ sequence) × IsKeyed applied

-- The rows are numbered from 1 without gap and repetition.
abbrev pub IsContiguous : Applied → Type 0
IsContiguous applied =
    (n : ℕ) → seq_count row_sequence n (values applied) ≡ in_range 1 (length (values applied)) n

-- The row of a file, if it has one, has its name and its checksum.
abbrev pub Agrees : MigrationFile → Option AppliedMigration → Type 0
Agrees file none = Unit
Agrees file (some row) = (row.filename ≡ file.filename) × (row.checksum_sha256 ≡ file.checksum)

abbrev pub IsUntouched : Applied → MigrationFile → Type 0
IsUntouched applied file = Agrees file (lookup file.sequence applied)

abbrev has_row : Option AppliedMigration → Bool
has_row none = false
has_row (some row) = true

lookup-values :
    (s : ℕ) (applied : Applied)
    → IsKeyed applied
    → has_row (lookup s applied) ≡ leb 1 (seq_count row_sequence s (values applied))
unfolding lookup values seq_count
lookup-values s [] h = refl
lookup-values s ((j, row) ∷ applied) (e, h) = ground (arith, lookup-values s applied h)

abbrev standing_of : Option AppliedMigration → Bool
standing_of = has_row

compare_file-ok :
    (file : MigrationFile) (row : Option AppliedMigration)
    → Agrees file row
    → compare_file file row ≡ ok (if has_row row then already_applied else still_pending)
unfolding compare_file
compare_file-ok file none a = refl
compare_file-ok file (some row) (name, sum) =
    ground
      (arith, str_eq_iff row.filename file.filename, str_eq_iff row.checksum_sha256 file.checksum)

compare_file-Agrees :
    (file : MigrationFile) (row : Option AppliedMigration)
    → ((e : MigrateError) × (compare_file file row ≡ err e)) ⊎ Agrees file row
unfolding compare_file
compare_file-Agrees file none = inr tt
compare_file-Agrees file (some row) = elim (Bool-cases (row.filename == file.filename)) [
  | inr other ↦ inl (filename_mismatch file.sequence, rw other refl)
  | inl name ↦ elim (Bool-cases (row.checksum_sha256 == file.checksum)) [
    | inr other ↦ inl (checksum_mismatch file.sequence, rw (name, other) refl)
    | inl sum ↦ inr (
      (str_eq_iff row.filename file.filename).0 name,
      (str_eq_iff row.checksum_sha256 file.checksum).0 sum,
    )
  ]
]

insert_all : Planned → List MigrationFile → Planned
insert_all planned [] = planned
insert_all planned (file ∷ files) = insert_all (insert file.sequence file planned) files

lookup-insert_all :
    (s first : ℕ) (planned : Planned) (files : List MigrationFile)
    → AreNumbered file_sequence first files
    → is_planned (lookup s (insert_all planned files))
      ≡ (is_planned (lookup s planned) || (leb first s && ltb s (first + length files)))
unfolding insert_all
lookup-insert_all s first planned [] h = ground arith
lookup-insert_all s first planned (file ∷ files) (e, h) = ground (
  arith,
  lookup-insert_all s (suc first) (insert file.sequence file planned) files h,
  lookup-insert file.sequence s file planned,
)

drop-zero : (n : ℕ) (files : List MigrationFile) → n ≡ 0 → drop n files ≡ files
drop-zero zero files e = refl
drop-zero (suc n) files e = absurd (omega arith)

drop-nil : (n : ℕ) → drop {A = MigrationFile} n [] ≡ []
drop-nil zero = refl
drop-nil (suc n) = refl

drop-suc :
    (n k : ℕ) (file : MigrationFile) (files : List MigrationFile)
    → n ≡ suc k
    → drop n (file ∷ files) ≡ drop k files
drop-suc zero k file files e = absurd (omega arith)
drop-suc (suc n) k file files e = ap (λ i. drop i files) (omega (arith, e))

beyond_applied :
    (m first : ℕ) (pending : List MigrationFile) (file : MigrationFile) (files : List MigrationFile)
    → m < first
    → (pending ++ file ∷ []) ++ drop (suc m - suc first) files
      ≡ pending ++ drop (suc m - first) (file ∷ files)
beyond_applied m first pending file files lt =
    append_assoc pending (file ∷ []) (drop (suc m - suc first) files)
    ∙ ap (λ l. pending ++ l)
        (ap (λ l. file ∷ l) (drop-zero (suc m - suc first) files (omega arith))
          ∙ sym (drop-zero (suc m - first) (file ∷ files) (omega arith)))

module _ (applied : Applied) (keyed : IsKeyed applied) (contiguous : IsContiguous applied) where
  has_row-le : (s : ℕ) → has_row (lookup s applied) ≡ (leb 1 s && leb s (length (values applied)))
  has_row-le s = ground (arith, lookup-values s applied keyed, contiguous s)

  -- The loop over untouched files: those beyond the applied ones are pending.
  plan_files-ok :
      (first : ℕ) (pending : List MigrationFile) (planned : Planned) (files : List MigrationFile)
      → 1 ≤ first
      → AreNumbered file_sequence first files
      → All (IsUntouched applied) files
      → plan_files applied pending planned files
        ≡ ok (
          pending ++ drop (suc (length (values applied)) - first) files,
          insert_all planned files,
        )
  unfolding plan_files insert_all
  plan_files-ok first pending planned [] le h a =
      ap (λ l. ok (l, planned)) (sym (ap (λ l. pending ++ l) (drop-nil _) ∙ append-nil pending))
  plan_files-ok first pending planned (file ∷ files) le (e, h) (agreed, rest) =
      rw (compare_file-ok file (lookup file.sequence applied) agreed)
        (elim (Bool-cases (has_row (lookup file.sequence applied))) [
          | inl has ↦ rw has (
              plan_files-ok (suc first) pending (insert file.sequence file planned) files
                (omega arith) h rest
              ∙ ap (λ l. ok (pending ++ l, insert_all (insert file.sequence file planned) files))
                  (sym (drop-suc _ _ file files (ground (arith, has_row-le file.sequence)))))
          | inr absent ↦ rw absent (
              plan_files-ok (suc first) (pending ++ file ∷ []) (insert file.sequence file planned)
                files (omega arith) h rest
              ∙ ap (λ l. ok (l, insert_all (insert file.sequence file planned) files))
                  (beyond_applied (length (values applied)) first pending file files
                    (ground (arith, has_row-le file.sequence))))
        ])

plan_files-IsUntouched :
    (applied : Applied) (pending : List MigrationFile) (planned : Planned)
    (files : List MigrationFile)
    → {result : List MigrationFile × Planned} → plan_files applied pending planned files ≡ ok result
    → All (IsUntouched applied) files
unfolding plan_files
plan_files-IsUntouched applied pending planned [] h = tt
plan_files-IsUntouched applied pending planned (file ∷ files) h =
    let (standing, p, q) = >>=-eq-ok (compare_file file (lookup file.sequence applied)) _ h in
    elim (compare_file-Agrees file (lookup file.sequence applied)) [
      | inl (e, failed) ↦ cc
      | inr agreed ↦ (
        agreed,
        plan_files-IsUntouched applied (and_pending standing file pending)
            (insert file.sequence file planned) files q,
      )
    ]

check_missing-none :
    (planned : Planned) (applied : Applied)
    → IsKeyed applied
    → check_missing planned applied ≡ none
    → (s : ℕ) → 1 ≤ seq_count row_sequence s (values applied)
    → is_planned (lookup s planned) ≡ true
unfolding check_missing seq_count values
check_missing-none planned [] keyed h s one = absurd (omega arith)
check_missing-none planned ((j, row) ∷ applied) (e, keyed) h s one =
    ground (arith, check_missing-none planned applied keyed (ground arith) s)

none-check_missing :
    (planned : Planned) (applied : Applied)
    → IsKeyed applied
    → ((s : ℕ)
        → 1 ≤ seq_count row_sequence s (values applied)
        → is_planned (lookup s planned) ≡ true)
    → check_missing planned applied ≡ none
unfolding check_missing seq_count values
none-check_missing planned [] keyed h = refl
none-check_missing planned ((j, row) ∷ applied) (e, keyed) h =
    ground (arith, h j, none-check_missing planned applied keyed (λ s one. h s (ground arith)))

unless_error-ok :
    {A : Type 0} (o : Option MigrateError) {a b : A}
    → unless_error o a ≡ ok b
    → (o ≡ none) × (b ≡ a)
unless_error-ok none h = (refl, ground arith)
unless_error-ok (some e) h = cc

-- When a plan is accepted and what it is.
pub record IsPlan (files : List MigrationFile) (applied : Applied) (pending : List MigrationFile)
    : Type 0 where
  pub contiguous : IsContiguous applied
  pub fewer : length (values applied) ≤ length files
  pub untouched : All (IsUntouched applied) files
  pub rest : pending ≡ drop (length (values applied)) files

module _ (files : List MigrationFile) (numbered : AreNumbered file_sequence 1 files)
    (applied : Applied) (keyed : IsKeyed applied) where
  covered :
      (s : ℕ) → is_planned (lookup s (insert_all [] files)) ≡ (leb 1 s && ltb s (1 + length files))
  unfolding lookup
  covered s = lookup-insert_all s 1 [] files numbered

  validate_applied_iff : (validate_applied_migrations applied ≡ none) ↔ IsContiguous applied
  unfolding validate_applied_migrations
  validate_applied_iff = check_applied_iff (values applied)

  abbrev planned_result : List MigrationFile × Planned
  planned_result = (drop (suc (length (values applied)) - 1) files, insert_all [] files)

  from_one : drop (suc (length (values applied)) - 1) files ≡ drop (length (values applied)) files
  from_one = ap (λ n. drop n files) (omega arith)

  fewer_applied :
      IsContiguous applied
      → check_missing (insert_all [] files) applied ≡ none
      → length (values applied) ≤ length files
  fewer_applied contiguous nothing =
      let m = length (values applied) in
      ground (
        arith,
        contiguous m,
        check_missing-none (insert_all [] files) applied keyed nothing m,
        covered m,
      )

  all_covered :
      {pending : List MigrationFile}
      → IsPlan files applied pending
      → check_missing (insert_all [] files) applied ≡ none
  all_covered p =
      none-check_missing (insert_all [] files) applied keyed
        (λ s one. ground (arith, p.contiguous s, p.fewer, covered s))

  validate_migrations-IsPlan :
      (pending : List MigrationFile)
      → validate_migrations files applied ≡ ok pending
      → IsPlan files applied pending
  unfolding validate_migrations
  validate_migrations-IsPlan pending h =
      let (u, passed, h1) = >>=-eq-ok (unless_error (validate_applied_migrations applied) tt) _ h in
      let (result, planned, h2) = >>=-eq-ok (plan_files applied [] [] files) _ h1 in
      let contiguous = validate_applied_iff.0 (unless_error-ok _ passed).0 in
      let untouched = plan_files-IsUntouched applied [] [] files planned in
      let done =
        plan_files-ok applied keyed contiguous 1 [] [] files (omega arith) numbered untouched in
      let same : result ≡ planned_result = ground (arith, done, planned) in
      let (nothing, pending') = unless_error-ok (check_missing result.1 applied) h2 in
      let nothing' : check_missing (insert_all [] files) applied ≡ none =
        ap (λ r. check_missing r.1 applied) (sym same) ∙ nothing in
      record {
        contiguous = contiguous;
        untouched = untouched;
        fewer = fewer_applied contiguous nothing';
        rest = pending' ∙ ap (λ r. r.0) same ∙ from_one;
      }

  IsPlan-validate_migrations :
      (pending : List MigrationFile)
      → IsPlan files applied pending
      → validate_migrations files applied ≡ ok pending
  unfolding validate_migrations
  IsPlan-validate_migrations pending p =
      rw
        (
          validate_applied_iff.1 p.contiguous,
          plan_files-ok applied keyed p.contiguous 1 [] [] files (omega arith) numbered p.untouched,
          all_covered p,
        )
        (ap ok (from_one ∙ sym p.rest))

  -- Validation accepts files numbered from 1 with a plan exactly if the applied rows are numbered
  -- from 1 without gap or repetition, there are no more of them than files, each row has the name
  -- and the checksum of the file with its number, and the plan is the list of the files beyond the
  -- applied ones. So an edited, renamed or missing file and a gap refuse the whole plan.
  pub validate_migrations_iff :
      (pending : List MigrationFile)
      → (validate_migrations files applied ≡ ok pending) ↔ IsPlan files applied pending
  validate_migrations_iff pending =
      (validate_migrations-IsPlan pending, IsPlan-validate_migrations pending)
