-- ===== src/Migrate/Sequence.antt =====
-- When the sequence numbers of core/db/migrate/migrate.go are without gap and repetition.
use kumacore.Prelude.{
  ℕ, suc, ◌+◌, ◌≤◌, ◌<◌, Bool, true, false, ◌&&◌, Option, none, some, List, [], ◌∷◌, ok, ◌≡◌, ◌↔◌,
  inl, inr, refl, arith, if◌then◌else◌, nat_eq, leb, ltb, length, Bool-cases, >>=-eq-ok,
}
use kumacore.Prelude.Text.{Str}
use kumacore.Migrate.Types.{DirEntry, MigrationFile, AppliedMigration}
use kumacore.Prelude.Sort.{insert_sorted, sort}
use kumacore.Migrate.Files.{
  file_before, check_sequences, is_repeated, check_sorted, read_entries, read_directory,
}
use kumacore.Migrate.Plan.{applied_before, check_applied}

-- 1 if the number is one of the `len` numbers from the first, and 0 if not.
abbrev pub in_range : ℕ → ℕ → ℕ → ℕ
in_range first len n = if leb first n && ltb n (first + len) then 1 else 0

module _ {A : Type 0} (key : A → ℕ) where
  -- How many elements have the number.
  unfoldable pub seq_count : ℕ → List A → ℕ
  seq_count n [] = 0
  seq_count n (x ∷ xs) = if nat_eq (key x) n then suc (seq_count n xs) else seq_count n xs

  -- The numbers go up by one from the first.
  abbrev pub AreNumbered : ℕ → List A → Type 0
  AreNumbered n [] = Unit
  AreNumbered n (x ∷ xs) = (key x ≡ n) × AreNumbered (suc n) xs

  pub AreNumbered-count :
      (first n : ℕ) (xs : List A)
      → AreNumbered first xs
      → seq_count n xs ≡ in_range first (length xs) n
  unfolding seq_count
  AreNumbered-count first n [] h = ground arith
  AreNumbered-count first n (x ∷ xs) (e, h) = ground (arith, AreNumbered-count (suc first) n xs h)

  abbrev AllFrom : ℕ → List A → Type 0
  AllFrom n [] = Unit
  AllFrom n (x ∷ xs) = (n ≤ key x) × AllFrom n xs

  abbrev IsSorted : List A → Type 0
  IsSorted [] = Unit
  IsSorted (x ∷ xs) = AllFrom (key x) xs × IsSorted xs

  AllFrom-le : (m n : ℕ) (xs : List A) → m ≤ n → AllFrom n xs → AllFrom m xs
  AllFrom-le m n [] le h = tt
  AllFrom-le m n (x ∷ xs) le (h, hs) = (omega arith, AllFrom-le m n xs le hs)

  seq_count-below : (m n : ℕ) (xs : List A) → m < n → AllFrom n xs → seq_count m xs ≡ 0
  unfolding seq_count
  seq_count-below m n [] lt h = refl
  seq_count-below m n (x ∷ xs) lt (h, hs) = ground (arith, seq_count-below m n xs lt hs)

  sorted-AreNumbered :
      (first : ℕ) (xs : List A)
      → IsSorted xs
      → ((n : ℕ) → seq_count n xs ≡ in_range first (length xs) n)
      → AreNumbered first xs
  unfolding seq_count
  sorted-AreNumbered first [] s h = tt
  sorted-AreNumbered first (x ∷ xs) (s, ss) h =
      let e : key x ≡ first =
        ground (arith, h first, h (key x), seq_count-below first (key x) xs) in
      (
        e,
        sorted-AreNumbered (suc first) xs ss
            (λ n. ground (arith, h n, e, seq_count-below first (suc first) xs, s)),
      )

  module _ (before : A → A → Bool) (before-le : (x y : A) → before x y ≡ true → key x ≤ key y)
      (not_before-le : (x y : A) → before x y ≡ false → key y ≤ key x) where
    pub count-insert_sorted :
        (n : ℕ) (x : A) (xs : List A)
        → seq_count n (insert_sorted before x xs) ≡ seq_count n (x ∷ xs)
    unfolding seq_count insert_sorted
    count-insert_sorted n x [] = refl
    count-insert_sorted n x (y ∷ ys) = ground (arith, count-insert_sorted n x ys)

    pub count-sort : (n : ℕ) (xs : List A) → seq_count n (sort before xs) ≡ seq_count n xs
    unfolding seq_count sort
    count-sort n [] = refl
    count-sort n (x ∷ xs) =
        ground (arith, count-insert_sorted n x (sort before xs), count-sort n xs)

    length-insert_sorted :
        (x : A) (xs : List A) → length (insert_sorted before x xs) ≡ suc (length xs)
    unfolding insert_sorted
    length-insert_sorted x [] = refl
    length-insert_sorted x (y ∷ ys) = ground (arith, length-insert_sorted x ys)

    pub length-sort : (xs : List A) → length (sort before xs) ≡ length xs
    unfolding sort
    length-sort [] = refl
    length-sort (x ∷ xs) = omega (arith, length-insert_sorted x (sort before xs), length-sort xs)

    AllFrom-insert_sorted :
        (n : ℕ) (x : A) (xs : List A)
        → n ≤ key x
        → AllFrom n xs
        → AllFrom n (insert_sorted before x xs)
    unfolding insert_sorted
    AllFrom-insert_sorted n x [] le h = (le, tt)
    AllFrom-insert_sorted n x (y ∷ ys) le (h, hs) = elim (Bool-cases (before y x)) [
      | inl first ↦ rw first (h, AllFrom-insert_sorted n x ys le hs)
      | inr later ↦ rw later (le, (h, hs))
    ]

    insert_sorted-IsSorted :
        (x : A) (xs : List A) → IsSorted xs → IsSorted (insert_sorted before x xs)
    unfolding insert_sorted
    insert_sorted-IsSorted x [] s = (tt, tt)
    insert_sorted-IsSorted x (y ∷ ys) (s, ss) = elim (Bool-cases (before y x)) [
      | inl first ↦ rw first (
        AllFrom-insert_sorted (key y) x ys (before-le y x first) s,
        insert_sorted-IsSorted x ys ss,
      )
      | inr later ↦
          let le = not_before-le y x later in
          rw later ((le, AllFrom-le (key x) (key y) ys le s), (s, ss))
    ]

    sort-IsSorted : (xs : List A) → IsSorted (sort before xs)
    unfolding sort
    sort-IsSorted [] = tt
    sort-IsSorted (x ∷ xs) = insert_sorted-IsSorted x (sort before xs) (sort-IsSorted xs)

    -- Sorting numbers the list exactly if each number of the range is used once.
    pub sort-AreNumbered :
        (first : ℕ) (xs : List A)
        → AreNumbered first (sort before xs)
          ↔ ((n : ℕ) → seq_count n xs ≡ in_range first (length xs) n)
    sort-AreNumbered first xs = (
      λ numbered n.
          rw (← count-sort n xs, ← length-sort xs)
            (AreNumbered-count first n (sort before xs) numbered),
      λ h.
          sorted-AreNumbered first (sort before xs) (sort-IsSorted xs)
            (λ n. rw (count-sort n xs, length-sort xs) (h n)),
    )

abbrev pub file_sequence : MigrationFile → ℕ
file_sequence file = file.sequence

abbrev pub row_sequence : AppliedMigration → ℕ
row_sequence row = row.sequence

file_before-le : (x y : MigrationFile) → file_before x y ≡ true → file_sequence x ≤ file_sequence y
unfolding file_before
file_before-le x y h = ground arith

not_file_before-le :
    (x y : MigrationFile) → file_before x y ≡ false → file_sequence y ≤ file_sequence x
unfolding file_before
not_file_before-le x y h = ground arith

applied_before-le :
    (x y : AppliedMigration) → applied_before x y ≡ true → row_sequence x ≤ row_sequence y
unfolding applied_before
applied_before-le x y h = ground arith

not_applied_before-le :
    (x y : AppliedMigration) → applied_before x y ≡ false → row_sequence y ≤ row_sequence x
unfolding applied_before
not_applied_before-le x y h = ground arith

check_sequences-AreNumbered :
    (expected : ℕ) (previous : Option ℕ) (files : List MigrationFile)
    → check_sequences expected previous files ≡ none
    → AreNumbered file_sequence expected files
unfolding check_sequences
check_sequences-AreNumbered expected previous [] h = tt
check_sequences-AreNumbered expected previous (file ∷ files) h = (
  ground arith,
  check_sequences-AreNumbered (suc expected) (some file.sequence) files (ground arith),
)

AreNumbered-check_sequences :
    (expected : ℕ) (previous : Option ℕ) (files : List MigrationFile)
    → is_repeated previous expected ≡ false
    → AreNumbered file_sequence expected files
    → check_sequences expected previous files ≡ none
unfolding check_sequences
AreNumbered-check_sequences expected previous [] fresh h = refl
AreNumbered-check_sequences expected previous (file ∷ files) fresh (e, h) =
    ground (
      arith,
      AreNumbered-check_sequences (suc expected) (some file.sequence) files (ground arith) h,
    )

check_sorted-ok :
    (files : List MigrationFile) {result : List MigrationFile}
    → check_sorted files ≡ ok result
    → (result ≡ files) × AreNumbered file_sequence 1 files
unfolding check_sorted
check_sorted-ok files h = (ground arith, check_sequences-AreNumbered 1 none files (ground arith))

AreNumbered-check_sorted :
    (files : List MigrationFile) → AreNumbered file_sequence 1 files → check_sorted files ≡ ok files
unfolding check_sorted
AreNumbered-check_sorted files h = ground (arith, AreNumbered-check_sequences 1 none files refl h)

pub read_directory-AreNumbered :
    (checksum : Str → Str) (entries : List DirEntry) {files : List MigrationFile}
    → read_directory checksum (some entries) ≡ ok files
    → AreNumbered file_sequence 1 files
unfolding read_directory
read_directory-AreNumbered checksum entries h =
    let (read, p, q) = >>=-eq-ok (read_entries checksum entries) _ h in
    let (same, numbered) = check_sorted-ok (sort file_before read) q in rw same numbered

-- A directory is accepted with a list of files exactly if each of its entries can be read, the list
-- is what was read in the order of the sequence numbers, and every number from 1 to the number of
-- the files is the sequence of exactly one of them, and no other number is a sequence.
pub read_directory_iff :
    (checksum : Str → Str) (entries : List DirEntry) (files : List MigrationFile)
    → (read_directory checksum (some entries) ≡ ok files) ↔ (
        (read : List MigrationFile) × (read_entries checksum entries ≡ ok read)
        × (files ≡ sort file_before read)
        × ((n : ℕ) → seq_count file_sequence n read ≡ in_range 1 (length read) n))
unfolding read_directory
read_directory_iff checksum entries files = (
  λ h.
      let (read, p, q) = >>=-eq-ok (read_entries checksum entries) _ h in
      let (same, numbered) = check_sorted-ok (sort file_before read) q in
      (
        read,
        p,
        same,
        (sort-AreNumbered file_sequence file_before file_before-le not_file_before-le 1 read).0
            numbered,
      ),
  λ (read, p, same, h).
      rw (p, same)
        (AreNumbered-check_sorted (sort file_before read) (
          (sort-AreNumbered file_sequence file_before file_before-le not_file_before-le 1 read).1
            h)),
)

check_applied-AreNumbered :
    (expected : ℕ) (rows : List AppliedMigration)
    → (check_applied expected rows ≡ none) ↔ AreNumbered row_sequence expected rows
unfolding check_applied
check_applied-AreNumbered expected [] = (λ h. tt, λ h. refl)
check_applied-AreNumbered expected (row ∷ rows) = (
  λ h. (ground arith, (check_applied-AreNumbered (suc expected) rows).0 (ground arith)),
  λ h. ground (arith, (check_applied-AreNumbered (suc expected) rows).1 h.1),
)

-- The applied rows pass exactly if each number from 1 to their number is used once.
pub check_applied_iff :
    (rows : List AppliedMigration)
    → (check_applied 1 (sort applied_before rows) ≡ none)
      ↔ ((n : ℕ) → seq_count row_sequence n rows ≡ in_range 1 (length rows) n)
check_applied_iff rows = (
  λ h.
      (sort-AreNumbered row_sequence applied_before applied_before-le not_applied_before-le 1
          rows).0
        ((check_applied-AreNumbered 1 (sort applied_before rows)).0 h),
  λ h. (check_applied-AreNumbered 1 (sort applied_before rows)).1 (
      (sort-AreNumbered row_sequence applied_before applied_before-le not_applied_before-le 1
          rows).1
        h),
)
