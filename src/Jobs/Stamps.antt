-- ===== src/Jobs/Stamps.antt =====
-- The dates in the names of backups and log files (app/jobs, core/app/logging.go) are read back.
use kumacore.Prelude.{
  ℕ, suc, ◌+◌, ◌-◌, ◌*◌, ◌/◌, ◌≤◌, true, none, some, [], ◌∷◌, ◌++◌, ◌≡◌, ◌⊎◌, inl, inr, refl, ap,
  sym, ◌∙◌, arith, if◌then◌else◌, ◌==◌, length, take, drop, reverse, All, length-append,
  reverse-append, reverse-reverse,
}
use kumacore.Prelude.Text.{Str, Eq-str, str_eq, has_prefix, has_suffix, trim_suffix}
use kumacore.Jobs.Dates.{
  Date, IsDate, days_in, digit, is_digit, format_compact, format_dashed, read_digits, read_byte,
  check_date, parse_compact, parse_dashed,
}
use kumacore.Jobs.Backup.{
  suffix_daily, suffix_weekly, zip_suffix, backup_name, match_backup, match_date, match_suffix,
  backup_date,
}
use kumacore.Jobs.Logs.{log_name, log_suffix}

read_digits-two :
    (n : ℕ) (s : Str) → n ≤ 99 → read_digits 2 0 (digit (n / 10) ∷ digit n ∷ s) ≡ some (n, s)
unfolding read_digits
read_digits-two n s h = ground arith

read_digits-four :
    (n : ℕ) (s : Str)
    → n ≤ 9999
    → read_digits 4 0 (digit (n / 1000) ∷ digit (n / 100) ∷ digit (n / 10) ∷ digit n ∷ s)
      ≡ some (n, s)
unfolding read_digits
read_digits-four n s h = ground arith

read_digits-step :
    (k n d : ℕ) (s : Str)
    → read_digits (suc k) n (digit d ∷ s) ≡ read_digits k (n * 10 + (digit d - 48)) s
unfolding read_digits
read_digits-step k n d s = ground arith

read_digits-zero : (n : ℕ) (s : Str) → read_digits 0 n s ≡ some (n, s)
unfolding read_digits
read_digits-zero n s = refl

read_byte-same : (b : ℕ) (s : Str) → read_byte b (b ∷ s) ≡ some s
unfolding read_byte
read_byte-same b s = ground arith

days_in_bound : (month year : ℕ) → days_in month year ≤ 31
unfolding days_in
days_in_bound month year = ground arith

check_date-IsDate :
    (date : Date) → IsDate date → check_date date.year date.month date.day ≡ some date
unfolding check_date
check_date-IsDate date (y, m1, m2, d1, d2) = ground arith

day_bound : (date : Date) → IsDate date → date.day ≤ 99
day_bound date (y, m1, m2, d1, d2) = omega (arith, days_in_bound date.month date.year)

-- Reading what was printed gives the date.
pub parse_compact-format_compact :
    (date : Date) → IsDate date → parse_compact (format_compact date) ≡ some date
unfolding format_compact parse_compact
parse_compact-format_compact date v =
    rw
      (
        parse_compact,
        read_digits-four date.year _ v.0,
        read_digits-two date.month _ (omega arith),
        read_digits-two date.day [] (day_bound date v),
      )
      (check_date-IsDate date v)

pub parse_dashed-format_dashed :
    (date : Date) → IsDate date → parse_dashed (format_dashed date) ≡ some date
unfolding format_dashed parse_dashed
parse_dashed-format_dashed date v =
    rw
      (
        parse_dashed,
        read_digits-four date.year _ v.0,
        read_byte-same b'-' _,
        read_digits-two date.month _ (omega arith),
        read_byte-same b'-' _,
        read_digits-two date.day [] (day_bound date v),
      )
      (check_date-IsDate date v)

-- The suffixes of backups.
abbrev pub IsSuffix : Str → Type 0
IsSuffix suffix = (suffix ≡ suffix_daily) ⊎ (suffix ≡ suffix_weekly)

match_suffix-zip :
    (suffix : Str) → IsSuffix suffix → match_suffix (suffix ++ zip_suffix) ≡ some suffix
unfolding match_suffix str_eq
match_suffix-zip suffix (inl e) = rw e refl
match_suffix-zip suffix (inr e) = rw e refl

read_digits-All :
    (n : ℕ) (digits s : Str)
    → All (λ c. is_digit c ≡ true) digits
    → (value : ℕ) × (read_digits (length digits) n (digits ++ s) ≡ some (value, s))
unfolding read_digits
read_digits-All n [] s h = (n, refl)
read_digits-All n (c ∷ digits) s (h, hs) =
    let (value, e) = read_digits-All (n * 10 + (c - 48)) digits s hs in (value, rw h e)

digit-is_digit : (n : ℕ) → is_digit (digit n) ≡ true
digit-is_digit n = ground arith

read_digits-format_compact :
    (date : Date) (s : Str)
    → (value : ℕ) × (read_digits 8 0 (format_compact date ++ s) ≡ some (value, s))
unfolding format_compact
read_digits-format_compact date s =
    let d = digit-is_digit in
    read_digits-All 0 (format_compact date) s (
      d (date.year / 1000),
      (
        d (date.year / 100),
        (
          d (date.year / 10),
          (
            d date.year,
            (d (date.month / 10), (d date.month, (d (date.day / 10), (d date.day, tt)))),
          ),
        ),
      ),
    )

take-format_compact :
    (date : Date) (s : Str) → take 8 (format_compact date ++ s) ≡ format_compact date
unfolding format_compact
take-format_compact date s = refl

match_backup-backup_name :
    (date : Date) (suffix : Str)
    → IsSuffix suffix
    → match_backup (backup_name date suffix) ≡ some (format_compact date, suffix)
unfolding match_backup backup_name match_date
match_backup-backup_name date suffix h =
    let (value, e) = read_digits-format_compact date (b'_' ∷ (suffix ++ zip_suffix)) in
    rw
      (
        match_date,
        e,
        read_byte-same b'_' (suffix ++ zip_suffix),
        match_suffix-zip suffix h,
        take-format_compact date (b'_' ∷ (suffix ++ zip_suffix)),
      )
      refl

-- The name of a backup that is made on a day of four-digit years is read back: it is a backup of its
-- own suffix and that day, and of no other suffix.
pub backup_date-backup_name :
    (date : Date) (suffix other : Str)
    → IsDate date
    → IsSuffix suffix
    → backup_date other (backup_name date suffix) ≡ (if suffix == other then some date else none)
unfolding backup_date
backup_date-backup_name date suffix other v h =
    rw (match_backup-backup_name date suffix h, parse_compact-format_compact date v) refl

has_prefix-append : (p s : Str) → has_prefix (p ++ s) p ≡ true
unfolding has_prefix
has_prefix-append [] s = refl
has_prefix-append (c ∷ p) s = ground (arith, has_prefix-append p s)

pub drop-append : (p s : Str) → drop (length p) (p ++ s) ≡ s
drop-append [] s = refl
drop-append (c ∷ p) s = drop-append p s

length-reverse : (s : Str) → length (reverse s) ≡ length s
length-reverse [] = refl
length-reverse (c ∷ s) =
    ap length (reverse-append (c ∷ []) s)
    ∙ omega (arith, length-append (reverse s) (c ∷ []), length-reverse s)

-- `strings.HasSuffix` and `strings.TrimSuffix` at a text that was put at the end.
pub reversed_suffix : (s p : Str) → has_suffix (s ++ p) p ≡ true
unfolding has_suffix
reversed_suffix s p = rw reverse-append (has_prefix-append (reverse p) (reverse s))

trim_suffix-append : (s p : Str) → trim_suffix (s ++ p) p ≡ s
unfolding trim_suffix
trim_suffix-append s p = rw (reversed_suffix s p) (
    ap reverse (
      ap (drop (length p)) (reverse-append s p)
      ∙ ap (λ n. drop n (reverse p ++ reverse s)) (sym (length-reverse p))
      ∙ drop-append (reverse p) (reverse s))
    ∙ reverse-reverse s)

-- The name of a day's log file gives the day.
pub parse_dashed-log_name :
    (date : Date)
    → IsDate date
    → (has_suffix (log_name date) log_suffix ≡ true)
      × (parse_dashed (trim_suffix (log_name date) log_suffix) ≡ some date)
unfolding log_name
parse_dashed-log_name date v = (
  reversed_suffix (format_dashed date) log_suffix,
  rw (trim_suffix-append (format_dashed date) log_suffix) (parse_dashed-format_dashed date v),
)
