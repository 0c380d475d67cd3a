-- ===== src/Jobs/Dates.antt =====
-- The calendar dates that app/jobs and core/app/logging.go put into file names and read from them:
-- Go's layouts "20060102" and "2006-01-02". Those of app/jobs are UTC; core/app/logging.go names its
-- files by the date of the local time, which is an argument like every other. A moment is a date and
-- the nanoseconds since its midnight; years are those of four digits.
use kumacore.Prelude.{
  ℕ, zero, suc, ◌+◌, ◌-◌, ◌*◌, ◌/◌, ◌%◌, ◌≤◌, Bool, ◌&&◌, ◌||◌, not, Option, none, some, [], ◌∷◌,
  ◌++◌, if◌then◌else◌, leb, nat_eq, ◌≡◌, refl,
}
use kumacore.Prelude.Text.{Str, Eq-str, str, is_empty}

pub record Date : Type 0 where
  pub year : ℕ
  pub month : ℕ
  pub day : ℕ

pub record Moment : Type 0 where
  pub date : Date
  pub nanos : ℕ

abbrev pub day_nanos : ℕ
day_nanos = 86400000000000

abbrev pub divides : ℕ → ℕ → Bool
divides k n = nat_eq (n - n / k * k) 0

unfoldable pub is_leap : ℕ → Bool
is_leap y = divides 4 y && (not (divides 100 y) || divides 400 y)

unfoldable pub days_in : ℕ → ℕ → ℕ
days_in month year =
    if nat_eq month 2
    then (if is_leap year then 29 else 28)
    else if nat_eq month 4 || nat_eq month 6 || nat_eq month 9 || nat_eq month 11
    then 30
    else 31

-- The days of the months before this one.
unfoldable pub days_before : ℕ → ℕ → ℕ
unfolding days_in
days_before zero year = 0
days_before (suc zero) year = 0
days_before (suc (suc m)) year = days_before (suc m) year + days_in (suc m) year

-- The days since the first of January of the year 0.
unfoldable pub day_number : Date → ℕ
unfolding days_before
day_number date =
    365 * date.year
    + (date.year + 3) / 4
    - (date.year + 99) / 100
    + (date.year + 399) / 400
    + days_before date.month date.year
    + (date.day - 1)

-- The nanoseconds since then.
unfoldable pub instant : Moment → ℕ
instant moment = day_number moment.date * day_nanos + moment.nanos

abbrev pub IsDate : Date → Type 0
IsDate date =
    (date.year ≤ 9999)
    × (1 ≤ date.month)
    × (date.month ≤ 12)
    × (1 ≤ date.day)
    × (date.day ≤ days_in date.month date.year)

abbrev pub digit : ℕ → ℕ
digit n = n % 10 + 48

unfoldable pub two_digits : ℕ → Str
two_digits n = digit (n / 10) ∷ digit n ∷ []

unfoldable pub four_digits : ℕ → Str
four_digits n = digit (n / 1000) ∷ digit (n / 100) ∷ digit (n / 10) ∷ digit n ∷ []

-- Time.Format("20060102")
unfoldable pub format_compact : Date → Str
unfolding two_digits four_digits
format_compact date = four_digits date.year ++ two_digits date.month ++ two_digits date.day

-- Time.Format("2006-01-02")
unfoldable pub format_dashed : Date → Str
unfolding two_digits four_digits
format_dashed date =
    four_digits date.year ++ b'-' ∷ two_digits date.month ++ b'-' ∷ two_digits date.day

abbrev pub is_digit : ℕ → Bool
is_digit c = leb 48 c && leb c 57

-- So many digits at the front, with the number before them and what follows.
unfoldable pub read_digits : ℕ → ℕ → Str → Option (ℕ × Str)
read_digits zero n s = some (n, s)
read_digits (suc k) n [] = none
read_digits (suc k) n (c ∷ s) =
    let rest = read_digits k (n * 10 + (c - 48)) s in if is_digit c then rest else none

-- The byte at the front.
unfoldable pub read_byte : ℕ → Str → Option Str
read_byte b [] = none
read_byte b (c ∷ s) = if nat_eq c b then some s else none

-- The ranges that `time.Parse` checks.
unfoldable pub check_date : ℕ → ℕ → ℕ → Option Date
check_date year month day =
    if leb 1 month && leb month 12 && leb 1 day && leb day (days_in month year)
    then some (record { year = year; month = month; day = day })
    else none

-- time.Parse("20060102", s)
unfoldable pub parse_compact : Str → Option Date
parse_compact s = elim (read_digits 4 0 s) [
  | none ↦ none
  | some (year, s1) ↦ elim (read_digits 2 0 s1) [
    | none ↦ none
    | some (month, s2) ↦ elim (read_digits 2 0 s2) [
      | none ↦ none
      | some (day, s3) ↦ if is_empty s3 then check_date year month day else none
    ]
  ]
]

-- time.Parse("2006-01-02", s)
unfoldable pub parse_dashed : Str → Option Date
parse_dashed s = elim (read_digits 4 0 s) [
  | none ↦ none
  | some (year, s1) ↦ elim (read_byte b'-' s1) [
    | none ↦ none
    | some s2 ↦ elim (read_digits 2 0 s2) [
      | none ↦ none
      | some (month, s3) ↦ elim (read_byte b'-' s3) [
        | none ↦ none
        | some s4 ↦ elim (read_digits 2 0 s4) [
          | none ↦ none
          | some (day, s5) ↦ if is_empty s5 then check_date year month day else none
        ]
      ]
    ]
  ]
]

march_first : day_number (record { year = 2024; month = 3; day = 1 }) ≡ 739311
unfolding day_number is_leap
march_first = refl

parses : parse_dashed (str "2024-02-29") ≡ some (record { year = 2024; month = 2; day = 29 })
unfolding parse_dashed read_digits read_byte check_date days_in is_leap
parses = refl

refuses : parse_compact (str "20230229") ≡ none
unfolding parse_compact read_digits check_date days_in is_leap
refuses = refl
