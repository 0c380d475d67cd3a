-- ===== src/Migrate/Filename.antt =====
-- `parseMigrationFilename` of core/db/migrate/migrate.go, with what it uses of `path` and `strconv`.
use kumacore.Prelude.{
  ℕ, suc, zero, ◌+◌, ◌-◌, ◌*◌, ℤ, pos, negsuc, is_positive, pos_part, Bool, ◌&&◌, not, Option, none,
  some, [], ◌∷◌, Result, ok, err, ◌>>◌, fail_if, if◌then◌else◌, ◌==◌, leb, nat_eq, length, reverse,
  ◌≡◌, refl,
}
use kumacore.Prelude.Text.{Str, Eq-str, str_eq, str, is_empty, has_suffix, trim_suffix, cut}
use kumacore.Migrate.Types.{MigrateError, invalid_filename}

abbrev pub slash : ℕ
slash = b'/'

unfoldable pub drop_slashes : Str → Str
drop_slashes [] = []
drop_slashes (c ∷ s) = let rest = drop_slashes s in if nat_eq c slash then rest else c ∷ s

unfoldable pub until_slash : Str → Str
until_slash [] = []
until_slash (c ∷ s) = let rest = until_slash s in if nat_eq c slash then [] else c ∷ rest

-- path.Base
unfoldable pub path_base : Str → Str
unfolding drop_slashes until_slash
path_base [] = str "."
path_base (c ∷ s) =
    let stripped = drop_slashes (reverse (c ∷ s)) in
    if is_empty stripped then str "/" else reverse (until_slash stripped)

abbrev pub is_digit : ℕ → Bool
is_digit c = leb b'0' c && leb c b'9'

unfoldable pub digits_value : ℕ → Str → Option ℕ
digits_value n [] = some n
digits_value n (c ∷ s) =
    let rest = digits_value (n * 10 + (c - b'0')) s in if is_digit c then rest else none

unfoldable pub decimal : Str → Option ℕ
unfolding digits_value
decimal [] = none
decimal (c ∷ s) = digits_value 0 (c ∷ s)

abbrev pub negate : ℕ → ℤ
negate zero = pos 0
negate (suc n) = negsuc n

-- strconv.Atoi, on texts too short to overflow
unfoldable pub atoi : Str → Option ℤ
unfolding decimal
atoi [] = none
atoi (c ∷ s) =
    if nat_eq c b'+'
    then elim (decimal s) [ none ↦ none | some n ↦ some (pos n) ]
    else if nat_eq c b'-'
    then elim (decimal s) [ none ↦ none | some n ↦ some (negate n) ]
    else elim (decimal (c ∷ s)) [ none ↦ none | some n ↦ some (pos n) ]

abbrev pub sql_suffix : Str
sql_suffix = str ".sql"

unfoldable pub check_number : Str → Option ℤ → Result MigrateError ℕ
check_number filename none = err (invalid_filename filename)
check_number filename (some z) =
    if is_positive z then ok (pos_part z) else err (invalid_filename filename)

unfoldable pub check_parts : Str → Option (Str × Str) → Result MigrateError ℕ
unfolding check_number atoi
check_parts filename none = err (invalid_filename filename)
check_parts filename (some (prefix, slug)) = do
  fail_if (is_empty slug) (invalid_filename filename)
  fail_if (not (nat_eq (length prefix) 4)) (invalid_filename filename)
  check_number filename (atoi prefix)

unfoldable pub parse_migration_filename : Str → Result MigrateError ℕ
unfolding path_base check_parts
parse_migration_filename filename = do
  fail_if (not (path_base filename == filename)) (invalid_filename filename)
  fail_if (not (has_suffix filename sql_suffix)) (invalid_filename filename)
  check_parts filename (cut b'_' (trim_suffix filename sql_suffix))

accepts : parse_migration_filename (str "0012_create_users.sql") ≡ ok 12
unfolding parse_migration_filename str_eq has_suffix trim_suffix cut
accepts = refl

refuses_nested :
    parse_migration_filename (str "nested/0001_create.sql")
    ≡ err (invalid_filename (str "nested/0001_create.sql"))
unfolding parse_migration_filename str_eq
refuses_nested = refl
