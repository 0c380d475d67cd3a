-- ===== src/Scaffold/Options.antt =====
-- cmd/kumacore/internal/initcmd/options.go, and `parseModuleList` of command.go. Project names are
-- in ASCII, where `unicode.IsLower` and `unicode.IsDigit` are ranges of bytes.
use kumacore.Prelude.{
  ℕ, Bool, true, false, ◌&&◌, ◌||◌, not, List, [], ◌∷◌, Result, ok, err, ◌>>◌, fail_if,
  if◌then◌else◌, ◌==◌, leb, nat_eq,
}
use kumacore.Prelude.Text.{Str, Eq-str, str, is_empty, trim_space, split}
use kumacore.Migrate.Filename.{path_base}
use kumacore.Scaffold.Modules.{ModuleError, home, validate_modules, normalize_module_ids}

-- `Options`
pub record Options : Type 0 where
  pub project_name : Str
  pub modules : List Str

pub data OptionsError : Type 0 where
  name_required : OptionsError
  name_invalid : Str → OptionsError
  bad_modules : ModuleError → OptionsError

abbrev pub default_project_name : Str
default_project_name = str "kumacore"

abbrev pub default_modules : List Str
default_modules = home ∷ []

abbrev pub is_lower : ℕ → Bool
is_lower c = leb b'a' c && leb c b'z'

abbrev pub is_digit : ℕ → Bool
is_digit c = leb b'0' c && leb c b'9'

unfoldable pub is_allowed_character : ℕ → Bool
is_allowed_character c = is_lower c || is_digit c || nat_eq c b'.' || nat_eq c b'-' || nat_eq c b'_'

-- strings.ContainsAny(trimmed, `\ /`)
unfoldable pub contains_separator : Str → Bool
contains_separator [] = false
contains_separator (c ∷ s) =
    (nat_eq c b'\\' || nat_eq c b' ' || nat_eq c b'/') || contains_separator s

-- The loop over the characters; the flag says that the character is the first.
unfoldable pub check_characters : Bool → Str → Bool
check_characters first [] = true
check_characters first (c ∷ s) =
    is_allowed_character c && (not first || is_lower c) && check_characters false s

-- The last byte of the name; 0 if there is none, which the code never asks for.
unfoldable pub last_byte : Str → ℕ
last_byte [] = 0
last_byte (c ∷ []) = c
last_byte (c ∷ d ∷ s) = last_byte (d ∷ s)

unfoldable pub validate_project_name : Str → Result OptionsError (Unit {0})
unfolding check_characters contains_separator is_allowed_character
validate_project_name name =
    let trimmed = trim_space name in
    fail_if (is_empty trimmed) name_required
    >> fail_if (trimmed == str "." || trimmed == str "..") (name_invalid name)
    >> fail_if (not (path_base trimmed == trimmed)) (name_invalid name)
    >> fail_if (contains_separator trimmed) (name_invalid name)
    >> fail_if (not (check_characters true trimmed)) (name_invalid name)
    >> fail_if (not (is_lower (last_byte trimmed) || is_digit (last_byte trimmed)))
        (name_invalid name)

abbrev pub wrap_modules : Result ModuleError (Unit {0}) → Result OptionsError (Unit {0})
wrap_modules (ok u) = ok u
wrap_modules (err e) = err (bad_modules e)

unfoldable pub validate_options : Options → Result OptionsError (Unit {0})
validate_options options =
    validate_project_name options.project_name >> wrap_modules (validate_modules options.modules)

-- `RepoMetadata`: the selected modules in the fixed order
unfoldable pub metadata_from_options : Options → List Str
metadata_from_options options = normalize_module_ids options.modules

-- The loop of `parseModuleList`.
unfoldable pub trimmed_parts : List Str → List Str
trimmed_parts [] = []
trimmed_parts (part ∷ parts) =
    let rest = trimmed_parts parts in
    let module_id = trim_space part in if is_empty module_id then rest else module_id ∷ rest

abbrev pub or_default : List Str → List Str
or_default [] = default_modules
or_default (i ∷ ids) = i ∷ ids

unfoldable pub parse_module_list : Str → List Str
unfolding trimmed_parts
parse_module_list raw = or_default (trimmed_parts (split b',' raw))
