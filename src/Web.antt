-- ===== src/Web.antt =====
-- What the server answers by itself: the static files of core/httpx/router.go, the headers of
-- core/security/security.go, the order of the middlewares in core/app/router.go, and the handlers of
-- app/modules/health and app/modules/home. The router chi, the package mime and the file system are
-- parameters. A time of modification is in nanoseconds since 1970, between the years 1678 and 2262.
pub mod Tags
pub mod Ready
mod Examples
use kumacore.Prelude.{
  ℕ, zero, suc, ◌+◌, ◌/◌, ◌%◌, ℤ, pos, negsuc, Bool, true, false, ◌||◌, not, Option, none, some,
  List, [], ◌∷◌, ◌++◌, Result, ok, err, if◌then◌else◌, ◌==◌, nat_eq, ltb,
}
use kumacore.Prelude.Assoc.{Assoc, lookup, insert}
use kumacore.Prelude.Text.{Str, Eq-str, str, is_empty}
use kumacore.Migrate.Types.{Source, MigrateError}
use kumacore.Migrate.Plan.{Database, Plan, ReadFaults, validate}

-- http.Header: a name that is there may have no value.
abbrev pub Headers : Type 0
Headers = Assoc Str (List Str)

abbrev pub values_of : Option (List Str) → List Str
values_of none = []
values_of (some vs) = vs

unfoldable pub set_header : Str → Str → Headers → Headers
unfolding insert
set_header name value headers = insert name (value ∷ []) headers

unfoldable pub add_header : Str → Str → Headers → Headers
unfolding insert lookup
add_header name value headers = insert name (values_of (lookup name headers) ++ value ∷ []) headers

abbrev first_value : List Str → Str
first_value [] = []
first_value (v ∷ vs) = v

unfoldable pub get_header : Str → Headers → Str
unfolding lookup
get_header name headers = first_value (values_of (lookup name headers))

-- `os.FileInfo`, as far as it is read
pub record FileInfo : Type 0 where
  pub name : Str
  pub modified : ℤ
  pub size : ℕ
  pub is_dir : Bool

-- A digit of strconv.FormatInt in base 36.
unfoldable pub digit_36 : ℕ → ℕ
digit_36 d = if ltb d 10 then d + 48 else d + 87

-- The digits, highest first, of a number with as many digits at most as there is fuel.
unfoldable pub digits_36 : ℕ → ℕ → Str
unfolding digit_36
digits_36 zero n = []
digits_36 (suc fuel) n =
    let higher = digits_36 fuel (n / 36) in
    if ltb n 36 then digit_36 n ∷ [] else higher ++ digit_36 (n % 36) ∷ []

-- strconv.FormatInt(n, 36) on an int64, which has 13 digits at most
unfoldable pub format_int_36 : ℤ → Str
unfolding digits_36
format_int_36 (pos n) = digits_36 13 n
format_int_36 (negsuc n) = b'-' ∷ digits_36 13 (suc n)

abbrev pub unix_is_0_or_1 : ℤ → Bool
unix_is_0_or_1 (pos n) = nat_eq (n / 1000000000) 0 || nat_eq (n / 1000000000) 1
unix_is_0_or_1 (negsuc n) = false

-- `calculateStaticEntityTag`
unfoldable pub calculate_static_entity_tag : FileInfo → Str
unfolding format_int_36
calculate_static_entity_tag file_info =
    if unix_is_0_or_1 file_info.modified
    then []
    else b'"'
      ∷ (format_int_36 file_info.modified ++ (format_int_36 (pos file_info.size) ++ b'"' ∷ []))

-- What the file system answers to `Open` and to the two calls of `Stat`.
pub record OpenFile : Type 0 where
  pub first_stat : Option FileInfo
  pub second_stat : Option FileInfo

-- `fileOnlyFS.Open`
unfoldable pub open_file_only : (Str → Option OpenFile) → Str → Option OpenFile
open_file_only file_system name = elim (file_system name) [
  | none ↦ none
  | some file ↦ elim file.first_stat [
    | none ↦ none
    | some stat ↦ if stat.is_dir then none else some file
  ]
]

pub data StaticAnswer : Type 0 where
  not_found : StaticAnswer
  serve_content : Headers → FileInfo → StaticAnswer

-- The headers that are set before `http.ServeContent`; an unknown type is an entry without a value.
unfoldable pub static_headers : Str → Str → Headers → Headers
unfolding set_header add_header get_header insert
static_headers entity_tag mime_type headers =
    let cached =
      add_header (str "Vary") (str "Accept-Encoding")
        (set_header (str "Cache-Control") (str "no-cache") headers) in
    let tagged =
      if is_empty entity_tag then cached else set_header (str "Etag") entity_tag cached in
    if is_empty (get_header (str "Content-Type") tagged)
    then (if is_empty mime_type
        then insert (str "Content-Type") [] tagged
        else set_header (str "Content-Type") mime_type tagged)
    else tagged

-- The handler of `newStaticFileHandler`; `mime_type` gives the type for the path's extension.
unfoldable pub static_file_handler :
    (Str → Option OpenFile) → (Str → Str) → Headers → Str → StaticAnswer
unfolding calculate_static_entity_tag static_headers open_file_only
static_file_handler file_system mime_type headers path = elim (open_file_only file_system path) [
  | none ↦ not_found
  | some file ↦ elim file.second_stat [
    | none ↦ not_found
    | some file_info ↦
        serve_content
          (static_headers (calculate_static_entity_tag file_info) (mime_type path) headers)
          file_info
  ]
]

-- `security.Middleware`, up to the handler that it wraps
abbrev content_security_policy : Str
content_security_policy =
    str
      "default-src 'self'; style-src 'self' 'sha256-faU7yAF8NxuMTNEwVmBz+VcYeIoBQ2EMHW3WaVxCvnk=' 'sha256-47DEQpj8HBSa+/TImW+5JCeuQeRkm5NMpJWZG3hSuFU='; style-src-attr 'unsafe-inline'; script-src 'self'; img-src 'self'"

unfoldable pub security_headers : Headers → Headers
unfolding set_header
security_headers headers = set_header (str "Content-Security-Policy") content_security_policy (
    set_header (str "Referrer-Policy") (str "strict-origin-when-cross-origin") (
      set_header (str "X-Content-Type-Options") (str "nosniff")
        (set_header (str "X-Frame-Options") (str "DENY") headers)))

-- The middlewares of `newRouter`, the outermost first.
unfoldable pub router_middlewares : {M : Type 0} → M → M → M → List M → List M
router_middlewares logger recoverer security app_middlewares =
    (logger ∷ recoverer ∷ security ∷ []) ++ app_middlewares

-- `home.Index`: the status, and the text of an error of the renderer
unfoldable pub home_index : Option Str → ℕ × Option Str
home_index none = (200, none)
home_index (some render_error) = (500, some render_error)

-- `checkDatabase`, for the query that works or fails
unfoldable pub check_database : Bool → Str
check_database query_fails = if query_fails then str "unreachable" else str "ok"

abbrev check_of : Result MigrateError Plan → Str
check_of (ok plan) = str "ok"
check_of (err e) = str "pending or invalid"

-- `checkMigrations`
unfoldable pub check_migrations :
    {S : Type 0} → (Str → Str) → ReadFaults → Option Str → Source → Database S → Str
unfolding validate
check_migrations checksum faults dialect source db =
    check_of (validate checksum faults dialect source db)

-- The response of `Ready`; the time in it is left out.
pub record ReadyResponse : Type 0 where
  pub code : ℕ
  pub status : Str
  pub checks : Assoc Str Str

unfoldable pub all_ok : Assoc Str Str → Bool
all_ok [] = true
all_ok ((name, status) ∷ checks) =
    let rest = all_ok checks in if not (status == str "ok") then false else rest

abbrev answer_ready : Assoc Str Str → Bool → ReadyResponse
answer_ready checks true = record { code = 200; status = str "ok"; checks = checks }
answer_ready checks false = record { code = 503; status = str "unhealthy"; checks = checks }

-- `Ready`
unfoldable pub ready :
    {S : Type 0}
    → (Str → Str)
    → Bool
    → ReadFaults
    → Option Str
    → Source
    → Database S
    → ReadyResponse
unfolding check_database check_migrations all_ok insert
ready checksum query_fails faults dialect source db =
    let checks =
      insert (str "migrations") (check_migrations checksum faults dialect source db)
        (insert (str "database") (check_database query_fails) []) in
    answer_ready checks (all_ok checks)

-- `Live`: the status code and the status
unfoldable pub live : ℕ × Str
live = (200, str "ok")
