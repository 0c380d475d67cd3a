-- ===== src/Jobs/Logs.antt =====
-- `deleteOldLogs` and `Cleanup` of app/jobs/logging, and the log writer of core/app/logging.go whose
-- files they remove. A log file is the list of what was written to it; a write that fails may have
-- written some bytes of the line.
use kumacore.Prelude.{
  ℕ, ◌+◌, ◌*◌, Bool, false, Option, none, some, List, [], ◌∷◌, ◌++◌, ◌||◌, Result, ok, err,
  if◌then◌else◌, ◌==◌, ltb, length, take,
}
use kumacore.Prelude.Assoc.{Assoc, lookup, insert}
use kumacore.Prelude.Text.{Str, Eq-str, str, has_suffix, trim_suffix}
use kumacore.Jobs.Dates.{Date, Moment, day_number, day_nanos, instant, format_dashed, parse_dashed}
use kumacore.Jobs.Folder.{Folder, pass, error_of, remove_chosen}

abbrev pub log_retention_days : ℕ
log_retention_days = 30

abbrev pub log_suffix : Str
log_suffix = str "_app.log"

unfoldable pub log_name : Date → Str
log_name date = format_dashed date ++ log_suffix

-- logDate.Before(now.AddDate(0, 0, -logRetentionDays))
abbrev pub is_old : Moment → Option Date → Bool
is_old now none = false
is_old now (some date) =
    ltb (day_number date * day_nanos + log_retention_days * day_nanos) (instant now)

unfoldable pub is_old_log : Moment → Str → Bool
unfolding parse_dashed
is_old_log now name =
    if has_suffix name log_suffix
    then is_old now (parse_dashed (trim_suffix name log_suffix))
    else false

pub data LogError : Type 0 where
  read_failed open_failed mkdir_failed write_failed : LogError

-- `deleteOldLogs`
unfoldable pub delete_old_logs : Bool → (Str → Bool) → Moment → Folder → Folder × Result LogError ℕ
unfolding remove_chosen is_old_log
delete_old_logs read_fails fault now folder =
    pass read_failed read_fails (λ items. remove_chosen fault (is_old_log now) items (items, 0))
      folder

-- `Cleanup`
unfoldable pub cleanup : Bool → (Str → Bool) → Moment → Folder → Folder × Option LogError
unfolding delete_old_logs
cleanup read_fails fault now folder =
    let (folder', result) = delete_old_logs read_fails fault now folder in
    (folder', error_of result)

-- The log files of the directory, and `logWriter` with the text of its date, which names its file.
pub record LogWriter : Type 0 where
  pub date : Str
  pub file : Str

abbrev pub LogFiles : Type 0
LogFiles = Assoc Str (List Str)

abbrev pub contents : Option (List Str) → List Str
contents none = []
contents (some lines) = lines

-- OpenFile with O_APPEND and O_CREATE
unfoldable pub open_log : Str → LogFiles → LogFiles
unfolding lookup insert
open_log name files = insert name (contents (lookup name files)) files

-- What a write puts at the end of a file that is open for appending
unfoldable pub append_log : Str → Str → LogFiles → LogFiles
unfolding lookup insert
append_log name line files = insert name (contents (lookup name files) ++ line ∷ []) files

-- The test for another day, and the switch to its file if that can be opened.
unfoldable pub rotate : Bool → Date → LogWriter × LogFiles → LogWriter × LogFiles
unfolding open_log log_name
rotate open_fails today (writer, files) =
    if format_dashed today == writer.date || open_fails then (writer, files) else (
      record { date = format_dashed today; file = log_name today },
      open_log (log_name today) files,
    )

-- File.Write, for the number of bytes after which it fails, if it does
unfoldable pub write_file : Option ℕ → Str → Str → LogFiles → LogFiles × Result LogError ℕ
unfolding append_log
write_file none name line files = (append_log name line files, ok (length line))
write_file (some n) name line files = (append_log name (take n line) files, err write_failed)

-- `logWriter.Write`
unfoldable pub write :
    Bool → Option ℕ → Date → Str → LogWriter × LogFiles → (LogWriter × LogFiles) × Result LogError ℕ
unfolding rotate write_file
write open_fails fails_after today payload state =
    let (writer, files) = rotate open_fails today state in
    let (files', result) = write_file fails_after writer.file payload files in
    ((writer, files'), result)

-- `initLogging`
unfoldable pub init_logging : Bool → Bool → Date → LogFiles → LogFiles × Result LogError LogWriter
unfolding open_log log_name
init_logging mkdir_fails open_fails today files =
    if mkdir_fails
    then (files, err mkdir_failed)
    else if open_fails
    then (files, err open_failed)
    else (
      open_log (log_name today) files,
      ok (record { date = format_dashed today; file = log_name today }),
    )
