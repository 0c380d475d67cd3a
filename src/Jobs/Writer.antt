-- ===== src/Jobs/Writer.antt =====
-- `logWriter` of core/app/logging.go: where a line of the log goes.
use kumacore.Prelude.{
  ℕ, Bool, ◌||◌, Option, none, some, [], ◌∷◌, ◌++◌, ◌≡◌, ◌⊎◌, ok, err, length, take, refl, arith,
  if◌then◌else◌, ◌==◌, Bool-cases, inl, inr, ap, ◌∙◌, append-nil,
}
use kumacore.Prelude.Assoc.{lookup, lookup-insert}
use kumacore.Prelude.Text.{Str, Eq-str, str_eq_iff}
use kumacore.Jobs.Dates.{Date, format_dashed}
use kumacore.Jobs.Logs.{
  LogWriter, LogFiles, contents, open_log, append_log, rotate, write_file, write, write_failed,
  log_name, log_suffix,
}

-- The writer's file is that of its date.
pub record IsWriter (writer : LogWriter) : Type 0 where
  pub named : writer.file ≡ writer.date ++ log_suffix

rotate-IsWriter :
    (open_fails : Bool) (today : Date) (writer : LogWriter) (files : LogFiles)
    → IsWriter writer
    → IsWriter (rotate open_fails today (writer, files)).0
unfolding rotate log_name
rotate-IsWriter open_fails today writer files w =
    elim (Bool-cases (format_dashed today == writer.date || open_fails)) [
      | inl stays ↦ rw stays w
      | inr moves ↦ rw moves (record { named = refl })
    ]

contents-rotate :
    (open_fails : Bool) (today : Date) (writer : LogWriter) (files : LogFiles) (name : Str)
    → contents (lookup name (rotate open_fails today (writer, files)).1)
      ≡ contents (lookup name files)
unfolding rotate open_log
contents-rotate open_fails today writer files name = ground (
  arith,
  lookup-insert (log_name today) name (contents (lookup (log_name today) files)) files,
  str_eq_iff (log_name today) name,
)

date-rotate :
    (open_fails : Bool) (today : Date) (writer : LogWriter) (files : LogFiles)
    → (rotate open_fails today (writer, files)).0.date
      ≡ (if open_fails then writer.date else format_dashed today)
unfolding rotate
date-rotate open_fails today writer files =
    ground (arith, str_eq_iff (format_dashed today) writer.date)

contents-append_log :
    (target payload name : Str) (files : LogFiles)
    → contents (lookup name (append_log target payload files))
      ≡ contents (lookup name files) ++ (if target == name then payload ∷ [] else [])
unfolding append_log
contents-append_log target payload name files =
    rw (lookup-insert target name (contents (lookup target files) ++ payload ∷ []) files)
      (elim (Bool-cases (target == name)) [
        | inl same ↦
            let e : target ≡ name = (str_eq_iff target name).0 same in
            rw same (ap (λ n. contents (lookup n files) ++ payload ∷ []) e)
        | inr other ↦ rw (other, append-nil) refl
      ])

contents-write :
    (open_fails : Bool) (today : Date) (line : Str) (writer : LogWriter) (files : LogFiles)
    (name : Str)
    → let (writer', files') = rotate open_fails today (writer, files) in
      contents (lookup name (append_log writer'.file line files'))
      ≡ contents (lookup name files) ++ (if writer'.file == name then line ∷ [] else [])
contents-write open_fails today line writer files name =
    let (writer', files') = rotate open_fails today (writer, files) in
    contents-append_log writer'.file line name files'
    ∙ ap (λ lines. lines ++ (if writer'.file == name then line ∷ [] else []))
        (contents-rotate open_fails today writer files name)

-- A write leaves what every file holds, but for its line at the end of the writer's file: the whole
-- line if it succeeds, and the bytes before the failure if it fails. The file is that of the writer's
-- date, which is today's unless today's file cannot be opened.
pub write_lem :
    (open_fails : Bool) (fails_after : Option ℕ) (today : Date) (payload : Str) (writer : LogWriter)
    (files : LogFiles) (name : Str)
    → IsWriter writer
    → let ((writer', files'), result) =
        write open_fails fails_after today payload (writer, files) in
      IsWriter writer'
      × (writer'.date ≡ (if open_fails then writer.date else format_dashed today))
      × (((result ≡ ok (length payload))
            × (contents (lookup name files')
                ≡ contents (lookup name files)
                  ++ (if writer'.file == name then payload ∷ [] else [])))
          ⊎ ((n : ℕ) × (fails_after ≡ some n)
              × (result ≡ err write_failed)
              × (contents (lookup name files')
                  ≡ contents (lookup name files)
                    ++ (if writer'.file == name then take n payload ∷ [] else []))))
unfolding write write_file
write_lem open_fails none today payload writer files name w = (
  rotate-IsWriter open_fails today writer files w,
  date-rotate open_fails today writer files,
  inl (refl, contents-write open_fails today payload writer files name),
)
write_lem open_fails (some n) today payload writer files name w = (
  rotate-IsWriter open_fails today writer files w,
  date-rotate open_fails today writer files,
  inr (n, refl, refl, contents-write open_fails today (take n payload) writer files name),
)
