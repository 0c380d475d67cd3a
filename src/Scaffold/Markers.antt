-- ===== src/Scaffold/Markers.antt =====
-- The rewriting of marked sources in cmd/kumacore/internal/initcmd/write.go.
use kumacore.Prelude.{
  ℕ, zero, suc, ◌+◌, ◌-◌, Bool, ◌||◌, not, Option, none, some, List, [], ◌∷◌, ◌++◌, filter, Result,
  ok, err, ◌>>=◌, ◌>>◌, fail_if, if◌then◌else◌, ◌==◌, ltb, length, take, drop,
}
use kumacore.Prelude.Text.{Str, Eq-str, str, has_prefix, has_suffix, trim_space, split}

-- strings.Index
unfoldable pub index : Str → Str → Option ℕ
index [] p = if has_prefix [] p then some 0 else none
index (c ∷ s) p =
    let rest = index s p in
    if has_prefix (c ∷ s) p then some 0 else elim rest [ none ↦ none | some i ↦ some (suc i) ]

-- strings.ReplaceAll for a text that is not empty; the number counts the bytes of a match that are
-- still to be dropped.
unfoldable pub replace_from : Str → Str → ℕ → Str → Str
replace_from old new skip [] = []
replace_from old new (suc skip) (c ∷ s) = replace_from old new skip s
replace_from old new zero (c ∷ s) =
    let found = has_prefix (c ∷ s) old in
    (if found then new else c ∷ []) ++ replace_from old new (if found then length old - 1 else 0) s

unfoldable pub replace_all : Str → Str → Str → Str
unfolding replace_from
replace_all s old new = replace_from old new 0 s

-- strings.Join
unfoldable pub join : Str → List Str → Str
join sep [] = []
join sep (line ∷ []) = line
join sep (line ∷ next ∷ lines) = line ++ sep ++ join sep (next ∷ lines)

abbrev pub newline : Str
newline = 10 ∷ []

pub data MarkerError : Type 0 where
  missing_marker duplicate_marker invalid_order : Str → MarkerError

-- The marker's position, if it stands in the source once.
unfoldable pub find_marker : Str → Str → Result MarkerError ℕ
find_marker source marker = elim (index source marker) [
  | none ↦ err (missing_marker marker)
  | some i ↦ elim (index (drop (i + length marker) source) marker) [
    | none ↦ ok i
    | some j ↦ err (duplicate_marker marker)
  ]
]

unfoldable pub replace_marked_region : Str → Str → Str → Str → Result MarkerError Str
replace_marked_region source begin_marker end_marker content =
    find_marker source begin_marker >>= λ begin_index.
    find_marker source end_marker >>= λ end_index.
    fail_if (ltb end_index begin_index) (invalid_order begin_marker)
    >> ok (
        take (begin_index + length begin_marker) source
        ++ newline
        ++ content
        ++ drop end_index source)

abbrev pub begin_prefix : Str
begin_prefix = str "// kumacore:begin "

abbrev pub end_prefix : Str
end_prefix = str "// kumacore:end "

unfoldable pub is_marker_line : Str → Bool
is_marker_line line =
    has_prefix (trim_space line) begin_prefix || has_prefix (trim_space line) end_prefix

unfoldable pub strip_scaffold_markers : Str → Str
unfolding filter join
strip_scaffold_markers source =
    join newline (filter (λ line. not (is_marker_line line)) (split 10 source))

unfoldable pub rewrite_module_imports : Str → Str → Str
unfolding replace_all
rewrite_module_imports source project_name =
    replace_all source (str "kumacore/") (project_name ++ str "/")

unfoldable pub rewrite_config_defaults : Str → Str → Str
unfolding replace_all
rewrite_config_defaults source project_name =
    let app_db =
      replace_all source (str "default:\"./data/db/kumacore.db\"")
        (str "default:\"./data/db/" ++ project_name ++ str ".db\"") in
    let worker_db =
      replace_all app_db (str "default:\"./data/db/kumacore_worker.db\"")
        (str "default:\"./data/db/" ++ project_name ++ str "_worker.db\"") in
    replace_all worker_db (str "default:\"kumacore\"")
      (str "default:\"" ++ project_name ++ str "\"")

pub record Section : Type 0 where
  pub begin_marker : Str
  pub end_marker : Str
  pub content : Str

-- The loop of `rewriteMarkedSource` over its sections.
unfoldable pub replace_sections : List Section → Str → Result MarkerError Str
replace_sections [] source = ok source
replace_sections (section ∷ sections) source =
    replace_marked_region source section.begin_marker section.end_marker section.content
    >>= replace_sections sections

unfoldable pub rewrite_marked_source : Str → List Section → Str → Result MarkerError Str
unfolding replace_sections
rewrite_marked_source source sections project_name =
    replace_sections sections source >>= λ rewritten.
    ok (rewrite_module_imports (strip_scaffold_markers rewritten) project_name)

-- The bytes of `renderProjectFile` for a file that has been read.
unfoldable pub render_project_file : Str → Str → Str → Str
render_project_file source_path project_name file_data =
    if has_suffix source_path (str ".go")
    then (if source_path == str "core/config/config.go"
        then rewrite_config_defaults (rewrite_module_imports file_data project_name) project_name
        else rewrite_module_imports file_data project_name)
    else file_data
