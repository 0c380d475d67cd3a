-- ===== src/Scaffold/Modules.antt =====
-- cmd/kumacore/internal/initcmd/modules.go: the modules that can be selected.
use kumacore.Prelude.{
  Bool, false, ◌||◌, not, List, [], ◌∷◌, filter, Result, ok, ◌>>◌, fail_if, ◌==◌,
}
use kumacore.Prelude.Text.{Str, Eq-str, str}

abbrev pub home : Str
home = str "home"

abbrev pub auth : Str
auth = str "auth"

abbrev pub health : Str
health = str "health"

abbrev pub module_order : List Str
module_order = home ∷ auth ∷ health ∷ []

pub data ModuleError : Type 0 where
  unknown_module duplicate_module : Str → ModuleError

-- `KnownModule`
unfoldable pub known_module : Str → Bool
known_module i = i == home || i == auth || i == health

-- A Go set of strings, as the list of its elements.
unfoldable pub contains : Str → List Str → Bool
contains i [] = false
contains i (j ∷ js) = j == i || contains i js

-- The loop of `validateModules`, with the set of modules seen.
unfoldable pub validate_from : List Str → List Str → Result ModuleError (Unit {0})
validate_from seen [] = ok tt
validate_from seen (i ∷ ids) =
    fail_if (not (known_module i)) (unknown_module i)
    >> fail_if (contains i seen) (duplicate_module i)
    >> validate_from (i ∷ seen) ids

unfoldable pub validate_modules : List Str → Result ModuleError (Unit {0})
unfolding validate_from
validate_modules ids = validate_from [] ids

-- `normalizeSelection`
unfoldable pub normalize_selection : List Str → List Str → List Str
unfolding filter
normalize_selection ids ordered_ids = filter (λ i. contains i ids) ordered_ids

unfoldable pub normalize_module_ids : List Str → List Str
unfolding normalize_selection
normalize_module_ids ids = normalize_selection ids module_order
