-- ===== src/Scaffold/Selection.antt =====
-- Selecting modules (cmd/kumacore/internal/initcmd/modules.go): what validation and normalisation do.
use kumacore.Prelude.{
  ◌≤◌, false, ◌||◌, List, [], ◌∷◌, ok, ◌≡◌, refl, arith, if◌then◌else◌, ◌==◌, leb, ap, ◌∙◌,
}
use kumacore.Prelude.Text.{count, Str, Eq-str, str_eq, str_eq_iff}
use kumacore.Scaffold.Modules.{
  home, auth, health, module_order, known_module, contains, validate_from, validate_modules,
  normalize_selection, normalize_module_ids,
}

contains-count : (i : Str) (ids : List Str) → contains i ids ≡ leb 1 (count i ids)
unfolding contains count
contains-count i [] = refl
contains-count i (j ∷ js) = ground (arith, contains-count i js)

-- A list that passes lists known ids only, each once, and none that was seen.
validate_from-count :
    (seen ids : List Str) (i : Str)
    → validate_from seen ids ≡ ok tt
    → count i ids ≤ (if known_module i then (if contains i seen then 0 else 1) else 0)
unfolding validate_from count contains
validate_from-count seen [] i h = ground arith
validate_from-count seen (j ∷ ids) i h =
    ground (arith, validate_from-count (j ∷ seen) ids i (ground arith), str_eq_iff j i)

-- The fixed order lists each known id once, so a selection from it lists the selected ones once.
count-selection :
    (i : Str) (ids order : List Str)
    → count i (normalize_selection ids order) ≡ (if contains i ids then count i order else 0)
unfolding normalize_selection count
count-selection i ids [] = ground arith
count-selection i ids (j ∷ order) = ground (arith, count-selection i ids order, str_eq_iff j i)

eq_comm : (i j : Str) → (i == j) ≡ (j == i)
eq_comm i j = ground (arith, str_eq_iff i j, str_eq_iff j i)

order_distinct : ((home == auth) ≡ false) × ((home == health) ≡ false) × ((auth == health) ≡ false)
unfolding str_eq
order_distinct = (refl, refl, refl)

count-known :
    (a b c i : Str)
    → (a == b) ≡ false
    → (a == c) ≡ false
    → (b == c) ≡ false
    → count i (a ∷ b ∷ c ∷ []) ≡ (if i == a || i == b || i == c then 1 else 0)
unfolding count
count-known a b c i ab ac bc = ground (
  arith,
  str_eq_iff a i,
  str_eq_iff b i,
  str_eq_iff c i,
  str_eq_iff i a,
  str_eq_iff i b,
  str_eq_iff i c,
  str_eq_iff a b,
  str_eq_iff a c,
  str_eq_iff b c,
)

count-normalize :
    (i : Str) (ids : List Str)
    → count i (normalize_module_ids ids)
      ≡ (if contains i ids then (if known_module i then 1 else 0) else 0)
unfolding normalize_module_ids known_module
count-normalize i ids =
    count-selection i ids module_order
    ∙ ap (λ n. if contains i ids then n else 0)
        (count-known home auth health i order_distinct.0 order_distinct.1 order_distinct.2)

-- Selected modules that pass validation are neither dropped, added nor repeated when they are put
-- into the fixed order: every id is listed as often as before.
pub count-normalize_validated :
    (ids : List Str) (i : Str)
    → validate_modules ids ≡ ok tt
    → count i (normalize_module_ids ids) ≡ count i ids
unfolding validate_modules
count-normalize_validated ids i h =
    ground (arith, count-normalize i ids, validate_from-count [] ids i h, contains-count i ids)
