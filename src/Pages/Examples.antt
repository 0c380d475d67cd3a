-- ===== src/Pages/Examples.antt =====
-- Template sets are lists of patterns; the only page that can be parsed is `home`.
use kumacore.Prelude.{
  Bool, false, ◌||◌, none, some, List, [], ◌∷◌, map, ok, ◌≡◌, refl, if◌then◌else◌, ◌==◌,
}
use kumacore.Prelude.Text.{Str, Eq-str, str, str_eq}
use kumacore.Pages.{
  Templates, Manager, new_manager, parse_base, parse_fs, build, layouts_pattern, components_pattern,
}
use kumacore.Pages.Cached.{resolve_all, resolve_all-new_manager}

abbrev known : Str → Bool
known pattern = pattern == layouts_pattern || pattern == components_pattern || pattern == str "home"

abbrev toy : Templates (List Str) (Str → Bool)
toy = record {
  fresh = [];
  parse = λ files pattern set. if files pattern then some (pattern ∷ set) else none;
  clone = λ set. some set;
}

abbrev toy_manager : Manager (List Str)
toy_manager = record {
  base_template = components_pattern ∷ layouts_pattern ∷ [];
  page_cache = [];
  is_development = false;
}

toy_starts : new_manager toy false known ≡ ok toy_manager
unfolding new_manager parse_base parse_fs str_eq
toy_starts = refl

resolve_all-new_manager_example :
    resolve_all toy known (str "home" ∷ str "lost" ∷ str "home" ∷ []) toy_manager
    ≡ map (λ page. build toy known page toy_manager) (str "home" ∷ str "lost" ∷ str "home" ∷ [])
resolve_all-new_manager_example =
    resolve_all-new_manager toy known false (str "home" ∷ str "lost" ∷ str "home" ∷ []) toy_manager
      toy_starts
