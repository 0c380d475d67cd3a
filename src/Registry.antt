-- ===== src/Registry.antt =====
-- core/module: the registry of modules and the contributions that they make. What a module registers
-- is its own function on the contributions; routes, middlewares and jobs are of any types.
use kumacore.Prelude.{Option, none, some, List, [], ◌∷◌, ◌++◌, Result, ok, err, ◌>>◌, fail_if}
use kumacore.Prelude.Assoc.{Assoc, lookup, insert}
use kumacore.Prelude.Text.{Str, Eq-str, str_lt, is_empty, trim_space}
use kumacore.Worker.Runtime.{is_some}
use kumacore.Prelude.Sort.{sort}

pub record Contributions (R M J : Type 0) : Type 0 where
  pub routes : List R
  pub middleware : List M
  pub jobs : List J

-- `Module`: its id, and `Register`.
pub record AppModule (R M J : Type 0) : Type 0 where
  pub id : Str
  pub contribute : Contributions R M J → Result Str (Contributions R M J)

pub record ModuleRegistry (R M J : Type 0) : Type 0 where
  pub modules_by_id : Assoc Str (AppModule R M J)

pub data RegistryError : Type 0 where
  nil_module empty_id : RegistryError
  duplicate_id register_failed : Str → RegistryError

module _ {R M J : Type 0} where
  unfoldable pub add_route : R → Contributions R M J → Contributions R M J
  add_route route contributions = record contributions {
    routes = contributions.routes ++ route ∷ [];
  }

  unfoldable pub add_middleware : M → Contributions R M J → Contributions R M J
  add_middleware middleware contributions = record contributions {
    middleware = contributions.middleware ++ middleware ∷ [];
  }

  unfoldable pub add_job : J → Contributions R M J → Contributions R M J
  add_job job contributions = record contributions { jobs = contributions.jobs ++ job ∷ [] }

  -- One round of the loop of `Register`; a nil module is `none`.
  unfoldable pub register_module :
      Option (AppModule R M J) → ModuleRegistry R M J → Result RegistryError (ModuleRegistry R M J)
  register_module none registry = err nil_module
  register_module (some app_module) registry =
      let module_id = trim_space app_module.id in
      fail_if (is_empty module_id) empty_id
      >> fail_if (is_some (lookup module_id registry.modules_by_id)) (duplicate_id module_id)
      >> ok (record { modules_by_id = insert module_id app_module registry.modules_by_id })

  -- `Register`: the modules before the one that is refused stay registered.
  unfoldable pub register_modules :
      List (Option (AppModule R M J))
      → ModuleRegistry R M J
      → ModuleRegistry R M J × Option RegistryError
  unfolding register_module
  register_modules [] registry = (registry, none)
  register_modules (app_module ∷ modules) registry = elim (register_module app_module registry) [
    | err e ↦ (registry, some e)
    | ok registry' ↦ register_modules modules registry'
  ]

  unfoldable pub new_registry :
      List (Option (AppModule R M J)) → Result RegistryError (ModuleRegistry R M J)
  unfolding register_modules
  new_registry modules =
      let (registry, failed) = register_modules modules (record { modules_by_id = [] }) in
      elim failed [ none ↦ ok registry | some e ↦ err e ]

  abbrev keys : Assoc Str (AppModule R M J) → List Str
  keys [] = []
  keys ((module_id, app_module) ∷ modules) = module_id ∷ keys modules

  unfoldable pub sorted_module_ids : ModuleRegistry R M J → List Str
  unfolding sort
  sorted_module_ids registry = sort str_lt (keys registry.modules_by_id)

  abbrev found : Option (AppModule R M J) → List (AppModule R M J) → List (AppModule R M J)
  found none modules = modules
  found (some app_module) modules = app_module ∷ modules

  -- The loop of `Resolve`, over ids that are all keys.
  unfoldable pub resolve_ids : List Str → ModuleRegistry R M J → List (AppModule R M J)
  resolve_ids [] registry = []
  resolve_ids (module_id ∷ ids) registry =
      found (lookup module_id registry.modules_by_id) (resolve_ids ids registry)

  unfoldable pub resolve : ModuleRegistry R M J → List (AppModule R M J)
  unfolding sorted_module_ids resolve_ids
  resolve registry = resolve_ids (sorted_module_ids registry) registry

  -- The loop of `CollectContributions`.
  unfoldable pub collect_from :
      List (AppModule R M J) → Contributions R M J → Result RegistryError (Contributions R M J)
  collect_from [] contributions = ok contributions
  collect_from (app_module ∷ modules) contributions = elim (app_module.contribute contributions) [
    | err e ↦ err (register_failed app_module.id)
    | ok contributions' ↦ collect_from modules contributions'
  ]

  unfoldable pub collect_contributions :
      List (AppModule R M J) → Result RegistryError (Contributions R M J)
  unfolding collect_from
  collect_contributions modules =
      collect_from modules (record { routes = []; middleware = []; jobs = [] })

  unfoldable pub contributions_of :
      ModuleRegistry R M J → Result RegistryError (Contributions R M J)
  unfolding resolve collect_contributions
  contributions_of registry = collect_contributions (resolve registry)
