-- ===== src/Pages.antt =====
-- core/render/manager.go: the templates and their cache. The package html/template is a parameter:
-- its sets of templates, parsing a pattern's files into a set, and cloning one; so is the file
-- system, which is given to each call as it is at that time. The mutex makes the second half of
-- `resolve`, under the write lock, atomic.
pub mod Cached
mod Examples
use kumacore.Prelude.{
  Bool, true, false, Option, none, some, List, [], ◌∷◌, Result, ok, err, ◌>>=◌, if◌then◌else◌, ◌==◌,
}
use kumacore.Prelude.Assoc.{Assoc, lookup, insert}
use kumacore.Prelude.Text.{Str, Eq-str, str}

-- What the manager uses of html/template and of a file system.
pub record Templates (T F : Type 0) : Type 0 where
  pub fresh : T
  pub parse : F → Str → T → Option T
  pub clone : T → Option T

pub data RenderError : Type 0 where
  parse_failed : Str → RenderError
  clone_failed : RenderError

abbrev pub layouts_pattern : Str
layouts_pattern = str "app/web/templates/layouts/*.html"

abbrev pub components_pattern : Str
components_pattern = str "app/web/templates/components/*.html"

pub record Manager (T : Type 0) : Type 0 where
  pub base_template : T
  pub page_cache : Assoc Str T
  pub is_development : Bool

module _ {T F : Type 0} (templates : Templates T F) where
  unfoldable pub parse_fs : F → Str → T → Result RenderError T
  parse_fs files pattern template = elim (templates.parse files pattern template) [
    | none ↦ err (parse_failed pattern)
    | some parsed ↦ ok parsed
  ]

  -- The layouts and the components, parsed into a new set.
  unfoldable pub parse_base : F → Result RenderError T
  unfolding parse_fs
  parse_base files = parse_fs files layouts_pattern templates.fresh >>= λ with_layouts.
      parse_fs files components_pattern with_layouts

  -- `NewManager`
  unfoldable pub new_manager : Bool → F → Result RenderError (Manager T)
  unfolding parse_base
  new_manager is_development files = parse_base files >>= λ base.
      ok (record { base_template = base; page_cache = []; is_development = is_development })

  unfoldable pub clone_base : T → Result RenderError T
  clone_base base = elim (templates.clone base) [ none ↦ err clone_failed | some t ↦ ok t ]

  -- `build`
  unfoldable pub build : F → Str → Manager T → Result RenderError T
  unfolding parse_base parse_fs clone_base
  build files page manager =
      if manager.is_development
      then (parse_base files >>= parse_fs files page)
      else (clone_base manager.base_template >>= parse_fs files page)

  -- A page that was built is kept.
  unfoldable pub keep : Str → Result RenderError T → Manager T → Manager T × Result RenderError T
  keep page (err e) manager = (manager, err e)
  keep page (ok built) manager =
      (record manager { page_cache = insert page built manager.page_cache }, ok built)

  -- What the second look at the cache, under the write lock, leads to.
  unfoldable pub resolve_locked : Option T → F → Str → Manager T → Manager T × Result RenderError T
  unfolding build keep
  resolve_locked (some cached) files page manager = (manager, ok cached)
  resolve_locked none files page manager = keep page (build files page manager) manager

  -- What the first look, under the read lock, leads to.
  unfoldable pub resolve_cached : Option T → F → Str → Manager T → Manager T × Result RenderError T
  unfolding resolve_locked
  resolve_cached (some cached) files page manager = (manager, ok cached)
  resolve_cached none files page manager =
      resolve_locked (lookup page manager.page_cache) files page manager

  unfoldable pub resolve_in : Bool → F → Str → Manager T → Manager T × Result RenderError T
  unfolding build resolve_cached
  resolve_in true files page manager = (manager, build files page manager)
  resolve_in false files page manager =
      resolve_cached (lookup page manager.page_cache) files page manager

  -- `resolve`
  unfoldable pub resolve : F → Str → Manager T → Manager T × Result RenderError T
  unfolding resolve_in
  resolve files page manager = resolve_in manager.is_development files page manager

-- The two headers that `Render` reads.
pub record RenderRequest : Type 0 where
  pub hx_history_restore : Str
  pub hx_request : Str

-- The name of the template that `Render` executes.
unfoldable pub template_name : RenderRequest → Str → Str
template_name request fragment =
    if request.hx_history_restore == str "true"
    then str "base"
    else if request.hx_request == str "true"
    then fragment
    else str "base"

-- `Render`: the template set and the name that are executed
unfoldable pub render :
    {T F : Type 0}
    → Templates T F
    → F
    → RenderRequest
    → Str
    → Str
    → Manager T
    → Manager T × Result RenderError (T × Str)
unfolding resolve template_name
render templates files request page fragment manager =
    let (manager', resolved) = resolve templates files page manager in
    (manager', resolved >>= λ template. ok (template, template_name request fragment))
