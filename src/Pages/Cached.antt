-- ===== src/Pages/Cached.antt =====
-- The page cache of core/render/manager.go is not noticed while the files stay as they are.
use kumacore.Prelude.{
  Bool, true, false, Option, none, some, List, [], ◌∷◌, map, Result, ok, err, ◌≡◌, refl, ap, ap₂,
  subst, sym, ◌∙◌, arith, ◌==◌, Bool-cases, inl, inr, >>=-eq-ok,
}
use kumacore.Prelude.Assoc.{lookup, insert, lookup-insert}
use kumacore.Prelude.Text.{Str, Eq-str, str_eq_iff}
use kumacore.Pages.{
  Templates, Manager, RenderError, build, keep, resolve_locked, resolve_cached, resolve_in, resolve,
  new_manager, parse_base,
}

module _ {T F : Type 0} (templates : Templates T F) (files : F) where
  -- The pages asked for, one after the other.
  unfoldable pub resolve_all : List Str → Manager T → List (Result RenderError T)
  unfolding resolve
  resolve_all [] manager = []
  resolve_all (page ∷ pages) manager =
      let (manager', resolved) = resolve templates files page manager in
      resolved ∷ resolve_all pages manager'

  -- What is cached is what would be built.
  abbrev Right : Manager T → Str → Option T → Type 0
  Right manager page none = Unit
  Right manager page (some cached) = build templates files page manager ≡ ok cached

  pub record IsRight (manager : Manager T) : Type 0 where
    pub right : (page : Str) → Right manager page (lookup page manager.page_cache)

  abbrev kept : Str → T → Manager T → Manager T
  kept page built manager = record manager { page_cache = insert page built manager.page_cache }

  -- Building reads the base and the mode only.
  build-kept :
      (p page : Str) (built : T) (manager : Manager T)
      → build templates files p (kept page built manager) ≡ build templates files p manager
  unfolding build
  build-kept p page built manager = refl

  Right-kept :
      (page j : Str) (built : T) (manager : Manager T) (entry : Option T)
      → Right manager j entry
      → Right (kept page built manager) j entry
  Right-kept page j built manager none h = tt
  Right-kept page j built manager (some cached) h = build-kept j page built manager ∙ h

  IsRight-kept :
      (page : Str) (built : T) (manager : Manager T)
      → IsRight manager
      → build templates files page manager ≡ ok built
      → IsRight (kept page built manager)
  IsRight-kept page built manager r h = record {
    right = λ j. rw (lookup-insert page j built manager.page_cache) (elim (Bool-cases (page == j)) [
      | inl same ↦
          let e : page ≡ j = (str_eq_iff page j).0 same in
          rw same (
            ap (λ p. build templates files p (kept page built manager)) (sym e)
            ∙ build-kept page page built manager
            ∙ h)
      | inr other ↦
          rw other (Right-kept page j built manager (lookup j manager.page_cache) (r.right j))
    ]);
  }

  -- One call: its answer is what building gives, the cache stays right, and building stays the same.
  abbrev Answers : Str → Manager T → Manager T × Result RenderError T → Type 0
  Answers page manager (manager', resolved) =
      (resolved ≡ build templates files page manager)
      × IsRight manager'
      × ((p : Str) → build templates files p manager' ≡ build templates files p manager)

  keep-Answers :
      (page : Str) (built : Result RenderError T) (manager : Manager T)
      → IsRight manager
      → build templates files page manager ≡ built
      → Answers page manager (keep templates page built manager)
  unfolding keep
  keep-Answers page (err e) manager r h = (sym h, r, λ p. refl)
  keep-Answers page (ok built) manager r h =
      (sym h, IsRight-kept page built manager r h, λ p. build-kept p page built manager)

  found-Answers :
      (page : Str) (manager : Manager T) (cached : T)
      → IsRight manager
      → lookup page manager.page_cache ≡ some cached
      → Answers page manager (manager, ok cached)
  found-Answers page manager cached r h =
      let right : Right manager page (some cached) = subst (Right manager page) h (r.right page) in
      (sym right, r, λ p. refl)

  locked-Answers :
      (entry : Option T) (page : Str) (manager : Manager T)
      → IsRight manager
      → lookup page manager.page_cache ≡ entry
      → Answers page manager (resolve_locked templates entry files page manager)
  unfolding resolve_locked
  locked-Answers (some cached) page manager r h = found-Answers page manager cached r h
  locked-Answers none page manager r h =
      keep-Answers page (build templates files page manager) manager r refl

  cached-Answers :
      (entry : Option T) (page : Str) (manager : Manager T)
      → IsRight manager
      → lookup page manager.page_cache ≡ entry
      → Answers page manager (resolve_cached templates entry files page manager)
  unfolding resolve_cached
  cached-Answers (some cached) page manager r h = found-Answers page manager cached r h
  cached-Answers none page manager r h =
      locked-Answers (lookup page manager.page_cache) page manager r refl

  mode-Answers :
      (mode : Bool) (page : Str) (manager : Manager T)
      → IsRight manager
      → Answers page manager (resolve_in templates mode files page manager)
  unfolding resolve_in
  mode-Answers true page manager r = (refl, r, λ p. refl)
  mode-Answers false page manager r =
      cached-Answers (lookup page manager.page_cache) page manager r refl

  resolve-Answers :
      (page : Str) (manager : Manager T)
      → IsRight manager
      → Answers page manager (resolve templates files page manager)
  unfolding resolve
  resolve-Answers page manager r = mode-Answers manager.is_development page manager r

  map-same :
      (f g : Str → Result RenderError T) (pages : List Str)
      → ((p : Str) → f p ≡ g p)
      → map f pages ≡ map g pages
  map-same f g [] h = refl
  map-same f g (page ∷ pages) h = ap₂ ◌∷◌ (h page) (map-same f g pages h)

  resolve_all-IsRight :
      (pages : List Str) (manager : Manager T)
      → IsRight manager
      → resolve_all pages manager ≡ map (λ page. build templates files page manager) pages
  unfolding resolve_all
  resolve_all-IsRight [] manager r = refl
  resolve_all-IsRight (page ∷ pages) manager r =
      let manager' = (resolve templates files page manager).0 in
      let (answer, r', like) = resolve-Answers page manager r in
      ap₂ ◌∷◌ answer (
        resolve_all-IsRight pages manager' r'
        ∙ map-same (λ p. build templates files p manager') (λ p. build templates files p manager)
            pages like)

  new-IsRight :
      (is_development : Bool) (manager : Manager T)
      → new_manager templates is_development files ≡ ok manager
      → IsRight manager
  unfolding new_manager lookup
  new-IsRight is_development manager h =
      let (base, p, q) = >>=-eq-ok (parse_base templates files) _ h in
      let empty : manager.page_cache ≡ [] = ground arith in record { right = λ page. rw empty tt }

  -- A new manager, in either mode, answers every sequence of requests for pages as if it built each
  -- page anew, errors included, while the files stay as they are: the cache is never noticed, and a
  -- page that failed is built again.
  pub resolve_all-new_manager :
      (is_development : Bool) (pages : List Str) (manager : Manager T)
      → new_manager templates is_development files ≡ ok manager
      → resolve_all pages manager ≡ map (λ page. build templates files page manager) pages
  resolve_all-new_manager is_development pages manager h =
      resolve_all-IsRight pages manager (new-IsRight is_development manager h)
