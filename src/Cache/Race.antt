-- ===== src/Cache/Race.antt =====
-- `Get` of core/cache/cache.go beside other goroutines: between its read lock and its write lock
-- any other calls may run.
use kumacore.Prelude.{ℕ, ◌≤◌, is_positive, true, [], ◌∷◌, Eq, ◌≡◌, refl, arith, ◌∙◌, ap}
use kumacore.Prelude.Assoc.{lookup-erase}
use kumacore.Cache.{Cache, Found, expired, get_read, get_evict, after_read}
use kumacore.Cache.View.{view}
use kumacore.Cache.Timeline.{Calls, perform, ttl-perform}

module _ {K V : Type 0} ⦃e : Eq K⦄ where
  -- The cache after the calls of other goroutines.
  unfoldable pub perform_all : Calls K V → Cache K V → Cache K V
  perform_all [] cache = cache
  perform_all ((t, call) ∷ calls) cache = perform_all calls (perform t call cache).0

  ttl-perform_all :
      (calls : Calls K V) (cache : Cache K V) → (perform_all calls cache).ttl ≡ cache.ttl
  unfolding perform_all
  ttl-perform_all [] cache = refl
  ttl-perform_all ((t, call) ∷ calls) cache =
      ttl-perform_all calls (perform t call cache).0 ∙ ttl-perform t call cache

  view-get_evict :
      (now later : ℕ) (key j : K) (cache : Cache K V)
      → is_positive cache.ttl ≡ true
      → now ≤ later
      → view (get_evict now key cache) later j ≡ view cache later j
  unfolding get_evict view
  view-get_evict now later key j cache p h =
      ground (arith, lookup-erase key j cache.entries, e.beq_iff key j)

  expired-positive :
      (now : ℕ) (key : K) (cache : Cache K V)
      → get_read now key cache ≡ expired
      → is_positive cache.ttl ≡ true
  unfolding get_read
  expired-positive now key cache h = ground arith

  evict_after :
      (found : Found V) (started now later : ℕ) (key j : K) (before cache : Cache K V)
      → get_read started key before ≡ found
      → cache.ttl ≡ before.ttl
      → now ≤ later
      → view (after_read now key found cache).0 later j ≡ view cache later j
  unfolding after_read
  evict_after expired started now later key j before cache found same h =
      view-get_evict now later key j cache
        (ap is_positive same ∙ expired-positive started key before found) h
  evict_after _ started now later key j before cache found same h = refl

  -- A `Get` that starts at one time and takes the write lock at another, with any calls of other
  -- goroutines in between, changes nothing that a reader can see from then on: an entry that was
  -- written again in between is not lost.
  pub view-get_race :
      (started now later : ℕ) (key j : K) (between : Calls K V) (cache : Cache K V)
      → now ≤ later
      → view (after_read now key (get_read started key cache) (perform_all between cache)).0 later j
        ≡ view (perform_all between cache) later j
  view-get_race started now later key j between cache h =
      evict_after (get_read started key cache) started now later key j cache
        (perform_all between cache) refl (ttl-perform_all between cache) h
