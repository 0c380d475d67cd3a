-- ===== src/Cache/View.antt =====
-- What a reader of the cache can see at a time, and how each operation changes it.
use kumacore.Prelude.{
  ℕ, ◌+◌, ◌≤◌, ℤ, is_positive, pos_part, Option, none, some, Eq, ltb, ◌≡◌, refl, if◌then◌else◌,
  ◌&&◌, ◌==◌, arith,
}
use kumacore.Prelude.Assoc.{lookup, lookup-insert, lookup-erase}
use kumacore.Cache.{
  Cache, CacheEntry, is_after, get_read, get_evict, get, set, remove, purge, new_cache,
}

-- The value of an entry that has not expired.
abbrev pub visible : {V : Type 0} → ℤ → ℕ → Option (CacheEntry V) → Option V
visible ttl now none = none
visible ttl now (some cached) =
    if is_positive ttl && is_after now cached then none else some cached.value

module _ {K V : Type 0} ⦃e : Eq K⦄ where
  unfoldable pub view : Cache K V → ℕ → K → Option V
  view cache now key = visible cache.ttl now (lookup key cache.entries)

  pub get-view :
      (now : ℕ) (key : K) (cache : Cache K V) → (get now key cache).1 ≡ view cache now key
  unfolding get view get_read
  get-view now key cache = ground arith

  -- A `Get` hides nothing that a later reader could have seen.
  pub view-get :
      (now later : ℕ) (key j : K) (cache : Cache K V)
      → now ≤ later
      → view (get now key cache).0 later j ≡ view cache later j
  unfolding get view get_read get_evict
  view-get now later key j cache h =
      ground (arith, lookup-erase key j cache.entries, e.beq_iff key j)

  pub view-set :
      (now later : ℕ) (key j : K) (value : V) (cache : Cache K V)
      → view (set now key value cache) later j ≡ (
          if key == j
          then (if is_positive cache.ttl && ltb (now + pos_part cache.ttl) later
              then none
              else some value)
          else view cache later j)
  unfolding set view
  view-set now later key j value cache = simp lookup-insert (ground (arith))

  pub view-remove :
      (later : ℕ) (key j : K) (cache : Cache K V)
      → view (remove key cache) later j ≡ (if key == j then none else view cache later j)
  unfolding remove view
  view-remove later key j cache = simp lookup-erase (ground (arith))

  pub view-purge : (later : ℕ) (j : K) (cache : Cache K V) → view (purge cache) later j ≡ none
  unfolding purge view lookup
  view-purge later j cache = refl

  pub view-new_cache :
      (ttl : ℤ) (later : ℕ) (j : K) → view (new_cache {K = K} {V = V} ttl) later j ≡ none
  unfolding new_cache view lookup
  view-new_cache ttl later j = refl
