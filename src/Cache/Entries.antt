-- ===== src/Cache/Entries.antt =====
-- What the operations of core/cache/cache.go leave in the map of entries.
use kumacore.Prelude.{
  ℕ, none, some, Eq, ◌≡◌, ◌⊎◌, inl, inr, Option-cases, refl, if◌then◌else◌, ◌==◌, arith,
}
use kumacore.Prelude.Assoc.{lookup, lookup-insert, lookup-erase}
use kumacore.Cache.{Cache, CacheEntry, get, get_read, get_evict, set, remove}

module _ {K V : Type 0} ⦃e : Eq K⦄ where
  -- A `Get` can only lose an entry.
  pub entries-get :
      (now : ℕ) (key j : K) (cache : Cache K V)
      → (lookup j (get now key cache).0.entries ≡ none)
        ⊎ (lookup j (get now key cache).0.entries ≡ lookup j cache.entries)
  unfolding get get_read get_evict
  entries-get now key j cache = ground (arith, lookup-erase key j cache.entries)

  -- What it returns stands in the map.
  pub get-entry :
      (now : ℕ) (key : K) (cache : Cache K V) (v : V)
      → (get now key cache).1 ≡ some v
      → (cached : CacheEntry V) × (lookup key cache.entries ≡ some cached) × (cached.value ≡ v)
  unfolding get get_read get_evict
  get-entry now key cache v h = elim (Option-cases (lookup key cache.entries)) [
    | inl p ↦ absurd (ground arith)
    | inr (cached, p) ↦ (cached, p, ground arith)
  ]

  pub entries-set :
      (now : ℕ) (key j : K) (v : V) (cache : Cache K V)
      → (cached : CacheEntry V) × (cached.value ≡ v)
        × (lookup j (set now key v cache).entries
            ≡ (if key == j then some cached else lookup j cache.entries))
  unfolding set
  entries-set now key j v cache = (_, refl, lookup-insert key j _ cache.entries)

  pub entries-remove :
      (key j : K) (cache : Cache K V)
      → lookup j (remove key cache).entries ≡ (if key == j then none else lookup j cache.entries)
  unfolding remove
  entries-remove key j cache = lookup-erase key j cache.entries
