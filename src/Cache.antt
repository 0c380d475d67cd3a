-- ===== src/Cache.antt =====
-- core/cache/cache.go: the generic cache with a time to live. A time is a number of nanoseconds, a
-- duration a signed one; every operation takes the time that `time.Now()` returns in it. The mutex
-- makes each operation atomic, but for `get`, which reads under one lock and evicts under another:
-- `get_read` and `get_evict` are its two halves, and `get` runs them with nothing in between.
pub mod Entries
pub mod View
pub mod Timeline
pub mod Race
mod Examples
use kumacore.Prelude.{
  ℕ, ◌+◌, ℤ, is_positive, pos_part, Bool, true, false, Option, none, some, [], length, Eq, ltb,
  if◌then◌else◌, ◌&&◌,
}
use kumacore.Prelude.Assoc.{Assoc, lookup, insert, erase}

-- The zero `time.Time` is 0.
pub record CacheEntry (V : Type 0) : Type 0 where
  pub value : V
  pub expires_at : ℕ

pub record Cache (K V : Type 0) : Type 0 where
  pub ttl : ℤ
  pub entries : Assoc K (CacheEntry V)

-- now.After(entry.expiresAt)
abbrev pub is_after : {V : Type 0} → ℕ → CacheEntry V → Bool
is_after now cached = ltb cached.expires_at now

module _ {K V : Type 0} where
  unfoldable pub new_cache : ℤ → Cache K V
  new_cache ttl = record { ttl = ttl; entries = [] }

  unfoldable pub purge : Cache K V → Cache K V
  purge cache = record cache { entries = [] }

  unfoldable pub len : Cache K V → ℕ
  len cache = length cache.entries

-- What the first half of `Get` finds.
pub data Found (V : Type 0) : Type 0 where
  missing : Found V
  expired : Found V
  fresh : V → Found V

unfoldable pub classify : {V : Type 0} → ℤ → ℕ → Option (CacheEntry V) → Found V
classify ttl now none = missing
classify ttl now (some cached) =
    if is_positive ttl && is_after now cached then expired else fresh cached.value

module _ {K V : Type 0} ⦃e : Eq K⦄ where
  unfoldable pub get_read : ℕ → K → Cache K V → Found V
  unfolding classify
  get_read now key cache = classify cache.ttl now (lookup key cache.entries)

  unfoldable pub evict : ℕ → K → Option (CacheEntry V) → Cache K V → Cache K V
  evict now key none cache = cache
  evict now key (some current) cache =
      if is_after now current then record cache { entries = erase key cache.entries } else cache

  -- The second half, under the write lock, with its second look at the entry.
  unfoldable pub get_evict : ℕ → K → Cache K V → Cache K V
  unfolding evict
  get_evict now key cache = evict now key (lookup key cache.entries) cache

  unfoldable pub after_read : ℕ → K → Found V → Cache K V → Cache K V × Option V
  after_read now key missing cache = (cache, none)
  after_read now key expired cache = (get_evict now key cache, none)
  after_read now key (fresh v) cache = (cache, some v)

  unfoldable pub get : ℕ → K → Cache K V → Cache K V × Option V
  unfolding after_read
  get now key cache = after_read now key (get_read now key cache) cache

  unfoldable pub set : ℕ → K → V → Cache K V → Cache K V
  set now key value cache = record cache {
    entries =
        insert key
          (record {
            value = value;
            expires_at = if is_positive cache.ttl then now + pos_part cache.ttl else 0;
          })
          cache.entries;
  }

  unfoldable pub remove : K → Cache K V → Cache K V
  remove key cache = record cache { entries = erase key cache.entries }
