-- ===== src/Auth/Race.antt =====
-- A `Logout` of app/services/auth/service.go that runs while a `UserForToken` stands between its
-- read of the database and its write to the cache.
use kumacore.Prelude.{
  ℕ, ◌+◌, ◌≤◌, ◌<◌, suc, pos, pos_part, is_positive, none, some, ok, ◌≡◌, refl, ap, ◌∙◌, arith,
  if◌then◌else◌, ◌==◌, ltb, ◌&&◌,
}
use kumacore.Prelude.Text.{Str, Eq-str, str_eq_iff}
use kumacore.Cache
use kumacore.Cache.View.{view, get-view, view-set}
use kumacore.Auth.Repository.{find_token, drop_token}
use kumacore.Auth.Service.{
  CachedUser, World, AuthFaults, Crypto, unix, logout, read_user, store_user, after_cache,
  user_for_token,
}
use kumacore.Auth.Sessions.{find_token-drop_token, logout-ok}

still_fresh :
    (key : Str) (clock clock' ttl : ℕ) (world : World) (cached : CachedUser)
    → world.user_cache.ttl ≡ pos (suc ttl)
    → clock' ≤ clock + suc ttl
    → (if key == key
        then (if is_positive (Cache.remove key world.user_cache).ttl
              && ltb (clock + pos_part (Cache.remove key world.user_cache).ttl) clock'
            then none
            else some cached)
        else view (Cache.remove key world.user_cache) clock' key)
      ≡ some cached
unfolding Cache.remove
still_fresh key clock clock' ttl world cached live early =
    rw (live, (str_eq_iff key key).1 refl) (ground arith)

module _ (crypto : Crypto) where
  hit :
      (faults : AuthFaults) (clock now : ℕ) (raw_token : Str) (world : World) (cached : CachedUser)
      → (Cache.get clock (crypto.hash_token raw_token) world.user_cache).1 ≡ some cached
      → unix now < cached.expires_at
      → (user_for_token crypto faults clock now raw_token world).1 ≡ ok cached.user
  unfolding user_for_token after_cache
  hit faults clock now raw_token world cached h unexpired = ground arith

  -- The read, the logout and the write, in this order.
  unfoldable pub raced : AuthFaults → AuthFaults → ℕ → ℕ → Str → World → World
  raced faults logout_faults clock now raw_token world =
      (store_user clock (crypto.hash_token raw_token)
        (read_user faults (crypto.hash_token raw_token) now world.db)
        (logout crypto logout_faults raw_token world).0).0

  raced_lem :
      (faults logout_faults : AuthFaults) (clock now : ℕ) (raw_token : Str) (world : World)
      → (cached : CachedUser)
      → read_user faults (crypto.hash_token raw_token) now world.db ≡ ok cached
      → (logout crypto logout_faults raw_token world).1 ≡ none
      → let key = crypto.hash_token raw_token in
        raced faults logout_faults clock now raw_token world ≡ record {
          db = record world.db { sessions = drop_token key world.db.sessions };
          user_cache = Cache.set clock key cached (Cache.remove key world.user_cache);
        }
  unfolding raced store_user
  raced_lem faults logout_faults clock now raw_token world cached read out =
      let gone = logout-ok crypto logout_faults raw_token world out in
      rw (raced, read)
        (ap
          (λ (w : World). record w {
            user_cache = Cache.set clock (crypto.hash_token raw_token) cached w.user_cache;
          })
          gone)

  -- If the read has found a session and the logout succeeds before the write, then the session is
  -- gone from the database, and yet the token gives its user until the time to live of the cache or
  -- the session ends.
  pub raced_stale :
      (faults logout_faults later_faults : AuthFaults) (clock now clock' now' ttl : ℕ)
      → (raw_token : Str) (world : World) (cached : CachedUser)
      → read_user faults (crypto.hash_token raw_token) now world.db ≡ ok cached
      → (logout crypto logout_faults raw_token world).1 ≡ none
      → world.user_cache.ttl ≡ pos (suc ttl)
      → clock' ≤ clock + suc ttl
      → unix now' < cached.expires_at
      → let world' = raced faults logout_faults clock now raw_token world in
        (find_token (crypto.hash_token raw_token) world'.db.sessions ≡ none)
        × ((user_for_token crypto later_faults clock' now' raw_token world').1 ≡ ok cached.user)
  raced_stale faults logout_faults later_faults clock now clock' now' ttl raw_token world cached
        read out live early unexpired =
      let key = crypto.hash_token raw_token in
      rw (raced_lem faults logout_faults clock now raw_token world cached read out) (
        find_token-drop_token key key world.db.sessions ∙ ground (arith, str_eq_iff key key),
        hit later_faults clock' now' raw_token
            (record {
              db = record world.db { sessions = drop_token key world.db.sessions };
              user_cache = Cache.set clock key cached (Cache.remove key world.user_cache);
            })
            cached
            (get-view clock' key (Cache.set clock key cached (Cache.remove key world.user_cache))
              ∙ view-set clock clock' key key cached (Cache.remove key world.user_cache)
              ∙ still_fresh key clock clock' ttl world cached live early)
            unexpired,
      )
