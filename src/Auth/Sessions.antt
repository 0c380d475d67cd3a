-- ===== src/Auth/Sessions.antt =====
-- The service of app/services/auth and the sessions of the database, in the worlds that requests
-- handled one after the other can reach.
use kumacore.Prelude.{
  ℕ, ◌<◌, ℤ, Option, none, some, List, [], ◌∷◌, ok, ◌≡◌, ◌≢◌, inl, inr, refl, subst, ◌∙◌, arith,
  if◌then◌else◌, ◌==◌, leb, Bool-cases, Option-cases, Result-cases,
}
use kumacore.Prelude.Assoc.{lookup}
use kumacore.Prelude.Text.{Str, Eq-str, str_eq_iff}
use kumacore.Cache
use kumacore.Cache.{Cache, CacheEntry}
use kumacore.Cache.Entries.{entries-get, get-entry, entries-set, entries-remove}
use kumacore.Auth.Repository.{
  Database, SessionRow, find_token, drop_token, delete_session, find_session_user,
  list_user_role_permissions,
}
use kumacore.Auth.Service.{
  User, CachedUser, World, AuthFaults, Crypto, unix, authenticate, logout, read_user, store_user,
  after_cache, user_for_token,
}
use kumacore.Auth.Opening.{find_token-append, authenticate-ok, authenticate-err}

-- The database has the session of a cached user.
pub record IsBacked (db : Database) (token_hash : Str) (cached : CachedUser) : Type 0 where
  pub session : SessionRow
  pub found : find_token token_hash db.sessions ≡ some session
  pub owner : session.user_id ≡ cached.user.id
  pub until : session.expires_at ≡ cached.expires_at

abbrev pub IsBacked? : Database → Str → Option (CacheEntry CachedUser) → Type 0
IsBacked? db token_hash none = Unit
IsBacked? db token_hash (some cached) = IsBacked db token_hash cached.value

-- Every cached user has its session.
pub record IsSound (world : World) : Type 0 where
  pub backed : (h : Str) → IsBacked? world.db h (lookup h world.user_cache.entries)

read_user-IsBacked :
    (faults : AuthFaults) (token_hash : Str) (now : ℕ) (db : Database) {cached : CachedUser}
    → read_user faults token_hash now db ≡ ok cached
    → IsBacked db token_hash cached × (unix now < cached.expires_at)
unfolding read_user find_session_user list_user_role_permissions
read_user-IsBacked faults token_hash now db h =
    elim (Option-cases (find_token token_hash db.sessions)) [
      | inl p ↦ absurd (ground arith)
      | inr (session, p) ↦ (
        record { session = session; found = p; owner = ground arith; until = ground arith },
        ground arith,
      )
    ]

IsSound-get :
    (clock : ℕ) (key : Str) (world : World)
    → IsSound world
    → IsSound (record world { user_cache = (Cache.get clock key world.user_cache).0 })
IsSound-get clock key world sound = record {
  backed = λ h. elim (entries-get clock key h world.user_cache) [
    | inl gone ↦ rw gone tt
    | inr same ↦ rw same (sound.backed h)
  ];
}

IsSound-remove :
    (key : Str) (world : World)
    → IsSound world
    → IsSound (record world { user_cache = Cache.remove key world.user_cache })
IsSound-remove key world sound = record {
  backed = λ h. rw (entries-remove key h world.user_cache) (elim (Bool-cases (key == h)) [
    | inl same ↦ rw same tt
    | inr other ↦ rw other (sound.backed h)
  ]);
}

IsSound-set :
    (clock : ℕ) (key : Str) (cached : CachedUser) (world : World)
    → IsBacked world.db key cached
    → IsSound world
    → IsSound (record world { user_cache = Cache.set clock key cached world.user_cache })
IsSound-set clock key cached world backed sound = record {
  backed = λ h.
      let (entry, value, found) = entries-set clock key h cached world.user_cache in
      rw found (elim (Bool-cases (key == h)) [
        | inl same ↦ rw (same, value, ← (str_eq_iff key h).0 same) backed
        | inr other ↦ rw other (sound.backed h)
      ]);
}

-- The user of a live session: what `UserForToken` may return.
pub record IsLive (db : Database) (token_hash : Str) (now : ℕ) (user : User) : Type 0 where
  pub session : SessionRow
  pub found : find_token token_hash db.sessions ≡ some session
  pub owner : session.user_id ≡ user.id
  pub unexpired : unix now < session.expires_at

store_user-IsSound :
    (faults : AuthFaults) (clock now : ℕ) (token_hash : Str) (world : World)
    → IsSound world
    → let r = store_user clock token_hash (read_user faults token_hash now world.db) world in
      IsSound r.0
      × (r.0.db ≡ world.db)
      × ((user : User) → r.1 ≡ ok user → IsLive world.db token_hash now user)
unfolding store_user
store_user-IsSound faults clock now token_hash world sound =
    elim (Result-cases (read_user faults token_hash now world.db)) [
      | inr (e, p) ↦ rw (p, store_user) (sound, refl, λ user h. cc)
      | inl (cached, p) ↦
          let (b, live) = read_user-IsBacked faults token_hash now world.db p in
          rw (p, store_user)
            (
              IsSound-set clock token_hash cached world b sound,
              refl,
              λ user h. record {
                session = b.session;
                found = b.found;
                owner = ground (arith, b.owner);
                unexpired = ground (arith, b.until, live);
              },
            )
    ]

module _ (crypto : Crypto) where
  user_for_token-all :
      (faults : AuthFaults) (clock now : ℕ) (raw_token : Str) (world : World)
      → IsSound world
      → let r = user_for_token crypto faults clock now raw_token world in
        IsSound r.0
        × ((user : User) → r.1 ≡ ok user → IsLive world.db (crypto.hash_token raw_token) now user)
  unfolding user_for_token
  user_for_token-all faults clock now raw_token world sound =
      let key = crypto.hash_token raw_token in
      let world' = record world { user_cache = (Cache.get clock key world.user_cache).0 } in
      let sound' = IsSound-get clock key world sound in
      elim (Option-cases (Cache.get clock key world.user_cache).1) [
        | inl p ↦
            let (s, _, live) = store_user-IsSound faults clock now key world' sound' in
            rw (p, after_cache) (s, live)
        | inr (cached, p) ↦ elim (Bool-cases (leb cached.expires_at (unix now))) [
          | inl over ↦
              let (s, _, live) =
                store_user-IsSound faults clock now key
                  (record world' { user_cache = Cache.remove key world'.user_cache })
                  (IsSound-remove key world' sound') in
              rw (p, after_cache, over) (s, live)
          | inr running ↦
              let (entry, found, value) = get-entry clock key world.user_cache cached p in
              let b : IsBacked world.db key entry.value =
                subst (IsBacked? world.db key) found (sound.backed key) in
              rw (p, after_cache, running)
                (
                  sound',
                  λ user h. record {
                    session = b.session;
                    found = b.found;
                    owner = ground (arith, b.owner, value);
                    unexpired = ground (arith, b.until, value);
                  },
                )
        ]
      ]

pub find_token-drop_token :
    (h key : Str) (sessions : List SessionRow)
    → find_token h (drop_token key sessions) ≡ (if key == h then none else find_token h sessions)
unfolding find_token drop_token
find_token-drop_token h key [] = ground arith
find_token-drop_token h key (session ∷ sessions) = ground (
  arith,
  find_token-drop_token h key sessions,
  str_eq_iff session.token_hash key,
  str_eq_iff session.token_hash h,
  str_eq_iff key h,
)

IsBacked?-keep :
    (db db' : Database) (h : Str) (entry : Option (CacheEntry CachedUser))
    → ((session : SessionRow)
        → find_token h db.sessions ≡ some session
        → find_token h db'.sessions ≡ some session)
    → IsBacked? db h entry
    → IsBacked? db' h entry
IsBacked?-keep db db' h none keep b = tt
IsBacked?-keep db db' h (some entry) keep b = record {
  session = b.session;
  found = keep b.session b.found;
  owner = b.owner;
  until = b.until;
}

IsSound-dropped :
    (key : Str) (world : World)
    → IsSound world
    → IsSound (record {
      db = record world.db { sessions = drop_token key world.db.sessions };
      user_cache = Cache.remove key world.user_cache;
    })
IsSound-dropped key world sound = record {
  backed = λ h. rw (entries-remove key h world.user_cache) (elim (Bool-cases (key == h)) [
    | inl same ↦ rw same tt
    | inr other ↦ rw other (
        IsBacked?-keep world.db _ h (lookup h world.user_cache.entries)
          (λ session q. rw (find_token-drop_token h key world.db.sessions, other) q)
          (sound.backed h))
  ]);
}

module _ (crypto : Crypto) where
  IsSound-authenticate :
      (faults : AuthFaults) (now : ℕ) (ttl : ℤ) (random_token : Option Str)
      (username password : Str)
      → (world : World) → IsSound world
      → IsSound (record world {
        db = (authenticate crypto faults now ttl random_token username password world.db).0;
      })
  IsSound-authenticate faults now ttl random_token username password world sound =
      elim (Result-cases
        (authenticate crypto faults now ttl random_token username password world.db).1) [
          | inr (e, p) ↦
              rw
                (authenticate-err crypto faults now ttl random_token username password world.db
                  {e = e} p)
                sound
          | inl ((t, x), p) ↦
              let login =
                authenticate-ok crypto faults now ttl random_token username password world.db
                  {t = t} {x = x} p in
              record {
                backed = λ h.
                    IsBacked?-keep world.db _ h (lookup h world.user_cache.entries)
                      (λ session q.
                        rw login.opened (find_token-append h world.db.sessions _ session q))
                      (sound.backed h);
              }
        ]

  IsSound-logout :
      (faults : AuthFaults) (raw_token : Str) (world : World)
      → IsSound world
      → IsSound (logout crypto faults raw_token world).0
  unfolding logout delete_session
  IsSound-logout faults raw_token world sound = elim (Option-cases faults.at_delete) [
    | inr (e, p) ↦ rw (p, delete_session) sound
    | inl p ↦ rw (p, delete_session) (IsSound-dropped (crypto.hash_token raw_token) world sound)
  ]

  -- What requests do to the world, one after the other.
  pub data Step (world world' : World) : Type 0 where
    logging_in :
        (faults : AuthFaults) (now : ℕ) (ttl : ℤ) (random_token : Option Str)
        (username password : Str)
        → world' ≡ record world {
          db = (authenticate crypto faults now ttl random_token username password world.db).0;
        }
        → Step world world'
    logging_out :
        (faults : AuthFaults) (raw_token : Str)
        → world' ≡ (logout crypto faults raw_token world).0
        → Step world world'
    looking_up :
        (faults : AuthFaults) (clock now : ℕ) (raw_token : Str)
        → world' ≡ (user_for_token crypto faults clock now raw_token world).0
        → Step world world'

  -- The worlds that the service reaches from a start with an empty cache.
  pub data Reach : World → Type 0 where
    start : (db : Database) (ttl : ℤ) → Reach (record { db = db; user_cache = Cache.new_cache ttl })
    next : {world world' : World} → Reach world → Step world world' → Reach world'

  Reach-IsSound : {world : World} → Reach world → IsSound world
  Reach-IsSound (start db ttl) = record { backed = λ h. unfold Cache.new_cache lookup in tt }
  Reach-IsSound (next {world} r (logging_in faults now ttl random_token username password e)) =
      rw e
        (IsSound-authenticate faults now ttl random_token username password world (Reach-IsSound r))
  Reach-IsSound (next {world} r (logging_out faults raw_token e)) =
      rw e (IsSound-logout faults raw_token world (Reach-IsSound r))
  Reach-IsSound (next {world} r (looking_up faults clock now raw_token e)) =
      rw e (user_for_token-all crypto faults clock now raw_token world (Reach-IsSound r)).0

  -- In a world that requests handled one after the other have reached from an empty cache, a token
  -- gives a user only if the database has the session of the token at that moment, the session is that
  -- user's and its end has not come.
  pub user_for_token-IsLive :
      {world : World} (faults : AuthFaults) (clock now : ℕ) (raw_token : Str) (user : User)
      → Reach world
      → (user_for_token crypto faults clock now raw_token world).1 ≡ ok user
      → IsLive world.db (crypto.hash_token raw_token) now user
  user_for_token-IsLive {world} faults clock now raw_token user r h =
      (user_for_token-all crypto faults clock now raw_token world (Reach-IsSound r)).1 user h

  pub logout-ok :
      (faults : AuthFaults) (raw_token : Str) (world : World)
      → (logout crypto faults raw_token world).1 ≡ none
      → (logout crypto faults raw_token world).0 ≡ record {
        db = record world.db {
          sessions = drop_token (crypto.hash_token raw_token) world.db.sessions;
        };
        user_cache = Cache.remove (crypto.hash_token raw_token) world.user_cache;
      }
  unfolding logout delete_session
  logout-ok faults raw_token world h = ground arith

  forgotten :
      (faults : AuthFaults) (clock now : ℕ) (raw_token : Str) (world : World) (user : User)
      → find_token (crypto.hash_token raw_token) world.db.sessions ≡ none
      → lookup (crypto.hash_token raw_token) world.user_cache.entries ≡ none
      → (user_for_token crypto faults clock now raw_token world).1 ≢ ok user
  unfolding user_for_token after_cache store_user read_user find_session_user
  forgotten faults clock now raw_token world user gone uncached h =
      let key = crypto.hash_token raw_token in
      elim (Option-cases (Cache.get clock key world.user_cache).1) [
        | inl p ↦ ground arith
        | inr (cached, p) ↦
            let (entry, found, value) = get-entry clock key world.user_cache cached p in cc
      ]

  -- After a logout that succeeds, the token gives no user at any time, in any state of the world,
  -- with expired, live or no entry in the cache before.
  pub logout-forgets :
      (faults later_faults : AuthFaults) (clock now : ℕ) (raw_token : Str) (world : World)
      (user : User)
      → (logout crypto faults raw_token world).1 ≡ none
      → (user_for_token crypto later_faults clock now raw_token
          (logout crypto faults raw_token world).0).1
        ≢ ok user
  logout-forgets faults later_faults clock now raw_token world user h =
      let key = crypto.hash_token raw_token in
      rw (logout-ok faults raw_token world h) (
        forgotten later_faults clock now raw_token
          (record {
            db = record world.db { sessions = drop_token key world.db.sessions };
            user_cache = Cache.remove key world.user_cache;
          })
          user
          (find_token-drop_token key key world.db.sessions ∙ ground (arith, str_eq_iff key key))
          (entries-remove key key world.user_cache ∙ ground (arith, str_eq_iff key key)))
