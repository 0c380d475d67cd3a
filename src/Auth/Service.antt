-- ===== src/Auth/Service.antt =====
-- app/services/auth/service.go: `Service`. bcrypt's comparison, the hash of a token and the random
-- token are arguments. A moment is in nanoseconds; `unix` is Go's `Time.Unix`.
use Prim.Native.Nat.{bit_or}
use kumacore.Prelude.{
  ℕ, ◌/◌, ℤ, later_by, Bool, true, false, ◌||◌, not, Option, none, some, List, [], ◌∷◌, Result, ok,
  err, if◌then◌else◌, leb,
}
use kumacore.Prelude.Text.{Str, Eq-str}
use kumacore.Cache
use kumacore.Cache.{Cache}
use kumacore.Auth.Repository.{
  Database, DbError, no_rows, Credentials, find_credentials_by_username, create_session,
  update_user_last_login, delete_session, find_session_user, list_user_role_permissions,
}

pub record User : Type 0 where
  pub id : Str
  pub username : Str
  pub permissions : ℕ

pub record CachedUser : Type 0 where
  pub user : User
  pub expires_at : ℕ

-- What the service reads and writes.
pub record World : Type 0 where
  pub db : Database
  pub user_cache : Cache Str CachedUser

pub data AuthError : Type 0 where
  invalid_credentials : AuthError
  find_credentials_failed create_session_failed delete_session_failed : DbError → AuthError
  find_session_failed list_permissions_failed : DbError → AuthError
  generate_token_failed : AuthError

abbrev pub unix : ℕ → ℕ
unix moment = moment / 1000000000

pub record Crypto : Type 0 where
  -- `bcrypt.CompareHashAndPassword` without an error: hash, then password
  pub password_matches : Str → Str → Bool
  pub hash_token : Str → Str
  pub dummy_password_hash : Str

-- The errors of the driver in one call.
pub record AuthFaults : Type 0 where
  pub at_credentials : Option DbError
  pub at_create : Option DbError
  pub at_login : Option DbError
  pub at_delete : Option DbError
  pub at_find : Option DbError
  pub at_permissions : Option DbError

abbrev pub no_auth_faults : AuthFaults
no_auth_faults = record {
  at_credentials = none;
  at_create = none;
  at_login = none;
  at_delete = none;
  at_find = none;
  at_permissions = none;
}

-- The credentials to compare with, and whether the user was found.
unfoldable pub known_or_dummy :
    Str → Result DbError Credentials → Result AuthError (Bool × Credentials)
known_or_dummy dummy (ok credentials) = ok (true, credentials)
known_or_dummy dummy (err no_rows) = ok (false, record { user_id = []; password_hash = dummy })
known_or_dummy dummy (err e) = err (find_credentials_failed e)

unfoldable pub all_permissions : List ℕ → ℕ → ℕ
all_permissions [] permissions = permissions
all_permissions (role ∷ roles) permissions = all_permissions roles (bit_or permissions role)

-- The part of `UserForToken` behind the cache, up to the write to the cache: the user and the end
-- of the session.
unfoldable pub read_user : AuthFaults → Str → ℕ → Database → Result AuthError CachedUser
unfolding all_permissions
read_user faults token_hash now db =
    elim (find_session_user faults.at_find token_hash (unix now) db) [
      | err e ↦ err (find_session_failed e)
      | ok session_user ↦
          elim (list_user_role_permissions faults.at_permissions session_user.id db) [
            | err e ↦ err (list_permissions_failed e)
            | ok permissions ↦ ok (record {
              user = record {
                id = session_user.id;
                username = session_user.username;
                permissions = all_permissions permissions 0;
              };
              expires_at = session_user.expires_at;
            })
          ]
    ]

-- The write to the cache, at the time of the cache's clock.
unfoldable pub store_user :
    ℕ → Str → Result AuthError CachedUser → World → World × Result AuthError User
store_user clock token_hash (err e) world = (world, err e)
store_user clock token_hash (ok cached) world = (
  record world { user_cache = Cache.set clock token_hash cached world.user_cache },
  ok cached.user,
)

-- What `UserForToken` does with what the cache gave.
unfoldable pub after_cache :
    AuthFaults → ℕ → ℕ → Str → Option CachedUser → World → World × Result AuthError User
unfolding read_user store_user
after_cache faults clock now token_hash none world =
    store_user clock token_hash (read_user faults token_hash now world.db) world
after_cache faults clock now token_hash (some cached) world =
    if leb cached.expires_at (unix now)
    then store_user clock token_hash (read_user faults token_hash now world.db)
        (record world { user_cache = Cache.remove token_hash world.user_cache })
    else (world, ok cached.user)

module _ (crypto : Crypto) where
  unfoldable pub open_session :
      AuthFaults → ℕ → ℤ → Str → Credentials → Database → Database × Result AuthError (Str × ℕ)
  open_session faults now ttl raw_token credentials db =
      let expires_at = later_by now ttl in
      elim (create_session faults.at_create (crypto.hash_token raw_token) credentials.user_id
        (unix now) (unix expires_at) db) [
          | err e ↦ (db, err (create_session_failed e))
          | ok db1 ↦ (
            elim (update_user_last_login faults.at_login credentials.user_id (unix now) db1) [
              | ok db2 ↦ db2
              | err e ↦ db1
            ],
            ok (raw_token, expires_at),
          )
        ]

  -- `Authenticate`; the random token is `none` if the reader of random bytes fails.
  unfoldable pub authenticate :
      AuthFaults → ℕ → ℤ → Option Str → Str → Str → Database → Database × Result AuthError (Str × ℕ)
  unfolding known_or_dummy
  authenticate faults now ttl random_token username password db =
      elim (known_or_dummy crypto.dummy_password_hash
        (find_credentials_by_username faults.at_credentials username db)) [
          | err e ↦ (db, err e)
          | ok (user_found, credentials) ↦
              if not user_found || not (crypto.password_matches credentials.password_hash password)
              then (db, err invalid_credentials)
              else elim random_token [
                | none ↦ (db, err generate_token_failed)
                | some raw_token ↦ open_session faults now ttl raw_token credentials db
              ]
        ]

  -- `Logout`
  unfoldable pub logout : AuthFaults → Str → World → World × Option AuthError
  logout faults raw_token world =
      let token_hash = crypto.hash_token raw_token in
      elim (delete_session faults.at_delete token_hash world.db) [
        | err e ↦ (world, some (delete_session_failed e))
        | ok db ↦ (record { db = db; user_cache = Cache.remove token_hash world.user_cache }, none)
      ]

  -- `UserForToken`: `clock` is the cache's time, `now` the caller's.
  unfoldable pub user_for_token : AuthFaults → ℕ → ℕ → Str → World → World × Result AuthError User
  unfolding after_cache
  user_for_token faults clock now raw_token world =
      let token_hash = crypto.hash_token raw_token in
      let (user_cache, cached) = Cache.get clock token_hash world.user_cache in
      after_cache faults clock now token_hash cached (record world { user_cache = user_cache })
