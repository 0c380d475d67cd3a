-- ===== src/Auth/Login.antt =====
-- From the login handler of app/modules/auth/handler.go to the middleware of
-- app/middleware/auth/auth.go: the cookie of a login.
use kumacore.Prelude.{
  ℕ, ◌<◌, ℤ, later_by, Bool, true, false, ◌||◌, not, Option, none, some, List, [], ◌∷◌, map, Result,
  ok, err, ◌≡◌, refl, sym, ap, subst, ◌∙◌, arith, if◌then◌else◌, ◌==◌, Bool-cases, Option-cases,
  Result-cases, inl, inr,
}
use kumacore.Prelude.Assoc.{lookup}
use kumacore.Prelude.Text.{Str, Eq-str, str, str_eq_iff, is_empty}
use kumacore.Cache
use kumacore.Cache.{Cache}
use kumacore.Auth.Repository.{
  Database, UserRow, SessionRow, Credentials, find_user, find_token, find_credentials,
  create_session, update_user_last_login, find_session_user, join_user, list_user_role_permissions,
  find_credentials_by_username, DbError, permissions_of,
}
use kumacore.Auth.Service.{
  Crypto, AuthFaults, no_auth_faults, World, User, CachedUser, AuthError, invalid_credentials, unix,
  open_session, authenticate, read_user, store_user, after_cache, user_for_token, known_or_dummy,
  all_permissions,
}
use kumacore.Auth.Middleware.{next_handler, require_auth, loaded_user}
use kumacore.Auth.Handlers.{
  SessionCookie, login_page, Form, Body, handle_authenticate, answer_login, rendered,
}
use kumacore.Auth.Opening.{find_token-new, new_session, authenticate-ok}

-- A user that has credentials is found by its id.
find_credentials-user :
    (username : Str) (users : List UserRow) {credentials : Credentials}
    → find_credentials username users ≡ some credentials
    → (row : UserRow) × (find_user credentials.user_id users ≡ some row)
unfolding find_credentials find_user
find_credentials-user username [] h = cc
find_credentials-user username (user ∷ users) {credentials} h =
    elim (Bool-cases (user.username == username)) [
      | inl same ↦ (user, ground (arith, str_eq_iff user.id user.id))
      | inr other ↦
          let (row, e) =
            find_credentials-user username users {credentials = credentials} (ground arith) in
          elim (Bool-cases (user.id == credentials.user_id)) [
            | inl hit ↦ (user, ground arith)
            | inr miss ↦ (row, ground arith)
          ]
    ]

abbrev touch : Str → ℕ → UserRow → UserRow
touch j now user = if user.id == j then record user { last_login_at = some now } else user

find_user-touch :
    (i j : Str) (now : ℕ) (users : List UserRow) {row : UserRow}
    → find_user i users ≡ some row
    → (row' : UserRow) × (find_user i (map (touch j now) users) ≡ some row')
unfolding find_user
find_user-touch i j now [] h = cc
find_user-touch i j now (user ∷ users) {row} h = elim (Bool-cases (user.id == i)) [
  | inl same ↦ elim (Bool-cases (user.id == j)) [
    | inl hit ↦ (record user { last_login_at = some now }, ground arith)
    | inr miss ↦ (user, ground arith)
  ]
  | inr other ↦
      let (row', e) = find_user-touch i j now users {row = row} (ground arith) in
      (row', elim (Bool-cases (user.id == j)) [ inl hit ↦ ground arith | inr miss ↦ ground arith ])
]

-- Reading the user of a session that is there and runs.
read_user-live :
    (key : Str) (now : ℕ) (db : Database) {session : SessionRow} {row : UserRow}
    → find_token key db.sessions ≡ some session
    → find_user session.user_id db.users ≡ some row
    → unix now < session.expires_at
    → (cached : CachedUser) × (read_user no_auth_faults key now db ≡ ok cached)
      × (cached.user.id ≡ session.user_id)
unfolding read_user find_session_user join_user list_user_role_permissions
read_user-live key now db {session} {row} p q less = (
  record {
    user = record {
      id = session.user_id;
      username = row.username;
      permissions = all_permissions (permissions_of session.user_id db.users_roles) 0;
    };
    expires_at = session.expires_at;
  },
  ground arith,
  refl,
)

create_session-users :
    (fault : Option DbError) (key user_id : Str) (created expires : ℕ) (db : Database)
    {db' : Database}
    → create_session fault key user_id created expires db ≡ ok db'
    → db'.users ≡ db.users
unfolding create_session
create_session-users fault key user_id created expires db h = ground arith

module _ (crypto : Crypto) (faults : AuthFaults) (now : ℕ) (ttl : ℤ) where
  -- A login forgets no user.
  open_session-users :
      (raw_token : Str) (credentials : Credentials) (db : Database) (i : Str) {row : UserRow}
      → find_user i db.users ≡ some row
      → (row' : UserRow) × (find_user i
            (open_session crypto faults now ttl raw_token credentials db).0.users
          ≡ some row')
  unfolding open_session update_user_last_login
  open_session-users raw_token credentials db i {row} h =
      elim (Result-cases (
        create_session faults.at_create (crypto.hash_token raw_token) credentials.user_id (unix now)
          (unix (later_by now ttl)) db)) [
            | inr (e, p) ↦ (row, ground arith)
            | inl (db1, p) ↦
                let same = create_session-users faults.at_create _ _ _ _ db p in
                elim (Option-cases faults.at_login) [
                  | inr (e, q) ↦ (row, ground arith)
                  | inl q ↦
                      let (row', found) =
                        find_user-touch i credentials.user_id (unix now) db.users {row = row} h in
                      (row', ground arith)
                ]
          ]

  authenticate-users :
      (random_token : Option Str) (username password : Str) (db : Database) (i : Str)
      {row : UserRow}
      → find_user i db.users ≡ some row
      → (row' : UserRow) × (find_user i
            (authenticate crypto faults now ttl random_token username password db).0.users
          ≡ some row')
  unfolding authenticate
  authenticate-users random_token username password db i {row} h =
      elim (Result-cases (
        known_or_dummy crypto.dummy_password_hash
          (find_credentials_by_username faults.at_credentials username db))) [
            | inr (e, p) ↦ (row, ground arith)
            | inl ((user_found, credentials), p) ↦
                elim (Bool-cases (
                  not user_found
                  || not (crypto.password_matches credentials.password_hash password))) [
                    | inl refused ↦ (row, ground arith)
                    | inr allowed ↦ elim (Option-cases random_token) [
                      | inl q ↦ (row, ground arith)
                      | inr (raw_token, q) ↦
                          let (row', found) =
                            open_session-users raw_token credentials db i {row = row} h in
                          (row', ground arith)
                    ]
                  ]
          ]

get-absent :
    (clock : ℕ) (key : Str) (user_cache : Cache Str CachedUser)
    → lookup key user_cache.entries ≡ none
    → Cache.get clock key user_cache ≡ (user_cache, none)
unfolding Cache.get Cache.get_read Cache.classify
get-absent clock key user_cache h = ground arith

-- A token that is not cached, and whose session is there and runs, gives the session's user.
user_for_token-live :
    (crypto : Crypto) (clock now : ℕ) (raw_token : Str) (world : World) {session : SessionRow}
    {row : UserRow}
    → lookup (crypto.hash_token raw_token) world.user_cache.entries ≡ none
    → find_token (crypto.hash_token raw_token) world.db.sessions ≡ some session
    → find_user session.user_id world.db.users ≡ some row
    → unix now < session.expires_at
    → (user : User) × ((user_for_token crypto no_auth_faults clock now raw_token world).1 ≡ ok user)
      × (user.id ≡ session.user_id)
unfolding user_for_token after_cache store_user
user_for_token-live crypto clock now raw_token world {session} {row} absent found known less =
    let (cached, e, owner) =
      read_user-live (crypto.hash_token raw_token) now world.db {session = session} {row = row}
        found known less in
    (
      cached.user,
      rw (get-absent clock (crypto.hash_token raw_token) world.user_cache absent, e) refl,
      owner,
    )

no_cookie :
    (status : Option ℕ) (render_error : Option Str) (page : Body)
    → (rendered status render_error page).cookie ≡ none
unfolding rendered
no_cookie status none page = refl
no_cookie status (some e) page = refl

-- The answer of the login handler has a cookie only for a login that has succeeded.
no_cookie_for_error :
    (secure : Bool) (render_error : Option Str) (e : AuthError)
    → (answer_login secure render_error (err e)).cookie ≡ none
unfolding answer_login
no_cookie_for_error secure render_error invalid_credentials =
    no_cookie (some 403) render_error (login_page (some (str "invalid credentials")))
no_cookie_for_error secure render_error e =
    no_cookie (some 500) render_error (login_page (some (str "internal server error")))

cookie_of_login :
    (secure : Bool) (render_error : Option Str) (result : Result AuthError (Str × ℕ))
    (cookie : SessionCookie)
    → (answer_login secure render_error result).cookie ≡ some cookie
    → (t : Str) × (x : ℕ) × (result ≡ ok (t, x)) × (cookie.value ≡ t) × (cookie.expires ≡ x)
unfolding answer_login
cookie_of_login secure render_error (ok (t, x)) cookie h = (t, x, refl, ground arith, ground arith)
cookie_of_login secure render_error (err e) cookie h =
    absurd (ground (arith, no_cookie_for_error secure render_error e))

-- The form's user, with the right password, is who the session belongs to.
abbrev pub IsOwner : Crypto → Form → Database → User → Type 0
IsOwner crypto form db user =
    (credentials : Credentials) × (find_credentials form.username db.users ≡ some credentials)
    × (crypto.password_matches credentials.password_hash form.password ≡ true)
    × (user.id ≡ credentials.user_id)

module _ (crypto : Crypto) (faults : AuthFaults) (now : ℕ) (ttl : ℤ)
    (random_token : Option Str) where
  -- A login as the service sees it, and a later lookup of its token.
  authenticate-user_for_token :
      (form : Form) (db : Database) (user_cache : Cache Str CachedUser) (clock later : ℕ) {t : Str}
      {x : ℕ}
      → (authenticate crypto faults now ttl random_token form.username form.password db).1
        ≡ ok (t, x)
      → unix later < unix x
      → lookup (crypto.hash_token t) user_cache.entries ≡ none
      → (user : User) × ((user_for_token crypto no_auth_faults clock later t (record {
        db = (authenticate crypto faults now ttl random_token form.username form.password db).0;
        user_cache = user_cache;
      })).1
          ≡ ok user)
        × IsOwner crypto form db user
  authenticate-user_for_token form db user_cache clock later {t} {x} h less absent =
      let login =
        authenticate-ok crypto faults now ttl random_token form.username form.password db {t = t}
          {x = x} h in
      let key = crypto.hash_token t in
      let session = new_session key login.credentials.user_id (unix now) (unix x) in
      let db' =
        (authenticate crypto faults now ttl random_token form.username form.password db).0 in
      let (row, known) =
        find_credentials-user form.username db.users {credentials = login.credentials}
          login.known in
      let (row', known') =
        authenticate-users crypto faults now ttl random_token form.username form.password db
          login.credentials.user_id {row = row} known in
      let found : find_token key db'.sessions ≡ some session =
        rw login.opened (find_token-new key db.sessions session login.fresh refl) in
      let (user, e, owner) =
        user_for_token-live crypto clock later t (record { db = db'; user_cache = user_cache })
          {session = session} {row = row'} absent found known' less in
      (user, e, (login.credentials, login.known, login.matches, owner))

  handle_blank :
      (secure : Bool) (render_error : Option Str) (form : Form) (db : Database)
      → (is_empty form.username || is_empty form.password) ≡ true
      → (handle_authenticate crypto faults now ttl random_token secure render_error
          (some form)
          db).1.cookie
        ≡ none
  unfolding handle_authenticate
  handle_blank secure render_error form db h =
      rw (h, handle_authenticate) (no_cookie_for_error secure render_error invalid_credentials)

  handle_filled :
      (secure : Bool) (render_error : Option Str) (form : Form) (db : Database)
      → (is_empty form.username || is_empty form.password) ≡ false
      → handle_authenticate crypto faults now ttl random_token secure render_error (some form) db
        ≡ (
          (authenticate crypto faults now ttl random_token form.username form.password db).0,
          answer_login secure render_error
              (authenticate crypto faults now ttl random_token form.username form.password db).1,
        )
  unfolding handle_authenticate
  handle_filled secure render_error form db h = rw (h, handle_authenticate) refl

  passes :
      (clock later : ℕ) (hx t : Str) (world : World) {user : User}
      → (user_for_token crypto no_auth_faults clock later t world).1 ≡ ok user
      → (require_auth crypto no_auth_faults clock later
          (record { session_cookie = some t; hx_request = hx })
          world).1
        ≡ next_handler (some user)
  unfolding require_auth loaded_user
  passes clock later hx t world h = rw h refl

  -- When the login handler gives out a cookie, a request with it that comes before the session ends
  -- passes `RequireAuth`, as the user of the form's name, whose password was right. This holds whatever
  -- the cache has under other tokens, when it has nothing under the new one and the database works for
  -- the request.
  pub require_auth-handle_authenticate :
      (secure : Bool) (render_error : Option Str) (form : Form) (db : Database)
      (user_cache : Cache Str CachedUser)
      → (clock later : ℕ) (hx : Str) (cookie : SessionCookie)
      → (handle_authenticate crypto faults now ttl random_token secure render_error
          (some form)
          db).1.cookie
        ≡ some cookie
      → unix later < unix cookie.expires
      → lookup (crypto.hash_token cookie.value) user_cache.entries ≡ none
      → (user : User) × ((require_auth crypto no_auth_faults clock later
            (record { session_cookie = some cookie.value; hx_request = hx })
            (record {
              db =
                  (handle_authenticate crypto faults now ttl random_token secure render_error
                    (some form)
                    db).0;
              user_cache = user_cache;
            })).1
          ≡ next_handler (some user))
        × IsOwner crypto form db user
  require_auth-handle_authenticate secure render_error form db user_cache clock later hx cookie h
        less absent =
      elim (Bool-cases (is_empty form.username || is_empty form.password)) [
        | inl blank ↦ absurd (ground (arith, handle_blank secure render_error form db blank))
        | inr filled ↦
            let e = handle_filled secure render_error form db filled in
            let db' =
              (authenticate crypto faults now ttl random_token form.username form.password db).0 in
            let (t, x, done, value, expires) =
              cookie_of_login secure render_error
                (authenticate crypto faults now ttl random_token form.username form.password db).1
                cookie (sym (ap (λ r. r.1.cookie) e) ∙ h) in
            let (user, gives, owner) =
              authenticate-user_for_token form db user_cache clock later {t = t} {x = x} done
                (subst (λ y. unix later < unix y) expires less)
                (subst (λ k. lookup (crypto.hash_token k) user_cache.entries ≡ none) value
                  absent) in
            (
              user,
              rw (e, value)
                  (passes clock later hx t (record { db = db'; user_cache = user_cache })
                    {user = user} gives),
              owner,
            )
      ]
