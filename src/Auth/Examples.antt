-- ===== src/Auth/Examples.antt =====
-- A user who has logged in, with a cache of a minute.
use kumacore.Prelude.{
  ℕ, true, if◌then◌else◌, pos, none, some, [], ◌∷◌, ok, ◌≡◌, ◌≢◌, refl, arith, ◌==◌,
}
use kumacore.Prelude.Assoc.{lookup}
use kumacore.Prelude.Text.{str, str_eq, Eq-str}
use kumacore.Cache
use kumacore.Auth.Repository.{
  Database, find_token, find_user, find_session_user, create_session, delete_session,
  list_user_role_permissions, find_credentials_by_username, find_credentials,
  update_user_last_login,
}
use kumacore.Auth.Service.{
  Crypto, World, User, CachedUser, no_auth_faults, authenticate, logout, read_user, user_for_token,
  store_user, after_cache, open_session,
}
use kumacore.Auth.Sessions.{
  Reach, start, next, logging_in, IsLive, user_for_token-IsLive, logout-forgets,
}
use kumacore.Auth.Middleware.{next_handler, require_auth, hx_unauthorized, redirect_see_other}
use kumacore.Auth.Handlers.{
  SessionCookie, Form, handle_authenticate, answer_login, handle_logout, cleared, see_other,
}
use kumacore.Auth.Access.{require_auth-handle_logout}
use kumacore.Auth.Login.{IsOwner, require_auth-handle_authenticate}
use kumacore.Auth.Race.{raced, raced_stale}

abbrev plain : Crypto
plain = record {
  password_matches = λ hash password. hash == password;
  hash_token = λ token. token;
  dummy_password_hash = [];
}

abbrev one_user : Database
one_user = record {
  users =
      record { id = str "1"; username = str "ada"; password_hash = str "pw"; last_login_at = none }
      ∷ [];
  sessions = [];
  users_roles = [];
}

abbrev minute : ℕ
minute = 60000000000

abbrev second : ℕ
second = 1000000000

abbrev fresh_world : World
fresh_world = record { db = one_user; user_cache = Cache.new_cache (pos minute) }

abbrev logged_in : World
logged_in = record fresh_world {
  db =
      (authenticate plain no_auth_faults second (pos minute) (some (str "t")) (str "ada") (str "pw")
        one_user).0;
}

logged_in-Reach : Reach plain logged_in
logged_in-Reach =
    next (start one_user (pos minute))
      (logging_in no_auth_faults second (pos minute) (some (str "t")) (str "ada") (str "pw") refl)

abbrev ada : User
ada = record { id = str "1"; username = str "ada"; permissions = 0 }

ada_found : (user_for_token plain no_auth_faults second second (str "t") logged_in).1 ≡ ok ada
unfolding user_for_token authenticate after_cache store_user read_user find_session_user lookup
    Cache.get Cache.get_read Cache.new_cache find_token find_credentials_by_username
    find_credentials str_eq open_session create_session find_user update_user_last_login
    list_user_role_permissions
ada_found = refl

user_for_token-IsLive_example : IsLive logged_in.db (str "t") second ada
user_for_token-IsLive_example =
    user_for_token-IsLive plain {world = logged_in} no_auth_faults second second (str "t") ada
      logged_in-Reach ada_found

logged_out : (logout plain no_auth_faults (str "t") logged_in).1 ≡ none
unfolding logout delete_session
logged_out = refl

logout-forgets_example :
    (user_for_token plain no_auth_faults second second
      (str "t")
      (logout plain no_auth_faults (str "t") logged_in).0).1
    ≢ ok ada
logout-forgets_example =
    logout-forgets plain no_auth_faults no_auth_faults second second (str "t") logged_in ada
      logged_out

require_auth-handle_logout_example :
    let (world', response) = handle_logout plain no_auth_faults true (some (str "t")) logged_in in
    (response ≡ see_other (str "/") (cleared plain true))
    × ((require_auth plain no_auth_faults second second
          (record { session_cookie = some (str "t"); hx_request = str "true" })
          world').1
        ≡ (if str "true" == str "true"
            then hx_unauthorized (str "/")
            else redirect_see_other (str "/")))
require_auth-handle_logout_example =
    require_auth-handle_logout plain no_auth_faults no_auth_faults true second second (str "t")
      (str "true") logged_in logged_out

abbrev ada_cached : CachedUser
ada_cached = record { user = ada; expires_at = 61 }

ada_read : read_user no_auth_faults (str "t") second logged_in.db ≡ ok ada_cached
unfolding authenticate read_user find_session_user lookup find_token find_credentials_by_username
    find_credentials str_eq open_session create_session find_user update_user_last_login
    list_user_role_permissions
ada_read = refl

raced_stale_example :
    (find_token
        (str "t")
        (raced plain no_auth_faults no_auth_faults second second (str "t") logged_in).db.sessions
      ≡ none)
    × ((user_for_token plain no_auth_faults second second
          (str "t")
          (raced plain no_auth_faults no_auth_faults second second (str "t") logged_in)).1
        ≡ ok ada)
unfolding Cache.new_cache
raced_stale_example =
    raced_stale plain no_auth_faults no_auth_faults no_auth_faults second second second second
      59999999999 (str "t") logged_in ada_cached ada_read logged_out refl (omega arith)
      (ground arith)

abbrev login_form : Form
login_form = record { username = str "ada"; password = str "pw" }

abbrev ada_cookie : SessionCookie
ada_cookie = record { value = str "t"; expires = 61000000000; max_age = pos 0; secure = true }

cookie_given :
    (handle_authenticate plain no_auth_faults second
      (pos minute)
      (some (str "t"))
      true
      none
      (some login_form)
      one_user).1.cookie
    ≡ some ada_cookie
unfolding handle_authenticate answer_login authenticate find_token find_credentials_by_username
    find_credentials str_eq open_session create_session find_user update_user_last_login
cookie_given = refl

no_entry : lookup (plain.hash_token ada_cookie.value) fresh_world.user_cache.entries ≡ none
unfolding lookup Cache.new_cache
no_entry = refl

require_auth-handle_authenticate_example :
    (user : User) × ((require_auth plain no_auth_faults second second
        (record { session_cookie = some ada_cookie.value; hx_request = [] })
        (record {
          db =
              (handle_authenticate plain no_auth_faults second
                (pos minute)
                (some (str "t"))
                true
                none
                (some login_form)
                one_user).0;
          user_cache = fresh_world.user_cache;
        })).1
      ≡ next_handler (some user))
    × IsOwner plain login_form one_user user
require_auth-handle_authenticate_example =
    require_auth-handle_authenticate plain no_auth_faults second (pos minute) (some (str "t")) true
      none login_form one_user fresh_world.user_cache second second [] ada_cookie cookie_given
      (omega arith) no_entry
