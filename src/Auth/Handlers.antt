-- ===== src/Auth/Handlers.antt =====
-- app/modules/auth/handler.go: the handlers of the login page, of login, of logout and of the status
-- page. A form is what parsing the request gave; a page that cannot be rendered has its error.
use kumacore.Prelude.{
  ℕ, ℤ, pos, negsuc, Bool, ◌||◌, Option, none, some, [], Result, ok, err, if◌then◌else◌,
}
use kumacore.Prelude.Text.{Str, str, is_empty}
use kumacore.Auth.Repository.{Database}
use kumacore.Auth.Service.{
  Crypto, AuthFaults, World, User, AuthError, invalid_credentials, authenticate, logout,
}

-- The cookie `session`; its other attributes never change.
pub record SessionCookie : Type 0 where
  pub value : Str
  pub expires : ℕ
  pub max_age : ℤ
  pub secure : Bool

pub data Body : Type 0 where
  no_body : Body
  login_page : Option Str → Body
  me_page : Option User → Body
  error_text : Str → Body

pub record Response : Type 0 where
  pub status : ℕ
  pub location : Option Str
  pub cookie : Option SessionCookie
  pub body : Body

-- A page after the status that was written, if any: `http.Error` cannot change that one.
abbrev pub status_or : ℕ → Option ℕ → ℕ
status_or default none = default
status_or default (some status) = status

unfoldable pub rendered : Option ℕ → Option Str → Body → Response
rendered status none page = record {
  status = status_or 200 status;
  location = none;
  cookie = none;
  body = page;
}
rendered status (some render_error) page = record {
  status = status_or 500 status;
  location = none;
  cookie = none;
  body = error_text render_error;
}

abbrev pub see_other : Str → SessionCookie → Response
see_other location cookie = record {
  status = 303;
  location = some location;
  cookie = some cookie;
  body = no_body;
}

-- `Login`
unfoldable pub login : Option Str → Response
unfolding rendered
login render_error = rendered none render_error (login_page none)

pub record Form : Type 0 where
  pub username : Str
  pub password : Str

unfoldable pub answer_login : Bool → Option Str → Result AuthError (Str × ℕ) → Response
unfolding rendered
answer_login secure render_error (err invalid_credentials) =
    rendered (some 403) render_error (login_page (some (str "invalid credentials")))
answer_login secure render_error (err e) =
    rendered (some 500) render_error (login_page (some (str "internal server error")))
answer_login secure render_error (ok (raw_token, expires_at)) =
    see_other (str "/auth/me")
      (record { value = raw_token; expires = expires_at; max_age = pos 0; secure = secure })

module _ (crypto : Crypto) where
  -- `Authenticate`; the form is `none` if it cannot be parsed
  unfoldable pub handle_authenticate :
      AuthFaults
      → ℕ
      → ℤ
      → Option Str
      → Bool
      → Option Str
      → Option Form
      → Database
      → Database × Response
  unfolding answer_login
  handle_authenticate faults now ttl random_token secure render_error none db =
      (db, answer_login secure render_error (err invalid_credentials))
  handle_authenticate faults now ttl random_token secure render_error (some form) db =
      if is_empty form.username || is_empty form.password
      then (db, answer_login secure render_error (err invalid_credentials))
      else (let (db', result) =
            authenticate crypto faults now ttl random_token form.username form.password db in
          (db', answer_login secure render_error result))

  abbrev pub cleared : Bool → SessionCookie
  cleared secure = record { value = []; expires = 0; max_age = negsuc 0; secure = secure }

  -- `Logout`: an error of the service is logged and dropped.
  unfoldable pub handle_logout : AuthFaults → Bool → Option Str → World → World × Response
  handle_logout faults secure none world = (world, see_other (str "/") (cleared secure))
  handle_logout faults secure (some cookie) world =
      ((logout crypto faults cookie world).0, see_other (str "/") (cleared secure))

-- `Me`, with the user that the middleware has put into the context
unfoldable pub me : Option Str → Option User → Response
unfolding rendered
me render_error user = rendered none render_error (me_page user)
