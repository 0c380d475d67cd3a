-- ===== src/Auth/Middleware.antt =====
-- app/middleware/auth/auth.go: `LoadAuth` and `RequireAuth`, up to the handler that they wrap. The
-- cookie, the header and the result of `UserForToken` decide what is done with a request.
use kumacore.Prelude.{ℕ, Option, none, some, Result, ok, err, if◌then◌else◌, ◌==◌}
use kumacore.Prelude.Text.{Str, Eq-str, str}
use kumacore.Auth.Service.{Crypto, AuthFaults, World, User, AuthError, user_for_token}

-- The request as the middlewares read it: its session cookie and its `HX-Request` header.
pub record Request : Type 0 where
  pub session_cookie : Option Str
  pub hx_request : Str

-- What happens to it: the wrapped handler is called, with the user in the context if there is one,
-- or a response is written.
pub data Outcome : Type 0 where
  next_handler : Option User → Outcome
  hx_unauthorized : Str → Outcome
  redirect_see_other : Str → Outcome

abbrev pub user_of : Result AuthError User → Option User
user_of (ok user) = some user
user_of (err e) = none

module _ (crypto : Crypto) where
  unfoldable pub loaded_user : AuthFaults → ℕ → ℕ → Option Str → World → World × Option User
  loaded_user faults clock now none world = (world, none)
  loaded_user faults clock now (some cookie) world =
      let (world', result) = user_for_token crypto faults clock now cookie world in
      (world', user_of result)

  -- `LoadAuth`
  unfoldable pub load_auth : AuthFaults → ℕ → ℕ → Request → World → World × Outcome
  unfolding loaded_user
  load_auth faults clock now request world =
      let (world', user) = loaded_user faults clock now request.session_cookie world in
      (world', next_handler user)

  abbrev require_user : Request → Option User → Outcome
  require_user request (some user) = next_handler (some user)
  require_user request none =
      if request.hx_request == str "true"
      then hx_unauthorized (str "/")
      else redirect_see_other (str "/")

  -- `RequireAuth`
  unfoldable pub require_auth : AuthFaults → ℕ → ℕ → Request → World → World × Outcome
  unfolding loaded_user
  require_auth faults clock now request world =
      let (world', user) = loaded_user faults clock now request.session_cookie world in
      (world', require_user request user)
