-- ===== src/Auth/Access.antt =====
-- From the logout handler of app/modules/auth/handler.go to the middleware of
-- app/middleware/auth/auth.go.
use kumacore.Prelude.{ℕ, Bool, none, some, ◌≡◌, refl, if◌then◌else◌, ◌==◌, Result-cases, inl, inr}
use kumacore.Prelude.Text.{Str, Eq-str, str}
use kumacore.Auth.Service.{Crypto, AuthFaults, World, logout, user_for_token}
use kumacore.Auth.Middleware.{
  Request, hx_unauthorized, redirect_see_other, require_auth, loaded_user,
}
use kumacore.Auth.Handlers.{handle_logout, cleared, see_other}
use kumacore.Auth.Sessions.{logout-forgets}

module _ (crypto : Crypto) where
  -- Let the logout handler answer a request whose session the service can remove. It clears the
  -- cookie, and a request with the old cookie, taken up in the world that it leaves at any time and
  -- with any faults, is not let through by `RequireAuth`: it gets 401 with the header of HTMX if it is
  -- of HTMX, and a redirect to / otherwise.
  pub require_auth-handle_logout :
      (faults later_faults : AuthFaults) (secure : Bool) (clock now : ℕ) (cookie hx : Str)
      (world : World)
      → (logout crypto faults cookie world).1 ≡ none
      → let (world', response) = handle_logout crypto faults secure (some cookie) world in
        let request : Request = record { session_cookie = some cookie; hx_request = hx } in
        (response ≡ see_other (str "/") (cleared crypto secure))
        × ((require_auth crypto later_faults clock now request world').1 ≡ (
            if hx == str "true" then hx_unauthorized (str "/") else redirect_see_other (str "/")))
  unfolding handle_logout require_auth loaded_user
  require_auth-handle_logout faults later_faults secure clock now cookie hx world h =
      let world' = (logout crypto faults cookie world).0 in
      (
        refl,
        elim (Result-cases (user_for_token crypto later_faults clock now cookie world').1) [
          | inl (user, e) ↦
              absurd (logout-forgets crypto faults later_faults clock now cookie world user h e)
          | inr (e, p) ↦ rw p refl
        ],
      )
