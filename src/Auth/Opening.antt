-- ===== src/Auth/Opening.antt =====
-- What a login of app/services/auth leaves in the database.
use kumacore.Prelude.{
  ℕ, ℤ, later_by, true, Option, none, some, List, [], ◌∷◌, ◌++◌, ok, err, ◌≡◌, inl, inr, arith,
  Bool-cases, Option-cases, Result-cases,
}
use kumacore.Prelude.Text.{Str, Eq-str, str_eq_iff}
use kumacore.Auth.Repository.{
  Database, SessionRow, Credentials, DbError, find_token, find_credentials,
  find_credentials_by_username, create_session, update_user_last_login,
}
use kumacore.Auth.Service.{
  AuthError, AuthFaults, Crypto, unix, open_session, known_or_dummy, authenticate,
}

pub find_token-append :
    (h : Str) (sessions : List SessionRow) (new session : SessionRow)
    → find_token h sessions ≡ some session
    → find_token h (sessions ++ new ∷ []) ≡ some session
unfolding find_token
find_token-append h [] new session p = cc
find_token-append h (s ∷ sessions) new session p =
    ground (arith, find_token-append h sessions new session)

pub find_token-new :
    (h : Str) (sessions : List SessionRow) (new : SessionRow)
    → find_token h sessions ≡ none
    → new.token_hash ≡ h
    → find_token h (sessions ++ new ∷ []) ≡ some new
unfolding find_token
find_token-new h [] new p e = ground (arith, str_eq_iff new.token_hash h)
find_token-new h (s ∷ sessions) new p e = ground (arith, find_token-new h sessions new)

abbrev pub new_session : Str → Str → ℕ → ℕ → SessionRow
new_session token_hash user_id created_at expires_at = record {
  token_hash = token_hash;
  user_id = user_id;
  created_at = created_at;
  expires_at = expires_at;
}

pub create_session-ok :
    (fault : Option DbError) (h user_id : Str) (created expires : ℕ) (db : Database)
    {db' : Database}
    → create_session fault h user_id created expires db ≡ ok db'
    → (find_token h db.sessions ≡ none)
      × (db'.sessions ≡ db.sessions ++ new_session h user_id created expires ∷ [])
unfolding create_session
create_session-ok fault h user_id created expires db p = ground arith

module _ (crypto : Crypto) (faults : AuthFaults) (now : ℕ) (ttl : ℤ) where
  pub open_session-ok :
      (raw_token : Str) (credentials : Credentials) (db : Database) {t : Str × ℕ}
      → (open_session crypto faults now ttl raw_token credentials db).1 ≡ ok t
      → (t ≡ (raw_token, later_by now ttl))
        × (find_token (crypto.hash_token raw_token) db.sessions ≡ none)
        × ((open_session crypto faults now ttl raw_token credentials db).0.sessions
            ≡ db.sessions
              ++ new_session
                  (crypto.hash_token raw_token)
                  credentials.user_id
                  (unix now)
                  (unix (later_by now ttl))
                ∷ [])
  unfolding open_session update_user_last_login
  open_session-ok raw_token credentials db {t} h =
      elim (Result-cases (
        create_session faults.at_create (crypto.hash_token raw_token) credentials.user_id (unix now)
          (unix (later_by now ttl)) db)) [
            | inr (e, p) ↦ absurd (ground arith)
            | inl (db1, p) ↦
                let (fresh, added) =
                  create_session-ok faults.at_create (crypto.hash_token raw_token)
                    credentials.user_id (unix now) (unix (later_by now ttl)) db p in
                (ground arith, fresh, ground arith)
          ]

  open_session-err :
      (raw_token : Str) (credentials : Credentials) (db : Database) {e : AuthError}
      → (open_session crypto faults now ttl raw_token credentials db).1 ≡ err e
      → (open_session crypto faults now ttl raw_token credentials db).0 ≡ db
  unfolding open_session
  open_session-err raw_token credentials db h = ground arith

  -- What a login that succeeds has established.
  pub record IsLogin (random_token : Option Str) (username password : Str) (db db' : Database)
      (raw_token : Str) (expires_at : ℕ) : Type 0 where
    pub credentials : Credentials
    pub known : find_credentials username db.users ≡ some credentials
    pub matches : crypto.password_matches credentials.password_hash password ≡ true
    pub token : random_token ≡ some raw_token
    pub expiry : expires_at ≡ later_by now ttl
    pub fresh : find_token (crypto.hash_token raw_token) db.sessions ≡ none
    pub opened :
        db'.sessions
        ≡ db.sessions
          ++ new_session
              (crypto.hash_token raw_token)
              credentials.user_id
              (unix now)
              (unix expires_at)
            ∷ []

  pub authenticate-ok :
      (random_token : Option Str) (username password : Str) (db : Database) {t : Str} {x : ℕ}
      → (authenticate crypto faults now ttl random_token username password db).1 ≡ ok (t, x)
      → IsLogin random_token username password db
          (authenticate crypto faults now ttl random_token username password db).0
          t
          x
  unfolding authenticate find_credentials_by_username
  authenticate-ok random_token username password db {t} {x} h =
      elim (Option-cases faults.at_credentials) [
        | inr (e, p) ↦ absurd (ground arith)
        | inl p ↦ elim (Option-cases (find_credentials username db.users)) [
          | inl q ↦ absurd (ground arith)
          | inr (credentials, q) ↦
              elim (Bool-cases (crypto.password_matches credentials.password_hash password)) [
                | inr wrong ↦ absurd (ground arith)
                | inl right ↦ elim (Option-cases random_token) [
                  | inl none_left ↦ absurd (ground arith)
                  | inr (raw_token, drawn) ↦
                      let (same, fresh, opened) =
                        open_session-ok raw_token credentials db {t = (t, x)} (ground arith) in
                      record {
                        credentials = credentials;
                        known = q;
                        matches = right;
                        token = ground arith;
                        expiry = ground arith;
                        fresh = ground arith;
                        opened = ground arith;
                      }
                ]
              ]
        ]
      ]

  pub authenticate-err :
      (random_token : Option Str) (username password : Str) (db : Database) {e : AuthError}
      → (authenticate crypto faults now ttl random_token username password db).1 ≡ err e
      → (authenticate crypto faults now ttl random_token username password db).0 ≡ db
  unfolding authenticate
  authenticate-err random_token username password db {e} h =
      elim (Result-cases (
        known_or_dummy crypto.dummy_password_hash
          (find_credentials_by_username faults.at_credentials username db))) [
            | inr (e', p) ↦ ground arith
            | inl ((user_found, credentials), p) ↦ elim (Option-cases random_token) [
              | inl q ↦ ground arith
              | inr (raw_token, q) ↦
                  ground (arith, open_session-err raw_token credentials db {e = e})
            ]
          ]
