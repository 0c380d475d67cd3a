-- ===== src/Auth/Repository.antt =====
-- app/repositories/auth/repository.go: `SQLRepository`, over the tables of
-- app/migrations/sqlite/app/0001_create_auth_tables.sql and the statements of its queries/*.sql. A
-- time is a Unix time in seconds. A call that the driver fails is given its error.
use kumacore.Prelude.{
  ℕ, not, Option, none, some, List, [], ◌∷◌, ◌++◌, map, filter, Result, ok, err, if◌then◌else◌,
  ◌==◌, ltb,
}
use kumacore.Prelude.Text.{Str, Eq-str}

pub record UserRow : Type 0 where
  pub id : Str
  pub username : Str
  pub password_hash : Str
  pub last_login_at : Option ℕ

pub record SessionRow : Type 0 where
  pub token_hash : Str
  pub user_id : Str
  pub created_at : ℕ
  pub expires_at : ℕ

-- A role of a user, with the permissions that the join with `roles` gives it.
pub record UserRole : Type 0 where
  pub user_id : Str
  pub permissions : ℕ

pub record Database : Type 0 where
  pub users : List UserRow
  pub sessions : List SessionRow
  pub users_roles : List UserRole

pub data DbError : Type 0 where
  no_rows : DbError
  unique : DbError
  foreign_key : DbError
  driver : Str → DbError

pub record Credentials : Type 0 where
  pub user_id : Str
  pub password_hash : Str

pub record SessionUser : Type 0 where
  pub id : Str
  pub username : Str
  pub expires_at : ℕ

abbrev pub or_fault : {A : Type 0} → Option DbError → Result DbError A → Result DbError A
or_fault none r = r
or_fault (some e) r = err e

abbrev pub or_no_rows : {A : Type 0} → Option A → Result DbError A
or_no_rows none = err no_rows
or_no_rows (some a) = ok a

-- find_credentials_by_username.sql
unfoldable pub find_credentials : Str → List UserRow → Option Credentials
find_credentials username [] = none
find_credentials username (user ∷ users) =
    if user.username == username
    then some (record { user_id = user.id; password_hash = user.password_hash })
    else find_credentials username users

unfoldable pub find_credentials_by_username :
    Option DbError → Str → Database → Result DbError Credentials
find_credentials_by_username fault username db =
    or_fault fault (or_no_rows (find_credentials username db.users))

unfoldable pub find_user : Str → List UserRow → Option UserRow
find_user i [] = none
find_user i (user ∷ users) = if user.id == i then some user else find_user i users

unfoldable pub find_token : Str → List SessionRow → Option SessionRow
find_token token_hash [] = none
find_token token_hash (session ∷ sessions) =
    if session.token_hash == token_hash then some session else find_token token_hash sessions

-- create_session.sql, with the primary key and the reference to the user
unfoldable pub create_session :
    Option DbError → Str → Str → ℕ → ℕ → Database → Result DbError Database
create_session (some e) token_hash user_id created_at expires_at db = err e
create_session none token_hash user_id created_at expires_at db =
    elim (find_token token_hash db.sessions) [
      | some session ↦ err unique
      | none ↦ elim (find_user user_id db.users) [
        | none ↦ err foreign_key
        | some user ↦ ok (record db {
          sessions =
              db.sessions
              ++ record {
                token_hash = token_hash;
                user_id = user_id;
                created_at = created_at;
                expires_at = expires_at;
              }
                ∷ [];
        })
      ]
    ]

-- update_user_last_login.sql
unfoldable pub update_user_last_login :
    Option DbError → Str → ℕ → Database → Result DbError Database
update_user_last_login (some e) i now db = err e
update_user_last_login none i now db = ok (record db {
  users =
      map (λ user. if user.id == i then record user { last_login_at = some now } else user)
        db.users;
})

-- delete_session.sql
unfoldable pub drop_token : Str → List SessionRow → List SessionRow
unfolding filter
drop_token token_hash sessions = filter (λ session. not (session.token_hash == token_hash)) sessions

unfoldable pub delete_session : Option DbError → Str → Database → Result DbError Database
unfolding drop_token
delete_session (some e) token_hash db = err e
delete_session none token_hash db = ok (record db { sessions = drop_token token_hash db.sessions })

-- find_session_user.sql: the session that has not expired, joined with its user
unfoldable pub join_user : ℕ → Option SessionRow → List UserRow → Option SessionUser
join_user now none users = none
join_user now (some session) users =
    if ltb now session.expires_at
    then elim (find_user session.user_id users) [
      | none ↦ none
      | some user ↦ some (record {
        id = session.user_id;
        username = user.username;
        expires_at = session.expires_at;
      })
    ]
    else none

unfoldable pub find_session_user : Option DbError → Str → ℕ → Database → Result DbError SessionUser
unfolding join_user
find_session_user fault token_hash now db =
    or_fault fault (or_no_rows (join_user now (find_token token_hash db.sessions) db.users))

-- list_user_role_permissions.sql
unfoldable pub permissions_of : Str → List UserRole → List ℕ
permissions_of i [] = []
permissions_of i (role ∷ roles) =
    let rest = permissions_of i roles in if role.user_id == i then role.permissions ∷ rest else rest

unfoldable pub list_user_role_permissions :
    Option DbError → Str → Database → Result DbError (List ℕ)
unfolding permissions_of
list_user_role_permissions fault i db = or_fault fault (ok (permissions_of i db.users_roles))
