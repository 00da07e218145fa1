-- ===== src/Web/Auth.antt =====
-- modemproxy/web/app.py: the guards _check_credentials, ui_auth, api_auth, admin_auth and
-- customer_auth, the logins and the logouts. `decode` is base64.b64decode with the decoding to text:
-- `none` where it raises.
use modemproxy.Prelude.{
  ℕ, ◌≡◌, sym, ◌∙◌, ◌⊎◌, inl, inr, String, Bool, true, false, ◌&&◌, Option, none, some, arith,
  eq_iff, if◌then◌else◌, ◌==◌, nonempty, truthy_text, or_text, Option-cases, Bool-cases,
}
use modemproxy.Text.Cut.{drop_prefix, split_at, strip}
use modemproxy.Result.{Result, ok, err, http_error}
use modemproxy.Config.{Config}
use modemproxy.Table
use modemproxy.Db.Rows.{ApiKey, Store}
use modemproxy.Db.Keys.{api_key_valid, key_of}
use modemproxy.Services.Customers.{authenticate}

-- The signed session cookie, and the two headers that carry credentials ("" when absent).
pub record Session : Type 0 where
  pub user : Option String
  pub customer : Option String

pub record Request : Type 0 where
  pub session : Session
  pub authorization : String
  pub x_api_key : String

unfoldable pub check_credentials : Config → String → String → Bool
check_credentials cfg user pw = user == cfg.admin_user && pw == cfg.admin_password

-- `raw.partition(":")`, and two empty texts where the header cannot be decoded.
unfoldable pub basic_login : (String → Option String) → String → String × String
basic_login decode encoded = elim (decode encoded) [
  | none ↦ ("", "")
  | some raw ↦ elim (split_at b':' raw) [ none ↦ (raw, "") | some login ↦ login ]
]

abbrev unauthorized : {A : Type 0} → Result A
unauthorized = err (http_error 401 "Unauthorized")

-- The `if header.startswith("Basic ")` of both guards, which ends in the 401.
unfoldable pub basic_auth : Config → (String → Option String) → Request → Result String
unfolding basic_login check_credentials
basic_auth cfg decode r = elim (drop_prefix "Basic " r.authorization) [
  | none ↦ unauthorized
  | some encoded ↦
      let login = basic_login decode encoded in
      if check_credentials cfg login.0 login.1 then ok login.0 else unauthorized
]

-- The key of the request: a Bearer token comes before the X-API-Key header.
unfoldable pub request_key : Request → String
request_key r = elim (drop_prefix "Bearer " r.authorization) [
  | none ↦ r.x_api_key
  | some token ↦ strip token
]

unfoldable pub api_auth :
    Config → (String → Option String) → Request → ℕ → Store → Result String × Store
unfolding request_key
api_auth cfg decode r now s =
    let valid = api_key_valid (request_key r) now s in
    if truthy_text r.session.user
    then (ok (or_text r.session.user ""), s)
    else (if nonempty (request_key r) && valid.0
        then (ok "apikey", valid.1)
        else (basic_auth cfg decode r, valid.1))

unfoldable pub admin_auth : Config → (String → Option String) → Request → Result String
admin_auth cfg decode r =
    if truthy_text r.session.user then ok (or_text r.session.user "") else basic_auth cfg decode r

-- The other two guards answer the page of the login to go to.
pub data Guarded : Type 0 where
  enter : String → Guarded
  redirect : (path : String) → Guarded

unfoldable pub ui_auth : Request → Guarded
ui_auth r =
    if truthy_text r.session.user then enter (or_text r.session.user "") else redirect "/login"

unfoldable pub customer_auth : Request → Guarded
customer_auth r =
    if truthy_text r.session.customer
    then enter (or_text r.session.customer "")
    else redirect "/panel/login"

-- The session after a login, and whether it was let in.
unfoldable pub login_submit : Config → String → String → Session → Bool × Session
login_submit cfg username password session =
    if check_credentials cfg username password
    then (true, record session { user = some username })
    else (false, session)

unfoldable pub logout : Session → Session
logout session = record { user = none; customer = none }

unfoldable pub panel_login_post :
    (String → String → Bool) → String → String → Store → Session → Bool × Session
panel_login_post verify username password s session =
    if authenticate verify username password s
    then (true, record session { customer = some username })
    else (false, session)

unfoldable pub panel_logout : Session → Session
panel_logout session = record session { customer = none }

-- How a request proves that it is the administrator's: its session, or the Basic credentials.
pub data IsAdmin (cfg : Config) (decode : String → Option String) (r : Request) (user : String)
    : Type 0 where
  by_session : r.session.user ≡ some user → IsAdmin cfg decode r user
  by_password :
      (encoded : String)
      → drop_prefix "Basic " r.authorization ≡ some encoded
      → (basic_login decode encoded).0 ≡ user
      → user ≡ cfg.admin_user
      → (basic_login decode encoded).1 ≡ cfg.admin_password
      → IsAdmin cfg decode r user

same_login :
    (cfg : Config) (login : String × String) (user : String)
    → (if check_credentials cfg login.0 login.1 then ok login.0 else unauthorized) ≡ ok user
    → (login.0 ≡ user) × (user ≡ cfg.admin_user) × (login.1 ≡ cfg.admin_password)
unfolding check_credentials
same_login cfg login user h = elim (Bool-cases (check_credentials cfg login.0 login.1)) [
  | inr wrong ↦ absurd (ground (arith, wrong, h))
  | inl right ↦
      let same : login.0 ≡ user = ground (arith, right, h) in
      let name : login.0 ≡ cfg.admin_user = ground (arith, right, eq_iff login.0 cfg.admin_user) in
      (same, sym same ∙ name, ground (arith, right, eq_iff login.1 cfg.admin_password))
]

basic_auth-IsAdmin :
    (cfg : Config) (decode : String → Option String) (r : Request) (user : String)
    → basic_auth cfg decode r ≡ ok user
    → IsAdmin cfg decode r user
unfolding basic_auth
basic_auth-IsAdmin cfg decode r user h =
    elim (Option-cases (drop_prefix "Basic " r.authorization)) [
      | inl e ↦ absurd (ground (arith, e, h))
      | inr (encoded, e) ↦
          let (a, b, c) = same_login cfg (basic_login decode encoded) user (ground (arith, e, h)) in
          by_password encoded e a b c
    ]

session_user :
    (o : Option String) (user : String) → truthy_text o ≡ true → or_text o "" ≡ user → o ≡ some user
session_user none user t h = absurd (cc t)
session_user (some u) user t h = ground (arith, t, h)

-- Whoever passes admin_auth has the session of that user, or sent the administrator's name and
-- password; an API key does not help.
pub admin_auth-IsAdmin :
    (cfg : Config) (decode : String → Option String) (r : Request) (user : String)
    → admin_auth cfg decode r ≡ ok user
    → IsAdmin cfg decode r user
unfolding admin_auth
admin_auth-IsAdmin cfg decode r user h = elim (Bool-cases (truthy_text r.session.user)) [
  | inl t ↦ by_session (session_user r.session.user user t (ground (arith, t, h)))
  | inr t ↦ basic_auth-IsAdmin cfg decode r user (ground (arith, t, h))
]

-- The table has the key that the request sent.
abbrev pub HasKey : Request → Store → Type 0
HasKey r s = (k : ApiKey) × (Table.find key_of (request_key r) s.api_keys ≡ some k)

valid_key :
    (key : String) (now : ℕ) (s : Store)
    → (api_key_valid key now s).0 ≡ true
    → (k : ApiKey) × (Table.find key_of key s.api_keys ≡ some k)
unfolding api_key_valid
valid_key key now s h = elim (Option-cases (Table.find key_of key s.api_keys)) [
  | inl e ↦ absurd (ground (arith, e, h))
  | inr found ↦ found
]

-- Whoever passes api_auth is the administrator in that sense, or is called "apikey" and sent a key
-- that is in the table.
pub api_auth-IsAdmin :
    (cfg : Config) (decode : String → Option String) (r : Request) (now : ℕ) (s : Store)
    (user : String)
    → (api_auth cfg decode r now s).0 ≡ ok user
    → IsAdmin cfg decode r user ⊎ ((user ≡ "apikey") × HasKey r s)
unfolding api_auth
api_auth-IsAdmin cfg decode r now s user h = elim (Bool-cases (truthy_text r.session.user)) [
  | inl t ↦ inl (by_session (session_user r.session.user user t (ground (arith, t, h))))
  | inr t ↦
      elim (Bool-cases (nonempty (request_key r) && (api_key_valid (request_key r) now s).0)) [
        | inl k ↦ inr (ground (arith, t, k, h), valid_key (request_key r) now s (ground (arith, k)))
        | inr k ↦ inl (basic_auth-IsAdmin cfg decode r user (ground (arith, t, k, h)))
      ]
]
