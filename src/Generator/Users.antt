-- ===== src/Generator/Users.antt =====
-- modemproxy/proxy/generator.py: the extra logins of a modem's proxy, and _all_users.
use modemproxy.Prelude.{
  ℕ, String, ◌≡◌, ◌⊎◌, refl, Bool, true, false, not, ◌&&◌, ◌||◌, List, [], ◌∷◌, ◌++◌, Option, none,
  some, arith, eq_iff, ◌==◌, if◌then◌else◌, nonempty, truthy_text, has_text, keep, Option-cases,
  str_refl, inl, inr,
}
use modemproxy.Result.{Result, ok, err, value_error}
use modemproxy.Db.Rows.{Port, ExtraItem, login, junk, ExtraJson, malformed, items, Store}
use modemproxy.Db.Ports.{PortField, get_port, set_port, set_port_ok, set_columns}

-- `json.loads(column or "[]")`, with `[]` for a text that is no JSON.
unfoldable pub extra_list : Option ExtraJson → List ExtraItem
extra_list none = []
extra_list (some malformed) = []
extra_list (some (items xs)) = xs

has_username : ExtraItem → Bool
has_username (login owner username password) = truthy_text username
has_username junk = false

abbrev pub column_of : Option Port → Option ExtraJson
column_of none = none
column_of (some p) = p.extra_users

unfoldable pub list_extra_users : String → Store → List ExtraItem
unfolding extra_list has_username
list_extra_users imei s = keep has_username (extra_list (column_of (get_port imei s)))

-- `u.get("owner") == owner`
owned_by : String → ExtraItem → Bool
owned_by owner (login (some o) username password) = o == owner
owned_by owner (login none username password) = false
owned_by owner junk = false

first_owned : String → List ExtraItem → Option ExtraItem
first_owned owner [] = none
first_owned owner (u ∷ us) = if owned_by owner u then some u else first_owned owner us

unfoldable pub get_extra_user : String → String → Store → Option ExtraItem
unfolding first_owned owned_by
get_extra_user imei owner s = first_owned owner (list_extra_users imei s)

abbrev pub entry : String → String → String → ExtraItem
entry owner username password = login (some owner) (some username) (some password)

-- The entry that is returned is `entry owner username password`.
unfoldable pub set_extra_user : String → String → String → String → ℕ → Store → Result Store
unfolding owned_by
set_extra_user imei owner username password now s = elim (get_port imei s) [
  | none ↦ err (value_error "no proxy configured")
  | some _ ↦
      if not (nonempty username) || not (nonempty password)
      then err (value_error "username and password required")
      else set_port imei
          (PortField.extra_users (
              some (
                items (
                  keep (λ u. not (owned_by owner u)) (list_extra_users imei s)
                  ++ entry owner username password ∷ [])))
            ∷ [])
          now s
]

unfoldable pub remove_extra_user : String → String → ℕ → Store → Result Store
unfolding owned_by
remove_extra_user imei owner now s = elim (get_port imei s) [
  | none ↦ ok s
  | some _ ↦
      set_port imei
        (PortField.extra_users
            (some (items (keep (λ u. not (owned_by owner u)) (list_extra_users imei s))))
          ∷ [])
        now s
]

pub record Credential : Type 0 where
  pub username : String
  pub password : String

-- `isinstance(u, dict) and u.get("username") and u.get("password")`
credential : ExtraItem → Option Credential
credential (login owner (some u) (some p)) =
    if nonempty u && nonempty p then some (record { username = u; password = p }) else none
credential u = none

-- … and `u["username"] not in seen`
new_login : List String → ExtraItem → Option Credential
unfolding credential
new_login seen u = elim (credential u) [
  | none ↦ none
  | some c ↦ if has_text c.username seen then none else some c
]

fresh_logins : List String → List ExtraItem → List Credential
fresh_logins seen [] = []
fresh_logins seen (u ∷ us) = elim (new_login seen u) [
  | none ↦ fresh_logins seen us
  | some c ↦ c ∷ fresh_logins (c.username ∷ seen) us
]

unfoldable pub main_login : Option String → Option String → List Credential
main_login (some u) (some p) =
    if nonempty u && nonempty p then record { username = u; password = p } ∷ [] else []
main_login u p = []

abbrev pub usernames : List Credential → List String
usernames [] = []
usernames (c ∷ cs) = c.username ∷ usernames cs

-- The main login, then the extra ones whose user name is new.
unfoldable pub all_users : Port → List Credential
unfolding fresh_logins new_login main_login extra_list
all_users p =
    let main = main_login p.username p.password in
    main ++ fresh_logins (usernames main) (extra_list p.extra_users)

-- No user name stands twice, and none of them is among `seen`.
abbrev pub Fresh : List String → List Credential → Type 0
Fresh seen [] = Unit
Fresh seen (c ∷ cs) = (has_text c.username seen ≡ false) × Fresh (c.username ∷ seen) cs

new_login_fresh :
    (seen : List String) (u : ExtraItem) (c : Credential)
    → new_login seen u ≡ some c
    → has_text c.username seen ≡ false
unfolding new_login
new_login_fresh seen u c h = ground arith

fresh_logins-Fresh : (seen : List String) (us : List ExtraItem) → Fresh seen (fresh_logins seen us)
unfolding fresh_logins
fresh_logins-Fresh seen [] = tt
fresh_logins-Fresh seen (u ∷ us) = elim (Option-cases (new_login seen u)) [
  | inl e ↦ rw (e, fresh_logins, Fresh) (fresh_logins-Fresh seen us)
  | inr (c, e) ↦
      rw (e, fresh_logins, Fresh)
        (new_login_fresh seen u c e, fresh_logins-Fresh (c.username ∷ seen) us)
]

main_login-cases :
    (u p : Option String) → (main_login u p ≡ []) ⊎ ((c : Credential) × (main_login u p ≡ c ∷ []))
unfolding main_login
main_login-cases u p = ground arith

-- Whether a list of items has a complete login of that user name.
unfoldable pub offers : String → List ExtraItem → Bool
unfolding credential
offers name [] = false
offers name (u ∷ us) = elim (credential u) [
  | none ↦ offers name us
  | some c ↦ c.username == name || offers name us
]

fresh_logins_cover :
    (name : String) (seen : List String) (us : List ExtraItem)
    → (has_text name seen || has_text name (usernames (fresh_logins seen us)))
      ≡ (has_text name seen || offers name us)
unfolding fresh_logins new_login offers has_text
fresh_logins_cover name seen [] = refl
fresh_logins_cover name seen (u ∷ us) = elim (Option-cases (credential u)) [
  | inl e ↦ rw (e, new_login, fresh_logins, offers) (fresh_logins_cover name seen us)
  | inr (c, e) ↦ ground (
    arith,
    e,
    fresh_logins_cover name seen us,
    fresh_logins_cover name (c.username ∷ seen) us,
    eq_iff c.username name,
  )
]

-- The proxy accepts each user name once: that of the main login, if it is complete, and those of
-- the complete extra logins.
pub all_users_lem :
    (p : Port) (name : String)
    → Fresh [] (all_users p)
      × (has_text name (usernames (all_users p)) ≡ (
          has_text name (usernames (main_login p.username p.password))
          || offers name (extra_list p.extra_users)))
unfolding all_users has_text
all_users_lem p name = elim (main_login-cases p.username p.password) [
  | inl e ↦ rw e (
    fresh_logins-Fresh [] (extra_list p.extra_users),
    fresh_logins_cover name [] (extra_list p.extra_users),
  )
  | inr (c, e) ↦ rw e (
    (refl, fresh_logins-Fresh (c.username ∷ []) (extra_list p.extra_users)),
    ground (arith, fresh_logins_cover name (c.username ∷ []) (extra_list p.extra_users)),
  )
]

-- Storing an owner's entry in place of the old one.
first_owned-set :
    (owner other username password : String) (us : List ExtraItem)
    → nonempty username ≡ true
    → first_owned other (
        keep has_username (
          keep (λ u. not (owned_by owner u)) (keep has_username us)
          ++ entry owner username password ∷ []))
      ≡ (if owner == other
          then some (entry owner username password)
          else first_owned other (keep has_username us))
unfolding first_owned has_username owned_by
first_owned-set owner other username password [] pos = ground arith
first_owned-set owner other username password (login none u p ∷ us) pos =
    ground (arith, first_owned-set owner other username password us pos)
first_owned-set owner other username password (login (some o) u p ∷ us) pos = ground (
  arith,
  first_owned-set owner other username password us pos,
  eq_iff o owner,
  eq_iff o other,
  eq_iff owner other,
)
first_owned-set owner other username password (junk ∷ us) pos =
    first_owned-set owner other username password us pos

first_owned-remove :
    (owner other : String) (us : List ExtraItem)
    → first_owned other
        (keep has_username (keep (λ u. not (owned_by owner u)) (keep has_username us)))
      ≡ (if owner == other then none else first_owned other (keep has_username us))
unfolding first_owned has_username owned_by
first_owned-remove owner other [] = ground arith
first_owned-remove owner other (login none u p ∷ us) =
    ground (arith, first_owned-remove owner other us)
first_owned-remove owner other (login (some o) u p ∷ us) =
    ground
      (arith, first_owned-remove owner other us, eq_iff o owner, eq_iff o other, eq_iff owner other)
first_owned-remove owner other (junk ∷ us) = first_owned-remove owner other us

list_extra_users-set_port :
    (imei : String) (xs : List ExtraItem) (now : ℕ) (s t : Store)
    → set_port imei (PortField.extra_users (some (items xs)) ∷ []) now s ≡ ok t
    → list_extra_users imei t ≡ keep has_username xs
unfolding list_extra_users set_columns
list_extra_users-set_port imei xs now s t h =
    let row = (set_port_ok imei imei (PortField.extra_users (some (items xs)) ∷ []) now s t h).0 in
    rw (row, str_refl imei)

-- What a set_extra_user that goes through has checked and written.
set_extra_user_ok :
    (imei owner username password : String) (now : ℕ) (s t : Store)
    → set_extra_user imei owner username password now s ≡ ok t
    → (nonempty username ≡ true)
      × (nonempty password ≡ true)
      × (set_port imei
            (PortField.extra_users (
                some (
                  items (
                    keep (λ u. not (owned_by owner u)) (list_extra_users imei s)
                    ++ entry owner username password ∷ [])))
              ∷ [])
            now
            s
          ≡ ok t)
unfolding set_extra_user
set_extra_user_ok imei owner username password now s t h = ground arith

-- A set_extra_user that goes through gives the owner the new login and leaves the other owners'
-- logins of the modem as they were.
pub get_extra_user-set_extra_user :
    (imei owner other username password : String) (now : ℕ) (s t : Store)
    → set_extra_user imei owner username password now s ≡ ok t
    → get_extra_user imei other t ≡ (
        if owner == other
        then some (entry owner username password)
        else get_extra_user imei other s)
unfolding get_extra_user list_extra_users
get_extra_user-set_extra_user imei owner other username password now s t h =
    let checked = set_extra_user_ok imei owner username password now s t h in
    rw
      (list_extra_users-set_port imei
        (keep (λ u. not (owned_by owner u)) (list_extra_users imei s)
          ++ entry owner username password ∷ [])
        now s t checked.2)
      (first_owned-set owner other username password (extra_list (column_of (get_port imei s)))
        checked.0)

-- remove_extra_user takes away that owner's logins of the modem and no others.
pub get_extra_user-remove_extra_user :
    (imei owner other : String) (now : ℕ) (s t : Store)
    → remove_extra_user imei owner now s ≡ ok t
    → get_extra_user imei other t ≡ (if owner == other then none else get_extra_user imei other s)
unfolding get_extra_user list_extra_users remove_extra_user
get_extra_user-remove_extra_user imei owner other now s t h =
    elim (Option-cases (get_port imei s)) [
      | inl e ↦ ground (arith, e)
      | inr (p, e) ↦
          rw
            (list_extra_users-set_port imei
              (keep (λ u. not (owned_by owner u)) (list_extra_users imei s)) now s t
              (ground (arith, e)))
            (first_owned-remove owner other (extra_list (column_of (get_port imei s))))
    ]

pub get_extra_user-column :
    (j other : String) (s t : Store)
    → column_of (get_port j t) ≡ column_of (get_port j s)
    → get_extra_user j other t ≡ get_extra_user j other s
unfolding get_extra_user list_extra_users
get_extra_user-column j other s t h = rw h refl

-- Both calls write the column of the extra logins and no other.
pub set_extra_user_row :
    (imei owner username password : String) (now : ℕ) (s t : Store)
    → set_extra_user imei owner username password now s ≡ ok t
    → (xs : ExtraJson) × (set_port imei (PortField.extra_users (some xs) ∷ []) now s ≡ ok t)
set_extra_user_row imei owner username password now s t h =
    (_, (set_extra_user_ok imei owner username password now s t h).2)

pub remove_extra_user_row :
    (imei owner : String) (now : ℕ) (s t : Store)
    → remove_extra_user imei owner now s ≡ ok t
    → (t ≡ s)
      ⊎ ((xs : ExtraJson) × (set_port imei (PortField.extra_users (some xs) ∷ []) now s ≡ ok t))
unfolding remove_extra_user
remove_extra_user_row imei owner now s t h = elim (Option-cases (get_port imei s)) [
  | inl e ↦ inl (ground (arith, e, h))
  | inr (p, e) ↦
      inr
        (items (keep (λ u. not (owned_by owner u)) (list_extra_users imei s)), ground (arith, e, h))
]
