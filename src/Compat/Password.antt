-- ===== src/Compat/Password.antt =====
-- modemproxy/web/compat.py: api_password.
use modemproxy.Prelude.{
  ◌≡◌, String, Bool, Option, none, some, arith, if◌then◌else◌, nonempty, Bool-cases, inl, inr,
  Option-cases,
}
use modemproxy.Config.{Config}

-- The cached configuration, the one in the file, and the module's `_generated`.
pub record Process : Type 0 where
  pub cached : Config
  pub file : Config
  pub generated : Option String

abbrev saved : Bool → String → Process → Process
saved writable password p =
    if writable
    then record {
      cached = record p.file { compat_api_password = password };
      file = record p.file { compat_api_password = password };
      generated = some password;
    }
    else record p { generated = some password }

generate : Bool → String → Process → String × Process
generate writable fresh p = elim p.generated [
  | some password ↦ (password, p)
  | none ↦ (fresh, saved writable fresh p)
]

-- `fresh` is secrets.token_urlsafe(18); `writable` says whether update_config goes through.
unfoldable pub api_password : Bool → String → Process → String × Process
unfolding generate
api_password writable fresh p =
    let reloaded = record p { cached = p.file } in
    if nonempty p.cached.compat_api_password
    then (p.cached.compat_api_password, p)
    else (if nonempty p.file.compat_api_password
        then (p.file.compat_api_password, reloaded)
        else generate writable fresh reloaded)

-- Once answered, the storefront's password stays the same, whatever is drawn later and whether or not
-- the configuration file can be written, then or later.
pub api_password-api_password :
    (writable later : Bool) (fresh fresh' : String) (p : Process)
    → (api_password later fresh' (api_password writable fresh p).1).0
      ≡ (api_password writable fresh p).0
unfolding api_password
api_password-api_password writable later fresh fresh' p =
    elim (Bool-cases (nonempty p.cached.compat_api_password)) [
      | inl a ↦ ground (arith, a)
      | inr a ↦ elim (Bool-cases (nonempty p.file.compat_api_password)) [
        | inl b ↦ ground (arith, a, b)
        | inr b ↦ ground (arith, a, b, Option-cases p.generated)
      ]
    ]
