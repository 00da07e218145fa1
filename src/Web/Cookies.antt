-- ===== src/Web/Cookies.antt =====
-- modemproxy/web/app.py: the cookies of the devices on the panel's origin (_router_cookie_prefix,
-- _cookies_for_router, _namespace_set_cookie).
use modemproxy.Prelude.{String, List, [], ◌∷◌, Option, none, some}
use modemproxy.Text.{◌<>◌, underscored}
use modemproxy.Text.Cut.{split_on, split_at, strip, drop_prefix, join}

unfoldable pub router_cookie_prefix : String → String
unfolding underscored
router_cookie_prefix imei = "mpr_" <> underscored imei <> "__"

-- `name, _, value = part.strip().partition("=")`
abbrev pub cookie_of : String → String × String
cookie_of part = elim (split_at b'=' (strip part)) [ none ↦ (strip part, "") | some c ↦ c ]

unfoldable pub own_cookies : String → List String → List String
own_cookies prefix [] = []
own_cookies prefix (part ∷ parts) = elim (drop_prefix prefix (cookie_of part).0) [
  | none ↦ own_cookies prefix parts
  | some name ↦ (name <> "=" <> (cookie_of part).1) ∷ own_cookies prefix parts
]

unfoldable pub cookies_for_router : Option String → String → String
unfolding own_cookies
cookies_for_router header prefix =
    join "; " (own_cookies prefix (split_on b';' (elim header [ none ↦ "" | some h ↦ h ])))

unfoldable pub namespace_set_cookie : String → String → String
namespace_set_cookie value prefix = elim (split_at b'=' value) [
  | none ↦ value
  | some (name, rest) ↦ prefix <> strip name <> "=" <> rest
]
