-- ===== src/Web.antt =====
-- modemproxy/web/app.py: what the handlers of the panel and of the JSON API answer and leave.
pub mod Auth
pub mod Pool
pub mod Rotation
pub mod Modems
pub mod Admin
pub mod Cookies
pub mod Scans
pub mod Messages
pub mod Radio
use modemproxy.Prelude.{ℕ, String, Bool, true, false, Option, none, some}
use modemproxy.Result.{Result, ok, err, Error, http_error}
use modemproxy.Generator.Sync.{System}

-- The answer of a handler, an HTTPException with its status code included, and the state it leaves.
pub record Reply {ℓ} (A : Type ℓ) : Type ℓ where
  pub value : Result A
  pub sys : System

abbrev pub refuse {ℓ} : {A : Type ℓ} → ℕ → String → System → Reply A
refuse code detail sys = record { value = err (http_error code detail); sys = sys }
