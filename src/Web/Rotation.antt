-- ===== src/Web/Rotation.antt =====
-- modemproxy/web/app.py: rotation_hook, panel_rotate and api_rotate, the three ways to ask for a
-- rotation over HTTP.
use modemproxy.Prelude.{ℕ, String, Bool, true, false, Option, none, some, has_text, if◌then◌else◌}
use modemproxy.Result.{Result, ok, err, Error, mm_error, http_error}
use modemproxy.Db.Ports.{get_port_by_token}
use modemproxy.Db.Customers.{customer_imeis}
use modemproxy.Generator.Sync.{System}
use modemproxy.Manager.{Field, Rotated, RotateOutcome, rotate, error_text}
use modemproxy.Web.{Reply, refuse}

pub data HookAnswer : Type 0 where
  rotating : (imei : String) → HookAnswer
  rotated : Rotated → HookAnswer

-- `503 if isinstance(err, control.MMError) else 500`
unfoldable pub hook_status : Error → ℕ
hook_status (mm_error text) = 503
hook_status other = 500

-- `in_time` says whether the thread ended before the hook answers.
unfoldable pub hook_answer : Bool → String → Result Rotated → Result HookAnswer
unfolding hook_status
hook_answer false imei r = ok (rotating imei)
hook_answer true imei (ok r) = ok (rotated r)
hook_answer true imei (err e) = err (http_error (hook_status e) (error_text e))

-- The state is the one after the thread has ended, which it does on its own if the hook does not wait.
unfoldable pub rotate_thread : Field → Bool → String → ℕ → System → Reply HookAnswer
unfolding hook_answer
rotate_thread field in_time imei now sys =
    let outcome = rotate field imei "hook" now sys in
    record { value = hook_answer in_time imei outcome.value; sys = outcome.sys }

unfoldable pub rotation_hook : (String → Field) → Bool → String → ℕ → System → Reply HookAnswer
unfolding rotate_thread
rotation_hook fields in_time token now sys = elim (get_port_by_token token sys.db) [
  | none ↦ refuse 404 "invalid token" sys
  | some port ↦
      if has_text port.imei sys.config.rotation_hook_exclude
      then refuse 403 "link rotation disabled for this modem" sys
      else rotate_thread (fields port.imei) in_time port.imei now sys
]

panel_answer : Result Rotated → Result Rotated
panel_answer (ok r) = ok r
panel_answer (err e) = err (http_error 400 (error_text e))

panel_run : RotateOutcome → Reply Rotated
unfolding panel_answer
panel_run outcome = record { value = panel_answer outcome.value; sys = outcome.sys }

-- `customer` is who customer_auth let in.
unfoldable pub panel_rotate : Field → String → String → ℕ → System → Reply Rotated
unfolding panel_run
panel_rotate field imei customer now sys =
    if has_text imei (customer_imeis customer sys.db)
    then panel_run (rotate field imei "customer" now sys)
    else refuse 403 "not your proxy" sys

unfoldable pub api_rotate : Field → String → ℕ → System → Reply Rotated
api_rotate field imei now sys =
    let outcome = rotate field imei "api" now sys in
    record { value = outcome.value; sys = outcome.sys }

-- The answer's status, where it is an error.
abbrev pub status_of {ℓ} : {A : Type ℓ} → Result A → Option ℕ
status_of (ok a) = none
status_of (err (http_error code detail)) = some code
status_of (err e) = some 500
