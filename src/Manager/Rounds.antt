-- ===== src/Manager/Rounds.antt =====
-- modemproxy/modems/manager.py: rotate_all and rotate_due, reset_modem and send_ussd.
use modemproxy.Prelude.{
  ℕ, String, List, [], ◌∷◌, none, some, map, keep, ◌==◌, nonempty, if◌then◌else◌,
}
use modemproxy.Text.{◌<>◌}
use modemproxy.Result.{Result, ok, err, mm_error, ◌>>=◌}
use modemproxy.Db.Listing.{list_modems}
use modemproxy.Db.Rotation.{due_for_rotation}
use modemproxy.Generator.Sync.{System}
use modemproxy.Control.{Shell, mm_id_for, reset, send_ussd}
use modemproxy.Manager.{Field, Rotated, rotate}

pub record Rotations : Type 0 where
  pub value : Result (List Rotated)
  pub sys : System

also : Rotated → Rotations → Rotations
also r later = elim later.value [ ok rs ↦ record later { value = ok (r ∷ rs) } | err e ↦ later ]

-- `[rotate(imei, reason) for imei in imeis]`: the first exception ends it.
unfoldable pub rotate_each : (String → Field) → String → List String → ℕ → System → Rotations
unfolding also
rotate_each fields reason [] now sys = record { value = ok []; sys = sys }
rotate_each fields reason (imei ∷ imeis) now sys =
    let first = rotate (fields imei) imei reason now sys in
    let later = rotate_each fields reason imeis now first.sys in
    elim first.value [ ok r ↦ also r later | err e ↦ record { value = err e; sys = first.sys } ]

unfoldable pub rotate_all : (String → Field) → String → ℕ → System → Rotations
unfolding rotate_each
rotate_all fields reason now sys =
    rotate_each fields reason
      (map (λ l. l.modem.imei) (keep (λ l. l.modem.status == "online") (list_modems sys.db))) now
      sys

-- The loop of rotate_due: an MMError passes over the modem, any other exception ends it.
unfoldable pub rotate_those : (String → Field) → String → List String → ℕ → System → Rotations
unfolding also
rotate_those fields reason [] now sys = record { value = ok []; sys = sys }
rotate_those fields reason (imei ∷ imeis) now sys =
    let first = rotate (fields imei) imei reason now sys in
    let later = rotate_those fields reason imeis now first.sys in
    elim first.value [
      | ok r ↦ also r later
      | err e ↦ elim e [
        | mm_error text ↦ later
        | other ↦ record { value = err other; sys = first.sys }
      ]
    ]

unfoldable pub rotate_due : (String → Field) → String → ℕ → System → Rotations
unfolding rotate_those
rotate_due fields reason now sys = rotate_those fields reason (due_for_rotation now sys.db) now sys

-- What an operation does with the id of a modem that ModemManager drives.
unfoldable pub with_id : Shell → String → (String → Result String) → Result String
with_id shell imei go = mm_id_for shell imei >>= λ found. elim found [
  | none ↦ err (mm_error ("modem " <> imei <> " not present"))
  | some mid ↦ if nonempty mid then go mid else err (mm_error ("modem " <> imei <> " not present"))
]

unfoldable pub reset_modem : Shell → String → Result String
unfolding with_id
reset_modem shell imei = with_id shell imei (reset shell)

unfoldable pub ask_ussd : Shell → String → String → Result String
unfolding with_id
ask_ussd shell imei dialled = with_id shell imei (λ mid. send_ussd shell mid dialled)
