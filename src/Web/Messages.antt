-- ===== src/Web/Messages.antt =====
-- modemproxy/web/app.py: the handlers of SMS.
use modemproxy.Prelude.{
  String, Bool, true, false, ◌&&◌, List, Option, none, some, if◌then◌else◌, nonempty, or_text, keep,
}
use modemproxy.Text.Cut.{strip, split_on}
use modemproxy.Result.{Result, ok, err, Error, netdev_error, http_error}
use modemproxy.Db.Rows.{Store}
use modemproxy.Db.Modems.{get_modem}
use modemproxy.Netdev.Http.{Web, Talk, ◌>>=◌, pure}
use modemproxy.Netdev.Zte.{Site}
use modemproxy.Netdev.Sms.{Cipher, Message, sms_list, sms_send, sms_delete}

-- A NetdevError becomes a 503.
abbrev pub unavailable : Error → Error
unavailable (netdev_error text) = http_error 503 text
unavailable e = e

-- What is answered when the device was told to, and whether it did.
abbrev pub told : String → Result Bool → Result Bool
told failure (ok true) = ok true
told failure (ok false) = err (http_error 502 failure)
told failure (err e) = err (unavailable e)

unfoldable pub api_sms_list : Web → Cipher → Site → String → Store → Talk (Result (List Message))
api_sms_list web cipher site imei s = elim (get_modem imei s) [
  | none ↦ pure (err (http_error 404 "modem not found"))
  | some m ↦ sms_list web cipher site s m >>= λ ms. pure (ok ms)
]

-- `time` is the text of time.strftime.
unfoldable pub api_sms_send :
    Web
    → Cipher
    → Site
    → (imei : String) → (number text : Option String) → (time : String) → Store
    → Talk (Result Bool)
api_sms_send web cipher site imei number text time s =
    let to = strip (or_text number "") in
    let body = or_text text "" in
    elim (get_modem imei s) [
      | none ↦ pure (err (http_error 404 "modem not found"))
      | some m ↦
          if nonempty to && nonempty body
          then (sms_send web cipher site s m to body time >>= λ r. pure (told "send failed" r))
          else pure (err (http_error 400 "number and text required"))
    ]

unfoldable pub api_sms_delete : Web → Site → (imei sms_id : String) → Store → Talk (Result Bool)
api_sms_delete web site imei sms_id s = elim (get_modem imei s) [
  | none ↦ pure (err (http_error 404 "modem not found"))
  | some m ↦ sms_delete web site s m (keep nonempty (split_on b',' sms_id)) >>= λ r.
      pure (told "delete failed" r)
]
