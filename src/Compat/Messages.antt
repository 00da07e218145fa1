-- ===== src/Compat/Messages.antt =====
-- modemproxy/web/compat.py: the storefront's handlers of SMS.
use modemproxy.Prelude.{
  String, Bool, true, ◌&&◌, List, [], ◌∷◌, Option, if◌then◌else◌, nonempty, or_text, truthy_text,
  keep, map,
}
use modemproxy.Text.Cut.{strip}
use modemproxy.Result.{Result, ok, err, http_error}
use modemproxy.Db.Rows.{Modem, Store}
use modemproxy.Netdev.Http.{Web, Talk, ◌>>=◌, pure}
use modemproxy.Netdev.Zte.{Site}
use modemproxy.Netdev.Sms.{Cipher, Message, sms_list, sms_send, sms_delete}
use modemproxy.Web.Messages.{unavailable, told}
use modemproxy.Compat.{resolve}

-- {Phone, Content, Date, ID}
pub record Inbound : Type 0 where
  pub phone : String
  pub content : String
  pub date : String
  pub id : String

unfoldable pub inbound : List Message → List Inbound
inbound [] = []
inbound (m ∷ ms) =
    let rest = inbound ms in
    if m.outbound
    then rest
    else record { phone = m.number; content = m.text; date = m.date; id = m.id } ∷ rest

-- The rest of a handler on the device that its argument names.
on_device : {A : Type 0} → Option String → Store → (Modem → Talk (Result A)) → Talk (Result A)
on_device arg s go = elim (resolve arg s) [ ok r ↦ go r.modem | err e ↦ pure (err e) ]

unfoldable pub modem_sms :
    Web → Cipher → Site → Option String → Store → Talk (Result (List Inbound))
unfolding on_device
modem_sms web cipher site arg s =
    on_device arg s (λ m. sms_list web cipher site s m >>= λ ms. pure (ok (inbound ms)))

-- `a or b or ""`
first_text : Option String → Option String → String
first_text a b = if truthy_text a then or_text a "" else or_text b ""

-- The fields of the body, each under its two names.
pub record SmsBody : Type 0 where
  pub imei : Option String
  pub phone : Option String
  pub number : Option String
  pub sms : Option String
  pub message : Option String

unfoldable pub modem_send_sms :
    Web → Cipher → Site → SmsBody → (time : String) → Store → Talk (Result Bool)
unfolding on_device first_text
modem_send_sms web cipher site body time s =
    let phone = strip (first_text body.phone body.number) in
    let text = first_text body.sms body.message in
    on_device body.imei s (λ m.
      if nonempty phone && nonempty text
      then (sms_send web cipher site s m phone text time >>= λ r. pure (told "send failed" r))
      else pure (err (http_error 400 "phone and sms required")))

abbrev ids_of : List Message → List String
ids_of ms = keep nonempty (map (λ (m : Message). m.id) ms)

-- Whether the device did delete them is not looked at.
asked_to : Result Bool → Result Bool
asked_to (ok gone) = ok true
asked_to (err e) = err (unavailable e)

delete_ids : Web → Site → Store → Modem → List String → Talk (Result Bool)
unfolding asked_to
delete_ids web site s m [] = pure (ok true)
delete_ids web site s m (id ∷ ids) = sms_delete web site s m (id ∷ ids) >>= λ r. pure (asked_to r)

unfoldable pub purge_sms_json : Web → Cipher → Site → Option String → Store → Talk (Result Bool)
unfolding on_device delete_ids
purge_sms_json web cipher site arg s =
    on_device arg s
      (λ m. sms_list web cipher site s m >>= λ ms. delete_ids web site s m (ids_of ms))
