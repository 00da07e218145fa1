-- ===== src/Netdev/Sms.antt =====
-- modemproxy/modems/netdev.py: the SMS of a ZTE device.
pub mod Carried
use modemproxy.Prelude.{
  ℕ, ◌%◌, ◌≡◌, refl, String, Bool, true, false, not, ◌&&◌, ◌||◌, List, [], ◌∷◌, ◌++◌, Option, none,
  some, if◌then◌else◌, ltb, eqb, ◌==◌, nonempty, nonzero, truthy_text, or_text, map, leb,
}
use Prim.Native.Char.{code}
use modemproxy.Text.{◌<>◌, decimal, count_chars, hex_digit}
use modemproxy.Text.Cut.{strip, starts_with, contains, contains_lower, digits, split_on, join}
use modemproxy.Text.Ascii.{utf8, ascii_text}
use modemproxy.Text.Ucs2.{char_of, ucs2_encode, ucs2_decode}
use modemproxy.Result.{Result, ok, err, netdev_error}
use modemproxy.Db.Rows.{Modem, Store}
use modemproxy.Netdev.Http.{Web, WebRequest, Talk, ◌>>=◌, pure, http, text_of}
use modemproxy.Netdev.Zte.{
  Site, Channel, session_jar, zte_session, ensure_session, base_hash, zte_get, send_signed, query,
}

-- A message as the device lists it; a key that it lacks is "" by `.get(key, "")`.
pub record Stored : Type 0 where
  pub tag : String
  pub id : String
  pub number : String
  pub content : String
  pub date : String

-- What is outside: AES-GCM of bytes with a session key, under base64, where `decrypt` gives none as it raises;
-- the wrapping of a new key with a certificate, by RSA; and the messages that json.loads finds.
pub record Cipher : Type 0 where
  pub wrap : String → Option (String × String)
  pub encrypt : String → List ℕ → String
  pub decrypt : String → String → Option (List ℕ)
  pub messages : String → Option (List Stored)

pub record Message : Type 0 where
  pub id : String
  pub number : String
  pub text : String
  pub date : String
  pub outbound : Bool
  pub unread : Bool

all_hex : String → Bool
all_hex String.[] = true
all_hex (String.◌∷◌ c s) = elim (hex_digit (code c)) [ none ↦ false | some d ↦ true ] && all_hex s

-- _maybe_ucs2
unfoldable pub maybe_ucs2 : String → String
unfolding all_hex
maybe_ucs2 s =
    if nonempty s && eqb (count_chars s % 2) 0 && all_hex s && contains "00" s
    then ucs2_decode s
    else s

two_digits : ℕ → String
two_digits n = if ltb n 10 then "0" <> decimal n else decimal n

stamp : Option ℕ → Option ℕ → Option ℕ → Option ℕ → Option ℕ → String
unfolding two_digits
stamp (some yy) (some mm) (some dd) (some hh) (some mi) =
    "20"
    <> two_digits yy
    <> "-"
    <> two_digits mm
    <> "-"
    <> two_digits dd
    <> " "
    <> two_digits hh
    <> ":"
    <> two_digits mi
stamp _ _ _ _ _ = ""

field_number : String → Option ℕ
field_number s = digits (strip s)

date_of : List String → String
unfolding stamp field_number
date_of (yy ∷ mm ∷ dd ∷ hh ∷ mi ∷ ss ∷ more) =
    stamp (field_number yy) (field_number mm) (field_number dd) (field_number hh) (field_number mi)
date_of parts = ""

-- `re.split(r"[;,]", s)`
commas : String → String
commas String.[] = ""
commas (String.◌∷◌ c s) =
    let rest = commas s in if eqb (code c) b';' then "," <> rest else String.◌∷◌ c rest

-- _zte_date, of fields that are decimal digits with blanks around them or no numbers
unfoldable pub zte_date : String → String
unfolding date_of commas
zte_date raw = date_of (split_on b',' (commas raw))

unfoldable pub gcm_decrypt : Cipher → Option String → String → String
gcm_decrypt cipher none field = field
gcm_decrypt cipher (some key) field =
    if nonempty field
    then elim (cipher.decrypt key field) [ none ↦ field | some bytes ↦ ascii_text bytes ]
    else ""

unfoldable pub gcm_encrypt : Cipher → Option String → String → String
gcm_encrypt cipher none text = text
gcm_encrypt cipher (some key) text = cipher.encrypt key (utf8 text)

handshake : Web → Channel → String → String × String → Talk (Option String)
handshake web l base wrapped =
    send_signed web l base
      (("isTest", "false") ∷ ("goformId", "web_http_enstr_set") ∷ ("web_enstr", wrapped.1) ∷ []) 8
    >>= λ a. pure (if a.0 && not (contains_lower "failure" a.1) then some wrapped.0 else none)

-- _zte_enc_key
unfoldable pub enc_key : Web → Cipher → Channel → String → Talk (Option String)
unfolding handshake
enc_key web cipher l base = zte_get web l "web_crt_get" >>= λ d.
    if contains "BEGIN PUBLIC KEY" (text_of "result" d)
    then elim (cipher.wrap (text_of "result" d)) [
      | none ↦ pure none
      | some wrapped ↦ handshake web l base wrapped
    ]
    else pure none

-- The tags 2, 4 and 5 are those of messages that were sent.
unfoldable pub read_message : Cipher → Option String → Stored → Message
unfolding gcm_decrypt
read_message cipher key m = record {
  id = m.id;
  number = maybe_ucs2 (gcm_decrypt cipher key m.number);
  text = ucs2_decode (gcm_decrypt cipher key m.content);
  date = zte_date m.date;
  outbound = m.tag == "2" || m.tag == "4" || m.tag == "5";
  unread = m.tag == "0";
}

listed_sms : Cipher → Option String → Bool × String → List Message
listed_sms cipher key answer =
    if answer.0 && nonempty answer.1
    then elim (cipher.messages answer.1) [ none ↦ [] | some ms ↦ map (read_message cipher key) ms ]
    else []

-- The calls for SMS reach the device from the address that they are given, not from _zte_bind's.
sms_channel : Site → String → Option String → Channel
sms_channel site host iface = record {
  host = host;
  binder = iface;
  jar = session_jar site host iface;
}

unfoldable pub list_sms_zte :
    Web → Cipher → Site → Store → String → Option String → Talk (List Message)
unfolding listed_sms sms_channel
list_sms_zte web cipher site s host iface =
    let l = sms_channel site host iface in
    ensure_session web site (zte_session web site s host iface) >>= λ u. base_hash web l >>= λ base.
    enc_key web cipher l base >>= λ key.
    http web (
      query l
        ("?isTest=false&cmd=sms_data_total&page=0&data_per_page=500&mem_store=1"
          <> "&tags=10&order_by=order+by+id+desc")
        12)
    >>= λ a. pure (listed_sms cipher key a)

sms_form : Cipher → Option String → (number text time : String) → List (String × String)
unfolding gcm_encrypt
sms_form cipher key number text time =
    ("isTest", "false")
    ∷ ("goformId", "SEND_SMS")
    ∷ ("notCallback", "true")
    ∷ ("Number", gcm_encrypt cipher key number)
    ∷ ("sms_time", time)
    ∷ ("MessageBody", gcm_encrypt cipher key (ucs2_encode text))
    ∷ ("ID", "-1")
    ∷ ("encode_type", "UNICODE")
    ∷ []

sms_accepted : Bool × String → Bool
sms_accepted a = a.0 && not (contains_lower "failure" a.1)

-- `time` is the text of time.strftime.
unfoldable pub send_sms_zte :
    Web
    → Cipher
    → Site
    → Store
    → (host : String) → (iface : Option String) → (number text time : String) → Talk Bool
unfolding sms_form sms_accepted sms_channel
send_sms_zte web cipher site s host iface number text time =
    let l = sms_channel site host iface in
    ensure_session web site (zte_session web site s host iface) >>= λ u. base_hash web l >>= λ base.
    enc_key web cipher l base >>= λ key.
    send_signed web l base (sms_form cipher key number text time) 15 >>= λ a. pure (sms_accepted a)

unfoldable pub delete_sms_zte :
    Web → Site → Store → String → Option String → List String → Talk Bool
unfolding sms_accepted sms_channel
delete_sms_zte web site s host iface [] = pure true
delete_sms_zte web site s host iface (id ∷ ids) =
    let l = sms_channel site host iface in
    ensure_session web site (zte_session web site s host iface) >>= λ u. base_hash web l >>= λ base.
    send_signed web l base
      (("isTest", "false")
        ∷ ("goformId", "DELETE_SMS")
        ∷ ("msg_id", join ";" (id ∷ ids) <> ";")
        ∷ ("notCallback", "true")
        ∷ [])
      12
    >>= λ a. pure (sms_accepted a)

unfoldable pub has_sms : Modem → Bool
has_sms m = truthy_text m.mgmt_host && not (contains_lower "deco" (or_text m.model ""))

abbrev sms_binder : Modem → Option String
sms_binder m = if nonzero m.manual then m.bind_ip else m.iface

unfoldable pub sms_list : Web → Cipher → Site → Store → Modem → Talk (List Message)
sms_list web cipher site s m =
    if has_sms m
    then list_sms_zte web cipher site s (or_text m.mgmt_host "") (sms_binder m)
    else pure []

unfoldable pub sms_send :
    Web → Cipher → Site → Store → Modem → (number text time : String) → Talk (Result Bool)
sms_send web cipher site s m number text time =
    if has_sms m
    then (send_sms_zte web cipher site s (or_text m.mgmt_host "") (sms_binder m) number text time
        >>= λ sent. pure (ok sent))
    else pure (err (netdev_error "SMS not supported on this modem"))

unfoldable pub sms_delete : Web → Site → Store → Modem → List String → Talk (Result Bool)
sms_delete web site s m ids =
    if has_sms m
    then (delete_sms_zte web site s (or_text m.mgmt_host "") (sms_binder m) ids >>= λ gone.
        pure (ok gone))
    else pure (err (netdev_error "SMS not supported on this modem"))

date_test : zte_date "26,07,05;09,30,00,+8" ≡ "2026-07-05 09:30"
unfolding zte_date split_on digits strip decimal
date_test = refl

-- A plain number that happens to have an even number of digits and a "00" is taken for UCS2.
number_test : (maybe_ucs2 "002B00330039" ≡ "+39") × (maybe_ucs2 "4800" ≡ "䠀")
unfolding maybe_ucs2 count_chars contains hex_digit ucs2_decode starts_with char_of
number_test = (refl, refl)
