-- ===== src/Netdev/Zte.antt =====
-- modemproxy/modems/netdev.py: the web interface of a ZTE device, its shared session and the rotation.
pub mod Redial
pub mod Session
use modemproxy.Prelude.{
  ℕ, suc, ◌≡◌, refl, String, Bool, true, false, not, ◌&&◌, ◌||◌, List, [], ◌∷◌, ◌++◌, Option, none,
  some, if◌then◌else◌, eqb, ◌==◌, nonempty, nonzero, truthy_text, or_text, some_of, length,
}
use modemproxy.Text.{◌<>◌, underscored}
use modemproxy.Text.Cut.{
  splitlines, split_on, split_at, before_first, strip, digits, contains_lower,
}
use modemproxy.Db.Rows.{Modem, Store}
use modemproxy.Db.Listing.{Listed, list_modems}
use modemproxy.Netdev.Http.{WebRequest, Web, Talk, ◌>>=◌, pure, http, text_of}

-- Of the configuration: STATE_DIR and default_hilink_password.
pub record Site : Type 0 where
  pub state_dir : String
  pub password : String

all_of : List String → (String → Bool) → Bool
all_of [] p = true
all_of (x ∷ xs) p = p x && all_of xs p

is_number : String → Bool
is_number s = elim (digits s) [ none ↦ false | some n ↦ true ]

-- _IPV4_RE.match, of a text whose digits are those of ASCII
is_ipv4 : String → Bool
unfolding all_of is_number
is_ipv4 s = let parts = split_on b'.' s in eqb (length parts) 4 && all_of parts is_number

jar_key : String → Option String → String
unfolding is_ipv4
jar_key host none = host
jar_key host (some iface) = if nonempty iface && not (is_ipv4 iface) then iface else host

unfoldable pub session_jar : Site → String → Option String → String
unfolding jar_key
session_jar site host iface =
    site.state_dir <> "/zte-session-" <> underscored (jar_key host iface) <> ".cookies"

unfoldable pub session_jar_for : Site → Modem → String
session_jar_for site m =
    session_jar site (or_text m.mgmt_host "") (if nonzero m.manual then none else m.iface)

stok_of : List String → Option String
stok_of (a ∷ b ∷ c ∷ d ∷ e ∷ name ∷ value ∷ []) =
    if name == "stok" && nonempty value then some ("stok=" <> value) else none
stok_of fields = none

first_stok : List String → Option String
unfolding stok_of
first_stok [] = none
first_stok (line ∷ lines) = elim (stok_of (split_on 9 line)) [
  | none ↦ first_stok lines
  | some c ↦ some c
]

-- `jar` is the text of the file, if it can be read.
unfoldable pub session_cookie : Option String → Option String
unfolding first_stok
session_cookie none = none
session_cookie (some jar) = first_stok (splitlines jar)

-- `name, _, rest = s.partition("=")`
partition_eq : String → String × String
partition_eq s = elim (split_at b'=' s) [ none ↦ (s, "") | some parts ↦ parts ]

unfoldable pub jar_line : String → String → String
jar_line host value =
    ("#HttpOnly_" <> host)
    <> "\t"
    <> "FALSE"
    <> "\t"
    <> "/"
    <> "\t"
    <> "FALSE"
    <> "\t"
    <> "0"
    <> "\t"
    <> "stok"
    <> "\t"
    <> value

unfoldable pub jar_text : String → String → String
unfolding jar_line
jar_text host value = "# Netscape HTTP Cookie File" <> "\n" <> jar_line host value <> "\n"

-- The text of the jar afterwards.
unfoldable pub adopt_session : Option String → String → String → Option String
unfolding partition_eq
adopt_session jar host set_cookie =
    let (name, rest) = partition_eq set_cookie in
    let value = strip (before_first b';' rest) in
    if not (strip name == "stok") || not (nonempty value) then jar else some (jar_text host value)

bind_among : String → List Listed → Option String
bind_among host [] = none
bind_among host (r ∷ rs) =
    if nonzero r.modem.manual && or_text r.modem.mgmt_host "" == host && truthy_text r.modem.bind_ip
    then r.modem.bind_ip
    else bind_among host rs

-- _zte_bind; a host is not empty.
unfoldable pub zte_bind : String → Option String → Store → Option String
unfolding bind_among
zte_bind host iface s = if truthy_text iface then iface else bind_among host (list_modems s)

-- A connection: where to, from where, and the session's jar.
pub record Channel : Type 0 where
  pub host : String
  pub binder : Option String
  pub jar : String

abbrev own_headers : Channel → List (String × String)
own_headers l =
    ("Referer", "http://" <> l.host <> "/") ∷ ("X-Requested-With", "XMLHttpRequest") ∷ []

unfoldable pub query : Channel → String → ℕ → WebRequest
query l args timeout = record {
  iface = l.binder;
  url = "http://" <> l.host <> "/goform/goform_get_cmd_process" <> args;
  post = false;
  form = [];
  body = none;
  headers = own_headers l;
  cookies = some l.jar;
  timeout = timeout;
  save_cookies = none;
}

unfoldable pub command : Channel → List (String × String) → ℕ → WebRequest
command l form timeout = record {
  iface = l.binder;
  url = "http://" <> l.host <> "/goform/goform_set_cmd_process";
  post = true;
  form = form;
  body = none;
  headers = own_headers l;
  cookies = some l.jar;
  timeout = timeout;
  save_cookies = none;
}

dict_or_empty : Web → Bool × String → List (String × String)
dict_or_empty web (ok, text) =
    if ok && nonempty text then elim (web.loads text) [ none ↦ [] | some d ↦ d ] else []

-- _zte_get
unfoldable pub zte_get : Web → Channel → String → Talk (List (String × String))
unfolding dict_or_empty
zte_get web l cmd =
    http web (query l ("?isTest=false&cmd=" <> cmd) 8) >>= λ a. pure (dict_or_empty web a)

unfoldable pub logged_in : Web → Channel → Talk Bool
unfolding dict_or_empty
logged_in web l = http web (query l "?isTest=false&multi_data=1&cmd=loginfo" 5) >>= λ a.
    pure (a.0 && text_of "loginfo" (dict_or_empty web a) == "ok")

-- The answer to the challenge LD, or the user and the password where the device gives none.
unfoldable pub login_form : Web → String → String → List (String × String)
login_form web pw ld =
    ("isTest", "false")
    ∷ ("goformId", "LOGIN")
    ∷ (if nonempty ld
        then ("password", web.sha256_upper (web.sha256_upper pw <> ld)) ∷ []
        else ("username", web.base64 "admin") ∷ ("password", web.base64 pw) ∷ [])

login_request : WebRequest → WebRequest
login_request r = record r { save_cookies = some true }

unfoldable pub login : Web → Site → Channel → Talk Bool
unfolding dict_or_empty login_form login_request
login web site l =
    if nonempty site.password
    then (http web (login_request (query l "?isTest=false&cmd=LD" 8)) >>= λ a.
        http web (
          login_request
            (command l (login_form web site.password (text_of "LD" (dict_or_empty web a))) 8))
        >>= λ b. pure true)
    else pure false

-- _zte_session, whose lock keeps two of them apart, and then _zte_bind
unfoldable pub zte_session : Web → Site → Store → String → Option String → Channel
zte_session web site s host iface = record {
  host = host;
  binder = zte_bind host iface s;
  jar = session_jar site host iface;
}

unfoldable pub ensure_session : Web → Site → Channel → Talk Bool
ensure_session web site l =
    logged_in web l >>= λ there. if there then pure false else login web site l

-- zte_base_hash
unfoldable pub base_hash : Web → Channel → Talk String
base_hash web l = zte_get web l "wa_inner_version" >>= λ wv. zte_get web l "cr_version" >>= λ cv.
    let versions = text_of "wa_inner_version" wv <> text_of "cr_version" cv in
    pure (if nonempty versions then web.md5 versions else "")

-- The form with its AD token, where the device gives the nonce RD and has a fingerprint.
unfoldable pub signed : Web → String → List (String × String) → String → List (String × String)
signed web base form rd =
    form ++ (if nonempty rd && nonempty base then ("AD", web.md5 (base <> rd)) ∷ [] else [])

unfoldable pub send_signed :
    Web → Channel → String → List (String × String) → ℕ → Talk (Bool × String)
send_signed web l base form timeout =
    zte_get web l "RD" >>= λ d. http web (command l (signed web base form (text_of "RD" d)) timeout)

-- zte_set, with the parameters that come after isTest
unfoldable pub zte_set : Web → Channel → String → List (String × String) → Talk String
zte_set web l base params = send_signed web l base (("isTest", "false") ∷ params) 20 >>= λ a.
    pure (if a.0 then strip a.1 else "")

-- `_set` of _rotate_zte
set_ok : Web → Channel → String → List (String × String) → Talk Bool
set_ok web l base params =
    zte_set web l base params >>= λ r. pure (nonempty r && not (contains_lower "failure" r))

abbrev pub disconnect_form : List (String × String)
disconnect_form = ("notCallback", "true") ∷ ("goformId", "DISCONNECT_NETWORK") ∷ []

abbrev pub connect_form : List (String × String)
connect_form = ("notCallback", "true") ∷ ("goformId", "CONNECT_NETWORK") ∷ []

abbrev pub bearer : String → List (String × String)
bearer preference = ("goformId", "SET_BEARER_PREFERENCE") ∷ ("BearerPreference", preference) ∷ []

-- The five commands of _rotate_zte.
unfoldable pub redial : Web → Channel → String → Talk Bool
unfolding set_ok
redial web l base = set_ok web l base disconnect_form >>= λ off.
    set_ok web l base (bearer "Only_WCDMA") >>= λ a.
    set_ok web l base (bearer "NETWORK_auto") >>= λ b.
    set_ok web l base (bearer "4G_AND_5G") >>= λ c.
    set_ok web l base connect_form >>= λ on. pure (off || on)

unfoldable pub rotate_zte : Web → Site → Store → String → Option String → Talk Bool
rotate_zte web site s host iface =
    let l = zte_session web site s host iface in
    ensure_session web site l >>= λ u. base_hash web l >>= λ base. redial web l base

-- The answer of the device is not looked at, and the command has no AD token.
unfoldable pub reboot_zte : Web → Site → Store → String → Option String → Talk Bool
reboot_zte web site s host iface =
    let l = zte_session web site s host iface in
    ensure_session web site l >>= λ u.
    http web (command l (("isTest", "false") ∷ ("goformId", "REBOOT_DEVICE") ∷ []) 8) >>= λ a.
    pure a.0
