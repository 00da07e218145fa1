-- ===== src/Netdev/Rotations.antt =====
-- modemproxy/modems/netdev.py: _rotate_huawei and _rotate_deco, and what `rotate` calls for each dongle.
use modemproxy.Prelude.{
  ℕ, zero, suc, String, Bool, true, false, not, ◌&&◌, ◌||◌, List, [], ◌∷◌, Option, none, some,
  if◌then◌else◌, nonempty, ◌==◌, ◌≡◌, refl,
}
use modemproxy.Text.{◌<>◌}
use modemproxy.Text.Cut.{starts_with, drop_prefix, contains, contains_lower, strip}
use modemproxy.Result.{Result, ok, err, netdev_error}
use modemproxy.Db.Rows.{Store}
use modemproxy.Netdev.Http.{WebRequest, Web, Talk, ◌>>=◌, pure, http}
use modemproxy.Netdev.Zte.{Site, rotate_zte}
use modemproxy.Netdev.{Dongle, public_ip}

-- What comes after the first `p`, if it is there.
after_text : String → String → Option String
after_text p String.[] = if p == "" then some "" else none
after_text p (String.◌∷◌ c s) =
    let later = after_text p s in
    elim (drop_prefix p (String.◌∷◌ c s)) [ some rest ↦ some rest | none ↦ later ]

-- `s.split(p)[0]`
before_text : String → String → String
before_text p String.[] = ""
before_text p (String.◌∷◌ c s) =
    let rest = before_text p s in if starts_with p (String.◌∷◌ c s) then "" else String.◌∷◌ c rest

-- `s.split(open)[1].split(close)[0]`, of a text that contains `open`
between : String → String → String → String
unfolding after_text before_text
between open' close s = elim (after_text open' s) [
  | none ↦ ""
  | some rest ↦ before_text close (before_text open' rest)
]

huawei_get : Option String → String → String → WebRequest
huawei_get iface host jar = record {
  iface = iface;
  url = "http://" <> host <> "/api/webserver/SesTokInfo";
  post = false;
  form = [];
  body = none;
  headers = [];
  cookies = some jar;
  timeout = 5;
  save_cookies = none;
}

huawei_switch : Option String → String → String → List (String × String) → String → WebRequest
huawei_switch iface host jar headers on = record {
  iface = iface;
  url = "http://" <> host <> "/api/dialup/mobile-dataswitch";
  post = true;
  form = [];
  body = some (
      "<?xml version=\"1.0\" encoding=\"UTF-8\"?><request><dataswitch>" <> on
      <> "</dataswitch></request>");
  headers = headers;
  cookies = some jar;
  timeout = 8;
  save_cookies = none;
}

huawei_headers : Bool × String → List (String × String)
unfolding between
huawei_headers a =
    ("Content-Type", "text/xml")
    ∷ (if a.0 && contains "<TokInfo>" a.1
        then ("__RequestVerificationToken", between "<TokInfo>" "</TokInfo>" a.1) ∷ []
        else [])

-- `jar` is the name that tempfile.mktemp makes.
unfoldable pub rotate_huawei : Web → String → String → Option String → Talk Bool
unfolding huawei_get huawei_switch huawei_headers
rotate_huawei web jar host iface = http web (huawei_get iface host jar) >>= λ tok.
    http web (huawei_switch iface host jar (huawei_headers tok) "0") >>= λ off.
    if not off.0 || contains_lower "error" off.1
    then pure false
    else (http web (huawei_switch iface host jar (huawei_headers tok) "1") >>= λ on. pure true)

-- What is outside of _rotate_deco: the deco_password of the configuration, the text of the password's
-- file, if the package tplinkrouterc6u is there, and the text of the exception that its login and
-- reboot raise; then the probes of the public address before the reboot, while it waits, and at the end.
pub record Deco : Type 0 where
  pub deco_password : String
  pub password_file : Option String
  pub installed : Bool
  pub reboot_raises : (host password : String) → Option String
  pub first : String → String → Option String
  pub waiting : ℕ → String → String → Option String
  pub final : String → String → Option String

-- _deco_password
unfoldable pub password_of : Deco → String
password_of d =
    if nonempty d.deco_password
    then d.deco_password
    else elim d.password_file [ none ↦ "" | some t ↦ strip t ]

same_ip : String → Option String → Bool
same_ip ip none = false
same_ip ip (some old) = ip == old

-- The rounds of `for _ in range(40)` that are left, then the last probe.
wait_for_new : Deco → String → Option String → ℕ → Option String
unfolding same_ip
wait_for_new d iface old zero = public_ip d.final iface none
wait_for_new d iface old (suc left) =
    let later = wait_for_new d iface old left in
    elim (public_ip (d.waiting left) iface none) [
      | none ↦ later
      | some ip ↦ if same_ip ip old then later else some ip
    ]

unfoldable pub rotate_deco : Deco → String → String → Result (Option String)
unfolding wait_for_new
rotate_deco d host iface =
    if not d.installed
    then err (netdev_error "tplinkrouterc6u not installed (pip install tplinkrouterc6u)")
    else (if not (nonempty (password_of d))
        then err (netdev_error "no Deco admin password (set /etc/modemproxy/deco5g.pass)")
        else elim (d.reboot_raises host (password_of d)) [
          | some text ↦ err (netdev_error ("Deco reboot failed: " <> text))
          | none ↦ ok (wait_for_new d iface (public_ip d.first iface none) 40)
        ])

-- The calls that `rotate` makes: the ZTE interface first, and Huawei's after it.
unfoldable pub dongle_of :
    Web
    → Site
    → Store
    → (jar : String) → Deco
    → List (String → String → Option String)
    → List WebRequest
    → Dongle
dongle_of web site s jar deco probes log = record {
  deco = rotate_deco deco;
  zte = λ host iface. (rotate_zte web site s host iface log).0;
  huawei =
      λ host iface. (rotate_huawei web jar host iface (rotate_zte web site s host iface log).1).0;
  probes = probes;
}

token_test : between "<TokInfo>" "</TokInfo>" "<a><TokInfo>77</TokInfo></a>" ≡ "77"
unfolding between drop_prefix starts_with
token_test = refl
