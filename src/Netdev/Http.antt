-- ===== src/Netdev/Http.antt =====
-- modemproxy/modems/netdev.py: _http, requests to a device's web interface by curl.
use modemproxy.Prelude.{
  ℕ, ◌≡◌, refl, String, Bool, true, not, List, [], ◌∷◌, ◌++◌, Option, none, some, if◌then◌else◌,
  truthy_text, map,
}
use modemproxy.Text.{◌<>◌, decimal}
use modemproxy.Text.Cut.{starts_with, after_last, dict_get}

-- The arguments of _http; `data` and `body` are sent with a POST.
pub record WebRequest : Type 0 where
  pub iface : Option String
  pub url : String
  pub post : Bool
  pub form : List (String × String)
  pub body : Option String
  pub headers : List (String × String)
  pub cookies : Option String
  pub timeout : ℕ
  pub save_cookies : Option Bool

-- _is_session_jar
unfoldable pub is_session_jar : String → Bool
is_session_jar path = starts_with "zte-session-" (after_last b'/' path)

option_if : Bool → List String → List String
option_if on args = if on then args else []

iface_args : Option String → List String
iface_args none = []
iface_args (some iface) = option_if (truthy_text (some iface)) ("--interface" ∷ iface ∷ [])

saves : Option Bool → String → Bool
saves none jar = not (is_session_jar jar)
saves (some save) jar = save

cookie_args : Option Bool → Option String → List String
unfolding option_if saves
cookie_args save none = []
cookie_args save (some jar) =
    option_if (truthy_text (some jar)) ("-b" ∷ jar ∷ option_if (saves save jar) ("-c" ∷ jar ∷ []))

pairs : String → String → List (String × String) → List String
pairs flag sep [] = []
pairs flag sep ((k, v) ∷ more) = flag ∷ (k <> sep <> v) ∷ pairs flag sep more

body_args : Option String → List String
body_args none = []
body_args (some body) = "--data-binary" ∷ body ∷ []

-- The command line.
unfoldable pub curl_args : WebRequest → List String
unfolding iface_args cookie_args pairs body_args option_if is_session_jar saves
curl_args r =
    "curl"
    ∷ "-s"
    ∷ "--max-time"
    ∷ decimal r.timeout
    ∷ (iface_args r.iface
        ++ (cookie_args r.save_cookies r.cookies
            ++ (pairs "-H" ": " r.headers
                ++ (option_if r.post
                      ("-X" ∷ "POST" ∷ (body_args r.body ++ pairs "--data-urlencode" "=" r.form))
                    ++ r.url ∷ []))))

-- What is outside: whether curl succeeds and its output, given the earlier commands, the newest first;
-- json.loads of an object whose values are texts; and the functions of hashlib and base64.
pub record Web : Type 0 where
  pub curl : List (List String) → List String → Bool × String
  pub loads : String → Option (List (String × String))
  pub md5 : String → String
  pub sha256_upper : String → String
  pub base64 : String → String

-- A call that talks to a device: the requests that were made so far, the newest first, and after it.
abbrev pub Talk : Type 0 → Type 0
Talk A = List WebRequest → A × List WebRequest

infixl 5 ◌>>=◌
abbrev pub ◌>>=◌ : {A B : Type 0} → Talk A → (A → Talk B) → Talk B
◌>>=◌ m f log = let (a, log') = m log in f a log'

abbrev pub pure : {A : Type 0} → A → Talk A
pure a log = (a, log)

unfoldable pub http : Web → WebRequest → Talk (Bool × String)
http web r log = (web.curl (map curl_args log) (curl_args r), r ∷ log)

-- `d.get(key, "")`
abbrev pub text_of : String → List (String × String) → String
text_of key d = elim (dict_get key d) [ none ↦ "" | some v ↦ v ]

session_args :
    curl_args (record {
      iface = some "usb0";
      url = "http://192.168.0.1/";
      post = true;
      form = ("cmd", "LD") ∷ [];
      body = none;
      headers = ("Referer", "x") ∷ [];
      cookies = some "/var/lib/zte-session-usb0.cookies";
      timeout = 8;
      save_cookies = none;
    })
    ≡ "curl" ∷ "-s" ∷ "--max-time" ∷ "8" ∷ "--interface" ∷ "usb0" ∷ "-b"
      ∷ "/var/lib/zte-session-usb0.cookies" ∷ "-H" ∷ "Referer: x" ∷ "-X" ∷ "POST"
      ∷ "--data-urlencode" ∷ "cmd=LD" ∷ "http://192.168.0.1/" ∷ []
unfolding curl_args decimal starts_with after_last
session_args = refl
