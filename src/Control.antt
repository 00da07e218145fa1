-- ===== src/Control.antt =====
-- modemproxy/modems/control.py, with control_safe_ip and _mm_id_for of modems/manager.py.
pub mod Found
use Prim.Native.Char.{code}
use modemproxy.Prelude.{
  ℤ, pos, negsuc, zero, suc, ℕ, zero, suc, ◌≡◌, refl, String, Bool, true, false, not, ◌&&◌, ◌||◌,
  List, [], ◌∷◌, Option, none, some, if◌then◌else◌, ◌==◌, nonempty, or_text, leb, eqb, truthy_text,
}
use modemproxy.Text.{◌<>◌, decimal}
use modemproxy.Text.Cut.{
  drop_prefix, starts_with, ends_with, contains, contains_lower, split_at, before_first, after_last,
  strip, right_strip, splitlines, digits, join, dict_set, dict_get,
}
use modemproxy.Result.{Result, ok, err, Error, mm_error, index_error, ◌>>=◌}

-- How a command ends.
pub data Ran : Type 0 where
  not_found : Ran
  timed_out : Ran
  exited : (returncode : ℕ) → (stdout stderr : String) → Ran

-- What the system answers to a command line.
abbrev pub Shell : Type 0
Shell = List String → Ran

first_word : List String → String
first_word [] = ""
first_word (a ∷ args) = a

unfoldable pub run : Shell → List String → Result String
unfolding first_word
run shell args = elim (shell args) [
  | not_found ↦ err (mm_error ("command not found: " <> first_word args))
  | timed_out ↦ err (mm_error ("timeout running " <> join " " args))
  | exited code stdout stderr ↦
      if eqb code 0
      then ok stdout
      else err
          (mm_error (or_text (some (strip stderr)) (first_word args <> " exited " <> decimal code)))
]

abbrev pub Dict : Type 0
Dict = List (String × String)

kv_line : String → Dict → Dict
kv_line line d = elim (split_at b':' line) [
  | none ↦ d
  | some (k, v) ↦
      if nonempty (strip v) && not (strip v == "--") then dict_set (strip k) (strip v) d else d
]

kv_lines : List String → Dict → Dict
unfolding kv_line
kv_lines [] d = d
kv_lines (line ∷ lines) d = kv_lines lines (kv_line line d)

-- _kv
unfoldable pub kv : String → Dict
unfolding kv_lines
kv text = kv_lines (splitlines text) []

-- `line.split(":", 1)[1]`
after_colon : String → Result String
after_colon line = elim (split_at b':' line) [ none ↦ err index_error | some (k, v) ↦ ok v ]

-- The last pieces of the paths on the lines that hold ".value" and the mark.
listed_ids : String → List String → Result (List String)
unfolding after_colon
listed_ids mark [] = ok []
listed_ids mark (line ∷ lines) =
    let rest = listed_ids mark lines in
    if contains ".value" line && contains mark line
    then (after_colon line >>= λ path. rest >>= λ ids. ok (after_last b'/' (strip path) ∷ ids))
    else rest

unfoldable pub list_modem_ids : Shell → Result (List String)
unfolding listed_ids run
list_modem_ids shell = run shell ("mmcli" ∷ "-L" ∷ "--output-keyvalue" ∷ []) >>= λ out.
    listed_ids "/Modem/" (splitlines out)

pub record ModemInfo : Type 0 where
  pub mm_id : String
  pub imei : Option String
  pub model : Option String
  pub operator : Option String
  pub signal : Option ℤ
  pub state : Option String
  pub iface : Option String
  pub mm_path : String

-- The value of a number that a text such as "73" or "73.5" stands for, rounded down.
with_sign : (ℕ → ℤ) → Option ℕ → Option ℤ
with_sign f none = none
with_sign f (some n) = some (f n)

negated : ℕ → ℤ
negated zero = pos zero
negated (suc n) = negsuc n

-- Decimal digits after a sign or none.
signed_digits : String → Option ℤ
unfolding negated with_sign
signed_digits v = elim (drop_prefix "-" v) [
  | some d ↦ with_sign negated (digits d)
  | none ↦ with_sign pos (digits v)
]

unfoldable pub to_int : Option String → Option ℤ
unfolding signed_digits
to_int none = none
to_int (some v) = signed_digits (before_first b'.' (strip v))

net_port : Dict → Option String
net_port [] = none
net_port ((k, v) ∷ d) =
    let rest = net_port d in
    if starts_with "modem.generic.ports" k && contains "(net)" v
    then some (before_first b' ' v)
    else rest

-- `a or b`, of two lookups
abbrev pub or_else : Option String → Option String → Option String
or_else a b = if truthy_text a then a else b

unfoldable pub primary_port : Dict → Option String
unfolding net_port
primary_port d = elim (net_port d) [
  | none ↦ dict_get "modem.generic.primary-port" d
  | some p ↦ some p
]

abbrev pub mm_path_of : String → String
mm_path_of mid = "/org/freedesktop/ModemManager1/Modem/" <> mid

-- The dict that modem_info builds of the answer.
unfoldable pub info_of : String → Dict → ModemInfo
unfolding primary_port to_int
info_of mid d = record {
  mm_id = mid;
  imei = or_else (dict_get "modem.3gpp.imei" d) (dict_get "modem.generic.equipment-identifier" d);
  model = dict_get "modem.generic.model" d;
  operator = dict_get "modem.3gpp.operator-name" d;
  signal = to_int (dict_get "modem.generic.signal-quality.value" d);
  state = dict_get "modem.generic.state" d;
  iface = primary_port d;
  mm_path = mm_path_of mid;
}

unfoldable pub modem_info : Shell → String → Result ModemInfo
unfolding info_of
modem_info shell mid =
    run shell ("mmcli" ∷ "-m" ∷ mid ∷ "--output-keyvalue" ∷ []) >>= λ out. ok (info_of mid (kv out))

unfoldable pub connect : Shell → String → Option String → Result String
connect shell mid apn = run shell (
    "mmcli"
    ∷ "-m"
    ∷ mid
    ∷ ("--simple-connect=" <> (if truthy_text apn then "apn=" <> or_text apn "" else ""))
    ∷ [])

unfoldable pub disconnect : Shell → String → Result String
disconnect shell mid = run shell ("mmcli" ∷ "-m" ∷ mid ∷ "--simple-disconnect" ∷ [])

-- A disconnect that ends in an MMError is ignored; the shell of the connect comes after it.
unfoldable pub reconnect : Shell → Shell → String → Option String → Result String
unfolding connect disconnect
reconnect shell next mid apn = elim (disconnect shell mid) [
  | ok out ↦ connect next mid apn
  | err e ↦ elim e [ mm_error text ↦ connect next mid apn | other ↦ err other ]
]

unfoldable pub reset : Shell → String → Result String
reset shell mid = run shell ("mmcli" ∷ "-m" ∷ mid ∷ "--reset" ∷ [])

unfoldable pub is_bearer : String → String → Bool
is_bearer k v = ends_with "bearer.value" k || (contains_lower "bearer" k && contains "/Bearer/" v)

find_bearer : Shell → Dict → Result (Option String)
unfolding is_bearer
find_bearer shell [] = ok none
find_bearer shell ((k, v) ∷ d) =
    let rest = find_bearer shell d in
    if is_bearer k v
    then (run shell ("mmcli" ∷ "-b" ∷ after_last b'/' v ∷ "--output-keyvalue" ∷ []) >>= λ out.
        ok (dict_get "bearer.ipv4.address" (kv out)))
    else rest

unfoldable pub bearer_ip : Shell → String → Result (Option String)
unfolding find_bearer
bearer_ip shell mid = run shell ("mmcli" ∷ "-m" ∷ mid ∷ "--output-keyvalue" ∷ []) >>= λ out.
    find_bearer shell (kv out)

pub record Sms : Type 0 where
  pub id : String
  pub number : String
  pub text : String
  pub timestamp : String

get_or_empty : String → Dict → String
get_or_empty k d = elim (dict_get k d) [ none ↦ "" | some v ↦ v ]

read_sms : Shell → String → Result Sms
unfolding get_or_empty
read_sms shell sid = run shell ("mmcli" ∷ "-s" ∷ sid ∷ "--output-keyvalue" ∷ []) >>= λ out.
    ok (record {
      id = sid;
      number = get_or_empty "sms.content.number" (kv out);
      text = get_or_empty "sms.content.text" (kv out);
      timestamp = get_or_empty "sms.properties.timestamp" (kv out);
    })

read_listed : Shell → List String → Result (List Sms)
unfolding read_sms after_colon
read_listed shell [] = ok []
read_listed shell (line ∷ lines) =
    let rest = read_listed shell lines in
    if contains ".value" line && contains "/SMS/" line
    then (after_colon line >>= λ path.
        read_sms shell (after_last b'/' (strip path)) >>= λ sms. rest >>= λ msgs. ok (sms ∷ msgs))
    else rest

unfoldable pub list_sms : Shell → String → Result (List Sms)
unfolding read_listed
list_sms shell mid =
    run shell ("mmcli" ∷ "-m" ∷ mid ∷ "--messaging-list-sms" ∷ "--output-keyvalue" ∷ []) >>= λ out.
    read_listed shell (splitlines out)

-- `.rstrip("'\"")`
is_quote : ℕ → Bool
is_quote c = eqb c b'\'' || eqb c 34

-- The shell of the send comes after the message was created.
unfoldable pub send_sms : Shell → Shell → String → String → String → Result String
unfolding is_quote
send_sms shell next mid number text =
    run shell (
      "mmcli"
      ∷ "-m"
      ∷ mid
      ∷ ("--messaging-create-sms=number=" <> number <> ",text='" <> text <> "'")
      ∷ [])
    >>= λ create.
        run next
          ("mmcli" ∷ "-s" ∷ right_strip is_quote (after_last b'/' (strip create)) ∷ "--send" ∷ [])

unfoldable pub send_ussd : Shell → String → String → Result String
send_ussd shell mid dialled =
    run shell
      ("mmcli" ∷ "-m" ∷ mid ∷ ("--3gpp-ussd-initiate=" <> dialled) ∷ "--output-keyvalue" ∷ [])
    >>= λ out.
        ok
          (elim (or_else (dict_get "modem.3gpp.ussd.network-response" (kv out))
            (dict_get "3gpp.ussd.network-response" (kv out))) [
              | none ↦ strip out
              | some resp ↦ resp
            ])

-- control_safe_ip catches an MMError only.
unfoldable pub control_safe_ip : Shell → String → Result (Option String)
control_safe_ip shell mid = elim (bearer_ip shell mid) [
  | ok ip ↦ ok ip
  | err e ↦ elim e [ mm_error text ↦ ok none | other ↦ err other ]
]

unfoldable pub id_among : Shell → String → List String → Result (Option String)
id_among shell imei [] = ok none
id_among shell imei (mid ∷ mids) =
    let rest = id_among shell imei mids in
    elim (modem_info shell mid) [
      | ok info ↦ elim info.imei [
        | none ↦ rest
        | some i ↦ if i == imei then ok (some mid) else rest
      ]
      | err e ↦ elim e [ mm_error text ↦ rest | other ↦ err other ]
    ]

-- _mm_id_for
unfoldable pub mm_id_for : Shell → String → Result (Option String)
unfolding id_among
mm_id_for shell imei = list_modem_ids shell >>= λ ids. id_among shell imei ids
