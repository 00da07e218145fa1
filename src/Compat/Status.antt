-- ===== src/Compat/Status.antt =====
-- modemproxy/web/compat.py: _split_operator, _modem_status, reset_modem_by_imei, reboot_modem and
-- unique_ips_json.
use modemproxy.Prelude.{
  ℤ, pos, negsuc, zero, suc, ℕ, ◌+◌, ◌/◌, ◌%◌, ◌≤◌, min, ◌≡◌, ◌↔◌, refl, ◌∙◌, String, Bool, true,
  false, not, ◌&&◌, ◌||◌, List, [], ◌∷◌, ◌++◌, Option, none, some, arith, if◌then◌else◌, ltb, eqb,
  ◌==◌, nonempty, or_text, has_text, map, eq_iff, if_cases,
}
use modemproxy.Text.Cut.{drop_prefix, strip, contains, starts_with}
use modemproxy.Result.{ok}
use modemproxy.Db.Rows.{Modem, Rotation, Store}
use modemproxy.Db.Listing.{Listed, list_modems}
use modemproxy.Db.Rotation.{rotation_log}
use modemproxy.Generator.Sync.{System}
use modemproxy.Manager.{Field, rotate}
use modemproxy.Web.{Reply, refuse}
use modemproxy.Compat.{on_modem}

-- `s.rsplit(sep, 1)`, where the separator is there.
unfoldable pub split_last : String → String → Option (String × String)
split_last sep String.[] = none
split_last sep (String.◌∷◌ c s) = elim (split_last sep s) [
  | some (before, after) ↦ some (String.◌∷◌ c before, after)
  | none ↦ elim (drop_prefix sep (String.◌∷◌ c s)) [ none ↦ none | some after ↦ some ("", after) ]
]

unfoldable pub split_operator : Option String → String × String
unfolding split_last
split_operator none = ("", "")
split_operator (some op) = elim (split_last " · " op) [
  | none ↦ (op, "")
  | some (a, b) ↦ (strip a, strip b)
]

-- `round(n / 20)`: a half goes to the even neighbour.
twentieths : ℕ → ℕ
twentieths n =
    let whole = n / 20 in
    let rest = n % 20 in
    if ltb rest 10
    then whole
    else (if ltb 10 rest then whole + 1 else (if eqb (whole % 2) 0 then whole else whole + 1))

negative : ℕ → ℤ
negative zero = pos zero
negative (suc n) = negsuc n

-- `round(sig / 20)`, which rounds a negative number as its opposite.
bars : ℤ → ℤ
unfolding twentieths negative
bars (pos n) = pos (twentieths n)
bars (negsuc n) = negative (twentieths (suc n))

-- `min(5, n)`
at_most_5 : ℤ → ℤ
at_most_5 (pos n) = pos (min 5 n)
at_most_5 (negsuc n) = negsuc n

-- `max(0, n)`
at_least_0 : ℤ → ℤ
at_least_0 (pos n) = pos n
at_least_0 (negsuc n) = pos zero

-- `int(m.get("signal") or 0)`
signal_of : Option ℤ → ℤ
signal_of none = pos zero
signal_of (some n) = n

-- The fields that are computed; MODEL, addresses and radio details are passed through.
pub record ModemStatus : Type 0 where
  pub imei : String
  pub nickname : String
  pub is_online : String
  pub connection_status : String
  pub signal_strength : ℤ
  pub network_type : String
  pub operator : String

unfoldable pub modem_status : Modem → ModemStatus
unfolding bars split_operator at_least_0 at_most_5 signal_of
modem_status m =
    let online = m.status == "online" in
    let split = split_operator m.operator in
    record {
      imei = m.imei;
      nickname = or_text m.name m.imei;
      is_online = if online then "yes" else "no";
      connection_status = if online then "connected" else "offline";
      signal_strength = at_least_0 (at_most_5 (bars (signal_of m.signal)));
      network_type = split.1;
      operator = split.0;
    }

-- The rotation that the handler's thread runs; its outcome is swallowed, the answer is always OK.
rotate_in_thread : (String → Field) → ℕ → Listed → System → Reply Bool
rotate_in_thread fields now r sys =
    if has_text r.modem.imei sys.config.rotation_hook_exclude
    then refuse 403 "rotation disabled for this modem" sys
    else record {
      value = ok true;
      sys = (rotate (fields r.modem.imei) r.modem.imei "proxybet" now sys).sys;
    }

unfoldable pub reset_modem_by_imei : (String → Field) → ℕ → Option String → System → Reply Bool
unfolding rotate_in_thread on_modem
reset_modem_by_imei fields now arg sys = on_modem arg sys (λ r. rotate_in_thread fields now r sys)

unfoldable pub get_rotation_log : Option String → System → Reply (List Rotation)
unfolding on_modem
get_rotation_log arg sys =
    on_modem arg sys
      (λ r. record { value = ok (rotation_log (some r.modem.imei) 100 sys.db); sys = sys })

-- `if ip and ip not in ips: ips.append(ip)`
add_ip : Option String → List String → List String
add_ip none ips = ips
add_ip (some ip) ips = if nonempty ip && not (has_text ip ips) then ips ++ ip ∷ [] else ips

add_rows : List Rotation → List String → List String
add_rows [] ips = ips
add_rows (r ∷ rs) ips = add_rows rs (add_ip r.old_ip (add_ip r.new_ip ips))

front_ip : Option String → List String → List String
front_ip none ips = ips
front_ip (some ip) ips = if nonempty ip && not (has_text ip ips) then ip ∷ ips else ips

-- The addresses of one modem, of its latest 500 rotations and its own.
unfoldable pub unique_ips : Store → Modem → List String
unfolding add_ip add_rows front_ip
unique_ips s m = front_ip m.ip (add_rows (rotation_log (some m.imei) 500 s) [])

unfoldable pub unique_ips_json : Store → List (String × List String)
unfolding unique_ips
unique_ips_json s = map (λ l. (l.modem.imei, unique_ips s l.modem)) (list_modems s)

clamped : (b : ℤ) → (k : ℕ) × (at_least_0 (at_most_5 b) ≡ pos k) × (k ≤ 5)
unfolding at_least_0 at_most_5
clamped (pos n) = (min 5 n, refl, omega arith)
clamped (negsuc n) = (0, refl, omega arith)

-- The status says "connected" of exactly the modems that are online, and its signal is a number from 0
-- to 5, also for a signal below zero or above 100.
pub modem_status_lem :
    (m : Modem)
    → ((contains "connected" (modem_status m).connection_status ≡ true) ↔ (m.status ≡ "online"))
      × ((k : ℕ) × ((modem_status m).signal_strength ≡ pos k) × (k ≤ 5))
unfolding modem_status contains starts_with
modem_status_lem m = (
  if_cases (λ t. (contains "connected" t ≡ true) ↔ (m.status ≡ "online")) (m.status == "online")
      "connected" "offline" (λ up. ((λ h. (eq_iff m.status "online").0 up), (λ h. refl)))
      (λ down.
        ((λ h. absurd (cc h)), (λ h. absurd (ground (arith, down, eq_iff m.status "online", h))))),
  clamped (bars (signal_of m.signal)),
)

-- An address that counts: some text that is not empty.
abbrev pub is_address : String → Option String → Bool
is_address ip none = false
is_address ip (some a) = nonempty a && a == ip

-- The address was the new or the old one of a rotation.
abbrev pub rotated_with : String → List Rotation → Bool
rotated_with ip [] = false
rotated_with ip (r ∷ rs) = is_address ip r.new_ip || is_address ip r.old_ip || rotated_with ip rs

-- Each element stands once.
abbrev pub Once : List String → Type 0
Once [] = Unit
Once (x ∷ xs) = (has_text x xs ≡ false) × Once xs

has_text-append :
    (a : String) (xs ys : List String) → has_text a (xs ++ ys) ≡ (has_text a xs || has_text a ys)
unfolding has_text
has_text-append a [] ys = refl
has_text-append a (x ∷ xs) ys = ground (arith, has_text-append a xs ys)

Once-append :
    (xs : List String) (y : String) → Once xs → has_text y xs ≡ false → Once (xs ++ y ∷ [])
unfolding has_text
Once-append [] y o h = (refl, tt)
Once-append (x ∷ xs) y o h = (
  has_text-append x xs (y ∷ []) ∙ ground (arith, o.0, h, eq_iff x y, eq_iff y x),
  Once-append xs y o.1 (ground (arith, h)),
)

add_ip_lem :
    (o : Option String) (ips : List String) (ip : String)
    → (has_text ip (add_ip o ips) ≡ (has_text ip ips || is_address ip o))
      × (Once ips → Once (add_ip o ips))
unfolding add_ip has_text
add_ip_lem none ips ip = (ground arith, λ o. o)
add_ip_lem (some a) ips ip = (
  ground (arith, has_text-append ip ips (a ∷ []), eq_iff a ip),
  λ o.
      if_cases Once (nonempty a && not (has_text a ips)) _ _
        (λ new. Once-append ips a o (ground (arith, new))) (λ old. o),
)

add_rows_lem :
    (rs : List Rotation) (ips : List String) (ip : String)
    → (has_text ip (add_rows rs ips) ≡ (has_text ip ips || rotated_with ip rs))
      × (Once ips → Once (add_rows rs ips))
unfolding add_rows has_text
add_rows_lem [] ips ip = (ground arith, λ o. o)
add_rows_lem (r ∷ rs) ips ip =
    let new = add_ip_lem r.new_ip ips ip in
    let old = add_ip_lem r.old_ip (add_ip r.new_ip ips) ip in
    let rest = add_rows_lem rs (add_ip r.old_ip (add_ip r.new_ip ips)) ip in
    (ground (arith, new.0, old.0, rest.0), λ o. rest.1 (old.1 (new.1 o)))

front_ip_lem :
    (o : Option String) (ips : List String) (ip : String)
    → (has_text ip (front_ip o ips) ≡ (is_address ip o || has_text ip ips))
      × (Once ips → Once (front_ip o ips))
unfolding front_ip has_text
front_ip_lem none ips ip = (ground arith, λ o. o)
front_ip_lem (some a) ips ip = (
  ground (arith, eq_iff a ip),
  λ o.
      if_cases Once (nonempty a && not (has_text a ips)) _ _ (λ new. (ground (arith, new), o))
        (λ old. o),
)

-- The addresses of a modem are its own one and those of its latest 500 rotations, each of them once.
pub unique_ips_lem :
    (s : Store) (m : Modem) (ip : String)
    → Once (unique_ips s m)
      × (has_text ip (unique_ips s m)
          ≡ (is_address ip m.ip || rotated_with ip (rotation_log (some m.imei) 500 s)))
unfolding unique_ips has_text
unique_ips_lem s m ip =
    let rows = add_rows_lem (rotation_log (some m.imei) 500 s) [] ip in
    let own = front_ip_lem m.ip (add_rows (rotation_log (some m.imei) 500 s) []) ip in
    (own.1 (rows.1 tt), own.0 ∙ rw rows.0 refl)
