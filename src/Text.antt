-- ===== src/Text.antt =====
-- Texts built and cut as Python does: decimal numbers, the last characters, the letters and digits.
pub mod Cut
pub mod Split
pub mod Hex
pub mod Ascii
pub mod Ucs2
pub mod Number
use Prim.Native.Char.{code}
use Prim.Native.String.{◌++◌}
use modemproxy.Prelude.{
  ℕ, zero, suc, ◌-◌, ◌/◌, ◌%◌, String, Bool, ◌&&◌, ◌||◌, eqb, leb, ltb, if◌then◌else◌, ◌≡◌, refl,
  Option, none, some, ◌+◌,
}

infixr 65 ◌<>◌
abbrev pub ◌<>◌ : String → String → String
a <> b = a ++ b

abbrev digit : ℕ → String
digit n =
    if eqb n 0
    then "0"
    else if eqb n 1
    then "1"
    else if eqb n 2
    then "2"
    else if eqb n 3
    then "3"
    else if eqb n 4
    then "4"
    else if eqb n 5
    then "5"
    else if eqb n 6
    then "6"
    else if eqb n 7
    then "7"
    else if eqb n 8
    then "8"
    else "9"

-- str(n); a number has at most as many digits as its value plus one.
decimal_fuel : ℕ → ℕ → String
decimal_fuel zero n = digit n
decimal_fuel (suc f) n =
    let high = decimal_fuel f (n / 10) in if ltb n 10 then digit n else high <> digit (n % 10)

unfoldable pub decimal : ℕ → String
unfolding decimal_fuel
decimal n = decimal_fuel n n

pub is_alnum : ℕ → Bool
is_alnum c = (leb b'0' c && leb c b'9') || (leb b'A' c && leb c b'Z') || (leb b'a' c && leb c b'z')

-- re.sub(r"[^A-Za-z0-9]", "", s)
unfoldable pub alnum_only : String → String
unfolding is_alnum
alnum_only String.[] = ""
alnum_only (String.◌∷◌ c s) =
    if is_alnum (code c) then String.◌∷◌ c (alnum_only s) else alnum_only s

-- re.sub(r"[^A-Za-z0-9]", "_", s)
unfoldable pub underscored : String → String
underscored String.[] = ""
underscored (String.◌∷◌ c s) =
    if is_alnum (code c) then String.◌∷◌ c (underscored s) else "_" <> underscored s

-- The value of a hexadecimal digit.
unfoldable pub hex_digit : ℕ → Option ℕ
hex_digit c =
    if leb b'0' c && leb c b'9'
    then some (c - b'0')
    else (if leb b'a' c && leb c b'f'
        then some (c - b'a' + 10)
        else (if leb b'A' c && leb c b'F' then some (c - b'A' + 10) else none))

unfoldable pub count_chars : String → ℕ
count_chars String.[] = 0
count_chars (String.◌∷◌ c s) = suc (count_chars s)

drop_chars : ℕ → String → String
drop_chars zero s = s
drop_chars (suc n) String.[] = ""
drop_chars (suc n) (String.◌∷◌ c s) = drop_chars n s

-- s[-n:]
unfoldable pub last_chars : ℕ → String → String
unfolding count_chars drop_chars
last_chars n s = drop_chars (count_chars s - n) s

slug_of_net : alnum_only "net-enx0c5b8f279a64" ≡ "netenx0c5b8f279a64"
unfolding alnum_only
slug_of_net = refl

last_six : last_chars 6 "867962041234567" ≡ "234567"
unfolding last_chars
last_six = refl

decimal_of : decimal 1203 ≡ "1203"
unfolding decimal
decimal_of = refl
