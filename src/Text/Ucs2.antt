-- ===== src/Text/Ucs2.antt =====
-- modemproxy/modems/netdev.py: _ucs2_encode and _ucs2_decode, texts as UTF-16 in hexadecimal digits.
pub mod Inverse
use Prim.Native.Nat.{Ordering, compare}
use Prim.Native.Char.{Char, char, code, IsLt, IsScalar}
use mathlib.Core.Option
use text.Mathlib.TextEquality.{Char-path}
use modemproxy.Prelude.{
  ℕ, zero, suc, Bool-cases, eqb_iff, ◌+◌, ◌-◌, ◌*◌, ◌/◌, ◌%◌, ◌<◌, ◌≡◌, refl, ◌∙◌, ap, String, Bool,
  true, false, not, ◌&&◌, ◌||◌, List, [], ◌∷◌, ◌++◌, Option, none, some, arith, if◌then◌else◌, ltb,
  leb, eqb, All, All-append, ◌⊎◌, Option-cases, inl, inr,
}
use modemproxy.Text.{hex_digit}

-- The comparisons of `IsScalar`, whose names are private to its module.
abbrev BothLt : Ordering → Ordering → Type 0
BothLt Ordering.lt o = IsLt o
BothLt Ordering.eq _ = ⊥
BothLt Ordering.gt _ = ⊥

abbrev InRange : Ordering → Ordering → Ordering → Type 0
InRange Ordering.lt _ _ = Unit
InRange Ordering.eq o p = BothLt o p
InRange Ordering.gt o p = BothLt o p

both_in : (o p : Ordering) → Option (BothLt o p)
both_in Ordering.lt Ordering.lt = some tt
both_in Ordering.lt Ordering.eq = none
both_in Ordering.lt Ordering.gt = none
both_in Ordering.eq p = none
both_in Ordering.gt p = none

in_range : (o p q : Ordering) → Option (InRange o p q)
unfolding both_in
in_range Ordering.lt p q = some tt
in_range Ordering.eq p q = both_in p q
in_range Ordering.gt p q = both_in p q

replacement : Char
replacement = char 65533 tt

-- `chr(n)`, and the replacement character where there is none.
unfoldable pub char_of : ℕ → Char
unfolding in_range replacement
char_of n = elim (in_range (compare n 55296) (compare 57343 n) (compare n 1114112)) [
  | none ↦ replacement
  | some p ↦ char n p
]

-- The bytes of a character in UTF-16, the high byte of a unit first.
unfoldable pub char_bytes : ℕ → List ℕ
char_bytes c =
    if ltb c 65536
    then c / 256 ∷ c % 256 ∷ []
    else (216 + (c - 65536) / 262144)
      ∷ (c - 65536) / 1024 % 256
      ∷ (220 + (c - 65536) / 256 % 4)
      ∷ (c - 65536) % 256
      ∷ []

unfoldable pub utf16 : String → List ℕ
unfolding char_bytes
utf16 String.[] = []
utf16 (String.◌∷◌ c s) = char_bytes (code c) ++ utf16 s

pub upper_hex : ℕ → Char
upper_hex d =
    if eqb d 0
    then "0"
    else if eqb d 1
    then "1"
    else if eqb d 2
    then "2"
    else if eqb d 3
    then "3"
    else if eqb d 4
    then "4"
    else if eqb d 5
    then "5"
    else if eqb d 6
    then "6"
    else if eqb d 7
    then "7"
    else if eqb d 8
    then "8"
    else if eqb d 9
    then "9"
    else if eqb d 10
    then "A"
    else if eqb d 11
    then "B"
    else if eqb d 12
    then "C"
    else if eqb d 13
    then "D"
    else if eqb d 14
    then "E"
    else "F"

-- `bytes.hex().upper()`
unfoldable pub to_hex : List ℕ → String
unfolding upper_hex
to_hex [] = ""
to_hex (b ∷ bs) = String.◌∷◌ (upper_hex (b / 16)) (String.◌∷◌ (upper_hex (b % 16)) (to_hex bs))

unfoldable pub ucs2_encode : String → String
unfolding utf16 to_hex
ucs2_encode s = to_hex (utf16 s)

pub is_blank : ℕ → Bool
is_blank c = eqb c 32 || (leb 9 c && leb c 13)

with_byte : Option ℕ → Option ℕ → Option (List ℕ) → Option (List ℕ)
with_byte (some h) (some l) (some bs) = some ((16 * h + l) ∷ bs)
with_byte _ _ _ = none

-- `bytes.fromhex(s)`, which passes over blanks between bytes and raises at all else.
unfoldable pub from_hex : String → Option (List ℕ)
unfolding is_blank with_byte
from_hex String.[] = some []
from_hex (String.◌∷◌ c String.[]) = if is_blank (code c) then some [] else none
from_hex (String.◌∷◌ c (String.◌∷◌ d s)) =
    let rest = from_hex (String.◌∷◌ d s) in
    let byte = with_byte (hex_digit (code c)) (hex_digit (code d)) (from_hex s) in
    if is_blank (code c) then rest else byte

is_high : ℕ → Bool
is_high u = leb 55296 u && leb u 56319

is_low : ℕ → Bool
is_low u = leb 56320 u && leb u 57343

-- `b.decode("utf-16-be", "replace")`
unfoldable pub from_utf16 : List ℕ → String
unfolding is_high is_low replacement
from_utf16 [] = ""
from_utf16 (a ∷ []) = String.◌∷◌ replacement ""
from_utf16 (a ∷ b ∷ []) =
    String.◌∷◌ (if is_high (256 * a + b) then replacement else char_of (256 * a + b)) ""
from_utf16 (a ∷ b ∷ c ∷ []) =
    let rest = from_utf16 (c ∷ []) in
    if is_high (256 * a + b)
    then String.◌∷◌ replacement ""
    else String.◌∷◌ (char_of (256 * a + b)) rest
from_utf16 (a ∷ b ∷ c ∷ d ∷ bs) =
    let next = from_utf16 (c ∷ d ∷ bs) in
    let after = from_utf16 bs in
    if is_high (256 * a + b) && is_low (256 * c + d)
    then String.◌∷◌ (char_of (65536 + 1024 * (256 * a + b - 55296) + (256 * c + d - 56320))) after
    else String.◌∷◌ (char_of (256 * a + b)) next

-- _ucs2_decode: a text that is not in hexadecimal digits is left alone.
unfoldable pub ucs2_decode : String → String
unfolding from_hex from_utf16
ucs2_decode s = elim (from_hex s) [ none ↦ s | some bs ↦ from_utf16 bs ]

hello : ucs2_encode "Aé€😀" ≡ "004100E920ACD83DDE00"
unfolding ucs2_encode
hello = refl

hello_back : ucs2_decode "004100e920acD83DDE00" ≡ "Aé€😀"
unfolding ucs2_decode char_of hex_digit
hello_back = refl
