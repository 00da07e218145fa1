-- ===== src/Text/Hex.antt =====
-- Numbers in hexadecimal digits, as format(n, "x") writes them and int(s, 16) reads them.
use Prim.Native.Char.{Char, code}
use modemproxy.Prelude.{
  ℕ, zero, suc, ◌+◌, ◌*◌, ◌/◌, ◌%◌, ◌<◌, ◌≡◌, refl, ◌∙◌, String, Bool, true, false, not, ◌&&◌,
  Option, none, some, if◌then◌else◌, ltb, eqb, nonempty, arith, Bool-cases, inl, inr, eqb_iff, ap,
  str_ne, if_cases,
}
use modemproxy.Text.{hex_digit}
use modemproxy.Text.Cut.{strip, right_strip, is_space}
use modemproxy.Text.Split.{has_no}

unfoldable pub hex_value : String → ℕ → Option ℕ
unfolding hex_digit
hex_value String.[] n = some n
hex_value (String.◌∷◌ c s) n = elim (hex_digit (code c)) [
  | none ↦ none
  | some d ↦ hex_value s (16 * n + d)
]

-- `int(text, 16)` after "0x", which wants a digit.
unfoldable pub hex : String → Option ℕ
unfolding hex_value
hex s = if nonempty s then hex_value s 0 else none

hex_char : ℕ → Char
hex_char d =
    if eqb d 0
    then "0"
    else if eqb d 1
    then "1"
    else if eqb d 2
    then "2"
    else if eqb d 3
    then "3"
    else if eqb d 4
    then "4"
    else if eqb d 5
    then "5"
    else if eqb d 6
    then "6"
    else if eqb d 7
    then "7"
    else if eqb d 8
    then "8"
    else if eqb d 9
    then "9"
    else if eqb d 10
    then "a"
    else if eqb d 11
    then "b"
    else if eqb d 12
    then "c"
    else if eqb d 13
    then "d"
    else if eqb d 14
    then "e"
    else "f"

-- The digits of the number before those that are there, the lowest first; at most one more than the fuel.
unfoldable pub hex_into : ℕ → ℕ → String → String
unfolding hex_char
hex_into zero n s = String.◌∷◌ (hex_char n) s
hex_into (suc f) n s =
    let more = hex_into f (n / 16) (String.◌∷◌ (hex_char (n % 16)) s) in
    if ltb n 16 then String.◌∷◌ (hex_char n) s else more

reads_back : ℕ → Bool
unfolding hex_digit hex_char is_space
reads_back d = elim (hex_digit (code (hex_char d))) [
  | none ↦ false
  | some v ↦ eqb v d && not (is_space (code (hex_char d)))
]

all_below : ℕ → Bool
unfolding reads_back
all_below zero = true
all_below (suc n) = reads_back n && all_below n

all_below-16 : all_below 16 ≡ true
unfolding all_below reads_back hex_digit hex_char is_space
all_below-16 = refl

below-all_below : (n d : ℕ) → all_below n ≡ true → d < n → reads_back d ≡ true
unfolding all_below
below-all_below zero d h lt = absurd (omega (arith, lt))
below-all_below (suc n) d h lt = elim (Bool-cases (eqb d n)) [
  | inl same ↦ rw ((eqb_iff d n).0 same) (ground (arith, h))
  | inr other ↦ below-all_below n d (ground (arith, h)) (ground (arith, other, lt))
]

hex_char-digit :
    (d : ℕ)
    → d < 16
    → (hex_digit (code (hex_char d)) ≡ some d) × (is_space (code (hex_char d)) ≡ false)
unfolding reads_back
hex_char-digit d lt =
    let h = below-all_below 16 d all_below-16 lt in (ground (arith, h), ground (arith, h))

-- The largest number that so many rounds write.
abbrev pub hex_bound : ℕ → ℕ
hex_bound zero = 16
hex_bound (suc f) = 16 * hex_bound f

hex_value-digit :
    (d n : ℕ) (s : String)
    → d < 16
    → hex_value (String.◌∷◌ (hex_char d) s) n ≡ hex_value s (16 * n + d)
unfolding hex_value
hex_value-digit d n s lt = rw (hex_value, (hex_char-digit d lt).0) refl

-- What was written is read back, before what comes after it.
hex_value-hex_into :
    (f n : ℕ) (s : String) → n < hex_bound f → hex_value (hex_into f n s) 0 ≡ hex_value s n
unfolding hex_into
hex_value-hex_into zero n s lt = hex_value-digit n 0 s lt ∙ ap (hex_value s) (omega arith)
hex_value-hex_into (suc f) n s lt = elim (Bool-cases (ltb n 16)) [
  | inl small ↦
      rw small (hex_value-digit n 0 s (ground (arith, small)) ∙ ap (hex_value s) (omega arith))
  | inr big ↦ rw big (
      hex_value-hex_into f (n / 16) (String.◌∷◌ (hex_char (n % 16)) s) (omega (arith, lt))
      ∙ hex_value-digit (n % 16) (n / 16) s (omega arith)
      ∙ ap (hex_value s) (omega arith))
]

pub has_no-hex_into :
    (f n : ℕ) (s : String)
    → n < hex_bound f
    → has_no is_space s ≡ true
    → has_no is_space (hex_into f n s) ≡ true
unfolding hex_into
has_no-hex_into zero n s lt h = rw (hex_char-digit n lt).1 h
has_no-hex_into (suc f) n s lt h = elim (Bool-cases (ltb n 16)) [
  | inl small ↦ rw (small, (hex_char-digit n (ground (arith, small))).1) h
  | inr big ↦ rw big (
      has_no-hex_into f (n / 16) _ (omega (arith, lt))
        (rw (hex_char-digit (n % 16) (omega arith)).1 h))
]

right_strip-plain : (s : String) → has_no is_space s ≡ true → right_strip is_space s ≡ s
unfolding right_strip
right_strip-plain String.[] h = refl
right_strip-plain (String.◌∷◌ c s) h = ground (arith, h, right_strip-plain s (ground (arith, h)))

pub strip-plain : (s : String) → has_no is_space s ≡ true → strip s ≡ s
unfolding strip
strip-plain String.[] h = refl
strip-plain (String.◌∷◌ c s) h = ground (arith, h, right_strip-plain (String.◌∷◌ c s) h)

some_text : (c : Char) (s : String) → nonempty (String.◌∷◌ c s) ≡ true
some_text c s = ground (arith, str_ne (String.◌∷◌ c s) "" (λ e. cc e))

hex_into-nonempty : (f n : ℕ) (s : String) → nonempty (hex_into f n s) ≡ true
unfolding hex_into
hex_into-nonempty zero n s = some_text (hex_char n) s
hex_into-nonempty (suc f) n s =
    if_cases (λ t. nonempty t ≡ true) (ltb n 16) _ _ (λ small. some_text (hex_char n) s)
      (λ big. hex_into-nonempty f (n / 16) (String.◌∷◌ (hex_char (n % 16)) s))

-- A number is read back from its hexadecimal digits.
pub hex-hex_into : (f n : ℕ) → n < hex_bound f → hex (hex_into f n "") ≡ some n
unfolding hex hex_value
hex-hex_into f n lt = rw (hex_into-nonempty f n "") (hex_value-hex_into f n "" lt)
