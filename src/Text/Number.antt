-- ===== src/Text/Number.antt =====
-- modemproxy/modems/netdev.py: _num, the first decimal number in a text, exactly.
use Prim.Native.Char.{code}
use modemproxy.Prelude.{
  ℕ, zero, suc, ◌+◌, ◌-◌, ◌*◌, ◌/◌, ◌%◌, ◌^◌, ◌≡◌, refl, String, Bool, true, false, not, ◌&&◌,
  Option, none, some, if◌then◌else◌, ltb, leb, eqb,
}

-- `units / 10 ^ places`, or its opposite
pub record Num : Type 0 where
  pub negative : Bool
  pub units : ℕ
  pub places : ℕ

-- The digits at the start of a text, added to `n`: how many, the number, and what comes after them.
digits_at : String → ℕ → ℕ → ℕ × ℕ × String
digits_at String.[] k n = (k, n, "")
digits_at (String.◌∷◌ c s) k n =
    let rest = digits_at s (suc k) (10 * n + (code c - b'0')) in
    if leb b'0' (code c) && leb (code c) b'9' then rest else (k, n, String.◌∷◌ c s)

fraction_at : ℕ → String → ℕ × ℕ
unfolding digits_at
fraction_at n String.[] = (0, n)
fraction_at n (String.◌∷◌ c s) =
    let found = digits_at s 0 n in if eqb (code c) b'.' then (found.0, found.1) else (0, n)

-- Without the zeros at the end of the fraction, so that a whole number has no places.
unpadded : Bool → ℕ → ℕ → Num
unpadded negative units zero = record {
  negative = negative && not (eqb units 0);
  units = units;
  places = 0;
}
unpadded negative units (suc p) =
    let shorter = unpadded negative (units / 10) p in
    if eqb (units % 10) 0
    then shorter
    else record { negative = negative; units = units; places = suc p }

number_at : Bool → String → Option Num
unfolding digits_at fraction_at unpadded
number_at negative s =
    let found = digits_at s 0 0 in
    let decimals = fraction_at found.1 found.2 in
    if eqb found.0 0 then none else some (unpadded negative decimals.1 decimals.0)

-- `re.search(r"-?\d+(?:\.\d+)?", s)`
unfoldable pub num : String → Option Num
unfolding number_at
num String.[] = none
num (String.◌∷◌ c s) =
    let here = number_at (eqb (code c) b'-') (if eqb (code c) b'-' then s else String.◌∷◌ c s) in
    let later = num s in elim here [ some n ↦ some n | none ↦ later ]

signed_sum : Bool → ℕ → Bool → ℕ → ℕ → Num
signed_sum true a true b places = record { negative = true; units = a + b; places = places }
signed_sum false a false b places = record { negative = false; units = a + b; places = places }
signed_sum true a false b places =
    if ltb b a
    then record { negative = true; units = a - b; places = places }
    else record { negative = false; units = b - a; places = places }
signed_sum false a true b places =
    if ltb a b
    then record { negative = true; units = b - a; places = places }
    else record { negative = false; units = a - b; places = places }

-- `a + 2 * b`
unfoldable pub add_twice : Num → Num → Num
unfolding signed_sum
add_twice a b =
    signed_sum a.negative (a.units * 10 ^ b.places) b.negative (2 * b.units * 10 ^ a.places)
      (a.places + b.places)

at_most : Bool → ℕ → Bool → ℕ → Bool
at_most true a true b = leb b a
at_most true a false b = true
at_most false a true b = eqb a 0 && eqb b 0
at_most false a false b = leb a b

-- `a <= b`
unfoldable pub num_le : Num → Num → Bool
unfolding at_most
num_le a b = at_most a.negative (a.units * 10 ^ b.places) b.negative (b.units * 10 ^ a.places)

num_test :
    (num "rsrp -95.10 dBm" ≡ some (record { negative = true; units = 951; places = 1 }))
    × (num "- " ≡ none)
    × (num "7." ≡ some (record { negative = false; units = 7; places = 0 }))
unfolding num
num_test = (refl, refl, refl)
