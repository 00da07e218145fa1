-- ===== src/Bands.antt =====
-- modemproxy/modems/bands.py: mask_to_bands and bands_to_mask.
pub mod Lock
pub mod Scan
use modemproxy.Prelude.{
  ℕ, zero, suc, ◌+◌, ◌-◌, ◌*◌, ◌/◌, ◌%◌, ◌≤◌, ◌<◌, ◌≡◌, refl, ◌∙◌, ap, String, Option, none, some,
  Bool, true, false, ◌&&◌, ◌||◌, List, [], ◌∷◌, if◌then◌else◌, ltb, leb, eqb, nonzero, has_nat,
  arith, Bool-cases, inl, inr,
}
use modemproxy.Text.{◌<>◌, decimal}
use modemproxy.Text.Cut.{strip, drop_prefix, digits, is_space}
use modemproxy.Text.Hex.{hex, hex_into, hex-hex_into, has_no-hex_into, strip-plain}
use modemproxy.Result.{Result, ok, err, band_error, ◌>>=◌}

-- `mask >> i & 1`
unfoldable pub has_bit : ℕ → ℕ → Bool
has_bit zero mask = eqb (mask % 2) 1
has_bit (suc i) mask = has_bit i (mask / 2)

-- `value | 1 << i`
unfoldable pub set_bit : ℕ → ℕ → ℕ
set_bit zero value = value + (if eqb (value % 2) 1 then 0 else 1)
set_bit (suc i) value = value % 2 + 2 * set_bit i (value / 2)

-- The rounds from `i` on of `for i in range(64)`.
bands_from : ℕ → ℕ → ℕ → List ℕ
bands_from i zero mask = []
bands_from i (suc left) mask =
    let rest = bands_from (suc i) left mask in if has_bit i mask then suc i ∷ rest else rest

-- The bands of a mask that is a number.
unfoldable pub bands_of : ℕ → List ℕ
unfolding bands_from
bands_of mask = bands_from 0 64 mask

abbrev pub first_of : Option String → Option String → Option String
first_of none b = b
first_of (some a) b = some a

-- `int(mask, 16 if mask.lower().startswith("0x") else 10)`; none where it raises.
parse_mask : String → Option ℕ
parse_mask s = elim (first_of (drop_prefix "0x" s) (drop_prefix "0X" s)) [
  | none ↦ digits s
  | some h ↦ hex h
]

-- A text that is no number has no bands.
unfoldable pub mask_to_bands : String → List ℕ
unfolding parse_mask
mask_to_bands mask = elim (parse_mask (strip mask)) [ none ↦ [] | some n ↦ bands_of n ]

add_bands : List ℕ → ℕ → Result ℕ
add_bands [] value =
    if nonzero value then ok value else err (band_error "nessuna banda selezionata")
add_bands (b ∷ bs) value =
    let rest = add_bands bs (set_bit (b - 1) value) in
    if ltb b 1 || ltb 64 b then err (band_error ("banda LTE non valida: " <> decimal b)) else rest

-- `f"0x{value:x}"`; a mask has at most 16 digits.
unfoldable pub mask_text : ℕ → String
mask_text value = String.◌∷◌ "0" (String.◌∷◌ "x" (hex_into 16 value ""))

unfoldable pub bands_to_mask : List ℕ → Result String
unfolding add_bands
bands_to_mask bands = add_bands bands 0 >>= λ value. ok (mask_text value)

has_bit-set_bit : (i k value : ℕ) → has_bit i (set_bit k value) ≡ (eqb i k || has_bit i value)
unfolding has_bit set_bit
has_bit-set_bit zero zero value = ground arith
has_bit-set_bit zero (suc k) value = ground arith
has_bit-set_bit (suc i) zero value = ground arith
has_bit-set_bit (suc i) (suc k) value = ground (arith, has_bit-set_bit i k (value / 2))

has_bit_zero : (i : ℕ) → has_bit i 0 ≡ false
unfolding has_bit
has_bit_zero zero = refl
has_bit_zero (suc i) = has_bit_zero i

has_nat-bands_from :
    (i left b mask : ℕ)
    → has_nat b (bands_from i left mask) ≡ (ltb i b && leb b (i + left) && has_bit (b - 1) mask)
unfolding bands_from has_nat
has_nat-bands_from i zero b mask = ground arith
has_nat-bands_from i (suc left) b mask = elim (Bool-cases (eqb (suc i) b)) [
  | inl same ↦
      let e : b ≡ suc i = ground arith in
      let f : b - 1 ≡ i = omega (arith, e) in
      ground (arith, f, e, has_nat-bands_from (suc i) left b mask)
  | inr other ↦ ground (arith, other, has_nat-bands_from (suc i) left b mask)
]

-- The loop adds each band's bit to those that are there, or raises.
add_bands_lem :
    (bands : List ℕ) (value mask b : ℕ)
    → add_bands bands value ≡ ok mask
    → 0 < b
    → (has_bit (b - 1) mask ≡ (has_nat b bands || has_bit (b - 1) value))
      × (has_nat b bands ≡ true → b ≤ 64)
unfolding add_bands has_nat
add_bands_lem [] value mask b h pos = (ground arith, λ e. absurd (cc e))
add_bands_lem (x ∷ bands) value mask b h pos = elim (Bool-cases (ltb x 1 || ltb 64 x)) [
  | inl bad ↦ absurd (ground (arith, bad))
  | inr good ↦
      let rest = add_bands_lem bands (set_bit (x - 1) value) mask b (ground (arith, good)) pos in
      (
        ground (arith, good, rest.0, has_bit-set_bit (b - 1) (x - 1) value),
        ground (arith, good, rest.1),
      )
]

within_mask :
    (b : ℕ) (listed read blank : Bool)
    → 0 < b
    → read ≡ (listed || blank)
    → blank ≡ false
    → (listed ≡ true → b ≤ 64)
    → (ltb 0 b && leb b (0 + 64) && read) ≡ listed
within_mask b listed read blank pos e f small = ground arith

-- Powers of two.
abbrev two_to : ℕ → ℕ
two_to zero = 1
two_to (suc n) = 2 * two_to n

set_bit-bound : (n k value : ℕ) → k < n → value < two_to n → set_bit k value < two_to n
unfolding set_bit
set_bit-bound zero k value lt small = absurd (omega (arith, lt))
set_bit-bound (suc n) zero value lt small = grind (arith, small)
set_bit-bound (suc n) (suc k) value lt small =
    let rest = set_bit-bound n k (value / 2) (omega (arith, lt)) (omega (arith, small)) in
    omega (arith, rest)

add_bands-bound :
    (bands : List ℕ) (value mask : ℕ)
    → value < two_to 64
    → add_bands bands value ≡ ok mask
    → mask < two_to 64
unfolding add_bands
add_bands-bound [] value mask small h = ground (arith, small, h)
add_bands-bound (x ∷ bands) value mask small h = elim (Bool-cases (ltb x 1 || ltb 64 x)) [
  | inl bad ↦ absurd (ground (arith, bad, h))
  | inr good ↦
      add_bands-bound bands (set_bit (x - 1) value) mask
        (set_bit-bound 64 (x - 1) value (ground (arith, good)) small) (ground (arith, good, h))
]

strip-mask_text : (value : ℕ) → value < two_to 64 → strip (mask_text value) ≡ mask_text value
unfolding mask_text is_space
strip-mask_text value small =
    strip-plain (mask_text value) (has_no-hex_into 16 value "" (omega (arith, small)) refl)

parse_mask-mask_text : (value : ℕ) → value < two_to 64 → parse_mask (mask_text value) ≡ some value
unfolding parse_mask mask_text drop_prefix
parse_mask-mask_text value small = hex-hex_into 16 value (omega (arith, small))

-- The text of a mask is read back as its number.
mask_to_bands-mask_text :
    (value : ℕ) → value < two_to 64 → mask_to_bands (mask_text value) ≡ bands_of value
unfolding mask_to_bands bands_of drop_prefix mask_text
mask_to_bands-mask_text value small =
    rw (mask_to_bands, strip-mask_text value small, parse_mask-mask_text value small) refl

value_of :
    (r : Result ℕ) (mask : String)
    → (r >>= λ value. ok (mask_text value)) ≡ ok mask
    → (value : ℕ) × (r ≡ ok value) × (mask ≡ mask_text value)
value_of (ok value) mask h = (value, refl, ground (arith, h))
value_of (err e) mask h = absurd (cc h)

-- The text of a mask that is made from a list of bands, without an error, is read back as the bands of
-- the list.
pub mask_to_bands-bands_to_mask :
    (bands : List ℕ) (mask : String) (b : ℕ)
    → bands_to_mask bands ≡ ok mask
    → 0 < b
    → has_nat b (mask_to_bands mask) ≡ has_nat b bands
unfolding bands_to_mask bands_of
mask_to_bands-bands_to_mask bands mask b h pos =
    let (value, e, same) = value_of (add_bands bands 0) mask h in
    let made = add_bands_lem bands 0 value b e pos in
    ap (λ m. has_nat b (mask_to_bands m)) same
    ∙ ap (has_nat b) (mask_to_bands-mask_text value (add_bands-bound bands 0 value (omega arith) e))
    ∙ has_nat-bands_from 0 64 b value
    ∙ within_mask b (has_nat b bands) _ _ pos made.0 (has_bit_zero (b - 1)) made.1
