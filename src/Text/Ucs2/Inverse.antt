-- ===== src/Text/Ucs2/Inverse.antt =====
-- _ucs2_decode undoes _ucs2_encode.
use Prim.Native.Nat.{Ordering, compare}
use Prim.Native.Char.{Char, char, code, IsScalar}
use text.Mathlib.TextEquality.{Char-path}
use modemproxy.Prelude.{
  ℕ, zero, suc, Bool-cases, eqb_iff, ◌+◌, ◌-◌, ◌*◌, ◌/◌, ◌%◌, ◌<◌, ◌≡◌, refl, ◌∙◌, ap, String, true,
  false, List, [], ◌∷◌, ◌++◌, some, arith, ltb, eqb, All, All-append, ◌⊎◌, inl, inr,
}
use modemproxy.Text.{hex_digit}
use modemproxy.Text.Ucs2.{
  BothLt, InRange, both_in, in_range, char_of, char_bytes, utf16, upper_hex, to_hex, ucs2_encode,
  is_blank, with_byte, from_hex, is_high, is_low, from_utf16, ucs2_decode,
}

both_in-some : (o p : Ordering) (w : BothLt o p) → (v : BothLt o p) × (both_in o p ≡ some v)
unfolding both_in
both_in-some Ordering.lt Ordering.lt w = (tt, refl)
both_in-some Ordering.lt Ordering.eq w = absurd w
both_in-some Ordering.lt Ordering.gt w = absurd w
both_in-some Ordering.eq p w = absurd w
both_in-some Ordering.gt p w = absurd w

in_range-some :
    (o p q : Ordering) (w : InRange o p q) → (v : InRange o p q) × (in_range o p q ≡ some v)
unfolding in_range
in_range-some Ordering.lt p q w = (tt, refl)
in_range-some Ordering.eq p q w = both_in-some p q w
in_range-some Ordering.gt p q w = both_in-some p q w

pub char_of-code : (c : Char) → char_of (code c) ≡ c
unfolding char_of
char_of-code (char n p) =
    let (v, e) = in_range-some (compare n 55296) (compare 57343 n) (compare n 1114112) p in
    rw (char_of, e) (Char-path (char n v) (char n p) refl)

abbrev AllBelow : ℕ → (ℕ → Type 0) → Type 0
AllBelow zero P = Unit
AllBelow (suc n) P = P n × AllBelow n P

below : (n : ℕ) (P : ℕ → Type 0) → AllBelow n P → (d : ℕ) → d < n → P d
below zero P all d h = absurd (omega (arith, h))
below (suc n) P all d h = elim (Bool-cases (eqb d n)) [
  | inl e ↦ rw ((eqb_iff d n).0 e) all.0
  | inr ne ↦ below n P all.1 d (ground (arith, ne, h))
]

-- The value of each digit.
abbrev pub IsDigit : ℕ → Type 0
IsDigit d = (hex_digit (code (upper_hex d)) ≡ some d) × (is_blank (code (upper_hex d)) ≡ false)

pub upper_hex-IsDigit : (d : ℕ) → d < 16 → IsDigit d
unfolding upper_hex hex_digit is_blank
upper_hex-IsDigit d h =
    let t : (n : ℕ) → Type 0 = IsDigit in
    below 16 t
      (
        (refl, refl),
        (
          (refl, refl),
          (
            (refl, refl),
            (
              (refl, refl),
              (
                (refl, refl),
                (
                  (refl, refl),
                  (
                    (refl, refl),
                    (
                      (refl, refl),
                      (
                        (refl, refl),
                        (
                          (refl, refl),
                          (
                            (refl, refl),
                            (
                              (refl, refl),
                              ((refl, refl), ((refl, refl), ((refl, refl), ((refl, refl), tt)))),
                            ),
                          ),
                        ),
                      ),
                    ),
                  ),
                ),
              ),
            ),
          ),
        ),
      )
      d h

pub from_hex-to_hex : (bs : List ℕ) → All (λ b. b < 256) bs → from_hex (to_hex bs) ≡ some bs
unfolding from_hex to_hex with_byte
from_hex-to_hex [] h = refl
from_hex-to_hex (b ∷ bs) h =
    let high = upper_hex-IsDigit (b / 16) (omega (arith, h.0)) in
    let low = upper_hex-IsDigit (b % 16) (omega arith) in
    rw (high.1, high.0, low.0, from_hex-to_hex bs h.1) (ap (λ n. some (n ∷ bs)) (omega arith))

-- A scalar value is below the surrogates, or above them and below 0x110000.
scalar_range : (n : ℕ) → IsScalar n → (n < 55296) ⊎ ((57343 < n) × (n < 1114112))
scalar_range n p = range (compare n 55296) (compare 57343 n) (compare n 1114112) refl refl refl p
  where
    range :
        (o p q : Ordering)
        → compare n 55296 ≡ o
        → compare 57343 n ≡ p
        → compare n 1114112 ≡ q
        → InRange o p q
        → (n < 55296) ⊎ ((57343 < n) × (n < 1114112))
    range Ordering.lt p q eo ep eq w = inl (ground (arith, eo))
    range Ordering.eq Ordering.lt Ordering.lt eo ep eq w =
        inr (ground (arith, ep), ground (arith, eq))
    range Ordering.eq Ordering.lt Ordering.eq eo ep eq w = absurd w
    range Ordering.eq Ordering.lt Ordering.gt eo ep eq w = absurd w
    range Ordering.eq Ordering.eq q eo ep eq w = absurd w
    range Ordering.eq Ordering.gt q eo ep eq w = absurd w
    range Ordering.gt Ordering.lt Ordering.lt eo ep eq w =
        inr (ground (arith, ep), ground (arith, eq))
    range Ordering.gt Ordering.lt Ordering.eq eo ep eq w = absurd w
    range Ordering.gt Ordering.lt Ordering.gt eo ep eq w = absurd w
    range Ordering.gt Ordering.eq q eo ep eq w = absurd w
    range Ordering.gt Ordering.gt q eo ep eq w = absurd w

char_bytes-below : (c : Char) → All (λ b. b < 256) (char_bytes (code c))
unfolding char_bytes
char_bytes-below (char n p) = elim (scalar_range n p) [
  | inl low ↦ ground (arith, low)
  | inr r ↦ ground (arith, r.0, r.1)
]

pub utf16-below : (s : String) → All (λ b. b < 256) (utf16 s)
unfolding utf16
utf16-below String.[] = tt
utf16-below (String.◌∷◌ c s) =
    All-append (λ b. b < 256) (char_bytes (code c)) (utf16 s) (char_bytes-below c) (utf16-below s)

-- A unit that is no surrogate is read by itself, whatever comes after it.
one_unit :
    (a b : ℕ) (bs : List ℕ)
    → is_high (256 * a + b) ≡ false
    → from_utf16 (a ∷ b ∷ bs) ≡ String.◌∷◌ (char_of (256 * a + b)) (from_utf16 bs)
unfolding from_utf16
one_unit a b [] h = rw h
one_unit a b (c ∷ []) h = rw h
one_unit a b (c ∷ d ∷ bs) h = rw h

one_pair :
    (a b c d n : ℕ) (bs : List ℕ)
    → is_high (256 * a + b) ≡ true
    → is_low (256 * c + d) ≡ true
    → 65536 + 1024 * (256 * a + b - 55296) + (256 * c + d - 56320) ≡ n
    → from_utf16 (a ∷ b ∷ c ∷ d ∷ bs) ≡ String.◌∷◌ (char_of n) (from_utf16 bs)
unfolding from_utf16
one_pair a b c d n bs h l e = rw (h, l, e)

from_utf16-char :
    (c : Char) (bs : List ℕ) → from_utf16 (char_bytes (code c) ++ bs) ≡ String.◌∷◌ c (from_utf16 bs)
unfolding char_bytes is_high is_low
from_utf16-char (char n p) bs = elim (Bool-cases (ltb n 65536)) [
  | inl small ↦
      let whole : 256 * (n / 256) + n % 256 ≡ n = omega arith in
      rw small (
        one_unit (n / 256) (n % 256) bs (elim (scalar_range n p) [
          | inl low ↦ ground (arith, low, whole)
          | inr r ↦ ground (arith, r.0, whole)
        ])
        ∙ ap (λ m. String.◌∷◌ (char_of m) (from_utf16 bs)) whole
        ∙ ap (λ d. String.◌∷◌ d (from_utf16 bs)) (char_of-code (char n p)))
  | inr large ↦
      let range : n < 1114112 = elim (scalar_range n p) [
        | inl low ↦ absurd (ground (arith, low, large))
        | inr r ↦ r.1
      ] in
      rw large (
        one_pair _ _ _ _ n bs (ground (arith, large, range)) (ground (arith, large, range))
          (ground (arith, large, range))
        ∙ ap (λ d. String.◌∷◌ d (from_utf16 bs)) (char_of-code (char n p)))
]

from_utf16-utf16 : (s : String) → from_utf16 (utf16 s) ≡ s
unfolding utf16 from_utf16
from_utf16-utf16 String.[] = refl
from_utf16-utf16 (String.◌∷◌ c s) =
    from_utf16-char c (utf16 s) ∙ ap (String.◌∷◌ c) (from_utf16-utf16 s)

-- Every text, also one with characters beyond the first 65536, is read back from its encoding.
pub ucs2_decode-ucs2_encode : (s : String) → ucs2_decode (ucs2_encode s) ≡ s
unfolding ucs2_decode ucs2_encode
ucs2_decode-ucs2_encode s =
    rw (ucs2_decode, from_hex-to_hex (utf16 s) (utf16-below s)) (from_utf16-utf16 s)
