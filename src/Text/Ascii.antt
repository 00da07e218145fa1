-- ===== src/Text/Ascii.antt =====
-- What `str.encode()` writes, UTF-8, and what `bytes.decode("ascii", "replace")` reads.
use Prim.Native.Char.{code}
use modemproxy.Prelude.{
  ℕ, ◌+◌, ◌/◌, ◌%◌, ◌<◌, ◌≡◌, refl, ap, String, Bool, true, ◌&&◌, List, [], ◌∷◌, ◌++◌,
  if◌then◌else◌, ltb, All, some, arith,
}
use modemproxy.Text.{hex_digit}
use modemproxy.Text.Ucs2.{char_of, to_hex}
use modemproxy.Text.Ucs2.Inverse.{char_of-code, upper_hex-IsDigit}

utf8_char : ℕ → List ℕ
utf8_char n =
    if ltb n 128
    then n ∷ []
    else (if ltb n 2048
        then (192 + n / 64) ∷ (128 + n % 64) ∷ []
        else (if ltb n 65536
            then (224 + n / 4096) ∷ (128 + n / 64 % 64) ∷ (128 + n % 64) ∷ []
            else (240 + n / 262144)
              ∷ (128 + n / 4096 % 64)
              ∷ (128 + n / 64 % 64)
              ∷ (128 + n % 64)
              ∷ []))

unfoldable pub utf8 : String → List ℕ
unfolding utf8_char
utf8 String.[] = []
utf8 (String.◌∷◌ c s) = utf8_char (code c) ++ utf8 s

-- A byte that is not ASCII becomes U+FFFD.
unfoldable pub ascii_text : List ℕ → String
ascii_text [] = ""
ascii_text (b ∷ bs) =
    let rest = ascii_text bs in String.◌∷◌ (char_of (if ltb b 128 then b else 65533)) rest

abbrev pub is_ascii : String → Bool
is_ascii String.[] = true
is_ascii (String.◌∷◌ c s) = ltb (code c) 128 && is_ascii s

pub ascii_text-utf8 : (s : String) → is_ascii s ≡ true → ascii_text (utf8 s) ≡ s
unfolding ascii_text utf8 utf8_char
ascii_text-utf8 String.[] h = refl
ascii_text-utf8 (String.◌∷◌ c s) h =
    let small : ltb (code c) 128 ≡ true = ground (arith, h) in
    rw (small, small, char_of-code c) (ap (String.◌∷◌ c) (ascii_text-utf8 s (ground (arith, h))))

pub utf8-bytes : (s : String) → is_ascii s ≡ true → All (λ b. b < 256) (utf8 s)
unfolding utf8 utf8_char
utf8-bytes String.[] h = tt
utf8-bytes (String.◌∷◌ c s) h =
    let small : ltb (code c) 128 ≡ true = ground (arith, h) in
    rw small (ground (arith, small), utf8-bytes s (ground (arith, h)))

hex_digit-ascii : (c d : ℕ) → hex_digit c ≡ some d → ltb c 128 ≡ true
unfolding hex_digit
hex_digit-ascii c d h = ground (arith, h)

pub is_ascii-to_hex : (bs : List ℕ) → All (λ b. b < 256) bs → is_ascii (to_hex bs) ≡ true
unfolding to_hex
is_ascii-to_hex [] h = refl
is_ascii-to_hex (b ∷ bs) h =
    let high = hex_digit-ascii _ _ (upper_hex-IsDigit (b / 16) (omega (arith, h.0))).0 in
    let low = hex_digit-ascii _ _ (upper_hex-IsDigit (b % 16) (omega arith)).0 in
    rw (high, low) (is_ascii-to_hex bs h.1)
