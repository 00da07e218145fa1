-- ===== src/Tests/Bands.antt =====
-- modemproxy/modems/bands.py on the bands 3 and 20.
use modemproxy.Prelude.{◌≡◌, refl, true, [], ◌∷◌, has_nat, arith}
use modemproxy.Result.{ok}
use modemproxy.Text.{hex_digit}
use modemproxy.Text.Cut.{strip, drop_prefix, is_space}
use modemproxy.Text.Hex.{hex, hex_into, hex_value}
use modemproxy.Bands.{
  mask_to_bands, bands_of, mask_text, bands_to_mask, set_bit, has_bit, mask_to_bands-bands_to_mask,
}

mask_test : bands_to_mask (3 ∷ 20 ∷ []) ≡ ok "0x80004"
unfolding bands_to_mask set_bit mask_text hex_into
mask_test = refl

bands_test : mask_to_bands "0x80004" ≡ 3 ∷ 20 ∷ []
unfolding mask_to_bands bands_of has_bit strip drop_prefix hex hex_value hex_digit is_space
bands_test = refl

mask_example : has_nat 20 (mask_to_bands "0x80004") ≡ true
unfolding bands_to_mask set_bit mask_text hex_into has_nat
mask_example = mask_to_bands-bands_to_mask (3 ∷ 20 ∷ []) "0x80004" 20 refl (omega arith)
