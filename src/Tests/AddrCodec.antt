-- ===== src/Tests/AddrCodec.antt =====
-- Addresses at concrete inputs.
use address_monitor.Prelude.{◌≡◌, refl, ℕ, List, [], ◌∷◌, ◌++◌, Text, bytes}
use address_monitor.Prelude.{to_lower}
use address_monitor.Prelude.Strings.{has_prefix}
use address_monitor.AddrCodec.{tron_normalize, hex_decode, hex_value}
use address_monitor.AddrCodec.Tron.{tron_normalize_skips}
use address_monitor.Tests.Samples.{base}

abbrev body : Text
body = bytes "a614f803b6fd780986a42c78ec9c7f77e6ded13c"

abbrev short_body : Text
short_body = bytes "4114f803b6fd780986a42c78ec9c7f77e6ded13c"

abbrev tail_bytes : List ℕ
tail_bytes =
    20 ∷ 248 ∷ 3 ∷ 182 ∷ 253 ∷ 120 ∷ 9 ∷ 134 ∷ 164 ∷ 44 ∷ 120 ∷ 236 ∷ 156 ∷ 127 ∷ 119 ∷ 230 ∷ 222
    ∷ 209 ∷ 60 ∷ []

tron_normalize_skips_example :
    (tron_normalize base short_body ≡ short_body)
    × (tron_normalize base (bytes "41" ++ short_body) ≡ 65 ∷ 65 ∷ tail_bytes)
unfolding hex_decode hex_value has_prefix to_lower
tron_normalize_skips_example = tron_normalize_skips base short_body (65 ∷ tail_bytes) refl refl refl
