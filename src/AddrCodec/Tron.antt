-- ===== src/AddrCodec/Tron.antt =====
-- TRON addresses in hex: which spellings lead to the same Base58Check address.
use address_monitor.Prelude.{
  ℕ, ◌≡◌, ◌≢◌, ◌==◌, ◌∙◌, refl, true, false, Option, none, some, List, [], ◌∷◌, ◌++◌, Text, bytes,
  to_lower, lower_byte, length, arith, is_empty_text,
}
use address_monitor.Prelude.Strings.{
  has_prefix, trim_prefix, trim_left, trim_right, trim_space, is_space,
}
use address_monitor.AddrCodec.{
  Base58, tron_normalize, tron_hex, hex_value, hex_decode, starts_with_t, hex_byte,
}

hex_value-space : (c : ℕ) → is_space c ≡ true → hex_value c ≡ none
unfolding is_space hex_value
hex_value-space c h = ground arith

hex_value-lower : (c : ℕ) → hex_value (lower_byte c) ≡ hex_value c
unfolding hex_value lower_byte
hex_value-lower c = ground arith

hex_decode-lower : (h : Text) → hex_decode (to_lower h) ≡ hex_decode h
unfolding hex_decode to_lower
hex_decode-lower [] = refl
hex_decode-lower (a ∷ []) = refl
hex_decode-lower (a ∷ b ∷ h) = rw (hex_value-lower a, hex_value-lower b, hex_decode-lower h)

-- The digits of a text that is decoded.
hex_decode-digits :
    (a b : ℕ) (h : Text) {bs : List ℕ}
    → hex_decode (a ∷ b ∷ h) ≡ some bs
    → (is_space a ≡ false) × (is_space b ≡ false) × (hex_value a ≢ none) × (hex_value b ≢ none)
unfolding hex_decode
hex_decode-digits a b h e = ground (arith, hex_value-space a, hex_value-space b)

hex_byte-some :
    (a b : Option ℕ) (r : Option (List ℕ)) {bs : List ℕ}
    → hex_byte a b r ≡ some bs
    → (r' : List ℕ) × (r ≡ some r')
hex_byte-some (some a) (some b) (some r) e = (r, refl)
hex_byte-some (some a) (some b) none e = cc
hex_byte-some (some a) none r e = cc
hex_byte-some none b r e = cc

hex_decode-rest :
    (a b : ℕ) (h : Text) {bs : List ℕ}
    → hex_decode (a ∷ b ∷ h) ≡ some bs
    → (r : List ℕ) × (hex_decode h ≡ some r)
unfolding hex_decode
hex_decode-rest a b h e = hex_byte-some (hex_value a) (hex_value b) (hex_decode h) e

trim_right-hex : (h : Text) {bs : List ℕ} → hex_decode h ≡ some bs → trim_right h ≡ h
unfolding trim_right
trim_right-hex [] e = refl
trim_right-hex (a ∷ []) e = unfold hex_decode in cc
trim_right-hex (a ∷ b ∷ h) e =
    let d = hex_decode-digits a b h e in rw (trim_right-hex h (hex_decode-rest a b h e).1, d.0, d.1)

trim_space-hex : (h : Text) {bs : List ℕ} → hex_decode h ≡ some bs → trim_space h ≡ h
unfolding trim_space trim_left
trim_space-hex [] e = unfold trim_right in refl
trim_space-hex (a ∷ []) e = unfold hex_decode in cc
trim_space-hex (a ∷ b ∷ h) e = rw (hex_decode-digits a b h e).0 (trim_right-hex (a ∷ b ∷ h) e)

-- The letters x, T and t are no hex digits.
no_digit :
    (c : ℕ)
    → hex_value c ≢ none
    → ((c == b'x') ≡ false) × ((c == b'T') ≡ false) × ((c == b't') ≡ false)
unfolding hex_value
no_digit c h = ground arith

-- Hex digits start with no 0x and no T.
prefix-hex :
    (h : Text) {bs : List ℕ}
    → hex_decode h ≡ some bs
    → (has_prefix h (bytes "0x") ≡ false) × (starts_with_t h ≡ false)
unfolding has_prefix
prefix-hex [] e = (refl, refl)
prefix-hex (a ∷ []) e = unfold hex_decode in cc
prefix-hex (a ∷ b ∷ h) e =
    let d = hex_decode-digits a b h e in ground (arith, no_digit a d.2, no_digit b d.3)

module _ (base : Base58) (h : Text) {bs : List ℕ} (dec : hex_decode h ≡ some bs) where
  hex_decode-41 : hex_decode (bytes "41" ++ to_lower h) ≡ some (65 ∷ bs)
  unfolding hex_decode hex_value
  hex_decode-41 = rw (hex_decode-lower h, dec)

  trim_prefix-hex : trim_prefix h (bytes "0x") ≡ h
  unfolding trim_prefix
  trim_prefix-hex = rw (prefix-hex h dec).0

  module _ (twenty : length bs ≡ 20) where
    tron_hex-41 : tron_hex base (bytes "41" ++ h) ≡ base.check_encode bs 65
    unfolding tron_hex trim_prefix has_prefix to_lower lower_byte hex_decode hex_value
    tron_hex-41 = rw (hex_decode-41, twenty)

    tron_hex-0x41 : tron_hex base (bytes "0x41" ++ h) ≡ base.check_encode bs 65
    unfolding tron_hex trim_prefix has_prefix to_lower lower_byte hex_decode hex_value
    tron_hex-0x41 = rw (hex_decode-41, twenty)

    tron_hex-bare :
        has_prefix (to_lower h) (bytes "41") ≡ false → tron_hex base h ≡ base.check_encode bs 65
    unfolding tron_hex hex_decode has_prefix to_lower trim_prefix
    tron_hex-bare bare = rw (trim_prefix-hex, bare, hex_decode-41, twenty)

    -- A body that begins with 41 is taken for a whole address, and comes back as it is.
    tron_hex-short : has_prefix (to_lower h) (bytes "41") ≡ true → tron_hex base h ≡ to_lower h
    unfolding tron_hex hex_decode has_prefix to_lower trim_prefix
    tron_hex-short short =
        rw (trim_prefix-hex, short, hex_decode-lower h, dec, twenty) (ground arith)

trim_space-after :
    (h : Text) {bs : List ℕ}
    → hex_decode h ≡ some bs
    → trim_space (bytes "41" ++ h) ≡ bytes "41" ++ h
unfolding trim_space trim_left trim_right is_space
trim_space-after h e = rw (trim_right-hex h e)

trim_space-after0x :
    (h : Text) {bs : List ℕ}
    → hex_decode h ≡ some bs
    → trim_space (bytes "0x41" ++ h) ≡ bytes "0x41" ++ h
unfolding trim_space trim_left trim_right is_space
trim_space-after0x h e = rw (trim_right-hex h e)

is_empty-hex :
    (h : Text) {bs : List ℕ} → hex_decode h ≡ some bs → length bs ≡ 20 → is_empty_text h ≡ false
unfolding hex_decode
is_empty-hex [] e l = ground arith
is_empty-hex (c ∷ h) e l = refl

tron_normalize-hex :
    (base : Base58) (a : Text)
    → trim_space a ≡ a
    → is_empty_text a ≡ false
    → starts_with_t a ≡ false
    → tron_normalize base a ≡ tron_hex base a
unfolding tron_normalize
tron_normalize-hex base a t e s = rw (t, e, s)

-- A body of 20 bytes in hex that does not begin with the digits 41 has one normal form, that of
-- its bytes with version 65, whether it is written bare, after 41 or after 0x41.
pub tron_normalize_spellings :
    (base : Base58) (h : Text) (bs : List ℕ)
    → hex_decode h ≡ some bs
    → length bs ≡ 20
    → has_prefix (to_lower h) (bytes "41") ≡ false
    → (tron_normalize base h ≡ base.check_encode bs 65)
      × (tron_normalize base (bytes "41" ++ h) ≡ base.check_encode bs 65)
      × (tron_normalize base (bytes "0x41" ++ h) ≡ base.check_encode bs 65)
tron_normalize_spellings base h bs dec twenty bare = (
  tron_normalize-hex base h (trim_space-hex h dec) (is_empty-hex h dec twenty) (prefix-hex h dec).1
      ∙ tron_hex-bare base h dec twenty bare,
  tron_normalize-hex base (bytes "41" ++ h) (trim_space-after h dec) refl
        (unfold has_prefix in refl)
      ∙ tron_hex-41 base h dec twenty,
  tron_normalize-hex base (bytes "0x41" ++ h) (trim_space-after0x h dec) refl
        (unfold has_prefix in refl)
      ∙ tron_hex-0x41 base h dec twenty,
)

-- A body of 20 bytes in hex that begins with the digits 41 is returned as hex when it is written
-- bare, and gets its Base58Check form only after 41.
pub tron_normalize_skips :
    (base : Base58) (h : Text) (bs : List ℕ)
    → hex_decode h ≡ some bs
    → length bs ≡ 20
    → has_prefix (to_lower h) (bytes "41") ≡ true
    → (tron_normalize base h ≡ to_lower h)
      × (tron_normalize base (bytes "41" ++ h) ≡ base.check_encode bs 65)
tron_normalize_skips base h bs dec twenty short = (
  tron_normalize-hex base h (trim_space-hex h dec) (is_empty-hex h dec twenty) (prefix-hex h dec).1
      ∙ tron_hex-short base h dec twenty short,
  tron_normalize-hex base (bytes "41" ++ h) (trim_space-after h dec) refl
        (unfold has_prefix in refl)
      ∙ tron_hex-41 base h dec twenty,
)
