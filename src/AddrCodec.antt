-- ===== src/AddrCodec.antt =====
-- pkg/addrcodec/codec.go: addresses in the form in which a chain writes them. The package base58
-- is a parameter.
pub mod Laws
pub mod Tron
use address_monitor.Prelude.{
  ℕ, suc, ◌*◌, ◌+◌, ◌-◌, Bool, Option, none, some, List, [], ◌∷◌, ◌++◌, ◌&&◌, ◌||◌, Text, bytes,
  text_eq, to_upper, to_lower, if◌then◌else◌, leb, ◌==◌, length, take, drop, get_elem?,
  is_empty_text,
}
use address_monitor.Prelude.Strings.{has_prefix, trim_prefix, trim_space}

-- base58.Decode, which returns no bytes on a bad text, and base58.CheckEncode.
pub record Base58 : Type 0 where
  pub decode : Text → List ℕ
  pub check_encode : List ℕ → ℕ → Text

unfoldable pub hex_value : ℕ → Option ℕ
hex_value c =
    if leb b'0' c && leb c b'9'
    then some (c - b'0')
    else if leb b'a' c && leb c b'f'
    then some (c - b'a' + 10)
    else if leb b'A' c && leb c b'F'
    then some (c - b'A' + 10)
    else none

abbrev pub hex_byte : Option ℕ → Option ℕ → Option (List ℕ) → Option (List ℕ)
hex_byte (some a) (some b) (some bs) = some ((a * 16 + b) ∷ bs)
hex_byte (some a) (some b) none = none
hex_byte (some a) none r = none
hex_byte none b r = none

-- hex.DecodeString; `none` is an error.
unfoldable pub hex_decode : Text → Option (List ℕ)
hex_decode [] = some []
hex_decode (a ∷ []) = none
hex_decode (a ∷ b ∷ s) = hex_byte (hex_value a) (hex_value b) (hex_decode s)

pub data Codec : Type 0 where
  evm tron sol : Codec

-- Get: the codec of a chain; an unknown chain has that of the EVM.
unfoldable pub codec_of : Text → Codec
codec_of chain =
    let c = to_upper chain in
    if text_eq c (bytes "TRON") then tron else if text_eq c (bytes "SOL") then sol else evm

unfoldable pub evm_normalize : Text → Text
evm_normalize addr =
    let a = to_lower (trim_space addr) in if has_prefix a (bytes "0x") then a else bytes "0x" ++ a

-- The part of tronCodec.Normalize on hex digits.
unfoldable pub tron_hex : Base58 → Text → Text
tron_hex base addr =
    let a = to_lower (trim_prefix addr (bytes "0x")) in
    let full = if has_prefix a (bytes "41") then a else bytes "41" ++ a in
    elim (hex_decode full) [
      | none ↦ full
      | some b ↦
          if length b == 21 then elim b [ [] ↦ full | v ∷ p ↦ base.check_encode p v ] else full
    ]

abbrev pub starts_with_t : Text → Bool
starts_with_t s = has_prefix s (bytes "T") || has_prefix s (bytes "t")

-- tronCodec.Normalize: base58.CheckEncode(decoded[1:21], decoded[0]) if 21 bytes are decoded.
unfoldable pub tron_normalize : Base58 → Text → Text
unfolding tron_hex
tron_normalize base addr =
    let a = trim_space addr in
    let d = base.decode a in
    if is_empty_text a
    then a
    else if starts_with_t a && leb 21 (length d)
    then elim d [ [] ↦ a | v ∷ p ↦ base.check_encode (take 20 p) v ]
    else tron_hex base a

unfoldable pub sol_normalize : Text → Text
sol_normalize addr = trim_space addr

unfoldable pub normalize : Base58 → Codec → Text → Text
unfolding evm_normalize tron_normalize sol_normalize
normalize base evm addr = evm_normalize addr
normalize base tron addr = tron_normalize base addr
normalize base sol addr = sol_normalize addr
