-- ===== src/Parser/EventId.antt =====
-- GenerateEventID of internal/parser/schema.go, and the texts of numbers that it prints.
use address_monitor.Prelude.{
  ℕ, zero, suc, ◌+◌, ◌/◌, ◌%◌, true, false, List, [], ◌∷◌, ◌++◌, Text, bytes, ltb, if◌then◌else◌,
}
use address_monitor.Prelude.Int.{ℤ, pos, negsuc}

-- The decimal digits of a number; fuel above the number is enough.
unfoldable pub digits : ℕ → ℕ → Text
digits zero n = []
digits (suc fuel) n = elim (ltb n 10) [
  | true ↦ (48 + n) ∷ []
  | false ↦ digits fuel (n / 10) ++ (48 + n % 10) ∷ []
]

unfoldable pub decimal : ℕ → Text
unfolding digits
decimal n = digits (n + 1) n

-- %d of an int.
unfoldable pub show_int : ℤ → Text
unfolding decimal
show_int (pos n) = decimal n
show_int (negsuc n) = bytes "-" ++ decimal (n + 1)

abbrev pub hex_digit : ℕ → ℕ
hex_digit n = if ltb n 10 then 48 + n else 87 + n

-- hex.EncodeToString
unfoldable pub hex_encode : List ℕ → Text
hex_encode [] = []
hex_encode (b ∷ bs) = hex_digit (b / 16) ∷ hex_digit (b % 16) ∷ hex_encode bs

-- GenerateEventID, over SHA-256.
unfoldable pub generate_event_id : (Text → List ℕ) → Text → Text → ℤ → Text
unfolding hex_encode show_int
generate_event_id sha256 chain tx_hash index =
    hex_encode (sha256 (chain ++ (bytes ":" ++ (tx_hash ++ (bytes ":" ++ show_int index)))))
