-- ===== src/AddrCodec/Laws.antt =====
-- Normal forms of addresses.
use address_monitor.Prelude.{
  ℕ, ◌≡◌, ◌≢◌, refl, ap, ◌∙◌, true, false, [], ◌∷◌, ◌++◌, Text, bytes, to_lower, to_lower_idem,
  arith, Bool-cases, inl, inr, lower_byte,
}
use address_monitor.Prelude.Strings.{
  has_prefix, trim_left, trim_right, trim_space, trim_right_idem, trim_right-to_lower,
  trim_space_idem, is_space,
}
use address_monitor.AddrCodec.{
  Base58, Codec, evm, tron, sol, evm_normalize, sol_normalize, normalize,
}

-- A lower case text that is trimmed at its end.
abbrev IsTidy : Text → Type 0
IsTidy a = (to_lower a ≡ a) × (trim_right a ≡ a)

IsTidy-trimmed : (s : Text) → IsTidy (to_lower (trim_space s))
unfolding trim_space
IsTidy-trimmed s =
    (to_lower_idem _, trim_right-to_lower _ ∙ ap to_lower (trim_right_idem (trim_left s)))

trim_space-tidy :
    (c : ℕ) (a : Text)
    → is_space c ≡ false
    → trim_right (c ∷ a) ≡ c ∷ a
    → trim_space (c ∷ a) ≡ c ∷ a
unfolding trim_space trim_left
trim_space-tidy c a h t = rw h t

is_space-0x : (c : ℕ) (a : Text) → has_prefix (c ∷ a) (bytes "0x") ≡ true → is_space c ≡ false
unfolding has_prefix is_space
is_space-0x c a h = ground arith

-- A tidy text with the prefix 0x is its own normal form.
evm_normalize_fixed : (a : Text) → IsTidy a → has_prefix a (bytes "0x") ≡ true → evm_normalize a ≡ a
unfolding evm_normalize
evm_normalize_fixed [] t h = unfold has_prefix in cc
evm_normalize_fixed (c ∷ a) t h = rw (trim_space-tidy c a (is_space-0x c a h) t.1, t.0, h)

IsTidy-0x : (a : Text) → IsTidy a → IsTidy (bytes "0x" ++ a)
unfolding to_lower lower_byte trim_right is_space
IsTidy-0x a t = (rw t.0, rw t.1)

evm_normalize_cases :
    (a : Text) → IsTidy (evm_normalize a) × (has_prefix (evm_normalize a) (bytes "0x") ≡ true)
unfolding evm_normalize
evm_normalize_cases a = elim (Bool-cases (has_prefix (to_lower (trim_space a)) (bytes "0x"))) [
  | inl e ↦ rw e (IsTidy-trimmed a, e)
  | inr e ↦ rw e (IsTidy-0x _ (IsTidy-trimmed a), unfold has_prefix in refl)
]

-- For an EVM or a SOL address, normalizing twice is normalizing once.
pub normalize_idem :
    (base : Base58) (c : Codec) (a : Text)
    → c ≢ tron
    → normalize base c (normalize base c a) ≡ normalize base c a
unfolding normalize sol_normalize
normalize_idem base evm a h =
    evm_normalize_fixed (evm_normalize a) (evm_normalize_cases a).0 (evm_normalize_cases a).1
normalize_idem base tron a h = absurd (h refl)
normalize_idem base sol a h = trim_space_idem a
