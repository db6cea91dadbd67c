-- ===== src/Clamp.antt =====
-- internal/utils/clamp.go: integers made to fit a smaller type. The argument is any value of Go's
-- int, int64, uint or uint64; the case for the unsigned types leaves out a test that they never meet.
mod Examples
use hexmagnet.Prelude.{
  ℤ, pos, negsuc, ℕ, zero, suc, ◌+◌, ◌-◌, ◌%◌, ◌^◌, ◌<◌, ◌≡◌, refl, ◌∙◌, ap, Bool, true, false, ltb,
  leb, if◌then◌else◌, Bool-cases, inl, inr, arith,
}
use native.Mathlib.Nat.{mod-eq_of_lt}

pub clamp_int32 : ℤ → ℤ
clamp_int32 (pos n) = if ltb 2147483647 n then pos 2147483647 else pos n
clamp_int32 (negsuc n) = if ltb 2147483647 n then negsuc 2147483647 else negsuc n

pub clamp_uint8 : ℤ → ℕ
clamp_uint8 (pos n) = if ltb 255 n then 255 else n % 2 ^ 8
clamp_uint8 (negsuc n) = 0

pub clamp_uint16 : ℤ → ℕ
clamp_uint16 (pos n) = if ltb 65535 n then 65535 else n % 2 ^ 16
clamp_uint16 (negsuc n) = 0

pub clamp_uint32 : ℤ → ℕ
clamp_uint32 (pos n) = if ltb 4294967295 n then 4294967295 else n % 2 ^ 32
clamp_uint32 (negsuc n) = 0

-- The order of the integers, and the nearest integer of a range.
abbrev pub le_int : ℤ → ℤ → Bool
le_int (pos a) (pos b) = leb a b
le_int (pos a) (negsuc b) = false
le_int (negsuc a) (pos b) = true
le_int (negsuc a) (negsuc b) = leb b a

pub nearest : ℤ → ℤ → ℤ → ℤ
nearest lo hi v = if le_int v lo then lo else if le_int hi v then hi else v

cut : ℕ → ℕ → ℕ
cut hi n = if ltb hi n then hi else n

cut-nearest : (hi n : ℕ) → pos (cut hi n) ≡ nearest (pos 0) (pos hi) (pos n)
unfolding cut nearest
cut-nearest hi n = ground arith

low_bits : (hi w n : ℕ) → suc hi ≡ 2 ^ w → (if ltb hi n then hi else n % 2 ^ w) ≡ cut hi n
unfolding cut
low_bits hi w n h = elim (Bool-cases (ltb hi n)) [
  | inl e ↦ rw e refl
  | inr e ↦ rw e (mod-eq_of_lt (below e))
]
  where
    below : ltb hi n ≡ false → n < 2 ^ w
    below e = ground (arith, h)

-- Clamping to 32 signed bits gives the integer of the range from -2^31 to 2^31 - 1 that is nearest
-- to the argument.
clamp_int32-nearest : (v : ℤ) → clamp_int32 v ≡ nearest (negsuc 2147483647) (pos 2147483647) v
unfolding clamp_int32 nearest
clamp_int32-nearest (pos n) = ground arith
clamp_int32-nearest (negsuc n) = ground arith

-- Clamping to 8, 16 or 32 unsigned bits gives the integer of the type's range that is nearest to
-- the argument.
clamp_unsigned-nearest :
    (v : ℤ)
    → (pos (clamp_uint8 v) ≡ nearest (pos 0) (pos 255) v)
      × ((pos (clamp_uint16 v) ≡ nearest (pos 0) (pos 65535) v)
          × (pos (clamp_uint32 v) ≡ nearest (pos 0) (pos 4294967295) v))
unfolding clamp_uint8 clamp_uint16 clamp_uint32 nearest
clamp_unsigned-nearest (negsuc n) = (refl, (refl, refl))
clamp_unsigned-nearest (pos n) = (
  ap pos (low_bits 255 8 n refl) ∙ cut-nearest 255 n,
  (
    ap pos (low_bits 65535 16 n refl) ∙ cut-nearest 65535 n,
    ap pos (low_bits 4294967295 32 n refl) ∙ cut-nearest 4294967295 n,
  ),
)

-- Clamping to 32 signed bits, or to 8, 16 or 32 unsigned bits, gives the integer that is nearest
-- to the argument, of the range from -2^31 to 2^31 - 1 or of the unsigned type's.
pub clamp-nearest :
    (v : ℤ)
    → (clamp_int32 v ≡ nearest (negsuc 2147483647) (pos 2147483647) v)
      × ((pos (clamp_uint8 v) ≡ nearest (pos 0) (pos 255) v)
          × ((pos (clamp_uint16 v) ≡ nearest (pos 0) (pos 65535) v)
              × (pos (clamp_uint32 v) ≡ nearest (pos 0) (pos 4294967295) v)))
clamp-nearest v = (clamp_int32-nearest v, clamp_unsigned-nearest v)
