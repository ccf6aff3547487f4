-- ===== src/Common/Int.antt =====
-- Integers over the native numbers; `negsuc n` is -(n + 1).
use hq_led_lamp.Common.{ℕ, Bool, true, false}

pub data ℤ : Type 0 where
  pos : ℕ → ℤ
  negsuc : ℕ → ℤ

-- The value as an unsigned one, where it is not negative.
abbrev pub to_nat : ℤ → ℕ
to_nat (pos n) = n
to_nat (negsuc n) = 0

abbrev pub is_negative : ℤ → Bool
is_negative (pos n) = false
is_negative (negsuc n) = true
