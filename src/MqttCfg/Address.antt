-- ===== src/MqttCfg/Address.antt =====
-- mqtt_cfg.c: the broker's address that mqtt_cfg_apply prints.
use hq_led_lamp.Common.{
  ℕ, zero, suc, ◌+◌, ◌*◌, ◌-◌, ◌/◌, ◌%◌, ◌≤◌, ◌<◌, ◌≡◌, refl, [], ◌∷◌, ◌++◌, ltb, arith, length,
  length-append, Bool-cases, inl, inr,
}
use hq_led_lamp.Json.{Text, codes}
use hq_led_lamp.MqttCfg.Apply.{decimal, address_of, address_size}

-- 10 to the power `n`.
abbrev power_ten : ℕ → ℕ
power_ten zero = 1
power_ten (suc n) = 10 * power_ten n

-- The number that digits stand for, after `acc`.
abbrev pub value_from : ℕ → Text → ℕ
value_from acc [] = acc
value_from acc (c ∷ cs) = value_from (10 * acc + (c - 48)) cs

value_from-append :
    (acc : ℕ) (xs : Text) (c : ℕ)
    → value_from acc (xs ++ c ∷ []) ≡ 10 * value_from acc xs + (c - 48)
value_from-append acc [] c = refl
value_from-append acc (x ∷ xs) c = value_from-append (10 * acc + (x - 48)) xs c

-- The digits of a port stand for it.
pub value_from-decimal : (n v : ℕ) → v < power_ten (suc n) → value_from 0 (decimal n v) ≡ v
unfolding decimal
value_from-decimal zero v h = omega (arith, h)
value_from-decimal (suc n) v h = elim (Bool-cases (ltb v 10)) [
  | inl small ↦ ground (arith, small)
  | inr large ↦
      let rest = value_from-decimal n (v / 10) (omega (arith, h)) in
      let split = value_from-append 0 (decimal n (v / 10)) (b'0' + v % 10) in
      ground (arith, large, split, rest)
]

-- At most as many digits as a bound has.
pub length-decimal : (n k v : ℕ) → k ≤ n → v < power_ten (suc k) → length (decimal n v) ≤ suc k
unfolding decimal
length-decimal zero k v le h = omega arith
length-decimal (suc n) zero v le h = ground (arith, h)
length-decimal (suc n) (suc k) v le h =
    let rest = length-decimal n k (v / 10) (omega (arith, le)) (omega (arith, h)) in
    ground (arith, rest, length-append (decimal n (v / 10)) ((b'0' + v % 10) ∷ []))

-- The address of a host name of at most 128 bytes and a port fits its array, with the terminator.
pub length-address_of :
    (hostname : Text) (port : ℕ)
    → length hostname ≤ 128
    → port ≤ 65535
    → length (address_of hostname port) < address_size
unfolding address_of
length-address_of hostname port short bound =
    let digits = length-decimal 9 4 port (omega arith) (omega (arith, bound)) in
    let tail = length-append (codes "mqtts://" ++ hostname ++ codes ":") (decimal 9 port) in
    let middle = length-append (codes "mqtts://" ++ hostname) (codes ":") in
    omega (arith, digits, tail, middle, short)
