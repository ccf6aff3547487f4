-- ===== src/TbApplication/Telemetry.antt =====
-- tb_application.c: what a configured text contributes to a telemetry record.
use hq_led_lamp.Common.{
  ℕ, suc, zero, refl, ◌≤◌, ◌≡◌, inl, inr, true, Bool-cases, some, [], ◌∷◌, All, arith, length, take,
  if◌then◌else◌,
}
use hq_led_lamp.Json.{Text}
use hq_led_lamp.TbApplication.Updates.{telemetry_safe_char, copy_safe, copy_telemetry_string}

abbrev pub IsSafe : Text → Type 0
IsSafe = All (λ c. telemetry_safe_char c ≡ true)

-- The bytes of a text before the first that is not safe.
abbrev pub safe_prefix : Text → Text
safe_prefix [] = []
safe_prefix (c ∷ cs) = if telemetry_safe_char c then c ∷ safe_prefix cs else []

copy_safe-length : (src : Text) (room : ℕ) → length (copy_safe src room) ≤ room
unfolding copy_safe
copy_safe-length [] room = omega arith
copy_safe-length (c ∷ cs) zero = omega arith
copy_safe-length (c ∷ cs) (suc room) = ground (arith, copy_safe-length cs room)

copy_safe-IsSafe : (src : Text) (room : ℕ) → IsSafe (copy_safe src room)
unfolding copy_safe
copy_safe-IsSafe [] room = tt
copy_safe-IsSafe (c ∷ cs) zero = tt
copy_safe-IsSafe (c ∷ cs) (suc room) = elim (Bool-cases (telemetry_safe_char c)) [
  | inl e ↦ rw e (e, copy_safe-IsSafe cs room)
  | inr e ↦ rw e tt
]

copy_safe-take : (src : Text) (room : ℕ) → copy_safe src room ≡ take room (safe_prefix src)
unfolding copy_safe
copy_safe-take [] zero = refl
copy_safe-take [] (suc room) = refl
copy_safe-take (c ∷ cs) zero = refl
copy_safe-take (c ∷ cs) (suc room) = elim (Bool-cases (telemetry_safe_char c)) [
  | inl e ↦ rw (e, copy_safe-take cs room)
  | inr e ↦ rw e
]

-- Into a buffer with `size` places before the terminator goes the safe beginning of the text, as much
-- of it as fits: the copy has only safe bytes and at most `size` of them.
pub copy_telemetry_string_lem :
    (src : Text) (size : ℕ)
    → (copied : Text) × (copy_telemetry_string (some src) (suc size) ≡ some copied)
      × (copied ≡ take size (safe_prefix src))
      × IsSafe copied
      × (length copied ≤ size)
unfolding copy_telemetry_string
copy_telemetry_string_lem src size = (
  copy_safe src size,
  refl,
  copy_safe-take src size,
  copy_safe-IsSafe src size,
  copy_safe-length src size,
)
