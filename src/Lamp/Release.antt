-- ===== src/Lamp/Release.antt =====
-- lamp_control.c, `lamp_release_channels`: the in-place release against a reference that keeps the
-- pins whose release failed in a list of their own.
use hq_led_lamp.Common.{
  ℕ, zero, suc, ◌-◌, ◌≤◌, ◌<◌, ◌≡◌, refl, false, true, List, [], ◌∷◌, length, take, arith,
  if◌then◌else◌, sym, ◌∙◌, false≢true,
}
use hq_led_lamp.Lamp.Types.{HalStatus, lamp_control_max_channels}
use hq_led_lamp.Lamp.Hal.{Hal, is_ok, is_ok_ok}
use hq_led_lamp.Lamp.Control.{Lamp, tracked, release_loop, clear_pins, release_channels}

module _ (hal : Hal) where
  open hal use {World, pin_none, pwm_deinit}

  -- The first error, the pins that stay, and the hardware.
  unfoldable pub release_reference : List ℕ → World → HalStatus × List ℕ × World
  release_reference [] w = (HalStatus.ok, [], w)
  release_reference (p ∷ pins) w =
      let (hs, w1) = pwm_deinit p w in
      let (first_error, kept, w2) = release_reference pins w1 in
      if is_ok hs then (first_error, kept, w2) else (hs, p ∷ kept, w2)

  abbrev Agrees : List ℕ → ℕ → World → Type 0
  Agrees pins n w =
      let (e, kept, pins', w') = release_loop hal n 0 0 HalStatus.ok pins w in
      let (e', stay, w'') = release_reference (take n pins) w in
      (e ≡ e')
      × (kept ≡ length stay)
      × (take kept (clear_pins hal (lamp_control_max_channels - kept) kept pins') ≡ stay)
      × (length (clear_pins hal (lamp_control_max_channels - kept) kept pins') ≡ 3)
      × (w' ≡ w'')

  release_array : (a b c n : ℕ) (w : World) → n ≤ 3 → Agrees (a ∷ b ∷ c ∷ []) n w
  unfolding release_loop clear_pins release_reference
  release_array a b c zero w h = ground (arith, is_ok_ok)
  release_array a b c (suc zero) w h = ground (arith, is_ok_ok)
  release_array a b c (suc (suc zero)) w h = ground (arith, is_ok_ok)
  release_array a b c (suc (suc (suc zero))) w h = ground (arith, is_ok_ok)
  release_array a b c (suc (suc (suc (suc n)))) w h = absurd (omega arith)

  Agrees_lem : (pins : List ℕ) (n : ℕ) (w : World) → length pins ≡ 3 → n ≤ 3 → Agrees pins n w
  Agrees_lem [] n w l h = absurd (omega arith)
  Agrees_lem (a ∷ []) n w l h = absurd (omega arith)
  Agrees_lem (a ∷ b ∷ []) n w l h = absurd (omega arith)
  Agrees_lem (a ∷ b ∷ c ∷ []) n w l h = release_array a b c n w h
  Agrees_lem (a ∷ b ∷ c ∷ d ∷ r) n w l h = absurd (omega arith)

  -- With three places and at most three channels, the in-place release returns the first error,
  -- tracks exactly the pins whose release failed, in their order, keeps the array's length, and
  -- calls the hardware as the reference does.
  pub release_channels-eq-reference :
      (s : Lamp) (w : World)
      → length s.pins ≡ 3
      → s.channel_count ≤ 3
      → let (e, t, w') = release_channels hal s w in
        let (e', stay, w'') = release_reference (tracked hal s) w in
        (e ≡ e')
        × (tracked hal t ≡ stay)
        × (t.channel_count ≡ length stay)
        × (length t.pins ≡ 3)
        × (w' ≡ w'')
  unfolding release_channels
  release_channels-eq-reference s w l h =
      let (e, kept, placed, sized, same) = Agrees_lem s.pins s.channel_count w l h in
      (e, placed, kept, sized, same)

  pub length-take_le : (n : ℕ) (xs : List ℕ) → length (take n xs) ≤ n
  length-take_le zero xs = omega arith
  length-take_le (suc n) [] = omega arith
  length-take_le (suc n) (x ∷ xs) = omega (arith, length-take_le n xs)

  -- The reference keeps no more pins than it was given, and none exactly if it reports no error.
  pub release_reference_bounds :
      (pins : List ℕ) (w : World)
      → let (e, stay, w') = release_reference pins w in
        (length stay ≤ length pins)
        × (is_ok e ≡ true → length stay ≡ 0)
        × (is_ok e ≡ false → 0 < length stay)
  unfolding release_reference
  release_reference_bounds [] w =
      (omega arith, λ h. refl, λ h. absurd (false≢true (sym h ∙ is_ok_ok)))
  release_reference_bounds (p ∷ pins) w =
      ground (arith, release_reference_bounds pins (pwm_deinit p w).1)

  -- What a release leaves of the bounds on the channel count.
  pub release_channels_bounds :
      (s : Lamp) (w : World)
      → length s.pins ≡ 3
      → s.channel_count ≤ 3
      → let (e, t, w') = release_channels hal s w in
        (length t.pins ≡ 3)
        × (t.channel_count ≤ 3)
        × (is_ok e ≡ true → t.channel_count ≡ 0)
        × (is_ok e ≡ false → 0 < t.channel_count)
  release_channels_bounds s w l h = ground (
    arith,
    release_channels-eq-reference s w l h,
    release_reference_bounds (tracked hal s) w,
    length-take_le s.channel_count s.pins,
  )
