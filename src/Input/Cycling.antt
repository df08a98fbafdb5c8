-- ===== src/Input/Cycling.antt =====
-- Input/LEDInput.c: the pictures of the cycling example.
use ledcontroller.Prelude.{ℕ, zero, suc, ◌+◌, ◌%◌, ◌<◌, ◌≡◌, refl, List, arith, set, replicate}
use ledcontroller.Led.{Rgb, black}
use ledcontroller.Input.{loading_rgb, cycle_leds}
use ledcontroller.Link.Sequence.{picture}

-- Ten LEDs, of which one shines.
abbrev pub lit : ℕ → List Rgb
lit index = set (replicate 10 black) index loading_rgb

-- On a grid of two rows with five LEDs, of which only the LED before in the cycle shines, the
-- sequence of a step of the cycling example leaves only the step's own LED shining; the first LED
-- follows the last.
pub cycle_leds-lit :
    (index : ℕ) → index < 10 → picture 2 5 (cycle_leds index) (lit ((index + 9) % 10)) ≡ lit index
unfolding cycle_leds
cycle_leds-lit zero below = refl
cycle_leds-lit (suc zero) below = refl
cycle_leds-lit (suc (suc zero)) below = refl
cycle_leds-lit (suc (suc (suc zero))) below = refl
cycle_leds-lit (suc (suc (suc (suc zero)))) below = refl
cycle_leds-lit (suc (suc (suc (suc (suc zero))))) below = refl
cycle_leds-lit (suc (suc (suc (suc (suc (suc zero)))))) below = refl
cycle_leds-lit (suc (suc (suc (suc (suc (suc (suc zero))))))) below = refl
cycle_leds-lit (suc (suc (suc (suc (suc (suc (suc (suc zero)))))))) below = refl
cycle_leds-lit (suc (suc (suc (suc (suc (suc (suc (suc (suc zero))))))))) below = refl
cycle_leds-lit (suc (suc (suc (suc (suc (suc (suc (suc (suc (suc index)))))))))) below =
    absurd (omega arith)
