-- ===== src/Input.antt =====
-- Input/LEDInput.c: the blinking and the cycling example, over the server's translateToOutput.
-- Sleeping between pictures is left out. `first` and `second` say whether malloc gives the two
-- blocks; a write through NULL is undefined.
pub mod Cycling
pub mod Console
pub mod Filling
pub mod Files
pub mod Playing
pub mod Pauses
pub mod Menus
pub mod Choosing
pub mod Choices
pub mod Session
pub mod FileMenu
pub mod Requests
use ledcontroller.Prelude.{
  ℕ, zero, suc, ◌-◌, ◌*◌, ◌/◌, ◌%◌, Bool, ◌&&◌, List, [], ◌∷◌, ◌==◌, if◌then◌else◌,
}
use ledcontroller.Led.{Rgb, AddressableLed, black}
use ledcontroller.Run.{Run, pure, undefined, ◌>>=◌, ◌>>◌}
use ledcontroller.Server.Header.{LedServer}

-- The LED with that row and column, in that colour.
abbrev pub led : ℕ → ℕ → Rgb → AddressableLed
led row column rgb = record { address = record { row = row; column = column }; led_value = rgb }

abbrev pub loading_rgb : Rgb
loading_rgb = record { red = 165; green = 242; blue = 243 }

abbrev blink_rgb : Rgb
blink_rgb = record { red = 255; green = 100; blue = 0 }

-- The two LEDs of one step: the LED before goes dark, in a grid of two rows with five LEDs.
unfoldable pub cycle_leds : ℕ → List AddressableLed
cycle_leds index =
    let before =
      if index == 0
      then led (2 - 1) (5 - 1) black
      else led ((index - 1) / 5) ((index - 1) % 5) black in
    before ∷ led (index / 5) (index % 5) loading_rgb ∷ []

module _ {S : Type 0} (server : LedServer S) where
  blink : ℕ → Run S (Unit {0})
  blink zero = pure tt
  blink (suc left) = do
    server.translate_to_output (led 0 1 blink_rgb ∷ []) 1
    server.translate_to_output (led 0 1 black ∷ []) 1
    blink left

  pub print_blinking_example : Run S (Unit {0})
  unfolding blink
  print_blinking_example = blink 10

  -- The inner loop, from `index` on with `left` rounds to go.
  cycle_round : ℕ → ℕ → Run S (Unit {0})
  unfolding cycle_leds
  cycle_round zero index = pure tt
  cycle_round (suc left) index = do
    server.translate_to_output (cycle_leds index) 2
    cycle_round left (suc index)

  cycle : ℕ → Run S (Unit {0})
  unfolding cycle_round
  cycle zero = pure tt
  cycle (suc left) = do cycle_round (2 * 5) 0; cycle left

  pub print_cycling_example : Bool → Bool → Run S (Unit {0})
  unfolding cycle
  print_cycling_example first second = if first && second then cycle 5 else undefined
