-- ===== src/Strip.antt =====
-- Output/WS2812b_STM32F4Disc.c: the WS2812b strip, whose code is a frame with its parts to do.
-- malloc is a parameter: it gives no block, or one of the wanted length with unknown contents.
pub mod Missing
use ledcontroller.Prelude.{ℕ, ◌+◌, ◌*◌, ◌/◌, ◌%◌, ◌^◌, List, Option, none, some, ltb, if◌then◌else◌}
use ledcontroller.Led.{Rgb, CommError}
use ledcontroller.Run.{Outcome, Run, done, pure}
use ledcontroller.Device.{Device}
use ledcontroller.Output.{Setup}
use ledcontroller.Led

-- The statics of the file: the bytes for the timer, and their number.
pub record Strip : Type 0 where
  pub output_grid : Option (List ℕ)
  pub buffer_size : ℕ

abbrev pub number_of_led : ℕ
number_of_led = 300

-- The sizeof of struct WS2812bLED: eight bytes for each of three colours.
abbrev led_bytes : ℕ
led_bytes = 24

-- This setupNetwork does nothing.
pub setup_network : {W : Type 0} → W → ℕ → Setup W
setup_network w address = record { world = w; address = address; result = Led.CommError.success }

pub init_led_grid : (ℕ → Option (List ℕ)) → Run Strip (Unit {0})
init_led_grid malloc strip =
    let extra_wait = (50000 / 1250 + 2) % 2 ^ 8 in
    let size = number_of_led * led_bytes + extra_wait in
    done tt (record { output_grid = malloc size; buffer_size = size })

-- This function has no code, and nothing calls it.
init_timer_dma : Run Strip (Unit {0})
init_timer_dma = pure tt

-- The address is compared and the colour dropped.
unfoldable pub set_led : ℕ → Rgb → Strip → Option Strip
set_led address rgb strip = if ltb (address % 2 ^ 16) number_of_led then some strip else some strip

unfoldable pub clean_led_grid : Strip → Strip
clean_led_grid strip = record strip { output_grid = none }

abbrev pub strip : (malloc : ℕ → Option (List ℕ)) → Device Strip
strip malloc = record {
  init_led_grid = λ fuel. init_led_grid malloc;
  row_length = λ s. 1;
  column_length = λ s. number_of_led;
  set_led = set_led;
  print_led_grid = some;
  clean_led_grid = clean_led_grid;
}
