-- ===== src/Device.antt =====
-- Output/LEDConsoleOut.h: what the output program asks of the LEDs it drives. The simulated grid
-- (Grid) is one device; the WS2812b strip (Strip) is another, unfinished.
pub mod Paint
use ledcontroller.Prelude.{
  ℕ, zero, suc, ◌*◌, ◌%◌, ◌^◌, ◌<◌, ◌≤◌, ◌≡◌, List, Option, none, some, length, set,
}
use ledcontroller.Led.{Rgb}
use ledcontroller.Run.{Run}

-- `D` is the device's state. `none` is what C leaves undefined, such as a write through NULL.
pub record Device (D : Type 0) : Type 0 where
  -- The fuel bounds the lines that the device reads from its console.
  pub init_led_grid : ℕ → Run D (Unit {0})
  pub row_length : D → ℕ
  pub column_length : D → ℕ
  pub set_led : ℕ → Rgb → D → Option D
  pub print_led_grid : D → Option D
  pub clean_led_grid : D → D

-- What a client may rely on: `leds` is the colour of each LED by its address, and `IsReady` is
-- what holds once the device is initialised.
pub record IsFrame {D : Type 0} (device : Device D) (IsReady : D → Type 0) (leds : D → List Rgb)
    : Type 0 where
  pub set_ready :
      (address : ℕ) (rgb : Rgb) (d : D)
      → IsReady d
      → (d' : D) × (device.set_led address rgb d ≡ some d')
        × IsReady d'
        × (leds d' ≡ set (leds d) (address % 2 ^ 16) rgb)
        × (device.row_length d' ≡ device.row_length d)
        × (device.column_length d' ≡ device.column_length d)
  pub print_ready :
      (d : D)
      → IsReady d
      → (d' : D) × (device.print_led_grid d ≡ some d')
        × IsReady d'
        × (leds d' ≡ leds d)
        × (device.row_length d' ≡ device.row_length d)
        × (device.column_length d' ≡ device.column_length d)
  pub size_ready :
      (d : D)
      → IsReady d
      → (1 ≤ device.row_length d)
        × (device.row_length d < 2 ^ 16)
        × (1 ≤ device.column_length d)
        × (device.column_length d < 2 ^ 16)
        × (device.row_length d * device.column_length d < 2 ^ 31)
        × (length (leds d) ≡ device.row_length d * device.column_length d % 2 ^ 16)

-- for (index; left more rounds; ++index) setLed(index, rgb);
unfoldable pub for_leds : {D : Type 0} → (ℕ → Rgb → D → Option D) → ℕ → ℕ → Rgb → D → Option D
for_leds write zero index rgb d = some d
for_leds write (suc left) index rgb d = elim (write index rgb d) [
  | none ↦ none
  | some d' ↦ for_leds write left (suc index) rgb d'
]
