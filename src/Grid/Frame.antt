-- ===== src/Grid/Frame.antt =====
-- Output/SimulatedLED.c as a device of Output/LEDConsoleOut.h.
use ledcontroller.Prelude.{ℕ, ◌%◌, ◌^◌, ◌≡◌, refl, ◌∙◌, List, Option, some, set}
use ledcontroller.Led.{Rgb}
use ledcontroller.Device.{IsFrame}
use ledcontroller.Grid.{Print, Grid, set_led, simulated}
use ledcontroller.Grid.Valid.{IsGrid, leds_of, with_leds, set_led-with_leds, set_led-IsGrid}
use ledcontroller.Grid.Draw.{print_led_grid_total}

with_screen-IsGrid : (g : Grid) (text : List Print) → IsGrid g → IsGrid (record g { screen = text })
with_screen-IsGrid g text v = record {
  rows = v.rows;
  columns = v.columns;
  fits = v.fits;
  count = v.count;
  block = v.block;
  size = v.size;
}

-- On an initialised grid `setLed` never faults. It gives the LED at the address, cut to 16 bits,
-- the colour if there is such an LED, and leaves every other LED, the sizes and what was drawn; the
-- grid stays valid.
pub set_led-update :
    (address : ℕ) (rgb : Rgb) (g : Grid)
    → IsGrid g
    → (g' : Grid) × (set_led address rgb g ≡ some g')
      × IsGrid g'
      × (leds_of g' ≡ set (leds_of g) (address % 2 ^ 16) rgb)
      × (g'.row_length ≡ g.row_length)
      × (g'.column_length ≡ g.column_length)
      × (g'.screen ≡ g.screen)
set_led-update address rgb g v = (
  with_leds g (set (leds_of g) (address % 2 ^ 16) rgb),
  set_led-with_leds address rgb g (leds_of g) v.block v.size,
  set_led-IsGrid address rgb g v,
  refl,
  refl,
  refl,
  refl,
)

-- `setLed` writes the addressed LED and no other, or none if the address is out of range;
-- `printLedGrid` changes no LED; sizes stay; nothing faults.
pub simulated-IsFrame : (malloc : ℕ → Option (List Rgb)) → IsFrame (simulated malloc) IsGrid leds_of
simulated-IsFrame malloc = record {
  set_ready = λ address rgb g v.
      let (g', e, v', update, rows, columns, _) = set_led-update address rgb g v in
      (g', e, v', update, rows, columns);
  print_ready = λ g v.
      let (text, e) = print_led_grid_total g v in
      (record g { screen = _ }, e, with_screen-IsGrid g _ v, refl, refl, refl);
  size_ready = λ g v. (v.rows.0, v.rows.1, v.columns.0, v.columns.1, v.fits, v.size ∙ v.count);
}
