-- ===== src/Grid/Valid.antt =====
-- Output/SimulatedLED.c: the invariant of an initialised grid, and the operations under it.
use ledcontroller.Prelude.{
  ℕ, ◌*◌, ◌%◌, ◌^◌, ◌≤◌, ◌<◌, ◌≡◌, refl, List, [], some, arith, length, set, length-set, set_beyond,
}
use mathlib.Core.Option
use ledcontroller.Led.{Rgb}
use ledcontroller.Grid.{Grid, set_led}

abbrev pub leds_of : Grid → List Rgb
leds_of g = Option.get_or g.output_grid []

-- Sizes of at least 1 and a product that an `int` holds; the count is the product cut to 16
-- bits, and the block has that many LEDs.
pub record IsGrid (g : Grid) : Type 0 where
  pub rows : (1 ≤ g.row_length) × (g.row_length < 2 ^ 16)
  pub columns : (1 ≤ g.column_length) × (g.column_length < 2 ^ 16)
  pub fits : g.row_length * g.column_length < 2 ^ 31
  pub count : g.number_of_leds ≡ g.row_length * g.column_length % 2 ^ 16
  pub block : g.output_grid ≡ some (leds_of g)
  pub size : length (leds_of g) ≡ g.number_of_leds

abbrev pub with_leds : Grid → List Rgb → Grid
with_leds g leds = record g { output_grid = some leds }

-- On a block of the right size, `setLed` is the list update: never a fault.
pub set_led-with_leds :
    (address : ℕ) (rgb : Rgb) (g : Grid) (leds : List Rgb)
    → g.output_grid ≡ some leds
    → length leds ≡ g.number_of_leds
    → set_led address rgb g ≡ some (with_leds g (set leds (address % 2 ^ 16) rgb))
unfolding set_led
set_led-with_leds address rgb g leds block size =
    ground (arith, set_beyond leds (address % 2 ^ 16) rgb)

pub set_led-IsGrid :
    (address : ℕ) (rgb : Rgb) (g : Grid)
    → IsGrid g
    → IsGrid (with_leds g (set (leds_of g) (address % 2 ^ 16) rgb))
set_led-IsGrid address rgb g v = record {
  rows = v.rows;
  columns = v.columns;
  fits = v.fits;
  count = v.count;
  block = refl;
  size = omega (arith, v.size, length-set (leds_of g) (address % 2 ^ 16) rgb);
}
